-- ===== src/Protocol/Pairs/Parsed.antt =====
-- The loop of the decoders over a body that holds pairs.
use ad_rtb_adapter.Base.Int.{pos, ltb_ℤ, ◌+ℤ◌, signed32}
use ad_rtb_adapter.Base.{
  ℕ, ◌+◌, ◌*◌, ◌^◌, ◌≤◌, ◌<◌, Option, none, some, [], ◌∷◌, ◌++◌, length, ◌≡◌, refl, arith,
  append_assoc, length-append, true, ap, sym, ◌∙◌,
}
use ad_rtb_adapter.Protocol.Wire.{
  Bytes, put32, get8, get32-put32, get_bytes-append, drop-append_length,
}
use ad_rtb_adapter.Protocol.Pairs.{
  pair_bytes, Slot, Table, find, assign, value, store, parse, read_from,
}
use ad_rtb_adapter.Protocol.Pairs.Encoded.{Pairs, bytes_of, length-pair_bytes}

-- Every value's size is an `int`.
abbrev pub Sized : Pairs → Type 0
Sized [] = Unit {0}
Sized ((key, v) ∷ ps) = (length v < 2 ^ 31) × Sized ps

step_at : (n m : ℕ) → m < 2 ^ 31 → pos n +ℤ pos 5 +ℤ signed32 m ≡ pos (n + (5 + m))
unfolding ◌+ℤ◌
step_at n m h = ground arith

pub Sized-of_length : (ps : Pairs) → length (bytes_of ps) < 2 ^ 31 → Sized ps
Sized-of_length [] h = tt
Sized-of_length ((key, v) ∷ ps) h =
    let a = length-append (pair_bytes key v) (bytes_of ps) in
    let b = length-pair_bytes key v in (omega arith, Sized-of_length ps (omega arith))

pub length-le-bytes : (ps : Pairs) → length ps * 5 ≤ length (bytes_of ps)
length-le-bytes [] = omega arith
length-le-bytes ((key, v) ∷ ps) = omega (
  arith,
  length-append (pair_bytes key v) (bytes_of ps),
  length-pair_bytes key v,
  length-le-bytes ps,
)

module _ {R : Type 0} where
  -- A pair is stored in the field that the table has for its key, and dropped if there is none.
  abbrev pub keep : Option (Slot R) → Bytes → R → R
  keep none v r = r
  keep (some slot) v r = assign slot v r

  abbrev pub keep_all : Table R → Pairs → R → R
  keep_all table [] r = r
  keep_all table ((key, v) ∷ ps) r = keep_all table ps (keep (find key table) v r)

  store_lem :
      (slot : Option (Slot R)) (v rest : Bytes) (r : R)
      → length v < 2 ^ 31
      → store slot (signed32 (length v)) (v ++ rest) r ≡ some (keep slot v r)
  unfolding store value
  store_lem none v rest r h = refl
  store_lem (some slot) v rest r h =
      let e : signed32 (length v) ≡ pos (length v) = ground arith in rw (e, get_bytes-append v rest)

  -- The loop consumes the pairs, whatever stands in front of them and behind.
  pub parse-bytes_of :
      (table : Table R) (ps : Pairs) (before after body : Bytes) (size : ℕ) (r : R)
      → Sized ps
      → body ≡ before ++ (bytes_of ps ++ after)
      → size ≡ length before + length (bytes_of ps)
      → parse (length ps) table body (pos size) (pos (length before)) r ≡ some (keep_all table ps r)
  unfolding parse get8
  parse-bytes_of table [] before after body size r s e n = refl
  parse-bytes_of table ((key, v) ∷ ps) before after body size r s e n =
      let here = before ++ pair_bytes key v in
      let more : ltb_ℤ (pos (length before)) (pos size) ≡ true = ground arith in
      let at : read_from body (pos (length before))
          ≡ key ∷ (put32 (length v) ++ (v ++ (bytes_of ps ++ after))) =
        rw (e, drop-append_length before _, append_assoc (pair_bytes key v) (bytes_of ps) after)
          (ap (λ x. key ∷ x) (append_assoc (put32 (length v)) v (bytes_of ps ++ after))) in
      let past : length before + (5 + length v) ≡ length here =
        omega (arith, length-append before (pair_bytes key v), length-pair_bytes key v) in
      rw
        (
          more,
          at,
          get32-put32 (length v) (v ++ (bytes_of ps ++ after)) (omega arith),
          store_lem (find key table) v (bytes_of ps ++ after) r s.0,
          step_at (length before) (length v) s.0,
          past,
        )
        (parse-bytes_of table ps here after body size (keep (find key table) v r) s.1
          (e
            ∙ (ap (λ x. before ++ x) (append_assoc (pair_bytes key v) (bytes_of ps) after)
                ∙ sym (append_assoc before (pair_bytes key v) (bytes_of ps ++ after))))
          (omega (
            arith,
            length-append (pair_bytes key v) (bytes_of ps),
            length-pair_bytes key v,
            length-append before (pair_bytes key v),
          )))
