-- ===== src/User/Last.antt =====
-- What `AdUserInfoParse` takes from a reply whose body holds pairs.
use ad_rtb_adapter.Base.{
  ℕ, zero, suc, ◌+◌, ◌%◌, ◌^◌, ◌<◌, ◌≡◌, refl, ap, ◌∙◌, true, false, Option, none, some, [], ◌∷◌,
  ◌++◌, length, append_assoc, length-append, ◌==◌, arith,
}
use mathlib.Core.Option.{none-ne-some}
use ad_rtb_adapter.Base.Int.{ℤ, pos, signed32, ltb_ℤ, ◌-ℤ◌}
use ad_rtb_adapter.Protocol.Head.{Head, head_len, get_head}
use ad_rtb_adapter.Protocol.Pairs.Encoded.{Pairs, bytes_of, length-pair_bytes}
use ad_rtb_adapter.Protocol.Pairs.{pair_bytes, ◌>>=◌}
use ad_rtb_adapter.Protocol.Wire.{Bytes, ok, put32, get8, get32-put32, get_bytes-append}
use ad_rtb_adapter.Strings.{Libc}
use ad_rtb_adapter.User.{UserData, store, user_pairs, user_parse, parse_body, is_pos}

bind_some :
    {A B : Type 0} (m : Option A) (f : A → Option B) {b : B}
    → (m >>= f) ≡ some b
    → (a : A) × (m ≡ some a) × (f a ≡ some b)
bind_some none f h = absurd (none-ne-some _ h)
bind_some (some a) f h = (a, refl, h)

rest_is_head : (n : ℕ) → is_pos (pos (head_len + n) -ℤ pos n) head_len ≡ true
unfolding ◌-ℤ◌
rest_is_head n = ground arith

-- Every value has a byte at least.
abbrev pub NotEmpty : Pairs → Type 0
NotEmpty [] = Unit {0}
NotEmpty ((key, v) ∷ ps) = (0 < length v) × NotEmpty ps

module _ (c : Libc) (now : ℕ) where
  -- The pairs are stored one after another; `none` when a key is not known.
  abbrev pub store_all : Pairs → UserData → Option UserData
  store_all [] d = some d
  store_all ((key, v) ∷ ps) d = store c now key v d >>= store_all ps

  stop_last :
      (left i : ℕ) (key : ℕ) (v after : Bytes) (end : ℕ) (d : UserData)
      → 0 < length v
      → end ≡ i + (5 + length v)
      → end < 2 ^ 30
      → user_pairs c now (suc left) i (pair_bytes key v ++ after) (pos end) (pos (head_len + end)) d
        ≡ some d
  unfolding user_pairs get8
  stop_last left i key v after end d z e h =
      let more : ltb_ℤ (pos (i + 1)) (pos end) ≡ true = ground (arith, e, z) in
      let some_bytes : ltb_ℤ (pos 0) (signed32 (length v)) ≡ true = ground (arith, e, z, h) in
      let room : ltb_ℤ (pos (head_len + end))
            (signed32 ((head_len + i + 5 + 1 + length v) % 2 ^ 32))
          ≡ true =
        ground (arith, e, h) in
      rw
        (
          more,
          append_assoc (put32 (length v)) v after,
          get32-put32 (length v) (v ++ after) (omega (arith, e, h)),
          some_bytes,
          room,
        )
        refl

  pass_pair :
      (left i : ℕ) (key : ℕ) (v rest : Bytes) (end : ℕ) (d d' : UserData)
      → 0 < length v
      → i + (5 + length v) < end
      → end < 2 ^ 30
      → store c now key v d ≡ some d'
      → user_pairs c now (suc left) i (pair_bytes key v ++ rest) (pos end) (pos (head_len + end)) d
        ≡ user_pairs c now left (i + 5 + length v) rest (pos end) (pos (head_len + end)) d'
  unfolding user_pairs get8
  pass_pair left i key v rest end d d' z e h st =
      let more : ltb_ℤ (pos (i + 1)) (pos end) ≡ true = ground (arith, e, z) in
      let some_bytes : ltb_ℤ (pos 0) (signed32 (length v)) ≡ true = ground (arith, e, z, h) in
      let room : ltb_ℤ (pos (head_len + end))
            (signed32 ((head_len + i + 5 + 1 + length v) % 2 ^ 32))
          ≡ false =
        ground (arith, e, h) in
      rw
        (
          more,
          append_assoc (put32 (length v)) v rest,
          get32-put32 (length v) (v ++ rest) (omega (arith, e, h)),
          some_bytes,
          room,
          get_bytes-append v rest,
          ◌>>=◌,
          st,
        )
        refl

  -- The pairs in front of the last one are stored, and the last one is not.
  pairs_but_last :
      (ps : Pairs) (left i : ℕ) (key : ℕ) (v after : Bytes) (end : ℕ) (d d' : UserData)
      → length ps < left
      → NotEmpty ps
      → 0 < length v
      → end ≡ i + (length (bytes_of ps) + (5 + length v))
      → end < 2 ^ 30
      → store_all ps d ≡ some d'
      → user_pairs c now left i
          (bytes_of ps ++ (pair_bytes key v ++ after))
          (pos end)
          (pos (head_len + end))
          d
        ≡ some d'
  pairs_but_last ps zero i key v after end d d' l n z e h st = absurd (omega (arith, l))
  pairs_but_last [] (suc left) i key v after end d d' l n z e h st =
      stop_last left i key v after end d z (omega (arith, e)) h ∙ st
  pairs_but_last ((k, w) ∷ ps) (suc left) i key v after end d d' l n z e h st =
      let (d1, first, others) = bind_some (store c now k w d) (store_all ps) st in
      let lw = length-append (pair_bytes k w) (bytes_of ps) in
      let lk = length-pair_bytes k w in
      rw (append_assoc (pair_bytes k w) (bytes_of ps) (pair_bytes key v ++ after)) (
        pass_pair left i k w (bytes_of ps ++ (pair_bytes key v ++ after)) end d d1 n.0
          (omega (arith, e, lw, lk)) h first
        ∙ pairs_but_last ps left (i + 5 + length w) key v after end d1 d' (omega (arith, l)) n.1 z
            (omega (arith, e, lw, lk)) h others)

  -- A reply with the head `h` and a body of pairs, of which `h` gives the number and the size, and
  -- nothing behind them in the datagram, where every value has a byte at least and the keys in front of
  -- the last one are known: the parser succeeds with all pairs but the last one, which is dropped.
  pub user_parse-but_last :
      (h : Head) (ps : Pairs) (key : ℕ) (v packet after : Bytes) (d d' : UserData)
      → get_head packet ≡ ok (h, bytes_of ps ++ (pair_bytes key v ++ after))
      → h.total ≡ length ps + 1
      → h.size ≡ pos (length (bytes_of ps) + (5 + length v))
      → length (bytes_of ps) + (5 + length v) < 2 ^ 30
      → NotEmpty ps
      → 0 < length v
      → store_all ps d ≡ some d'
      → user_parse c now packet (head_len + (length (bytes_of ps) + (5 + length v))) d
        ≡ some (d', true)
  unfolding user_parse
  user_parse-but_last h ps key v packet after d d' e t n b f z st =
      let size = length (bytes_of ps) + (5 + length v) in
      let body = bytes_of ps ++ (pair_bytes key v ++ after) in
      let fits : is_pos (pos (head_len + size) -ℤ h.size) head_len ≡ true =
        ap (λ (x : ℤ). is_pos (pos (head_len + size) -ℤ x) head_len) n ∙ rest_is_head size in
      let some_pairs : (h.total == 0) ≡ false = ground (arith, t) in
      let run : user_pairs c now h.total 0 body h.size (pos (head_len + size)) d ≡ some d' =
        ap (λ (x : ℤ). user_pairs c now h.total 0 body x (pos (head_len + size)) d) n
        ∙ pairs_but_last ps h.total 0 key v after size d d' (omega (arith, t)) f z (omega arith) b
            st in
      ap (parse_body c now (head_len + size) d) e ∙ rw (fits, some_pairs, run) refl
