-- ===== src/Protocol/Packet/RoundTrip.antt =====
-- A packet without expand head, as the receiver takes it apart again.
use ad_rtb_adapter.Base.Int.{pos, ◌+ℤ◌}
use ad_rtb_adapter.Base.{
  suc, ℕ, ◌+◌, ◌^◌, ◌≤◌, ◌<◌, ◌≡◌, ap, sym, ◌∙◌, List, [], ◌∷◌, ◌++◌, ◌==◌, if◌then◌else◌, length,
  take, drop, arith, append_assoc, append-nil, Bool-cases, inl, inr,
}
use ad_rtb_adapter.Protocol.Wire.{
  Bytes, Run, ok, failure, fault, get_bytes-append, take-append_length,
}
use ad_rtb_adapter.Protocol.Head.{flag_byte, Head, Protocol, body_comp, put_head}
use ad_rtb_adapter.Protocol.Head.RoundTrip.{length-put_head}
use ad_rtb_adapter.Protocol.Packet.{room, check_len, read_expand, inflated, inflate, deflate}
use ad_rtb_adapter.Protocol.Zlib.{Zlib, IsZlib}

-- The bytes that are sent of a body.
abbrev pub wire_body : Zlib → ℕ → Bytes → Bytes
wire_body z attr out = if attr == body_comp then z.compress room out else out

take_all : (xs : Bytes) → take (length xs) xs ≡ xs
take_all xs = rw append-nil at (take-append_length xs [])

pub length-wire_body :
    (z : Zlib) (attr : ℕ) (out : Bytes) → (deflate z attr out).1 ≡ length (wire_body z attr out)
unfolding deflate
length-wire_body z attr out = ground arith

-- Only what stands behind those bytes is left over from the uncompressed body.
pub deflate-wire_body :
    (z : Zlib) (attr : ℕ) (out : Bytes)
    → take (deflate z attr out).1 (deflate z attr out).0 ≡ wire_body z attr out
unfolding deflate
deflate-wire_body z attr out = elim (Bool-cases (attr == body_comp)) [
  | inl e ↦
      let c = z.compress room out in
      rw (e, append_assoc c (0 ∷ []) (drop (length (c ++ 0 ∷ [])) out)) (take-append_length c _)
  | inr e ↦ rw e (take_all out)
]

module _ (z : Zlib) (laws : IsZlib z) where
  -- A body of a size that zlib handles in AD_KBYTES4 comes out as it went in, and its size is put
  -- into the head.
  pub inflate-wire_body :
      (p : Protocol) (out rest : Bytes)
      → z.compress_bound (length out) ≤ room
      → length out ≤ room
      → p.head.size ≡ pos (length (wire_body z p.head.attr out))
      → (rest' : Bytes) × (inflate z p (wire_body z p.head.attr out ++ rest)
          ≡ ok (record p { head = record p.head { size = pos (length out) } }, out ++ rest'))
  unfolding inflate inflated
  inflate-wire_body p out rest hb hr e = elim (Bool-cases (p.head.attr == body_comp)) [
    | inl c ↦ (
      [],
      let c' : p.head.size ≡ pos (length (z.compress room out)) = rw c at e in
          rw (c, c', get_bytes-append (z.compress room out) rest, laws.round room room out hb hr)
            (rw append-nil),
    )
    | inr c ↦ (
      rest,
      let c' : p.head.size ≡ pos (length out) = rw c at e in
          rw c (ap (λ n. ok (record p { head = record p.head { size = n } }, out ++ rest)) c'),
    )
  ]

pub read_expand_plain :
    (len n : ℕ) (p : Protocol) (body : Bytes)
    → p.head.expand ≡ 0
    → p.head.size ≡ pos n
    → n + 12 < 2 ^ 31
    → n + 12 ≤ len
    → read_expand len p body ≡ ok (p, body)
unfolding read_expand check_len ◌+ℤ◌
read_expand_plain len n p body x e small fits = ground arith

pub take-append_add {ℓ} :
    {A : Type ℓ} (xs ys : List A) (n : ℕ) → take (length xs + n) (xs ++ ys) ≡ xs ++ take n ys
take-append_add [] ys n = let e : 0 + n ≡ n = omega arith in ap (λ m. take m ys) e
take-append_add (x ∷ xs) ys n =
    let e : suc (length xs) + n ≡ suc (length xs + n) = omega arith in
    ap (λ m. take m (x ∷ (xs ++ ys))) e ∙ ap (λ t. x ∷ t) (take-append_add xs ys n)

-- A head and a body, cut to what is sent.
pub take_packet :
    (h : Head) (z : Zlib) (attr : ℕ) (out : Bytes)
    → take (12 + (deflate z attr out).1) (put_head h ++ (deflate z attr out).0)
      ≡ put_head h ++ wire_body z attr out
take_packet h z attr out =
    ap (λ n. take (n + (deflate z attr out).1) (put_head h ++ (deflate z attr out).0))
      (sym (length-put_head h))
    ∙ take-append_add (put_head h) (deflate z attr out).0 (deflate z attr out).1
    ∙ ap (λ b. put_head h ++ b) (deflate-wire_body z attr out)

-- The size that zlib gives a body of at most AD_KBYTES4 bytes is at most that.
pub wire_body_short :
    (z : Zlib) (attr : ℕ) (out : Bytes)
    → IsZlib z
    → z.compress_bound (length out) ≤ room
    → length out ≤ room
    → length (wire_body z attr out) ≤ room
wire_body_short z attr out laws hb hr = ground (arith, laws.short room out hb)

-- The head of an encoder that adds no expand head. The constructor's is one.
pub record IsPlain (h : Head) : Type 0 where
  pub flag : h.flag ≡ flag_byte
  pub version : h.version < 8
  pub protocol : h.protocol < 2
  pub wide : h.wide < 2
  pub response : h.response < 2
  pub expand : h.expand ≡ 0

-- A body that zlib handles in AD_KBYTES4.
pub record IsSmall (z : Zlib) (out : Bytes) : Type 0 where
  pub bound : z.compress_bound (length out) ≤ room
  pub small : length out ≤ room

pub ok-injective {ℓ κ} : {S : Type ℓ} {A : Type κ} (a b : A) → Path (Run S A) (ok a) (ok b) → a ≡ b
ok-injective a b e = ap (λ m. elim m [ ok x ↦ x | failure _ ↦ a | fault ↦ a ]) e
