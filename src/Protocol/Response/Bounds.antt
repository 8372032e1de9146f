-- ===== src/Protocol/Response/Bounds.antt =====
-- What the encoder of responses writes, against the size of the buffer.
use ad_rtb_adapter.Base.Int.{pos, -ℤ_parts}
use ad_rtb_adapter.Base.{
  either_map, some, ℕ, ◌+◌, ◌-◌, ◌≤◌, ◌<◌, ◌≡◌, ◌≢◌, true, false, [], ◌∷◌, ◌++◌, ◌==◌, length,
  length-append, length-drop, drop, arith, Bool-cases, inl, inr, subst, ◌⊎◌,
}
use ad_rtb_adapter.Protocol.Wire.{Bytes, ok}
use ad_rtb_adapter.Protocol.Head.{Protocol, head_len, body_comp, result_unknow, put_head}
use ad_rtb_adapter.Protocol.Head.RoundTrip.{length-put_head}
use ad_rtb_adapter.Protocol.Packet.{Packet, room, deflate, overwrite}
use ad_rtb_adapter.Protocol.Pairs.{Emit, put_fields}
use ad_rtb_adapter.Protocol.Pairs.Encoded.{put_fields-Emits}
use ad_rtb_adapter.Protocol.Response.{Response, response_fields}
use ad_rtb_adapter.Protocol.Response.Codec.{response_head_len, finish_response, encode_response}
use ad_rtb_adapter.Protocol.Response.Success.{sent_head, start, made, size_of, encode_response_inv}
use ad_rtb_adapter.Protocol.Zlib.{Zlib}

length-overwrite :
    (xs ys : Bytes) (n : ℕ) → length xs ≤ n → length ys ≤ n → length (overwrite xs ys) ≤ n
length-overwrite xs ys n h k =
    omega (arith, length-append ys (drop (length ys) xs), length-drop (length ys) xs)

-- A body of at most `n` bytes stays within `n` bytes, but for the 0 behind compressed ones.
deflate_bound :
    (z : Zlib) (attr : ℕ) (out : Bytes) (n : ℕ)
    → length out ≤ n
    → ((attr ≡ body_comp → (deflate z attr out).1 ≤ n))
    → ((deflate z attr out).1 ≤ n)
      × (length (deflate z attr out).0 ≤ n + 1)
      × ((attr ≡ body_comp) ⊎ (length (deflate z attr out).0 ≤ n))
unfolding deflate
deflate_bound z attr out n h k = elim (Bool-cases (attr == body_comp)) [
  | inl e ↦
      let c = z.compress room out in
      let short : length c ≤ n = ground arith in
      rw e (
        short,
        length-overwrite out (c ++ 0 ∷ []) (n + 1) (omega arith)
            (omega (arith, length-append c (0 ∷ []))),
        inl (ground arith),
      )
  | inr e ↦ rw e (h, omega arith, inr h)
]

finish_response_bound :
    (p : Protocol) (body : Bytes) (size count len m : ℕ)
    → p.head.expand ≡ 0
    → size + 12 ≤ len
    → length body + 12 ≤ m
    → let packet = (finish_response p body size count).1 in
      (packet.sent ≤ len) × (length packet.memory ≤ m)
unfolding finish_response
finish_response_bound p body size count len m x h k =
    let e : (p.head.expand == 1) ≡ false = ground arith in
    rw e (omega arith, omega (arith, length-append (put_head _) body, length-put_head _))

-- The returned length is within `len`, and so are the bytes that are written, but for the 0 behind
-- a compressed body.
abbrev Within : Protocol → ℕ → Protocol × Packet → Type 0
Within p len out =
    (out.1.sent ≤ len)
    × (length out.1.memory ≤ len + 1)
    × ((p.head.attr ≡ body_comp) ⊎ (length out.1.memory ≤ len))

-- An encoding that succeeds returns a length that the buffer has, and writes inside the buffer, but
-- for one byte with compression: the 0 behind a compressed body may stand right behind the buffer.
-- Conditions: no expand head, and a buffer of at least the 12 bytes of a head.
pub encode_response_bounds :
    (z : Zlib) (p p' : Protocol) (r : Response) (len : ℕ) (packet : Packet)
    → p.head.expand ≡ 0
    → head_len ≤ len
    → encode_response z p r len ≡ ok (p', packet)
    → (packet.sent ≤ len)
      × (length packet.memory ≤ len + 1)
      × ((p.head.attr ≡ body_comp) ⊎ (length packet.memory ≤ len))
encode_response_bounds z p p' r len packet x hl h = elim (encode_response_inv z p r len h) [
  | inl (_, done) ↦
      let alone =
        finish_response_bound
          (record p { head = record (sent_head z p r len) { result = result_unknow } }) [] 0 0 len
          len x (omega arith) (omega arith) in
      subst (Within p len) done (alone.0, omega (arith, alone.1), inr alone.1)
  | inr (e, eq, c, done) ↦ subst (Within p len) done (made_bound e eq c)
]
  where
    made_bound :
        (e : Emit)
        → put_fields (response_fields r) (start z p r len) ≡ some e
        → (p.head.attr ≡ body_comp → size_of z p r len e ≤ len)
        → Within p len (made z p r len e)
    made_bound e eq c =
        let w = put_fields-Emits (response_fields r) (start z p r len) eq in
        let (body, size) = deflate z p.head.attr e.out in
        let e12 : (p.head.expand == 1) ≡ false = ground arith in
        let head : response_head_len (sent_head z p r len) ≡ 12 = rw e12 in
        let space = -ℤ_parts (pos len) (pos (response_head_len (sent_head z p r len))) in
        let fits : length e.out ≤ len - 12 =
          rw w.out (omega (arith, w.spent, w.space_left (omega (arith, space)), space)) in
        let d = deflate_bound z p.head.attr e.out (len - 12) fits (λ k. omega (arith, c k)) in
        let q = record p { head = sent_head z p r len } in
        let one =
          finish_response_bound q body size e.count len (len + 1) x (omega arith) (omega arith) in
        (
          one.0,
          one.1,
          either_map (λ k. k)
              (λ k.
                (finish_response_bound q body size e.count len len x (omega arith)
                  (omega (arith, k))).1)
              d.2,
        )

length-finish_response :
    (p : Protocol) (body : Bytes) (size count : ℕ)
    → p.head.expand ≡ 0
    → let packet = (finish_response p body size count).1 in
      (packet.sent ≡ size + 12) × (length packet.memory ≡ length body + 12)
unfolding finish_response
length-finish_response p body size count x =
    let e : (p.head.expand == 1) ≡ false = ground arith in
    rw e (omega arith, omega (arith, length-append (put_head _) body, length-put_head _))

deflate_overrun :
    (z : Zlib) (attr : ℕ) (out : Bytes)
    → attr ≡ body_comp
    → (deflate z attr out).1 < length (deflate z attr out).0
unfolding deflate
deflate_overrun z attr out e =
    let c = z.compress room out in
    let t : (attr == body_comp) ≡ true = ground arith in
    rw t (
      omega (
        arith,
        length-append (c ++ 0 ∷ []) (drop (length (c ++ 0 ∷ [])) out),
        length-append c (0 ∷ []),
      ))

-- Whenever a response with a bid is compressed and the packet just fills the buffer, the encoder
-- reports success and has written behind the buffer. Condition: no expand head.
pub encode_response_overrun :
    (z : Zlib) (p p' : Protocol) (r : Response) (len : ℕ) (packet : Packet)
    → p.head.expand ≡ 0
    → p.head.attr ≡ body_comp
    → r.adx ≢ 0
    → encode_response z p r len ≡ ok (p', packet)
    → packet.sent ≡ len
    → len < length packet.memory
encode_response_overrun z p p' r len packet x c a h full = elim (encode_response_inv z p r len h) [
  | inl (b, _) ↦ absurd (a b)
  | inr (e, eq, _, done) ↦
      let (body, size) = deflate z p.head.attr e.out in
      let n =
        length-finish_response (record p { head = sent_head z p r len }) body size e.count x in
      let over = deflate_overrun z p.head.attr e.out c in
      let long : (made z p r len e).1.sent < length (made z p r len e).1.memory =
        omega (arith, n.0, n.1) in
      rw full at (subst (λ (o : Protocol × Packet). o.1.sent < length o.1.memory) done long)
]
