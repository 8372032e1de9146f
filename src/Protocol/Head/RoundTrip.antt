-- ===== src/Protocol/Head/RoundTrip.antt =====
-- What `get_head` and `packet_len` make of a head that `put_head` wrote.
use ad_rtb_adapter.Base.Int.{ℤ, pos, signed32, int_bits}
use ad_rtb_adapter.Base.{
  some, ℕ, zero, suc, ◌+◌, ◌*◌, ◌/◌, ◌%◌, ◌^◌, ◌<◌, ◌≤◌, ◌≡◌, refl, Bool, true, Bool-cases, false,
  if◌then◌else◌, inl, inr, ◌∷◌, ◌++◌, arith, ◌==◌, append_assoc, length,
}
use ad_rtb_adapter.Protocol.Wire.{Bytes, ok, put16, put32, get32, get16-put16, get32-put32}
use ad_rtb_adapter.Protocol.Head.{
  Head, flag_byte, head_len, pack_flags, version_of, put_head, get_head, packet_len,
}

-- The flags that a byte `x` below 128 packs.
abbrev packed : ℕ → ℕ
packed x = pack_flags (x / 16) (x / 8 % 2) (x / 4 % 2) (x / 2 % 2) (x % 2)

-- Each of the first `n` bytes is what its own bits pack. A run checks them all.
packs : ℕ → Bool
unfolding pack_flags
packs zero = true
packs (suc n) = let below = packs n in if packed n == n then below else false

packed_lem : (n x : ℕ) → packs n ≡ true → x < n → packed x ≡ x
unfolding packs
packed_lem zero x t h = absurd (omega arith)
packed_lem (suc n) x t h = elim (Bool-cases (packed n == n)) [
  | inr f ↦ cc (rw f at t)
  | inl e ↦ elim (Bool-cases (x == n)) [
    | inl same ↦ let at : x ≡ n = ground arith in rw at (ground (arith, e))
    | inr other ↦ packed_lem n x (rw e at t) (ground arith)
  ]
]

packs_byte : packs 128 ≡ true
unfolding packs
packs_byte = refl

-- What an encoder may be asked to write: the fields fit their bits, and the size is no negative
-- `int`. `version` has 4 bits, of which the decoder reads 3.
pub record IsEncodable (h : Head) : Type 0 where
  pub flag : h.flag ≡ flag_byte
  pub version : h.version < 8
  pub protocol : h.protocol < 2
  pub wide : h.wide < 2
  pub response : h.response < 2
  pub expand : h.expand < 2
  pub total : h.total < 2 ^ 16
  pub len : ℕ
  pub len_in : len < 2 ^ 31
  pub size : h.size ≡ pos len

pub pack_flags_lem :
    (v p w r e : ℕ)
    → v < 8
    → p < 2
    → w < 2
    → r < 2
    → e < 2
    → pack_flags v p w r e ≡ v * 16 + p * 8 + w * 4 + r * 2 + e
pack_flags_lem v p w r e hv hp hw hr he =
    let x = v * 16 + p * 8 + w * 4 + r * 2 + e in
    let a : x / 16 ≡ v = omega arith in
    let b : x / 8 % 2 ≡ p = omega arith in
    let c : x / 4 % 2 ≡ w = omega arith in
    let d : x / 2 % 2 ≡ r = omega arith in
    let f : x % 2 ≡ e = omega arith in
    rw (a, b, c, d, f) at (packed_lem 128 x packs_byte (omega arith))

signed32_lem : (n : ℕ) → n < 2 ^ 31 → signed32 n ≡ pos n
signed32_lem n h = ground arith

get32-put_size :
    (z : ℤ) (n : ℕ) (rest : Bytes)
    → z ≡ pos n
    → n < 2 ^ 31
    → get32 (put32 (int_bits z) ++ rest) ≡ some (n, rest)
get32-put_size z n rest e h = rw (e, get32-put32 (n % 2 ^ 32) rest (omega arith)) (ground arith)

flags_lem :
    (h : Head)
    → IsEncodable h
    → let b = pack_flags h.version h.protocol h.wide h.response h.expand in
      (version_of b ≡ h.version)
      × (b % 16 / 8 ≡ h.protocol)
      × (b % 8 / 4 ≡ h.wide)
      × (b % 4 / 2 ≡ h.response)
      × (b % 2 ≡ h.expand)
unfolding version_of
flags_lem h e =
    rw
      (pack_flags_lem h.version h.protocol h.wide h.response h.expand e.version e.protocol e.wide
        e.response e.expand)
      (ground arith, omega arith, omega arith, omega arith, omega arith)

-- A head that fits is read back as it was written, and the bytes behind it are left.
pub get_head-put_head :
    (h : Head) (rest : Bytes) → IsEncodable h → get_head (put_head h ++ rest) ≡ ok (h, rest)
unfolding get_head put_head
get_head-put_head h rest e =
    let (v, p, w, r, x) = flags_lem h e in
    rw
      (
        append_assoc,
        get16-put16 h.total _ e.total,
        get32-put_size h.size e.len rest e.size e.len_in,
      )
      (cc (v, p, w, r, x, e.flag, signed32_lem e.len e.len_in, e.size))

pub length-put_head : (h : Head) → length (put_head h) ≡ 12
unfolding put_head put16 put32
length-put_head h = refl

-- The length that `TlvPacketLen` reads from a head that was written is not the size in it, but the
-- low three bytes of the size with the first byte of the body behind them. Conditions: the size is
-- below 2 ^ 23, and the buffer has a head at least and a byte more.
pub packet_len_lem :
    (h : Head) (n b : ℕ) (rest : Bytes) (len : ℕ)
    → h.size ≡ pos n
    → n < 2 ^ 23
    → b < 256
    → head_len ≤ len
    → packet_len (put_head h ++ (b ∷ rest)) len ≡ ok (pos (n * 256 + b))
unfolding packet_len put_head put16 put32 get32
packet_len_lem h n b rest len e hn hb hl = rw e (ground arith)
