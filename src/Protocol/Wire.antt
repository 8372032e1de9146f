-- ===== src/Protocol/Wire.antt =====
-- What the C++ code of the wire protocol computes with: results, bytes, big-endian words.
use ad_rtb_adapter.Base.{
  Option, none, some, ℕ, ◌+◌, ◌*◌, ◌/◌, ◌%◌, ◌^◌, ◌<◌, ◌≡◌, refl, List, [], ◌∷◌, ◌++◌, arith, ltb,
  if◌then◌else◌, length, length-append, take, drop,
}

abbrev pub Bytes : Type 0
Bytes = List ℕ

-- `failure` is a return of AD_FAILURE, with the state that it leaves. `fault` is what the source
-- does not survive: a read outside of the buffer, an overflow of `int`, or a length that
-- `std::string::assign` refuses.
pub data Run {ℓ κ} (S : Type ℓ) (A : Type κ) : Type (ℓ ⊔ κ) where
  ok : A → Run S A
  failure : S → Run S A
  fault : Run S A

infixl 5 ◌>>=◌
abbrev pub ◌>>=◌ {ℓ κ μ} :
    {S : Type ℓ} {A : Type κ} {B : Type μ} → Run S A → (A → Run S B) → Run S B
ok a >>= f = f a
failure s >>= f = failure s
fault >>= f = fault

-- A step that can only fault, inside code whose failures carry a state.
abbrev pub reading {ℓ κ} : {S : Type ℓ} {A : Type κ} → Option A → Run S A
reading none = fault
reading (some a) = ok a

-- `*(USHORT *)p = htons(v)` and `*(int *)p = htonl(v)`
unfoldable pub put16 : ℕ → Bytes
put16 v = (v / 2 ^ 8 % 2 ^ 8) ∷ (v % 2 ^ 8) ∷ []

unfoldable pub put32 : ℕ → Bytes
put32 v = (v / 2 ^ 24 % 2 ^ 8) ∷ (v / 2 ^ 16 % 2 ^ 8) ∷ (v / 2 ^ 8 % 2 ^ 8) ∷ (v % 2 ^ 8) ∷ []

-- `*p` and `p ++`, on the bytes from `p` to the end of the buffer
unfoldable pub get8 : Bytes → Option (ℕ × Bytes)
get8 [] = none
get8 (a ∷ rest) = some (a, rest)

-- `ntohs(*(USHORT *)p)` and `ntohl(*(int *)p)`, as bit patterns
unfoldable pub get16 : Bytes → Option (ℕ × Bytes)
get16 (a ∷ b ∷ rest) = some (a * 2 ^ 8 + b, rest)
get16 _ = none

unfoldable pub get32 : Bytes → Option (ℕ × Bytes)
get32 (a ∷ b ∷ c ∷ d ∷ rest) = some (a * 2 ^ 24 + b * 2 ^ 16 + c * 2 ^ 8 + d, rest)
get32 _ = none

-- `memcpy` or `assign` of `n` bytes from `p`, and `p += n`
unfoldable pub get_bytes : ℕ → Bytes → Option (Bytes × Bytes)
get_bytes n xs = if ltb (length xs) n then none else some (take n xs, drop n xs)

pub get16-put16 : (v : ℕ) (rest : Bytes) → v < 2 ^ 16 → get16 (put16 v ++ rest) ≡ some (v, rest)
unfolding get16 put16
get16-put16 v rest h = ground arith

pub get32-put32 : (v : ℕ) (rest : Bytes) → v < 2 ^ 32 → get32 (put32 v ++ rest) ≡ some (v, rest)
unfolding get32 put32
get32-put32 v rest h = ground arith

pub take-append_length {ℓ} : {A : Type ℓ} (xs ys : List A) → take (length xs) (xs ++ ys) ≡ xs
take-append_length [] ys = refl
take-append_length (x ∷ xs) ys = ground (arith, take-append_length xs ys)

pub drop-append_length {ℓ} : {A : Type ℓ} (xs ys : List A) → drop (length xs) (xs ++ ys) ≡ ys
drop-append_length [] ys = refl
drop-append_length (x ∷ xs) ys = drop-append_length xs ys

pub get_bytes-append : (xs rest : Bytes) → get_bytes (length xs) (xs ++ rest) ≡ some (xs, rest)
unfolding get_bytes
get_bytes-append xs rest =
    ground (arith, length-append xs rest, take-append_length xs rest, drop-append_length xs rest)
