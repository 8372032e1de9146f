-- ===== src/Protocol/Pairs.antt =====
-- The key-value body of a packet: the macro AD_PROTOCOL_KV, and the loop over pairs that both
-- `TlvToInternal` functions have, with the table `m_mParse` that it looks keys up in.
-- A string's size stays below 2 ^ 31, so the casts to `int` in the macro change nothing.
pub mod Encoded
pub mod Parsed
pub mod Filled
use ad_rtb_adapter.Base.Int.{ℤ, pos, negsuc, ltb_ℤ, ◌-ℤ◌, ◌+ℤ◌, signed32}
use ad_rtb_adapter.Base.{
  ℕ, zero, suc, ◌+◌, ◌%◌, ◌^◌, Option, none, some, List, [], ◌∷◌, ◌++◌, ◌==◌, if◌then◌else◌, length,
  drop,
}
use ad_rtb_adapter.Protocol.Wire.{Bytes, put32, get8, get32, get_bytes}

infixl 5 ◌>>=◌
abbrev pub ◌>>=◌ {ℓ κ} : {A : Type ℓ} {B : Type κ} → Option A → (A → Option B) → Option B
none >>= f = none
some a >>= f = f a

-- The bytes from `pBody` to `pCur`, `usCount` and `iSpace`.
pub record Emit : Type 0 where
  pub out : Bytes
  pub count : ℕ
  pub space : ℤ

abbrev pub pair_len : Bytes → ℕ
pair_len v = 5 + length v

abbrev pub pair_bytes : ℕ → Bytes → Bytes
pair_bytes key v = key ∷ (put32 (length v) ++ v)

-- `AD_PROTOCOL_KV(K, V, L)`; `none` is its `return AD_FAILURE`.
unfoldable pub put_pair : ℕ → Bytes → Emit → Option Emit
put_pair key [] e = some e
put_pair key (b ∷ bs) e =
    let v = b ∷ bs in
    if ltb_ℤ e.space (pos (pair_len v))
    then none
    else some (record {
      out = e.out ++ pair_bytes key v;
      count = (e.count + 1) % 2 ^ 16;
      space = e.space -ℤ pos (pair_len v);
    })

-- `AD_PROTOCOL_KV` on one string, or in a loop on the strings of a list.
pub data Field : Type 0 where
  one : ℕ → Bytes → Field
  many : ℕ → List Bytes → Field

unfoldable pub put_each : ℕ → List Bytes → Emit → Option Emit
put_each key [] e = some e
put_each key (v ∷ vs) e = put_pair key v e >>= put_each key vs

unfoldable pub put_fields : List Field → Emit → Option Emit
put_fields [] e = some e
put_fields (one key v ∷ fs) e = put_pair key v e >>= put_fields fs
put_fields (many key vs ∷ fs) e = put_each key vs e >>= put_fields fs

-- `struct parser`: a pointer to a string, or to a list of strings, inside the message `R`.
pub data Slot (R : Type 0) : Type 0 where
  string_slot : (Bytes → R → R) → Slot R
  list_slot : (R → List Bytes) → (List Bytes → R → R) → Slot R

abbrev pub Table : Type 0 → Type 0
Table R = List (ℕ × Slot R)

-- The bytes from `pBody + at` on. A read in front of the body counts as out of bounds.
abbrev pub read_from : Bytes → ℤ → Bytes
read_from body (pos n) = drop n body
read_from body (negsuc n) = []

-- A negative `kvLen` is a length beyond `max_size()` to `assign`, which throws.
unfoldable pub value : ℤ → Bytes → Option Bytes
unfolding get_bytes
value (pos n) xs = get_bytes n xs >>= λ r. some r.0
value (negsuc n) xs = none

module _ {R : Type 0} where
  -- `m_mParse.find(ucKey)`
  unfoldable pub find : ℕ → Table R → Option (Slot R)
  find key [] = none
  find key ((k, s) ∷ t) = if k == key then some s else find key t

  -- `assign`, or `push_back`
  unfoldable pub assign : Slot R → Bytes → R → R
  assign (string_slot set) v r = set v r
  assign (list_slot get set) v r = set (get r ++ v ∷ []) r

  unfoldable pub store : Option (Slot R) → ℤ → Bytes → R → Option R
  unfolding value assign
  store none len xs r = some r
  store (some slot) len xs r = value len xs >>= λ v. some (assign slot v r)

  -- The loop, `left` being how far `usTotal` is from `m_stHead.usTotal`; it is left at 0 by `break`.
  -- `none` is a fault.
  unfoldable pub parse : ℕ → Table R → Bytes → ℤ → ℤ → R → Option R
  unfolding get8 get32 find store
  parse zero table body size at r = some r
  parse (suc left) table body size at r =
      if ltb_ℤ at size
      then (do
        (key, xs) ← get8 (read_from body at)
        (w, xs) ← get32 xs
        r ← store (find key table) (signed32 w) xs r
        parse left table body size (at +ℤ pos 5 +ℤ signed32 w) r)
      else some r
