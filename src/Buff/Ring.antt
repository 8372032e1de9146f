-- ===== src/Buff/Ring.antt =====
-- `AdRingBufferBase` and the four classes on it. What the four do to the ring is the same; the locks
-- and the waking of threads are left out here, `Ring/Threads` has the class without locks.
pub mod Queue
pub mod Access
pub mod Knows
pub mod Threads
use ad_rtb_adapter.Base.Int.{ℤ, pos, negsuc, int_bits, ltb_ℤ, ◌+ℤ◌, ◌-ℤ◌}
use ad_rtb_adapter.Base.{
  ℕ, zero, suc, ◌+◌, ◌-◌, ◌%◌, ◌^◌, Option, none, some, Bool, true, false, List, [], ◌∷◌, ◌++◌, ltb,
  ◌==◌, if◌then◌else◌, length, take, replicate, set, get_elem?,
}

-- `m_vRing`, `m_iSize`, `m_iReadPosition` and `m_iWritePosition`
pub record Ring {ℓ} (A : Type ℓ) : Type ℓ where
  pub cells : List A
  pub bound : ℤ
  pub read : ℕ
  pub write : ℕ

infixl 5 ◌>>=◌
abbrev pub ◌>>=◌ {ℓ κ} : {A : Type ℓ} {B : Type κ} → Option A → (A → Option B) → Option B
none >>= f = none
some a >>= f = f a

-- `x % m_iSize` for `x` that is not negative: the sign of the size does not matter, and 0 divides
-- nothing, which `none` stands for.
abbrev pub wrap : ℕ → ℤ → Option ℕ
wrap x (pos zero) = none
wrap x (pos (suc n)) = some (x % suc n)
wrap x (negsuc n) = some (x % suc n)

module _ {ℓ} {A : Type ℓ} where
  -- `std::vector::resize`, with what the default constructor makes
  abbrev pub resize : ℕ → A → List A → List A
  resize n fresh xs = take n xs ++ replicate (n - length xs) fresh

  -- `init`
  abbrev pub init : A → ℤ → Ring A → Ring A
  init fresh (pos zero) r = record r { bound = pos 0; read = 0; write = 0 }
  init fresh (pos (suc n)) r = record {
    cells = resize (suc n) fresh r.cells;
    bound = pos (suc n);
    read = 0;
    write = 0;
  }
  init fresh (negsuc n) r = record r { bound = negsuc n; read = 0; write = 0 }

  -- `__push`. `none` is a write out of the vector or a division by 0.
  unfoldable pub push_base : A → Ring A → Option (Ring A)
  push_base x r =
      if ltb r.write (length r.cells)
      then (wrap (r.write + 1) r.bound >>= λ w.
          some (record r { cells = set r.cells r.write x; write = w }))
      else none

  -- `__full`
  unfoldable pub full : Ring A → Option Bool
  full r = wrap (r.write + 1) r.bound >>= λ w. some (r.read == w)

  -- `__empty`
  abbrev pub empty : Ring A → Bool
  empty r = r.read == r.write

  -- `__pop`
  unfoldable pub pop_base : Ring A → Option (A × Ring A)
  pop_base r = do
    x ← get_elem? r.cells r.read
    i ← wrap (r.read + 1) r.bound
    some (x, record r { read = i })

  -- `size`, whose result is a UINT
  unfoldable pub size : Ring A → ℕ
  unfolding ◌+ℤ◌ ◌-ℤ◌
  size r =
      if r.read == r.write
      then 0
      else if ltb r.write r.read
      then int_bits (r.bound -ℤ pos r.read +ℤ pos r.write)
      else int_bits (pos r.write -ℤ pos r.read)

  -- `tryPush`, with what it returns
  unfoldable pub try_push : A → Ring A → Option (Bool × Ring A)
  unfolding full push_base
  try_push x r = do
    is_full ← full r
    if is_full then some (false, r) else (push_base x r >>= λ r. some (true, r))

  -- `tryPop`: `none` inside for a return of false, else the value that `result` gets
  unfoldable pub try_pop : Ring A → Option (Option A × Ring A)
  unfolding pop_base
  try_pop r = if empty r then some (none, r) else (pop_base r >>= λ o. some (some o.0, o.1))

-- A call from outside, and what it returns.
pub data Call {ℓ} (A : Type ℓ) : Type ℓ where
  push_call : A → Call A
  pop_call : Call A

pub data Reply {ℓ} (A : Type ℓ) : Type ℓ where
  pushed : Bool → Reply A
  popped : Option A → Reply A

module _ {ℓ} {A : Type ℓ} where
  unfoldable pub call : Call A → Ring A → Option (Reply A × Ring A)
  unfolding try_push try_pop
  call (push_call x) r = try_push x r >>= λ o. some (pushed o.0, o.1)
  call pop_call r = try_pop r >>= λ o. some (popped o.0, o.1)

  -- A sequence of calls, as the locks let them happen one after another.
  unfoldable pub calls : List (Call A) → Ring A → Option (List (Reply A) × Ring A)
  unfolding call
  calls [] r = some ([], r)
  calls (c ∷ cs) r = do (a, r) ← call c r; (answers, r) ← calls cs r; some (a ∷ answers, r)
