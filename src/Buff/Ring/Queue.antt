-- ===== src/Buff/Ring/Queue.antt =====
-- The ring as a bounded queue: a ring of n cells is a queue that holds n - 1 entries.
use ad_rtb_adapter.Base.Int.{pos, negsuc, ◌+ℤ◌, ◌-ℤ◌}
use ad_rtb_adapter.Base.{
  ℕ, zero, suc, ◌+◌, ◌-◌, ◌^◌, ◌<◌, ◌≤◌, ◌≡◌, ◌≢◌, refl, ap, sym, ◌∙◌, Option, none, some, true,
  false, List, [], ◌∷◌, ◌++◌, ltb, ◌==◌, if◌then◌else◌, length, length-append, length-set,
  length-take, length-replicate, take, replicate, set, get_elem?, get_elem?-set_self,
  get_elem?-set_ne, arith, Bool-cases, inl, inr, subst,
}
use ad_rtb_adapter.Buff.Ring.{
  Ring, wrap, resize, init, push_base, full, empty, pop_base, size, try_push, try_pop, Call,
  push_call, pop_call, Reply, pushed, popped, call, calls,
}
use native.Mathlib.Nat.{mod-eq_of_lt, mod_self}

-- The cell that is `k` behind the cell `i`, in a ring of `n`.
abbrev pub behind : ℕ → ℕ → ℕ → ℕ
behind n i k = if ltb (i + k) n then i + k else i + k - n

pub wrap_lem : (n i : ℕ) → i < n → wrap (i + 1) (pos n) ≡ some (behind n i 1)
wrap_lem zero i h = absurd (omega arith)
wrap_lem (suc n) i h = elim (Bool-cases (ltb (i + 1) (suc n))) [
  | inl t ↦ let lt : i + 1 < suc n = ground arith in rw (t, mod-eq_of_lt lt)
  | inr f ↦
      let e : i + 1 ≡ suc n = ground arith in
      let z : suc n - suc n ≡ 0 = omega arith in rw (f, e, mod_self (suc n), z)
]

module _ {ℓ} {A : Type ℓ} where
  -- From the cell `i` on, the cells hold the entries.
  abbrev pub Window : ℕ → List A → ℕ → List A → Type ℓ
  Window n cells i [] = Unit
  Window n cells i (x ∷ q) = (get_elem? cells i ≡ some x) × Window n cells (behind n i 1) q

  -- The ring has `n` cells and holds the entries of `q`, the oldest first.
  pub record Holds (n : ℕ) (r : Ring A) (q : List A) : Type ℓ where
    pub bound : r.bound ≡ pos n
    pub cells : length r.cells ≡ n
    pub read : r.read < n
    pub fits : length q < n
    pub write : r.write ≡ behind n r.read (length q)
    pub window : Window n r.cells r.read q

  -- A write behind the entries leaves them.
  pub Window-set :
      (n i k : ℕ) (cells q : List A) (x : A)
      → i < n
      → k < n
      → length q ≤ k
      → Window n cells i q
      → Window n (set cells (behind n i k) x) i q
  Window-set n i k cells [] x hi hk hq w = tt
  Window-set n i zero cells (y ∷ q) x hi hk hq w = absurd (omega arith)
  Window-set n i (suc k) cells (y ∷ q) x hi hk hq w =
      let next : behind n i 1 < n = ground arith in
      let other : behind n i (suc k) ≢ i = ground arith in
      let same : behind n (behind n i 1) k ≡ behind n i (suc k) = ground arith in
      (
        get_elem?-set_ne cells x other ∙ w.0,
        rw same at (Window-set n (behind n i 1) k cells q x next (omega arith) (omega arith) w.1),
      )

  -- An entry in the cell behind the last is one more entry.
  pub Window-push :
      (n i : ℕ) (cells q : List A) (x : A)
      → i < n
      → length q < n
      → Window n cells i q
      → get_elem? cells (behind n i (length q)) ≡ some x
      → Window n cells i (q ++ x ∷ [])
  Window-push n i cells [] x hi hq w h =
      let same : behind n i 0 ≡ i = ground arith in (rw same at h, tt)
  Window-push n i cells (y ∷ q) x hi hq w h =
      let next : behind n i 1 < n = ground arith in
      let same : behind n i (suc (length q)) ≡ behind n (behind n i 1) (length q) = ground arith in
      (w.0, Window-push n (behind n i 1) cells q x next (omega arith) w.1 (rw same at h))

  -- Whether the ring is full is whether the queue has its n - 1 entries.
  pub full_lem : (n : ℕ) (r : Ring A) (q : List A) → Holds n r q → full r ≡ some (length q + 1 == n)
  unfolding full
  full_lem n r q h =
      let w : r.write < n = ground (arith, h.write, h.read, h.fits) in
      rw (h.bound, wrap_lem n r.write w) (ap some (ground (arith, h.write, h.read, h.fits)))

  pub empty_lem : (n : ℕ) (r : Ring A) (q : List A) → Holds n r q → empty r ≡ (length q == 0)
  empty_lem n r q h = ground (arith, h.write, h.read, h.fits)

  -- `__push` with room adds the entry at the end.
  pub push_base_lem :
      (n : ℕ) (r : Ring A) (q : List A) (x : A)
      → Holds n r q
      → length q + 1 < n
      → (r' : Ring A) × (push_base x r ≡ some r') × Holds n r' (q ++ x ∷ [])
  unfolding push_base
  push_base_lem n r q x h room =
      let w : r.write < n = ground (arith, h.write, h.read, h.fits) in
      let t : ltb r.write (length r.cells) ≡ true = ground (arith, h.cells) in
      let more = length-append q (x ∷ []) in
      let kept : Window n (set r.cells r.write x) r.read q =
        rw (sym h.write) at
          (Window-set n r.read (length q) r.cells q x h.read h.fits (omega arith) h.window) in
      let new : get_elem? (set r.cells r.write x) r.write ≡ some x =
        get_elem?-set_self r.cells r.write x (omega (arith, h.cells)) in
      (
        record r { cells = set r.cells r.write x; write = behind n r.write 1 },
        rw (t, h.bound, wrap_lem n r.write w),
        record {
          bound = h.bound;
          cells = length-set r.cells r.write x ∙ h.cells;
          read = h.read;
          fits = omega (arith, more);
          write = ground (arith, more, h.write, h.read);
          window =
              Window-push n r.read (set r.cells r.write x) q x h.read h.fits kept
                (subst (λ i. get_elem? (set r.cells r.write x) i ≡ some x) h.write new);
        },
      )

  -- `__pop` takes the oldest entry.
  pub pop_base_lem :
      (n : ℕ) (r : Ring A) (q : List A) (x : A)
      → Holds n r (x ∷ q)
      → (r' : Ring A) × (pop_base r ≡ some (x, r')) × Holds n r' q
  unfolding pop_base
  pop_base_lem n r q x h = (
    record r { read = behind n r.read 1 },
    rw (h.window.0, h.bound, wrap_lem n r.read h.read),
    record {
      bound = h.bound;
      cells = h.cells;
      read = ground (arith, h.read, h.fits);
      fits = omega (arith, h.fits);
      write = ground (arith, h.write, h.read, h.fits);
      window = h.window.1;
    },
  )

  -- The number of entries, for every ring that an `int` can bound.
  size_lem : (n : ℕ) (r : Ring A) (q : List A) → Holds n r q → n < 2 ^ 31 → size r ≡ length q
  unfolding size ◌+ℤ◌ ◌-ℤ◌
  size_lem n r q h small = rw h.bound (ground (arith, h.write, h.read, h.fits))

-- What a bounded queue of `n - 1` entries does on a call.
abbrev pub queue_call {ℓ} : {A : Type ℓ} → ℕ → Call A → List A → Reply A × List A
queue_call n (push_call x) q =
    if length q + 1 == n then (pushed false, q) else (pushed true, q ++ x ∷ [])
queue_call n pop_call [] = (popped none, [])
queue_call n pop_call (x ∷ q) = (popped (some x), q)

abbrev pub queue_calls {ℓ} : {A : Type ℓ} → ℕ → List (Call A) → List A → List (Reply A) × List A
queue_calls n [] q = ([], q)
queue_calls n (c ∷ cs) q =
    let (a, q') = queue_call n c q in let (answers, q'') = queue_calls n cs q' in (a ∷ answers, q'')

module _ {ℓ} {A : Type ℓ} where
  -- What a ring that holds `q` does on a call.
  abbrev Simulates : ℕ → Option (Reply A × Ring A) → Reply A × List A → Type ℓ
  Simulates n run (a, q) = (r' : Ring A) × (run ≡ some (a, r')) × Holds n r' q

  try_push_lem :
      (n : ℕ) (r : Ring A) (q : List A) (x : A)
      → Holds n r q
      → Simulates n (call (push_call x) r) (queue_call n (push_call x) q)
  unfolding call try_push
  try_push_lem n r q x h = elim (Bool-cases (length q + 1 == n)) [
    | inl t ↦ rw (full_lem n r q h, t) (r, refl, h)
    | inr f ↦
        let (r', e, h') = push_base_lem n r q x h (ground (arith, h.fits)) in
        rw (full_lem n r q h, f, e) (r', refl, h')
  ]

  call_lem :
      (n : ℕ) (r : Ring A) (q : List A) (c : Call A)
      → Holds n r q
      → Simulates n (call c r) (queue_call n c q)
  unfolding call try_pop
  call_lem n r q (push_call x) h = try_push_lem n r q x h
  call_lem n r [] pop_call h = rw (empty_lem n r [] h) (r, refl, h)
  call_lem n r (x ∷ q) pop_call h =
      let (r', e, h') = pop_base_lem n r q x h in
      let t : empty r ≡ false = ground (arith, empty_lem n r (x ∷ q) h) in rw (t, e) (r', refl, h')

  -- Any sequence of calls is answered by a ring of `n` cells as by a queue that takes at most
  -- `n - 1` entries, with no fault, and the ring then holds the entries of that queue. Condition:
  -- the ring holds the queue's entries before.
  pub calls-queue_calls :
      (n : ℕ) (r : Ring A) (q : List A) (cs : List (Call A))
      → Holds n r q
      → (r' : Ring A) × (calls cs r ≡ some ((queue_calls n cs q).0, r'))
        × Holds n r' (queue_calls n cs q).1
  unfolding calls
  calls-queue_calls n r q [] h = (r, refl, h)
  calls-queue_calls n r q (c ∷ cs) h =
      let (r1, e1, h1) = call_lem n r q c h in
      let (r2, e2, h2) = calls-queue_calls n r1 (queue_call n c q).1 cs h1 in (r2, rw (e1, e2), h2)

  length-resize : (n : ℕ) (fresh : A) (xs : List A) → length (resize n fresh xs) ≡ n
  length-resize n fresh xs = omega (
    arith,
    length-append (take n xs) (replicate (n - length xs) fresh),
    length-take n xs,
    length-replicate (n - length xs) fresh,
  )

  -- `init` makes the empty queue of whatever ring was there before, for every positive size.
  pub init-Holds : (n : ℕ) (fresh : A) (r : Ring A) → Holds (suc n) (init fresh (pos (suc n)) r) []
  init-Holds n fresh r = record {
    bound = refl;
    cells = length-resize (suc n) fresh r.cells;
    read = omega arith;
    fits = omega arith;
    write = ground arith;
    window = tt;
  }

  -- A ring that was just initialised with a positive size answers every sequence of calls as an
  -- empty queue that takes one entry less than the size, and `size` then gives the number of the
  -- queue's entries. Condition: the size is an `int`.
  pub calls-init :
      (n : ℕ) (fresh : A) (r : Ring A) (cs : List (Call A))
      → suc n < 2 ^ 31
      → (r' : Ring A) × (calls cs (init fresh (pos (suc n)) r)
          ≡ some ((queue_calls (suc n) cs []).0, r'))
        × (size r' ≡ length (queue_calls (suc n) cs []).1)
  calls-init n fresh r cs small =
      let (r', e, h) =
        calls-queue_calls (suc n) (init fresh (pos (suc n)) r) [] cs (init-Holds n fresh r) in
      (r', e, size_lem (suc n) r' (queue_calls (suc n) cs []).1 h small)

  -- A ring that `init` was given a size of 0 or less, as the default argument -1 does, takes no
  -- entry: every push is refused for -1, and faults for 0.
  try_push-init-none :
      (fresh x : A) (r : Ring A)
      → (try_push x (init fresh (negsuc 0) r) ≡ some (false, init fresh (negsuc 0) r))
        × (try_push x (init fresh (pos 0) r) ≡ none)
  unfolding try_push full
  try_push-init-none fresh x r = (refl, refl)
