-- ===== src/Rank/Table.antt =====
-- What `AdRtbRandWet` draws.
use ad_rtb_adapter.Base.{
  ℕ, zero, suc, ◌+◌, ◌-◌, ◌%◌, ◌≤◌, ◌<◌, ◌≡◌, refl, sym, ◌∙◌, ap, inl, inr, List, [], ◌∷◌, ◌++◌,
  set, get_or, drop, length, replicate, ◌==◌, arith, subst, Bool-cases, append_assoc, append-nil,
  length-append, length-replicate, length-drop, false,
}
use ad_rtb_adapter.Rank.Wet.{total, fill, rounds, rand_wet}

module _ (n : ℕ) where
  -- Every place has a number below `n`.
  abbrev Small : List ℕ → Type 0
  Small [] = Unit
  Small (x ∷ xs) = (x < n) × Small xs

  set-Small : (xs : List ℕ) (j i : ℕ) → i < n → Small xs → Small (set xs j i)
  set-Small [] j i h s = tt
  set-Small (x ∷ xs) zero i h s = (h, s.1)
  set-Small (x ∷ xs) (suc j) i h s = (s.0, set-Small xs j i h s.1)

  fill-Small : (k j i : ℕ) (xs : List ℕ) → i < n → Small xs → Small (fill k j i xs)
  fill-Small zero j i xs h s = s
  fill-Small (suc k) j i xs h s = fill-Small k (j + 1) i (set xs j i) h (set-Small xs j i h s)

  get_or-Small : (xs : List ℕ) (j : ℕ) → 0 < n → Small xs → get_or xs j 0 < n
  get_or-Small [] j h s = h
  get_or-Small (x ∷ xs) zero h s = s.0
  get_or-Small (x ∷ xs) (suc j) h s = get_or-Small xs j h s.1

  replicate-Small : (k : ℕ) → 0 < n → Small (replicate k 0)
  replicate-Small zero h = tt
  replicate-Small (suc k) h = (h, replicate-Small k h)

  rounds-Small :
      (share : ℕ → ℕ) (k i sum : ℕ) (xs : List ℕ)
      → i + k ≤ n
      → Small xs
      → Small (rounds share k i sum xs)
  rounds-Small share zero i sum xs h s = s
  rounds-Small share (suc zero) i sum xs h s = fill-Small (total - sum) sum i xs (omega arith) s
  rounds-Small share (suc (suc k)) i sum xs h s =
      rounds-Small share (suc k) (i + 1) (sum + share i) (fill (share i) sum i xs) (omega arith)
        (fill-Small (share i) sum i xs (omega arith) s)

-- Whatever the weights and the random number, what is drawn is below the count.
pub rand_wet_bound :
    (share : ℕ → ℕ) (count random : ℕ) → 0 < count → rand_wet share count random < count
unfolding rand_wet
rand_wet_bound share count random h = elim (Bool-cases (count == 1)) [
  | inl e ↦ rw e h
  | inr e ↦ rw e (
      get_or-Small count (rounds share count 0 0 (replicate total 0)) (random % total) h (
        rounds-Small count share count 0 0 (replicate total 0) (omega arith)
          (replicate-Small count total h)))
]

set-append : (a b : List ℕ) (y i : ℕ) → set (a ++ y ∷ b) (length a) i ≡ (a ++ i ∷ []) ++ b
set-append [] b y i = refl
set-append (x ∷ a) b y i = ap (◌∷◌ x) (set-append a b y i)

fill-append :
    (k i : ℕ) (a b : List ℕ)
    → k ≤ length b
    → fill k (length a) i (a ++ b) ≡ (a ++ replicate k i) ++ drop k b
fill-append zero i a b h = rw (append-nil a) refl
fill-append (suc k) i a [] h = absurd (omega (arith, h))
fill-append (suc k) i a (y ∷ b) h =
    let at : length (a ++ i ∷ []) ≡ length a + 1 = length-append a (i ∷ []) in
    ap (fill k (length a + 1) i) (set-append a b y i)
    ∙ ap (λ j. fill k j i ((a ++ i ∷ []) ++ b)) (sym at)
    ∙ fill-append k i (a ++ i ∷ []) b (omega (arith, h))
    ∙ ap (λ l. l ++ drop k b) (append_assoc a (i ∷ []) (replicate k i))

module _ (share : ℕ → ℕ) where
  -- `share i` places for each `i`, the rest for the last one.
  abbrev pub spread : ℕ → ℕ → ℕ → List ℕ
  spread zero i left = replicate left 0
  spread (suc zero) i left = replicate left i
  spread (suc (suc n)) i left = replicate (share i) i ++ spread (suc n) (i + 1) (left - share i)

  -- The weights but the last leave room in `left` places.
  abbrev pub Within : ℕ → ℕ → ℕ → Type 0
  Within zero i left = Unit
  Within (suc zero) i left = Unit
  Within (suc (suc n)) i left = (share i ≤ left) × Within (suc n) (i + 1) (left - share i)

  drop_all : (b : List ℕ) → drop (length b) b ≡ []
  drop_all [] = refl
  drop_all (x ∷ b) = drop_all b

  rounds-spread :
      (n i : ℕ) (a b : List ℕ)
      → length a + length b ≡ total
      → Within (suc n) i (length b)
      → rounds share (suc n) i (length a) (a ++ b) ≡ a ++ spread (suc n) i (length b)
  rounds-spread zero i a b e w =
      let left : total - length a ≡ length b = omega (arith, e) in
      rw left (
        fill-append (length b) i a b (omega arith)
        ∙ rw (drop_all b) (append-nil (a ++ replicate (length b) i)))
  rounds-spread (suc n) i a b e w =
      let a' = a ++ replicate (share i) i in
      let b' = drop (share i) b in
      let at : length a' ≡ length a + share i =
        length-append a (replicate (share i) i)
        ∙ ap (λ k. length a + k) (length-replicate (share i) i) in
      let left : length b' ≡ length b - share i = length-drop (share i) b in
      ap (rounds share (suc n) (i + 1) (length a + share i)) (fill-append (share i) i a b w.0)
      ∙ ap (λ k. rounds share (suc n) (i + 1) k (a' ++ b')) (sym at)
      ∙ rounds-spread n (i + 1) a' b' (omega (arith, at, left, e, w.0))
          (subst (λ k. Within (suc n) (i + 1) k) (sym left) w.1)
      ∙ ap (λ k. a' ++ spread (suc n) (i + 1) k) left
      ∙ append_assoc a (replicate (share i) i) (spread (suc n) (i + 1) (length b - share i))

  -- When the weights but the last come to at most 100 percent, the number drawn is that of the place
  -- `random % 100` in a row where each number has as many places as its weight says, the last number
  -- the rest.
  pub rand_wet-spread :
      (n random : ℕ)
      → Within (suc (suc n)) 0 total
      → rand_wet share (suc (suc n)) random
        ≡ get_or (spread (suc (suc n)) 0 total) (random % total) 0
  unfolding rand_wet
  rand_wet-spread n random w =
      let many : (suc (suc n) == 1) ≡ false = ground arith in
      rw many (
        ap (λ l. get_or l (random % total) 0)
          (rounds-spread (suc n) 0 [] (replicate total 0) refl w))
