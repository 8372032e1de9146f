-- ===== src/Acbm/Naive.antt =====
-- The naive count of the places where a pattern stands, and what a search has found.
use ad_rtb_adapter.Base.{
  ℕ, zero, suc, ◌+◌, ◌≡◌, refl, ap, ap₂, ◌∙◌, Bool, true, false, ◌&&◌, Option, none, some, List, [],
  ◌∷◌, ◌++◌, length, length-append, drop, ◌==◌, if◌then◌else◌, arith, Bool-cases, inl, inr, get_or,
}
use ad_rtb_adapter.Acbm.{Acbm, Found, lower, list_at, push_at, push_all, hit}
use ad_rtb_adapter.Acbm.Kept.{Patterns, AllFilled, one_if, tally, count, held, list_at-push_at}
use ad_rtb_adapter.Acbm.Tags.{same}
use ad_rtb_adapter.Strings.{Text}

-- `s` stands at the start of `w`, capitals and small letters taken as equal.
abbrev pub starts : Text → Text → Bool
starts [] w = true
starts (c ∷ s) [] = false
starts (c ∷ s) (d ∷ w) = let rest = starts s w in (lower c == lower d) && rest

-- How many of the patterns with the data `p` stand at the start of `w`.
abbrev pub here : ℕ → Patterns → Text → ℕ
here p [] w = 0
here p ((s, q) ∷ ps) w = one_if (starts s w && (p == q)) + here p ps w

-- The same for the first `n` places of a text together, and for all places.
abbrev pub places : ℕ → Patterns → Text → ℕ → ℕ
places p ps text zero = 0
places p ps text (suc b) = here p ps (drop b text) + places p ps text b

abbrev pub occurrences : ℕ → Patterns → Text → ℕ
occurrences p ps text = places p ps text (length text)

-- How many strings a result has for `p`.
abbrev pub entries : ℕ → Found → ℕ
entries p f = length (list_at p f.results)

-- The sum over the prefixes that are not empty.
abbrev pub prefix_sum : (Text → ℕ) → Text → ℕ
prefix_sum g [] = 0
prefix_sum g (c ∷ cs) = g (c ∷ []) + prefix_sum (λ v. g (c ∷ v)) cs

pub prefix_sum_zero :
    (g : Text → ℕ) (w : Text) → ((c : ℕ) (v : Text) → g (c ∷ v) ≡ 0) → prefix_sum g w ≡ 0
prefix_sum_zero g [] h = refl
prefix_sum_zero g (c ∷ w) h =
    omega (arith, h c [], prefix_sum_zero (λ v. g (c ∷ v)) w (λ d v. h c (d ∷ v)))

prefix_sum_add :
    (g h : Text → ℕ) (w : Text) → prefix_sum (λ v. g v + h v) w ≡ prefix_sum g w + prefix_sum h w
prefix_sum_add g h [] = refl
prefix_sum_add g h (c ∷ w) = omega (arith, prefix_sum_add (λ v. g (c ∷ v)) (λ v. h (c ∷ v)) w)

prefix_sum-same :
    (b : Bool) (d : ℕ) (s w : Text)
    → prefix_sum (λ v. one_if (same v (d ∷ s) && b)) w ≡ one_if (starts (d ∷ s) w && b)
prefix_sum-same b d s [] = refl
prefix_sum-same b d [] (c ∷ w) =
    ground
      (arith, prefix_sum_zero (λ v. one_if (same (c ∷ v) (d ∷ []) && b)) w (λ e v. ground arith))
prefix_sum-same b d (e ∷ s) (c ∷ w) = elim (Bool-cases (lower c == lower d)) [
  | inl h ↦
      let turned : (lower d == lower c) ≡ true = ground (arith, h) in
      rw (h, turned) (omega (arith, prefix_sum-same b e s w))
  | inr h ↦
      let turned : (lower d == lower c) ≡ false = ground (arith, h) in
      rw (h, turned) (omega (arith, prefix_sum_zero (λ v. 0) w (λ e v. refl)))
]

pub prefix_sum-tally :
    (p : ℕ) (ps : Patterns) (w : Text)
    → AllFilled ps
    → prefix_sum (λ v. tally p v ps) w ≡ here p ps w
prefix_sum-tally p [] w h = prefix_sum_zero (λ v. 0) w (λ c v. refl)
prefix_sum-tally p (([], q) ∷ ps) w h = absurd (ground (arith, h.0))
prefix_sum-tally p ((d ∷ s, q) ∷ ps) w h =
    prefix_sum_add (λ v. one_if (same v (d ∷ s) && (p == q))) (λ v. tally p v ps) w
    ∙ ap₂ ◌+◌ (prefix_sum-same (p == q) d s w) (prefix_sum-tally p ps w h.1)

pushed :
    (b : Bool) (n : ℕ) (s : Text) (l : List Text)
    → n + length (if b then l ++ s ∷ [] else l) ≡ (one_if b + n) + length l
pushed true n s l = omega (arith, length-append l (s ∷ []))
pushed false n s l = omega arith

entries-push_all :
    (p : ℕ) (qs : List ℕ) (s : Text) (m : List (ℕ × List Text))
    → length (list_at p (push_all qs s m)) ≡ count p qs + length (list_at p m)
entries-push_all p [] s m = omega arith
entries-push_all p (q ∷ qs) s m =
    entries-push_all p qs s (push_at q s m)
    ∙ ap (λ (l : List Text). count p qs + length l) (list_at-push_at p q s m)
    ∙ pushed (p == q) (count p qs) s (list_at p m)

pub entries-hit :
    (a : Acbm) (p : ℕ) (o : Option ℕ) (f : Found)
    → entries p (hit a o f) ≡ held p a.owners o + entries p f
entries-hit a p none f = omega arith
entries-hit a p (some l) f = entries-push_all p (list_at l a.owners) (get_or a.strs l []) f.results
