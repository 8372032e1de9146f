-- ===== src/Area/Lookup.antt =====
-- `Get` on a tree that `AddTree` made: the longest prefix that has a city.
use ad_rtb_adapter.Base.{
  is_empty, ℕ, zero, suc, ◌≡◌, refl, ap, ap₂, sym, ◌∙◌, Bool, true, false, ◌&&◌, ◌==◌,
  if◌then◌else◌, arith, Bool-cases, inl, inr,
}
use ad_rtb_adapter.Area.{Text, Names, no_names, Tree, null, node, add, names_of, show, pick, walk}

-- The names `k` bits below a node that is reached by the bits before `i`.
abbrev pub names_at : (ℕ → Bool) → ℕ → ℕ → Tree → Names
names_at b i zero t = names_of t
names_at b i (suc k) null = no_names
names_at b i (suc k) (node l r w) =
    let left = names_at b (suc i) k l in
    let right = names_at b (suc i) k r in if b i then right else left

-- Two bits agree.
abbrev pub same_bit : Bool → Bool → Bool
same_bit true c = c
same_bit false true = false
same_bit false false = true

-- `n` bits agree, from bit `i` on.
abbrev pub agree : (ℕ → Bool) → (ℕ → Bool) → ℕ → ℕ → Bool
agree b c i zero = true
agree b c i (suc n) = same_bit (b i) (c i) && agree b c (suc i) n

names_at_null : (b : ℕ → Bool) (i k : ℕ) → names_at b i k null ≡ no_names
names_at_null b i zero = refl
names_at_null b i (suc k) = refl

-- The prefix of an addition of `n` bits is the one that `k` bits of `c` make.
abbrev pub hits : (ℕ → Bool) → (ℕ → Bool) → ℕ → ℕ → ℕ → Bool
hits b c i zero zero = true
hits b c i zero (suc k) = false
hits b c i (suc n) zero = false
hits b c i (suc n) (suc k) = same_bit (b i) (c i) && hits b c (suc i) n k

pub hits_lem : (b c : ℕ → Bool) (i n k : ℕ) → hits b c i n k ≡ (k == n) && agree b c i n
hits_lem b c i zero zero = refl
hits_lem b c i zero (suc k) = ground arith
hits_lem b c i (suc n) zero = ground arith
hits_lem b c i (suc n) (suc k) = ground (arith, hits_lem b c (suc i) n k)

pub if_same {ℓ} : {A : Type ℓ} (d : Bool) (x : A) → (if d then x else x) ≡ x
if_same true x = refl
if_same false x = refl

names_of_if :
    (d : Bool) (l r x y : Tree) (w : Names) → names_of (if d then node l y w else node x r w) ≡ w
names_of_if true l r x y w = refl
names_of_if false l r x y w = refl

module _ (b c : ℕ → Bool) (v : Names) where
  -- Below NULL, the addition leaves nodes with no names.
  names_at-add_null :
      (i n k : ℕ) → names_at c i k (add b i n v null) ≡ (if hits b c i n k then v else no_names)
  names_at-add_null i zero zero = refl
  names_at-add_null i zero (suc k) =
      ap₂ (λ x y. if c i then x else y) (names_at_null c (suc i) k) (names_at_null c (suc i) k)
      ∙ if_same (c i) no_names
  names_at-add_null i (suc n) zero =
      let rest = add b (suc i) n v null in names_of_if (b i) null null rest rest no_names
  names_at-add_null i (suc n) (suc k) =
      let below = names_at-add_null (suc i) n k in
      let nothing = names_at_null c (suc i) k in
      elim (Bool-cases (b i)) [
        | inl t ↦ elim (Bool-cases (c i)) [ inl u ↦ rw (t, u) below | inr g ↦ rw (t, g) nothing ]
        | inr f ↦ elim (Bool-cases (c i)) [ inl u ↦ rw (f, u) nothing | inr g ↦ rw (f, g) below ]
      ]

  -- What an addition changes is what is found at its own prefix.
  pub names_at-add :
      (i n k : ℕ) (t : Tree)
      → names_at c i k (add b i n v t) ≡ (if hits b c i n k then v else names_at c i k t)
  names_at-add i n k null =
      names_at-add_null i n k
      ∙ ap (λ x. if hits b c i n k then v else x) (sym (names_at_null c i k))
  names_at-add i zero zero (node l r w) = refl
  names_at-add i zero (suc k) (node l r w) = refl
  names_at-add i (suc n) zero (node l r w) =
      names_of_if (b i) l r (add b (suc i) n v l) (add b (suc i) n v r) w
  names_at-add i (suc n) (suc k) (node l r w) = elim (Bool-cases (b i)) [
    | inl t ↦ elim (Bool-cases (c i)) [
      | inl u ↦ rw (t, u) (names_at-add (suc i) n k r)
      | inr g ↦ rw (t, g) refl
    ]
    | inr f ↦ elim (Bool-cases (c i)) [
      | inl u ↦ rw (f, u) refl
      | inr g ↦ rw (f, g) (names_at-add (suc i) n k l)
    ]
  ]

-- The longest prefix, of at most `n` bits and of one at least, that has a city.
abbrev pub longest : ℕ → (ℕ → Names) → Text → Text
longest zero f area = area
longest (suc n) f area =
    let shorter = longest n f area in
    if is_empty (f (suc n)).city then shorter else show (f (suc n))

longest-suc :
    (n : ℕ) (f : ℕ → Names) (area : Text)
    → longest n (λ k. f (suc k)) (pick (f 1) area) ≡ longest (suc n) f area
longest-suc zero f area = refl
longest-suc (suc n) f area =
    ap (λ x. if is_empty (f (suc (suc n))).city then x else show (f (suc (suc n))))
      (longest-suc n f area)

longest_none :
    (n : ℕ) (f : ℕ → Names) (area : Text)
    → ((k : ℕ) → f (suc k) ≡ no_names)
    → longest n f area ≡ area
longest_none zero f area h = refl
longest_none (suc n) f area h =
    ap (λ w. if is_empty w.city then longest n f area else show w) (h n) ∙ longest_none n f area h

-- The loop of `Get` finds the longest prefix.
pub walk_lem :
    (b : ℕ → Bool) (i n : ℕ) (t : Tree) (area : Text)
    → walk b i n t area ≡ longest n (λ k. names_at b i k t) area
walk_lem b i zero t area = refl
walk_lem b i (suc n) null area =
    sym (longest_none (suc n) (λ k. names_at b i k null) area (λ k. names_at_null b i (suc k)))
walk_lem b i (suc n) (node l r w) area = elim (Bool-cases (b i)) [
  | inl t ↦
      rw t (walk_lem b (suc i) n r (pick (names_of r) area))
      ∙ longest-suc n (λ k. names_at b i k (node l r w)) area
  | inr f ↦
      rw f (walk_lem b (suc i) n l (pick (names_of l) area))
      ∙ longest-suc n (λ k. names_at b i k (node l r w)) area
]
