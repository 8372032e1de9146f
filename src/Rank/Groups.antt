-- ===== src/Rank/Groups.antt =====
-- The candidates grouped by price.
use ad_rtb_adapter.Base.{
  ℕ, zero, suc, ◌^◌, ◌<◌, ◌≡◌, refl, inl, inr, Bool, true, false, ◌||◌, some, List, [], ◌∷◌, ◌++◌,
  get_elem?, length, ltb, ◌==◌, arith, Bool-cases, subst, length-append,
}
use mathlib.Core.Option.{some-injective}
use ad_rtb_adapter.Rank.Choice.{UnitPrice, key, Groups, push_price, push_prices}

-- The keys go down, and are below `hi`.
abbrev pub Down : ℕ → Groups → Type 0
Down hi [] = Unit
Down hi ((k, ps) ∷ gs) = (k < hi) × Down k gs

-- `k` is the key of a group.
abbrev pub keyed : ℕ → Groups → Bool
keyed x [] = false
keyed x ((k, ps) ∷ gs) = (x == k) || keyed x gs

push_price-Down :
    (p : UnitPrice) (hi : ℕ) (gs : Groups) → key p < hi → Down hi gs → Down hi (push_price p gs)
push_price-Down p hi [] h d = (h, tt)
push_price-Down p hi ((k, ps) ∷ gs) h d = elim (Bool-cases (ltb k (key p))) [
  | inl t ↦ rw t (h, (ground arith, d.1))
  | inr f ↦ elim (Bool-cases (key p == k)) [
    | inl t ↦ rw (f, t) d
    | inr g ↦ rw (f, g) (d.0, push_price-Down p k gs (ground arith) d.1)
  ]
]

keyed-push_price :
    (x : ℕ) (p : UnitPrice) (gs : Groups) → keyed x (push_price p gs) ≡ (x == key p) || keyed x gs
keyed-push_price x p [] = refl
keyed-push_price x p ((k, ps) ∷ gs) = elim (Bool-cases (ltb k (key p))) [
  | inl t ↦ rw t refl
  | inr f ↦ elim (Bool-cases (key p == k)) [
    | inl t ↦ let same : key p ≡ k = ground arith in rw (f, t, same) (ground arith)
    | inr g ↦ rw (f, g, keyed-push_price x p gs) (ground arith)
  ]
]

module _ {ℓ} {A : Type ℓ} where
  abbrev pub All {κ} : (A → Type κ) → List A → Type κ
  All Q [] = Unit
  All Q (x ∷ xs) = Q x × All Q xs

  pub get_elem?-lt : (xs : List A) (i : ℕ) → i < length xs → (x : A) × (get_elem? xs i ≡ some x)
  get_elem?-lt [] i h = absurd (omega (arith, h))
  get_elem?-lt (x ∷ xs) zero h = (x, refl)
  get_elem?-lt (x ∷ xs) (suc i) h = get_elem?-lt xs i (omega arith)

  All-append {κ} : (Q : A → Type κ) (xs ys : List A) → All Q xs → All Q ys → All Q (xs ++ ys)
  All-append Q [] ys a b = b
  All-append Q (x ∷ xs) ys a b = (a.0, All-append Q xs ys a.1 b)

  pub All-at {κ} :
      (Q : A → Type κ) (xs : List A) (i : ℕ) (x : A) → get_elem? xs i ≡ some x → All Q xs → Q x
  All-at Q [] i x h a = absurd (ground (arith, h))
  All-at Q (y ∷ xs) zero x h a = subst Q (some-injective y x h) a.0
  All-at Q (y ∷ xs) (suc i) x h a = All-at Q xs i x h a.1

-- Every group has candidates, all of its key and with `Q`.
abbrev pub Full : (UnitPrice → Type 0) → Groups → Type 0
Full Q [] = Unit
Full Q ((k, ps) ∷ gs) = (0 < length ps) × All (λ p. (key p ≡ k) × Q p) ps × Full Q gs

module _ (Q : UnitPrice → Type 0) where
  push_price-Full : (p : UnitPrice) (gs : Groups) → Q p → Full Q gs → Full Q (push_price p gs)
  push_price-Full p [] h f = (omega arith, ((refl, h), tt), tt)
  push_price-Full p ((k, ps) ∷ gs) h f = elim (Bool-cases (ltb k (key p))) [
    | inl t ↦ rw t (omega arith, ((refl, h), tt), f)
    | inr g ↦ elim (Bool-cases (key p == k)) [
      | inl t ↦
          rw (g, t)
            (
              omega (arith, length-append ps (p ∷ [])),
              All-append (λ p. (key p ≡ k) × Q p) ps (p ∷ []) f.1 ((ground arith, h), tt),
              f.2,
            )
      | inr n ↦ rw (g, n) (f.0, f.1, push_price-Full p gs h f.2)
    ]
  ]

  pub push_prices-Full :
      (ps : List UnitPrice) (gs : Groups) → All Q ps → Full Q gs → Full Q (push_prices ps gs)
  push_prices-Full [] gs h f = f
  push_prices-Full (p ∷ ps) gs h f =
      push_prices-Full ps (push_price p gs) h.1 (push_price-Full p gs h.0 f)

  pub Full-at :
      (gs : Groups) (i k : ℕ) (ps : List UnitPrice)
      → get_elem? gs i ≡ some (k, ps)
      → Full Q gs
      → (0 < length ps) × All (λ p. (key p ≡ k) × Q p) ps
  Full-at [] i k ps h f = absurd (ground (arith, h))
  Full-at ((l, qs) ∷ gs) zero k ps h f =
      subst (λ g. (0 < length g.1) × All (λ p. (key p ≡ g.0) × Q p) g.1)
        (some-injective (l, qs) (k, ps) h) (f.0, f.1)
  Full-at (g ∷ gs) (suc i) k ps h f = Full-at gs i k ps h f.2

key_bound : (p : UnitPrice) → key p < 2 ^ 32
key_bound p = omega arith

pub push_prices-Down :
    (ps : List UnitPrice) (gs : Groups) → Down (2 ^ 32) gs → Down (2 ^ 32) (push_prices ps gs)
push_prices-Down [] gs d = d
push_prices-Down (p ∷ ps) gs d =
    push_prices-Down ps (push_price p gs) (push_price-Down p (2 ^ 32) gs (key_bound p) d)

keyed-push_prices :
    (x : ℕ) (ps : List UnitPrice) (gs : Groups)
    → keyed x gs ≡ true
    → keyed x (push_prices ps gs) ≡ true
keyed-push_prices x [] gs h = h
keyed-push_prices x (p ∷ ps) gs h =
    keyed-push_prices x ps (push_price p gs) (ground (arith, h, keyed-push_price x p gs))

-- Every candidate's price has a group.
pub push_prices-keyed :
    (ps : List UnitPrice) (gs : Groups) → All (λ p. keyed (key p) (push_prices ps gs) ≡ true) ps
push_prices-keyed [] gs = tt
push_prices-keyed (p ∷ ps) gs = (
  keyed-push_prices (key p) ps (push_price p gs) (ground (arith, keyed-push_price (key p) p gs)),
  push_prices-keyed ps (push_price p gs),
)
