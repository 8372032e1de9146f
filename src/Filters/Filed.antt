-- ===== src/Filters/Filed.antt =====
-- What is filed under a key after an update.
use ad_rtb_adapter.Base.{
  ℕ, ◌≡◌, refl, ◌∙◌, ap, Bool, true, false, ◌&&◌, ◌||◌, List, [], ◌∷◌, ◌++◌, ◌==◌, same_text, arith,
  Bool-cases, inl, inr,
}
use ad_rtb_adapter.Filters.Results.{found}
use ad_rtb_adapter.Filters.Table.{Table, update, find, update_all}
use ad_rtb_adapter.Strings.{Text}

abbrev pub member : ℕ → List ℕ → Bool
member x [] = false
member x (y ∷ ys) = (x == y) || member x ys

abbrev pub has_key : Text → List Text → Bool
has_key key [] = false
has_key key (k ∷ ks) = same_text key k || has_key key ks

-- The unit `id` stands under `key`.
abbrev pub listed : ℕ → Text → Table → Bool
listed id key t = member id (found (find key t))

member-append : (x : ℕ) (xs ys : List ℕ) → member x (xs ++ ys) ≡ member x xs || member x ys
member-append x [] ys = refl
member-append x (y ∷ xs) ys = ground (arith, member-append x xs ys)

pub same_text→≡ : (a b : Text) → same_text a b ≡ true → a ≡ b
same_text→≡ [] [] h = refl
same_text→≡ [] (y ∷ b) h = absurd (ground (arith, h))
same_text→≡ (x ∷ a) [] h = absurd (ground (arith, h))
same_text→≡ (x ∷ a) (y ∷ b) h = ground (arith, h, same_text→≡ a b)

pub same_text_refl : (a : Text) → same_text a a ≡ true
same_text_refl [] = refl
same_text_refl (x ∷ a) = ground (arith, same_text_refl a)

pub same_text_sym : (a b : Text) → same_text a b ≡ same_text b a
same_text_sym [] [] = refl
same_text_sym [] (y ∷ b) = refl
same_text_sym (x ∷ a) [] = refl
same_text_sym (x ∷ a) (y ∷ b) = ground (arith, same_text_sym a b)

listed-update :
    (i : ℕ) (q key : Text) (id : ℕ) (t : Table)
    → listed i q (update key id t) ≡ (same_text q key && (i == id)) || listed i q t
listed-update i q key id [] = ground arith
listed-update i q key id ((k, ids) ∷ t) = elim (Bool-cases (same_text key k)) [
  | inl e ↦
      let eq : key ≡ k = same_text→≡ key k e in
      elim (Bool-cases (same_text q k)) [
        | inl f ↦ rw (e, eq, f) (ground (arith, member-append i ids (id ∷ [])))
        | inr f ↦ rw (e, eq, f) refl
      ]
  | inr e ↦ elim (Bool-cases (same_text q k)) [
    | inl f ↦
        let same : q ≡ k = same_text→≡ q k f in
        let apart : same_text q key ≡ false = rw same (same_text_sym k key ∙ e) in
        rw (e, f, apart) refl
    | inr f ↦ rw (e, f) (listed-update i q key id t)
  ]
]

or_swap : (a b x y : Bool) → (a && x) || ((b && x) || y) ≡ ((b || a) && x) || y
or_swap a b x y = ground arith

listed-update_all :
    (i : ℕ) (q : Text) (ks : List Text) (id : ℕ) (t : Table)
    → listed i q (update_all ks id t) ≡ (has_key q ks && (i == id)) || listed i q t
listed-update_all i q [] id t = refl
listed-update_all i q (k ∷ ks) id t =
    listed-update_all i q ks id (update k id t)
    ∙ ap (λ b. (has_key q ks && (i == id)) || b) (listed-update i q k id t)
    ∙ or_swap (has_key q ks) (same_text q k) (i == id) (listed i q t)

-- One of the keys `asked` has the unit `i`.
abbrev pub hits : ℕ → List Text → Table → Bool
hits i [] t = false
hits i (q ∷ qs) t = listed i q t || hits i qs t

-- A key of `qs` is one of `ks`.
abbrev pub overlap : List Text → List Text → Bool
overlap [] ks = false
overlap (q ∷ qs) ks = has_key q ks || overlap qs ks

or_spread : (a b x y z : Bool) → ((a && x) || y) || ((b && x) || z) ≡ ((a || b) && x) || (y || z)
or_spread a b x y z = ground arith

pub hits-update_all :
    (i : ℕ) (qs ks : List Text) (id : ℕ) (t : Table)
    → hits i qs (update_all ks id t) ≡ (overlap qs ks && (i == id)) || hits i qs t
hits-update_all i [] ks id t = refl
hits-update_all i (q ∷ qs) ks id t =
    rw (listed-update_all i q ks id t, hits-update_all i qs ks id t)
      (or_spread (has_key q ks) (overlap qs ks) (i == id) (listed i q t) (hits i qs t))
