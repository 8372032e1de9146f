-- ===== src/Filters/Looked.antt =====
-- What the results have of a unit after each step.
use ad_rtb_adapter.Base.{
  ℕ, suc, ◌≤◌, ◌<◌, ◌≡◌, refl, ◌∙◌, ap, Bool, true, false, Option, none, some, List, [], ◌∷◌,
  bit_or, ltb, ◌==◌, if◌then◌else◌, arith, Bool-cases, inl, inr,
}
use ad_rtb_adapter.Filters.Filed.{member, hits}
use ad_rtb_adapter.Filters.Kinds.{Kind, flag}
use ad_rtb_adapter.Filters.Marks.{Marks, word, shown, add, add_again, bit_or-word}
use ad_rtb_adapter.Filters.Results.{Results, mark, mark_all, mark_keys, found}
use ad_rtb_adapter.Filters.Table.{Table, find}
use ad_rtb_adapter.Strings.{Text}

-- `m_uiMatch` of the unit `id`.
abbrev pub match_of : ℕ → Results → Option ℕ
match_of id [] = none
match_of id (e ∷ r) = let rest = match_of id r in if id == e.id then some e.match else rest

-- The ids go up, from `lo` on, as in a `std::map` by execute ids.
abbrev pub Above : ℕ → Results → Type 0
Above lo [] = Unit
Above lo (e ∷ r) = (lo ≤ e.id) × Above (suc e.id) r

abbrev pub or_zero : Option ℕ → ℕ
or_zero none = 0
or_zero (some w) = w

pub weaken : (lo hi : ℕ) (r : Results) → lo ≤ hi → Above hi r → Above lo r
weaken lo hi [] h a = tt
weaken lo hi (e ∷ r) h a = (omega (arith, a.0), a.1)

pub match_of-below : (i lo : ℕ) (r : Results) → Above lo r → i < lo → match_of i r ≡ none
match_of-below i lo [] a h = refl
match_of-below i lo (e ∷ r) a h =
    let apart : (i == e.id) ≡ false = ground (arith, a.0) in
    rw apart (match_of-below i (suc e.id) r a.1 (omega (arith, a.0)))

pub mark-Above : (flag id lo : ℕ) (r : Results) → lo ≤ id → Above lo r → Above lo (mark flag id r)
mark-Above flag id lo [] h a = (h, tt)
mark-Above flag id lo (e ∷ r) h a = elim (Bool-cases (ltb id e.id)) [
  | inl t ↦ rw t (h, weaken (suc id) e.id (e ∷ r) (ground arith) (omega arith, a.1))
  | inr f ↦ elim (Bool-cases (id == e.id)) [
    | inl t ↦ rw (f, t) a
    | inr g ↦ rw (f, g) (a.0, mark-Above flag id (suc e.id) r (ground arith) a.1)
  ]
]

pub match_of-mark :
    (i flag id lo : ℕ) (r : Results)
    → Above lo r
    → match_of i (mark flag id r)
      ≡ (if i == id then some (bit_or (or_zero (match_of i r)) flag) else match_of i r)
match_of-mark i flag id lo [] a = refl
match_of-mark i flag id lo (e ∷ r) a = elim (Bool-cases (ltb id e.id)) [
  | inl t ↦ elim (Bool-cases (i == id)) [
    | inl s ↦
        let apart : (i == e.id) ≡ false = ground arith in
        let gone = match_of-below i (suc e.id) r a.1 (ground arith) in rw (t, s, apart, gone) refl
    | inr s ↦ rw (t, s) refl
  ]
  | inr f ↦ elim (Bool-cases (id == e.id)) [
    | inl t ↦
        let eq : id ≡ e.id = ground arith in
        elim (Bool-cases (i == e.id)) [
          | inl s ↦ rw (f, t, eq, s) refl
          | inr s ↦ rw (f, t, eq, s) refl
        ]
    | inr g ↦ elim (Bool-cases (i == e.id)) [
      | inl s ↦ let apart : (i == id) ≡ false = ground arith in rw (f, g, s, apart) refl
      | inr s ↦ rw (f, g, s) (match_of-mark i flag id (suc e.id) r a.1)
    ]
  ]
]

or_zero-shown : (m : Marks) → or_zero (shown m) ≡ word m
or_zero-shown m = ground arith

shown-add :
    (k : Kind) (b : Bool) (m : Marks)
    → (if b then some (bit_or (or_zero (shown m)) (flag k)) else shown m) ≡ shown (add k b m)
shown-add k false m = refl
shown-add k true m = rw (or_zero-shown m, (bit_or-word k m).0, (bit_or-word k m).1) refl

module _ (i : ℕ) (k : Kind) where
  pub match_of-mark_all :
      (m : Marks) (ids : List ℕ) (r : Results)
      → Above 0 r
      → match_of i r ≡ shown m
      → match_of i (mark_all (flag k) ids r) ≡ shown (add k (member i ids) m)
  match_of-mark_all m [] r a h = h
  match_of-mark_all m (id ∷ ids) r a h =
      match_of-mark_all (add k (i == id) m) ids (mark (flag k) id r)
        (mark-Above (flag k) id 0 r (omega arith) a)
        (match_of-mark i (flag k) id 0 r a ∙ rw h (shown-add k (i == id) m))
      ∙ ap shown (add_again k (i == id) (member i ids) m)

  mark_all-Above : (ids : List ℕ) (r : Results) → Above 0 r → Above 0 (mark_all (flag k) ids r)
  mark_all-Above [] r a = a
  mark_all-Above (id ∷ ids) r a =
      mark_all-Above ids (mark (flag k) id r) (mark-Above (flag k) id 0 r (omega arith) a)

  pub mark_keys-Above :
      (qs : List Text) (t : Table) (r : Results) → Above 0 r → Above 0 (mark_keys (flag k) qs t r)
  mark_keys-Above [] t r a = a
  mark_keys-Above (q ∷ qs) t r a =
      mark_keys-Above qs t (mark_all (flag k) (found (find q t)) r)
        (mark_all-Above (found (find q t)) r a)

  pub match_of-mark_keys :
      (m : Marks) (qs : List Text) (t : Table) (r : Results)
      → Above 0 r
      → match_of i r ≡ shown m
      → match_of i (mark_keys (flag k) qs t r) ≡ shown (add k (hits i qs t) m)
  match_of-mark_keys m [] t r a h = h
  match_of-mark_keys m (q ∷ qs) t r a h =
      let ids = found (find q t) in
      match_of-mark_keys (add k (member i ids) m) qs t (mark_all (flag k) ids r)
        (mark_all-Above ids r a) (match_of-mark_all m ids r a h)
      ∙ ap shown (add_again k (member i ids) (hits i qs t) m)
