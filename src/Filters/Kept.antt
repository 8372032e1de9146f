-- ===== src/Filters/Kept.antt =====
-- What the parameter filter and the ban filter leave.
use ad_rtb_adapter.Base.{
  ℕ, suc, ◌≡◌, refl, ◌∙◌, Bool, true, false, ◌||◌, Option, none, some, List, [], ◌∷◌, ◌==◌,
  if◌then◌else◌, arith, Bool-cases, inl, inr,
}
use ad_rtb_adapter.Filters.Filed.{member, hits}
use ad_rtb_adapter.Filters.Looked.{Above, match_of, match_of-below, weaken}
use ad_rtb_adapter.Filters.Parameter.{stays, parameter}
use ad_rtb_adapter.Filters.Planning.{PlanningUnit}
use ad_rtb_adapter.Filters.Results.{Results, erase, erase_all, erase_keys, found}
use ad_rtb_adapter.Filters.Table.{Table, find}
use ad_rtb_adapter.Protocol.Request.{Request}
use ad_rtb_adapter.Strings.{Text, Libc}

erase-Above : (id lo : ℕ) (r : Results) → Above lo r → Above lo (erase id r)
erase-Above id lo [] a = tt
erase-Above id lo (e ∷ r) a = elim (Bool-cases (id == e.id)) [
  | inl t ↦ rw t (weaken lo (suc e.id) r (omega (arith, a.0)) a.1)
  | inr f ↦ rw f (a.0, erase-Above id (suc e.id) r a.1)
]

match_of-erase :
    (i id lo : ℕ) (r : Results)
    → Above lo r
    → match_of i (erase id r) ≡ (if i == id then none else match_of i r)
match_of-erase i id lo [] a = ground arith
match_of-erase i id lo (e ∷ r) a = elim (Bool-cases (id == e.id)) [
  | inl t ↦
      let gone = match_of-below e.id (suc e.id) r a.1 (omega arith) in
      let eq : id ≡ e.id = ground arith in
      elim (Bool-cases (i == e.id)) [
        | inl s ↦ let same : i ≡ e.id = ground arith in rw (t, eq, s, same) gone
        | inr s ↦ rw (t, eq, s) refl
      ]
  | inr f ↦ elim (Bool-cases (i == e.id)) [
    | inl s ↦ let apart : (i == id) ≡ false = ground arith in rw (f, s, apart) refl
    | inr s ↦ rw (f, s) (match_of-erase i id (suc e.id) r a.1)
  ]
]

none_twice :
    (a b : Bool) (o : Option ℕ)
    → (if b then none else (if a then none else o)) ≡ (if a || b then none else o)
none_twice true true o = refl
none_twice true false o = refl
none_twice false true o = refl
none_twice false false o = refl

match_of-erase_all :
    (i : ℕ) (ids : List ℕ) (r : Results)
    → Above 0 r
    → match_of i (erase_all ids r) ≡ (if member i ids then none else match_of i r)
match_of-erase_all i [] r a = refl
match_of-erase_all i (id ∷ ids) r a =
    match_of-erase_all i ids (erase id r) (erase-Above id 0 r a)
    ∙ rw (match_of-erase i id 0 r a) (none_twice (i == id) (member i ids) (match_of i r))

erase_all-Above : (ids : List ℕ) (r : Results) → Above 0 r → Above 0 (erase_all ids r)
erase_all-Above [] r a = a
erase_all-Above (id ∷ ids) r a = erase_all-Above ids (erase id r) (erase-Above id 0 r a)

pub erase_keys-Above :
    (qs : List Text) (t : Table) (r : Results) → Above 0 r → Above 0 (erase_keys qs t r)
erase_keys-Above [] t r a = a
erase_keys-Above (q ∷ qs) t r a =
    erase_keys-Above qs t (erase_all (found (find q t)) r) (erase_all-Above (found (find q t)) r a)

pub match_of-erase_keys :
    (i : ℕ) (qs : List Text) (t : Table) (r : Results)
    → Above 0 r
    → match_of i (erase_keys qs t r) ≡ (if hits i qs t then none else match_of i r)
match_of-erase_keys i [] t r a = refl
match_of-erase_keys i (q ∷ qs) t r a =
    let ids = found (find q t) in
    match_of-erase_keys i qs t (erase_all ids r) (erase_all-Above ids r a)
    ∙ rw (match_of-erase_all i ids r a) (none_twice (member i ids) (hits i qs t) (match_of i r))

pub erase_keys_none : (qs : List Text) (t : Table) → erase_keys qs t [] ≡ []
erase_keys_none [] t = refl
erase_keys_none (q ∷ qs) t = rw (erase_all_none (found (find q t))) (erase_keys_none qs t)
  where
    erase_all_none : (ids : List ℕ) → erase_all ids [] ≡ []
    erase_all_none [] = refl
    erase_all_none (id ∷ ids) = erase_all_none ids

abbrev pub kept : (ℕ → Bool) → Option ℕ → Option ℕ
kept p none = none
kept p (some w) = if p w then some w else none

module _ (c : Libc) (us : List PlanningUnit) (q : Request) where
  pub parameter-Above : (lo : ℕ) (r : Results) → Above lo r → Above lo (parameter c us q r)
  parameter-Above lo [] a = tt
  parameter-Above lo (e ∷ r) a = elim (Bool-cases (stays c us q e.id e.match)) [
    | inl t ↦ rw t (a.0, parameter-Above (suc e.id) r a.1)
    | inr f ↦ rw f (
        weaken lo (suc e.id) (parameter c us q r) (omega (arith, a.0))
          (parameter-Above (suc e.id) r a.1))
  ]

  pub match_of-parameter :
      (i lo : ℕ) (r : Results)
      → Above lo r
      → match_of i (parameter c us q r) ≡ kept (stays c us q i) (match_of i r)
  match_of-parameter i lo [] a = refl
  match_of-parameter i lo (e ∷ r) a = elim (Bool-cases (stays c us q e.id e.match)) [
    | inl t ↦ elim (Bool-cases (i == e.id)) [
      | inl s ↦ let same : i ≡ e.id = ground arith in rw (t, s, same, t) refl
      | inr s ↦ rw (t, s) (match_of-parameter i (suc e.id) r a.1)
    ]
    | inr f ↦ elim (Bool-cases (i == e.id)) [
      | inl s ↦
          let same : i ≡ e.id = ground arith in
          rw (f, s, same, f)
            (match_of-below e.id (suc e.id) (parameter c us q r) (parameter-Above (suc e.id) r a.1)
              (omega arith))
      | inr s ↦ rw (f, s) (match_of-parameter i (suc e.id) r a.1)
    ]
  ]
