-- ===== src/Filters/Mark/Fits.antt =====
-- The key words that count for a mark, and their units: the tree's results against the key words.
use ad_rtb_adapter.Base.{
  nothing, ℕ, zero, suc, ◌≡◌, refl, sym, ap, ◌∙◌, Bool, true, false, ◌&&◌, ◌||◌, not, Option, none,
  some, List, [], ◌∷◌, ◌++◌, get_elem?, ◌==◌, if◌then◌else◌, arith, ==_iff, Bool-cases, inl, inr,
}
use mathlib.Core.Option.{some-injective}
use ad_rtb_adapter.Acbm.{list_at}
use ad_rtb_adapter.Acbm.Pushed.{Pushed}
use ad_rtb_adapter.Filters.Filed.{member}
use ad_rtb_adapter.Filters.Mark.{MarkInfo}
use ad_rtb_adapter.Filters.Mark.KeyWords.{stands_in}
use ad_rtb_adapter.Filters.Mark.Match.{Matches, touch, fits, fit_unit, fit_units, touch_all, has}
use ad_rtb_adapter.Filters.Results.{Results}
use ad_rtb_adapter.User.{UserMark}
use ad_rtb_adapter.Strings.{Text}

-- A key word stands in one of the marks `us`.
abbrev pub stands_among : Text → List UserMark → Bool
stands_among s [] = false
stands_among s (u ∷ us) = stands_in s u.mark || stands_among s us

-- One of the key words meets a test.
abbrev pub any : (MarkInfo → Bool) → List MarkInfo → Bool
any t [] = false
any t (k ∷ ks) = t k || any t ks

-- A key word counts for the mark `u` when it fits it, and stands in one of `us`.
abbrev pub counts : List UserMark → UserMark → MarkInfo → Bool
counts us u k = stands_among k.key us && fits k u

-- The marks reach a unit. `pending` are the marks before, since the last one for which a key word
-- counted: a key word that stands in one of those is still taken for the next mark.
abbrev pub reaches : List MarkInfo → List UserMark → List UserMark → ℕ → Bool
reaches ks pending [] id = false
reaches ks pending (u ∷ us) id =
    let again = reaches ks [] us id in
    let later = reaches ks (u ∷ pending) us id in
    if any (counts (u ∷ pending) u) ks
    then any (λ k. (id == k.id) && counts (u ∷ pending) u k) ks || again
    else later

or_comm : (a b : Bool) → a || b ≡ b || a
or_comm a b = ground arith

pub or_false : (a : Bool) → a ≡ a || false
or_false a = ground arith

has-touch : (id j : ℕ) (r : Results) → has id (touch j r) ≡ (id == j) || has id r
has-touch id j [] = refl
has-touch id j (e ∷ r) = ground (arith, has-touch id j r)

has-touch_if :
    (b : Bool) (id j : ℕ) (r : Results)
    → has id (if b then touch j r else r) ≡ has id r || (b && (id == j))
has-touch_if true id j r = has-touch id j r ∙ or_comm (id == j) (has id r)
has-touch_if false id j r = or_false (has id r)

one_ready :
    (id j : ℕ) (ready : List ℕ) (a b : Bool)
    → (a || (member j ready && (id == j))) || (member id ready && b)
      ≡ a || (member id ready && ((id == j) || b))
one_ready id j ready a b = elim (Bool-cases (id == j)) [
  | inl e ↦
      let same : member j ready ≡ member id ready =
        ap (λ (x : ℕ). member x ready) (sym ((==_iff id j).0 e)) in
      rw (same, e) (ground arith)
  | inr e ↦ rw e (ground arith)
]

pub has-touch_all :
    (id : ℕ) (ready ids : List ℕ) (r : Results)
    → has id (touch_all ready ids r) ≡ has id r || (member id ready && member id ids)
has-touch_all id ready [] r = ground arith
has-touch_all id ready (j ∷ ids) r =
    has-touch_all id ready ids (if member j ready then touch j r else r)
    ∙ ap (λ (b : Bool). b || (member id ready && member id ids))
        (has-touch_if (member j ready) id j r)
    ∙ one_ready id j ready (has id r) (member id ids)

-- A test holds for one of the numbers.
abbrev pub any_id : (ℕ → Bool) → List ℕ → Bool
any_id t [] = false
any_id t (id ∷ ids) = t id || any_id t ids

pub any_id-member : (id : ℕ) (ids : List ℕ) → any_id (λ j. id == j) ids ≡ member id ids
any_id-member id [] = refl
any_id-member id (j ∷ ids) = ap (λ (b : Bool). (id == j) || b) (any_id-member id ids)

pub any_id-some : (ids : List ℕ) → any_id (λ j. true) ids ≡ not (nothing ids)
any_id-some [] = refl
any_id-some (j ∷ ids) = refl

any_id-append : (t : ℕ → Bool) (is js : List ℕ) → any_id t (is ++ js) ≡ any_id t is || any_id t js
any_id-append t [] js = refl
any_id-append t (i ∷ is) js = ground (arith, any_id-append t is js)

abbrev pub among : Option MarkInfo → List UserMark → Bool
among none us = false
among (some k) us = stands_among k.key us

-- The key words that `m` holds are those that stand in one of the marks `us`.
abbrev pub Holds : List MarkInfo → Matches → List UserMark → Type 0
Holds ks m us = (q : ℕ) → not (nothing (list_at q m)) ≡ among (get_elem? ks q) us

any-intro :
    (t : MarkInfo → Bool) (ks : List MarkInfo) (q : ℕ) {k : MarkInfo}
    → get_elem? ks q ≡ some k
    → t k ≡ true
    → any t ks ≡ true
any-intro t [] q e h = absurd (ground (arith, e))
any-intro t (j ∷ ks) zero {k} e h =
    let own : t j ≡ true = ap t (some-injective j k e) ∙ h in rw own refl
any-intro t (j ∷ ks) (suc q) e h = ground (arith, any-intro t ks q e h)

any-cases :
    (t : MarkInfo → Bool) (ks : List MarkInfo)
    → any t ks ≡ true
    → (q : ℕ) × (k : MarkInfo) × (get_elem? ks q ≡ some k) × (t k ≡ true)
any-cases t [] h = absurd (ground (arith, h))
any-cases t (j ∷ ks) h = elim (Bool-cases (t j)) [
  | inl e ↦ (zero, j, refl, e)
  | inr e ↦
      let tail : any t ks ≡ true = rw e at h in
      let (q, k, at, holds) = any-cases t ks tail in (suc q, k, at, holds)
]

any_id-fit_unit :
    (t : ℕ → Bool) (k : MarkInfo) (u : UserMark)
    → any_id t (fit_unit (some k) u) ≡ t k.id && fits k u
any_id-fit_unit t k u = ground arith

if_either :
    (b : Bool) (xs ys : List Text)
    → nothing xs ≡ false
    → nothing ys ≡ false
    → nothing (if b then xs else ys) ≡ false
if_either true xs ys h k = h
if_either false xs ys h k = k

bool_ext : {a b : Bool} → (a ≡ true → b ≡ true) → (b ≡ true → a ≡ true) → a ≡ b
bool_ext {a = true} {b} f g = sym (f refl)
bool_ext {a = false} {b = true} f g = g refl
bool_ext {a = false} {b = false} f g = refl

both : (a b c : Bool) → a ≡ true → b && c ≡ true → b && (a && c) ≡ true
both a b c h k = ground arith

apart : (a b c : Bool) → b && (a && c) ≡ true → (a ≡ true) × (b && c ≡ true)
apart a b c h = ground arith

not-true : {b : Bool} → not b ≡ true → b ≡ false
not-true h = ground arith

module _ (t : ℕ → Bool) (ks : List MarkInfo) (u : UserMark) where
  from_fit :
      (o : Option MarkInfo)
      → any_id t (fit_unit o u) ≡ true
      → (k : MarkInfo) × (o ≡ some k) × (t k.id && fits k u ≡ true)
  from_fit none e = absurd (ground (arith, e))
  from_fit (some k) e = (k, refl, sym (any_id-fit_unit t k u) ∙ e)

  from_fits :
      (m : Matches)
      → Pushed m
      → any_id t (fit_units ks m u) ≡ true
      → (q : ℕ) × (k : MarkInfo) × (get_elem? ks q ≡ some k)
        × (t k.id && fits k u ≡ true)
        × (nothing (list_at q m) ≡ false)
  from_fits [] h e = absurd (ground (arith, e))
  from_fits ((p, strs) ∷ m) h e =
      let split = sym (any_id-append t (fit_unit (get_elem? ks p) u) (fit_units ks m u)) ∙ e in
      elim (Bool-cases (any_id t (fit_unit (get_elem? ks p) u))) [
        | inl own ↦
            let (k, at, fit) = from_fit (get_elem? ks p) own in
            let here : (p == p) ≡ true = (==_iff p p).1 refl in (p, k, at, fit, rw here h.0)
        | inr other ↦
            let rest : any_id t (fit_units ks m u) ≡ true = rw other at split in
            let (q, k, at, fit, there) = from_fits m h.1 rest in
            (q, k, at, fit, if_either (q == p) strs (list_at q m) h.0 there)
      ]

  to_fits :
      (m : Matches) (q : ℕ) {k : MarkInfo}
      → get_elem? ks q ≡ some k
      → t k.id && fits k u ≡ true
      → nothing (list_at q m) ≡ false
      → any_id t (fit_units ks m u) ≡ true
  to_fits [] q at fit there = absurd (ground (arith, there))
  to_fits ((p, strs) ∷ m) q {k} at fit there =
      rw (any_id-append t (fit_unit (get_elem? ks p) u) (fit_units ks m u))
        (elim (Bool-cases (q == p)) [
          | inl e ↦
              let here : get_elem? ks p ≡ some k =
                ap (get_elem? ks) (sym ((==_iff q p).0 e)) ∙ at in
              rw (here, any_id-fit_unit t k u, fit) refl
          | inr e ↦
              let rest : nothing (list_at q m) ≡ false = rw e at there in
              rw (to_fits m q at fit rest) (ground arith)
        ])

  pub any_id-fit_units :
      (m : Matches) (us : List UserMark)
      → Pushed m
      → Holds ks m us
      → any_id t (fit_units ks m u) ≡ any (λ k. t k.id && counts us u k) ks
  any_id-fit_units m us pushed holds =
      bool_ext
        (λ e.
          let (q, k, at, fit, there) = from_fits m pushed e in
          let among_k : among (some k) us ≡ true =
            ap (λ (o : Option MarkInfo). among o us) (sym at) ∙ sym (holds q) ∙ ap not there in
          any-intro (λ j. t j.id && counts us u j) ks q at
            (both (stands_among k.key us) (t k.id) (fits k u) among_k fit))
        (λ e.
          let (q, k, at, fit) = any-cases (λ j. t j.id && counts us u j) ks e in
          let (among_k, fit') = apart (stands_among k.key us) (t k.id) (fits k u) fit in
          let there = holds q ∙ ap (λ (o : Option MarkInfo). among o us) at ∙ among_k in
          to_fits m q at fit' (not-true there))
