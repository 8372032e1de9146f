-- ===== src/Filters/Units.antt =====
-- What the tables have of a unit after an update.
use ad_rtb_adapter.Base.{
  ℕ, suc, ◌≤◌, ◌<◌, ◌≡◌, refl, ◌∙◌, ap, Bool, false, ◌&&◌, ◌||◌, Option, none, some, List, [], ◌∷◌,
  ◌==◌, arith, Bool-cases, inl, inr,
}
use ad_rtb_adapter.Filters.Filed.{hits, overlap, hits-update_all}
use ad_rtb_adapter.Filters.Keys.{ban_keys}
use ad_rtb_adapter.Filters.Kinds.{Kind, keys}
use ad_rtb_adapter.Filters.Parameter.{find_unit}
use ad_rtb_adapter.Filters.Planning.{PlanningUnit}
use ad_rtb_adapter.Filters.Run.{Filters, cleared, add_data, add_all, filters_update}
use ad_rtb_adapter.Strings.{Text, Libc}

-- The execute ids go up, from `lo` on: the order of `map<UINT, AdPlanningUnit *>`.
abbrev pub Ascending : ℕ → List PlanningUnit → Type 0
Ascending lo [] = Unit
Ascending lo (u ∷ us) = (lo ≤ u.execute_id) × Ascending (suc u.execute_id) us

abbrev pub on_unit : (PlanningUnit → Bool) → Option PlanningUnit → Bool
on_unit p none = false
on_unit p (some u) = p u

unfoldable pub any_unit : (PlanningUnit → Bool) → ℕ → List PlanningUnit → Bool
any_unit p i [] = false
any_unit p i (u ∷ us) = (p u && (i == u.execute_id)) || any_unit p i us

any_unit-below :
    (p : PlanningUnit → Bool) (i lo : ℕ) (us : List PlanningUnit)
    → Ascending lo us
    → i < lo
    → any_unit p i us ≡ false
unfolding any_unit
any_unit-below p i lo [] a h = refl
any_unit-below p i lo (u ∷ us) a h =
    let apart : (i == u.execute_id) ≡ false = ground (arith, a.0) in
    rw (apart, any_unit-below p i (suc u.execute_id) us a.1 (omega (arith, a.0))) (ground arith)

pub any_unit-find_unit :
    (p : PlanningUnit → Bool) (i lo : ℕ) (us : List PlanningUnit)
    → Ascending lo us
    → any_unit p i us ≡ on_unit p (find_unit i us)
unfolding any_unit
any_unit-find_unit p i lo [] a = refl
any_unit-find_unit p i lo (u ∷ us) a = elim (Bool-cases (i == u.execute_id)) [
  | inl e ↦ rw (e, any_unit-below p i (suc u.execute_id) us a.1 (ground (arith, e))) (ground arith)
  | inr e ↦ rw (e, any_unit-find_unit p i (suc u.execute_id) us a.1) (ground arith)
]

pub or_turn : (a b x y : Bool) → a || ((b && x) || y) ≡ ((b && x) || a) || y
or_turn a b x y = ground arith

module _ (c : Libc) where
  hits-add_all :
      (i : ℕ) (k : Kind) (qs : List Text) (us : List PlanningUnit) (f : Filters)
      → hits i qs ((add_all c us f).tables k)
        ≡ any_unit (λ u. overlap qs (keys c k u)) i us || hits i qs (f.tables k)
  unfolding any_unit
  hits-add_all i k qs [] f = refl
  hits-add_all i k qs (u ∷ us) f =
      hits-add_all i k qs us (add_data c u f)
      ∙ ap (λ b. any_unit (λ u. overlap qs (keys c k u)) i us || b)
          (hits-update_all i qs (keys c k u) u.execute_id (f.tables k))
      ∙ or_turn (any_unit (λ u. overlap qs (keys c k u)) i us) (overlap qs (keys c k u))
          (i == u.execute_id) (hits i qs (f.tables k))

  bans-add_all :
      (i : ℕ) (qs : List Text) (us : List PlanningUnit) (f : Filters)
      → hits i qs (add_all c us f).ban
        ≡ any_unit (λ u. overlap qs (ban_keys c u)) i us || hits i qs f.ban
  unfolding any_unit
  bans-add_all i qs [] f = refl
  bans-add_all i qs (u ∷ us) f =
      bans-add_all i qs us (add_data c u f)
      ∙ ap (λ b. any_unit (λ u. overlap qs (ban_keys c u)) i us || b)
          (hits-update_all i qs (ban_keys c u) u.execute_id f.ban)
      ∙ or_turn (any_unit (λ u. overlap qs (ban_keys c u)) i us) (overlap qs (ban_keys c u))
          (i == u.execute_id) (hits i qs f.ban)

  pub hits_nothing : (i : ℕ) (qs : List Text) → hits i qs [] ≡ false
  hits_nothing i [] = refl
  hits_nothing i (q ∷ qs) = hits_nothing i qs

  or_nothing : (a b : Bool) → b ≡ false → a || b ≡ a
  or_nothing a b h = ground (arith, h)

  -- After `FiltersUpdate` with units whose execute ids go up, a filter finds the unit `i` under the keys
  -- `qs` exactly when there is a unit with that id and one of its keys is among them.
  pub hits-filters_update :
      (i lo : ℕ) (k : Kind) (qs : List Text) (us : List PlanningUnit)
      → Ascending lo us
      → hits i qs ((filters_update c us).tables k)
        ≡ on_unit (λ u. overlap qs (keys c k u)) (find_unit i us)
  unfolding filters_update
  hits-filters_update i lo k qs us a =
      hits-add_all i k qs us cleared
      ∙ or_nothing (any_unit (λ u. overlap qs (keys c k u)) i us) (hits i qs []) (hits_nothing i qs)
      ∙ any_unit-find_unit (λ u. overlap qs (keys c k u)) i lo us a

  pub bans-filters_update :
      (i lo : ℕ) (qs : List Text) (us : List PlanningUnit)
      → Ascending lo us
      → hits i qs (filters_update c us).ban
        ≡ on_unit (λ u. overlap qs (ban_keys c u)) (find_unit i us)
  unfolding filters_update
  bans-filters_update i lo qs us a =
      bans-add_all i qs us cleared
      ∙ or_nothing (any_unit (λ u. overlap qs (ban_keys c u)) i us) (hits i qs [])
          (hits_nothing i qs)
      ∙ any_unit-find_unit (λ u. overlap qs (ban_keys c u)) i lo us a
