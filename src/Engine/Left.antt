-- ===== src/Engine/Left.antt =====
-- The candidates among the units left.
use ad_rtb_adapter.Base.{
  ℕ, ◌≡◌, refl, false, none, List, [], ◌∷◌, ltb, ◌==◌, Bool-cases, Option-cases, inl, inr,
}
use ad_rtb_adapter.Engine.Run.{units_left}
use ad_rtb_adapter.Filters.Keys.{ban_asked}
use ad_rtb_adapter.Filters.Kinds.{Kind, flag, asked}
use ad_rtb_adapter.Filters.Parameter.{find_unit, stays, parameter}
use ad_rtb_adapter.Filters.Planning.{PlanningUnit}
use ad_rtb_adapter.Filters.Results.{
  Results, mark, mark_all, mark_keys, erase, erase_all, erase_keys, found,
}
use ad_rtb_adapter.Filters.Run.{
  Filters, none_left, run_filters, kinds, marking, ban_match, filters_match,
}
use ad_rtb_adapter.Filters.Table.{Table, find}
use ad_rtb_adapter.Protocol.Request.{Request}
use ad_rtb_adapter.Rank.Chosen.{first_vip}
use ad_rtb_adapter.Strings.{Text, Libc}

-- No unit is marked for a VIP user.
abbrev pub NoVip : Results → Type 0
NoVip [] = Unit
NoVip (e ∷ r) = (e.vip ≡ false) × NoVip r

mark-NoVip : (flag id : ℕ) (r : Results) → NoVip r → NoVip (mark flag id r)
mark-NoVip flag id [] v = (refl, tt)
mark-NoVip flag id (e ∷ r) v = elim (Bool-cases (ltb id e.id)) [
  | inl t ↦ rw t (refl, v)
  | inr f ↦ elim (Bool-cases (id == e.id)) [
    | inl t ↦ rw (f, t) v
    | inr g ↦ rw (f, g) (v.0, mark-NoVip flag id r v.1)
  ]
]

mark_all-NoVip : (flag : ℕ) (ids : List ℕ) (r : Results) → NoVip r → NoVip (mark_all flag ids r)
mark_all-NoVip flag [] r v = v
mark_all-NoVip flag (id ∷ ids) r v =
    mark_all-NoVip flag ids (mark flag id r) (mark-NoVip flag id r v)

mark_keys-NoVip :
    (flag : ℕ) (qs : List Text) (t : Table) (r : Results) → NoVip r → NoVip (mark_keys flag qs t r)
mark_keys-NoVip flag [] t r v = v
mark_keys-NoVip flag (q ∷ qs) t r v =
    mark_keys-NoVip flag qs t (mark_all flag (found (find q t)) r)
      (mark_all-NoVip flag (found (find q t)) r v)

erase-NoVip : (id : ℕ) (r : Results) → NoVip r → NoVip (erase id r)
erase-NoVip id [] v = tt
erase-NoVip id (e ∷ r) v = elim (Bool-cases (id == e.id)) [
  | inl t ↦ rw t v.1
  | inr f ↦ rw f (v.0, erase-NoVip id r v.1)
]

erase_all-NoVip : (ids : List ℕ) (r : Results) → NoVip r → NoVip (erase_all ids r)
erase_all-NoVip [] r v = v
erase_all-NoVip (id ∷ ids) r v = erase_all-NoVip ids (erase id r) (erase-NoVip id r v)

erase_keys-NoVip : (qs : List Text) (t : Table) (r : Results) → NoVip r → NoVip (erase_keys qs t r)
erase_keys-NoVip [] t r v = v
erase_keys-NoVip (q ∷ qs) t r v =
    erase_keys-NoVip qs t (erase_all (found (find q t)) r) (erase_all-NoVip (found (find q t)) r v)

-- Every filter of a list keeps `NoVip`.
abbrev Keeping : List (Results → Results) → Type 0
Keeping [] = Unit
Keeping (g ∷ gs) = ((r : Results) → NoVip r → NoVip (g r)) × Keeping gs

run_filters-NoVip :
    (gs : List (Results → Results)) (r : Results) → Keeping gs → NoVip r → NoVip (run_filters gs r)
run_filters-NoVip [] r k v = v
run_filters-NoVip (g ∷ gs) r k v = elim (Bool-cases (none_left (g r))) [
  | inl e ↦ rw e (k.0 r v)
  | inr e ↦ rw e (run_filters-NoVip gs (g r) k.1 (k.0 r v))
]

module _ (c : Libc) (us : List PlanningUnit) (f : Filters) (now : Text) (q : Request) where
  parameter-NoVip : (r : Results) → NoVip r → NoVip (parameter c us q r)
  parameter-NoVip [] v = tt
  parameter-NoVip (e ∷ r) v = elim (Bool-cases (stays c us q e.id e.match)) [
    | inl t ↦ rw t (v.0, parameter-NoVip r v.1)
    | inr g ↦ rw g (parameter-NoVip r v.1)
  ]

  marking-Keeping :
      (ks : List Kind) (gs : List (Results → Results))
      → Keeping gs
      → Keeping (marking c f now q ks gs)
  marking-Keeping [] gs k = k
  marking-Keeping (k ∷ ks) gs h =
      (λ r v. mark_keys-NoVip (flag k) (asked c k now q) (f.tables k) r v, marking-Keeping ks gs h)

  -- None of the filters up to the ban filter marks a unit for a VIP user.
  pub filters_match-NoVip : NoVip (filters_match c us f now q [])
  unfolding filters_match
  filters_match-NoVip =
      run_filters-NoVip (marking c f now q kinds (parameter c us q ∷ ban_match c f q ∷ [])) []
        (marking-Keeping kinds (parameter c us q ∷ ban_match c f q ∷ [])
          ((λ r v. parameter-NoVip r v), ((λ r v. erase_keys-NoVip (ban_asked c q) f.ban r v), tt)))
        tt

pub first_vip-units_left :
    (us : List PlanningUnit) (r : Results) → NoVip r → first_vip (units_left us r) ≡ none
first_vip-units_left us [] v = refl
first_vip-units_left us (e ∷ r) v = elim (Option-cases (find_unit e.id us)) [
  | inl n ↦ rw n (first_vip-units_left us r v.1)
  | inr (u, s) ↦ rw (s, v.0) (first_vip-units_left us r v.1)
]
