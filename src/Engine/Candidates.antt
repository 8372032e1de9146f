-- ===== src/Engine/Candidates.antt =====
-- The candidates for a bid are units that are left.
use mathlib.Core.Option.{some-injective}
use ad_rtb_adapter.Base.{
  ℕ, ◌<◌, ◌≡◌, refl, sym, ◌∙◌, ap, true, some, List, [], ◌∷◌, length, ◌==◌, arith, Bool-cases,
  Option-cases, inl, inr,
}
use ad_rtb_adapter.Engine.Run.{units_left}
use ad_rtb_adapter.Filters.Looked.{match_of}
use ad_rtb_adapter.Filters.Parameter.{find_unit}
use ad_rtb_adapter.Filters.Planning.{PlanningUnit}
use ad_rtb_adapter.Filters.Results.{Entry, Results}
use ad_rtb_adapter.Filters.Select.{is_some}
use ad_rtb_adapter.Protocol.Request.{Request}
use ad_rtb_adapter.Rank.Choice.{UnitPrice, confirmed, unit_price}
use ad_rtb_adapter.Rank.Chosen.{candidates}
use ad_rtb_adapter.Rank.Groups.{All}
use ad_rtb_adapter.Strings.{Libc}

pub find_unit_id :
    (i : ℕ) (us : List PlanningUnit) (u : PlanningUnit) → find_unit i us ≡ some u → u.execute_id ≡ i
find_unit_id i [] u h = absurd (ground (arith, h))
find_unit_id i (v ∷ us) u h = elim (Bool-cases (i == v.execute_id)) [
  | inl e ↦
      let same : v ≡ u = some-injective v u (rw e at h) in
      let id : i ≡ v.execute_id = ground arith in sym (id ∙ ap (λ w. w.execute_id) same)
  | inr e ↦ find_unit_id i us u (rw e at h)
]

module _ (c : Libc) (ctr_price : Request → PlanningUnit → ℕ) (q : Request)
    (us : List PlanningUnit) where
  -- The candidate is a unit that is left.
  pub record From (r : Results) (p : UnitPrice) : Type 0 where
    pub id : ℕ
    pub unit : PlanningUnit
    pub left : is_some (match_of id r) ≡ true
    pub found : find_unit id us ≡ some unit
    pub priced : p ≡ unit_price c ctr_price q unit
    pub good : confirmed c ctr_price q p ≡ true

  From-cons : (e : Entry) (r : Results) (p : UnitPrice) → From r p → From (e ∷ r) p
  From-cons e r p f = record {
    id = f.id;
    unit = f.unit;
    left = ground (arith, f.left);
    found = f.found;
    priced = f.priced;
    good = f.good;
  }

  All-From :
      (e : Entry) (r : Results) (ps : List UnitPrice) → All (From r) ps → All (From (e ∷ r)) ps
  All-From e r [] a = tt
  All-From e r (p ∷ ps) a = (From-cons e r p a.0, All-From e r ps a.1)

  pub candidates-From : (r : Results) → All (From r) (candidates c ctr_price q (units_left us r))
  candidates-From [] = tt
  candidates-From (e ∷ r) =
      let rest = All-From e r (candidates c ctr_price q (units_left us r)) (candidates-From r) in
      elim (Option-cases (find_unit e.id us)) [
        | inl n ↦ rw n rest
        | inr (u, s) ↦ elim (Bool-cases (confirmed c ctr_price q (unit_price c ctr_price q u))) [
          | inl g ↦
              rw (s, g)
                (
                  record {
                    id = e.id;
                    unit = u;
                    left = ground arith;
                    found = s;
                    priced = refl;
                    good = g;
                  },
                  rest,
                )
          | inr g ↦ rw (s, g) rest
        ]
      ]

  -- A unit that is left with a price that is confirmed is a candidate.
  pub some_candidate :
      (r : Results) (i : ℕ) (u : PlanningUnit)
      → is_some (match_of i r) ≡ true
      → find_unit i us ≡ some u
      → confirmed c ctr_price q (unit_price c ctr_price q u) ≡ true
      → 0 < length (candidates c ctr_price q (units_left us r))
  some_candidate [] i u h s g = absurd (ground (arith, h))
  some_candidate (e ∷ r) i u h s g = elim (Bool-cases (i == e.id)) [
    | inl t ↦
        let same : i ≡ e.id = ground arith in
        let at : find_unit e.id us ≡ some u = ap (λ k. find_unit k us) (sym same) ∙ s in
        rw (at, g) (omega arith)
    | inr t ↦ longer e (some_candidate r i u (rw t at h) s g)
  ]
    where
      longer :
          (e : Entry)
          → 0 < length (candidates c ctr_price q (units_left us r))
          → 0 < length (candidates c ctr_price q (units_left us (e ∷ r)))
      longer e l = elim (Option-cases (find_unit e.id us)) [
        | inl n ↦ rw n l
        | inr (v, n) ↦ elim (Bool-cases (confirmed c ctr_price q (unit_price c ctr_price q v))) [
          | inl k ↦ rw (n, k) (omega arith)
          | inr k ↦ rw (n, k) l
        ]
      ]
