-- ===== src/Rank/Chosen.antt =====
-- What `AdRtbRankChoice` answers for the units left.

use ad_rtb_adapter.Base.{
  ℕ, ◌<◌, ◌≡◌, ◌↔◌, refl, sym, ◌∙◌, ap, inl, inr, Bool, true, false, Option, none, some, List, [],
  ◌∷◌, length, if◌then◌else◌, arith, Bool-cases, Option-cases,
}
use ad_rtb_adapter.Filters.Planning.{PlanningUnit}
use ad_rtb_adapter.Protocol.Request.{Request}
use ad_rtb_adapter.Rank.Choice.{
  UnitPrice, Collected, vip, ranked, also, unit_price, vip_unit, video_exchange, confirmed, collect,
  deal, rank_strategy, rank_choice,
}
use ad_rtb_adapter.Rank.Groups.{All, All-at}
use ad_rtb_adapter.Rank.Third.{rank_strategy-Member}
use ad_rtb_adapter.Strings.{c_str, Libc}

-- The first unit of a VIP user.
abbrev pub first_vip : List (PlanningUnit × Bool) → Option PlanningUnit
first_vip [] = none
first_vip ((u, b) ∷ r) = let rest = first_vip r in if b then some u else rest

module _ (c : Libc) (ctr_price : Request → PlanningUnit → ℕ) where
  -- The units with a price that is confirmed.
  abbrev pub candidates : Request → List (PlanningUnit × Bool) → List UnitPrice
  candidates q [] = []
  candidates q ((u, b) ∷ r) =
      let rest = candidates q r in
      if confirmed c ctr_price q (unit_price c ctr_price q u)
      then unit_price c ctr_price q u ∷ rest
      else rest

  abbrev summary : Option PlanningUnit → List UnitPrice → Collected
  summary none ps = ranked ps
  summary (some u) ps = vip (vip_unit c ctr_price u)

  collect_lem :
      (q : Request) (r : List (PlanningUnit × Bool))
      → collect c ctr_price q r ≡ summary (first_vip r) (candidates q r)
  collect_lem q [] = refl
  collect_lem q ((u, true) ∷ r) = refl
  collect_lem q ((u, false) ∷ r) =
      elim (Bool-cases (confirmed c ctr_price q (unit_price c ctr_price q u))) [
        | inl e ↦ rw (e, collect_lem q r) (also_summary (unit_price c ctr_price q u) (first_vip r))
        | inr e ↦ rw (e, collect_lem q r) refl
      ]
    where
      also_summary :
          (p : UnitPrice) (o : Option PlanningUnit)
          → also p (summary o (candidates q r)) ≡ summary o (p ∷ candidates q r)
      also_summary p none = refl
      also_summary p (some u) = refl

  Dear : Request → UnitPrice → Type 0
  Dear q p = video_exchange c ctr_price q ≡ false → c.atoi (c_str q.min_price) < p.price

  candidates-Dear : (q : Request) (r : List (PlanningUnit × Bool)) → All (Dear q) (candidates q r)
  unfolding Dear
  candidates-Dear q [] = tt
  candidates-Dear q ((u, b) ∷ r) =
      elim (Bool-cases (confirmed c ctr_price q (unit_price c ctr_price q u))) [
        | inl e ↦ rw e ((λ v. dear q (unit_price c ctr_price q u) e v), candidates-Dear q r)
        | inr e ↦ rw e (candidates-Dear q r)
      ]
    where
      dear :
          (q : Request) (p : UnitPrice)
          → confirmed c ctr_price q p ≡ true
          → video_exchange c ctr_price q ≡ false
          → c.atoi (c_str q.min_price) < p.price
      dear q p e v = ground (arith, e, v)

  module _ (share : ℕ → ℕ) (first second : ℕ) where
    abbrev pub answer : Option PlanningUnit → List UnitPrice → Option UnitPrice
    answer none ps = rank_strategy share first second ps
    answer (some u) ps = some (vip_unit c ctr_price u)

    -- The first unit of a VIP user is chosen, at the fixed price; without one, the strategy chooses
    -- among the candidates.
    pub rank_choice_lem :
        (q : Request) (r : List (PlanningUnit × Bool))
        → rank_choice c ctr_price share first second q r ≡ answer (first_vip r) (candidates q r)
    unfolding rank_choice
    rank_choice_lem q r =
        ap (deal c ctr_price share first second) (collect_lem q r) ∙ as_answer (first_vip r)
      where
        as_answer :
            (o : Option PlanningUnit)
            → deal c ctr_price share first second (summary o (candidates q r))
              ≡ answer o (candidates q r)
        as_answer none = refl
        as_answer (some u) = refl

    -- Without a VIP user, a unit is chosen as soon as there is a candidate, and its price is above the
    -- least price of the request, save for the videos of the two exchanges that set no price.
    pub rank_choice_min_price :
        (q : Request) (r : List (PlanningUnit × Bool))
        → first_vip r ≡ none
        → 0 < length (candidates q r)
        → video_exchange c ctr_price q ≡ false
        → (p : UnitPrice) × (rank_choice c ctr_price share first second q r ≡ some p)
          × (c.atoi (c_str q.min_price) < p.price)
    unfolding Dear
    rank_choice_min_price q r no_vip some_left priced =
        let (p, chosen, m) = rank_strategy-Member share first second (candidates q r) some_left in
        (
          p,
          rank_choice_lem q r ∙ rw no_vip chosen,
          All-at (Dear q) (candidates q r) m.0 p m.1 (candidates-Dear q r) priced,
        )

    -- AD_FAILURE is the answer exactly when there is neither a VIP user's unit nor a candidate.
    pub rank_choice-none :
        (q : Request) (r : List (PlanningUnit × Bool))
        → (rank_choice c ctr_price share first second q r ≡ none)
          ↔ (first_vip r ≡ none) × (candidates q r ≡ [])
    unfolding rank_strategy
    rank_choice-none q r = (
      (λ h. elim (Option-cases (first_vip r)) [
        | inl e ↦ (e, no_candidates (candidates q r) (rw e at (sym (rank_choice_lem q r) ∙ h)))
        | inr (u, e) ↦ absurd (ground (arith, e, rank_choice_lem q r, h))
      ]),
      (λ h. rank_choice_lem q r ∙ rw (h.0, h.1) (no_answer)),
    )
      where
        no_answer : rank_strategy share first second [] ≡ none
        no_answer = refl

        no_candidates : (ps : List UnitPrice) → rank_strategy share first second ps ≡ none → ps ≡ []
        no_candidates [] h = refl
        no_candidates (p ∷ ps) h =
            let (r, chosen, m) = rank_strategy-Member share first second (p ∷ ps) (omega arith) in
            absurd (ground (arith, h, chosen))
