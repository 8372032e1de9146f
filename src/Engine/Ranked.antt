-- ===== src/Engine/Ranked.antt =====
-- The response that the engine builds from the units left.
use mathlib.Core.Option.{some-injective}
use ad_rtb_adapter.Base.{
  ℕ, ◌<◌, ◌≡◌, refl, sym, ◌∙◌, ap, true, false, some, [], length, arith, Bool-cases, Option-cases,
  inl, inr,
}
use ad_rtb_adapter.Engine.Build.{engine_build, creative_of, number, filled, get_materials}
use ad_rtb_adapter.Engine.Candidates.{find_unit_id, From, candidates-From}
use ad_rtb_adapter.Engine.Left.{NoVip, filters_match-NoVip, first_vip-units_left}
use ad_rtb_adapter.Engine.Run.{units_left, Bidder, engine_filters, built, ranked_bid}
use ad_rtb_adapter.Filters.Looked.{match_of}
use ad_rtb_adapter.Filters.Parameter.{find_unit, find_id}
use ad_rtb_adapter.Filters.Planning.{MaterialInfo, CreativeInfo, PlanningUnit}
use ad_rtb_adapter.Filters.Results.{Results}
use ad_rtb_adapter.Filters.Run.{filters_match, none_left}
use ad_rtb_adapter.Filters.Select.{is_some, bids}
use ad_rtb_adapter.Protocol.Request.{Request}
use ad_rtb_adapter.Protocol.Response.{Response}
use ad_rtb_adapter.Rank.Choice.{UnitPrice, unit_price, video_exchange}
use ad_rtb_adapter.Rank.Chosen.{candidates, rank_choice_lem}
use ad_rtb_adapter.Rank.Groups.{All-at}
use ad_rtb_adapter.Rank.Third.{rank_strategy-Member}
use ad_rtb_adapter.Strings.{Text, c_str, Libc}

abbrev pub Narrows : (Results → Results) → Type 0
Narrows later =
    (r : Results) (i : ℕ) → is_some (match_of i (later r)) ≡ true → is_some (match_of i r) ≡ true

abbrev pub VipFree : (Results → Results) → Type 0
VipFree later = (r : Results) → NoVip r → NoVip (later r)

module _ (c : Libc) (ctr_price : Request → PlanningUnit → ℕ) (later : Results → Results) where
  pub engine_filters-NoVip :
      (b : Bidder) (now : Text) (q : Request)
      → VipFree later
      → NoVip (engine_filters c ctr_price later b now q)
  engine_filters-NoVip b now q free =
      let left = filters_match c b.units b.filters now q [] in
      let v = filters_match-NoVip c b.units b.filters now q in
      elim (Bool-cases (none_left left)) [ inl e ↦ rw e v | inr e ↦ rw e (free left v) ]

  pub engine_filters_left :
      (b : Bidder) (now : Text) (q : Request) (i : ℕ)
      → Narrows later
      → is_some (match_of i (engine_filters c ctr_price later b now q)) ≡ true
      → is_some (match_of i (filters_match c b.units b.filters now q [])) ≡ true
  engine_filters_left b now q i narrow h =
      let left = filters_match c b.units b.filters now q [] in
      elim (Bool-cases (none_left left)) [ inl e ↦ rw e at h | inr e ↦ narrow left i (rw e at h) ]

  built_at :
      (b : Bidder) (q : Request) (p : UnitPrice) (u : PlanningUnit)
      → find_unit p.eid b.units ≡ some u
      → built c ctr_price later b q (some p) ≡ engine_build c b.dev q p u
  built_at b q p u e = rw (built, e) refl

  module _ (share : ℕ → ℕ) (first second : ℕ) (b : Bidder) (q : Request) where
    -- With a candidate, the engine builds the response for one of them.
    pub ranked_bid-From :
        (left : Results)
        → NoVip left
        → 0 < length (candidates c ctr_price q (units_left b.units left))
        → (p : UnitPrice) × (f : From c ctr_price q b.units left p) × (ranked_bid c ctr_price later
              share first second b q left
            ≡ engine_build c b.dev q p f.unit)
    ranked_bid-From left v l =
        let ps = candidates c ctr_price q (units_left b.units left) in
        let (p, e, m) = rank_strategy-Member share first second ps l in
        let f =
          All-at (From c ctr_price q b.units left) ps m.0 p m.1
            (candidates-From c ctr_price q b.units left) in
        let no_vip = first_vip-units_left b.units left v in
        let chosen = rank_choice_lem c ctr_price share first second q (units_left b.units left) in
        let id : p.eid ≡ f.id =
          ap (λ p. p.eid) f.priced ∙ find_unit_id f.id b.units f.unit f.found in
        let at : find_unit p.eid b.units ≡ some f.unit =
          ap (λ i. find_unit i b.units) id ∙ f.found in
        (p, f, rw (chosen, no_vip, e) (built_at b q p f.unit at))

-- What a bid is: a unit that bids, its creative of the size that is asked for, and its price, which is
-- confirmed and above the least price of the request.
pub record Bidding (c : Libc) (ctr_price : Request → PlanningUnit → ℕ) (b : Bidder) (now : Text)
    (q : Request) (res : Response) : Type 0 where
  pub id : ℕ
  pub unit : PlanningUnit
  pub material : MaterialInfo
  pub known : find_unit id b.units ≡ some unit
  pub bidding : bids c now q unit ≡ true
  pub sized : creative_of c q unit ≡ some material
  pub dear :
      video_exchange c ctr_price q ≡ false
      → c.atoi (c_str q.min_price) < (unit_price c ctr_price q unit).price
  pub exec_id : res.exec_id ≡ number c id
  pub max_price : res.max_price ≡ number c (unit_price c ctr_price q unit).price
  pub html : res.html ≡ material.material_url
  pub adx : res.adx ≡ q.adx

module _ (c : Libc) (dev : Text) (q : Request) (p : UnitPrice) (u : PlanningUnit) where
  pub build_some :
      (res : Response)
      → engine_build c dev q p u ≡ some res
      → (i : CreativeInfo) × (m : MaterialInfo) × (creative_of c q u ≡ some m)
        × (res ≡ filled c dev q p u i m)
  build_some res h = elim (Option-cases (find_id q.adx u.creative_info)) [
    | inl e ↦ absurd (ground (arith, h, e))
    | inr (i, e) ↦ elim (Option-cases (get_materials c i q.size)) [
      | inl n ↦ absurd (ground (arith, h, e, n))
      | inr (m, n) ↦ (
        i,
        m,
        rw (creative_of, e) n,
        some-injective res (filled c dev q p u i m) (sym h ∙ rw (e, n) refl),
      )
    ]
  ]

  pub build_ends :
      (m : MaterialInfo)
      → creative_of c q u ≡ some m
      → (res : Response) × (engine_build c dev q p u ≡ some res)
  build_ends m h = elim (Option-cases (find_id q.adx u.creative_info)) [
    | inl e ↦ absurd (ground (arith, h, e))
    | inr (i, e) ↦ (filled c dev q p u i m, rw (e, rw (creative_of, e) at h) refl)
  ]
