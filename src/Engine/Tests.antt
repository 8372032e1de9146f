-- ===== src/Engine/Tests.antt =====
-- A run of the engine, with the real-time filter behind the ban filter.
use mathlib.Core.Option.{some-injective}
use ad_rtb_adapter.Base.{
  ℕ, ◌≡◌, refl, ap, subst, true, some, List, [], ◌∷◌, ◌==◌, arith, Bool-cases, inl, inr,
}
use ad_rtb_adapter.Engine.Build.{creative_of, get_materials, filled}
use ad_rtb_adapter.Engine.Bid.{engine_bid-Bidding, engine_bid_ends}
use ad_rtb_adapter.Engine.Ranked.{Narrows, VipFree, Bidding}
use ad_rtb_adapter.Engine.Run.{Bidder, or_clear, engine_bid}
use ad_rtb_adapter.Filters.Keys.{
  time_keys, adexchange_keys, adexchange_asked, pid_keys, pid_asked, area_keys, area_asked,
  size_keys, size_asked, agent_keys, agent_asked, ban_keys, ban_asked,
}
use ad_rtb_adapter.Filters.Parameter.{mask, unit_fits, find_unit}
use ad_rtb_adapter.Filters.Planning.{MaterialInfo, PlanningUnit}
use ad_rtb_adapter.Filters.RealTime.{Infos, find_info}
use ad_rtb_adapter.Filters.RealTime.Update.{goes_on, real_time_match}
use ad_rtb_adapter.Filters.Results.{Results}
use ad_rtb_adapter.Filters.Run.{filters_update, filters_match}
use ad_rtb_adapter.Filters.Sample.{unit_7, tuesday_nine, a_request}
use ad_rtb_adapter.Filters.Select.{bids}
use ad_rtb_adapter.Protocol.Request.{Request}
use ad_rtb_adapter.Protocol.Response.{Response}
use ad_rtb_adapter.Rank.Choice.{rank_strategy, rank_choice}
use ad_rtb_adapter.Strings.Sample.{sample_libc}
use ad_rtb_adapter.Strings.Split.{str_split}

module _ (now : ℕ) (m : Infos) where
  real_time_match-Narrows : Narrows (real_time_match now m)
  real_time_match-Narrows [] i h = h
  real_time_match-Narrows (e ∷ r) i h = elim (Bool-cases (i == e.id)) [
    | inl s ↦ rw s refl
    | inr s ↦ elim (Bool-cases (goes_on now (find_info e.id m))) [
      | inl g ↦ rw s (real_time_match-Narrows r i (rw (g, s) at h))
      | inr g ↦ rw s (real_time_match-Narrows r i (rw g at h))
    ]
  ]

  real_time_match-VipFree : VipFree (real_time_match now m)
  real_time_match-VipFree [] v = tt
  real_time_match-VipFree (e ∷ r) v = elim (Bool-cases (goes_on now (find_info e.id m))) [
    | inl g ↦ rw g (v.0, real_time_match-VipFree r v.1)
    | inr g ↦ rw g (real_time_match-VipFree r v.1)
  ]

-- Without messages no unit is dropped.
nothing_known : (now : ℕ) (r : Results) → real_time_match now [] r ≡ r
nothing_known now [] = refl
nothing_known now (e ∷ r) = ap (◌∷◌ e) (nothing_known now r)

abbrev later : Results → Results
later = real_time_match 100 []

abbrev one_unit : List PlanningUnit
one_unit = unit_7 ∷ []

abbrev bidder : Bidder
bidder = record { units = one_unit; filters = filters_update sample_libc one_unit; dev = b'1' ∷ [] }

abbrev no_ctr : Request → PlanningUnit → ℕ
no_ctr q u = 0

abbrev no_share : ℕ → ℕ
no_share i = 0

unit_7-bids : bids sample_libc tuesday_nine a_request unit_7 ≡ true
unfolding time_keys adexchange_keys adexchange_asked pid_keys pid_asked area_keys area_asked
    size_keys size_asked agent_keys agent_asked ban_keys ban_asked unit_fits str_split
unit_7-bids = refl

unit_7_sized : (m : MaterialInfo) × (creative_of sample_libc a_request unit_7 ≡ some m)
unfolding get_materials str_split
unit_7_sized = (_, refl)

sized :
    (j : ℕ) (v : PlanningUnit)
    → find_unit j one_unit ≡ some v
    → bids sample_libc tuesday_nine a_request v ≡ true
    → (m : MaterialInfo) × (creative_of sample_libc a_request v ≡ some m)
sized j v h k = elim (Bool-cases (j == 7)) [
  | inl e ↦
      subst (λ u. (m : MaterialInfo) × (creative_of sample_libc a_request u ≡ some m))
        (some-injective unit_7 v (rw e at h)) unit_7_sized
  | inr e ↦ absurd (ground (arith, h, e))
]

engine_bid_ends_example :
    (res : Response) × (engine_bid sample_libc no_ctr later no_share 0 0 bidder tuesday_nine
        a_request
      ≡ some res)
engine_bid_ends_example =
    engine_bid_ends sample_libc no_ctr later no_share 0 0 bidder tuesday_nine a_request 0 7 unit_7
      refl (omega arith, tt) (real_time_match-Narrows 100 []) (real_time_match-VipFree 100 [])
      (λ r h. rw (nothing_known 100 r) h) refl unit_7-bids refl sized

abbrev response : Response
response = or_clear (engine_bid sample_libc no_ctr later no_share 0 0 bidder tuesday_nine a_request)

bid_made :
    engine_bid sample_libc no_ctr later no_share 0 0 bidder tuesday_nine a_request ≡ some response
unfolding engine_bid filters_match filters_update rank_choice rank_strategy filled get_materials
    time_keys adexchange_keys adexchange_asked pid_keys pid_asked area_keys area_asked size_keys
    size_asked agent_keys agent_asked ban_keys ban_asked mask unit_fits str_split
bid_made = refl

engine_bid-Bidding_example : Bidding sample_libc no_ctr bidder tuesday_nine a_request response
engine_bid-Bidding_example =
    engine_bid-Bidding sample_libc no_ctr later no_share 0 0 bidder tuesday_nine a_request 0
      response refl (omega arith, tt) (real_time_match-Narrows 100 [])
      (real_time_match-VipFree 100 []) bid_made
