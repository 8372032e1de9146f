-- ===== src/Engine/Run.antt =====
-- `AdRtbEngineRun`: the filters, the ranking, and the response.
use ad_rtb_adapter.Base.{ℕ, Bool, ◌||◌, Option, none, some, List, [], ◌∷◌, if◌then◌else◌}
use ad_rtb_adapter.Engine.Build.{engine_build}
use ad_rtb_adapter.Filters.Parameter.{find_unit}
use ad_rtb_adapter.Filters.Planning.{PlanningUnit}
use ad_rtb_adapter.Filters.Results.{Results}
use ad_rtb_adapter.Filters.Run.{Filters, filters_match, none_left}
use ad_rtb_adapter.Protocol.Head.{Protocol}
use ad_rtb_adapter.Protocol.Packet.{Packet}
use ad_rtb_adapter.Protocol.Request.Codec.{decode_request}
use ad_rtb_adapter.Protocol.Request.{Request}
use ad_rtb_adapter.Protocol.Response
use ad_rtb_adapter.Protocol.Response.Codec.{encode_response}
use ad_rtb_adapter.Protocol.Response.{Response}
use ad_rtb_adapter.Protocol.Wire.{Bytes, Run, ok, failure, fault}
use ad_rtb_adapter.Protocol.Zlib.{Zlib}
use ad_rtb_adapter.Rank.Choice.{UnitPrice, rank_choice}
use ad_rtb_adapter.Strings.{Text, Libc}

-- The units that the results point to, each with its `m_bVip`.
abbrev pub with_vip :
    Option PlanningUnit → Bool → List (PlanningUnit × Bool) → List (PlanningUnit × Bool)
with_vip none b rest = rest
with_vip (some u) b rest = (u, b) ∷ rest

abbrev pub units_left : List PlanningUnit → Results → List (PlanningUnit × Bool)
units_left us [] = []
units_left us (e ∷ r) = with_vip (find_unit e.id us) e.vip (units_left us r)

-- What the engine works with: the planning data, the cache of the filters, and the configured DEV.
pub record Bidder : Type 0 where
  pub units : List PlanningUnit
  pub filters : Filters
  pub dev : Text

-- The end of a run on a packet: a request that cannot be read is dropped without an answer.
pub data Ran : Type 0 where
  dropped : Ran
  answered : Run Protocol (Protocol × Packet) → Ran

abbrev pub or_clear : Option Response → Response
or_clear none = Response.clear
or_clear (some r) = r

-- `later` stands for the filters behind the ban filter, `share`, `first` and `second` are those of the
-- ranking.
module _ (c : Libc) (ctr_price : Request → PlanningUnit → ℕ) (later : Results → Results) where
  abbrev pub engine_filters : Bidder → Text → Request → Results
  engine_filters b now q =
      let left = filters_match c b.units b.filters now q [] in
      if none_left left then left else later left

  abbrev pub built : Bidder → Request → Option UnitPrice → Option Response
  built b q none = none
  built b q (some p) = elim (find_unit p.eid b.units) [
    | none ↦ none
    | some u ↦ engine_build c b.dev q p u
  ]

  module _ (share : ℕ → ℕ) (first second : ℕ) where
    abbrev pub ranked_bid : Bidder → Request → Results → Option Response
    ranked_bid b q left =
        built b q (rank_choice c ctr_price share first second q (units_left b.units left))

    -- From `FiltersMatch` to `AdRtbEngineBuild`; `none` is the jump to ERROR.
    unfoldable pub engine_bid : Bidder → Text → Request → Option Response
    engine_bid b now q =
        let left = engine_filters b now q in if none_left left then none else ranked_bid b q left

    -- `AdRtbEngineRun(AdRtbRequest &, …)`; `late` is what `checkLife` says.
    abbrev pub engine_run_internal : Bidder → Text → Bool → Request → Option Response
    engine_run_internal b now late q =
        let left = engine_filters b now q in
        if none_left left || late then none else ranked_bid b q left

    abbrev pub answer_to :
        Zlib → Bidder → Text → ℕ → ℕ → Run (Protocol × Request) (Protocol × Request) → Ran
    answer_to z b now task max (failure s) = dropped
    answer_to z b now task max fault = dropped
    answer_to z b now task max (ok (p, q)) =
        answered
          (encode_response z p (or_clear (engine_bid b now (record q { request_id = task }))) max)

    -- `AdRtbEngineRun(char *, …)`
    unfoldable pub engine_run : Zlib → Protocol → Bidder → Text → ℕ → Bytes → ℕ → ℕ → Ran
    engine_run z p b now task packet len max =
        answer_to z b now task max (decode_request z p packet len)
