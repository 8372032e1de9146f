-- ===== src/Filters/Run.antt =====
-- `AdRtbFilters`: what an update files, and the filters one after another.
use ad_rtb_adapter.Base.{Bool, true, false, List, [], ◌∷◌, if◌then◌else◌}
use ad_rtb_adapter.Filters.Keys.{ban_keys, ban_asked}
use ad_rtb_adapter.Filters.Kinds.{
  Kind, time, adexchange, pid, area, size, agent, operator, device, connect, flag, keys, asked,
}
use ad_rtb_adapter.Filters.Parameter.{parameter}
use ad_rtb_adapter.Filters.Planning.{PlanningUnit}
use ad_rtb_adapter.Filters.Results.{Results, mark_keys, erase_keys}
use ad_rtb_adapter.Filters.Table.{Table, update_all}
use ad_rtb_adapter.Protocol.Request.{Request}
use ad_rtb_adapter.Strings.{Text, Libc}

-- A cache of filters: the table of each filter that marks, and that of the ban filter.
pub record Filters : Type 0 where
  pub tables : Kind → Table
  pub ban : Table

abbrev pub cleared : Filters
cleared = record { tables = λ k. []; ban = [] }

-- The filters that mark, in the order of their numbers.
abbrev pub kinds : List Kind
kinds = time ∷ adexchange ∷ pid ∷ area ∷ size ∷ agent ∷ operator ∷ device ∷ connect ∷ []

abbrev pub none_left : Results → Bool
none_left [] = true
none_left (e ∷ r) = false

-- The loop of `FiltersMatch`, which breaks when nothing is left.
abbrev pub run_filters : List (Results → Results) → Results → Results
run_filters [] r = r
run_filters (f ∷ fs) r = let rest = run_filters fs (f r) in if none_left (f r) then f r else rest

module _ (c : Libc) where
  -- The calls of `AddData` for a unit.
  abbrev pub add_data : PlanningUnit → Filters → Filters
  add_data u f = record {
    tables = λ k. update_all (keys c k u) u.execute_id (f.tables k);
    ban = update_all (ban_keys c u) u.execute_id f.ban;
  }

  abbrev pub add_all : List PlanningUnit → Filters → Filters
  add_all [] f = f
  add_all (u ∷ us) f = add_all us (add_data u f)

  -- `FiltersUpdate`, for the filters that hold planning data.
  unfoldable pub filters_update : List PlanningUnit → Filters
  filters_update us = add_all us cleared

  abbrev pub mark_kind : Filters → Text → Request → Kind → Results → Results
  mark_kind f now q k r = mark_keys (flag k) (asked c k now q) (f.tables k) r

  abbrev pub ban_match : Filters → Request → Results → Results
  ban_match f q r = erase_keys (ban_asked c q) f.ban r

  abbrev pub marking :
      Filters → Text → Request → List Kind → List (Results → Results) → List (Results → Results)
  marking f now q [] later = later
  marking f now q (k ∷ ks) later = mark_kind f now q k ∷ marking f now q ks later

  -- `FiltersMatch`, up to the ban filter.
  unfoldable pub filters_match : List PlanningUnit → Filters → Text → Request → Results → Results
  filters_match us f now q r =
      run_filters (marking f now q kinds (parameter c us q ∷ ban_match f q ∷ [])) r
