-- ===== src/Filters/Tanx/Tests.antt =====
-- Runs of the filter of TanX.
use ad_rtb_adapter.Base.{
  ◌-◌, ◌≡◌, refl, true, false, ◌&&◌, Option, none, some, List, [], ◌∷◌, map, ◌==◌, replicate,
  if◌then◌else◌, arith,
}
use ad_rtb_adapter.Filters.Filed.{overlap}
use ad_rtb_adapter.Filters.Looked.{match_of}
use ad_rtb_adapter.Filters.Parameter.{find_unit}
use ad_rtb_adapter.Filters.Planning.{CreativeInfo, PlanningUnit, cleared_material, cleared_unit}
use ad_rtb_adapter.Filters.Results.{Results}
use ad_rtb_adapter.Filters.Tanx.{
  Value, adx_tanx, line_max, lines_of, tanx_init, tanx_keys, tanx_add_all, tanx_match,
}
use ad_rtb_adapter.Filters.Tanx.Excluded.{categories}
use ad_rtb_adapter.Filters.Tanx.Left.{place_keys, match_of-tanx_match}
use ad_rtb_adapter.Filters.Units.{on_unit}
use ad_rtb_adapter.Protocol.Request
use ad_rtb_adapter.Strings.{Text}
use ad_rtb_adapter.Strings.Sample.{sample_libc}

abbrev no_members : Value
no_members = record {
  filter_id = none;
  excluded_ad_category = none;
  excluded_click_through_url = none;
  excluded_filter = none;
  excluded_brand_advertiser_id = none;
  included_adboard_level = none;
  include_area = none;
  include_interval = none;
  include_pid = none;
}

-- The line "c" excludes the category 5 under the filter id "x", and the line "d" names the place "p".
abbrev parse_line : Text → Option Value
parse_line (k ∷ []) =
    if k == b'c'
    then some
        (record no_members { filter_id = some (b'x' ∷ []); excluded_ad_category = some (5 ∷ []) })
    else if k == b'd'
    then some
        (record no_members { filter_id = some (b'x' ∷ []); include_pid = some ((b'p' ∷ []) ∷ []) })
    else none
parse_line _ = none

abbrev contents : List Text
contents = (b'c' ∷ []) ∷ []

abbrev places : List Text
places = (b'd' ∷ []) ∷ []

-- A unit with a material of the category 5, and one with a material of no category.
abbrev in_category : Text → CreativeInfo
in_category cat = record {
  creative_group_id = b'4' ∷ [];
  adx_id = b'1' ∷ [];
  materials = record cleared_material { category = cat } ∷ [];
}

abbrev units : List PlanningUnit
units =
    record cleared_unit {
      execute_id = 3;
      push = true;
      creative_info = (1, in_category (b'5' ∷ [])) ∷ [];
    }
    ∷ record cleared_unit { execute_id = 8; push = true; creative_info = (1, in_category []) ∷ [] }
    ∷ []

abbrev request : Request.Request
request = record Request.clear { adx = adx_tanx; p_id = b'p' ∷ [] }

abbrev both : Results
both = record { id = 3; match = 1; vip = false } ∷ record { id = 8; match = 1; vip = false } ∷ []

three_dropped :
    tanx_match sample_libc
      (tanx_add_all sample_libc units
        (tanx_init sample_libc parse_line
          (some contents)
          (some places)
          (record { pid_des = []; table = [] })).0)
      request
      both
    ≡ record { id = 8; match = 1; vip = false } ∷ []
unfolding tanx_match tanx_init
three_dropped = refl

match_of-tanx_match_example :
    match_of 3 (
      tanx_match sample_libc
        (tanx_add_all sample_libc units
          (tanx_init sample_libc parse_line
            (some contents)
            (some places)
            (record { pid_des = []; table = [] })).0)
        request
        both)
    ≡ (if (request.adx == adx_tanx)
          && on_unit
              (λ u.
                overlap
                  (place_keys sample_libc adx_tanx
                    (λ id. categories sample_libc id (map parse_line (lines_of false contents)))
                    (b'p' ∷ [])
                    (map parse_line (lines_of false places)))
                  (tanx_keys sample_libc u))
              (find_unit 3 units)
        then none
        else match_of 3 both)
match_of-tanx_match_example =
    match_of-tanx_match sample_libc parse_line contents places units request both 3 0
      (omega arith, (omega arith, tt)) (omega arith, (omega arith, tt))

-- A line that is too long is left out with its tail, and "^D" ends the reading.
lines_run :
    lines_of false (
      replicate (line_max - 1) b'a'
      ∷ (b't' ∷ [])
      ∷ (b'c' ∷ [])
      ∷ (b'^' ∷ b'D' ∷ [])
      ∷ (b'd' ∷ [])
      ∷ [])
    ≡ (b'c' ∷ []) ∷ []
lines_run = refl
