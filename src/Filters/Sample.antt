-- ===== src/Filters/Sample.antt =====
-- Two units and a request, for the tests.
use ad_rtb_adapter.Base.{◌^◌, true, List, [], ◌∷◌}
use ad_rtb_adapter.Filters.Planning.{CreativeInfo, PlanningUnit, cleared_material, cleared_unit}
use ad_rtb_adapter.Protocol.Request
use ad_rtb_adapter.Strings.{Text}

-- A unit for Tuesdays from 9 to 10 o'clock, the places of exchange 3, and every area.
abbrev pub unit_7 : PlanningUnit
unit_7 = record cleared_unit {
  execute_id = 7;
  push = true;
  day = record { week = 2; budget = 0; hour = 2 ^ 9 } ∷ [];
  pid_info = record { adx_id = 3; mode = 1; pid_list = [] } ∷ [];
  area = everywhere ∷ [];
  creative_info = (3, banner) ∷ [];
  target_price_type = 1;
  target_price = 100;
}
  where
    everywhere : Text
    everywhere =
        b'0' ∷ b'0' ∷ b'8' ∷ b'6' ∷ b'-' ∷ b'f' ∷ b'f' ∷ b'f' ∷ b'f' ∷ b'-' ∷ b'f' ∷ b'f' ∷ b'f'
        ∷ b'f' ∷ []

    banner : CreativeInfo
    banner = record {
      creative_group_id = b'4' ∷ [];
      adx_id = b'3' ∷ [];
      materials =
          record cleared_material { format = 1; creative_type = 2; width = 30; height = 20 } ∷ [];
    }

-- A unit like it that a place bans.
abbrev pub unit_9 : PlanningUnit
unit_9 = record unit_7 { execute_id = 9; ban_content = (b'p' ∷ []) ∷ [] }

abbrev pub two_units : List PlanningUnit
two_units = unit_7 ∷ unit_9 ∷ []

abbrev pub tuesday_nine : Text
tuesday_nine = b'2' ∷ b'0' ∷ b'9' ∷ []

abbrev pub a_request : Request.Request
a_request = record Request.clear {
  adx = 3;
  flow = b'0' ∷ [];
  size = b'3' ∷ b'0' ∷ b'x' ∷ b'2' ∷ b'0' ∷ [];
  p_id = b'p' ∷ [];
}
