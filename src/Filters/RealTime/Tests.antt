-- ===== src/Filters/RealTime/Tests.antt =====
-- Runs of the real-time filter.
use ad_rtb_adapter.Base.Int.{pos, ◌-ℤ◌}
use ad_rtb_adapter.Base.{
  ◌+◌, ◌-◌, ◌^◌, ◌≡◌, refl, true, false, ◌&&◌, none, some, List, [], ◌∷◌, leb, if◌then◌else◌, arith,
}
use ad_rtb_adapter.Filters.Looked.{match_of}
use ad_rtb_adapter.Filters.Planning.{PlanningUnit, cleared_unit}
use ad_rtb_adapter.Filters.RealTime.{
  Info, state_no_range, RealTime, Data, find_info, or_fresh, state_ok, fresh, using_time,
}
use ad_rtb_adapter.Filters.RealTime.Update.{
  update_info, real_time_update, real_time_add, real_time_match, goes_on,
}
use ad_rtb_adapter.Filters.RealTime.Allowed.{allowed, flag_is}
use ad_rtb_adapter.Filters.RealTime.Fresh.{real_time_match-update, Event, plan, spent, events}
use ad_rtb_adapter.Filters.RealTime.Stopped.{events-goes_on}
use ad_rtb_adapter.Filters.Results.{Results}

-- 1000 a day, on Tuesdays from 9 to 11 o'clock, shared among the hours
abbrev planned_unit : PlanningUnit
planned_unit = record cleared_unit {
  execute_id = 7;
  push = true;
  day = record { week = 2; budget = 1000; hour = 2 ^ 9 + 2 ^ 10 } ∷ [];
  bid_mode = 1;
}

-- 400 at 9 o'clock
abbrev some_spent : Data
some_spent = record {
  execute_id = 7;
  hour = 9;
  show = 5;
  click = 1;
  adv_today = pos 400;
  adv_remain = pos 5000;
  have_spend = pos 400;
  hour_spend = pos 400;
}

abbrev tuesday : RealTime
tuesday = record { infos = []; last_day = 2 }

-- The half of the day's budget is for the hour, so that 400 is within it and 600 is not.
goes_on_at_400 :
    flag_is state_ok (
      update_info 100 some_spent
        (or_fresh (find_info 7 (real_time_add 2 planned_unit tuesday).infos)))
    ≡ true
unfolding update_info real_time_add ◌-ℤ◌
goes_on_at_400 = refl

abbrev more_spent : Data
more_spent = record some_spent { have_spend = pos 600; hour_spend = pos 600 }

stops_at_600 :
    flag_is state_ok (
      update_info 100 more_spent
        (or_fresh (find_info 7 (real_time_add 2 planned_unit tuesday).infos)))
    ≡ false
unfolding update_info real_time_add ◌-ℤ◌
stops_at_600 = refl

abbrev entry : Info
entry = record fresh { will_spend = 1000; advs_time = 2 ^ 9 + 2 ^ 10; hour_share = true }

abbrev one_left : Results
one_left = record { id = 7; match = 0xfc00; vip = false } ∷ []

abbrev with_entry : RealTime
with_entry = record tuesday { infos = (7, entry) ∷ [] }

real_time_match-update_example :
    (t' : RealTime) × (real_time_update 100 some_spent with_entry ≡ some t')
    × (match_of 7 (real_time_match 120 t'.infos one_left) ≡ (
        if allowed (or_fresh (find_info 7 with_entry.infos)) some_spent
          && leb (120 - 100) using_time
        then match_of 7 one_left
        else none))
real_time_match-update_example =
    real_time_match-update 100 120 some_spent with_entry one_left (refl, tt) (omega arith)
      (omega arith, tt)

abbrev a_day : List Event
a_day = plan 2 planned_unit ∷ spent 100 some_spent ∷ spent 200 more_spent ∷ []

abbrev with_stopped : RealTime
with_stopped = record tuesday { infos = (7, record entry { push_flag = state_no_range }) ∷ [] }

events-goes_on_example :
    (t' : RealTime) × (events a_day with_stopped ≡ some t')
    × (goes_on 210 (find_info 7 t'.infos) ≡ false)
events-goes_on_example =
    events-goes_on a_day 7 210 with_stopped (omega arith, (omega arith, tt)) (refl, tt) (refl, tt)
      (record entry { push_flag = state_no_range }, refl, refl)
