-- ===== src/Filters/RealTime/Update.antt =====
-- The operations of `AdFilterRealTime`.
use ad_rtb_adapter.Base.Int.{pos, ltb_ℤ}
use ad_rtb_adapter.Base.{
  ℕ, ◌-◌, ◌^◌, bit_and, Bool, true, false, not, ◌&&◌, ◌||◌, Option, none, some, List, [], ◌∷◌, set,
  ltb, leb, ◌==◌, if◌then◌else◌,
}
use ad_rtb_adapter.Filters.Planning.{Day, PlanningUnit}
use ad_rtb_adapter.Filters.Results.{Results}
use ad_rtb_adapter.Filters.RealTime.{
  state_ok, state_over, state_control, state_share, state_no_range, state_no_remain, using_time,
  Info, Data, Infos, find_info, put_info, or_fresh, RealTime, ulong_bits, hour_budget, at_hour,
}

-- The fields that an update copies, before the tests.
abbrev pub noted : ℕ → Data → Info → Info
noted now d i = record i {
  time = now;
  have_show = d.show;
  have_click = d.click;
  have_spend = d.have_spend;
  adv_today = d.adv_today;
  adv_remain = d.adv_remain;
  clock = set i.clock d.hour (record (at_hour d.hour i.clock) { number = ulong_bits d.hour_spend });
}

abbrev pub with_budget : ℕ → ℕ → Info → Info
with_budget hour b i = record i {
  clock = set i.clock hour (record (at_hour hour i.clock) { budget = b });
}

abbrev pub flagged : ℕ → Info → Info
flagged flag i = record i { push_flag = flag }

-- The last test: the budget of the hour.
abbrev pub shared : ℕ → Info → Info
shared hour i =
    let clock = at_hour hour i.clock in
    if (ltb 0 i.will_spend && i.hour_share) && leb clock.budget clock.number
    then flagged state_share i
    else flagged state_ok i

-- `AdFilterRealTimeUpdate` on the entry of its unit. An hour behind the clocks is a write out of
-- bounds, where the model stops.
unfoldable pub update_info : ℕ → Data → Info → Option Info
update_info now d i =
    let n = noted now d i in
    if leb 24 d.hour
    then none
    else if i.push_flag == state_no_range
    then some n
    else if ltb 0 i.will_spend && not (ltb_ℤ d.have_spend (pos i.will_spend))
    then some (flagged state_over n)
    else if not (ltb_ℤ (pos 0) d.adv_remain)
    then some (flagged state_no_remain n)
    else if bit_and i.advs_time (2 ^ d.hour) == 0
    then some (flagged state_control (with_budget d.hour 0 n))
    else some
        (shared d.hour (with_budget d.hour (hour_budget i d (at_hour d.hour n.clock).budget) n))

abbrev pub put_updated : ℕ → RealTime → Option Info → Option RealTime
put_updated id t none = none
put_updated id t (some i) = some (record t { infos = put_info id i t.infos })

-- `AdFilterRealTimeUpdate`
unfoldable pub real_time_update : ℕ → Data → RealTime → Option RealTime
real_time_update now d t =
    put_updated d.execute_id t (update_info now d (or_fresh (find_info d.execute_id t.infos)))

-- `AdFilterClear`, when the day of the week has changed
abbrev pub on_day : ℕ → RealTime → RealTime
on_day week t = if week == t.last_day then t else record { infos = []; last_day = week }

-- The day of the plan for `week`
abbrev pub plan_of : ℕ → List Day → Option Day
plan_of week [] = none
plan_of week (d ∷ ds) = let rest = plan_of week ds in if week == d.week then some d else rest

abbrev pub planned : Option Day → Info → Info
planned none i = i
planned (some d) i = record i { will_spend = d.budget; advs_time = d.hour }

abbrev pub described : PlanningUnit → Info → Info
described u i = record i {
  execute_id = u.execute_id;
  adv = u.advertiser;
  advs_type = u.target_price_type;
}

-- The entry after `AddData`
abbrev pub added : ℕ → PlanningUnit → Info → Info
added week u i =
    let j = planned (plan_of week u.day) (described u i) in
    let k = record j { hour_share = not (u.bid_mode == 0) } in
    if u.push then k else flagged state_no_range k

-- `AddData`
unfoldable pub real_time_add : ℕ → PlanningUnit → RealTime → RealTime
real_time_add week u t =
    let s = on_day week t in
    record s {
      infos =
          put_info u.execute_id (added week u (or_fresh (find_info u.execute_id s.infos))) s.infos;
    }

-- Whether `match` leaves a unit.
abbrev pub goes_on : ℕ → Option Info → Bool
goes_on now none = true
goes_on now (some i) =
    if ltb using_time (now - i.time) || not (i.push_flag == state_ok) then false else true

-- `match`
abbrev pub real_time_match : ℕ → Infos → Results → Results
real_time_match now m [] = []
real_time_match now m (e ∷ r) =
    let rest = real_time_match now m r in if goes_on now (find_info e.id m) then e ∷ rest else rest
