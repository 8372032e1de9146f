-- ===== src/Filters/RealTime.antt =====
-- `AdFilterRealTime`: the money that each unit has spent, and the units that must stop.
pub mod Update
pub mod Allowed
pub mod Entries
pub mod Fresh
pub mod Stopped
mod Tests
use ad_rtb_adapter.Base.Int.{ℤ, pos, ltb_ℤ, ◌≤ℤ◌, ◌-ℤ◌, int_bits}
use ad_rtb_adapter.Base.{
  ℕ, zero, suc, ◌+◌, ◌-◌, ◌/◌, ◌%◌, ◌^◌, bit_and, Bool, true, false, not, ◌&&◌, ◌||◌, Option, none,
  some, List, [], ◌∷◌, replicate, set, get_or, ltb, leb, ◌==◌, if◌then◌else◌,
}
use ad_rtb_adapter.Filters.Planning.{Day, PlanningUnit}
use ad_rtb_adapter.Filters.Results.{Results}

-- The AD_REALTIME_STATE values and AD_REALTIME_USING_TIME
abbrev pub state_ok : ℕ
state_ok = 0x14

abbrev pub state_over : ℕ
state_over = 0x15

abbrev pub state_control : ℕ
state_control = 0x16

abbrev pub state_share : ℕ
state_share = 0x17

abbrev pub state_no_range : ℕ
state_no_range = 0x18

abbrev pub state_no_remain : ℕ
state_no_remain = 0x19

abbrev pub using_time : ℕ
using_time = 30

-- An element of `m_stClock`: the budget of an hour, and what it has spent.
pub record Clock : Type 0 where
  pub budget : ℕ
  pub number : ℕ

pub record Info : Type 0 where
  pub push_flag : ℕ
  pub execute_id : ℕ
  pub adv : ℕ
  pub time : ℕ
  pub hour_share : Bool
  pub advs_type : ℕ
  pub advs_time : ℕ
  pub have_show : ℕ
  pub have_click : ℕ
  pub will_spend : ℕ
  pub have_spend : ℤ
  pub adv_today : ℤ
  pub adv_remain : ℤ
  pub clock : List Clock

abbrev no_clock : Clock
no_clock = record { budget = 0; number = 0 }

abbrev pub fresh : Info
fresh = record {
  push_flag = 0;
  execute_id = 0;
  adv = 0;
  time = 0;
  hour_share = false;
  advs_type = 0;
  advs_time = 0;
  have_show = 0;
  have_click = 0;
  will_spend = 0;
  have_spend = pos 0;
  adv_today = pos 0;
  adv_remain = pos 0;
  clock = replicate 24 no_clock;
}

-- `ADRTDATA_S`
pub record Data : Type 0 where
  pub execute_id : ℕ
  pub hour : ℕ
  pub show : ℕ
  pub click : ℕ
  pub adv_today : ℤ
  pub adv_remain : ℤ
  pub have_spend : ℤ
  pub hour_spend : ℤ

-- `m_mInfo`; `operator[]` makes a fresh entry for a new id.
abbrev pub Infos : Type 0
Infos = List (ℕ × Info)

abbrev pub find_info : ℕ → Infos → Option Info
find_info id [] = none
find_info id ((k, i) ∷ m) = let rest = find_info id m in if id == k then some i else rest

abbrev pub put_info : ℕ → Info → Infos → Infos
put_info id i [] = (id, i) ∷ []
put_info id i ((k, j) ∷ m) =
    let rest = put_info id i m in if id == k then (k, i) ∷ m else (k, j) ∷ rest

abbrev pub or_fresh : Option Info → Info
or_fresh none = fresh
or_fresh (some i) = i

pub record RealTime : Type 0 where
  pub infos : Infos
  pub last_day : ℕ

-- The hours `hour` to `hour + n - 1` in which the unit may be shown.
abbrev pub hours_left : ℕ → ℕ → ℕ → ℕ
hours_left advs_time zero hour = 0
hours_left advs_time (suc n) hour =
    let rest = hours_left advs_time n (hour + 1) in
    if bit_and advs_time (2 ^ hour) == 0 then rest else rest + 1

-- An `unsigned long` that keeps a `long long`
abbrev pub ulong_bits : ℤ → ℕ
ulong_bits (pos n) = n % 2 ^ 64
ulong_bits (ℤ.negsuc n) = 2 ^ 64 - 1 - n % 2 ^ 64

-- `uiNumber`: what was spent before this hour
abbrev pub spent_before : Data → ℕ
spent_before d = int_bits (d.have_spend -ℤ d.hour_spend)

abbrev pub share_of : ℕ → ℕ → ℕ
share_of rest hours = if hours == 1 then rest else rest / hours

-- `m_uiTotal` of the hour, when the unit may be shown in it; the old one stays when nothing is left.
abbrev pub hour_budget : Info → Data → ℕ → ℕ
hour_budget i d old =
    let hours = hours_left i.advs_time (24 - d.hour) d.hour in
    if ltb (spent_before d) i.will_spend
    then (if hours == 0 then old else share_of (i.will_spend - spent_before d) hours)
    else old

abbrev pub at_hour : ℕ → List Clock → Clock
at_hour h clock = get_or clock h no_clock
