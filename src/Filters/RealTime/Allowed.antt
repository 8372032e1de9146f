-- ===== src/Filters/RealTime/Allowed.antt =====
-- When an update lets a unit go on.
use ad_rtb_adapter.Base.Int.{pos, ltb_ℤ, int_bits, ◌-ℤ◌}
use ad_rtb_adapter.Base.{
  ℕ, zero, suc, ◌+◌, ◌-◌, ◌/◌, ◌^◌, ◌<◌, ◌≡◌, refl, ap, bit_and, Bool, false, not, ◌&&◌, ◌||◌,
  Option, none, some, List, [], ◌∷◌, set, length, ltb, ◌==◌, if◌then◌else◌, arith, Bool-cases, inl,
  inr, ◌∙◌,
}
use ad_rtb_adapter.Filters.RealTime.{
  Clock, Info, Data, state_ok, state_no_range, hours_left, hour_budget, at_hour, ulong_bits,
  share_of, spent_before,
}
use ad_rtb_adapter.Filters.RealTime.Update.{noted, update_info}

-- The unit has money for the day.
abbrev pub in_budget : Info → Data → Bool
in_budget i d = (i.will_spend == 0) || ltb_ℤ d.have_spend (pos i.will_spend)

-- How many of the first `n` hours of the day are hours of the plan.
abbrev pub planned_before : ℕ → ℕ → ℕ
planned_before plan zero = 0
planned_before plan (suc n) =
    let rest = planned_before plan n in if bit_and plan (2 ^ n) == 0 then rest else rest + 1

-- The money for the hour: what was not spent before the hour, in equal parts for the planned hours from
-- it to the end of the day. When nothing was left, it is what it was.
abbrev pub hour_money : Info → Data → ℕ
hour_money i d =
    let before = int_bits (d.have_spend -ℤ d.hour_spend) in
    let hours = planned_before i.advs_time 24 - planned_before i.advs_time d.hour in
    if ltb before i.will_spend
    then (i.will_spend - before) / hours
    else (at_hour d.hour i.clock).budget

-- When its money is shared among the hours, it has money for this one.
abbrev pub in_share : Info → Data → Bool
in_share i d =
    (i.will_spend == 0) || (not i.hour_share || ltb (ulong_bits d.hour_spend) (hour_money i d))

-- What lets a unit go on: it is in its range of days, has money for the day, its advertiser has money
-- left, the hour is one of its plan, and it has money for the hour.
abbrev pub allowed : Info → Data → Bool
allowed i d =
    (((not (i.push_flag == state_no_range) && in_budget i d) && ltb_ℤ (pos 0) d.adv_remain)
      && not (bit_and i.advs_time (2 ^ d.hour) == 0))
    && in_share i d

abbrev pub flag_is : ℕ → Option Info → Bool
flag_is w none = false
flag_is w (some i) = i.push_flag == w

at_hour-set :
    (h : ℕ) (clock : List Clock) (c : Clock) → h < length clock → at_hour h (set clock h c) ≡ c
at_hour-set h [] c b = absurd (omega (arith, b))
at_hour-set zero (x ∷ clock) c b = refl
at_hour-set (suc h) (x ∷ clock) c b = at_hour-set h clock c (omega arith)

pub length-set_clock :
    (h : ℕ) (clock : List Clock) (c : Clock) → length (set clock h c) ≡ length clock
length-set_clock h [] c = refl
length-set_clock zero (x ∷ clock) c = refl
length-set_clock (suc h) (x ∷ clock) c = ap suc (length-set_clock h clock c)

hours_left-planned_before :
    (plan n hour : ℕ)
    → hours_left plan n hour + planned_before plan hour ≡ planned_before plan (n + hour)
hours_left-planned_before plan zero hour =
    let same : hour ≡ 0 + hour = omega arith in omega (arith, ap (planned_before plan) same)
hours_left-planned_before plan (suc n) hour =
    let next : hour + 1 ≡ suc hour = omega arith in
    let last : suc n + hour ≡ n + suc hour = omega arith in
    let rest = hours_left-planned_before plan n (suc hour) in
    rw (next, last)
      (elim (Bool-cases (bit_and plan (2 ^ hour) == 0)) [
        | inl h ↦ rw h (rw h at rest)
        | inr h ↦ rw h (omega (arith, rw h at rest))
      ])

hours_left-filled :
    (plan n hour : ℕ) → 0 < n → (bit_and plan (2 ^ hour) == 0) ≡ false → 0 < hours_left plan n hour
hours_left-filled plan zero hour l b = absurd (omega (arith, l))
hours_left-filled plan (suc n) hour l b = rw b (omega arith)

share_of-div : (rest hours : ℕ) → share_of rest hours ≡ rest / hours
share_of-div rest hours = elim (Bool-cases (hours == 1)) [
  | inl h ↦ let one : hours ≡ 1 = ground (arith, h) in rw (h, one) (omega arith)
  | inr h ↦ rw h refl
]

equal_parts :
    (will before m n old : ℕ)
    → 0 < m
    → m ≡ n
    → (if ltb before will then (if m == 0 then old else share_of (will - before) m) else old)
      ≡ (if ltb before will then (will - before) / n else old)
equal_parts will before m n old l e =
    let some_hours : (m == 0) ≡ false = ground (arith, l) in
    rw some_hours (
      ap (λ (x : ℕ). if ltb before will then x else old)
        (share_of-div (will - before) m ∙ ap (λ (k : ℕ). (will - before) / k) e))

hour_budget-hour_money :
    (i : Info) (d : Data)
    → d.hour < 24
    → (bit_and i.advs_time (2 ^ d.hour) == 0) ≡ false
    → hour_budget i d (at_hour d.hour i.clock).budget ≡ hour_money i d
hour_budget-hour_money i d h b =
    let plan = i.advs_time in
    let hours = hours_left plan (24 - d.hour) d.hour in
    let whole : 24 - d.hour + d.hour ≡ 24 = omega (arith, h) in
    let all : hours ≡ planned_before plan 24 - planned_before plan d.hour = omega (
      arith,
      hours_left-planned_before plan (24 - d.hour) d.hour ∙ ap (planned_before plan) whole,
    ) in
    let some_hours = hours_left-filled plan (24 - d.hour) d.hour (omega (arith, h)) b in
    equal_parts i.will_spend (spent_before d) hours
      (planned_before plan 24 - planned_before plan d.hour) (at_hour d.hour i.clock).budget
      some_hours all

-- What is allowed, by the tests of the update.
budgeted : Info → Data → Bool
budgeted i d =
    (((not (i.push_flag == state_no_range) && in_budget i d) && ltb_ℤ (pos 0) d.adv_remain)
      && not (bit_and i.advs_time (2 ^ d.hour) == 0))
    && ((i.will_spend == 0)
        || (not i.hour_share
            || ltb (ulong_bits d.hour_spend) (hour_budget i d (at_hour d.hour i.clock).budget)))

budgeted_lem : (i : Info) (d : Data) → d.hour < 24 → budgeted i d ≡ allowed i d
unfolding budgeted
budgeted_lem i d h = elim (Bool-cases (bit_and i.advs_time (2 ^ d.hour) == 0)) [
  | inl b ↦ rw b (ground arith)
  | inr b ↦ rw (b, hour_budget-hour_money i d h b) refl
]

-- An update of an entry leaves the unit going exactly when it is allowed.
pub update_info-allowed :
    (now : ℕ) (d : Data) (i : Info)
    → length i.clock ≡ 24
    → d.hour < 24
    → flag_is state_ok (update_info now d i) ≡ allowed i d
unfolding update_info budgeted
update_info-allowed now d i l h =
    let n = noted now d i in
    let c = record (at_hour d.hour i.clock) { number = ulong_bits d.hour_spend } in
    let first = at_hour-set d.hour i.clock c (omega (arith, l, h)) in
    let b = hour_budget i d (at_hour d.hour i.clock).budget in
    let again =
      at_hour-set d.hour (set i.clock d.hour c) (record c { budget = b })
        (omega (arith, l, h, length-set_clock d.hour i.clock c)) in
    let tests : flag_is state_ok (update_info now d i) ≡ budgeted i d =
      rw (first, again) (ground arith) in
    tests ∙ budgeted_lem i d h
