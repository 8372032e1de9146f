-- ===== src/Filters/RealTime/Fresh.antt =====
-- The entries over a run of updates and additions, and what `match` makes of them.
use ad_rtb_adapter.Base.{
  ℕ, suc, ◌-◌, ◌<◌, ◌≡◌, refl, ◌∙◌, ap, Bool, true, false, not, ◌&&◌, ◌||◌, Option, none, some,
  List, [], ◌∷◌, length, ltb, leb, ◌==◌, if◌then◌else◌, arith, Bool-cases, inl, inr,
}
use ad_rtb_adapter.Filters.Looked.{Above, match_of}
use ad_rtb_adapter.Filters.Planning.{PlanningUnit}
use ad_rtb_adapter.Filters.RealTime.{
  Info, Infos, Data, RealTime, find_info, put_info, or_fresh, using_time, state_ok,
}
use ad_rtb_adapter.Filters.RealTime.Update.{
  update_info, real_time_update, on_day, added, real_time_add, goes_on, real_time_match,
}
use ad_rtb_adapter.Filters.RealTime.Allowed.{allowed, update_info-allowed}
use ad_rtb_adapter.Filters.RealTime.Entries.{
  find_info-put_info, put_info-Clocked, find_info-Clocked, on_day-Clocked, added_clock,
  update_info-some, update_info_time, Clocked,
}
use ad_rtb_adapter.Filters.Results.{Results}

match_of-real_time_match :
    (i lo now : ℕ) (m : Infos) (r : Results)
    → Above lo r
    → match_of i (real_time_match now m r)
      ≡ (if goes_on now (find_info i m) then match_of i r else none)
match_of-real_time_match i lo now m [] a = ground arith
match_of-real_time_match i lo now m (e ∷ r) a = elim (Bool-cases (i == e.id)) [
  | inl s ↦
      let same : i ≡ e.id = ground arith in
      elim (Bool-cases (goes_on now (find_info e.id m))) [
        | inl g ↦ let self : (e.id == e.id) ≡ true = ground arith in rw (s, same, g, self) refl
        | inr g ↦ rw (s, same, g) (match_of-real_time_match e.id (suc e.id) now m r a.1 ∙ rw g refl)
      ]
  | inr s ↦ elim (Bool-cases (goes_on now (find_info e.id m))) [
    | inl g ↦ rw (g, s) (match_of-real_time_match i (suc e.id) now m r a.1)
    | inr g ↦ rw (s, g) (match_of-real_time_match i (suc e.id) now m r a.1)
  ]
]

goes_on_lem :
    (now later : ℕ) (d : Data) (i j : Info)
    → length i.clock ≡ 24
    → d.hour < 24
    → update_info now d i ≡ some j
    → goes_on later (some j) ≡ allowed i d && leb (later - now) using_time
goes_on_lem now later d i j l h e =
    let time = update_info_time now d i j e in
    let flag : (j.push_flag == state_ok) ≡ allowed i d =
      rw e at (update_info-allowed now d i l h) in
    rw (time, flag) (within (allowed i d) (later - now))
  where
    within :
        (b : Bool) (n : ℕ)
        → (if ltb using_time n || not b then false else true) ≡ b && leb n using_time
    within b n = ground arith

-- An update for an hour of the day succeeds, and until the next one `match` leaves its unit in the
-- results exactly when the unit is allowed to go on and at most 30 seconds have passed.
pub real_time_match-update :
    (now later : ℕ) (d : Data) (t : RealTime) (r : Results)
    → Clocked t.infos
    → d.hour < 24
    → Above 0 r
    → (t' : RealTime) × (real_time_update now d t ≡ some t')
      × (match_of d.execute_id (real_time_match later t'.infos r) ≡ (
          if allowed (or_fresh (find_info d.execute_id t.infos)) d && leb (later - now) using_time
          then match_of d.execute_id r
          else none))
unfolding real_time_update
real_time_match-update now later d t r c h a =
    let id = d.execute_id in
    let i = or_fresh (find_info id t.infos) in
    let l = find_info-Clocked id t.infos c in
    let (j, e, k) = update_info-some now d i l h in
    let m = put_info id j t.infos in
    let self : (id == id) ≡ true = ground arith in
    let at : find_info id m ≡ some j = rw self at (find_info-put_info id id j t.infos) in
    let went = goes_on_lem now later d i j l h e in
    (
      record t { infos = m },
      rw e refl,
      match_of-real_time_match id 0 later m r a ∙ rw (at, went) refl,
    )

-- What happens to the filter: a unit of an update of the plans, or a message about what was spent.
pub data Event : Type 0 where
  plan : ℕ → PlanningUnit → Event
  spent : ℕ → Data → Event

abbrev pub event : Event → RealTime → Option RealTime
event (plan week u) t = some (real_time_add week u t)
event (spent now d) t = real_time_update now d t

abbrev pub events : List Event → RealTime → Option RealTime
events [] t = some t
events (e ∷ es) t = elim (event e t) [ none ↦ none | some t' ↦ events es t' ]

-- The hours of the messages are hours of a day.
abbrev pub Hourly : List Event → Type 0
Hourly [] = Unit
Hourly (plan week u ∷ es) = Hourly es
Hourly (spent now d ∷ es) = (d.hour < 24) × Hourly es

add-Clocked :
    (week : ℕ) (u : PlanningUnit) (t : RealTime)
    → Clocked t.infos
    → Clocked (real_time_add week u t).infos
unfolding real_time_add
add-Clocked week u t c =
    let s = (on_day week t).infos in
    let d = on_day-Clocked week t c in
    let i = or_fresh (find_info u.execute_id s) in
    put_info-Clocked u.execute_id (added week u i) s
      (ap length (added_clock week u i) ∙ find_info-Clocked u.execute_id s d) d

update-Clocked :
    (now : ℕ) (d : Data) (t : RealTime)
    → Clocked t.infos
    → d.hour < 24
    → (t' : RealTime) × (real_time_update now d t ≡ some t') × Clocked t'.infos
unfolding real_time_update
update-Clocked now d t c h =
    let id = d.execute_id in
    let (j, e, k) =
      update_info-some now d (or_fresh (find_info id t.infos)) (find_info-Clocked id t.infos c) h in
    (record t { infos = put_info id j t.infos }, rw e refl, put_info-Clocked id j t.infos k c)

-- Every run of plans and messages whose hours are hours of a day keeps to the 24 clocks of each entry,
-- so that no write is out of bounds.
pub events-Clocked :
    (es : List Event) (t : RealTime)
    → Hourly es
    → Clocked t.infos
    → (t' : RealTime) × (events es t ≡ some t') × Clocked t'.infos
events-Clocked [] t h c = (t, refl, c)
events-Clocked (plan week u ∷ es) t h c =
    events-Clocked es (real_time_add week u t) h (add-Clocked week u t c)
events-Clocked (spent now d ∷ es) t h c =
    let (s, e, k) = update-Clocked now d t c h.0 in
    let (t', f, l) = events-Clocked es s h.1 k in (t', rw (events, e, f) refl, l)
