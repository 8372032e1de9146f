-- ===== src/Filters/RealTime/Stopped.antt =====
-- A unit that was added without `bPush`.
use mathlib.Core.Option.{some-injective}
use ad_rtb_adapter.Base.{
  ℕ, ◌-◌, ◌||◌, ltb, subst, ◌≡◌, refl, sym, ◌∙◌, ap, Bool, true, false, Option, none, some, List,
  [], ◌∷◌, ◌==◌, if◌then◌else◌, arith, Bool-cases, Option-cases, inl, inr,
}
use ad_rtb_adapter.Filters.Planning.{PlanningUnit}
use ad_rtb_adapter.Filters.RealTime.{
  Info, Infos, Data, RealTime, find_info, put_info, or_fresh, state_no_range, using_time,
}
use ad_rtb_adapter.Filters.RealTime.Update.{
  update_info, real_time_update, on_day, added, real_time_add, goes_on,
}
use ad_rtb_adapter.Filters.RealTime.Entries.{Clocked, find_info-put_info}
use ad_rtb_adapter.Filters.RealTime.Fresh.{Hourly, events-Clocked, Event, plan, spent, events}

-- The unit's flag says that it is out of its range of days.
abbrev pub Stopped : ℕ → Infos → Type 0
Stopped id m = (i : Info) × (find_info id m ≡ some i) × (i.push_flag ≡ state_no_range)

-- The plans are those of one day of the week.
abbrev pub OfDay : ℕ → List Event → Type 0
OfDay week [] = Unit
OfDay week (plan w u ∷ es) = (w ≡ week) × OfDay week es
OfDay week (spent now d ∷ es) = OfDay week es

added_stopped :
    (week : ℕ) (u : PlanningUnit) (i : Info)
    → i.push_flag ≡ state_no_range
    → (added week u i).push_flag ≡ state_no_range
added_stopped week u i h = ground (arith, h)

updated_stopped :
    (now : ℕ) (d : Data) (i j : Info)
    → i.push_flag ≡ state_no_range
    → update_info now d i ≡ some j
    → j.push_flag ≡ state_no_range
unfolding update_info
updated_stopped now d i j h e = ground (arith, h, e)

put_info-Stopped :
    (id k : ℕ) (i : Info) (m : Infos)
    → ((j : Info) → find_info id m ≡ some j → k ≡ id → i.push_flag ≡ state_no_range)
    → Stopped id m
    → Stopped id (put_info k i m)
put_info-Stopped id k i m h (j, e, f) = elim (Bool-cases (id == k)) [
  | inl s ↦
      let same : k ≡ id = ground arith in (i, find_info-put_info id k i m ∙ rw s refl, h j e same)
  | inr s ↦ (j, find_info-put_info id k i m ∙ rw s e, f)
]

same_day : (week : ℕ) (t : RealTime) → week ≡ t.last_day → on_day week t ≡ t
same_day week t h = let same : (week == t.last_day) ≡ true = ground (arith, h) in rw same refl

or_fresh_found : (o : Option Info) (j : Info) → o ≡ some j → or_fresh o ≡ j
or_fresh_found none j h = absurd (ground (arith, h))
or_fresh_found (some i) j h = some-injective i j h

flag_at :
    (id : ℕ) (m : Infos) (j : Info)
    → find_info id m ≡ some j
    → Stopped id m
    → j.push_flag ≡ state_no_range
flag_at id m j e (i, f, g) = ap (λ i. i.push_flag) (some-injective j i (sym e ∙ f)) ∙ g

add-Stopped :
    (id week : ℕ) (u : PlanningUnit) (t : RealTime)
    → week ≡ t.last_day
    → Stopped id t.infos
    → Stopped id (real_time_add week u t).infos × ((real_time_add week u t).last_day ≡ t.last_day)
unfolding real_time_add
add-Stopped id week u t h s =
    let o = find_info u.execute_id t.infos in
    rw (same_day week t h) (
      put_info-Stopped id u.execute_id (added week u (or_fresh o)) t.infos
          (λ j e k.
            let at : o ≡ some j = ap (λ n. find_info n t.infos) k ∙ e in
            let flag : j.push_flag ≡ state_no_range = flag_at id t.infos j e s in
            added_stopped week u (or_fresh o)
              (ap (λ i. i.push_flag) (or_fresh_found o j at) ∙ flag))
          s,
      refl,
    )

update-Stopped :
    (id now : ℕ) (d : Data) (t t' : RealTime)
    → real_time_update now d t ≡ some t'
    → Stopped id t.infos
    → Stopped id t'.infos × (t'.last_day ≡ t.last_day)
unfolding real_time_update
update-Stopped id now d t t' h s =
    let k = d.execute_id in
    let o = find_info k t.infos in
    elim (Option-cases (update_info now d (or_fresh o))) [
      | inl e ↦ absurd (ground (arith, h, e))
      | inr (j, e) ↦
          let is : record t { infos = put_info k j t.infos } ≡ t' =
            some-injective (record t { infos = put_info k j t.infos }) t' (rw e at h) in
          rw (← is) (
            put_info-Stopped id k j t.infos
                (λ i f same.
                  let at : o ≡ some i = ap (λ n. find_info n t.infos) same ∙ f in
                  let flag = flag_at id t.infos i f s in
                  updated_stopped now d (or_fresh o) j
                    (ap (λ i. i.push_flag) (or_fresh_found o i at) ∙ flag) e)
                s,
            refl,
          )
    ]

events-Stopped :
    (es : List Event) (id : ℕ) (t t' : RealTime)
    → events es t ≡ some t'
    → OfDay t.last_day es
    → Stopped id t.infos
    → Stopped id t'.infos
events-Stopped [] id t t' h o s = subst (λ x. Stopped id x.infos) (some-injective t t' h) s
events-Stopped (plan week u ∷ es) id t t' h o s =
    let next = add-Stopped id week u t o.0 s in
    events-Stopped es id (real_time_add week u t) t' h (subst (λ w. OfDay w es) (sym next.1) o.1)
      next.0
events-Stopped (spent now d ∷ es) id t t' h o s = elim (Option-cases (real_time_update now d t)) [
  | inl e ↦ absurd (ground (arith, h, e))
  | inr (t1, e) ↦
      let next = update-Stopped id now d t t1 e s in
      events-Stopped es id t1 t' (rw (events, e) at h) (subst (λ w. OfDay w es) (sym next.1) o)
        next.0
]

-- Once a unit is out of its range of days, it is dropped by `match` for the rest of the day, whatever
-- plans of that day are added, with `bPush` or without, and whatever messages come for hours of the
-- day.
pub events-goes_on :
    (es : List Event) (id now : ℕ) (t : RealTime)
    → Hourly es
    → OfDay t.last_day es
    → Clocked t.infos
    → Stopped id t.infos
    → (t' : RealTime) × (events es t ≡ some t') × (goes_on now (find_info id t'.infos) ≡ false)
events-goes_on es id now t h o c s =
    let (t', e, k) = events-Clocked es t h c in
    let (i, f, g) = events-Stopped es id t t' e o s in
    (t', e, rw (f, g) (dropped (ltb using_time (now - i.time))))
  where
    dropped : (b : Bool) → (if b || true then false else true) ≡ false
    dropped b = ground arith
