-- ===== src/Filters/RealTime/Entries.antt =====
-- The entries of `m_mInfo`: lookups, and their clocks.
use ad_rtb_adapter.Base.{
  ℕ, ◌<◌, ◌≡◌, refl, ◌∙◌, false, Option, none, some, [], ◌∷◌, length, leb, ◌==◌, if◌then◌else◌,
  arith, Bool-cases, Option-cases, inl, inr,
}
use ad_rtb_adapter.Filters.Planning.{PlanningUnit}
use ad_rtb_adapter.Filters.RealTime.{
  Info, Infos, Data, RealTime, find_info, put_info, or_fresh, at_hour, hour_budget, ulong_bits,
}
use ad_rtb_adapter.Filters.RealTime.Update.{update_info, on_day, added, noted}
use ad_rtb_adapter.Filters.RealTime.Allowed.{length-set_clock}

pub find_info-put_info :
    (j id : ℕ) (i : Info) (m : Infos)
    → find_info j (put_info id i m) ≡ (if j == id then some i else find_info j m)
find_info-put_info j id i [] = refl
find_info-put_info j id i ((k, x) ∷ m) = elim (Bool-cases (id == k)) [
  | inl t ↦
      let same : id ≡ k = ground arith in
      elim (Bool-cases (j == k)) [ inl s ↦ rw (t, same, s) refl | inr s ↦ rw (t, same, s) refl ]
  | inr f ↦ elim (Bool-cases (j == k)) [
    | inl s ↦ let apart : (j == id) ≡ false = ground arith in rw (f, s, apart) refl
    | inr s ↦ rw (f, s) (find_info-put_info j id i m)
  ]
]

-- Every entry has a clock for each of the 24 hours.
abbrev pub Clocked : Infos → Type 0
Clocked [] = Unit
Clocked ((k, i) ∷ m) = (length i.clock ≡ 24) × Clocked m

pub put_info-Clocked :
    (id : ℕ) (i : Info) (m : Infos) → length i.clock ≡ 24 → Clocked m → Clocked (put_info id i m)
put_info-Clocked id i [] h c = (h, tt)
put_info-Clocked id i ((k, x) ∷ m) h c = elim (Bool-cases (id == k)) [
  | inl t ↦ rw t (h, c.1)
  | inr f ↦ rw f (c.0, put_info-Clocked id i m h c.1)
]

pub find_info-Clocked :
    (id : ℕ) (m : Infos) → Clocked m → length (or_fresh (find_info id m)).clock ≡ 24
find_info-Clocked id [] c = refl
find_info-Clocked id ((k, x) ∷ m) c = elim (Bool-cases (id == k)) [
  | inl t ↦ rw t c.0
  | inr f ↦ rw f (find_info-Clocked id m c.1)
]

pub on_day-Clocked : (week : ℕ) (t : RealTime) → Clocked t.infos → Clocked (on_day week t).infos
on_day-Clocked week t c = elim (Bool-cases (week == t.last_day)) [
  | inl e ↦ rw e c
  | inr e ↦ rw e tt
]

pub added_clock : (week : ℕ) (u : PlanningUnit) (i : Info) → (added week u i).clock ≡ i.clock
added_clock week u i = ground arith

abbrev pub clocks : Option Info → ℕ
clocks none = 0
clocks (some i) = length i.clock

pub update_info-clocks :
    (now : ℕ) (d : Data) (i : Info)
    → length i.clock ≡ 24
    → d.hour < 24
    → clocks (update_info now d i) ≡ 24
unfolding update_info
update_info-clocks now d i l h =
    let early : leb 24 d.hour ≡ false = ground (arith, h) in
    let c = record (at_hour d.hour i.clock) { number = ulong_bits d.hour_spend } in
    let first : length (noted now d i).clock ≡ 24 = length-set_clock d.hour i.clock c ∙ l in
    let n = (noted now d i).clock in
    let k = at_hour d.hour n in
    let closed = length-set_clock d.hour n (record k { budget = 0 }) ∙ first in
    let opened =
      length-set_clock d.hour n (record k { budget = hour_budget i d k.budget }) ∙ first in
    rw early (ground (arith, first, closed, opened))

pub update_info-some :
    (now : ℕ) (d : Data) (i : Info)
    → length i.clock ≡ 24
    → d.hour < 24
    → (j : Info) × (update_info now d i ≡ some j) × (length j.clock ≡ 24)
update_info-some now d i l h = elim (Option-cases (update_info now d i)) [
  | inl e ↦ absurd (ground (arith, e, update_info-clocks now d i l h))
  | inr (j, e) ↦ (j, e, rw e at (update_info-clocks now d i l h))
]

pub update_info_time :
    (now : ℕ) (d : Data) (i j : Info) → update_info now d i ≡ some j → j.time ≡ now
unfolding update_info
update_info_time now d i j e = ground (arith, e)
