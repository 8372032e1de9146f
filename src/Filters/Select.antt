-- ===== src/Filters/Select.antt =====
-- Which units `FiltersMatch` leaves.
use ad_rtb_adapter.Base.{
  ℕ, ◌≡◌, refl, ◌∙◌, ap, Bool, true, false, ◌&&◌, not, Option, none, some, List, [], ◌∷◌, ◌==◌,
  if◌then◌else◌, arith, Bool-cases, inl, inr, ◌⊎◌,
}
use ad_rtb_adapter.Filters.Filed.{hits, overlap}
use ad_rtb_adapter.Filters.Keys.{ban_keys, ban_asked, flow_mobile}
use ad_rtb_adapter.Filters.Kinds.{
  Kind, time, adexchange, pid, area, size, agent, operator, device, connect, keys, asked,
}
use ad_rtb_adapter.Filters.Kept.{
  kept, match_of-erase_keys, match_of-parameter, parameter-Above, erase_keys-Above,
}
use ad_rtb_adapter.Filters.Looked.{Above, match_of}
use ad_rtb_adapter.Filters.Marked.{
  hit, marked, run_marking, run_last, marked-Above, match_of-marked, all_marks, first_marks,
  nothing, no_marks,
}
use ad_rtb_adapter.Filters.Marks.{
  Marks, word, shown, normal_marks, mobile_marks, six, three, no_three,
}
use ad_rtb_adapter.Filters.Parameter.{unit_fits, known_fits, mask, stays, parameter, find_unit}
use ad_rtb_adapter.Filters.Planning.{PlanningUnit}
use ad_rtb_adapter.Filters.Results.{Results}
use ad_rtb_adapter.Filters.Run.{
  Filters, kinds, none_left, filters_update, mark_kind, ban_match, filters_match,
}
use ad_rtb_adapter.Filters.Units.{Ascending, on_unit, hits-filters_update, bans-filters_update}
use ad_rtb_adapter.Protocol.Request.{Request}
use ad_rtb_adapter.Strings.{Text, c_str, Libc}

abbrev pub is_some : Option ℕ → Bool
is_some none = false
is_some (some w) = true

-- The marks that a request wants.
abbrev pub wanted : Libc → Request → Marks → Bool
wanted c q m = six m && (if c.atoi (c_str q.flow) == flow_mobile then three m else true)

-- A unit bids for a request when one of its keys is asked for in each filter that the request's flow
-- needs, it fits the request, and none of its ban keys is asked for.
abbrev pub bids : Libc → Text → Request → PlanningUnit → Bool
bids c now q u =
    (wanted c q (λ k. overlap (asked c k now q) (keys c k u)) && unit_fits c q u)
    && not (overlap (ban_asked c q) (ban_keys c u))

mobile_flow : Libc → Request → Bool
mobile_flow c q = c.atoi (c_str q.flow) == flow_mobile

mask_wanted :
    (c : Libc) (q : Request) (m : Marks)
    → (mobile_flow c q ≡ false → no_three m ≡ true)
    → (word m == mask c q) ≡ wanted c q m
unfolding mask mobile_flow
mask_wanted c q m h = elim (Bool-cases (c.atoi (c_str q.flow) == flow_mobile)) [
  | inl e ↦ rw e (mobile_marks m)
  | inr e ↦ rw e (normal_marks m ∙ ap (λ b. six m && b) (h e))
]

mask_positive : (c : Libc) (q : Request) → (0 == mask c q) ≡ false
unfolding mask
mask_positive c q = elim (Bool-cases (c.atoi (c_str q.flow) == flow_mobile)) [
  | inl e ↦ rw e refl
  | inr e ↦ rw e refl
]

-- A unit stays in the results when it has the mask's word and fits.
is_some-kept :
    (m : Marks) (w : ℕ) (fits : Bool)
    → (0 == w) ≡ false
    → is_some (kept (λ x. if x == w then fits else false) (shown m)) ≡ (word m == w) && fits
is_some-kept m w fits h = ground (arith, h)

unwanted : (c : Libc) (q : Request) (m : Marks) → m time ≡ false → wanted c q m ≡ false
unwanted c q m h = rw h (ground arith)

module _ (c : Libc) (us : List PlanningUnit) (f : Filters) (now : Text) (q : Request) where
  no_mobile : (i : ℕ) → mobile_flow c q ≡ false → no_three (hit c us f now q i) ≡ true
  unfolding mobile_flow
  no_mobile i e = rw e refl

  after_marks : Results
  after_marks = marked c us f now q kinds []

  empty_or_all :
      (filters_match c us f now q [] ≡ []) × ((i : ℕ) → hit c us f now q i time ≡ false)
      ⊎ (filters_match c us f now q [] ≡ ban_match c f q (parameter c us q after_marks))
  unfolding filters_match after_marks
  empty_or_all = elim (Bool-cases (none_left (mark_kind c f now q time []))) [
    | inl e ↦
        inl (rw e (nothing (mark_kind c f now q time []) e), λ i. first_marks c us f now q i e)
    | inr e ↦
        let tail = adexchange ∷ pid ∷ area ∷ size ∷ agent ∷ operator ∷ device ∷ connect ∷ [] in
        let first = mark_kind c f now q time [] in
        inr (
          rw e (
            run_marking c us f now q tail (parameter c us q ∷ ban_match c f q ∷ []) first e
            ∙ run_last c us f now q (marked c us f now q tail first)))
  ]

  if_none : (b : Bool) (o : Option ℕ) → is_some (if b then none else o) ≡ is_some o && not b
  if_none b o = ground arith

  -- What the tables of `f` make of a request.
  pub filters_match_lem :
      (i : ℕ)
      → is_some (match_of i (filters_match c us f now q []))
        ≡ (wanted c q (hit c us f now q i) && known_fits c q (find_unit i us))
          && not (hits i (ban_asked c q) f.ban)
  unfolding after_marks
  filters_match_lem i = elim empty_or_all [
    | inl (gone, no_time) ↦ rw (gone, unwanted c q (hit c us f now q i) (no_time i)) refl
    | inr e ↦
        let m = hit c us f now q i in
        let above = marked-Above c us f now q kinds [] tt in
        let marks =
          match_of-marked c us f now q i kinds (λ k. false) [] tt no_marks
          ∙ ap shown (all_marks c us f now q i) in
        let params = match_of-parameter c us q i 0 after_marks above in
        let bans =
          match_of-erase_keys i (ban_asked c q) f.ban (parameter c us q after_marks)
            (parameter-Above c us q 0 after_marks above) in
        rw e (
          ap is_some bans
          ∙ if_none (hits i (ban_asked c q) f.ban) (match_of i (parameter c us q after_marks))
          ∙ ap (λ o. is_some o && not (hits i (ban_asked c q) f.ban))
              (params ∙ ap (kept (stays c us q i)) marks)
          ∙ ap (λ b. b && not (hits i (ban_asked c q) f.ban))
              (is_some-kept m (mask c q) (known_fits c q (find_unit i us)) (mask_positive c q)
                ∙ ap (λ b. b && known_fits c q (find_unit i us)) (mask_wanted c q m (no_mobile i))))
  ]

  -- `FiltersMatch` leaves the units in the order of their execute ids, none of them twice.
  filters_match-Above : Above 0 (filters_match c us f now q [])
  unfolding after_marks
  filters_match-Above = elim empty_or_all [
    | inl (gone, no_time) ↦ rw gone tt
    | inr e ↦ rw e (
        erase_keys-Above (ban_asked c q) f.ban (parameter c us q after_marks)
          (parameter-Above c us q 0 after_marks (marked-Above c us f now q kinds [] tt)))
  ]

bids_at :
    (c : Libc) (now : Text) (q : Request) (o : Option PlanningUnit) (m : Marks) (ban : Bool)
    → ((k : Kind) → m k ≡ on_unit (λ u. overlap (asked c k now q) (keys c k u)) o)
    → ban ≡ on_unit (λ u. overlap (ban_asked c q) (ban_keys c u)) o
    → (wanted c q m && known_fits c q o) && not ban ≡ on_unit (bids c now q) o
bids_at c now q none m ban h b = rw (h time) (ground arith)
bids_at c now q (some u) m ban h b =
    let same : m ≡ (λ k. overlap (asked c k now q) (keys c k u)) = λ x k. h k x in rw (same, b) refl

-- After `FiltersUpdate` with units whose execute ids go up, `FiltersMatch` leaves exactly the units that
-- bid: each filter that the flow needs has one of the unit's keys among those of the request, the unit
-- fits the request, and none of its ban keys is asked for.
pub filters_match-filters_update :
    (c : Libc) (now : Text) (q : Request) (lo i : ℕ) (us : List PlanningUnit)
    → Ascending lo us
    → is_some (match_of i (filters_match c us (filters_update c us) now q []))
      ≡ on_unit (bids c now q) (find_unit i us)
filters_match-filters_update c now q lo i us a =
    let f = filters_update c us in
    filters_match_lem c us f now q i
    ∙ bids_at c now q (find_unit i us) (hit c us f now q i) (hits i (ban_asked c q) f.ban)
        (λ k. hits-filters_update c i lo k (asked c k now q) us a)
        (bans-filters_update c i lo (ban_asked c q) us a)
