-- ===== src/Filters/Mark/Touched.antt =====
-- Which units the marks of a user bring back into the results.
use ad_rtb_adapter.Base.{
  nothing, ℕ, ◌≡◌, refl, sym, ap, ◌∙◌, Bool, true, false, ◌&&◌, ◌||◌, not, none, some, List, [],
  ◌∷◌, length, get_elem?, ◌==◌, arith, Bool-cases, inl, inr,
}
use ad_rtb_adapter.Base.Int.{ℤ}
use ad_rtb_adapter.Acbm.{Found, list_at, search_text}
use ad_rtb_adapter.Acbm.Pushed.{Pushed}
use ad_rtb_adapter.Filters.Filed.{member}
use ad_rtb_adapter.Filters.Mark.{Mark, MarkInfo, mark_add_all, new_filter}
use ad_rtb_adapter.Filters.Mark.KeyWords.{all_marks, AllFilledKeys, Filed, updated-Filed}
use ad_rtb_adapter.Filters.Mark.Match.{
  Matches, fit_units, touch_all, after_search, match_marks, match_mark, has,
}
use ad_rtb_adapter.Filters.Mark.Searched.{stands_at, searched}
use ad_rtb_adapter.Filters.Planning.{PlanningUnit}
use ad_rtb_adapter.User.{UserMark}
use ad_rtb_adapter.Filters.Results.{Results}
use ad_rtb_adapter.Filters.Mark.Fits.{
  any, counts, reaches, has-touch_all, any_id-member, any_id-some, among, Holds, any_id-fit_units,
  or_false,
}

-- What one mark of the user adds, when the search has given `m`.
abbrev also : List MarkInfo → List UserMark → UserMark → ℕ → Bool
also ks us u id = any (λ k. (id == k.id) && counts us u k) ks

Holds-nil : (ks : List MarkInfo) → Holds ks [] []
Holds-nil ks q = elim (get_elem? ks q) as (λ o. false ≡ among o []) [ none ↦ refl | some k ↦ refl ]

Holds-cons :
    (ks : List MarkInfo) (m m' : Matches) (u : UserMark) (us : List UserMark)
    → ((q : ℕ)
        → not (nothing (list_at q m'))
          ≡ stands_at (get_elem? ks q) u.mark (length u.mark) || not (nothing (list_at q m)))
    → Holds ks m us
    → Holds ks m' (u ∷ us)
Holds-cons ks m m' u us found holds q =
    found q
    ∙ ap (λ (b : Bool). stands_at (get_elem? ks q) u.mark (length u.mark) || b) (holds q)
    ∙ elim (get_elem? ks q)
        as (λ o. stands_at o u.mark (length u.mark) || among o us ≡ among o (u ∷ us)) [
          | none ↦ refl
          | some k ↦ refl
        ]

match_marks-cons :
    (f : Mark) (ready : List ℕ) (u : UserMark) (us : List UserMark) (m : Matches) (r : Results)
    (g : Found)
    → search_text f.acbm u.mark m ≡ some g
    → match_marks f ready (u ∷ us) m r
      ≡ match_marks f ready us
          (after_search f ready u r g.results).0
          (after_search f ready u r g.results).1
match_marks-cons f ready u us m r g e = rw (e, match_marks) refl

after_search-none :
    (f : Mark) (ready : List ℕ) (u : UserMark) (r : Results) (m : Matches)
    → nothing (fit_units f.marks m u) ≡ true
    → after_search f ready u r m ≡ (m, r)
after_search-none f ready u r m e = rw (e, after_search) refl

after_search-some :
    (f : Mark) (ready : List ℕ) (u : UserMark) (r : Results) (m : Matches)
    → nothing (fit_units f.marks m u) ≡ false
    → after_search f ready u r m ≡ ([], touch_all ready (fit_units f.marks m u) r)
after_search-some f ready u r m e = rw (e, after_search) refl

none_more : (a b : Bool) → a ≡ a || (b && false)
none_more a b = ground arith

regroup : (a b c d : Bool) → (a || (b && c)) || (b && d) ≡ a || (b && (c || d))
regroup a b c d = ground arith

not_ready :
    (id : ℕ) (ready : List ℕ) (a b : Bool) → nothing ready ≡ true → a ≡ a || (member id ready && b)
not_ready id [] a b e = or_false a
not_ready id (j ∷ ready) a b e = absurd (ground (arith, e))

module _ (bad : ℕ → ℤ) (f : Mark) (ready : List ℕ) (filed : Filed bad f)
    (some_marks : nothing f.marks ≡ false) where
  nothing-fit_units :
      (m : Matches) (us : List UserMark) (u : UserMark)
      → Pushed m
      → Holds f.marks m us
      → any (counts us u) f.marks ≡ not (nothing (fit_units f.marks m u))
  nothing-fit_units m us u pushed holds =
      sym (any_id-fit_units (λ j. true) f.marks u m us pushed holds)
      ∙ any_id-some (fit_units f.marks m u)

  member-fit_units :
      (id : ℕ) (m : Matches) (us : List UserMark) (u : UserMark)
      → Pushed m
      → Holds f.marks m us
      → member id (fit_units f.marks m u) ≡ also f.marks us u id
  member-fit_units id m us u pushed holds =
      sym (any_id-member id (fit_units f.marks m u))
      ∙ any_id-fit_units (λ j. id == j) f.marks u m us pushed holds

  match_marks_lem :
      (us pending : List UserMark) (m : Matches) (r : Results)
      → Pushed m
      → Holds f.marks m pending
      → (r' : Results) × (match_marks f ready us m r ≡ some r')
        × ((id : ℕ) → has id r' ≡ has id r || (member id ready && reaches f.marks pending us id))
  match_marks_lem [] pending m r pushed holds =
      (r, refl, λ id. none_more (has id r) (member id ready))
  match_marks_lem (u ∷ us) pending m r pushed holds =
      let (g, run, pushed', found) = searched bad f u.mark m filed some_marks pushed in
      let holds' = Holds-cons f.marks m g.results u pending found holds in
      let ids = fit_units f.marks g.results u in
      let counted = nothing-fit_units g.results (u ∷ pending) u pushed' holds' in
      elim (Bool-cases (nothing ids)) [
        | inl e ↦
            let (r', end, all) = match_marks_lem us (u ∷ pending) g.results r pushed' holds' in
            let none_counted : any (counts (u ∷ pending) u) f.marks ≡ false = counted ∙ ap not e in
            (
              r',
              match_marks-cons f ready u us m r g run
                  ∙ ap (λ (x : Matches × Results). match_marks f ready us x.0 x.1)
                      (after_search-none f ready u r g.results e)
                  ∙ end,
              λ id. rw none_counted (all id),
            )
        | inr e ↦
            let touched = touch_all ready ids r in
            let (r', end, all) = match_marks_lem us [] [] touched tt (Holds-nil f.marks) in
            let some_counted : any (counts (u ∷ pending) u) f.marks ≡ true = counted ∙ ap not e in
            (
              r',
              match_marks-cons f ready u us m r g run
                  ∙ ap (λ (x : Matches × Results). match_marks f ready us x.0 x.1)
                      (after_search-some f ready u r g.results e)
                  ∙ end,
              λ id. rw some_counted (
                  all id
                  ∙ ap (λ (b : Bool). b || (member id ready && reaches f.marks [] us id))
                      (has-touch_all id ready ids r
                        ∙ ap (λ (b : Bool). has id r || (member id ready && b))
                            (member-fit_units id g.results (u ∷ pending) u pushed' holds'))
                  ∙ regroup (has id r) (member id ready) (also f.marks (u ∷ pending) u id)
                      (reaches f.marks [] us id)),
            )
      ]

-- After an update with units whose key words are not empty, and with one key word at least: what
-- `AdFilterMarkMatchMark` leaves in the results for the marks of a user, a set of ready units and the
-- results before. It ends without a fault, and a unit is in the results exactly if it was before, or
-- is ready and the marks reach it: a key word of it fits one of the marks, and stands in that mark or
-- in one of those before it back to the last mark for which some key word counted.
pub match_mark-updated :
    (bad : ℕ → ℤ) (lo hi : ℕ) (units : List PlanningUnit) (us : List UserMark) (ready : List ℕ)
    (r : Results)
    → AllFilledKeys units
    → nothing (all_marks units) ≡ false
    → (r' : Results) × (match_mark (mark_add_all units (new_filter bad lo hi)) us ready r ≡ some r')
      × ((id : ℕ) → has id r' ≡ has id r || (member id ready && reaches (all_marks units) [] us id))
unfolding match_mark
match_mark-updated bad lo hi units us ready r filled some_keys =
    let f = mark_add_all units (new_filter bad lo hi) in
    let (marks, filed) = updated-Filed bad lo hi units filled in
    elim (Bool-cases (nothing ready)) [
      | inl e ↦
          rw e (r, refl, λ id. not_ready id ready (has id r) (reaches (all_marks units) [] us id) e)
      | inr e ↦
          let (r', end, all) =
            match_marks_lem bad f ready filed (ap nothing marks ∙ some_keys) us [] [] r tt
              (Holds-nil f.marks) in
          rw e (
            r',
            end,
            λ id.
                all id
                ∙ ap (λ (ks : List MarkInfo). has id r || (member id ready && reaches ks [] us id))
                    marks,
          )
    ]
