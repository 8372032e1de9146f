-- ===== src/Filters/Tanx/Left.antt =====
-- What the filter of TanX leaves, by the lines of its two files.
use ad_rtb_adapter.Base.{
  ℕ, ◌≡◌, refl, ap, ◌∙◌, Bool, true, false, ◌&&◌, ◌||◌, Option, none, some, List, [], ◌∷◌, ◌++◌,
  map, ◌==◌, if◌then◌else◌, nothing, same_text, arith, Bool-cases, Option-cases, sym, inl, inr,
  append_assoc, append-nil,
}
use mathlib.Core.Path.{fun_ext}
use ad_rtb_adapter.Filters.Filed.{hits, overlap, hits-update_all}
use ad_rtb_adapter.Filters.Kept.{match_of-erase_keys}
use ad_rtb_adapter.Filters.Looked.{Above, match_of}
use ad_rtb_adapter.Filters.Parameter.{find_unit}
use ad_rtb_adapter.Filters.Planning.{PlanningUnit}
use ad_rtb_adapter.Filters.Results.{Results, erase_keys}
use ad_rtb_adapter.Filters.Tanx.{
  Tanx, Value, Description, Contents, Places, content_of, places_of, push_place, push_places, texts,
  decimals, parse_contents, parse_descreptions, described, tanx_keys, tanx_add, tanx_add_all,
  tanx_asked, tanx_match, adx_tanx, lines_of, tanx_init, category_key,
}
use ad_rtb_adapter.Filters.Units.{
  Ascending, on_unit, any_unit, any_unit-find_unit, or_turn, hits_nothing,
}
use ad_rtb_adapter.Protocol.Request.{Request}
use ad_rtb_adapter.Strings.{Text, Libc}
use ad_rtb_adapter.Filters.Tanx.Excluded.{
  categories, places_of-push_place, content_of-parse_contents,
}

module _ (c : Libc) where
  -- The keys of a line of the second file, for the categories `cats` of a filter id.
  abbrev pub line_keys : ℕ → (Text → List Text) → Text → Value → List Text
  line_keys adx cats id v =
      if nothing (decimals c v.include_area) && nothing (decimals c v.include_interval)
      then map (category_key c adx) (cats id)
      else []

  -- `keys` once for each time that `pid` is among `ps`.
  abbrev pub for_place : Text → List Text → List Text → List Text
  for_place pid [] keys = []
  for_place pid (p ∷ ps) keys =
      let rest = for_place pid ps keys in if same_text pid p then keys ++ rest else rest

  -- The keys that the second file gives a place.
  abbrev pub place_keys : ℕ → (Text → List Text) → Text → List (Option Value) → List Text
  place_keys adx cats pid [] = []
  place_keys adx cats pid (none ∷ vs) = place_keys adx cats pid vs
  place_keys adx cats pid (some v ∷ vs) =
      let rest = place_keys adx cats pid vs in
      elim v.filter_id [
        | none ↦ rest
        | some id ↦ for_place pid (texts v.include_pid) (line_keys adx cats id v) ++ rest
      ]

  tanx_asked-append :
      (adx : ℕ) (ds es : List Description)
      → tanx_asked c adx (ds ++ es) ≡ tanx_asked c adx ds ++ tanx_asked c adx es
  tanx_asked-append adx [] es = refl
  tanx_asked-append adx (d ∷ ds) es = elim (Bool-cases (nothing d.area && nothing d.interval)) [
    | inl h ↦
        let keys = map (category_key c adx) d.content.category in
        rw h (
          ap (λ (l : List Text). keys ++ l) (tanx_asked-append adx ds es)
          ∙ sym (append_assoc keys (tanx_asked c adx ds) (tanx_asked c adx es)))
    | inr h ↦ rw h (tanx_asked-append adx ds es)
  ]

  tanx_asked-push_places :
      (adx : ℕ) (pid : Text) (ps : List Text) (d : Description) (t : Places)
      → tanx_asked c adx (places_of pid (push_places ps d t))
        ≡ tanx_asked c adx (places_of pid t) ++ for_place pid ps (tanx_asked c adx (d ∷ []))
  tanx_asked-push_places adx pid [] d t = sym (append-nil (tanx_asked c adx (places_of pid t)))
  tanx_asked-push_places adx pid (p ∷ ps) d t =
      let more = for_place pid ps (tanx_asked c adx (d ∷ [])) in
      tanx_asked-push_places adx pid ps d (push_place p d t)
      ∙ ap (λ (ds : List Description). tanx_asked c adx ds ++ more) (places_of-push_place pid p d t)
      ∙ elim (Bool-cases (same_text pid p)) [
        | inl h ↦ rw h (
            ap (λ (l : List Text). l ++ more) (tanx_asked-append adx (places_of pid t) (d ∷ []))
            ∙ append_assoc (tanx_asked c adx (places_of pid t)) (tanx_asked c adx (d ∷ [])) more)
        | inr h ↦ rw (h, append-nil (places_of pid t)) refl
      ]

  tanx_asked-described :
      (adx : ℕ) (id : Text) (v : Value) (m : Contents)
      → tanx_asked c adx (described c id v m ∷ [])
        ≡ line_keys adx (λ i. (content_of i m).category) id v
  tanx_asked-described adx id v m =
      elim (Bool-cases
        (nothing (decimals c v.include_area) && nothing (decimals c v.include_interval))) [
          | inl h ↦ rw h (append-nil (map (category_key c adx) (content_of id m).category))
          | inr h ↦ rw h refl
        ]

  tanx_asked-parse_descreptions :
      (adx : ℕ) (pid : Text) (m : Contents) (vs : List (Option Value)) (t : Places)
      → tanx_asked c adx (places_of pid (parse_descreptions c m vs t))
        ≡ tanx_asked c adx (places_of pid t)
          ++ place_keys adx (λ i. (content_of i m).category) pid vs
  tanx_asked-parse_descreptions adx pid m [] t =
      sym (append-nil (tanx_asked c adx (places_of pid t)))
  tanx_asked-parse_descreptions adx pid m (none ∷ vs) t =
      tanx_asked-parse_descreptions adx pid m vs t
  tanx_asked-parse_descreptions adx pid m (some v ∷ vs) t = elim (Option-cases v.filter_id) [
    | inl e ↦ rw e (tanx_asked-parse_descreptions adx pid m vs t)
    | inr (id, e) ↦
        let cats = λ (i : Text). (content_of i m).category in
        let ps = texts v.include_pid in
        let d = described c id v m in
        let before = tanx_asked c adx (places_of pid t) in
        let rest = place_keys adx cats pid vs in
        rw e (
          tanx_asked-parse_descreptions adx pid m vs (push_places ps d t)
          ∙ ap (λ (l : List Text). l ++ rest) (tanx_asked-push_places adx pid ps d t)
          ∙ ap (λ (l : List Text). (before ++ for_place pid ps l) ++ rest)
              (tanx_asked-described adx id v m)
          ∙ append_assoc before (for_place pid ps (line_keys adx cats id v)) rest)
  ]

  hits-tanx_add_all :
      (i : ℕ) (qs : List Text) (us : List PlanningUnit) (f : Tanx)
      → hits i qs (tanx_add_all c us f).table
        ≡ any_unit (λ u. overlap qs (tanx_keys c u)) i us || hits i qs f.table
  unfolding any_unit
  hits-tanx_add_all i qs [] f = refl
  hits-tanx_add_all i qs (u ∷ us) f =
      hits-tanx_add_all i qs us (tanx_add c u f)
      ∙ ap (λ b. any_unit (λ u. overlap qs (tanx_keys c u)) i us || b)
          (hits-update_all i qs (tanx_keys c u) u.execute_id f.table)
      ∙ or_turn (any_unit (λ u. overlap qs (tanx_keys c u)) i us) (overlap qs (tanx_keys c u))
          (i == u.execute_id) (hits i qs f.table)

  pid_des-tanx_add_all :
      (us : List PlanningUnit) (f : Tanx) → (tanx_add_all c us f).pid_des ≡ f.pid_des
  pid_des-tanx_add_all [] f = refl
  pid_des-tanx_add_all (u ∷ us) f = pid_des-tanx_add_all us (tanx_add c u f)

  or_no_hit : (a b : Bool) → b ≡ false → a || b ≡ a
  or_no_hit a b h = ground (arith, h)

  tanx_match-erase :
      (f : Tanx) (q : Request) (r : Results)
      → (q.adx == adx_tanx) ≡ true
      → tanx_match c f q r ≡ erase_keys (tanx_asked c q.adx (places_of q.p_id f.pid_des)) f.table r
  unfolding tanx_match
  tanx_match-erase f q r h = rw h refl

  tanx_match-other :
      (f : Tanx) (q : Request) (r : Results) → (q.adx == adx_tanx) ≡ false → tanx_match c f q r ≡ r
  unfolding tanx_match
  tanx_match-other f q r h = rw h refl

  -- Both files were read into a new filter, and then units were added whose execute ids go up: a unit is
  -- dropped from the results, which are in the order of the ids, exactly if the request is one of TanX
  -- and one of the keys of the unit's materials is made of a category that the files exclude for the
  -- request's place. Every other entry is as before. A category is excluded for a place if a line of
  -- the second file with neither areas nor intervals names the place, and a line of the first file
  -- with the same filter id names the category.
  pub match_of-tanx_match :
      (parse : Text → Option Value) (ls ds : List Text) (us : List PlanningUnit) (q : Request)
      (r : Results) (i lo : ℕ)
      → Ascending lo us
      → Above 0 r
      → let cats = λ (id : Text). categories c id (map parse (lines_of false ls)) in
        let keys = place_keys q.adx cats q.p_id (map parse (lines_of false ds)) in
        match_of i (
          tanx_match c
            (tanx_add_all c us
              (tanx_init c parse (some ls) (some ds) (record { pid_des = []; table = [] })).0)
            q
            r)
        ≡ (if (q.adx == adx_tanx) && on_unit (λ u. overlap keys (tanx_keys c u)) (find_unit i us)
            then none
            else match_of i r)
  unfolding tanx_init
  match_of-tanx_match parse ls ds us q r i lo a above =
      let vs = map parse (lines_of false ls) in
      let ws = map parse (lines_of false ds) in
      let m = parse_contents c vs [] in
      let f = (tanx_init c parse (some ls) (some ds) (record { pid_des = []; table = [] })).0 in
      let g = tanx_add_all c us f in
      let keys = place_keys q.adx (λ id. categories c id vs) q.p_id ws in
      let drops = λ (u : PlanningUnit). overlap keys (tanx_keys c u) in
      let asked : tanx_asked c q.adx (places_of q.p_id g.pid_des) ≡ keys =
        ap (λ (t : Places). tanx_asked c q.adx (places_of q.p_id t)) (pid_des-tanx_add_all us f)
        ∙ tanx_asked-parse_descreptions q.adx q.p_id m ws []
        ∙ ap (λ (cats : Text → List Text). place_keys q.adx cats q.p_id ws)
            (fun_ext (λ id. content_of-parse_contents c id vs [])) in
      let hit : hits i keys g.table ≡ on_unit drops (find_unit i us) =
        hits-tanx_add_all i keys us f
        ∙ or_no_hit (any_unit drops i us) (hits i keys []) (hits_nothing c i keys)
        ∙ any_unit-find_unit drops i lo us a in
      elim (Bool-cases (q.adx == adx_tanx)) [
        | inl h ↦ rw h (
            ap (match_of i) (tanx_match-erase g q r h)
            ∙ ap (λ (ks : List Text). match_of i (erase_keys ks g.table r)) asked
            ∙ match_of-erase_keys i keys g.table r above
            ∙ ap (λ (b : Bool). if b then none else match_of i r) hit)
        | inr h ↦ rw h (ap (match_of i) (tanx_match-other g q r h))
      ]
