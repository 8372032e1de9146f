-- ===== src/Acbm/Search.antt =====
-- What a search finds, against the naive count of the places where a pattern stands.
use ad_rtb_adapter.Base.{
  ℕ, zero, suc, ◌+◌, ◌-◌, ◌≤◌, ◌<◌, ◌≡◌, refl, ap, ◌∙◌, true, false, Option, none, some, List, [],
  ◌∷◌, length, length-drop, drop, ltb, arith, Bool-cases, Option-cases, inl, inr,
}
use mathlib.Core.Path.{fun_ext}
use ad_rtb_adapter.Base.Int.{ℤ}
use ad_rtb_adapter.Acbm.{
  Acbm, Node, Found, lower, child, list_at, hit, tag_of, descend, scan, scan_root, search_text,
  root_of,
}
use ad_rtb_adapter.Acbm.Kept.{
  Patterns, tree_of, Kept, AllFilled, AllLong, held, tree_of-Kept, tree_add-filled,
}
use ad_rtb_adapter.Acbm.Still.{Still, child-Still, step_back-Still}
use ad_rtb_adapter.Acbm.Tags.{tag, tag-at}
use ad_rtb_adapter.Strings.{Text}
use ad_rtb_adapter.Acbm.Naive.{
  starts, here, places, occurrences, entries, prefix_sum, prefix_sum_zero, prefix_sum-tally,
  entries-hit,
}

module _ (a : Acbm) where
  pub descend-none :
      (t : Node) (c : ℕ) (w : Text) (f : Found)
      → child (lower c) t ≡ none
      → descend a t (c ∷ w) f ≡ (t, c ∷ w, f)
  descend-none t c w f e = rw (e, descend) refl

  pub descend-some :
      (t : Node) (c : ℕ) (w : Text) (f : Found) {u : Node}
      → child (lower c) t ≡ some u
      → descend a t (c ∷ w) f ≡ descend a u w (hit a (tag_of (some u)) f)
  descend-some t c w f e = rw (e, descend) refl

  descend-Still : (t : Node) (w : Text) (f : Found) → Still t → Still (descend a t w f).0
  descend-Still t [] f h = h
  descend-Still t (c ∷ w) f h = elim (Option-cases (child (lower c) t)) [
    | inl e ↦ rw (descend-none t c w f e) h
    | inr (u, e) ↦
        rw (descend-some t c w f e)
          (descend-Still u w (hit a (tag_of (some u)) f) (child-Still (lower c) t h e))
  ]

  entries-descend :
      (p : ℕ) (t : Node) (w : Text) (f : Found)
      → entries p (descend a t w f).2 ≡ prefix_sum (λ v. held p a.owners (tag v t)) w + entries p f
  entries-descend p t [] f = omega arith
  entries-descend p t (c ∷ w) f = elim (Option-cases (child (lower c) t)) [
    | inl e ↦
        let nothing = λ (v : Text). ap (held p a.owners) (tag-at c v c t refl e) in
        rw (descend-none t c w f e) (
          omega (
            arith,
            nothing [],
            prefix_sum_zero (λ v. held p a.owners (tag (c ∷ v) t)) w (λ d v. nothing (d ∷ v)),
          ))
    | inr (u, e) ↦
        let below = λ (v : Text). ap (held p a.owners) (tag-at c v c t refl e) in
        let g = hit a (tag_of (some u)) f in
        rw (descend-some t c w f e) (
          omega (
            arith,
            below [],
            ap (λ (h : Text → ℕ). prefix_sum h w) (fun_ext below),
            entries-hit a p (tag_of (some u)) f,
            entries-descend p u w g,
          ))
  ]

starts-short : (s w : Text) → length w < length s → starts s w ≡ false
starts-short [] w h = absurd (omega (arith, h))
starts-short (c ∷ s) [] h = refl
starts-short (c ∷ s) (d ∷ w) h = ground (arith, starts-short s w (omega (arith, h)))

scan_done :
    (fuel : ℕ) (a : Acbm) (t : Node) (text : Text) (f : Found) → scan fuel a t text zero f ≡ some f
unfolding scan
scan_done zero a t text f = refl
scan_done (suc fuel) a t text f = refl

here-short :
    (p : ℕ) (n : ℕ) (ps : Patterns) (w : Text) → AllLong n ps → length w < n → here p ps w ≡ 0
here-short p n [] w a h = refl
here-short p n ((s, q) ∷ ps) w a h =
    let no_start : starts s w ≡ false = starts-short s w (omega (arith, a.0)) in
    rw (no_start, here-short p n ps w a.1 h) (omega arith)

-- No pattern stands so near the end of the text that it would not fit.
places-short :
    (p : ℕ) (n : ℕ) (ps : Patterns) (text : Text) (b d : ℕ)
    → 0 < n
    → AllLong n ps
    → length text < b + n
    → places p ps text (d + b) ≡ places p ps text b
places-short p n ps text b zero z a h = ap (places p ps text) (omega arith)
places-short p n ps text b (suc d) z a h =
    let next : suc d + b ≡ suc (d + b) = omega arith in
    rw next (
      omega (
        arith,
        here-short p n ps (drop (d + b) text) a (omega (arith, z, h, length-drop (d + b) text)),
        places-short p n ps text b d z a h,
      ))

module _ (ps : Patterns) (a : Acbm) (k : Kept ps a) (filled : AllFilled ps) where
  abbrev top : Node
  top = root_of a.root

  entries-round :
      (p : ℕ) (w : Text) (f : Found) → entries p (descend a top w f).2 ≡ here p ps w + entries p f
  entries-round p w f = omega (
    arith,
    entries-descend a p top w f,
    ap (λ (h : Text → ℕ). prefix_sum h w) (fun_ext (k.weight p)),
    prefix_sum-tally p ps w filled,
  )

  scan-step :
      (fuel base : ℕ) (text : Text) (f : Found)
      → scan (suc fuel) a top text (suc base) f
        ≡ scan fuel a top text base (descend a top (drop base text) f).2
  unfolding scan
  scan-step fuel base text f =
      let d = descend a top (drop base text) f in
      let one =
        step_back-Still a d.0 (drop base text) d.1
          (descend-Still a top (drop base text) f k.still) in
      rw (one, scan) (ap (λ (b : ℕ). scan fuel a top text b d.2) (omega arith))

  scan-places :
      (fuel base : ℕ) (text : Text) (f : Found)
      → base ≤ fuel
      → (g : Found) × (scan fuel a top text base f ≡ some g)
        × ((p : ℕ) → entries p g ≡ places p ps text base + entries p f)
  scan-places fuel zero text f h = (f, scan_done fuel a top text f, λ p. omega arith)
  scan-places zero (suc base) text f h = absurd (omega (arith, h))
  scan-places (suc fuel) (suc base) text f h =
      let f' = (descend a top (drop base text) f).2 in
      let (g, run, all) = scan-places fuel base text f' (omega (arith, h)) in
      (
        g,
        scan-step fuel base text f ∙ run,
        λ p. omega (arith, all p, entries-round p (drop base text) f),
      )

occurrences-places :
    (p : ℕ) (ps : Patterns) (a : Acbm) (text : Text)
    → Kept ps a
    → occurrences p ps text ≡ places p ps text (suc (length text) - a.min_size)
occurrences-places p ps a text k =
    let b = suc (length text) - a.min_size in
    ap (places p ps text) (omega arith)
    ∙ places-short p a.min_size ps text b (length text - b) k.some_size k.long
        (omega (arith, k.some_size))

pub search_some :
    (a : Acbm) (text : Text) (m : List (ℕ × List Text))
    → ltb (length text) a.min_size ≡ false
    → search_text a text m ≡ scan_root a a.root text (record { matches = 0; results = m })
unfolding search_text
search_some a text m h = rw h refl

pub search_none :
    (a : Acbm) (text : Text) (m : List (ℕ × List Text))
    → ltb (length text) a.min_size ≡ true
    → search_text a text m ≡ some (record { matches = 0; results = m })
unfolding search_text
search_none a text m h = rw h refl

search-Kept :
    (ps : Patterns) (a : Acbm) (text : Text) (m : List (ℕ × List Text))
    → Kept ps a
    → AllFilled ps
    → a.root ≡ some (root_of a.root)
    → (f : Found) × (search_text a text m ≡ some f)
      × ((p : ℕ) → entries p f ≡ occurrences p ps text + length (list_at p m))
search-Kept ps a text m k filled r = elim (Bool-cases (ltb (length text) a.min_size)) [
  | inl h ↦
      let no_place : suc (length text) - a.min_size ≡ 0 = ground (arith, h) in
      (
        record { matches = 0; results = m },
        search_none a text m h,
        λ p. omega (arith, occurrences-places p ps a text k, ap (places p ps text) no_place),
      )
  | inr h ↦
      let start : Found = record { matches = 0; results = m } in
      let b = suc (length text) - a.min_size in
      let (g, run, all) =
        scan-places ps a k filled (length text) b text start (omega (arith, k.some_size)) in
      (
        g,
        search_some a text m h ∙ ap (λ (o : Option Node). scan_root a o text start) r ∙ run,
        λ p. omega (arith, occurrences-places p ps a text k, all p),
      )
]

-- Patterns that are not empty were added to a new tree, with their data: whatever `m_iBCShift` held,
-- a search of a text ends without a fault, and gives a piece of data one string more for each pattern
-- that was added with it and each place of the text where that pattern stands, with capitals and
-- small letters taken as equal.
pub search_text-tree_of :
    (bad : ℕ → ℤ) (s : Text) (q : ℕ) (ps : Patterns) (text : Text) (m : List (ℕ × List Text))
    → AllFilled ((s, q) ∷ ps)
    → (f : Found) × (search_text (tree_of bad ((s, q) ∷ ps)) text m ≡ some f)
      × ((p : ℕ) → entries p f ≡ occurrences p ((s, q) ∷ ps) text + length (list_at p m))
search_text-tree_of bad s q ps text m filled =
    search-Kept ((s, q) ∷ ps) (tree_of bad ((s, q) ∷ ps)) text m
      (tree_of-Kept bad ((s, q) ∷ ps) filled) filled
      (rw (tree_add-filled s q (tree_of bad ps) filled.0) refl)
