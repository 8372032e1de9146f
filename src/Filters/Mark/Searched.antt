-- ===== src/Filters/Mark/Searched.antt =====
-- Which key words a search finds in a mark of the user.
use ad_rtb_adapter.Base.{
  nothing, ℕ, zero, suc, ◌+◌, ◌<◌, ◌≡◌, refl, sym, ap, ap₂, ◌∙◌, Bool, true, false, ◌&&◌, ◌||◌, not,
  Option, none, some, List, [], ◌∷◌, ◌++◌, length, drop, get_elem?, ◌==◌, arith,
}
use ad_rtb_adapter.Base.Int.{ℤ}
use ad_rtb_adapter.Acbm.{Acbm, Found, list_at, search_text}
use ad_rtb_adapter.Acbm.Kept.{Patterns, tree_of, AllFilled, one_if}
use ad_rtb_adapter.Acbm.Pushed.{Pushed, search_text-Pushed}
use ad_rtb_adapter.Acbm.Naive.{starts, here, places}
use ad_rtb_adapter.Acbm.Search.{search_text-tree_of}
use ad_rtb_adapter.Filters.Mark.{Mark, MarkInfo}
use ad_rtb_adapter.Filters.Mark.KeyWords.{stands_before, numbered, Filed}
use ad_rtb_adapter.Strings.{Text}

abbrev positive : ℕ → Bool
positive zero = false
positive (suc n) = true

positive-add : (m n : ℕ) → positive (m + n) ≡ positive m || positive n
positive-add zero n = ground arith
positive-add (suc m) n = ground arith

here-append :
    (p : ℕ) (ps qs : Patterns) (w : Text) → here p (ps ++ qs) w ≡ here p ps w + here p qs w
here-append p [] qs w = omega arith
here-append p ((s, q) ∷ ps) qs w = omega (arith, here-append p ps qs w)

none_counted : (b : Bool) → one_if (b && false) ≡ 0
none_counted true = refl
none_counted false = refl

here-above : (q n : ℕ) (ks : List MarkInfo) (w : Text) → q < n → here q (numbered n ks) w ≡ 0
here-above q n [] w h = refl
here-above q n (k ∷ ks) w h =
    let other : (q == n) ≡ false = ground (arith, h) in
    rw (here-append q (numbered (suc n) ks) ((k.key, n) ∷ []) w, other)
      (omega (arith, here-above q (suc n) ks w (omega (arith, h)), none_counted (starts k.key w)))

abbrev starts_at : Option MarkInfo → Text → Bool
starts_at none w = false
starts_at (some k) w = starts k.key w

abbrev pub stands_at : Option MarkInfo → Text → ℕ → Bool
stands_at none text n = false
stands_at (some k) text n = stands_before k.key text n

one_counted : (b : Bool) (n : ℕ) → n ≡ 0 → positive (n + (one_if (b && true) + 0)) ≡ b
one_counted true n h = rw h refl
one_counted false n h = rw h refl

here-numbered :
    (i n q : ℕ) (ks : List MarkInfo) (w : Text)
    → i ≡ n + q
    → positive (here i (numbered n ks) w) ≡ starts_at (get_elem? ks q) w
here-numbered i n q [] w e = refl
here-numbered i n zero (k ∷ ks) w e =
    let own : (i == n) ≡ true = ground (arith, e) in
    rw (here-append i (numbered (suc n) ks) ((k.key, n) ∷ []) w, own)
      (one_counted (starts k.key w) (here i (numbered (suc n) ks) w)
        (here-above i (suc n) ks w (omega (arith, e))))
here-numbered i n (suc q) (k ∷ ks) w e =
    let other : (i == n) ≡ false = ground (arith, e) in
    rw (here-append i (numbered (suc n) ks) ((k.key, n) ∷ []) w, other)
      (ap positive (omega (arith, none_counted (starts k.key w)))
        ∙ here-numbered i (suc n) q ks w (omega (arith, e)))

nowhere : (o : Option MarkInfo) (text : Text) → false ≡ stands_at o text 0
nowhere none text = refl
nowhere (some k) text = refl

further :
    (o : Option MarkInfo) (text : Text) (n : ℕ)
    → starts_at o (drop n text) || stands_at o text n ≡ stands_at o text (suc n)
further none text n = refl
further (some k) text n = refl

places-numbered :
    (q : ℕ) (ks : List MarkInfo) (text : Text) (n : ℕ)
    → positive (places q (numbered 0 ks) text n) ≡ stands_at (get_elem? ks q) text n
places-numbered q ks text zero = nowhere (get_elem? ks q) text
places-numbered q ks text (suc n) =
    positive-add (here q (numbered 0 ks) (drop n text)) (places q (numbered 0 ks) text n)
    ∙ ap₂ ◌||◌ (here-numbered q 0 q ks (drop n text) (omega arith)) (places-numbered q ks text n)
    ∙ further (get_elem? ks q) text n

nothing-length : {A : Type 0} (l : List A) → not (nothing l) ≡ positive (length l)
nothing-length [] = refl
nothing-length (x ∷ l) = refl

some-snoc : (ps : Patterns) (p : Text × ℕ) → nothing (ps ++ p ∷ []) ≡ false
some-snoc [] p = refl
some-snoc (q ∷ ps) p = refl

numbered-some : (n : ℕ) (ks : List MarkInfo) → nothing ks ≡ false → nothing (numbered n ks) ≡ false
numbered-some n [] h = absurd (ground (arith, h))
numbered-some n (k ∷ ks) h = some-snoc (numbered (suc n) ks) (k.key, n)

searched_some :
    (bad : ℕ → ℤ) (ps : Patterns) (text : Text) (m : List (ℕ × List Text))
    → AllFilled ps
    → nothing ps ≡ false
    → (g : Found) × (search_text (tree_of bad ps) text m ≡ some g)
      × ((p : ℕ)
          → length (list_at p g.results) ≡ places p ps text (length text) + length (list_at p m))
searched_some bad [] text m h n = absurd (ground (arith, n))
searched_some bad ((s, q) ∷ ps) text m h n = search_text-tree_of bad s q ps text m h

-- A search of the filter's tree: the key words that `m` has, and those that stand in the text.
pub searched :
    (bad : ℕ → ℤ) (f : Mark) (text : Text) (m : List (ℕ × List Text))
    → Filed bad f
    → nothing f.marks ≡ false
    → Pushed m
    → (g : Found) × (search_text f.acbm text m ≡ some g)
      × Pushed g.results
      × ((q : ℕ)
          → not (nothing (list_at q g.results))
            ≡ stands_at (get_elem? f.marks q) text (length text) || not (nothing (list_at q m)))
searched bad f text m filed some_marks pushed =
    let (g, run, counts) =
      searched_some bad (numbered 0 f.marks) text m filed.1 (numbered-some 0 f.marks some_marks) in
    let run' = ap (λ (a : Acbm). search_text a text m) filed.0 ∙ run in
    (
      g,
      run',
      search_text-Pushed f.acbm text m g run' pushed,
      λ q.
          nothing-length (list_at q g.results)
          ∙ ap positive (counts q)
          ∙ positive-add (places q (numbered 0 f.marks) text (length text)) (length (list_at q m))
          ∙ ap₂ ◌||◌ (places-numbered q f.marks text (length text))
              (sym (nothing-length (list_at q m))),
    )
