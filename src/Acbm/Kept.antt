-- ===== src/Acbm/Kept.antt =====
-- What the tree and the table of data hold of the patterns that were added.
use ad_rtb_adapter.Base.{
  ℕ, ◌+◌, ◌≤◌, ◌<◌, ◌≡◌, refl, sym, ap, ◌∙◌, Bool, true, false, ◌&&◌, Option, none, some, List, [],
  ◌∷◌, ◌++◌, length, ◌==◌, if◌then◌else◌, arith, is_empty, Bool-cases, Option-cases, inl, inr,
  ==_iff,
}
use mathlib.Core.Option.{some-injective}
use ad_rtb_adapter.Base.Int.{ℤ}
use ad_rtb_adapter.Acbm.{
  Acbm, push_at, list_at, root_of, next_count, label_or, added, tree_add, init,
}
use ad_rtb_adapter.Acbm.Still.{Still, add-Still}
use ad_rtb_adapter.Acbm.Tags.{same, tag, tag-add, tag-same, tag-root_node, same-shared}
use ad_rtb_adapter.Strings.{Text}

-- Patterns with their data, the last one first, and the tree to which they were added.
abbrev pub Patterns : Type 0
Patterns = List (Text × ℕ)

abbrev pub tree_of : (ℕ → ℤ) → Patterns → Acbm
tree_of bad [] = init bad
tree_of bad ((s, p) ∷ ps) = (tree_add s p (tree_of bad ps)).0

abbrev pub one_if : Bool → ℕ
one_if true = 1
one_if false = 0

-- How often the pattern `w` was added with the data `p`.
abbrev pub tally : ℕ → Text → Patterns → ℕ
tally p w [] = 0
tally p w ((s, q) ∷ ps) = one_if (same w s && (p == q)) + tally p w ps

abbrev pub count : ℕ → List ℕ → ℕ
count p [] = 0
count p (q ∷ qs) = one_if (p == q) + count p qs

-- How often `p` is filed under a label.
abbrev pub held : ℕ → List (ℕ × List ℕ) → Option ℕ → ℕ
held p m none = 0
held p m (some l) = count p (list_at l m)

abbrev pub AllLong : ℕ → Patterns → Type 0
AllLong n [] = Unit {0}
AllLong n ((s, p) ∷ ps) = (n ≤ length s) × AllLong n ps

abbrev pub AllFilled : Patterns → Type 0
AllFilled [] = Unit {0}
AllFilled ((s, p) ∷ ps) = (is_empty s ≡ false) × AllFilled ps

pub record Kept (ps : Patterns) (a : Acbm) : Type 0 where
  pub still : Still (root_of a.root)
  pub below : (w : Text) (l : ℕ) → tag w (root_of a.root) ≡ some l → l < a.count
  pub apart :
      (v w : Text) (l : ℕ)
      → tag v (root_of a.root) ≡ some l
      → tag w (root_of a.root) ≡ some l
      → same v w ≡ true
  pub unused : (l : ℕ) → a.count ≤ l → list_at l a.owners ≡ []
  pub weight : (p : ℕ) (w : Text) → held p a.owners (tag w (root_of a.root)) ≡ tally p w ps
  pub long : AllLong a.min_size ps
  pub some_size : 0 < a.min_size

pub list_at-push_at :
    {A : Type 0} (j k : ℕ) (x : A) (m : List (ℕ × List A))
    → list_at j (push_at k x m) ≡ (if j == k then list_at j m ++ x ∷ [] else list_at j m)
list_at-push_at j k x [] = ground arith
list_at-push_at j k x ((i, xs) ∷ m) = ground (arith, list_at-push_at j k x m)

count-snoc : (p q : ℕ) (xs : List ℕ) → count p (xs ++ q ∷ []) ≡ one_if (p == q) + count p xs
count-snoc p q [] = refl
count-snoc p q (x ∷ xs) = omega (arith, count-snoc p q xs)

AllLong-mono : (m n : ℕ) (ps : Patterns) → m ≤ n → AllLong n ps → AllLong m ps
AllLong-mono m n [] h a = tt
AllLong-mono m n ((s, p) ∷ ps) h a = (omega (arith, a.0), AllLong-mono m n ps h a.1)

filled-long : (s : Text) → is_empty s ≡ false → 0 < length s
filled-long [] h = absurd (ground (arith, h))
filled-long (c ∷ s) h = omega arith

module _ (s : Text) (q : ℕ) {ps : Patterns} {a : Acbm} (k : Kept ps a) where
  abbrev new : ℕ
  new = label_or (tag s (root_of a.root)) a.count

  -- Another pattern's label is not the one that `s` gets.
  foreign :
      (w : Text) (l : ℕ) → same w s ≡ false → tag w (root_of a.root) ≡ some l → (l == new) ≡ false
  foreign w l d e = elim (Option-cases (tag s (root_of a.root))) [
    | inl f ↦ rw f (ground (arith, k.below w l e))
    | inr (m, f) ↦ elim (Bool-cases (l == m)) [
      | inl g ↦
          let there : tag s (root_of a.root) ≡ some l = rw ((==_iff l m).0 g) f in
          absurd (cc (d, k.apart w s l e there))
      | inr g ↦ rw f g
    ]
  ]

  old-tag :
      (w : Text)
      → tag w (root_of (added s q a).root) ≡ (if same w s then some new else tag w (root_of a.root))
  old-tag w = tag-add w s a.count (root_of a.root)

  new-lt-count : new < next_count (tag s (root_of a.root)) a.count
  new-lt-count = elim (Option-cases (tag s (root_of a.root))) [
    | inl f ↦ rw f (omega arith)
    | inr (m, f) ↦ rw f (k.below s m f)
  ]

  count-le-next : a.count ≤ next_count (tag s (root_of a.root)) a.count
  count-le-next = elim (Option-cases (tag s (root_of a.root))) [
    | inl f ↦ rw f (omega arith)
    | inr (m, f) ↦ rw f (omega arith)
  ]

  -- What was under the label of `s` before.
  held-new : (p : ℕ) → count p (list_at new a.owners) ≡ held p a.owners (tag s (root_of a.root))
  held-new p = elim (Option-cases (tag s (root_of a.root))) [
    | inl f ↦ rw (f, k.unused a.count (omega arith)) refl
    | inr (m, f) ↦ rw f refl
  ]

  added-below :
      (w : Text) (l : ℕ) → tag w (root_of (added s q a).root) ≡ some l → l < (added s q a).count
  added-below w l e = elim (Bool-cases (same w s)) [
    | inl h ↦
        let own : some new ≡ some l = rw (old-tag w, h) at e in
        rw (← some-injective new l own) new-lt-count
    | inr h ↦
        let old : tag w (root_of a.root) ≡ some l = rw (old-tag w, h) at e in
        omega (arith, k.below w l old, count-le-next)
  ]

  added-weight :
      (p : ℕ) (w : Text)
      → held p (added s q a).owners (tag w (root_of (added s q a).root)) ≡ tally p w ((s, q) ∷ ps)
  added-weight p w = elim (Bool-cases (same w s)) [
    | inl h ↦
        let self : (new == new) ≡ true = (==_iff new new).1 refl in
        let all : held p a.owners (tag s (root_of a.root)) ≡ tally p w ps =
          ap (held p a.owners) (sym (tag-same w s (root_of a.root) h)) ∙ k.weight p w in
        rw (old-tag w, h, list_at-push_at new new q a.owners, self)
          (omega (arith, count-snoc p q (list_at new a.owners), held-new p, all))
    | inr h ↦ elim (Option-cases (tag w (root_of a.root))) [
      | inl f ↦
          let all : 0 ≡ tally p w ps = rw f at (k.weight p w) in
          rw (old-tag w, h, f) (omega (arith, all))
      | inr (l, f) ↦
          let all : count p (list_at l a.owners) ≡ tally p w ps = rw f at (k.weight p w) in
          rw (old-tag w, h, f, list_at-push_at l new q a.owners, foreign w l h f)
            (omega (arith, all))
    ]
  ]

  clash :
      (v w : Text) (l : ℕ)
      → same v s ≡ true
      → same w s ≡ false
      → tag v (root_of (added s q a).root) ≡ some l
      → tag w (root_of (added s q a).root) ≡ some l
      → ⊥
  clash v w l g h e f =
      let own : some new ≡ some l = rw (old-tag v, g) at e in
      let old : tag w (root_of a.root) ≡ some l = rw (old-tag w, h) at f in
      ground (arith, some-injective new l own, foreign w l h old)

  added-apart :
      (v w : Text) (l : ℕ)
      → tag v (root_of (added s q a).root) ≡ some l
      → tag w (root_of (added s q a).root) ≡ some l
      → same v w ≡ true
  added-apart v w l e f = elim (Bool-cases (same v s)) [
    | inl g ↦ elim (Bool-cases (same w s)) [
      | inl h ↦ same-shared v w s g h
      | inr h ↦ absurd (clash v w l g h e f)
    ]
    | inr g ↦ elim (Bool-cases (same w s)) [
      | inl h ↦ absurd (clash w v l h g f e)
      | inr h ↦
          let old_v : tag v (root_of a.root) ≡ some l = rw (old-tag v, g) at e in
          let old_w : tag w (root_of a.root) ≡ some l = rw (old-tag w, h) at f in
          k.apart v w l old_v old_w
    ]
  ]

  added-unused : (l : ℕ) → (added s q a).count ≤ l → list_at l (added s q a).owners ≡ []
  added-unused l h =
      let apart : (l == new) ≡ false = ground (arith, new-lt-count) in
      rw (list_at-push_at l new q a.owners, apart) (k.unused l (omega (arith, count-le-next)))

  pub added-Kept : is_empty s ≡ false → Kept ((s, q) ∷ ps) (added s q a)
  added-Kept filled = record {
    still = add-Still s a.count (root_of a.root) k.still;
    below = added-below;
    apart = added-apart;
    unused = added-unused;
    weight = added-weight;
    long = (ground arith, AllLong-mono (added s q a).min_size a.min_size ps (ground arith) k.long);
    some_size = ground (arith, filled-long s filled, k.some_size);
  }

pub tree_add-filled :
    (s : Text) (q : ℕ) (a : Acbm) → is_empty s ≡ false → (tree_add s q a).0 ≡ added s q a
tree_add-filled s q a h = rw (tree_add, h) refl

none-some : {o : Option ℕ} {l : ℕ} → o ≡ none → o ≡ some l → ⊥
none-some e f = cc

init-Kept : (bad : ℕ → ℤ) → Kept [] (init bad)
init-Kept bad = record {
  still = (refl, tt, tt);
  below = λ w l e. absurd (none-some (tag-root_node w) e);
  apart = λ v w l e f. absurd (none-some (tag-root_node w) f);
  unused = λ l h. refl;
  weight = λ p w. rw (tag-root_node w) refl;
  long = tt;
  some_size = omega arith;
}

pub tree_of-Kept : (bad : ℕ → ℤ) (ps : Patterns) → AllFilled ps → Kept ps (tree_of bad ps)
tree_of-Kept bad [] h = init-Kept bad
tree_of-Kept bad ((s, q) ∷ ps) h =
    rw (tree_add-filled s q (tree_of bad ps) h.0) (added-Kept s q (tree_of-Kept bad ps h.1) h.0)
