-- ===== src/Acbm/Tags.antt =====
-- The label that a pattern's node has, after another pattern was added; and that no shift is set.
use ad_rtb_adapter.Base.{
  ℕ, ◌≡◌, refl, sym, ap, ◌∙◌, Bool, true, false, ◌&&◌, Option, none, some, [], ◌∷◌, ◌==◌,
  if◌then◌else◌, arith, Bool-cases, Option-cases, inl, inr, ==_iff,
}
use ad_rtb_adapter.Base.Int.{pos, negsuc}
use ad_rtb_adapter.Acbm.{
  Node, node, Children, nil, cons, lower, kid, put_kid, child, set_child, root_node, new_child,
  new_node, set_label, add, reach, tag_of, label_or,
}
use ad_rtb_adapter.Strings.{Text}

-- Two texts that `tolower` makes equal.
abbrev pub same : Text → Text → Bool
same [] [] = true
same [] (d ∷ ds) = false
same (c ∷ cs) [] = false
same (c ∷ cs) (d ∷ ds) = let rest = same cs ds in (lower c == lower d) && rest

-- The label of the node at the end of `w`.
abbrev pub tag : Text → Node → Option ℕ
tag w t = tag_of (reach w t)

pub kid-put_kid :
    (c d : ℕ) (t : Node) (kids : Children)
    → kid c (put_kid d t kids) ≡ (if c == d then some t else kid c kids)
kid-put_kid c d t nil = refl
kid-put_kid c d t (cons e u kids) = ground (arith, kid-put_kid c d t kids)

child-set_child :
    (c d : ℕ) (u t : Node) → child c (set_child d u t) ≡ (if c == d then some u else child c t)
child-set_child c d u (node l s n e kids) = kid-put_kid c d u kids

child-new_child :
    (c d : ℕ) (u t : Node) → child c (new_child d u t) ≡ (if c == d then some u else child c t)
child-new_child c d u (node l s n e kids) = kid-put_kid c d u kids

abbrev pub step : Text → Option Node → Option ℕ
step w none = none
step w (some u) = tag w u

tag-step : (c : ℕ) (w : Text) (t : Node) → tag (c ∷ w) t ≡ step w (child (lower c) t)
tag-step c w t = ground arith

pub tag-at :
    (c : ℕ) (w : Text) (d : ℕ) (t : Node) {o : Option Node}
    → lower c ≡ lower d
    → child (lower d) t ≡ o
    → tag (c ∷ w) t ≡ step w o
tag-at c w d t q e = tag-step c w t ∙ ap (λ (x : ℕ). step w (child x t)) q ∙ ap (step w) e

tag-new_node : (w : Text) → tag w new_node ≡ none
tag-new_node [] = refl
tag-new_node (c ∷ w) = refl

tag-set_label_nil : (n : ℕ) (t : Node) → tag [] (set_label n t) ≡ some (label_or (tag [] t) n)
tag-set_label_nil n (node (pos l) s k c kids) = refl
tag-set_label_nil n (node (negsuc l) s k c kids) = refl

tag-set_label_cons :
    (c : ℕ) (w : Text) (n : ℕ) (t : Node) → tag (c ∷ w) (set_label n t) ≡ tag (c ∷ w) t
tag-set_label_cons c w n (node (pos l) s k d kids) = refl
tag-set_label_cons c w n (node (negsuc l) s k d kids) = refl

tag-set_child : (d : ℕ) (u t : Node) → tag [] (set_child d u t) ≡ tag [] t
tag-set_child d u (node (pos l) s k c kids) = refl
tag-set_child d u (node (negsuc l) s k c kids) = refl

tag-new_child : (d : ℕ) (u t : Node) → tag [] (new_child d u t) ≡ tag [] t
tag-new_child d u (node (pos l) s k c kids) = refl
tag-new_child d u (node (negsuc l) s k c kids) = refl

step-if :
    (w : Text) (b : Bool) (u : Node) (o : Option Node)
    → step w (if b then some u else o) ≡ (if b then tag w u else step w o)
step-if w true u o = refl
step-if w false u o = refl

cons_case :
    (c : ℕ) (w : Text) (d : ℕ) (s : Text) (n : ℕ) (t u : Node)
    → tag s u ≡ tag (d ∷ s) t
    → tag w (add s n u) ≡ (if same w s then some (label_or (tag s u) n) else tag w u)
    → (lower c ≡ lower d → tag w u ≡ tag (c ∷ w) t)
    → (if lower c == lower d then tag w (add s n u) else step w (child (lower c) t))
      ≡ (if same (c ∷ w) (d ∷ s) then some (label_or (tag (d ∷ s) t) n) else tag (c ∷ w) t)
cons_case c w d s n t u e ih h = elim (Bool-cases (lower c == lower d)) [
  | inl p ↦ rw (p, ih, e, h ((==_iff (lower c) (lower d)).0 p)) refl
  | inr p ↦ rw p (sym (tag-step c w t))
]

pub add-none :
    (d : ℕ) (s : Text) (n : ℕ) (t : Node)
    → child (lower d) t ≡ none
    → add (d ∷ s) n t ≡ new_child (lower d) (add s n new_node) t
add-none d s n t e = rw (e, add) refl

pub add-some :
    (d : ℕ) (s : Text) (n : ℕ) {u : Node} (t : Node)
    → child (lower d) t ≡ some u
    → add (d ∷ s) n t ≡ set_child (lower d) (add s n u) t
add-some d s n t e = rw (e, add) refl

-- A pattern's own node gets its label, and no other node's label changes.
pub tag-add :
    (w s : Text) (n : ℕ) (t : Node)
    → tag w (add s n t) ≡ (if same w s then some (label_or (tag s t) n) else tag w t)
tag-add [] [] n t = tag-set_label_nil n t
tag-add (c ∷ w) [] n t = tag-set_label_cons c w n t
tag-add [] (d ∷ s) n t = elim (Option-cases (child (lower d) t)) [
  | inl e ↦ rw (add-none d s n t e) (tag-new_child (lower d) (add s n new_node) t)
  | inr (u, e) ↦ rw (add-some d s n t e) (tag-set_child (lower d) (add s n u) t)
]
tag-add (c ∷ w) (d ∷ s) n t = elim (Option-cases (child (lower d) t)) [
  | inl e ↦
      let v = add s n new_node in
      rw (add-none d s n t e) (
        tag-step c w (new_child (lower d) v t)
        ∙ ap (step w) (child-new_child (lower c) (lower d) v t)
        ∙ step-if w (lower c == lower d) v (child (lower c) t)
        ∙ cons_case c w d s n t new_node
            (sym (tag-step d s t ∙ ap (step s) e ∙ sym (tag-new_node s))) (tag-add w s n new_node)
            (λ q. tag-new_node w ∙ sym (tag-at c w d t q e)))
  | inr (u, e) ↦
      let v = add s n u in
      rw (add-some d s n t e) (
        tag-step c w (set_child (lower d) v t)
        ∙ ap (step w) (child-set_child (lower c) (lower d) v t)
        ∙ step-if w (lower c == lower d) v (child (lower c) t)
        ∙ cons_case c w d s n t u (sym (tag-step d s t ∙ ap (step s) e)) (tag-add w s n u)
            (λ q. sym (tag-at c w d t q e)))
]

-- Patterns that `tolower` makes equal end at the same node.
pub tag-same : (w s : Text) (t : Node) → same w s ≡ true → tag w t ≡ tag s t
tag-same [] [] t h = refl
tag-same [] (d ∷ s) t h = absurd (ground (arith, h))
tag-same (c ∷ w) [] t h = absurd (ground (arith, h))
tag-same (c ∷ w) (d ∷ s) t h =
    let heads : lower c ≡ lower d = ground (arith, h) in
    let tails : same w s ≡ true = ground (arith, h) in
    tag-at c w d t heads refl
    ∙ elim (child (lower d) t) as (λ o. step w o ≡ step s o) [
      | none ↦ refl
      | some u ↦ tag-same w s u tails
    ]
    ∙ sym (tag-step d s t)

pub same-shared : (v w s : Text) → same v s ≡ true → same w s ≡ true → same v w ≡ true
same-shared [] [] [] g h = refl
same-shared [] (c ∷ w) [] g h = absurd (ground (arith, h))
same-shared (c ∷ v) w [] g h = absurd (ground (arith, g))
same-shared [] w (d ∷ s) g h = absurd (ground (arith, g))
same-shared (b ∷ v) [] (d ∷ s) g h = absurd (ground (arith, h))
same-shared (b ∷ v) (c ∷ w) (d ∷ s) g h = ground (arith, g, h, same-shared v w s)

pub tag-root_node : (w : Text) → tag w root_node ≡ none
tag-root_node [] = refl
tag-root_node (c ∷ w) = refl
