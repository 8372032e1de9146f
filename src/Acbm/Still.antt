-- ===== src/Acbm/Still.antt =====
-- A tree that was only added to has no shifts, so that the search goes back by one place each time.
use ad_rtb_adapter.Base.{
  ℕ, zero, suc, subst, ◌≡◌, refl, true, some, [], ◌∷◌, ◌==◌, if◌then◌else◌, arith, Bool-cases,
  Option-cases, inl, inr,
}
use mathlib.Core.Option.{some-injective}
use ad_rtb_adapter.Base.Int.{ℤ, pos, negsuc, ltb_ℤ}
use ad_rtb_adapter.Acbm.{
  Acbm, Node, node, Children, nil, cons, lower, kid, put_kid, child, set_child, new_child, new_node,
  set_label, add, shift, bad_shift, least_one, step_back,
}
use ad_rtb_adapter.Acbm.Tags.{add-none, add-some, kid-put_kid}
use ad_rtb_adapter.Strings.{Text}

-- The child that `m_ucChild` names is there, if there are children.
abbrev HasLast : ℕ → ℕ → Children → Type 0
HasLast zero d kids = Unit {0}
HasLast (suc n) d kids = (u : Node) × (kid d kids ≡ some u)

abbrev mutual
  pub Still : Node → Type 0
  Still (node l s n d kids) = (s ≡ pos 0) × HasLast n d kids × Stills kids

  pub Stills : Children → Type 0
  Stills nil = Unit {0}
  Stills (cons c t kids) = Still t × Stills kids

kid-Still : (c : ℕ) (kids : Children) {u : Node} → Stills kids → kid c kids ≡ some u → Still u
kid-Still c nil h e = absurd (ground (arith, e))
kid-Still c (cons d t kids) {u} h e = elim (Bool-cases (c == d)) [
  | inl p ↦ let same : some t ≡ some u = rw p at e in subst Still (some-injective t u same) h.0
  | inr p ↦ let there : kid c kids ≡ some u = rw p at e in kid-Still c kids h.1 there
]

put_kid-Stills :
    (c : ℕ) (u : Node) (kids : Children) → Still u → Stills kids → Stills (put_kid c u kids)
put_kid-Stills c u nil g h = (g, tt)
put_kid-Stills c u (cons d t kids) g h = elim (Bool-cases (c == d)) [
  | inl p ↦ rw p (g, h.1)
  | inr p ↦ rw p (h.0, put_kid-Stills c u kids g h.1)
]

put_kid-HasLast :
    (n d c : ℕ) (u : Node) (kids : Children) → HasLast n d kids → HasLast n d (put_kid c u kids)
put_kid-HasLast zero d c u kids h = tt
put_kid-HasLast (suc n) d c u kids h = elim (Bool-cases (d == c)) [
  | inl p ↦ (u, rw (kid-put_kid d c u kids, p) refl)
  | inr p ↦ (h.0, rw (kid-put_kid d c u kids, p) h.1)
]

set_child-Still : (c : ℕ) (u t : Node) → Still u → Still t → Still (set_child c u t)
set_child-Still c u (node l s n d kids) g h =
    (h.0, put_kid-HasLast n d c u kids h.1, put_kid-Stills c u kids g h.2)

new_child-Still : (c : ℕ) (u t : Node) → Still u → Still t → Still (new_child c u t)
new_child-Still c u (node l s n d kids) g h =
    let here : (c == c) ≡ true = ground arith in
    (h.0, (u, rw (kid-put_kid c c u kids, here) refl), put_kid-Stills c u kids g h.2)

set_label-Still : (n : ℕ) (t : Node) → Still t → Still (set_label n t)
set_label-Still n (node (pos l) s k d kids) h = h
set_label-Still n (node (negsuc l) s k d kids) h = h

pub child-Still : (c : ℕ) (t : Node) {u : Node} → Still t → child c t ≡ some u → Still u
child-Still c (node l s n d kids) h e = kid-Still c kids h.2 e

pub add-Still : (s : Text) (n : ℕ) (t : Node) → Still t → Still (add s n t)
add-Still [] n t h = set_label-Still n t h
add-Still (c ∷ s) n t h = elim (Option-cases (child (lower c) t)) [
  | inl e ↦
      rw (add-none c s n t e)
        (new_child-Still (lower c) (add s n new_node) t (add-Still s n new_node (refl, tt, tt)) h)
  | inr (u, e) ↦
      rw (add-some c s n t e)
        (set_child-Still (lower c) (add s n u) t (add-Still s n u (child-Still (lower c) t h e)) h)
]

shift-Still : (t : Node) → Still t → shift t ≡ pos 0
shift-Still (node l s n d kids) h = h.0

least : (bc : ℤ) → least_one (if ltb_ℤ bc (pos 0) then bc else pos 0) ≡ 1
least (pos n) = ground arith
least (negsuc n) = ground arith

pub step_back-Still :
    (a : Acbm) (t : Node) (w rest : Text) → Still t → step_back a t w rest ≡ some 1
step_back-Still a (node l s zero d kids) w rest h = refl
step_back-Still a (node l s (suc n) d kids) w rest h =
    let (u, e) = h.1 in
    let flat = shift-Still u (kid-Still d kids h.2 e) in
    rw (step_back, e, flat, least (bad_shift a w rest)) refl
