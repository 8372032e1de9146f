-- ===== src/Acbm/Pushed.antt =====
-- The lists in a search's results are never empty.
use ad_rtb_adapter.Base.{
  nothing, subst, ℕ, zero, suc, ◌-◌, ◌≡◌, refl, ap, ◌∙◌, sym, false, Option, none, some, List, [],
  ◌∷◌, ◌++◌, length, drop, get_or, ltb, ◌==◌, Bool-cases, Option-cases, inl, inr, arith,
}
use mathlib.Core.Option.{some-injective, none-ne-some}
use ad_rtb_adapter.Acbm.{
  Acbm, Node, Found, lower, child, list_at, push_at, push_all, hit, tag_of, descend, step_back,
  scan, scan_root, search_text,
}
use ad_rtb_adapter.Acbm.Search.{descend-none, descend-some, search_none, search_some}
use ad_rtb_adapter.Strings.{Text}

abbrev pub Pushed : List (ℕ × List Text) → Type 0
Pushed [] = Unit {0}
Pushed ((p, strs) ∷ m) = (nothing strs ≡ false) × Pushed m

nothing-snoc : (l : List Text) (s : Text) → nothing (l ++ s ∷ []) ≡ false
nothing-snoc [] s = refl
nothing-snoc (x ∷ l) s = refl

push_at-Pushed : (p : ℕ) (s : Text) (m : List (ℕ × List Text)) → Pushed m → Pushed (push_at p s m)
push_at-Pushed p s [] h = (refl, tt)
push_at-Pushed p s ((q, strs) ∷ m) h = elim (Bool-cases (p == q)) [
  | inl e ↦ rw e (nothing-snoc strs s, h.1)
  | inr e ↦ rw e (h.0, push_at-Pushed p s m h.1)
]

push_all-Pushed :
    (ps : List ℕ) (s : Text) (m : List (ℕ × List Text)) → Pushed m → Pushed (push_all ps s m)
push_all-Pushed [] s m h = h
push_all-Pushed (p ∷ ps) s m h = push_all-Pushed ps s (push_at p s m) (push_at-Pushed p s m h)

module _ (a : Acbm) where
  hit-Pushed : (o : Option ℕ) (f : Found) → Pushed f.results → Pushed (hit a o f).results
  hit-Pushed none f h = h
  hit-Pushed (some l) f h = push_all-Pushed (list_at l a.owners) (get_or a.strs l []) f.results h

  descend-Pushed :
      (t : Node) (w : Text) (f : Found) → Pushed f.results → Pushed (descend a t w f).2.results
  descend-Pushed t [] f h = h
  descend-Pushed t (c ∷ w) f h = elim (Option-cases (child (lower c) t)) [
    | inl e ↦ rw (descend-none a t c w f e) h
    | inr (u, e) ↦
        rw (descend-some a t c w f e)
          (descend-Pushed u w (hit a (tag_of (some u)) f) (hit-Pushed (tag_of (some u)) f h))
  ]

  scan-stuck :
      (fuel base : ℕ) (t : Node) (text : Text) (f : Found)
      → step_back a
          (descend a t (drop base text) f).0
          (drop base text)
          (descend a t (drop base text) f).1
        ≡ none
      → scan (suc fuel) a t text (suc base) f ≡ none
  unfolding scan
  scan-stuck fuel base t text f e = rw (e, scan) refl

  scan-back :
      (fuel base : ℕ) (t : Node) (text : Text) (f : Found) {s : ℕ}
      → step_back a
          (descend a t (drop base text) f).0
          (drop base text)
          (descend a t (drop base text) f).1
        ≡ some s
      → scan (suc fuel) a t text (suc base) f
        ≡ scan fuel a t text (suc base - s) (descend a t (drop base text) f).2
  unfolding scan
  scan-back fuel base t text f e = rw (e, scan) refl

  scan-Pushed :
      (fuel base : ℕ) (t : Node) (text : Text) (f g : Found)
      → scan fuel a t text base f ≡ some g
      → Pushed f.results
      → Pushed g.results
  unfolding scan
  scan-Pushed zero zero t text f g e h =
      subst (λ (x : Found). Pushed x.results) (some-injective f g e) h
  scan-Pushed (suc fuel) zero t text f g e h =
      subst (λ (x : Found). Pushed x.results) (some-injective f g e) h
  scan-Pushed zero (suc base) t text f g e h = absurd (ground (arith, e))
  scan-Pushed (suc fuel) (suc base) t text f g e h =
      let d = descend a t (drop base text) f in
      elim (Option-cases (step_back a d.0 (drop base text) d.1)) [
        | inl stuck ↦ absurd (none-ne-some g (sym (scan-stuck fuel base t text f stuck) ∙ e))
        | inr (s, back) ↦
            scan-Pushed fuel (suc base - s) t text d.2 g
              (sym (scan-back fuel base t text f back) ∙ e) (descend-Pushed t (drop base text) f h)
      ]

  pub search_text-Pushed :
      (text : Text) (m : List (ℕ × List Text)) (g : Found)
      → search_text a text m ≡ some g
      → Pushed m
      → Pushed g.results
  search_text-Pushed text m g e h = elim (Bool-cases (ltb (length text) a.min_size)) [
    | inl short ↦
        let start : Found = record { matches = 0; results = m } in
        subst (λ (x : Found). Pushed x.results)
          (some-injective start g (sym (search_none a text m short) ∙ e)) h
    | inr long ↦
        let start : Found = record { matches = 0; results = m } in
        let run = sym (search_some a text m long) ∙ e in
        let root = λ (o : Option Node) (r : a.root ≡ o).
          ap (λ (x : Option Node). scan_root a x text start) (sym r) ∙ run in
        elim (Option-cases a.root) [
          | inl r ↦ absurd (none-ne-some g (root none r))
          | inr (t, r) ↦
              scan-Pushed (length text) (suc (length text) - a.min_size) t text start g
                (root (some t) r) h
        ]
  ]
