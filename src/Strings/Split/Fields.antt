-- ===== src/Strings/Split/Fields.antt =====
-- What `StrSplit` finds, against the fields of a line; and that its loop ends.
use ad_rtb_adapter.Base.{
  ℕ, zero, suc, ◌+◌, ◌<◌, ◌≡◌, ◌≢◌, refl, ap, ◌∙◌, true, false, Option, none, some, List, [], ◌∷◌,
  ◌++◌, length, is_empty, ◌==◌, if◌then◌else◌, arith, inl, inr, Bool-cases, Option-cases,
}
use ad_rtb_adapter.Strings.{Text}
use ad_rtb_adapter.Strings.Split.{among, skip, strip, cut, further, push, split_loop, str_split}

-- The first field and the others: a line of n separators has n + 1 fields.
abbrev pub fields : ℕ → Text → Text × List Text
fields c [] = ([], [])
fields c (x ∷ xs) =
    let rest = fields c xs in if c == x then ([], rest.0 ∷ rest.1) else (x ∷ rest.0, rest.1)

abbrev pub filled : List Text → List Text
filled [] = []
filled (f ∷ fs) = push f (filled fs)

abbrev pub pieces : ℕ → Text → List Text
pieces c s = let fs = fields c s in push fs.0 (filled fs.1)

strip_shorter : (sep s t : Text) → strip sep s ≡ some t → length s ≡ length sep + length t
strip_shorter [] s t h = ground (arith, h)
strip_shorter (x ∷ sep) [] t h = absurd (ground (arith, h))
strip_shorter (x ∷ sep) (y ∷ s) t h = ground (arith, h, strip_shorter sep s t)

cut_shorter : (sep s a b : Text) → sep ≢ [] → cut sep s ≡ some (a, b) → length b < length s
cut_shorter [] s a b n h = absurd (n refl)
cut_shorter (y ∷ sep) [] a b n h = absurd (ground (arith, h))
cut_shorter (y ∷ sep) (x ∷ xs) a b n h = elim (Option-cases (strip (y ∷ sep) (x ∷ xs))) [
  | inr (t, e) ↦ ground (arith, h, e, strip_shorter (y ∷ sep) (x ∷ xs) t e)
  | inl e ↦ elim (Option-cases (cut (y ∷ sep) xs)) [
    | inl f ↦ absurd (ground (arith, h, e, f))
    | inr ((p, q), f) ↦ ground (arith, h, e, f, cut_shorter (y ∷ sep) xs p q n f)
  ]
]

split_loop_ends :
    (n : ℕ) (sep s : Text)
    → sep ≢ []
    → length s < n
    → (ps : List Text) × (split_loop n sep s ≡ some ps)
split_loop_ends zero sep s ne h = absurd (omega (arith, h))
split_loop_ends (suc n) sep s ne h = elim (Option-cases (cut sep s)) [
  | inl e ↦ (push s [], rw (split_loop, e) refl)
  | inr ((a, b), e) ↦
      let (ps, f) = split_loop_ends n sep b ne (omega (arith, h, cut_shorter sep s a b ne e)) in
      (push a ps, rw (split_loop, e, f) refl)
]

-- For a separator that is not empty, `StrSplit` ends and returns a list.
pub str_split_ends : (sep str : Text) → sep ≢ [] → (ps : List Text) × (str_split sep str ≡ some ps)
unfolding str_split
str_split_ends sep str ne = elim (Bool-cases (is_empty (skip sep str))) [
  | inl e ↦ ([], rw e refl)
  | inr e ↦ rw e (split_loop_ends (length (skip sep str) + 1) sep (skip sep str) ne (omega arith))
]

-- A cut at one character is a cut behind the first field.
CutAt : ℕ → Text → Option (Text × Text) → Type 0
CutAt c s none = (fields c s ≡ (s, []))
CutAt c s (some (a, b)) =
    (fields c s ≡ (a, (fields c b).0 ∷ (fields c b).1)) × (length b < length s)

further-CutAt :
    (c x : ℕ) (xs : Text) (o : Option (Text × Text))
    → (c == x) ≡ false
    → CutAt c xs o
    → CutAt c (x ∷ xs) (further x o)
unfolding CutAt
further-CutAt c x xs none e h = rw (e, h) refl
further-CutAt c x xs (some (a, b)) e h = (rw (e, h.0) refl, omega (arith, h.1))

cut-CutAt : (c : ℕ) (s : Text) → CutAt c s (cut (c ∷ []) s)
unfolding CutAt
cut-CutAt c [] = refl
cut-CutAt c (x ∷ xs) = elim (Bool-cases (c == x)) [
  | inl e ↦ rw e (rw e refl, omega arith)
  | inr e ↦ rw e (further-CutAt c x xs (cut (c ∷ []) xs) e (cut-CutAt c xs))
]

split_loop-pieces :
    (n c : ℕ) (s : Text) → length s < n → split_loop n (c ∷ []) s ≡ some (pieces c s)
unfolding CutAt
split_loop-pieces zero c s h = absurd (omega (arith, h))
split_loop-pieces (suc n) c s h = elim (Option-cases (cut (c ∷ []) s)) [
  | inl e ↦ let at : fields c s ≡ (s, []) = rw e at (cut-CutAt c s) in rw (split_loop, e, at) refl
  | inr ((a, b), e) ↦
      let at : CutAt c s (some (a, b)) = rw e at (cut-CutAt c s) in
      rw (split_loop, e, at.0, split_loop-pieces n c b (omega (arith, h, at.1))) refl
]

pieces-skip : (c : ℕ) (s : Text) → pieces c (skip (c ∷ []) s) ≡ pieces c s
pieces-skip c [] = refl
pieces-skip c (x ∷ xs) = elim (Bool-cases (c == x)) [
  | inl e ↦ let e' : (x == c) ≡ true = ground arith in rw (e, e') (pieces-skip c xs)
  | inr e ↦ let e' : (x == c) ≡ false = ground arith in rw (e, e') (rw e refl)
]

empty_text : (s : Text) → is_empty s ≡ true → s ≡ []
empty_text [] h = refl
empty_text (x ∷ s) h = absurd (ground (arith, h))

-- For one character, `StrSplit` returns the fields of the line that are not empty.
pub str_split-pieces : (c : ℕ) (str : Text) → str_split (c ∷ []) str ≡ some (pieces c str)
unfolding str_split
str_split-pieces c str = elim (Bool-cases (is_empty (skip (c ∷ []) str))) [
  | inl e ↦
      let none_left : skip (c ∷ []) str ≡ [] = empty_text (skip (c ∷ []) str) e in
      rw (e, ← pieces-skip c str, none_left) refl
  | inr e ↦
      rw
        (
          e,
          split_loop-pieces (length (skip (c ∷ []) str) + 1) c (skip (c ∷ []) str) (omega arith),
          pieces-skip c str,
        )
        refl
]

-- The line that has `ps` as its fields.
abbrev pub join : ℕ → List Text → Text
join c [] = []
join c (p ∷ []) = p
join c (p ∷ q ∷ ps) = p ++ c ∷ join c (q ∷ ps)

-- Every piece is a text without `c` that is not empty.
abbrev pub Pieces : ℕ → List Text → Type 0
Pieces c [] = Unit
Pieces c (p ∷ ps) = (is_empty p ≡ false) × (among c p ≡ false) × Pieces c ps

fields-last : (c : ℕ) (p : Text) → among c p ≡ false → fields c p ≡ (p, [])
fields-last c [] h = refl
fields-last c (x ∷ p) h = elim (Bool-cases (c == x)) [
  | inl e ↦ absurd (ground (arith, h, e))
  | inr e ↦ let rest : fields c p ≡ (p, []) = fields-last c p (rw e at h) in rw (e, rest) refl
]

fields-append :
    (c : ℕ) (p s : Text)
    → among c p ≡ false
    → fields c (p ++ c ∷ s) ≡ (p, (fields c s).0 ∷ (fields c s).1)
fields-append c [] s h = let e : (c == c) ≡ true = ground arith in rw e refl
fields-append c (x ∷ p) s h = elim (Bool-cases (c == x)) [
  | inl e ↦ absurd (ground (arith, h, e))
  | inr e ↦ rw (e, fields-append c p s (rw e at h)) refl
]

pieces-join : (c : ℕ) (ps : List Text) → Pieces c ps → pieces c (join c ps) ≡ ps
pieces-join c [] h = refl
pieces-join c (p ∷ []) h = rw (fields-last c p h.1, h.0) refl
pieces-join c (p ∷ q ∷ ps) h =
    rw (fields-append c p (join c (q ∷ ps)) h.1, h.0) (ap (◌∷◌ p) (pieces-join c (q ∷ ps) h.2))

-- Texts that are not empty and free of the separator `c`, joined by `c`, are what `StrSplit` returns for
-- the line.
pub str_split-join :
    (c : ℕ) (ps : List Text) → Pieces c ps → str_split (c ∷ []) (join c ps) ≡ some ps
str_split-join c ps h = str_split-pieces c (join c ps) ∙ ap some (pieces-join c ps h)
