-- ===== src/Filters/Mark/KeyWords.antt =====
-- The key words that a filter holds after an update, and what a search finds of them.
use ad_rtb_adapter.Base.{
  leb, ℕ, zero, suc, ◌+◌, ◌≡◌, refl, sym, ap, ◌∙◌, subst, Bool, true, false, ◌||◌, List, [], ◌∷◌,
  ◌++◌, length, drop, append_assoc, append-nil, is_empty, arith, Bool-cases, inl, inr,
}
use ad_rtb_adapter.Base.Int.{ℤ}
use ad_rtb_adapter.Acbm.{added}
use ad_rtb_adapter.Acbm.Kept.{Patterns, tree_of, AllFilled, tree_add-filled}
use ad_rtb_adapter.Acbm.Naive.{starts}
use ad_rtb_adapter.Filters.Mark.{
  Mark, MarkInfo, AudienceInfo, get_str, add_marks, with_entry, add_entries, add_node, add_nodes,
  start_lengths, add_audience, base_info, mark_add, mark_add_all, new_filter,
}
use ad_rtb_adapter.Filters.Planning.{PlanningUnit, MarkNode, AudienceNode}
use ad_rtb_adapter.Filters.Table.{Table}
use ad_rtb_adapter.Strings.{Text}

-- A pattern stands at one of the first `n` places of a text, or at any, with capitals and small
-- letters taken as equal.
abbrev pub stands_before : Text → Text → ℕ → Bool
stands_before s text zero = false
stands_before s text (suc n) = starts s (drop n text) || stands_before s text n

abbrev pub stands_in : Text → Text → Bool
stands_in s text = stands_before s text (length text)

-- The key words of the units, in the order in which an update files them.
abbrev pub unit_marks : ℕ → List MarkNode → List MarkInfo
unit_marks id [] = []
unit_marks id (k ∷ ks) = (record { type = k.type; key = get_str k.key; id = id }) ∷ unit_marks id ks

abbrev pub all_marks : List PlanningUnit → List MarkInfo
all_marks [] = []
all_marks (u ∷ us) = unit_marks u.execute_id u.key_words ++ all_marks us

-- Something is left of every key word without its stars and its protocol.
abbrev pub FilledKeys : List MarkNode → Type 0
FilledKeys [] = Unit {0}
FilledKeys (k ∷ ks) = (is_empty (get_str k.key) ≡ false) × FilledKeys ks

abbrev pub AllFilledKeys : List PlanningUnit → Type 0
AllFilledKeys [] = Unit {0}
AllFilledKeys (u ∷ us) = FilledKeys u.key_words × AllFilledKeys us

-- The key words as patterns, each with its number, from `n` on.
abbrev pub numbered : ℕ → List MarkInfo → Patterns
numbered n [] = []
numbered n (k ∷ ks) = numbered (suc n) ks ++ (k.key, n) ∷ []

numbered-snoc :
    (n : ℕ) (ks : List MarkInfo) (k : MarkInfo)
    → numbered n (ks ++ k ∷ []) ≡ (k.key, n + length ks) ∷ numbered n ks
numbered-snoc n [] k = ap (λ (i : ℕ). (k.key, i) ∷ []) (omega arith)
numbered-snoc n (j ∷ ks) k =
    let e : suc n + length ks ≡ n + suc (length ks) = omega arith in
    rw (numbered-snoc (suc n) ks k, e) refl

-- The filter's tree is the one of its key words.
abbrev pub Filed : (ℕ → ℤ) → Mark → Type 0
Filed bad f = (f.acbm ≡ tree_of bad (numbered 0 f.marks)) × AllFilled (numbered 0 f.marks)

abbrev with_mark : ℕ → MarkNode → Mark → Mark
with_mark id k m = record m {
  acbm = added (get_str k.key) (length m.marks) m.acbm;
  marks = m.marks ++ (record { type = k.type; key = get_str k.key; id = id }) ∷ [];
}

add_marks-cons :
    (id : ℕ) (k : MarkNode) (ks : List MarkNode) (m : Mark)
    → is_empty (get_str k.key) ≡ false
    → add_marks id (k ∷ ks) m ≡ add_marks id ks (with_mark id k m)
add_marks-cons id k ks m h = ground (arith, h)

with_mark-Filed :
    (bad : ℕ → ℤ) (id : ℕ) (k : MarkNode) (m : Mark)
    → is_empty (get_str k.key) ≡ false
    → Filed bad m
    → Filed bad (with_mark id k m)
with_mark-Filed bad id k m h e =
    let info : MarkInfo = record { type = k.type; key = get_str k.key; id = id } in
    let at : (get_str k.key, 0 + length m.marks) ∷ numbered 0 m.marks
        ≡ (get_str k.key, length m.marks) ∷ numbered 0 m.marks =
      ap (λ (i : ℕ). (get_str k.key, i) ∷ numbered 0 m.marks) (omega arith) in
    let ps = sym (numbered-snoc 0 m.marks info ∙ at) in
    (
      ap (added (get_str k.key) (length m.marks)) e.0
          ∙ sym (
              tree_add-filled (get_str k.key) (length m.marks) (tree_of bad (numbered 0 m.marks)) h)
          ∙ ap (tree_of bad) ps,
      subst AllFilled ps (h, e.1),
    )

-- The loop over a unit's key words succeeds.
add_marks-filled :
    (bad : ℕ → ℤ) (id : ℕ) (ks : List MarkNode) (m : Mark)
    → FilledKeys ks
    → Filed bad m
    → ((add_marks id ks m).1 ≡ true)
      × ((add_marks id ks m).0.marks ≡ m.marks ++ unit_marks id ks)
      × Filed bad (add_marks id ks m).0
add_marks-filled bad id [] m h e = (refl, sym (append-nil m.marks), e)
add_marks-filled bad id (k ∷ ks) m h e =
    let info : MarkInfo = record { type = k.type; key = get_str k.key; id = id } in
    let (ok, marks, filed) =
      add_marks-filled bad id ks (with_mark id k m) h.1 (with_mark-Filed bad id k m h.0 e) in
    rw (add_marks-cons id k ks m h.0)
      (ok, marks ∙ append_assoc m.marks (info ∷ []) (unit_marks id ks), filed)

-- The audiences leave the key words alone.
record Alike (f g : Mark) : Type 0 where
  acbm : f.acbm ≡ g.acbm
  marks : f.marks ≡ g.marks

add_entries-Alike :
    (bit : ℕ → AudienceInfo → AudienceInfo) (base : AudienceInfo) (i : ℕ) (es : List (Text × ℕ))
    (m : Mark)
    → Alike (add_entries bit base i es m) m
add_entries-Alike bit base i [] m = record { acbm = refl; marks = refl }
add_entries-Alike bit base i ((s, t) ∷ es) m = elim (Bool-cases (leb 32 i)) [
  | inl h ↦ rw h (record { acbm = refl; marks = refl })
  | inr h ↦
      let rest = add_entries-Alike bit base (suc i) es (with_entry bit base i s t m) in
      rw h (record { acbm = rest.acbm; marks = rest.marks })
]

Alike-trans : {f g h : Mark} → Alike f g → Alike g h → Alike f h
Alike-trans a b = record { acbm = a.acbm ∙ b.acbm; marks = a.marks ∙ b.marks }

add_node-Alike : (id : ℕ) (n : AudienceNode) (m : Mark) → Alike (add_node id n m) m
add_node-Alike id n m =
    let base = base_info id n in
    let m1 = add_entries (λ b x. record x { search_match = b }) base 0 n.search m in
    let m2 = add_entries (λ b x. record x { visit_match = b }) base 0 n.visit m1 in
    Alike-trans (add_entries-Alike (λ b x. record x { un_visit_match = b }) base 0 n.un_visit m2) (
      Alike-trans (add_entries-Alike (λ b x. record x { visit_match = b }) base 0 n.visit m1)
        (add_entries-Alike (λ b x. record x { search_match = b }) base 0 n.search m))

add_nodes-Alike : (id : ℕ) (ns : List AudienceNode) (m : Mark) → Alike (add_nodes id ns m) m
add_nodes-Alike id [] m = record { acbm = refl; marks = refl }
add_nodes-Alike id (n ∷ ns) m =
    Alike-trans (add_nodes-Alike id ns (add_node id n m)) (add_node-Alike id n m)

start_lengths-Alike : (t : Table) (m : Mark) → Alike (start_lengths t m) m
start_lengths-Alike [] m = record { acbm = refl; marks = refl }
start_lengths-Alike (e ∷ t) m = record { acbm = refl; marks = refl }

Filed-Alike : (bad : ℕ → ℤ) (f g : Mark) → Alike f g → Filed bad g → Filed bad f
Filed-Alike bad f g k h = (
  k.acbm ∙ h.0 ∙ ap (λ (ks : List MarkInfo). tree_of bad (numbered 0 ks)) (sym k.marks),
  subst (λ (ks : List MarkInfo). AllFilled (numbered 0 ks)) (sym k.marks) h.1,
)

mark_add-filled :
    (bad : ℕ → ℤ) (u : PlanningUnit) (m : Mark)
    → FilledKeys u.key_words
    → Filed bad m
    → ((mark_add u m).0.marks ≡ m.marks ++ unit_marks u.execute_id u.key_words)
      × Filed bad (mark_add u m).0
unfolding mark_add
mark_add-filled bad u m h e =
    let (ok, marks, filed) = add_marks-filled bad u.execute_id u.key_words m h e in
    let m' = (add_marks u.execute_id u.key_words m).0 in
    let same =
      Alike-trans (add_nodes-Alike u.execute_id u.audience (start_lengths m'.table m'))
        (start_lengths-Alike m'.table m') in
    rw ok
      (same.marks ∙ marks, Filed-Alike bad (add_audience u.execute_id u.audience m') m' same filed)

mark_add_all-filled :
    (bad : ℕ → ℤ) (us : List PlanningUnit) (m : Mark)
    → AllFilledKeys us
    → Filed bad m
    → ((mark_add_all us m).marks ≡ m.marks ++ all_marks us) × Filed bad (mark_add_all us m)
unfolding mark_add_all
mark_add_all-filled bad [] m h e = (sym (append-nil m.marks), e)
mark_add_all-filled bad (u ∷ us) m h e =
    let (marks, filed) = mark_add-filled bad u m h.0 e in
    let (marks', filed') = mark_add_all-filled bad us (mark_add u m).0 h.1 filed in
    (
      marks'
          ∙ ap (λ (l : List MarkInfo). l ++ all_marks us) marks
          ∙ append_assoc m.marks (unit_marks u.execute_id u.key_words) (all_marks us),
      filed',
    )

-- After an update the filter holds the key words of the units, and its tree is theirs.
pub updated-Filed :
    (bad : ℕ → ℤ) (lo hi : ℕ) (us : List PlanningUnit)
    → AllFilledKeys us
    → ((mark_add_all us (new_filter bad lo hi)).marks ≡ all_marks us)
      × Filed bad (mark_add_all us (new_filter bad lo hi))
updated-Filed bad lo hi us h = mark_add_all-filled bad us (new_filter bad lo hi) h (refl, tt)
