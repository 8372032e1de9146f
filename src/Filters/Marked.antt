-- ===== src/Filters/Marked.antt =====
-- The filters that mark, one after another.
use ad_rtb_adapter.Base.{
  ℕ, ◌≡◌, refl, sym, ◌∙◌, ap, Bool, true, false, ◌&&◌, ◌||◌, none, List, [], ◌∷◌, ◌==◌, arith,
  Bool-cases, inl, inr,
}
use ad_rtb_adapter.Filters.Filed.{hits}
use ad_rtb_adapter.Filters.Keys.{ban_asked}
use ad_rtb_adapter.Filters.Kinds.{
  Kind, time, adexchange, pid, area, size, agent, operator, device, connect, flag, asked,
}
use ad_rtb_adapter.Filters.Kept.{erase_keys_none}
use ad_rtb_adapter.Filters.Looked.{Above, match_of, match_of-mark_keys, mark_keys-Above}
use ad_rtb_adapter.Filters.Marks.{Marks, word, shown, add, unmarked}
use ad_rtb_adapter.Filters.Parameter.{parameter}
use ad_rtb_adapter.Filters.Planning.{PlanningUnit}
use ad_rtb_adapter.Filters.Results.{Results, mark, mark_all, mark_keys, found}
use ad_rtb_adapter.Filters.Run.{
  Filters, kinds, none_left, run_filters, mark_kind, ban_match, marking,
}
use ad_rtb_adapter.Filters.Table.{Table, find}
use ad_rtb_adapter.Protocol.Request.{Request}
use ad_rtb_adapter.Strings.{Text, Libc}

-- A mark is never taken back.
mark_left : (flag id : ℕ) (r : Results) → none_left (mark flag id r) ≡ false
mark_left flag id [] = refl
mark_left flag id (e ∷ r) = ground arith

mark_all_left :
    (flag : ℕ) (ids : List ℕ) (r : Results)
    → none_left r ≡ false
    → none_left (mark_all flag ids r) ≡ false
mark_all_left flag [] r h = h
mark_all_left flag (id ∷ ids) r h = mark_all_left flag ids (mark flag id r) (mark_left flag id r)

mark_keys_left :
    (flag : ℕ) (qs : List Text) (t : Table) (r : Results)
    → none_left r ≡ false
    → none_left (mark_keys flag qs t r) ≡ false
mark_keys_left flag [] t r h = h
mark_keys_left flag (q ∷ qs) t r h =
    mark_keys_left flag qs t (mark_all flag (found (find q t)) r)
      (mark_all_left flag (found (find q t)) r h)

pub nothing : (r : Results) → none_left r ≡ true → r ≡ []
nothing [] h = refl
nothing (e ∷ r) h = absurd (ground (arith, h))

pub no_marks : none ≡ shown (λ k. false)
unfolding word
no_marks = refl

zero_word : (m : Marks) → shown m ≡ none → (word m == 0) ≡ true
zero_word m h = ground (arith, h)

module _ (c : Libc) (us : List PlanningUnit) (f : Filters) (now : Text) (q : Request) where
  abbrev pub marked : List Kind → Results → Results
  marked [] r = r
  marked (k ∷ ks) r = marked ks (mark_kind c f now q k r)

  pub run_marking :
      (ks : List Kind) (later : List (Results → Results)) (r : Results)
      → none_left r ≡ false
      → run_filters (marking c f now q ks later) r ≡ run_filters later (marked ks r)
  run_marking [] later r h = refl
  run_marking (k ∷ ks) later r h =
      let left = mark_keys_left (flag k) (asked c k now q) (f.tables k) r h in
      rw left (run_marking ks later (mark_kind c f now q k r) left)

  pub run_last :
      (r : Results)
      → run_filters (parameter c us q ∷ ban_match c f q ∷ []) r
        ≡ ban_match c f q (parameter c us q r)
  run_last r = elim (Bool-cases (none_left (parameter c us q r))) [
    | inl e ↦
        let gone : parameter c us q r ≡ [] = nothing (parameter c us q r) e in
        rw gone (sym (erase_keys_none (ban_asked c q) f.ban))
    | inr e ↦ rw e (ground arith)
  ]

  abbrev pub hit : ℕ → Marks
  hit i k = hits i (asked c k now q) (f.tables k)

  abbrev pub marks_of : ℕ → List Kind → Marks → Marks
  marks_of i [] m = m
  marks_of i (k ∷ ks) m = marks_of i ks (add k (hit i k) m)

  pub marked-Above : (ks : List Kind) (r : Results) → Above 0 r → Above 0 (marked ks r)
  marked-Above [] r a = a
  marked-Above (k ∷ ks) r a =
      marked-Above ks (mark_kind c f now q k r)
        (mark_keys-Above 0 k (asked c k now q) (f.tables k) r a)

  pub match_of-marked :
      (i : ℕ) (ks : List Kind) (m : Marks) (r : Results)
      → Above 0 r
      → match_of i r ≡ shown m
      → match_of i (marked ks r) ≡ shown (marks_of i ks m)
  match_of-marked i [] m r a h = h
  match_of-marked i (k ∷ ks) m r a h =
      match_of-marked i ks (add k (hit i k) m) (mark_kind c f now q k r)
        (mark_keys-Above i k (asked c k now q) (f.tables k) r a)
        (match_of-mark_keys i k m (asked c k now q) (f.tables k) r a h)

  and_false : (b : Bool) → b && false ≡ false
  and_false b = ground arith

  and_true : (b : Bool) → b && true ≡ b
  and_true b = ground arith

  or_false : (b : Bool) → b || false ≡ b
  or_false b = ground arith

  all_marks_at : (i : ℕ) (k : Kind) → marks_of i kinds (λ k. false) k ≡ hit i k
  all_marks_at i time = simp (and_false, and_true, or_false)
  all_marks_at i adexchange = simp (and_false, and_true, or_false)
  all_marks_at i pid = simp (and_false, and_true, or_false)
  all_marks_at i area = simp (and_false, and_true, or_false)
  all_marks_at i size = simp (and_false, and_true, or_false)
  all_marks_at i agent = simp (and_false, and_true, or_false)
  all_marks_at i operator = simp (and_false, and_true, or_false)
  all_marks_at i device = simp (and_false, and_true, or_false)
  all_marks_at i connect = simp (and_false, and_true, or_false)

  pub all_marks : (i : ℕ) → marks_of i kinds (λ k. false) ≡ hit i
  all_marks i = λ x k. all_marks_at i k x

  pub first_marks : (i : ℕ) → none_left (mark_kind c f now q time []) ≡ true → hit i time ≡ false
  first_marks i e =
      let gone : mark_kind c f now q time [] ≡ [] = nothing (mark_kind c f now q time []) e in
      let shows =
        match_of-mark_keys i time (λ k. false) (asked c time now q) (f.tables time) [] tt
          no_marks in
      let no_word : (word (add time (hit i time) (λ k. false)) == 0) ≡ true =
        zero_word (add time (hit i time) (λ k. false)) (sym shows ∙ ap (match_of i) gone) in
      only (hit i time) (unmarked (add time (hit i time) (λ k. false)) no_word)
    where
      only : (b : Bool) → (b && true) || false ≡ false → b ≡ false
      only b h = ground (arith, h)
