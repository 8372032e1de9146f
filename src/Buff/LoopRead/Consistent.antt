-- ===== src/Buff/LoopRead/Consistent.antt =====
-- The map and the vector of `AdLRBuffer` hold the same pointers, and its operations are those of a
-- set.
use ad_rtb_adapter.Base.{
  ℕ, zero, suc, ◌<◌, ◌≡◌, ◌↔◌, refl, ap, sym, ◌∙◌, some, Bool, true, false, not, ◌&&◌, ◌||◌, List,
  [], ◌∷◌, ◌++◌, ◌==◌, length, length-append, get_elem?, arith, Bool-cases, inl, inr,
}
use ad_rtb_adapter.Buff.LoopRead.{
  Index, has, erase, nth, LoopRead, fresh, push, del, find, check, size, Change, added, removed,
  changes,
}
use ad_rtb_adapter.Buff.LoopRead.Map.{
  Above, Points, Known, has-insert, has-erase, has-renumber, Above-insert, Above-erase,
  Above-renumber, length-insert, length-renumber, get_elem?-end, Points-append, Points-insert,
  Points-renumber, Known-keys, Known-push,
}
use native.Mathlib.Nat.{mod-eq_of_lt}

pub record Consistent (b : LoopRead) : Type 0 where
  pub sorted : Above 0 b.index
  pub points : Points b.index b.buffer
  pub known : Known b.buffer b.index
  pub sized : length b.index ≡ length b.buffer

push-Consistent : (p : ℕ) (b : LoopRead) → Consistent b → Consistent (push p b)
push-Consistent p b h = elim (Bool-cases (has p b.index)) [
  | inl t ↦ rw t h
  | inr f ↦
      let more = length-append b.buffer (p ∷ []) in
      rw f (record {
        sorted = Above-insert 0 p (length b.buffer) b.index (omega arith) h.sorted;
        points =
            Points-insert p (length b.buffer) b.index (b.buffer ++ p ∷ [])
              (get_elem?-end b.buffer [] p) (Points-append b.index b.buffer (p ∷ []) h.points);
        known = Known-push b.buffer p (length b.buffer) b.index h.known;
        sized = omega (arith, more, h.sized, length-insert p (length b.buffer) b.index f);
      })
]

del-Consistent : (p : ℕ) (b : LoopRead) → Consistent b → Consistent (del p b)
del-Consistent p b h = elim (Bool-cases (has p b.index)) [
  | inl t ↦
      let m = erase p b.index in
      rw t (record {
        sorted = Above-renumber 0 0 m (Above-erase 0 p b.index h.sorted);
        points = Points-renumber 0 m [] refl;
        known = Known-keys 0 m;
        sized = length-renumber 0 m;
      })
  | inr f ↦ rw f h
]

check-push : (q p : ℕ) (b : LoopRead) → check q (push p b) ≡ (q == p) || check q b
check-push q p b = elim (Bool-cases (has p b.index)) [
  | inl t ↦ elim (Bool-cases (q == p)) [
    | inl e ↦ let same : q ≡ p = ground arith in rw (t, e, same) t
    | inr n ↦ rw (t, n) refl
  ]
  | inr f ↦ rw f (has-insert q p (length b.buffer) b.index)
]

check-del : (q p : ℕ) (b : LoopRead) → Consistent b → check q (del p b) ≡ not (q == p) && check q b
check-del q p b h = elim (Bool-cases (has p b.index)) [
  | inl t ↦ rw t (has-renumber q 0 (erase p b.index) ∙ has-erase q p 0 b.index h.sorted)
  | inr f ↦ elim (Bool-cases (q == p)) [
    | inl e ↦ let same : q ≡ p = ground arith in rw (f, e, same) f
    | inr n ↦ rw (f, n) refl
  ]
]

-- Whether a pointer is in after some changes: whether the last change of it, if any, added it.
abbrev pub stands : ℕ → List Change → Bool → Bool
stands q [] before = before
stands q (added p ∷ cs) before = stands q cs ((q == p) || before)
stands q (removed p ∷ cs) before = stands q cs (not (q == p) && before)

changes_lem : (cs : List Change) (b : LoopRead) → Consistent b → Consistent (changes cs b)
changes_lem [] b h = h
changes_lem (added p ∷ cs) b h = changes_lem cs (push p b) (push-Consistent p b h)
changes_lem (removed p ∷ cs) b h = changes_lem cs (del p b) (del-Consistent p b h)

check-changes :
    (q : ℕ) (cs : List Change) (b : LoopRead)
    → Consistent b
    → check q (changes cs b) ≡ stands q cs (check q b)
check-changes q [] b h = refl
check-changes q (added p ∷ cs) b h =
    check-changes q cs (push p b) (push-Consistent p b h) ∙ ap (stands q cs) (check-push q p b)
check-changes q (removed p ∷ cs) b h =
    check-changes q cs (del p b) (del-Consistent p b h) ∙ ap (stands q cs) (check-del q p b h)

-- After any pushes and deletions of a buffer that was constructed, `check` tells for every pointer
-- whether the last of them that concerns it was a push, and the map and the vector are consistent:
-- the keys go up, every key has the number of its place, every place has a key, and both have the
-- same size.
pub check-changes-fresh :
    (q : ℕ) (cs : List Change)
    → (check q (changes cs fresh) ≡ stands q cs false) × Consistent (changes cs fresh)
check-changes-fresh q cs =
    let start : Consistent fresh = record { sorted = tt; points = tt; known = tt; sized = refl } in
    (check-changes q cs fresh start, changes_lem cs fresh start)

get_elem?-lt : (xs : List ℕ) (i x : ℕ) → get_elem? xs i ≡ some x → i < length xs
get_elem?-lt [] i x h = absurd (ground (arith, h))
get_elem?-lt (y ∷ xs) zero x h = omega arith
get_elem?-lt (y ∷ xs) (suc i) x h = omega (arith, get_elem?-lt xs i x h)

Points-place :
    (p : ℕ) (m : Index) (b : List ℕ)
    → Points m b
    → has p m ≡ true
    → (i : ℕ) × (get_elem? b i ≡ some p)
Points-place p [] b h t = absurd (ground (arith, t))
Points-place p ((j, i) ∷ m) b h t = elim (Bool-cases (p == j)) [
  | inl e ↦ let same : p ≡ j = ground arith in (i, h.0 ∙ ap some (sym same))
  | inr n ↦ Points-place p m b h.1 (ground (arith, n, t))
]

Known-place :
    (p i : ℕ) (b : List ℕ) (m : Index) → Known b m → get_elem? b i ≡ some p → has p m ≡ true
Known-place p i [] m k e = absurd (ground (arith, e))
Known-place p zero (x ∷ b) m k e = ground (arith, k.0, e)
Known-place p (suc i) (x ∷ b) m k e = Known-place p i b m k.1 e

-- The reader's walk, below the size.
nth_lem : (i : ℕ) (xs : List ℕ) → i < length xs → nth i xs ≡ get_elem? xs i
nth_lem i [] h = absurd (omega arith)
nth_lem i (x ∷ xs) h = rw (mod-eq_of_lt h)

-- In a consistent buffer, the numbers below `size` reach exactly the pointers that `check` finds.
find_iff :
    (p : ℕ) (b : LoopRead)
    → Consistent b
    → (check p b ≡ true) ↔ ((id : ℕ) × (id < size b) × (find id b ≡ some p))
find_iff p b h = (
  λ t.
      let (i, e) = Points-place p b.index b.buffer h.points t in
      let lt = get_elem?-lt b.buffer i p e in
      (i, omega (arith, h.sized), nth_lem i b.buffer lt ∙ e),
  λ (i, lt, e).
      Known-place p i b.buffer b.index h.known
        (sym (nth_lem i b.buffer (omega (arith, h.sized))) ∙ e),
)
