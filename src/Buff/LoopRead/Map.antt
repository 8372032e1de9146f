-- ===== src/Buff/LoopRead/Map.antt =====
-- The ordered map of `AdLRBuffer`.
use ad_rtb_adapter.Base.{
  ℕ, zero, suc, ◌≤◌, ◌<◌, ◌≡◌, refl, ap, ◌∙◌, some, true, false, not, ◌&&◌, ◌||◌, List, [], ◌∷◌,
  ◌++◌, ltb, ◌==◌, length, length-append, get_elem?, arith, Bool-cases, inl, inr, append_assoc,
}
use ad_rtb_adapter.Buff.LoopRead.{Index, has, insert, erase, renumber, keys}

-- The keys go up, from `lo` on.
abbrev pub Above : ℕ → Index → Type 0
Above lo [] = Unit
Above lo ((j, i) ∷ m) = (lo ≤ j) × Above (suc j) m

-- Every entry has the place of its key in the buffer.
abbrev pub Points : Index → List ℕ → Type 0
Points [] b = Unit
Points ((j, i) ∷ m) b = (get_elem? b i ≡ some j) × Points m b

-- Every pointer of the buffer is a key.
abbrev pub Known : List ℕ → Index → Type 0
Known [] m = Unit
Known (k ∷ b) m = (has k m ≡ true) × Known b m

pub has-insert : (q k v : ℕ) (m : Index) → has q (insert k v m) ≡ (q == k) || has q m
has-insert q k v [] = refl
has-insert q k v ((j, i) ∷ m) = ground (arith, has-insert q k v m)

weaken : (lo hi : ℕ) (m : Index) → lo ≤ hi → Above hi m → Above lo m
weaken lo hi [] h a = tt
weaken lo hi ((j, i) ∷ m) h a = (omega (arith, a.0), a.1)

has-Above : (k lo : ℕ) (m : Index) → k < lo → Above lo m → has k m ≡ false
has-Above k lo [] h a = refl
has-Above k lo ((j, i) ∷ m) h a =
    ground (arith, a.0, has-Above k (suc j) m (omega (arith, a.0)) a.1)

pub Above-insert : (lo k v : ℕ) (m : Index) → lo ≤ k → Above lo m → Above lo (insert k v m)
Above-insert lo k v [] h a = (h, tt)
Above-insert lo k v ((j, i) ∷ m) h a = elim (Bool-cases (ltb k j)) [
  | inl t ↦ rw t (h, weaken (suc k) j ((j, i) ∷ m) (ground arith) (omega arith, a.1))
  | inr f ↦ elim (Bool-cases (k == j)) [
    | inl t ↦ rw (f, t) a
    | inr g ↦ rw (f, g) (a.0, Above-insert (suc j) k v m (ground arith) a.1)
  ]
]

pub Above-erase : (lo k : ℕ) (m : Index) → Above lo m → Above lo (erase k m)
Above-erase lo k [] a = tt
Above-erase lo k ((j, i) ∷ m) a = elim (Bool-cases (k == j)) [
  | inl t ↦ rw t (weaken lo (suc j) m (omega (arith, a.0)) a.1)
  | inr f ↦ rw f (a.0, Above-erase (suc j) k m a.1)
]

pub has-erase : (q k lo : ℕ) (m : Index) → Above lo m → has q (erase k m) ≡ not (q == k) && has q m
has-erase q k lo [] a = ground arith
has-erase q k lo ((j, i) ∷ m) a = elim (Bool-cases (k == j)) [
  | inl t ↦
      let gone = has-Above k (suc j) m (ground arith) a.1 in
      elim (Bool-cases (q == k)) [
        | inl e ↦ let same : q ≡ k = ground arith in rw (t, e, same) gone
        | inr n ↦ let other : (q == j) ≡ false = ground arith in rw (t, n, other) refl
      ]
  | inr f ↦ rw f (ground (arith, has-erase q k (suc j) m a.1))
]

pub length-insert : (k v : ℕ) (m : Index) → has k m ≡ false → length (insert k v m) ≡ suc (length m)
length-insert k v [] h = refl
length-insert k v ((j, i) ∷ m) h = ground (arith, length-insert k v m)

pub has-renumber : (q n : ℕ) (m : Index) → has q (renumber n m) ≡ has q m
has-renumber q n [] = refl
has-renumber q n ((j, i) ∷ m) = rw (has-renumber q (suc n) m)

pub Above-renumber : (lo n : ℕ) (m : Index) → Above lo m → Above lo (renumber n m)
Above-renumber lo n [] a = tt
Above-renumber lo n ((j, i) ∷ m) a = (a.0, Above-renumber (suc j) (suc n) m a.1)

pub length-renumber : (n : ℕ) (m : Index) → length (renumber n m) ≡ length (keys m)
length-renumber n [] = refl
length-renumber n ((j, i) ∷ m) = ap suc (length-renumber (suc n) m)

pub get_elem?-append :
    (b c : List ℕ) (i x : ℕ) → get_elem? b i ≡ some x → get_elem? (b ++ c) i ≡ some x
get_elem?-append [] c i x h = absurd (ground (arith, h))
get_elem?-append (y ∷ b) c zero x h = h
get_elem?-append (y ∷ b) c (suc i) x h = get_elem?-append b c i x h

pub get_elem?-end : (b c : List ℕ) (x : ℕ) → get_elem? (b ++ x ∷ c) (length b) ≡ some x
get_elem?-end [] c x = refl
get_elem?-end (y ∷ b) c x = get_elem?-end b c x

pub Points-append : (m : Index) (b c : List ℕ) → Points m b → Points m (b ++ c)
Points-append [] b c p = tt
Points-append ((j, i) ∷ m) b c p = (get_elem?-append b c i j p.0, Points-append m b c p.1)

pub Points-insert :
    (k v : ℕ) (m : Index) (b : List ℕ)
    → get_elem? b v ≡ some k
    → Points m b
    → Points (insert k v m) b
Points-insert k v [] b h p = (h, tt)
Points-insert k v ((j, i) ∷ m) b h p = elim (Bool-cases (ltb k j)) [
  | inl t ↦ rw t (h, p)
  | inr f ↦ elim (Bool-cases (k == j)) [
    | inl t ↦ let same : k ≡ j = ground arith in rw (f, t) (h ∙ ap some same, p.1)
    | inr g ↦ rw (f, g) (p.0, Points-insert k v m b h p.1)
  ]
]

pub Points-renumber :
    (n : ℕ) (m : Index) (front : List ℕ)
    → n ≡ length front
    → Points (renumber n m) (front ++ keys m)
Points-renumber n [] front e = tt
Points-renumber n ((j, i) ∷ m) front e = (
  rw e (get_elem?-end front (keys m) j),
  rw (append_assoc front (j ∷ []) (keys m)) at
      (Points-renumber (suc n) m (front ++ j ∷ []) (omega (arith, length-append front (j ∷ [])))),
)

Known-cons : (b : List ℕ) (j i : ℕ) (m : Index) → Known b m → Known b ((j, i) ∷ m)
Known-cons [] j i m k = tt
Known-cons (x ∷ b) j i m k = (ground (arith, k.0), Known-cons b j i m k.1)

pub Known-keys : (n : ℕ) (m : Index) → Known (keys m) (renumber n m)
Known-keys n [] = tt
Known-keys n ((j, i) ∷ m) = (ground arith, Known-cons (keys m) j n _ (Known-keys (suc n) m))

pub Known-push : (b : List ℕ) (k v : ℕ) (m : Index) → Known b m → Known (b ++ k ∷ []) (insert k v m)
Known-push [] k v m h = (ground (arith, has-insert k k v m), tt)
Known-push (x ∷ b) k v m h = (ground (arith, has-insert x k v m, h.0), Known-push b k v m h.1)
