-- ===== src/Buff/LoopRead.antt =====
-- `AdLRBuffer`: a set of pointers that readers walk through by number. The lock makes each operation
-- one step. Pointers are numbers.
mod Map
pub mod Consistent
use ad_rtb_adapter.Base.{
  ℕ, suc, ◌+◌, ◌%◌, Option, none, some, Bool, true, false, ◌||◌, List, [], ◌∷◌, ◌++◌, ltb, ◌==◌,
  if◌then◌else◌, length, get_elem?,
}

-- A `std::map<void *, UINT>`: the entries in the order of their keys.
abbrev pub Index : Type 0
Index = List (ℕ × ℕ)

-- `find(k) != end()`
abbrev pub has : ℕ → Index → Bool
has k [] = false
has k ((j, i) ∷ m) = (k == j) || has k m

-- `m[k] = v`
abbrev pub insert : ℕ → ℕ → Index → Index
insert k v [] = (k, v) ∷ []
insert k v ((j, i) ∷ m) =
    let rest = insert k v m in
    if ltb k j then (k, v) ∷ (j, i) ∷ m else if k == j then (j, v) ∷ m else (j, i) ∷ rest

abbrev pub erase : ℕ → Index → Index
erase k [] = []
erase k ((j, i) ∷ m) = let rest = erase k m in if k == j then m else (j, i) ∷ rest

-- The loop of `del`: the entries get the numbers from `n` on, and their keys are pushed back.
abbrev pub renumber : ℕ → Index → Index
renumber n [] = []
renumber n ((j, i) ∷ m) = (j, n) ∷ renumber (suc n) m

abbrev pub keys : Index → List ℕ
keys [] = []
keys ((j, i) ∷ m) = j ∷ keys m

-- `m_mBuffer` and `m_vBuffer`
pub record LoopRead : Type 0 where
  pub index : Index
  pub buffer : List ℕ

-- the constructor
abbrev pub fresh : LoopRead
fresh = record { index = []; buffer = [] }

abbrev pub push : ℕ → LoopRead → LoopRead
push p b =
    if has p b.index
    then b
    else record { index = insert p (length b.buffer) b.index; buffer = b.buffer ++ p ∷ [] }

abbrev pub del : ℕ → LoopRead → LoopRead
del p b =
    if has p b.index
    then record { index = renumber 0 (erase p b.index); buffer = keys (erase p b.index) }
    else b

-- `none` is NULL.
abbrev pub nth : ℕ → List ℕ → Option ℕ
nth id [] = none
nth id (x ∷ xs) = get_elem? (x ∷ xs) (id % length (x ∷ xs))

abbrev pub find : ℕ → LoopRead → Option ℕ
find id b = nth id b.buffer

abbrev pub check : ℕ → LoopRead → Bool
check p b = has p b.index

abbrev pub size : LoopRead → ℕ
size b = length b.index

-- A call that changes the buffer.
pub data Change : Type 0 where
  added : ℕ → Change
  removed : ℕ → Change

abbrev pub change : Change → LoopRead → LoopRead
change (added p) b = push p b
change (removed p) b = del p b

-- The changes, from the first on, of a buffer that was constructed.
abbrev pub changes : List Change → LoopRead → LoopRead
changes [] b = b
changes (c ∷ cs) b = changes cs (change c b)
