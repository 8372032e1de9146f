-- ===== src/Acbm.antt =====
-- `AdAcbm`: which of many patterns stand in a text. The tree of the patterns is the one of
-- `AdAcbmTreeAdd`; the shifts of its nodes and `m_iBCShift` are what `AdAcbmTreeBuild` would set.
-- `malloc` never returns NULL, and a `void *` is a number. Bytes are compared by the C locale.
pub mod Tags
pub mod Still
pub mod Kept
pub mod Naive
pub mod Search
pub mod Pushed
mod Tests
use ad_rtb_adapter.Base.{
  ℕ, zero, suc, ◌+◌, ◌-◌, Bool, true, false, ◌&&◌, Option, none, some, List, [], ◌∷◌, ◌++◌, length,
  get_or, drop, ltb, leb, ◌==◌, if◌then◌else◌, is_empty,
}
use ad_rtb_adapter.Base.Int.{ℤ, pos, negsuc, ◌+ℤ◌, ◌-ℤ◌, ltb_ℤ}
use ad_rtb_adapter.Strings.{Text}

-- `tolower`
abbrev pub lower : ℕ → ℕ
lower c = if leb b'A' c && leb c b'Z' then c + 32 else c

-- `ADACBMNODE_S`. The label is -2 at the root and -1 at a node where no pattern ends, else the number
-- of the pattern. `count` is `m_iChild`, `last` is `m_ucChild`. The cells of `m_pstChild` for a
-- capital and its small letter hold one pointer, so that the children are filed by small letters.
-- `m_iDepth`, `m_ucVal`, `m_pstParent` and the node's own `m_iBCShift` are written and never read.
mutual
  pub data Node : Type 0 where
    node : ℤ → ℤ → ℕ → ℕ → Children → Node

  pub data Children : Type 0 where
    nil : Children
    cons : ℕ → Node → Children → Children

abbrev pub label : Node → ℤ
label (node l s n c kids) = l

abbrev pub shift : Node → ℤ
shift (node l s n c kids) = s

abbrev pub kid : ℕ → Children → Option Node
kid c nil = none
kid c (cons d t kids) = let rest = kid c kids in if c == d then some t else rest

abbrev pub put_kid : ℕ → Node → Children → Children
put_kid c t nil = cons c t nil
put_kid c t (cons d u kids) =
    let rest = put_kid c t kids in if c == d then cons d t kids else cons d u rest

-- `m_pstChild[c]`, for the byte that `tolower` gives.
abbrev pub child : ℕ → Node → Option Node
child c (node l s n d kids) = kid c kids

-- A child that has changed, and a new one.
abbrev pub set_child : ℕ → Node → Node → Node
set_child c t (node l s n d kids) = node l s n d (put_kid c t kids)

abbrev pub new_child : ℕ → Node → Node → Node
new_child c t (node l s n d kids) = node l s (suc n) c (put_kid c t kids)

abbrev pub root_node : Node
root_node = node (negsuc 1) (pos 0) 0 0 nil

abbrev pub new_node : Node
new_node = node (negsuc 0) (pos 0) 0 0 nil

-- The last node takes the next label, if it has none.
abbrev pub set_label : ℕ → Node → Node
set_label n (node (pos l) s k c kids) = node (pos l) s k c kids
set_label n (node (negsuc l) s k c kids) = node (pos n) s k c kids

-- The two loops over the bytes of a pattern: along the nodes that there are, then new ones.
abbrev pub add : Text → ℕ → Node → Node
add [] n t = set_label n t
add (c ∷ cs) n t = elim (child (lower c) t) [
  | some u ↦ set_child (lower c) (add cs n u) t
  | none ↦ new_child (lower c) (add cs n new_node) t
]

-- The node at the end of a pattern.
abbrev pub reach : Text → Node → Option Node
reach [] t = some t
reach (c ∷ cs) t = elim (child (lower c) t) [ some u ↦ reach cs u | none ↦ none ]

abbrev pub tag_of : Option Node → Option ℕ
tag_of (some (node (pos l) s n c kids)) = some l
tag_of (some (node (negsuc l) s n c kids)) = none
tag_of none = none

-- A map from numbers to lists: `m[k].push_back(x)`, and the list under `k`. The order of the keys is
-- left open, since neither map is read in order.
module _ {A : Type 0} where
  abbrev pub push_at : ℕ → A → List (ℕ × List A) → List (ℕ × List A)
  push_at k x [] = (k, x ∷ []) ∷ []
  push_at k x ((j, xs) ∷ m) =
      let rest = push_at k x m in if k == j then (j, xs ++ x ∷ []) ∷ m else (j, xs) ∷ rest

  abbrev pub list_at : ℕ → List (ℕ × List A) → List A
  list_at k [] = []
  list_at k ((j, xs) ∷ m) = let rest = list_at k m in if k == j then xs else rest

-- `AdAcbmTree`. `bad` is `m_iBCShift`.
pub record Acbm : Type 0 where
  pub count : ℕ
  pub max_depth : ℕ
  pub min_size : ℕ
  pub bad : ℕ → ℤ
  pub root : Option Node
  pub strs : List Text
  pub owners : List (ℕ × List ℕ)

-- The constructor, which leaves `m_iBCShift` as the memory was.
abbrev pub init : (ℕ → ℤ) → Acbm
init bad = record {
  count = 0;
  max_depth = 0;
  min_size = 512;
  bad = bad;
  root = none;
  strs = [];
  owners = [];
}

-- `AdAcbmTree::clear`
abbrev pub clear : Acbm
clear = init (λ c. pos 0)

abbrev pub root_of : Option Node → Node
root_of none = root_node
root_of (some t) = t

-- The last lines of `AdAcbmTreeAdd`, for the label `old` that the node had.
abbrev pub next_count : Option ℕ → ℕ → ℕ
next_count (some l) n = n
next_count none n = n + 1

abbrev pub label_or : Option ℕ → ℕ → ℕ
label_or (some l) n = l
label_or none n = n

abbrev pub added : Text → ℕ → Acbm → Acbm
added s p a =
    let t = root_of a.root in
    let old = tag_of (reach s t) in
    record a {
      count = next_count old a.count;
      max_depth = if ltb a.max_depth (length s) then length s else a.max_depth;
      min_size = if ltb (length s) a.min_size then length s else a.min_size;
      root = some (add s a.count t);
      strs = a.strs ++ s ∷ [];
      owners = push_at (label_or old a.count) p a.owners;
    }

-- `AdAcbmTreeAdd`, and whether it succeeds.
abbrev pub tree_add : Text → ℕ → Acbm → Acbm × Bool
tree_add s p a = if is_empty s then (clear, false) else (added s p a, true)

-- A search's `mResult`, and `iMatch`.
pub record Found : Type 0 where
  pub matches : ℕ
  pub results : List (ℕ × List Text)

-- The loop over the data of a pattern.
abbrev pub push_all : List ℕ → Text → List (ℕ × List Text) → List (ℕ × List Text)
push_all [] s m = m
push_all (p ∷ ps) s m = push_all ps s (push_at p s m)

-- What is done at a node with a label.
abbrev pub hit : Acbm → Option ℕ → Found → Found
hit a none f = f
hit a (some l) f = record {
  matches = f.matches + 1;
  results = push_all (list_at l a.owners) (get_or a.strs l []) f.results;
}

-- The inner loop: the node where it ends, and the text behind it.
abbrev pub descend : Acbm → Node → Text → Found → Node × Text × Found
descend a t [] f = (t, [], f)
descend a t (c ∷ cs) f = elim (child (lower c) t) [
  | none ↦ (t, c ∷ cs, f)
  | some u ↦ descend a u cs (hit a (tag_of (some u)) f)
]

-- `iBCShift`, for the text from `iBase` on and the text from `iCur` on.
abbrev pub bad_shift : Acbm → Text → Text → ℤ
bad_shift a w [] = pos 1
bad_shift a w (c ∷ cs) = a.bad c -ℤ pos (length w - length (c ∷ cs))

-- `iShift`, which is 1 at least.
abbrev pub least_one : ℤ → ℕ
least_one (pos zero) = 1
least_one (pos (suc n)) = suc n
least_one (negsuc n) = 1

-- How far `iBase` goes back. `none` is a read through a NULL pointer.
abbrev pub step_back : Acbm → Node → Text → Text → Option ℕ
step_back a (node l s zero d kids) w rest = some 1
step_back a (node l s (suc n) d kids) w rest = elim (kid d kids) [
  | none ↦ none
  | some u ↦
      let bc = bad_shift a w rest in some (least_one (if ltb_ℤ bc (shift u) then bc else shift u))
]

-- The outer loop, for `iBase + 1`, which is 0 when `iBase` is negative.
unfoldable pub scan : ℕ → Acbm → Node → Text → ℕ → Found → Option Found
scan fuel a t text zero f = some f
scan zero a t text (suc base) f = none
scan (suc fuel) a t text (suc base) f =
    let w = drop base text in
    let (u, rest, g) = descend a t w f in
    elim (step_back a u w rest) [ none ↦ none | some s ↦ scan fuel a t text (suc base - s) g ]

-- The rounds are as many as the places in the text at most.
abbrev pub scan_root : Acbm → Option Node → Text → Found → Option Found
scan_root a none text f = none
scan_root a (some t) text f = scan (length text) a t text (suc (length text) - a.min_size) f

-- `AdAcbmSearch` into `m`
unfoldable pub search_text : Acbm → Text → List (ℕ × List Text) → Option Found
search_text a text m =
    let f : Found = record { matches = 0; results = m } in
    if ltb (length text) a.min_size then some f else scan_root a a.root text f
