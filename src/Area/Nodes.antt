-- ===== src/Area/Nodes.antt =====
-- The nodes of the tree, and the list of those that `Clear` deletes.
use ad_rtb_adapter.Base.{
  ℕ, zero, suc, ◌+◌, ◌≡◌, refl, subst, some, Bool, List, [], ◌∷◌, ltb, arith, Bool-cases, inl, inr,
}
use mathlib.Core.Option.{some-injective}
use ad_rtb_adapter.Area.{
  Text, Names, Tree, null, node, IpArea, bit, add, new_node, created, depth, add_tree, Row,
  Attribute, read_attributes, names_of_row, init,
}

abbrev pub nodes_of : Tree → ℕ
nodes_of null = 0
nodes_of (node l r w) = suc (nodes_of l + nodes_of r)

nodes_of-add :
    (b : ℕ → Bool) (i n : ℕ) (v : Names) (t : Tree)
    → nodes_of (add b i n v t) ≡ new_node t + created b i n t + nodes_of t
nodes_of-add b i zero v null = omega arith
nodes_of-add b i zero v (node l r w) = omega arith
nodes_of-add b i (suc n) v null = elim (Bool-cases (b i)) [
  | inl t ↦ rw t (omega (arith, nodes_of-add b (suc i) n v null))
  | inr f ↦ rw f (omega (arith, nodes_of-add b (suc i) n v null))
]
nodes_of-add b i (suc n) v (node l r w) = elim (Bool-cases (b i)) [
  | inl t ↦ rw t (omega (arith, nodes_of-add b (suc i) n v r))
  | inr f ↦ rw f (omega (arith, nodes_of-add b (suc i) n v l))
]

new_node-add : (b : ℕ → Bool) (i n : ℕ) (v : Names) (t : Tree) → new_node (add b i n v t) ≡ 0
new_node-add b i zero v null = refl
new_node-add b i zero v (node l r w) = refl
new_node-add b i (suc n) v null = elim (Bool-cases (b i)) [ inl t ↦ rw t refl | inr f ↦ rw f refl ]
new_node-add b i (suc n) v (node l r w) = elim (Bool-cases (b i)) [
  | inl t ↦ rw t refl
  | inr f ↦ rw f refl
]

-- The list has the nodes of the tree but its root, which is no node of its own.
pub record Owned (a : IpArea) : Type 0 where
  pub root : new_node a.tree ≡ 0
  pub all : suc a.nodes ≡ nodes_of a.tree

-- Whatever the file, the list that `Clear` deletes has as many nodes as `Init` has put in the tree
-- below its root. Condition: `Init` succeeded on an area whose list was so before.
init-Owned :
    (aton atoi : Text → ℕ) (xs : List (List Attribute)) (r : Row) (a a' : IpArea)
    → Owned a
    → init aton atoi xs r a ≡ some a'
    → Owned a'
unfolding init add_tree
init-Owned aton atoi [] r a a' h e = subst Owned (some-injective a a' e) h
init-Owned aton atoi (x ∷ xs) r a a' h e =
    let r' = read_attributes atoi x r in
    let n = depth r'.addr r'.mask in
    let b = bit (aton r'.addr) in
    elim (Bool-cases (ltb 32 n)) [
      | inl t ↦ ground (arith, rw t at e)
      | inr f ↦
          let next : IpArea = record {
            tree = add b 0 n (names_of_row r') a.tree;
            nodes = a.nodes + created b 0 n a.tree;
          } in
          let owned : Owned next = record {
            root = new_node-add b 0 n (names_of_row r') a.tree;
            all = omega (arith, h.root, h.all, nodes_of-add b 0 n (names_of_row r') a.tree);
          } in
          init-Owned aton atoi xs r' next a' owned (rw f at e)
    ]
