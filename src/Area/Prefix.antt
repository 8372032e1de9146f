-- ===== src/Area/Prefix.antt =====
-- `Init`, then `Get`: what a file of prefixes makes of an address.
use ad_rtb_adapter.Base.{
  is_empty, ℕ, zero, suc, ◌+◌, ◌≤◌, ◌≡◌, refl, ap, ap₂, ◌∙◌, some, Bool, false, ◌&&◌, List, [], ◌∷◌,
  ltb, ◌==◌, if◌then◌else◌, arith,
}
use ad_rtb_adapter.Area.{
  Text, Names, no_names, Tree, IpArea, clear, bit, add, created, depth, add_tree, show, get, Row,
  Attribute, read_attributes, names_of_row, init,
}
use ad_rtb_adapter.Area.Lookup.{names_at, agree, hits_lem, names_at-add, longest, if_same, walk_lem}

-- The variables of `Init` at each call of `AddTree`.
abbrev pub rows_of : (Text → ℕ) → List (List Attribute) → Row → List Row
rows_of atoi [] r = []
rows_of atoi (x ∷ xs) r = read_attributes atoi x r ∷ rows_of atoi xs (read_attributes atoi x r)

-- No row has a prefix of more than 32 bits.
abbrev pub Fits : List Row → Type 0
Fits [] = Unit
Fits (r ∷ rs) = (depth r.addr r.mask ≤ 32) × Fits rs

module _ (aton : Text → ℕ) where
  -- The names that the last row with the first `k` bits of `ip` gives, or else those of before.
  abbrev pub latest : ℕ → ℕ → List Row → Names → Names
  latest ip k [] before = before
  latest ip k (r ∷ rs) before =
      let n = depth r.addr r.mask in
      latest ip k rs
        (if (k == n) && agree (bit (aton r.addr)) (bit ip) 0 n then names_of_row r else before)

  names_at-add_tree :
      (ip k : ℕ) (r : Row) (t : Tree)
      → names_at (bit ip) 0 k (add (bit (aton r.addr)) 0 (depth r.addr r.mask) (names_of_row r) t)
        ≡ latest ip k (r ∷ []) (names_at (bit ip) 0 k t)
  names_at-add_tree ip k r t =
      let n = depth r.addr r.mask in
      names_at-add (bit (aton r.addr)) (bit ip) (names_of_row r) 0 n k t
      ∙ ap (λ x. if x then names_of_row r else names_at (bit ip) 0 k t)
          (hits_lem (bit (aton r.addr)) (bit ip) 0 n k)

  init_lem :
      (atoi : Text → ℕ) (ip : ℕ) (xs : List (List Attribute)) (r : Row) (a : IpArea)
      → Fits (rows_of atoi xs r)
      → (a' : IpArea) × (init aton atoi xs r a ≡ some a')
        × ((k : ℕ)
            → names_at (bit ip) 0 k a'.tree
              ≡ latest ip k (rows_of atoi xs r) (names_at (bit ip) 0 k a.tree))
  unfolding init add_tree
  init_lem atoi ip [] r a h = (a, refl, λ k. refl)
  init_lem atoi ip (x ∷ xs) r a h =
      let r' = read_attributes atoi x r in
      let n = depth r'.addr r'.mask in
      let f : ltb 32 n ≡ false = ground (arith, h.0) in
      let next : IpArea = record {
        tree = add (bit (aton r'.addr)) 0 n (names_of_row r') a.tree;
        nodes = a.nodes + created (bit (aton r'.addr)) 0 n a.tree;
      } in
      let (a', e, found) = init_lem atoi ip xs r' next h.1 in
      (
        a',
        rw f e,
        λ k. found k ∙ ap (latest ip k (rows_of atoi xs r')) (names_at-add_tree ip k r' a.tree),
      )

longest_congr :
    (n : ℕ) (f g : ℕ → Names) (area : Text)
    → ((k : ℕ) → f k ≡ g k)
    → longest n f area ≡ longest n g area
longest_congr zero f g area h = refl
longest_congr (suc n) f g area h =
    ap₂ (λ w x. if is_empty w.city then x else show w) (h (suc n)) (longest_congr n f g area h)

names_at-clear : (b : ℕ → Bool) (k : ℕ) → names_at b 0 k clear.tree ≡ no_names
names_at-clear b zero = refl
names_at-clear b (suc zero) = if_same (b 0) no_names
names_at-clear b (suc (suc k)) = if_same (b 0) no_names

-- The names that a file gives the first `k` bits of an address.
abbrev pub named : (Text → ℕ) → (Text → ℕ) → List (List Attribute) → Row → ℕ → ℕ → Names
named aton atoi xs r ip k = latest aton ip k (rows_of atoi xs r) no_names

-- `Init` succeeds, and `Get` then finds the longest prefix of the address, of 1 to 32 bits, that
-- the file gives a city: the names of its last row for that prefix. With no such prefix the area
-- that was passed in stays. For the address 0, the names of the last row for the empty prefix are
-- given, empty or not. A row whose address is spelt 0.0.0.0 counts as one for the empty prefix, and
-- a row has the values of the row before for the attributes that its element has not. Condition: no other row
-- has a mask of more than 32.
pub get-init :
    (aton atoi : Text → ℕ) (xs : List (List Attribute)) (r : Row) (addr area : Text)
    → Fits (rows_of atoi xs r)
    → let found = named aton atoi xs r (aton addr) in
      (a : IpArea) × (init aton atoi xs r clear ≡ some a)
      × (get aton addr a area ≡ (if aton addr == 0 then show (found 0) else longest 32 found area))
unfolding get
get-init aton atoi xs r addr area h =
    let ip = aton addr in
    let (a, e, at) = init_lem aton atoi ip xs r clear h in
    let same : (k : ℕ)
        → names_at (bit ip) 0 k a.tree ≡ latest aton ip k (rows_of atoi xs r) no_names =
      λ k. at k ∙ ap (latest aton ip k (rows_of atoi xs r)) (names_at-clear (bit ip) k) in
    (
      a,
      e,
      ap₂ (λ x y. if ip == 0 then x else y) (ap show (same 0))
          (walk_lem (bit ip) 0 32 a.tree area
            ∙ longest_congr 32 (λ k. names_at (bit ip) 0 k a.tree)
                (λ k. latest aton ip k (rows_of atoi xs r) no_names) area same),
    )
