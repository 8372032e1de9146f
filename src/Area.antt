-- ===== src/Area.antt =====
-- `AdIpArea`: the area of an IP address, by a binary tree over the bits of the address.
-- libxml's document is the list of its elements, each with its attributes that have a content;
-- `inet_aton` with `ntohl`, and `atoi`, are parameters. `new` never returns NULL.
pub mod Lookup
pub mod Prefix
pub mod Nodes
mod Tests
use ad_rtb_adapter.Base.{
  same_text, is_empty, ℕ, zero, suc, ◌+◌, ◌/◌, ◌^◌, bit_and, Option, none, some, Bool, true, false,
  ◌&&◌, not, List, [], ◌∷◌, ◌++◌, ltb, ◌==◌, if◌then◌else◌,
}

abbrev pub Text : Type 0
Text = List ℕ

-- The strings of a `TreeNode`.
pub record Names : Type 0 where
  pub country : Text
  pub province : Text
  pub city : Text

abbrev pub no_names : Names
no_names = record { country = []; province = []; city = [] }

-- What a `TreeNode *` points to: the left node, the right one, and the strings.
pub data Tree : Type 0 where
  null : Tree
  node : Tree → Tree → Names → Tree

-- `m_ctTree`, and how many nodes `m_ltTreeList` has.
pub record IpArea : Type 0 where
  pub tree : Tree
  pub nodes : ℕ

-- The constructor, and `Clear`.
abbrev pub clear : IpArea
clear = record { tree = node null null no_names; nodes = 0 }

-- `uiMask & uiIP` as a test, with `0x80000000 >> i` for `uiMask` and `i` below 32.
unfoldable pub bit : ℕ → ℕ → Bool
bit ip i = not (bit_and (0x80000000 / 2 ^ i) ip == 0)

-- At NULL stands the node that `new` makes.
abbrev pub set_names : Names → Tree → Tree
set_names v null = node null null v
set_names v (node l r w) = node l r v

-- The loop of `AddTree` from bit `i` on, `n` times, and the names at the node where it ends.
abbrev pub add : (ℕ → Bool) → ℕ → ℕ → Names → Tree → Tree
add b i zero v t = set_names v t
add b i (suc n) v null =
    let rest = add b (suc i) n v null in
    if b i then node null rest no_names else node rest null no_names
add b i (suc n) v (node l r w) =
    let left = add b (suc i) n v l in
    let right = add b (suc i) n v r in if b i then node l right w else node left r w

abbrev pub new_node : Tree → ℕ
new_node null = 1
new_node (node l r w) = 0

-- How many nodes the loop makes, each of which is pushed to `m_ltTreeList`.
abbrev pub created : (ℕ → Bool) → ℕ → ℕ → Tree → ℕ
created b i zero t = 0
created b i (suc n) null = suc (created b (suc i) n null)
created b i (suc n) (node l r w) =
    let left = created b (suc i) n l in
    let right = created b (suc i) n r in if b i then new_node r + right else new_node l + left

abbrev zero_address : Text
zero_address = b'0' ∷ b'.' ∷ b'0' ∷ b'.' ∷ b'0' ∷ b'.' ∷ b'0' ∷ []

-- The bits of the address that are walked. The names of `0.0.0.0` go to the root for every mask.
abbrev pub depth : Text → ℕ → ℕ
depth addr mask = if same_text addr zero_address then 0 else mask

-- `AddTree`. `none` is a shift of 32 bits or more, which C++ does not define.
unfoldable pub add_tree : (Text → ℕ) → Names → Text → ℕ → IpArea → Option IpArea
add_tree aton v addr mask a =
    let n = depth addr mask in
    if ltb 32 n
    then none
    else some (record {
      tree = add (bit (aton addr)) 0 n v a.tree;
      nodes = a.nodes + created (bit (aton addr)) 0 n a.tree;
    })

abbrev pub names_of : Tree → Names
names_of null = no_names
names_of (node l r w) = w

abbrev pub show : Names → Text
show w = w.country ++ b'-' ∷ (w.province ++ b'-' ∷ w.city)

-- `if(!pNode->m_sCity.empty()) sArea = …`
abbrev pub pick : Names → Text → Text
pick w area = if is_empty w.city then area else show w

-- The loop of `Get` from bit `i` on, at most `n` times.
abbrev pub walk : (ℕ → Bool) → ℕ → ℕ → Tree → Text → Text
walk b i zero t area = area
walk b i (suc n) null area = area
walk b i (suc n) (node l r w) area =
    let left = walk b (suc i) n l (pick (names_of l) area) in
    let right = walk b (suc i) n r (pick (names_of r) area) in if b i then right else left

-- `Get`, with what `sArea` holds before and after.
unfoldable pub get : (Text → ℕ) → Text → IpArea → Text → Text
get aton addr a area =
    let ip = aton addr in if ip == 0 then show (names_of a.tree) else walk (bit ip) 0 32 a.tree area

-- The variables of `Init`, which keep their values from one element to the next.
pub record Row : Type 0 where
  pub province : Text
  pub city : Text
  pub addr : Text
  pub mask : ℕ

-- The attributes that `Init` knows; others are skipped.
pub data Attribute : Type 0 where
  prov : Text → Attribute
  city : Text → Attribute
  addr : Text → Attribute
  mask : Text → Attribute

abbrev pub read_attribute : (Text → ℕ) → Attribute → Row → Row
read_attribute atoi (prov s) r = record r { province = s }
read_attribute atoi (city s) r = record r { city = s }
read_attribute atoi (addr s) r = record r { addr = s }
read_attribute atoi (mask s) r = record r { mask = atoi s }

abbrev pub read_attributes : (Text → ℕ) → List Attribute → Row → Row
read_attributes atoi [] r = r
read_attributes atoi (x ∷ xs) r = read_attributes atoi xs (read_attribute atoi x r)

-- `sCountry`
abbrev country_code : Text
country_code = b'0' ∷ b'0' ∷ b'8' ∷ b'6' ∷ []

abbrev pub names_of_row : Row → Names
names_of_row r = record { country = country_code; province = r.province; city = r.city }

infixl 5 ◌>>=◌
abbrev pub ◌>>=◌ {ℓ κ} : {A : Type ℓ} {B : Type κ} → Option A → (A → Option B) → Option B
none >>= f = none
some a >>= f = f a

-- The loop of `Init` over the elements below the root. The first row holds what `uiMask` is
-- before it is set.
unfoldable pub init : (Text → ℕ) → (Text → ℕ) → List (List Attribute) → Row → IpArea → Option IpArea
unfolding add_tree
init aton atoi [] r a = some a
init aton atoi (x ∷ xs) r a =
    let r = read_attributes atoi x r in
    add_tree aton (names_of_row r) r.addr r.mask a >>= init aton atoi xs r
