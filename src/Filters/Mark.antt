-- ===== src/Filters/Mark.antt =====
-- `AdFilterMark`: the key words and the audiences of the units, as `AddData` files them. `new` never
-- returns NULL. A pointer to an element of `m_ltMark` or `m_ltAudience` is the element's number.
pub mod Match
pub mod Fits
pub mod Touched
pub mod KeyWords
pub mod Searched
mod Tests
use ad_rtb_adapter.Base.{
  ℕ, zero, suc, ◌+◌, ◌^◌, bit_or, Bool, true, false, Option, none, some, List, [], ◌∷◌, ◌++◌,
  length, ltb, leb, ◌==◌, if◌then◌else◌,
}
use ad_rtb_adapter.Base.Int.{ℤ}
use ad_rtb_adapter.Acbm
use ad_rtb_adapter.Acbm.{Acbm, tree_add}
use ad_rtb_adapter.Filters.Planning.{PlanningUnit, MarkNode, AudienceNode}
use ad_rtb_adapter.Filters.Table.{Table, update}
use ad_rtb_adapter.Strings.Split.{strip}
use ad_rtb_adapter.Strings.{Text}

-- AD_MARK_PUBLIC, AD_MARK_PRIVATE, AD_KEYS_ACC_CUS, AD_KEYS_DIM_CUS, AD_CACHE_TAG
abbrev pub mark_public : ℕ
mark_public = 1

abbrev pub mark_private : ℕ
mark_private = 2

abbrev pub keys_acc_cus : ℕ
keys_acc_cus = 3

abbrev pub keys_dim_cus : ℕ
keys_dim_cus = 4

abbrev pub cache_tag : ℕ
cache_tag = 7

-- AD_AUDIENCE_MERGE_OR, AD_AUDIENCE_MERGE_AND
abbrev pub merge_or : ℕ
merge_or = 0

abbrev pub merge_and : ℕ
merge_and = 1

-- `AdMarkInfo` and `AdAudienceInfo`; `id` is the unit that `m_pData` points to.
pub record MarkInfo : Type 0 where
  pub type : ℕ
  pub key : Text
  pub id : ℕ

pub record AudienceInfo : Type 0 where
  pub type : ℕ
  pub effective_time : ℕ
  pub visit_mask : ℕ
  pub visit_match : ℕ
  pub un_visit_mask : ℕ
  pub un_visit_match : ℕ
  pub search_mask : ℕ
  pub search_match : ℕ
  pub id : ℕ

abbrev pub no_audience : AudienceInfo
no_audience = record {
  type = 0;
  effective_time = 0;
  visit_mask = 0;
  visit_match = 0;
  un_visit_mask = 0;
  un_visit_match = 0;
  search_mask = 0;
  search_match = 0;
  id = 0;
}

-- The filter, with the table of `AdMap` for the audiences.
pub record Mark : Type 0 where
  pub acbm : Acbm
  pub marks : List MarkInfo
  pub audience : List AudienceInfo
  pub table : Table
  pub min_len : ℕ
  pub max_len : ℕ

-- A new filter; `m_uiStrMinLen` and `m_uiStrMaxLen` are what the memory held.
abbrev pub new_filter : (ℕ → ℤ) → ℕ → ℕ → Mark
new_filter bad lo hi = record {
  acbm = Acbm.init bad;
  marks = [];
  audience = [];
  table = [];
  min_len = lo;
  max_len = hi;
}

abbrev pub http : Text
http = b'h' ∷ b't' ∷ b't' ∷ b'p' ∷ b':' ∷ b'/' ∷ b'/' ∷ []

abbrev pub https : Text
https = b'h' ∷ b't' ∷ b't' ∷ b'p' ∷ b's' ∷ b':' ∷ b'/' ∷ b'/' ∷ []

abbrev pub without_stars : Text → Text
without_stars [] = []
without_stars (c ∷ cs) = let rest = without_stars cs in if c == b'*' then rest else c ∷ rest

abbrev pub or_whole : Text → Option Text → Text
or_whole s none = s
or_whole s (some t) = t

abbrev pub without_prefix : Text → Text → Text
without_prefix p s = or_whole s (strip p s)

-- `AdFilterMarkGetStr`
unfoldable pub get_str : Text → Text
get_str s = without_prefix https (without_prefix http (without_stars s))

-- `AdFilterMarkAddMark`, and whether it succeeds: the loop breaks at a key word that fails.
abbrev pub add_marks : ℕ → List MarkNode → Mark → Mark × Bool
add_marks id [] m = (m, true)
add_marks id (k ∷ ks) m =
    let key = get_str k.key in
    let (acbm, ok) = tree_add key (length m.marks) m.acbm in
    let m' : Mark = record m {
      acbm = acbm;
      marks = m.marks ++ (record { type = k.type; key = key; id = id }) ∷ [];
    } in
    elim ok [ true ↦ add_marks id ks m' | false ↦ (m', false) ]

-- The masks: a bit for each entry of a map, for the first 32.
abbrev pub mask_of : ℕ → ℕ
mask_of zero = 0
mask_of (suc n) = let rest = mask_of n in if ltb n 32 then bit_or rest (2 ^ n) else rest

-- What the entry `i` of a map files; `bit` sets its bit.
abbrev pub with_entry :
    (ℕ → AudienceInfo → AudienceInfo) → AudienceInfo → ℕ → Text → ℕ → Mark → Mark
with_entry bit base i s t m = record m {
  audience = m.audience ++ bit (2 ^ i) (record base { effective_time = t }) ∷ [];
  table = update s (length m.audience) m.table;
  min_len = if ltb (length s) m.min_len then length s else m.min_len;
  max_len = if ltb m.max_len (length s) then length s else m.max_len;
}

-- One of the three loops, from the entry `i` on.
abbrev pub add_entries :
    (ℕ → AudienceInfo → AudienceInfo) → AudienceInfo → ℕ → List (Text × ℕ) → Mark → Mark
add_entries bit base i [] m = m
add_entries bit base i ((s, t) ∷ es) m =
    let rest = add_entries bit base (suc i) es (with_entry bit base i s t m) in
    if leb 32 i then m else rest

abbrev pub base_info : ℕ → AudienceNode → AudienceInfo
base_info id n = record no_audience {
  type = n.type;
  search_mask = mask_of (length n.search);
  visit_mask = mask_of (length n.visit);
  un_visit_mask = mask_of (length n.un_visit);
  id = id;
}

abbrev pub add_node : ℕ → AudienceNode → Mark → Mark
add_node id n m =
    let base = base_info id n in
    let m1 = add_entries (λ b x. record x { search_match = b }) base 0 n.search m in
    let m2 = add_entries (λ b x. record x { visit_match = b }) base 0 n.visit m1 in
    add_entries (λ b x. record x { un_visit_match = b }) base 0 n.un_visit m2

abbrev pub add_nodes : ℕ → List AudienceNode → Mark → Mark
add_nodes id [] m = m
add_nodes id (n ∷ ns) m = add_nodes id ns (add_node id n m)

-- The lengths are set while the table is empty.
abbrev pub start_lengths : Table → Mark → Mark
start_lengths [] m = record m { min_len = 0xffff; max_len = 0 }
start_lengths (e ∷ t) m = m

-- `AdFilterMarkAddAudience`
abbrev pub add_audience : ℕ → List AudienceNode → Mark → Mark
add_audience id ns m = add_nodes id ns (start_lengths m.table m)

-- `AddData`, and whether it succeeds, which `FiltersUpdate` does not ask.
pub mark_add : PlanningUnit → Mark → Mark × Bool
mark_add u m =
    let (m', ok) = add_marks u.execute_id u.key_words m in
    if ok then (add_audience u.execute_id u.audience m', true) else (m', false)

pub mark_add_all : List PlanningUnit → Mark → Mark
mark_add_all [] m = m
mark_add_all (u ∷ us) m = mark_add_all us (mark_add u m).0
