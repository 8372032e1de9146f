-- ===== src/Filters/Results.antt =====
-- `AD_RESULT`: the units that are left, in the order of their execute ids, each with `m_uiMatch` and
-- `m_bVip`.
use ad_rtb_adapter.Base.{
  ℕ, Bool, false, Option, none, some, List, [], ◌∷◌, bit_or, ltb, ◌==◌, if◌then◌else◌,
}
use ad_rtb_adapter.Filters.Table.{Table, find}
use ad_rtb_adapter.Strings.{Text}

pub record Entry : Type 0 where
  pub id : ℕ
  pub match : ℕ
  pub vip : Bool

abbrev pub Results : Type 0
Results = List Entry

-- `mResult[id].m_uiMatch |= flag`
abbrev pub mark : ℕ → ℕ → Results → Results
mark flag id [] = record { id = id; match = bit_or 0 flag; vip = false } ∷ []
mark flag id (e ∷ r) =
    let rest = mark flag id r in
    if ltb id e.id
    then record { id = id; match = bit_or 0 flag; vip = false } ∷ e ∷ r
    else if id == e.id
    then record e { match = bit_or e.match flag } ∷ r
    else e ∷ rest

-- `mResult.erase(id)`
abbrev pub erase : ℕ → Results → Results
erase id [] = []
erase id (e ∷ r) = let rest = erase id r in if id == e.id then r else e ∷ rest

-- The loops over the list that is found under a key.
abbrev pub mark_all : ℕ → List ℕ → Results → Results
mark_all flag [] r = r
mark_all flag (id ∷ ids) r = mark_all flag ids (mark flag id r)

abbrev pub erase_all : List ℕ → Results → Results
erase_all [] r = r
erase_all (id ∷ ids) r = erase_all ids (erase id r)

abbrev pub found : Option (List ℕ) → List ℕ
found none = []
found (some ids) = ids

-- The keys that a `match` looks up, one after another.
abbrev pub mark_keys : ℕ → List Text → Table → Results → Results
mark_keys flag [] t r = r
mark_keys flag (key ∷ ks) t r = mark_keys flag ks t (mark_all flag (found (find key t)) r)

abbrev pub erase_keys : List Text → Table → Results → Results
erase_keys [] t r = r
erase_keys (key ∷ ks) t r = erase_keys ks t (erase_all (found (find key t)) r)
