-- ===== src/Filters/Table.antt =====
-- `AdMap`: the units under each key. A `void *` to a unit is modelled by the unit's execute id, under
-- which `DataPush` files it, so that there is one unit for an id. The map is never iterated, so the
-- order of its keys is left open.
use ad_rtb_adapter.Base.{ℕ, Option, none, some, List, [], ◌∷◌, ◌++◌, same_text, if◌then◌else◌}
use ad_rtb_adapter.Strings.{Text}

abbrev pub Table : Type 0
Table = List (Text × List ℕ)

-- `m_mMap[Key].push_back(id)`
abbrev pub update : Text → ℕ → Table → Table
update key id [] = (key, id ∷ []) ∷ []
update key id ((k, ids) ∷ t) =
    let rest = update key id t in
    if same_text key k then (k, ids ++ id ∷ []) ∷ t else (k, ids) ∷ rest

abbrev pub find : Text → Table → Option (List ℕ)
find key [] = none
find key ((k, ids) ∷ t) = let rest = find key t in if same_text key k then some ids else rest

-- The calls of `update` in an `AddData`.
abbrev pub update_all : List Text → ℕ → Table → Table
update_all [] id t = t
update_all (key ∷ ks) id t = update_all ks id (update key id t)
