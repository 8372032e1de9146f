-- ===== src/Acbm/Tests.antt =====
-- Runs of `AdAcbm`.
use ad_rtb_adapter.Base.{ℕ, ◌+◌, ◌≡◌, refl, false, none, some, [], ◌∷◌, replicate, length}
use ad_rtb_adapter.Base.Int.{ℤ, pos, ◌-ℤ◌}
use ad_rtb_adapter.Acbm.{Found, init, clear, tree_add, search_text, scan, list_at}
use ad_rtb_adapter.Acbm.Kept.{Patterns, tree_of}
use ad_rtb_adapter.Acbm.Naive.{entries, occurrences}
use ad_rtb_adapter.Acbm.Search.{search_text-tree_of}
use ad_rtb_adapter.Strings.{Text}

-- What stands in a table that nobody filled.
abbrev garbage : ℕ → ℤ
garbage c = pos (c + 7)

abbrev ab : Text
ab = b'a' ∷ b'b' ∷ []

abbrev capital_b : Text
capital_b = b'B' ∷ []

abbrev two_patterns : Patterns
two_patterns = (ab, 1) ∷ (capital_b, 2) ∷ []

abbrev some_text : Text
some_text = b'x' ∷ b'A' ∷ b'b' ∷ b'b' ∷ []

search_text_run :
    search_text (tree_of garbage two_patterns) some_text []
    ≡ some (record { matches = 3; results = (2, capital_b ∷ capital_b ∷ []) ∷ (1, ab ∷ []) ∷ [] })
unfolding search_text scan ◌-ℤ◌
search_text_run = refl

search_text-tree_of_example :
    (f : Found) × (search_text (tree_of garbage two_patterns) some_text [] ≡ some f)
    × ((p : ℕ)
        → entries p f ≡ occurrences p two_patterns some_text + length (list_at {A = Text} p []))
search_text-tree_of_example =
    search_text-tree_of garbage ab 1 ((capital_b, 2) ∷ []) some_text [] (refl, (refl, tt))

-- A pattern that is added again takes a place in `m_vStr` but no label, so that the next pattern's
-- label names another string: a search for `x` reports `ab`.
strings_out_of_step :
    search_text (tree_of garbage ((b'x' ∷ [], 3) ∷ (ab, 2) ∷ (ab, 1) ∷ [])) (b'x' ∷ b'y' ∷ []) []
    ≡ some (record { matches = 1; results = (3, ab ∷ []) ∷ [] })
unfolding search_text scan ◌-ℤ◌
strings_out_of_step = refl

-- An empty pattern clears the tree.
empty_pattern : tree_add [] 4 (tree_of garbage two_patterns) ≡ (clear, false)
empty_pattern = refl

-- A search of a tree without a pattern reads the root through NULL, when the text is long enough.
search_text_null : search_text (init garbage) (replicate 512 b'x') [] ≡ none
unfolding search_text
search_text_null = refl
