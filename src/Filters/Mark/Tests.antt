-- ===== src/Filters/Mark/Tests.antt =====
-- Runs of `AdFilterMark`.
use ad_rtb_adapter.Base.{ℕ, ◌≡◌, refl, false, ◌&&◌, ◌||◌, none, some, List, [], ◌∷◌}
use ad_rtb_adapter.Base.Int.{ℤ, pos, ◌-ℤ◌}
use ad_rtb_adapter.Acbm.{search_text, scan}
use ad_rtb_adapter.Filters.Filed.{member}
use ad_rtb_adapter.Filters.Mark.{
  Mark, get_str, mark_add, mark_add_all, new_filter, keys_acc_cus, keys_dim_cus, merge_or,
}
use ad_rtb_adapter.Filters.Mark.Fits.{reaches}
use ad_rtb_adapter.Filters.Mark.KeyWords.{all_marks}
use ad_rtb_adapter.Filters.Mark.Match.{
  fits, fresh_entry, has, match_mark, match_audience, mark_match,
}
use ad_rtb_adapter.Filters.Mark.Touched.{match_mark-updated}
use ad_rtb_adapter.Filters.Planning.{PlanningUnit, cleared_unit}
use ad_rtb_adapter.Filters.Results.{Results}
use ad_rtb_adapter.Strings.Sample.{sample_libc}
use ad_rtb_adapter.Strings.{Text}
use ad_rtb_adapter.User.{UserMark}

abbrev garbage : ℕ → ℤ
garbage c = pos 0

abbrev car : Text
car = b'c' ∷ b'a' ∷ b'r' ∷ []

abbrev cars : Text
cars = b'C' ∷ b'a' ∷ b'r' ∷ b's' ∷ []

abbrev with_key : ℕ → ℕ → Text → PlanningUnit
with_key id type key = record cleared_unit {
  execute_id = id;
  nice = 1;
  key_words = record { type = type; key = key } ∷ [];
}

abbrev seen : Text → UserMark
seen s = record { mark = s; time = 1; tag = 5 }

abbrev fuzzy : List PlanningUnit
fuzzy = with_key 4 keys_dim_cus (b'h' ∷ b't' ∷ b't' ∷ b'p' ∷ b':' ∷ b'/' ∷ b'/' ∷ b'*' ∷ car) ∷ []

abbrev filter_of : List PlanningUnit → Mark
filter_of us = mark_add_all us (new_filter garbage 9 9)

match_mark_run :
    match_mark (filter_of fuzzy) (seen cars ∷ []) (4 ∷ []) [] ≡ some (fresh_entry 4 ∷ [])
unfolding mark_add_all mark_add get_str match_mark search_text scan fits ◌-ℤ◌
match_mark_run = refl

match_mark-updated_example :
    (r' : Results) × (match_mark (filter_of fuzzy) (seen cars ∷ []) (4 ∷ []) [] ≡ some r')
    × ((id : ℕ)
        → has id r'
          ≡ has id [] || (member id (4 ∷ []) && reaches (all_marks fuzzy) [] (seen cars ∷ []) id))
unfolding get_str
match_mark-updated_example =
    match_mark-updated garbage 9 9 fuzzy (seen cars ∷ []) (4 ∷ []) [] ((refl, tt), tt) refl

-- A key word that must be a whole mark stands in `Cars`, which is longer. It is kept for the next
-- mark, `dog`, which is as long as it, and so the unit is found for `dog`.
key_word_kept :
    match_mark
      (filter_of (with_key 4 keys_acc_cus car ∷ []))
      (seen cars ∷ seen (b'd' ∷ b'o' ∷ b'g' ∷ []) ∷ [])
      (4 ∷ [])
      []
    ≡ some (fresh_entry 4 ∷ [])
unfolding mark_add_all mark_add get_str match_mark search_text scan fits ◌-ℤ◌
key_word_kept = refl

-- A unit whose only key word is a star takes the key words of the units before it away.
star_clears :
    match_mark
      (filter_of (with_key 4 keys_dim_cus car ∷ with_key 6 keys_dim_cus (b'*' ∷ []) ∷ []))
      (seen car ∷ [])
      (4 ∷ [])
      []
    ≡ some []
unfolding mark_add_all mark_add get_str match_mark search_text scan fits ◌-ℤ◌
star_clears = refl

abbrev visitor : PlanningUnit
visitor = record cleared_unit {
  execute_id = 8;
  nice = 3;
  audience =
      record { type = merge_or; search = (car, 5) ∷ []; visit = []; un_visit = (cars, 5) ∷ [] }
      ∷ [];
}

-- A mark finds a key of an audience at its start, and not the key that it is.
audience_prefix :
    match_audience
      (filter_of (visitor ∷ []))
      (seen (b'c' ∷ b'a' ∷ b'r' ∷ b'!' ∷ []) ∷ [])
      (fresh_entry 8 ∷ [])
      []
    ≡ fresh_entry 8 ∷ []
unfolding mark_add_all mark_add match_audience
audience_prefix = refl

audience_whole :
    match_audience (filter_of (visitor ∷ [])) (seen car ∷ []) (fresh_entry 8 ∷ []) [] ≡ []
unfolding mark_add_all mark_add match_audience
audience_whole = refl

-- Without marks of the user, the units of the base order are left.
no_user_marks :
    mark_match sample_libc
      (filter_of [])
      (λ id. id)
      false
      none
      []
      (fresh_entry 1 ∷ fresh_entry 2 ∷ fresh_entry 3 ∷ [])
    ≡ some (fresh_entry 2 ∷ [])
unfolding mark_match
no_user_marks = refl
