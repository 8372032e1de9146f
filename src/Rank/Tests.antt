-- ===== src/Rank/Tests.antt =====
-- Runs of the ranking.
use ad_rtb_adapter.Base.{
  ℕ, ◌%◌, ◌≡◌, ◌≤◌, ◌<◌, ◌↔◌, refl, Bool, true, false, none, some, List, [], ◌∷◌, get_or, ◌==◌,
  if◌then◌else◌, arith,
}
use ad_rtb_adapter.Filters.Planning.{PlanningUnit, cleared_unit}
use ad_rtb_adapter.Protocol.Request
use ad_rtb_adapter.Rank.Choice.{UnitPrice, rank_strategy, rank_choice}
use ad_rtb_adapter.Rank.Chosen.{
  first_vip, candidates, rank_choice_min_price, rank_choice-none, rank_choice_lem, answer,
}
use ad_rtb_adapter.Rank.Table.{spread, rand_wet-spread}
use ad_rtb_adapter.Rank.Third.{Member, rank_strategy-Member, rank_strategy_third}
use ad_rtb_adapter.Rank.Wet.{rand_wet}
use ad_rtb_adapter.Strings.Sample.{sample_libc}

-- The weights of 0.7: 70, 21, 6.
abbrev seventy : ℕ → ℕ
seventy i = if i == 0 then 70 else if i == 1 then 21 else 6

last_of_three : rand_wet seventy 3 191 ≡ 2
unfolding rand_wet
last_of_three = refl

rand_wet-spread_example : rand_wet seventy 3 191 ≡ get_or (spread seventy 3 0 100) (191 % 100) 0
rand_wet-spread_example = rand_wet-spread seventy 1 191 (omega arith, (omega arith, tt))

abbrev priced : ℕ → UnitPrice
priced n = record { eid = n; price_type = 1; price = n }

abbrev five : List UnitPrice
five = priced 20 ∷ priced 50 ∷ priced 40 ∷ priced 30 ∷ priced 50 ∷ []

third_price : rank_strategy seventy 95 7 five ≡ some (priced 30)
unfolding rank_strategy rand_wet
third_price = refl

rank_strategy-Member_example :
    (p : UnitPrice) × (rank_strategy seventy 95 7 five ≡ some p) × Member five p
rank_strategy-Member_example = rank_strategy-Member seventy 95 7 five (omega arith)

rank_strategy_third_example :
    (p : UnitPrice) × (rank_strategy seventy 95 7 five ≡ some p) × (30 ≤ p.price)
rank_strategy_third_example =
    rank_strategy_third seventy 95 7 five (priced 50) (priced 40) (priced 30) (omega arith)
      (omega arith, (omega arith, (omega arith, (omega arith, (omega arith, tt))))) (1, refl)
      (2, refl) (3, refl) (omega arith) (omega arith)

abbrev no_ctr : Request.Request → PlanningUnit → ℕ
no_ctr q u = 0

abbrev cpm_unit : ℕ → PlanningUnit
cpm_unit n = record cleared_unit {
  execute_id = n;
  push = true;
  target_price_type = 1;
  target_price = n;
}

abbrev three_left : List (PlanningUnit × Bool)
three_left = (cpm_unit 20, false) ∷ (cpm_unit 5, false) ∷ (cpm_unit 40, false) ∷ []

abbrev least_ten : Request.Request
least_ten = record Request.clear { min_price = b'1' ∷ b'0' ∷ [] }

rank_choice_min_price_example :
    (p : UnitPrice) × (rank_choice sample_libc no_ctr seventy 80 7 least_ten three_left ≡ some p)
    × (10 < p.price)
rank_choice_min_price_example =
    rank_choice_min_price sample_libc no_ctr seventy 80 7 least_ten three_left refl (omega arith)
      refl

rank_choice_lem_example :
    rank_choice sample_libc no_ctr seventy 80 7 least_ten three_left
    ≡ answer sample_libc no_ctr seventy 80 7
        (first_vip three_left)
        (candidates sample_libc no_ctr least_ten three_left)
rank_choice_lem_example = rank_choice_lem sample_libc no_ctr seventy 80 7 least_ten three_left

rank_choice-none_example :
    (rank_choice sample_libc no_ctr seventy 80 7 least_ten ((cpm_unit 9, false) ∷ []) ≡ none)
    ↔ (first_vip ((cpm_unit 9, false) ∷ []) ≡ none)
      × (candidates sample_libc no_ctr least_ten ((cpm_unit 9, false) ∷ []) ≡ [])
rank_choice-none_example =
    rank_choice-none sample_libc no_ctr seventy 80 7 least_ten ((cpm_unit 9, false) ∷ [])
