-- ===== src/Pending/Tests.antt =====
-- Runs of the list of waiting requests.
use ad_rtb_adapter.Base.Int.{◌-ℤ◌}
use ad_rtb_adapter.Base.{
  some, map, ◌++◌, ◌+◌, ◌*◌, ◌-◌, ◌≡◌, refl, true, false, List, [], ◌∷◌, length, take, drop, arith,
}
use ad_rtb_adapter.Pending.{
  Time, to_now, Para, check_life, check, Call, push_call, check_call, clear_call, run,
}
use ad_rtb_adapter.Pending.Life.{microseconds, to_now_lem}
use ad_rtb_adapter.Pending.Timeouts.{
  waiting, pushes, has_pop, Answers, run_lem, all_timeout, stops, all_due, marked, unanswered,
  check_lem,
}

abbrev first_time : Time
first_time = record { second = 1; microsecond = 0 }

abbrev later : Time
later = record { second = 1; microsecond = 20000 }

abbrev first_para : Para
first_para = record { id = 4; born = first_time; timeout = false }

abbrev second_para : Para
second_para = record { id = 5; born = later; timeout = false }

abbrev some_calls : List Call
some_calls =
    push_call first_para
    ∷ push_call second_para
    ∷ check_call later
    ∷ check_call later
    ∷ clear_call
    ∷ []

-- Each of the two is answered once.
run_test : run some_calls [] ≡ some ([], 4 ∷ 5 ∷ [])
unfolding check check_life to_now ◌-ℤ◌
run_test = refl

run_example :
    Answers 4 (has_pop some_calls) (waiting 4 [] + pushes 4 some_calls) (run some_calls [])
run_example = run_lem 4 some_calls []

check_example :
    let s = check later (first_para ∷ second_para ∷ []) in
    (all_due later (take s.count (first_para ∷ second_para ∷ [])) ≡ true)
    × (stops later (drop s.count (first_para ∷ second_para ∷ [])) ≡ true)
    × (s.answered ≡ unanswered (take s.count (first_para ∷ second_para ∷ [])))
    × (s.left
        ≡ map marked (take s.count (first_para ∷ second_para ∷ []))
          ++ drop s.count (first_para ∷ second_para ∷ []))
    × (all_timeout (take s.count s.left) ≡ true)
    × (length s.left ≡ 2)
check_example = check_lem later (first_para ∷ second_para ∷ [])

-- A fifth of a second counts as almost two.
abbrev before_second : Time
before_second = record { second = 0; microsecond = 900000 }

abbrev after_second : Time
after_second = record { second = 1; microsecond = 100000 }

to_now_test : to_now after_second before_second ≡ 1800000
unfolding to_now ◌-ℤ◌
to_now_test = refl

to_now_example :
    to_now after_second before_second + microseconds before_second
    ≡ microseconds after_second + 2 * (900000 - 100000)
to_now_example =
    to_now_lem after_second before_second (omega arith) (omega arith) (omega arith) (omega arith)
