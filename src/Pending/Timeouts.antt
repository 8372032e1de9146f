-- ===== src/Pending/Timeouts.antt =====
-- How often a waiting request is answered with a timeout.
use ad_rtb_adapter.Base.{
  ℕ, suc, ap, not, ◌&&◌, take, drop, length, ◌+◌, ◌≤◌, ◌≡◌, refl, ◌∙◌, Bool, true, false, ◌||◌,
  Option, none, some, map, List, [], ◌∷◌, ◌++◌, ◌==◌, if◌then◌else◌, arith, Bool-cases, inl, inr,
}
use ad_rtb_adapter.Pending.{
  Time, Para, push, del, check_life, check, clear, Call, push_call, del_call, pop_call, check_call,
  clear_call, run,
}

abbrev pub count : ℕ → List ℕ → ℕ
count id [] = 0
count id (x ∷ xs) = let rest = count id xs in if id == x then suc rest else rest

-- How often the pointer waits without having been answered.
abbrev pub waiting : ℕ → List Para → ℕ
waiting id [] = 0
waiting id (p ∷ ps) =
    let rest = waiting id ps in if p.timeout then rest else if id == p.id then suc rest else rest

abbrev pub pushes : ℕ → List Call → ℕ
pushes id [] = 0
pushes id (push_call p ∷ cs) = let rest = pushes id cs in if id == p.id then suc rest else rest
pushes id (del_call x ∷ cs) = pushes id cs
pushes id (pop_call ∷ cs) = pushes id cs
pushes id (check_call now ∷ cs) = pushes id cs
pushes id (clear_call ∷ cs) = pushes id cs

count-append : (id : ℕ) (xs ys : List ℕ) → count id (xs ++ ys) ≡ count id xs + count id ys
count-append id [] ys = omega arith
count-append id (x ∷ xs) ys = ground (arith, count-append id xs ys)

waiting-push :
    (id : ℕ) (p : Para) (ps : List Para)
    → waiting id (push p ps) ≤ waiting id ps + (if id == p.id then 1 else 0)
waiting-push id p [] = ground arith
waiting-push id p (q ∷ ps) = ground (arith, waiting-push id p ps)

waiting-del : (id x : ℕ) (ps : List Para) → waiting id (del x ps).1 ≤ waiting id ps
waiting-del id x [] = omega arith
waiting-del id x (p ∷ ps) = ground (arith, waiting-del id x ps)

waiting-check :
    (id : ℕ) (now : Time) (ps : List Para)
    → count id (check now ps).answered + waiting id (check now ps).left ≡ waiting id ps
unfolding check
waiting-check id now [] = omega arith
waiting-check id now (p ∷ ps) = elim (Bool-cases p.timeout) [
  | inl t ↦ rw t (waiting-check id now ps)
  | inr f ↦ elim (Bool-cases (check_life now p)) [
    | inl e ↦ rw (f, e) (ground (arith, waiting-check id now ps))
    | inr g ↦ rw (f, g) (ground arith)
  ]
]

waiting-clear :
    (id : ℕ) (ps : List Para)
    → (count id (clear ps).answered ≡ waiting id ps) × (waiting id (clear ps).left ≡ 0)
waiting-clear id [] = (refl, refl)
waiting-clear id (p ∷ ps) = ground (arith, waiting-clear id ps)

abbrev pub has_pop : List Call → Bool
has_pop [] = false
has_pop (pop_call ∷ cs) = true
has_pop (push_call p ∷ cs) = has_pop cs
has_pop (del_call x ∷ cs) = has_pop cs
has_pop (check_call now ∷ cs) = has_pop cs
has_pop (clear_call ∷ cs) = has_pop cs

-- What a run says of the pointer `id`, of which `n` may be answered; `popped` is whether `pop` was called.
abbrev pub Answers : ℕ → Bool → ℕ → Option (List Para × List ℕ) → Type 0
Answers id popped n none = popped ≡ true
Answers id popped n (some r) = count id r.1 + waiting id r.0 ≤ n

-- The answers of a sweep stand in front of those of the calls behind it.
swept :
    (id m n : ℕ) (popped : Bool) (xs : List ℕ) (o : Option (List Para × List ℕ))
    → count id xs + m ≤ n
    → Answers id popped m o
    → Answers id popped n (elim o [ none ↦ none | some r ↦ some (r.0, xs ++ r.1) ])
swept id m n popped xs none l h = h
swept id m n popped xs (some r) l h = omega (arith, l, h, count-append id xs r.1)

Answers-mono :
    (id m n : ℕ) (popped : Bool) (o : Option (List Para × List ℕ))
    → m ≤ n
    → Answers id popped m o
    → Answers id popped n o
Answers-mono id m n popped none l h = h
Answers-mono id m n popped (some r) l h = omega (arith, l, h)

Answers-popped :
    (id n : ℕ) (popped : Bool) (o : Option (List Para × List ℕ))
    → Answers id popped n o
    → Answers id true n o
Answers-popped id n popped none h = refl
Answers-popped id n popped (some r) h = h

-- After any calls of the list's operations, the list itself has called `SessionTimeout` on a pointer at
-- most as often as it was pushed, what waited before included; and of those pushes, as many as still
-- wait are not answered. A run can only fail where `pop` was called, which reads freed memory.
pub run_lem :
    (id : ℕ) (cs : List Call) (ps : List Para)
    → Answers id (has_pop cs) (waiting id ps + pushes id cs) (run cs ps)
run_lem id [] ps = omega arith
run_lem id (push_call p ∷ cs) ps =
    let old = waiting id (push p ps) + pushes id cs in
    let new = waiting id ps + pushes id (push_call p ∷ cs) in
    Answers-mono id old new (has_pop cs) (run cs (push p ps)) (ground (arith, waiting-push id p ps))
      (run_lem id cs (push p ps))
run_lem id (del_call x ∷ cs) ps =
    let left = (del x ps).1 in
    Answers-mono id (waiting id left + pushes id cs) (waiting id ps + pushes id cs) (has_pop cs)
      (run cs left) (omega (arith, waiting-del id x ps)) (run_lem id cs left)
run_lem id (pop_call ∷ cs) [] =
    Answers-popped id (0 + pushes id cs) (has_pop cs) (run cs []) (run_lem id cs [])
run_lem id (pop_call ∷ cs) (p ∷ ps) = refl
run_lem id (check_call now ∷ cs) ps =
    let s = check now ps in
    swept id (waiting id s.left + pushes id cs) (waiting id ps + pushes id cs) (has_pop cs)
      s.answered (run cs s.left) (omega (arith, waiting-check id now ps)) (run_lem id cs s.left)
run_lem id (clear_call ∷ cs) ps =
    let s = clear ps in
    let all = waiting-clear id ps in
    swept id (waiting id s.left + pushes id cs) (waiting id ps + pushes id cs) (has_pop cs)
      s.answered (run cs s.left) (omega (arith, all.0, all.1)) (run_lem id cs s.left)

abbrev pub all_timeout : List Para → Bool
all_timeout [] = true
all_timeout (p ∷ ps) = p.timeout && all_timeout ps

-- The sweep has nothing to do at the head of the list.
abbrev pub stops : Time → List Para → Bool
stops now [] = true
stops now (p ∷ ps) = not p.timeout && not (check_life now p)

-- Every request has timed out before, or is too old at `now`.
abbrev pub all_due : Time → List Para → Bool
all_due now [] = true
all_due now (p ∷ ps) = (p.timeout || check_life now p) && all_due now ps

abbrev pub marked : Para → Para
marked p = if p.timeout then p else record p { timeout = true }

-- Those that had not timed out before.
abbrev pub unanswered : List Para → List ℕ
unanswered [] = []
unanswered (p ∷ ps) = let rest = unanswered ps in if p.timeout then rest else p.id ∷ rest

check_life-record :
    (now : Time) (p : Para) (b : Bool)
    → check_life now (record p { timeout = b }) ≡ check_life now p
unfolding check_life
check_life-record now p b = refl

-- `check` returns how many requests at the head of the list have timed out: each of them had before or
-- is older than AD_RESPONSE_MAX_TIME, and just those that had not before are answered, in their order,
-- and marked. The one behind them has neither timed out nor is it too old, and it and those behind it
-- are left as they were. No request is taken off the list.
pub check_lem :
    (now : Time) (ps : List Para)
    → let s = check now ps in
      (all_due now (take s.count ps) ≡ true)
      × (stops now (drop s.count ps) ≡ true)
      × (s.answered ≡ unanswered (take s.count ps))
      × (s.left ≡ map marked (take s.count ps) ++ drop s.count ps)
      × (all_timeout (take s.count s.left) ≡ true)
      × (length s.left ≡ length ps)
unfolding check
check_lem now [] = (refl, refl, refl, refl, refl, refl)
check_lem now (p ∷ ps) = elim (Bool-cases p.timeout) [
  | inl t ↦
      let (due, stop, answers, left, marks, size) = check_lem now ps in
      let more : (check now ps).count + 1 ≡ suc (check now ps).count = omega arith in
      rw (t, more)
        (due, stop, answers, ap (◌∷◌ (record p { timeout = true })) left, marks, ap suc size)
  | inr f ↦ elim (Bool-cases (check_life now p)) [
    | inl e ↦
        let (due, stop, answers, left, marks, size) = check_lem now ps in
        let more : (check now ps).count + 1 ≡ suc (check now ps).count = omega arith in
        rw (f, e, more)
          (
            rw (check_life-record now p false ∙ e) due,
            stop,
            ap (◌∷◌ p.id) answers,
            ap (◌∷◌ (record p { timeout = true })) left,
            marks,
            ap suc size,
          )
    | inr g ↦ rw (f, g) (refl, ground (arith, f, g), refl, refl, refl, refl)
  ]
]
