-- ===== src/Pending.antt =====
-- The requests that wait for the bidder's answer: `AdParaList` of inc/AdParaList.h, the life of a
-- request, and `Time::toNow`. The lock makes each operation one step, and `pAdapter` is not NULL.
pub mod Timeouts
pub mod Life
mod Tests
use ad_rtb_adapter.Base.Int.{pos, int_bits, ◌-ℤ◌}
use ad_rtb_adapter.Base.{
  ℕ, suc, ◌+◌, ◌*◌, Option, none, some, Bool, true, false, List, [], ◌∷◌, ◌++◌, ltb, leb, ◌==◌,
  if◌then◌else◌, length,
}

-- A `struct timeval`.
pub record Time : Type 0 where
  pub second : ℕ
  pub microsecond : ℕ

-- `toNow`, at the time `now`. A difference of seconds that is negative wraps around.
unfoldable pub to_now : Time → Time → ℕ
unfolding ◌-ℤ◌
to_now now t =
    if leb t.microsecond now.microsecond
    then int_bits
        (pos (now.second * 1000000 + now.microsecond) -ℤ pos (t.second * 1000000 + t.microsecond))
    else int_bits
        (pos (now.second * 1000000 + t.microsecond) -ℤ pos (t.second * 1000000 + now.microsecond))

-- What the list needs of an `AdAdapterPara`: which it is, when its request came, and `m_bTimeout`.
pub record Para : Type 0 where
  pub id : ℕ
  pub born : Time
  pub timeout : Bool

-- `push`
abbrev pub push : Para → List Para → List Para
push p ps = ps ++ p ∷ []

-- `del`, with what it returns: whether the pointer was there
abbrev pub del : ℕ → List Para → Bool × List Para
del id [] = (false, [])
del id (p ∷ ps) =
    let (found, rest) = del id ps in if id == p.id then (true, ps) else (found, p ∷ rest)

-- `pop` reads the element behind the iterator after `pop_front` has freed it: `none`, unless the
-- list is empty and NULL is returned.
abbrev pub pop : List Para → Option (Option ℕ × List Para)
pop [] = some (none, [])
pop (p ∷ ps) = none

-- The list, the calls of `SessionTimeout` and of `FreePara` in order, and what is returned. Left
-- out is `AdSessionIdle`, which `clear` calls behind each `FreePara`.
pub record Sweep : Type 0 where
  pub left : List Para
  pub answered : List ℕ
  pub freed : List ℕ
  pub count : ℕ

abbrev response_max_time : ℕ
response_max_time = 15000

-- `checkLife`: the request is older than AD_RESPONSE_MAX_TIME
unfoldable pub check_life : Time → Para → Bool
check_life now p = ltb response_max_time (to_now now p.born)

-- `check`
unfoldable pub check : Time → List Para → Sweep
unfolding check_life
check now [] = record { left = []; answered = []; freed = []; count = 0 }
check now (p ∷ ps) =
    let rest = check now ps in
    if p.timeout
    then record rest { left = p ∷ rest.left; count = rest.count + 1 }
    else if check_life now p
    then record rest {
      left = record p { timeout = true } ∷ rest.left;
      answered = p.id ∷ rest.answered;
      count = rest.count + 1;
    }
    else record { left = p ∷ ps; answered = []; freed = []; count = 0 }

-- `clear`
abbrev pub clear : List Para → Sweep
clear [] = record { left = []; answered = []; freed = []; count = 0 }
clear (p ∷ ps) =
    let rest = clear ps in
    record rest {
      answered = if p.timeout then rest.answered else p.id ∷ rest.answered;
      freed = p.id ∷ rest.freed;
    }

pub data Call : Type 0 where
  push_call : Para → Call
  del_call : ℕ → Call
  pop_call : Call
  check_call : Time → Call
  clear_call : Call

-- The list after some calls, and all that the list itself called `SessionTimeout` on; `none` is a read
-- of freed memory.
abbrev pub run : List Call → List Para → Option (List Para × List ℕ)
run [] ps = some (ps, [])
run (push_call p ∷ cs) ps = run cs (push p ps)
run (del_call id ∷ cs) ps = run cs (del id ps).1
run (pop_call ∷ cs) ps = elim (pop ps) [ none ↦ none | some r ↦ run cs r.1 ]
run (check_call now ∷ cs) ps =
    let s = check now ps in
    elim (run cs s.left) [ none ↦ none | some r ↦ some (r.0, s.answered ++ r.1) ]
run (clear_call ∷ cs) ps =
    let s = clear ps in
    elim (run cs s.left) [ none ↦ none | some r ↦ some (r.0, s.answered ++ r.1) ]
