-- ===== src/Rank/Wet.antt =====
-- `AdRtbRandWet`: a number below `count`, drawn with weights.
use ad_rtb_adapter.Base.{
  ℕ, zero, suc, ◌+◌, ◌-◌, ◌%◌, List, set, get_or, replicate, ◌==◌, if◌then◌else◌,
}

-- The places of `choice`.
abbrev pub total : ℕ
total = 100

-- `for(j = …; …; j ++) choice[j] = i`; a write behind the array, which is undefined there, is left out.
abbrev pub fill : ℕ → ℕ → ℕ → List ℕ → List ℕ
fill zero j i choice = choice
fill (suc n) j i choice = fill n (j + 1) i (set choice j i)

-- `share i` is `chnum`, the weight of `i` in percent, for a `m_fWeight` between 0 and 1.
module _ (share : ℕ → ℕ) where
  -- The rounds that are left, from `i` on.
  abbrev pub rounds : ℕ → ℕ → ℕ → List ℕ → List ℕ
  rounds zero i sum choice = choice
  rounds (suc zero) i sum choice = fill (total - sum) sum i choice
  rounds (suc (suc n)) i sum choice =
      rounds (suc n) (i + 1) (sum + share i) (fill (share i) sum i choice)

  -- `random` is what `rand()` returns.
  unfoldable pub rand_wet : ℕ → ℕ → ℕ
  rand_wet count random =
      if count == 1 then 0 else get_or (rounds count 0 0 (replicate total 0)) (random % total) 0
