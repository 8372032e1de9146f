-- ===== src/Rank/Choice.antt =====
-- `AdRtbRankChoice` and `AdRtbRankStrategy`.
use ad_rtb_adapter.Base.{
  ℕ, ◌+◌, ◌^◌, ◌%◌, Bool, ◌&&◌, ◌||◌, Option, none, some, List, [], ◌∷◌, ◌++◌, length, get_elem?,
  ltb, leb, ◌==◌, if◌then◌else◌, same_text,
}
use ad_rtb_adapter.Filters.Planning.{PlanningUnit}
use ad_rtb_adapter.Protocol.Request.{Request}
use ad_rtb_adapter.Rank.Wet.{rand_wet}
use ad_rtb_adapter.Strings.{Text, c_str, Libc}

-- `AdUnitPrice`; `eid` stands for `pPlaningData` too.
pub record UnitPrice : Type 0 where
  pub eid : ℕ
  pub price_type : ℕ
  pub price : ℕ

abbrev vip_price : ℕ
vip_price = 5000

abbrev order_cpm : ℕ
order_cpm = 1

abbrev order_cpc : ℕ
order_cpc = 2

abbrev adx_yuku : ℕ
adx_yuku = 5

abbrev adx_miaozhen : ℕ
adx_miaozhen = 12

abbrev find_price : Text → List (Text × ℕ) → Option ℕ
find_price key [] = none
find_price key ((k, p) ∷ m) =
    let rest = find_price key m in if same_text key k then some p else rest

abbrev advance_strategy : Request → PlanningUnit → Option ℕ
advance_strategy q u = elim u.advanced_price [ none ↦ none | some m ↦ find_price q.p_id m ]

abbrev or_else : Option ℕ → ℕ → ℕ
or_else none p = p
or_else (some p) p' = p

-- The price as the key of `map<int, …>`: the order of `int` on 32 bits, from its least value up.
abbrev pub key : UnitPrice → ℕ
key p = (p.price + 2 ^ 31) % 2 ^ 32

abbrev pub Groups : Type 0
Groups = List (ℕ × List UnitPrice)

-- `m_Price[(*it).uiPrice].push_back(*it)`, the map going down
abbrev pub push_price : UnitPrice → Groups → Groups
push_price p [] = (key p, p ∷ []) ∷ []
push_price p ((k, ps) ∷ gs) =
    let rest = push_price p gs in
    if ltb k (key p)
    then (key p, p ∷ []) ∷ (k, ps) ∷ gs
    else if key p == k
    then (k, ps ++ p ∷ []) ∷ gs
    else (k, ps) ∷ rest

abbrev pub push_prices : List UnitPrice → Groups → Groups
push_prices [] gs = gs
push_prices (p ∷ ps) gs = push_prices ps (push_price p gs)

abbrev pub at_random : ℕ → Option (ℕ × List UnitPrice) → Option UnitPrice
at_random random none = none
at_random random (some (k, ps)) = get_elem? ps (random % length ps)

abbrev pub at_most_three : ℕ → ℕ
at_most_three n = if leb 3 n then 3 else n

-- What the loop of `AdRtbRankChoice` ends with: the first VIP user's unit, or `v_rankVec`.
pub data Collected : Type 0 where
  vip : UnitPrice → Collected
  ranked : List UnitPrice → Collected

abbrev pub also : UnitPrice → Collected → Collected
also p (vip v) = vip v
also p (ranked ps) = ranked (p ∷ ps)

-- `first` and `second` are what `rand()` returns.
module _ (share : ℕ → ℕ) (first second : ℕ) where
  unfoldable pub rank_strategy : List UnitPrice → Option UnitPrice
  rank_strategy [] = none
  rank_strategy (p ∷ []) = some p
  rank_strategy (p ∷ q ∷ ps) =
      let gs = push_prices (p ∷ q ∷ ps) [] in
      if leb (length (p ∷ q ∷ ps)) 3
      then get_elem? (p ∷ q ∷ ps) (rand_wet share (length (p ∷ q ∷ ps)) first)
      else at_random second (get_elem? gs (rand_wet share (at_most_three (length gs)) first))

-- `ctr_price` is the price that `AdRtbCtrModel` leaves, 0 without a model.
module _ (c : Libc) (ctr_price : Request → PlanningUnit → ℕ) where
  abbrev pub unit_price : Request → PlanningUnit → UnitPrice
  unit_price q u = record {
    eid = u.execute_id;
    price_type = u.target_price_type;
    price = or_else (advance_strategy q u) (
        if u.target_price_type == order_cpm
        then u.target_price
        else if u.target_price_type == order_cpc
        then ctr_price q u
        else 0);
  }

  abbrev pub vip_unit : PlanningUnit → UnitPrice
  vip_unit u = record { eid = u.execute_id; price_type = u.target_price_type; price = vip_price }

  abbrev pub video_exchange : Request → Bool
  video_exchange q =
      (c.atoi (c_str q.flow) == 1) && ((q.adx == adx_yuku) || (q.adx == adx_miaozhen))

  -- The price is above the least one, or does not count.
  abbrev pub confirmed : Request → UnitPrice → Bool
  confirmed q p = (ltb 0 p.price && ltb (c.atoi (c_str q.min_price)) p.price) || video_exchange q

  -- The loop over the results: each unit with its `m_bVip`.
  abbrev pub collect : Request → List (PlanningUnit × Bool) → Collected
  collect q [] = ranked []
  collect q ((u, b) ∷ r) =
      let rest = collect q r in
      if b
      then vip (vip_unit u)
      else if confirmed q (unit_price q u)
      then also (unit_price q u) rest
      else rest

  module _ (share : ℕ → ℕ) (first second : ℕ) where
    abbrev pub deal : Collected → Option UnitPrice
    deal (vip p) = some p
    deal (ranked ps) = rank_strategy share first second ps

    -- `none` is AD_FAILURE.
    unfoldable pub rank_choice : Request → List (PlanningUnit × Bool) → Option UnitPrice
    rank_choice q r = deal (collect q r)
