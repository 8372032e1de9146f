-- ===== src/Rank/Third.antt =====
-- What `AdRtbRankStrategy` chooses.
use mathlib.Core.Option.{some-injective}
use native.Mathlib.Nat.{mod-lt}
use ad_rtb_adapter.Base.{
  ℕ, zero, suc, ◌^◌, ◌%◌, ◌≤◌, ◌<◌, ◌≡◌, refl, ap, inl, inr, true, false, some, List, [], ◌∷◌,
  get_elem?, length, leb, ◌==◌, arith, Bool-cases,
}
use ad_rtb_adapter.Rank.Choice.{
  UnitPrice, key, Groups, push_prices, at_random, at_most_three, rank_strategy,
}
use ad_rtb_adapter.Rank.Groups.{
  Down, keyed, All, All-at, get_elem?-lt, Full, Full-at, push_prices-Full, push_prices-Down,
  push_prices-keyed,
}
use ad_rtb_adapter.Rank.Table.{rand_wet_bound}
use ad_rtb_adapter.Rank.Wet.{rand_wet}

-- The head has the greatest key.
keyed-head : (x hi : ℕ) (gs : Groups) → Down hi gs → keyed x gs ≡ true → x < hi
keyed-head x hi [] d h = absurd (ground (arith, h))
keyed-head x hi ((k, ps) ∷ gs) d h = elim (Bool-cases (x == k)) [
  | inl e ↦ ground (arith, d.0, e)
  | inr e ↦
      let below : x < k = keyed-head x k gs d.1 (ground (arith, h, e)) in omega (arith, below, d.0)
]

-- A key below the head's is one of the tail.
keyed-tail :
    (x k : ℕ) (ps : List UnitPrice) (gs : Groups)
    → x < k
    → keyed x ((k, ps) ∷ gs) ≡ true
    → keyed x gs ≡ true
keyed-tail x k ps gs l h = ground (arith, l, h)

keyed-le :
    (x hi k : ℕ) (ps : List UnitPrice) (gs : Groups)
    → Down hi ((k, ps) ∷ gs)
    → keyed x ((k, ps) ∷ gs) ≡ true
    → x ≤ k
keyed-le x hi k ps gs d h = omega (arith, keyed-head x (suc k) ((k, ps) ∷ gs) (omega arith, d.1) h)

-- One of the first three groups has at least the third key.
third :
    (gs : Groups) (hi i k a b c : ℕ) (ps : List UnitPrice)
    → Down hi gs
    → i < 3
    → get_elem? gs i ≡ some (k, ps)
    → keyed a gs ≡ true
    → keyed b gs ≡ true
    → keyed c gs ≡ true
    → b < a
    → c < b
    → c ≤ k
third [] hi i k a b c ps d l at ha hb hc ba cb = absurd (ground (arith, ha))
third ((l, qs) ∷ gs) hi zero k a b c ps d li at ha hb hc ba cb =
    let same : l ≡ k = ap (λ g. g.0) (some-injective (l, qs) (k, ps) at) in
    let below = keyed-le c hi l qs gs d hc in omega (arith, same, below)
third ((l, qs) ∷ []) hi (suc i) k a b c ps d li at ha hb hc ba cb = absurd (ground (arith, at))
third ((l, qs) ∷ (m, rs) ∷ gs) hi (suc zero) k a b c ps d li at ha hb hc ba cb =
    let same : m ≡ k = ap (λ g. g.0) (some-injective (m, rs) (k, ps) at) in
    let first = keyed-le a hi l qs ((m, rs) ∷ gs) d ha in
    let second =
      keyed-le b l m rs gs d.1 (keyed-tail b l qs ((m, rs) ∷ gs) (omega (arith, first, ba)) hb) in
    omega (arith, same, second, cb)
third ((l, qs) ∷ (m, rs) ∷ []) hi (suc (suc i)) k a b c ps d li at ha hb hc ba cb =
    absurd (ground (arith, at))
third ((l, qs) ∷ (m, rs) ∷ (n, ts) ∷ gs) hi (suc (suc zero)) k a b c ps d li at ha hb hc ba cb =
    let same : n ≡ k = ap (λ g. g.0) (some-injective (n, ts) (k, ps) at) in
    let first = keyed-le a hi l qs ((m, rs) ∷ (n, ts) ∷ gs) d ha in
    let b_tail = keyed-tail b l qs ((m, rs) ∷ (n, ts) ∷ gs) (omega (arith, first, ba)) hb in
    let second = keyed-le b l m rs ((n, ts) ∷ gs) d.1 b_tail in
    let c_tail = keyed-tail c l qs ((m, rs) ∷ (n, ts) ∷ gs) (omega (arith, first, ba, cb)) hc in
    let c_last = keyed-tail c m rs ((n, ts) ∷ gs) (omega (arith, second, cb)) c_tail in
    omega (arith, same, keyed-le c m n ts gs d.1.1 c_last)
third (g ∷ gs) hi (suc (suc (suc i))) k a b c ps d li at ha hb hc ba cb = absurd (omega (arith, li))

module _ (share : ℕ → ℕ) (first second : ℕ) where
  drawn_group :
      (gs : Groups) (Q : UnitPrice → Type 0)
      → Full Q gs
      → 0 < length gs
      → (i k : ℕ) × (ps : List UnitPrice) × (p : UnitPrice) × (i < 3)
        × (get_elem? gs i ≡ some (k, ps))
        × (at_random second (get_elem? gs (rand_wet share (at_most_three (length gs)) first))
            ≡ some p)
        × (key p ≡ k)
        × Q p
  drawn_group gs Q f h =
      let n = at_most_three (length gs) in
      let i = rand_wet share n first in
      let below : i < n = rand_wet_bound share n first (ground (arith, h)) in
      let (g, at) = get_elem?-lt gs i (ground (arith, below)) in
      let full = Full-at Q gs i g.0 g.1 at f in
      let (p, e) = get_elem?-lt g.1 (second % length g.1) (mod-lt second full.0) in
      let good = All-at (λ p. (key p ≡ g.0) × Q p) g.1 (second % length g.1) p e full.1 in
      (i, g.0, g.1, p, ground (arith, below), at, rw at e, good.0, good.1)

-- `p` is one of `xs`.
abbrev pub Member : List UnitPrice → UnitPrice → Type 0
Member xs p = (j : ℕ) × (get_elem? xs j ≡ some p)

All-map :
    (P Q : UnitPrice → Type 0) (xs : List UnitPrice)
    → ((p : UnitPrice) → P p → Q p)
    → All P xs
    → All Q xs
All-map P Q [] f a = tt
All-map P Q (x ∷ xs) f a = (f x a.0, All-map P Q xs f a.1)

All-Member : (xs : List UnitPrice) → All (Member xs) xs
All-Member [] = tt
All-Member (x ∷ xs) =
    ((0, refl), All-map (Member xs) (Member (x ∷ xs)) xs (λ p m. (suc m.0, m.1)) (All-Member xs))

length-push_prices : (ps : List UnitPrice) → 0 < length ps → 0 < length (push_prices ps [])
length-push_prices [] h = absurd (omega (arith, h))
length-push_prices (p ∷ ps) h =
    some_group (push_prices (p ∷ ps) []) (key p) (push_prices-keyed (p ∷ ps) []).0
  where
    some_group : (gs : Groups) (x : ℕ) → keyed x gs ≡ true → 0 < length gs
    some_group [] x h = absurd (ground (arith, h))
    some_group (g ∷ gs) x h = omega arith

module _ (share : ℕ → ℕ) (first second : ℕ) where
  -- Among one candidate or more, the strategy chooses one of them.
  pub rank_strategy-Member :
      (vs : List UnitPrice)
      → 0 < length vs
      → (p : UnitPrice) × (rank_strategy share first second vs ≡ some p) × Member vs p
  unfolding rank_strategy
  rank_strategy-Member [] h = absurd (omega (arith, h))
  rank_strategy-Member (p ∷ []) h = (p, refl, (0, refl))
  rank_strategy-Member (p ∷ q ∷ ps) h =
      let vs = p ∷ q ∷ ps in
      elim (Bool-cases (leb (length vs) 3)) [
        | inl e ↦
            let i = rand_wet share (length vs) first in
            let (r, at) =
              get_elem?-lt vs i (rand_wet_bound share (length vs) first (omega arith)) in
            (r, rw e at, (i, at))
        | inr e ↦
            let full = push_prices-Full (Member vs) vs [] (All-Member vs) tt in
            let (i, k, ds, r, small, at, drawn, same, m) =
              drawn_group share first second (push_prices vs []) (Member vs) full
                (length-push_prices vs (omega arith)) in
            (r, rw e drawn, m)
      ]

  -- Among more than three candidates, with prices that an `int` holds, the one chosen has at least the
  -- third of the prices: of three candidates with different prices, it costs no less than the cheapest.
  pub rank_strategy_third :
      (vs : List UnitPrice) (a b c : UnitPrice)
      → 3 < length vs
      → All (λ p. p.price < 2 ^ 31) vs
      → Member vs a
      → Member vs b
      → Member vs c
      → b.price < a.price
      → c.price < b.price
      → (p : UnitPrice) × (rank_strategy share first second vs ≡ some p) × (c.price ≤ p.price)
  unfolding rank_strategy
  rank_strategy_third [] a b c h small ma mb mc ba cb = absurd (omega (arith, h))
  rank_strategy_third (p ∷ []) a b c h small ma mb mc ba cb = absurd (omega (arith, h))
  rank_strategy_third (p ∷ q ∷ ps) a b c h small ma mb mc ba cb =
      let vs = p ∷ q ∷ ps in
      let gs = push_prices vs [] in
      let Cheap : UnitPrice → Type 0 = λ p. p.price < 2 ^ 31 in
      let full = push_prices-Full Cheap vs [] small tt in
      let (i, k, ds, r, few, at, drawn, same, cheap) =
        drawn_group share first second gs Cheap full (length-push_prices vs (omega arith)) in
      let keys = push_prices-keyed vs [] in
      let In : UnitPrice → Type 0 = λ p. keyed (key p) gs ≡ true in
      let least =
        third gs (2 ^ 32) i k (key a) (key b) (key c) ds (push_prices-Down vs [] tt) few at
          (All-at In vs ma.0 a ma.1 keys) (All-at In vs mb.0 b mb.1 keys)
          (All-at In vs mc.0 c mc.1 keys)
          (less b a (All-at Cheap vs mb.0 b mb.1 small) (All-at Cheap vs ma.0 a ma.1 small) ba)
          (less c b (All-at Cheap vs mc.0 c mc.1 small) (All-at Cheap vs mb.0 b mb.1 small) cb) in
      let many : leb (length vs) 3 ≡ false = ground (arith, h) in
      (r, rw many drawn, omega (arith, least, same, cheap, All-at Cheap vs mc.0 c mc.1 small))
    where
      less :
          (a b : UnitPrice)
          → a.price < 2 ^ 31
          → b.price < 2 ^ 31
          → a.price < b.price
          → key a < key b
      less a b ha hb h = omega (arith, ha, hb, h)
