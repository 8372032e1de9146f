-- ===== src/Engine/Bid.antt =====
-- Which unit the engine bids for, and when it bids.

use ad_rtb_adapter.Base.{
  ℕ, ◌<◌, ◌≡◌, refl, sym, ◌∙◌, ap, true, false, none, some, List, [], ◌∷◌, length, arith,
  Bool-cases, inl, inr,
}
use ad_rtb_adapter.Engine.Build.{engine_build, creative_of, number, filled}
use ad_rtb_adapter.Engine.Candidates.{find_unit_id, From, some_candidate}
use ad_rtb_adapter.Engine.Left.{NoVip, first_vip-units_left}
use ad_rtb_adapter.Engine.Ranked.{
  Narrows, VipFree, Bidding, engine_filters-NoVip, engine_filters_left, ranked_bid-From, build_some,
  build_ends,
}
use ad_rtb_adapter.Engine.Run.{units_left, Bidder, engine_filters, ranked_bid, engine_bid}
use ad_rtb_adapter.Filters.Looked.{match_of}
use ad_rtb_adapter.Filters.Parameter.{find_unit}
use ad_rtb_adapter.Filters.Planning.{MaterialInfo, PlanningUnit}
use ad_rtb_adapter.Filters.Results.{Results}
use ad_rtb_adapter.Filters.Run.{filters_match, filters_update, none_left}
use ad_rtb_adapter.Filters.Select.{is_some, bids, filters_match-filters_update}
use ad_rtb_adapter.Filters.Units.{Ascending, on_unit}
use ad_rtb_adapter.Protocol.Request.{Request}
use ad_rtb_adapter.Protocol.Response.{Response}
use ad_rtb_adapter.Rank.Choice.{UnitPrice, confirmed, unit_price}
use ad_rtb_adapter.Rank.Chosen.{candidates, rank_choice-none}
use ad_rtb_adapter.Strings.{Text, Libc}

some_left : (r : Results) (i : ℕ) → is_some (match_of i r) ≡ true → none_left r ≡ false
some_left [] i h = absurd (ground (arith, h))
some_left (e ∷ r) i h = refl

module _ (c : Libc) (ctr_price : Request → PlanningUnit → ℕ) (later : Results → Results)
    (share : ℕ → ℕ) (first second : ℕ) where
  left_bids :
      (b : Bidder) (now : Text) (q : Request) (lo i : ℕ) (u : PlanningUnit)
      → b.filters ≡ filters_update c b.units
      → Ascending lo b.units
      → Narrows later
      → is_some (match_of i (engine_filters c ctr_price later b now q)) ≡ true
      → find_unit i b.units ≡ some u
      → bids c now q u ≡ true
  left_bids b now q lo i u made a narrow h s =
      let before = engine_filters_left c ctr_price later b now q i narrow h in
      let all = filters_match-filters_update c now q lo i b.units a in
      let at : is_some (match_of i (filters_match c b.units (filters_update c b.units) now q []))
          ≡ true =
        ap (λ f. is_some (match_of i (filters_match c b.units f now q []))) (sym made) ∙ before in
      ap (on_unit (bids c now q)) (sym s) ∙ sym all ∙ at

  bid_left :
      (b : Bidder) (now : Text) (q : Request)
      → none_left (engine_filters c ctr_price later b now q) ≡ false
      → engine_bid c ctr_price later share first second b now q
        ≡ ranked_bid c ctr_price later share first second b q
            (engine_filters c ctr_price later b now q)
  unfolding engine_bid
  bid_left b now q h = rw h refl

  no_bid :
      (b : Bidder) (now : Text) (q : Request)
      → none_left (engine_filters c ctr_price later b now q) ≡ true
      → engine_bid c ctr_price later share first second b now q ≡ none
  unfolding engine_bid
  no_bid b now q e = rw e refl

  Bidding-From :
      (b : Bidder) (now : Text) (q : Request) (lo : ℕ) (p : UnitPrice) (res : Response)
      → b.filters ≡ filters_update c b.units
      → Ascending lo b.units
      → Narrows later
      → (f : From c ctr_price q b.units (engine_filters c ctr_price later b now q) p)
      → engine_build c b.dev q p f.unit ≡ some res
      → Bidding c ctr_price b now q res
  unfolding filled
  Bidding-From b now q lo p res made a narrow f e =
      let (i, m, s, is) = build_some c b.dev q p f.unit res e in
      let id = find_unit_id f.id b.units f.unit f.found in
      record {
        id = f.id;
        unit = f.unit;
        material = m;
        known = f.found;
        bidding = left_bids b now q lo f.id f.unit made a narrow f.left f.found;
        sized = s;
        dear = λ v. ground (arith, f.good, f.priced, v);
        exec_id = rw is (ap (number c) id);
        max_price = rw is (ap (λ p. number c p.price) f.priced);
        html = rw is refl;
        adx = rw is refl;
      }

  empty_candidates :
      (b : Bidder) (q : Request) (left : Results) (res : Response)
      → NoVip left
      → ranked_bid c ctr_price later share first second b q left ≡ some res
      → 0 < length (candidates c ctr_price q (units_left b.units left))
  empty_candidates b q left res v h =
      some_or_none (candidates c ctr_price q (units_left b.units left)) refl
    where
      some_or_none :
          (ps : List UnitPrice)
          → ps ≡ candidates c ctr_price q (units_left b.units left)
          → 0 < length (candidates c ctr_price q (units_left b.units left))
      some_or_none [] e =
          let failed =
            (rank_choice-none c ctr_price share first second q (units_left b.units left)).1
              (first_vip-units_left b.units left v, sym e) in
          absurd (ground (arith, h, failed))
      some_or_none (p ∷ ps) e = rw (← e) (omega arith)

  -- A response that the engine builds is a bid for a unit that bids for the request, with its creative of
  -- the size that is asked for, at a price above the least one, save for the videos of the two exchanges
  -- that set no price. Conditions: the filters were updated with the units, whose execute ids go up;
  -- the filters behind the ban filter add no unit and mark none for a VIP user.
  pub engine_bid-Bidding :
      (b : Bidder) (now : Text) (q : Request) (lo : ℕ) (res : Response)
      → b.filters ≡ filters_update c b.units
      → Ascending lo b.units
      → Narrows later
      → VipFree later
      → engine_bid c ctr_price later share first second b now q ≡ some res
      → Bidding c ctr_price b now q res
  engine_bid-Bidding b now q lo res made a narrow free h =
      let left = engine_filters c ctr_price later b now q in
      let v = engine_filters-NoVip c ctr_price later b now q free in
      elim (Bool-cases (none_left left)) [
        | inl e ↦ absurd (ground (arith, h, no_bid b now q e))
        | inr e ↦
            let ranked = sym (bid_left b now q e) ∙ h in
            let some_left = empty_candidates b q left res v ranked in
            let (p, f, is) =
              ranked_bid-From c ctr_price later share first second b q left v some_left in
            Bidding-From b now q lo p res made a narrow f (sym is ∙ ranked)
      ]

  left_over :
      (b : Bidder) (now : Text) (q : Request) (lo i : ℕ) (u : PlanningUnit)
      → b.filters ≡ filters_update c b.units
      → Ascending lo b.units
      → ((r : Results) → is_some (match_of i r) ≡ true → is_some (match_of i (later r)) ≡ true)
      → find_unit i b.units ≡ some u
      → bids c now q u ≡ true
      → is_some (match_of i (engine_filters c ctr_price later b now q)) ≡ true
  left_over b now q lo i u made a keep s h =
      let left = filters_match c b.units b.filters now q [] in
      let there : is_some (match_of i left) ≡ true =
        ap (λ f. is_some (match_of i (filters_match c b.units f now q []))) made
        ∙ filters_match-filters_update c now q lo i b.units a
        ∙ ap (on_unit (bids c now q)) s
        ∙ h in
      rw (some_left left i there) (keep left there)

  -- When a unit bids at a price that is confirmed, and every unit that bids has a creative of the size
  -- that is asked for, the engine builds a response. Conditions: the filters were updated with the
  -- units, whose execute ids go up; the filters behind the ban filter leave that unit, add none, and
  -- mark none for a VIP user.
  pub engine_bid_ends :
      (b : Bidder) (now : Text) (q : Request) (lo i : ℕ) (u : PlanningUnit)
      → b.filters ≡ filters_update c b.units
      → Ascending lo b.units
      → Narrows later
      → VipFree later
      → ((r : Results) → is_some (match_of i r) ≡ true → is_some (match_of i (later r)) ≡ true)
      → find_unit i b.units ≡ some u
      → bids c now q u ≡ true
      → confirmed c ctr_price q (unit_price c ctr_price q u) ≡ true
      → ((j : ℕ) (v : PlanningUnit)
          → find_unit j b.units ≡ some v
          → bids c now q v ≡ true
          → (m : MaterialInfo) × (creative_of c q v ≡ some m))
      → (res : Response) × (engine_bid c ctr_price later share first second b now q ≡ some res)
  engine_bid_ends b now q lo i u made a narrow free keep s h good sized =
      let left = engine_filters c ctr_price later b now q in
      let there = left_over b now q lo i u made a keep s h in
      let v = engine_filters-NoVip c ctr_price later b now q free in
      let (p, f, is) =
        ranked_bid-From c ctr_price later share first second b q left v
          (some_candidate c ctr_price q b.units left i u there s good) in
      let (m, n) =
        sized f.id f.unit f.found (left_bids b now q lo f.id f.unit made a narrow f.left f.found) in
      let (res, done) = build_ends c b.dev q p f.unit m n in
      (res, bid_left b now q (some_left left i there) ∙ is ∙ done)
