-- ===== src/Ban/Updates.antt =====
-- What `Match` answers after updates.
use ad_rtb_adapter.Base.{
  is_empty, same_text, ℕ, ◌≡◌, refl, ap, ◌∙◌, true, false, ◌&&◌, ◌||◌, not, List, [], ◌∷◌,
  if◌then◌else◌, arith, Bool-cases, inl, inr,
}
use ad_rtb_adapter.Buff.PingPong.{get, get-refill}
use ad_rtb_adapter.Ban.{
  Bans, has, fill, Filter, fresh, Redis, refused, no_reply, reply, update, matches, updates,
}
use ad_rtb_adapter.Protocol.Request.{Request}
use ad_rtb_adapter.Protocol.Wire.{Bytes}

-- The keys that the last reply gave, or else those of before.
abbrev pub latest : List Redis → List Bytes → List Bytes
latest [] ks = ks
latest (refused ∷ rs) ks = latest rs ks
latest (no_reply ∷ rs) ks = latest rs ks
latest (reply new ∷ rs) ks = latest rs new

same_text_lem : (x y : Bytes) → same_text x y ≡ true → x ≡ y
same_text_lem [] [] t = refl
same_text_lem [] (y ∷ ys) t = absurd (ground (arith, t))
same_text_lem (x ∷ xs) [] t = absurd (ground (arith, t))
same_text_lem (x ∷ xs) (y ∷ ys) t =
    let tail : xs ≡ ys = same_text_lem xs ys (ground (arith, t)) in
    let head : x ≡ y = ground (arith, t) in cc (tail, head)

-- A key that is there already adds nothing.
has-insert :
    (q k : Bytes) (m : Bans) → has q (if has k m then m else k ∷ m) ≡ same_text q k || has q m
has-insert q k m = elim (Bool-cases (has k m)) [
  | inl t ↦ elim (Bool-cases (same_text q k)) [
    | inl e ↦ let same = same_text_lem q k e in rw (t, e, same) t
    | inr n ↦ rw (t, n) refl
  ]
  | inr f ↦ rw f refl
]

has-fill : (q : Bytes) (ks : List Bytes) (m : Bans) → has q (fill ks m) ≡ has q ks || has q m
has-fill q [] m = refl
has-fill q (k ∷ ks) m =
    has-fill q ks (if has k m then m else k ∷ m)
    ∙ ap (λ x. has q ks || x) (has-insert q k m)
    ∙ ground arith

has-updates :
    (q : Bytes) (rs : List Redis) (b : Filter) (ks : List Bytes)
    → has q (get false b) ≡ has q ks
    → has q (get false (updates rs b)) ≡ has q (latest rs ks)
unfolding update
has-updates q [] b ks h = h
has-updates q (refused ∷ rs) b ks h = has-updates q rs b ks h
has-updates q (no_reply ∷ rs) b ks h = has-updates q rs b ks h
has-updates q (reply new ∷ rs) b ks h =
    has-updates q rs (update (reply new) b).1 new
      (ap (has q) (get-refill (fill new [] ∷ []) b).1 ∙ has-fill q new [] ∙ ground arith)

-- After any updates of a filter that was constructed, `Match` answers whether the address of the
-- user is given and stands among the keys that the last successful reply of Redis gave. Neither
-- the place nor the exchange of the request matters.
pub matches-updates :
    (print : ℕ → Bytes → Bytes) (q : Request) (rs : List Redis)
    → matches print q (updates rs fresh) ≡ not (is_empty q.user_ip) && has q.user_ip (latest rs [])
unfolding matches
matches-updates print q rs = elim (Bool-cases (is_empty q.user_ip)) [
  | inl t ↦ rw t refl
  | inr f ↦ rw f (ground (arith, has-updates q.user_ip rs fresh [] refl))
]
