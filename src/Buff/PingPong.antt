-- ===== src/Buff/PingPong.antt =====
-- `AdPingPongBuffer`: two copies, one to read and one to fill. A reference that is returned is
-- modelled by what it reads and by what a write through it makes of the buffer.
use ad_rtb_adapter.Base.{ap, ◌∙◌, Bool, true, false, ◌≡◌, refl, List, [], ◌∷◌, if◌then◌else◌}

-- `m_ctRequestA`, `m_ctRequestB` and `m_bFirst`
pub record PingPong {ℓ} (A : Type ℓ) : Type ℓ where
  pub request_a : A
  pub request_b : A
  pub first : Bool

module _ {ℓ} {A : Type ℓ} where
  -- `GetBack`
  abbrev pub get_back : PingPong A → A
  get_back b = if b.first then b.request_b else b.request_a

  -- `Get`
  abbrev pub get : Bool → PingPong A → A
  get back b = if back then get_back b else if b.first then b.request_a else b.request_b

  -- A write through the reference that `Get` returns.
  abbrev pub put : Bool → A → PingPong A → PingPong A
  put true x b = if b.first then record b { request_b = x } else record b { request_a = x }
  put false x b = if b.first then record b { request_a = x } else record b { request_b = x }

  -- `Switch`
  abbrev pub switch : PingPong A → PingPong A
  switch b = if b.first then record b { first = false } else record b { first = true }

  -- The writes of a refill, one after another.
  abbrev pub refill : List A → PingPong A → PingPong A
  refill [] b = b
  refill (x ∷ xs) b = refill xs (put true x b)

  abbrev pub last_of : A → List A → A
  last_of d [] = d
  last_of d (x ∷ xs) = last_of x xs

  put_lem :
      (x a b : A) (f : Bool)
      → let both : PingPong A = record { request_a = a; request_b = b; first = f } in
        (get false (put true x both) ≡ get false both) × (get true (put true x both) ≡ x)
  put_lem x a b true = (refl, refl)
  put_lem x a b false = (refl, refl)

  switch_lem :
      (a b : A) (f : Bool)
      → let both : PingPong A = record { request_a = a; request_b = b; first = f } in
        (get false (switch both) ≡ get true both)
        × (get false (switch (switch both)) ≡ get false both)
  switch_lem a b true = (refl, refl)
  switch_lem a b false = (refl, refl)

  -- A reader sees nothing of a refill until `Switch`, then the last write of it, and after a second
  -- `Switch` what was there before.
  pub get-refill :
      (xs : List A) (b : PingPong A)
      → (get false (refill xs b) ≡ get false b)
        × (get false (switch (refill xs b)) ≡ last_of (get true b) xs)
        × (get false (switch (switch (refill xs b))) ≡ get false b)
  get-refill [] b =
      let (next, again) = switch_lem b.request_a b.request_b b.first in (refl, next, again)
  get-refill (x ∷ xs) b =
      let (seen, last, before) = get-refill xs (put true x b) in
      let (front, back) = put_lem x b.request_a b.request_b b.first in
      (seen ∙ front, last ∙ ap (λ d. last_of d xs) back, before ∙ front)
