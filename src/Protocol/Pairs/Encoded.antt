-- ===== src/Protocol/Pairs/Encoded.antt =====
-- What the calls of AD_PROTOCOL_KV write: the pairs with a value, one after the other.
use ad_rtb_adapter.Base.Int.{pos, ltb_ℤ, ◌-ℤ◌, pos_part, neg_part, ◌≤ℤ◌, -ℤ_parts}
use ad_rtb_adapter.Base.{
  ◌↔◌, false, ap, sym, subst, Bool-cases, inl, inr, ℕ, ◌+◌, ◌%◌, ◌^◌, ◌≤◌, ◌<◌, Option, none, some,
  List, [], ◌∷◌, ◌++◌, length, ◌≡◌, refl, arith, append_assoc, append-nil, length-append,
}
use mathlib.Core.Option.{some-injective, none-ne-some}
use ad_rtb_adapter.Protocol.Wire.{Bytes, put32}
use ad_rtb_adapter.Protocol.Pairs.{
  Emit, pair_len, pair_bytes, put_pair, put_each, put_fields, Field, one, many, ◌>>=◌,
}

abbrev pub Pairs : Type 0
Pairs = List (ℕ × Bytes)

abbrev pub pair_of : ℕ → Bytes → Pairs
pair_of key [] = []
pair_of key (b ∷ bs) = (key, b ∷ bs) ∷ []

abbrev pub each_of : ℕ → List Bytes → Pairs
each_of key [] = []
each_of key (v ∷ vs) = pair_of key v ++ each_of key vs

abbrev pub pairs_of : List Field → Pairs
pairs_of [] = []
pairs_of (one key v ∷ fs) = pair_of key v ++ pairs_of fs
pairs_of (many key vs ∷ fs) = each_of key vs ++ pairs_of fs

abbrev pub bytes_of : Pairs → Bytes
bytes_of [] = []
bytes_of ((key, v) ∷ ps) = pair_bytes key v ++ bytes_of ps

pub bytes_of-append : (ps qs : Pairs) → bytes_of (ps ++ qs) ≡ bytes_of ps ++ bytes_of qs
bytes_of-append [] qs = refl
bytes_of-append ((key, v) ∷ ps) qs =
    rw (bytes_of-append ps qs, append_assoc (pair_bytes key v) (bytes_of ps) (bytes_of qs))

pub length-pair_bytes : (key : ℕ) (v : Bytes) → length (pair_bytes key v) ≡ pair_len v
unfolding put32
length-pair_bytes key v = omega arith

-- The state `e'` is `e` with the pairs `ps` written behind, counted, and taken off the space.
pub record Emits (e e' : Emit) (ps : Pairs) : Type 0 where
  pub out : e'.out ≡ e.out ++ bytes_of ps
  pub count : e'.count % 2 ^ 16 ≡ (e.count + length ps) % 2 ^ 16
  pub count_in : e.count < 2 ^ 16 → e'.count < 2 ^ 16
  pub spent :
      pos_part e'.space + neg_part e.space + length (bytes_of ps)
      ≡ neg_part e'.space + pos_part e.space
  pub space_left : pos 0 ≤ℤ e.space → pos 0 ≤ℤ e'.space

pub Emits-refl : (e : Emit) → Emits e e []
Emits-refl e = record {
  out = rw append-nil;
  count = omega arith;
  count_in = λ h. h;
  spent = omega arith;
  space_left = λ h. h;
}

pub Emits-trans :
    {e f g : Emit} {ps qs : Pairs} → Emits e f ps → Emits f g qs → Emits e g (ps ++ qs)
Emits-trans {e} {f} {g} {ps} {qs} a b = record {
  out = rw (b.out, a.out, bytes_of-append ps qs) (append_assoc e.out (bytes_of ps) (bytes_of qs));
  count = omega (arith, a.count, b.count, length-append ps qs);
  count_in = λ h. b.count_in (a.count_in h);
  spent =
      rw (bytes_of-append ps qs)
        (omega (arith, a.spent, b.spent, length-append (bytes_of ps) (bytes_of qs)));
  space_left = λ h. b.space_left (a.space_left h);
}

abbrev wrote : ℕ → Bytes → Emit → Emit
wrote key v e = record {
  out = e.out ++ pair_bytes key v;
  count = (e.count + 1) % 2 ^ 16;
  space = e.space -ℤ pos (pair_len v);
}

wrote-Emits :
    (key : ℕ) (v : Bytes) (e : Emit)
    → ltb_ℤ e.space (pos (pair_len v)) ≡ false
    → Emits e (wrote key v e) ((key, v) ∷ [])
wrote-Emits key v e fits =
    let p = -ℤ_parts e.space (pos (pair_len v)) in
    let n = length-pair_bytes key v in
    let le : pos_part (pos (pair_len v)) + neg_part e.space ≤ pos_part e.space = ground arith in
    record {
      out = ap (λ x. e.out ++ x) (sym (append-nil (pair_bytes key v)));
      count = omega arith;
      count_in = λ _. omega arith;
      spent = rw append-nil (omega (arith, p, n));
      space_left = λ _. omega (arith, p, le);
    }

pub put_pair-Emits :
    (key : ℕ) (v : Bytes) (e : Emit) {e' : Emit}
    → put_pair key v e ≡ some e'
    → Emits e e' (pair_of key v)
unfolding put_pair
put_pair-Emits key [] e h = subst (λ x. Emits e x []) (some-injective e _ h) (Emits-refl e)
put_pair-Emits key (b ∷ bs) e h = elim (Bool-cases (ltb_ℤ e.space (pos (pair_len (b ∷ bs))))) [
  | inl full ↦ absurd (none-ne-some _ (rw full at h))
  | inr fits ↦
      subst (λ x. Emits e x ((key, b ∷ bs) ∷ [])) (some-injective _ _ (rw fits at h))
        (wrote-Emits key (b ∷ bs) e fits)
]

-- A chain that succeeds, by its parts.
pub >>=-Emits :
    (m : Option Emit) (f : Emit → Option Emit) (e : Emit) {e' : Emit} (ps qs : Pairs)
    → (m >>= f) ≡ some e'
    → ((d : Emit) → m ≡ some d → Emits e d ps)
    → ((d : Emit) → f d ≡ some e' → Emits d e' qs)
    → Emits e e' (ps ++ qs)
>>=-Emits none f e ps qs h a b = absurd (none-ne-some _ h)
>>=-Emits (some d) f e ps qs h a b = Emits-trans (a d refl) (b d h)

put_each-Emits :
    (key : ℕ) (vs : List Bytes) (e : Emit) {e' : Emit}
    → put_each key vs e ≡ some e'
    → Emits e e' (each_of key vs)
unfolding put_each
put_each-Emits key [] e h = subst (λ x. Emits e x []) (some-injective e _ h) (Emits-refl e)
put_each-Emits key (v ∷ vs) e h =
    >>=-Emits (put_pair key v e) (put_each key vs) e (pair_of key v) (each_of key vs) h
      (λ d. put_pair-Emits key v e) (λ d. put_each-Emits key vs d)

-- A run of the macro over the fields of a message that reports no lack of space.
pub put_fields-Emits :
    (fs : List Field) (e : Emit) {e' : Emit} → put_fields fs e ≡ some e' → Emits e e' (pairs_of fs)
unfolding put_fields
put_fields-Emits [] e h = subst (λ x. Emits e x []) (some-injective e _ h) (Emits-refl e)
put_fields-Emits (one key v ∷ fs) e h =
    >>=-Emits (put_pair key v e) (put_fields fs) e (pair_of key v) (pairs_of fs) h
      (λ d. put_pair-Emits key v e) (λ d. put_fields-Emits fs d)
put_fields-Emits (many key vs ∷ fs) e h =
    >>=-Emits (put_each key vs e) (put_fields fs) e (each_of key vs) (pairs_of fs) h
      (λ d. put_each-Emits key vs e) (λ d. put_fields-Emits fs d)

-- What there is room for is written.
put_pair_total :
    (key : ℕ) (v : Bytes) (e : Emit) (more : ℕ)
    → pos (length (bytes_of (pair_of key v)) + more) ≤ℤ e.space
    → (e' : Emit) × (put_pair key v e ≡ some e') × (pos more ≤ℤ e'.space)
unfolding put_pair
put_pair_total key [] e more h = (e, refl, omega arith)
put_pair_total key (b ∷ bs) e more h =
    let v = b ∷ bs in
    let n = length-pair_bytes key v in
    let le : pair_len v + more ≤ pos_part e.space =
      omega (arith, n, length-append (pair_bytes key v) []) in
    let z : neg_part e.space ≡ 0 = ground arith in
    let fits : ltb_ℤ e.space (pos (pair_len v)) ≡ false = ground arith in
    (wrote key v e, rw fits, omega (arith, -ℤ_parts e.space (pos (pair_len v))))

put_each_total :
    (key : ℕ) (vs : List Bytes) (e : Emit) (more : ℕ)
    → pos (length (bytes_of (each_of key vs)) + more) ≤ℤ e.space
    → (e' : Emit) × (put_each key vs e ≡ some e') × (pos more ≤ℤ e'.space)
unfolding put_each
put_each_total key [] e more h = (e, refl, omega arith)
put_each_total key (v ∷ vs) e more h =
    let tail = bytes_of (each_of key vs) in
    let (d, p, room) = put_pair_total key v e (length tail + more) (
      omega (
        arith,
        ap length (bytes_of-append (pair_of key v) (each_of key vs)),
        length-append (bytes_of (pair_of key v)) tail,
      )) in
    let (e', q, room') = put_each_total key vs d more room in (e', rw (p, ◌>>=◌, q), room')

pub put_fields_room :
    (fs : List Field) (e : Emit)
    → pos (length (bytes_of (pairs_of fs))) ≤ℤ e.space
    → (e' : Emit) × (put_fields fs e ≡ some e')
unfolding put_fields
put_fields_room [] e h = (e, refl)
put_fields_room (one key v ∷ fs) e h =
    let tail = bytes_of (pairs_of fs) in
    let (d, p, room) = put_pair_total key v e (length tail) (
      omega (
        arith,
        ap length (bytes_of-append (pair_of key v) (pairs_of fs)),
        length-append (bytes_of (pair_of key v)) tail,
      )) in
    let (e', q) = put_fields_room fs d room in (e', rw (p, ◌>>=◌, q))
put_fields_room (many key vs ∷ fs) e h =
    let tail = bytes_of (pairs_of fs) in
    let (d, p, room) = put_each_total key vs e (length tail) (
      omega (
        arith,
        ap length (bytes_of-append (each_of key vs) (pairs_of fs)),
        length-append (bytes_of (each_of key vs)) tail,
      )) in
    let (e', q) = put_fields_room fs d room in (e', rw (p, ◌>>=◌, q))

-- With a space that is not negative, the calls succeed exactly when the pairs fit in it.
pub put_fields_iff :
    (fs : List Field) (e : Emit)
    → pos 0 ≤ℤ e.space
    → ((e' : Emit) × (put_fields fs e ≡ some e'))
      ↔ (pos (length (bytes_of (pairs_of fs))) ≤ℤ e.space)
put_fields_iff fs e h = (
  λ (e', p). let w = put_fields-Emits fs e p in omega (arith, w.spent, w.space_left h),
  put_fields_room fs e,
)
