-- ===== src/Protocol/Pairs/Filled.antt =====
-- A message that is filled from the pairs of its own fields. The encoder leaves out what is empty,
-- so the field keeps the value that `clear` gave it, which is empty too.
use ad_rtb_adapter.Base.{
  ℕ, Option, none, some, List, [], ◌∷◌, ◌++◌, ◌≡◌, refl, ◌⊎◌, inl, inr, append_assoc, append-nil,
  ap, sym, ◌∙◌,
}
use ad_rtb_adapter.Protocol.Wire.{Bytes}
use ad_rtb_adapter.Protocol.Pairs.{
  Slot, string_slot, list_slot, Table, find, assign, Field, one, many,
}
use ad_rtb_adapter.Protocol.Pairs.Encoded.{Pairs, pair_of, each_of, pairs_of}
use ad_rtb_adapter.Protocol.Pairs.Parsed.{keep, keep_all}

-- The strings of a list that are sent.
abbrev pub nonempties : List Bytes → List Bytes
nonempties [] = []
nonempties ([] ∷ vs) = nonempties vs
nonempties ((b ∷ bs) ∷ vs) = (b ∷ bs) ∷ nonempties vs

module _ {R : Type 0} where
  -- A list of strings behind its slot.
  abbrev pub gather : Option (Slot R) → List Bytes → R → R
  gather none vs r = r
  gather (some (string_slot set)) vs r = r
  gather (some (list_slot get set)) vs r = set (get r ++ nonempties vs) r

  -- The fields of a message, written without a test for emptiness.
  abbrev pub fill : Table R → List Field → R → R
  fill table [] r = r
  fill table (one key v ∷ fs) r = fill table fs (keep (find key table) v r)
  fill table (many key vs ∷ fs) r = fill table fs (gather (find key table) vs r)

  -- A list slot is a field: reads see writes, and the last write counts.
  abbrev pub IsField : Option (Slot R) → Type 0
  IsField none = Unit
  IsField (some (string_slot set)) = ⊥
  IsField (some (list_slot get set)) =
      ((xs : List Bytes) (r : R) → get (set xs r) ≡ xs)
      × ((xs ys : List Bytes) (r : R) → set ys (set xs r) ≡ set ys r)
      × ((r : R) → set (get r) r ≡ r)

  -- Where a string is left out, its field is empty already, or holds that string already.
  abbrev pub Fits : Table R → List Field → R → Type 0
  Fits table [] r = Unit
  Fits table (one key v ∷ fs) r =
      ((keep (find key table) [] r ≡ r) ⊎ (keep (find key table) v r ≡ r))
      × Fits table fs (keep (find key table) v r)
  Fits table (many key vs ∷ fs) r =
      IsField (find key table) × Fits table fs (gather (find key table) vs r)

  keep_all-append :
      (table : Table R) (ps qs : Pairs) (r : R)
      → keep_all table (ps ++ qs) r ≡ keep_all table qs (keep_all table ps r)
  keep_all-append table [] qs r = refl
  keep_all-append table ((key, v) ∷ ps) qs r =
      keep_all-append table ps qs (keep (find key table) v r)

  keep_one :
      (table : Table R) (key : ℕ) (v : Bytes) (r : R)
      → (keep (find key table) [] r ≡ r) ⊎ (keep (find key table) v r ≡ r)
      → keep_all table (pair_of key v) r ≡ keep (find key table) v r
  keep_one table key [] r (inl e) = sym e
  keep_one table key [] r (inr e) = sym e
  keep_one table key (b ∷ bs) r e = refl

  gather_lem :
      (s : Option (Slot R)) (v : Bytes) (vs : List Bytes) (r : R)
      → IsField s
      → (gather s [] r ≡ r)
        × (gather s ([] ∷ vs) r ≡ gather s vs r)
        × ((b : ℕ) (bs : Bytes) → gather s vs (keep s (b ∷ bs) r) ≡ gather s ((b ∷ bs) ∷ vs) r)
  unfolding assign
  gather_lem none v vs r f = (refl, refl, λ b bs. refl)
  gather_lem (some (string_slot set)) v vs r f = absurd f
  gather_lem (some (list_slot get set)) v vs r f = (
    rw append-nil (f.2 r),
    refl,
    λ b bs.
        f.1 (get r ++ (b ∷ bs) ∷ []) _ r
        ∙ ap (λ x. set x r)
            (ap (λ x. x ++ nonempties vs) (f.0 (get r ++ (b ∷ bs) ∷ []) r)
              ∙ append_assoc (get r) ((b ∷ bs) ∷ []) (nonempties vs)),
  )

  keep_each :
      (table : Table R) (key : ℕ) (vs : List Bytes) (r : R)
      → IsField (find key table)
      → keep_all table (each_of key vs) r ≡ gather (find key table) vs r
  keep_each table key [] r f = sym (gather_lem (find key table) [] [] r f).0
  keep_each table key ([] ∷ vs) r f =
      keep_each table key vs r f ∙ sym (gather_lem (find key table) [] vs r f).1
  keep_each table key ((b ∷ bs) ∷ vs) r f =
      keep_each table key vs (keep (find key table) (b ∷ bs) r) f
      ∙ (gather_lem (find key table) [] vs r f).2 b bs

  -- Storing the pairs that were sent is writing every field.
  pub keep_all-fill :
      (table : Table R) (fs : List Field) (r : R)
      → Fits table fs r
      → keep_all table (pairs_of fs) r ≡ fill table fs r
  keep_all-fill table [] r f = refl
  keep_all-fill table (one key v ∷ fs) r f =
      keep_all-append table (pair_of key v) (pairs_of fs) r
      ∙ ap (keep_all table (pairs_of fs)) (keep_one table key v r f.0)
      ∙ keep_all-fill table fs (keep (find key table) v r) f.1
  keep_all-fill table (many key vs ∷ fs) r f =
      keep_all-append table (each_of key vs) (pairs_of fs) r
      ∙ ap (keep_all table (pairs_of fs)) (keep_each table key vs r f.0)
      ∙ keep_all-fill table fs (gather (find key table) vs r) f.1
