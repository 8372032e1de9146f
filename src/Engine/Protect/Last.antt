-- ===== src/Engine/Protect/Last.antt =====
-- The weight of a place is that of its last line.
use ad_rtb_adapter.Base.{
  ℕ, ◌≡◌, refl, ap, ◌∙◌, Bool, true, false, ◌&&◌, Option, none, some, List, [], ◌∷◌, length, get_or,
  leb, same_text, if◌then◌else◌, Bool-cases, inl, inr,
}
use ad_rtb_adapter.Engine.Protect.{
  Protect, ProtectData, put_data, find_weight, as_int, protect_search, protect_parse, protect_key,
  protect_data, put_row, protect_lines, protect_init, protect_max, protect_weight,
}
use ad_rtb_adapter.Filters.Filed.{same_text→≡, same_text_sym}
use ad_rtb_adapter.Strings.Split.Fields.{pieces, str_split-pieces}
use ad_rtb_adapter.Strings.Split.{pieces_of}
use ad_rtb_adapter.Strings.{Text, Libc, c_str}

search-put_data :
    (key k : Text) (x : ProtectData) (m : Protect)
    → find_weight key (put_data k x m)
      ≡ (if same_text key k then some x.weight else find_weight key m)
search-put_data key k x [] = refl
search-put_data key k x ((j, y) ∷ m) = elim (Bool-cases (same_text k j)) [
  | inl e ↦
      let eq : k ≡ j = same_text→≡ k j e in
      elim (Bool-cases (same_text key j)) [
        | inl h ↦ rw (e, eq, h) refl
        | inr h ↦ rw (e, eq, h) refl
      ]
  | inr e ↦ elim (Bool-cases (same_text key j)) [
    | inl h ↦
        let eq : key ≡ j = same_text→≡ key j h in
        let apart : same_text j k ≡ false = same_text_sym j k ∙ e in rw (e, h, eq, apart) refl
    | inr h ↦ rw (e, h) (search-put_data key k x m)
  ]
]

abbrev pub or_weight : Option ℕ → Option ℕ → Option ℕ
or_weight none o = o
or_weight (some w) o = some w

module _ (c : Libc) where
  -- The weight that a row of fields gives to `key`, if it has three fields and its first two make `key`.
  abbrev pub row_weight : Text → List Text → Option ℕ
  row_weight key row =
      if leb protect_max (length row) && same_text key (protect_key row)
      then some (c.atoi (c_str (get_or row protect_weight [])))
      else none

  -- The weight that the last of the lines gives which gives one.
  abbrev pub last_weight : Text → List Text → Option ℕ
  last_weight key [] = none
  last_weight key (l ∷ ls) = or_weight (last_weight key ls) (row_weight key (pieces 9 (c_str l)))

  search-put_row :
      (key : Text) (row : List Text) (m : Protect)
      → find_weight key (put_row c row m) ≡ or_weight (row_weight key row) (find_weight key m)
  search-put_row key row m = elim (Bool-cases (leb protect_max (length row))) [
    | inl h ↦ rw h (
        search-put_data key (protect_key row) (protect_data c row) m
        ∙ chosen (same_text key (protect_key row)) (protect_data c row).weight (find_weight key m))
    | inr h ↦ rw h refl
  ]
    where
      chosen :
          (b : Bool) (w : ℕ) (o : Option ℕ)
          → (if b then some w else o) ≡ or_weight (if b then some w else none) o
      chosen true w o = refl
      chosen false w o = refl

  or_weight_assoc : (a b o : Option ℕ) → or_weight a (or_weight b o) ≡ or_weight (or_weight a b) o
  or_weight_assoc none b o = refl
  or_weight_assoc (some w) b o = refl

  protect_parse-pieces : (s : Text) → protect_parse s ≡ pieces 9 s
  unfolding protect_parse
  protect_parse-pieces s = ap pieces_of (str_split-pieces 9 s)

  search-protect_lines :
      (key : Text) (ls : List Text) (m : Protect)
      → find_weight key (protect_lines c ls m) ≡ or_weight (last_weight key ls) (find_weight key m)
  search-protect_lines key [] m = refl
  search-protect_lines key (l ∷ ls) m =
      let row = pieces 9 (c_str l) in
      search-protect_lines key ls (put_row c (protect_parse (c_str l)) m)
      ∙ ap (λ (r : List Text). or_weight (last_weight key ls) (find_weight key (put_row c r m)))
          (protect_parse-pieces (c_str l))
      ∙ ap (or_weight (last_weight key ls)) (search-put_row key row m)
      ∙ or_weight_assoc (last_weight key ls) (row_weight key row) (find_weight key m)

  -- After a file was read, whatever the table held, a search gives the weight of the last line that has
  -- at least three nonempty fields between its tabs and whose first two fields, one behind the other
  -- and cut to the key's buffer, are the key, as an `int`; and AD_FAILURE if no line is so. The last
  -- field of a line has the newline.
  pub protect_search-protect_init :
      (ls : List Text) (m : Protect) (key : Text)
      → protect_search key (protect_init c (some ls) m).0 ≡ as_int (last_weight key ls)
  unfolding protect_init
  protect_search-protect_init ls m key =
      ap as_int (search-protect_lines key ls [] ∙ or_weight_none (last_weight key ls))
    where
      or_weight_none : (o : Option ℕ) → or_weight o none ≡ o
      or_weight_none none = refl
      or_weight_none (some w) = refl
