-- ===== src/Config.antt =====
-- The configuration file: libutil/src/AdRtbConfig.cpp.
pub mod Printed
mod Tests
use ad_rtb_adapter.Base.{
  ℕ, ◌-◌, leb, Bool, true, false, ◌||◌, Option, none, some, List, [], ◌∷◌, is_empty, same_text,
  ◌==◌, if◌then◌else◌,
}
use ad_rtb_adapter.Strings.Split.{str_split}
use ad_rtb_adapter.Strings.{Text, c_str}

-- `m_vInvalidChar`
abbrev pub invalid : ℕ → Bool
invalid x = (x == 32) || ((x == 9) || ((x == 10) || (x == 13)))

-- `StrDeleteInvalid`
abbrev pub delete_invalid : Text → Text
delete_invalid [] = []
delete_invalid (x ∷ xs) = let rest = delete_invalid xs in if invalid x then rest else x ∷ rest

abbrev pub hash : ℕ
hash = b'#'

abbrev pub equals : ℕ
equals = b'='

-- `ADCONFIG` and `m_mConfig`
abbrev pub Section : Type 0
Section = List (Text × Text)

pub record Config : Type 0 where
  pub section : Text
  pub sections : List (Text × Section)

-- `operator[]` of a map, for a write
abbrev pub put_value : Text → Text → Section → Section
put_value key v [] = (key, v) ∷ []
put_value key v ((k, w) ∷ m) =
    let rest = put_value key v m in if same_text key k then (k, v) ∷ m else (k, w) ∷ rest

abbrev pub put_in : Text → Text → Text → List (Text × Section) → List (Text × Section)
put_in sec key v [] = (sec, put_value key v []) ∷ []
put_in sec key v ((s, m) ∷ ms) =
    let rest = put_in sec key v ms in
    if same_text sec s then (s, put_value key v m) ∷ ms else (s, m) ∷ rest

-- `Get`
abbrev pub get_section : Text → List (Text × Section) → Section
get_section sec [] = []
get_section sec ((s, m) ∷ ms) = let rest = get_section sec ms in if same_text sec s then m else rest

abbrev starts_with : ℕ → Text → Bool
starts_with c [] = false
starts_with c (x ∷ xs) = x == c

abbrev pub enter : Config → Text → Text → Config
enter f key v =
    if is_empty f.section then f else record f { sections = put_in f.section key v f.sections }

-- One piece is the name of a section, two are a key and its value.
abbrev pub assign : Config → Option (List Text) → Option Config
assign f none = none
assign f (some (s ∷ [])) = some (record f { section = s })
assign f (some (k ∷ v ∷ [])) = some (enter f k v)
assign f (some _) = some f

-- `vStr[0]`, which is behind the end when there is no piece
abbrev pub first_piece : Config → Option (List Text) → Option Config
first_piece f none = none
first_piece f (some []) = none
first_piece f (some (l ∷ ls)) = assign f (str_split (equals ∷ []) l)

-- A round of the loop of `Load`
unfoldable pub load_line : Text → Config → Option Config
load_line line f =
    let s = delete_invalid (c_str line) in
    if is_empty s
    then some f
    else if starts_with hash s
    then some f
    else first_piece f (str_split (hash ∷ []) s)

-- AD_CONFIG_MAX, and the calls of `fgets`: each gives a line with its newline, or as many characters as
-- there is room for. `room` is what is left of it.
abbrev pub config_max : ℕ
config_max = 512

abbrev pub put_in_front : ℕ → List Text → List Text
put_in_front x [] = (x ∷ []) ∷ []
put_in_front x (l ∷ ls) = (x ∷ l) ∷ ls

abbrev pub fgets_lines : ℕ → Text → List Text
fgets_lines room [] = []
fgets_lines room (x ∷ xs) =
    let ends = (x == 10) || leb room 1 in
    let rest = fgets_lines (if ends then config_max - 1 else room - 1) xs in
    if ends then (x ∷ []) ∷ rest else put_in_front x rest

-- The loop of `Load`, over the lines that `fgets` gives; `none` is an access out of bounds.
abbrev pub load_lines : List Text → Config → Option Config
load_lines [] f = some f
load_lines (l ∷ ls) f = elim (load_line l f) [ none ↦ none | some g ↦ load_lines ls g ]

abbrev pub no_config : Config
no_config = record { section = []; sections = [] }

-- `m_sConfigFile` and `m_mConfig`
pub record Loaded : Type 0 where
  pub file : Text
  pub sections : List (Text × Section)

abbrev pub check_section : Text
check_section = b'[' ∷ b'C' ∷ b'H' ∷ b'E' ∷ b'C' ∷ b'K' ∷ b']' ∷ []

abbrev pub global_section : Text
global_section = b'[' ∷ b'G' ∷ b'L' ∷ b'O' ∷ b'B' ∷ b'A' ∷ b'L' ∷ b']' ∷ []

abbrev pub dev_key : Text
dev_key = b'D' ∷ b'E' ∷ b'V' ∷ []

-- `operator[]` of a map, for a read
abbrev pub get_value : Text → Section → Text
get_value key [] = []
get_value key ((k, v) ∷ m) = let rest = get_value key m in if same_text key k then v else rest

abbrev pub or_value : Option Text → Text → Text
or_value none v = v
or_value (some w) v = w

-- What `Load` adds behind the loop; `dev` is what `GetDevId` stores, if it does.
abbrev pub with_checks : Text → Option Text → List (Text × Section) → List (Text × Section)
with_checks file dev f =
    let g = put_in check_section file file f in
    put_in global_section dev_key (or_value dev (get_value dev_key (get_section global_section g)))
      g

abbrev pub file_or : Text → Text → Text
file_or [] old = old
file_or (x ∷ xs) old = x ∷ xs

-- `Load`, and whether it succeeds; `files` gives the text of a file that can be opened, and `old` is the
-- name of the file before.
pub load : (Text → Option Text) → Option Text → Text → Text → Option (Loaded × Bool)
load files dev old name =
    let file = file_or name old in
    elim (files file) [
      | none ↦ some (record { file = file; sections = [] }, false)
      | some text ↦ elim (load_lines (fgets_lines (config_max - 1) text) no_config) [
        | none ↦ none
        | some f ↦ some (record { file = file; sections = with_checks file dev f.sections }, true)
      ]
    ]
