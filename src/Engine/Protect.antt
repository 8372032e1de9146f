-- ===== src/Engine/Protect.antt =====
-- `AdRtbProtect`: the table of weights of the places, from a file of lines with tabs.
pub mod Last
mod Tests
use ad_rtb_adapter.Base.{
  ℕ, Bool, true, false, Option, none, some, List, [], ◌∷◌, ◌++◌, length, get_or, leb, same_text,
  if◌then◌else◌,
}
use ad_rtb_adapter.Base.Int.{ℤ, negsuc, signed32}
use ad_rtb_adapter.Strings.Split.{str_split, pieces_of}
use ad_rtb_adapter.Strings.{Text, Libc, c_str, snprintf}

abbrev pub protect_league : ℕ
protect_league = 0

abbrev pub protect_pid : ℕ
protect_pid = 1

abbrev pub protect_weight : ℕ
protect_weight = 2

abbrev pub protect_max : ℕ
protect_max = 3

-- `AdRtbProtectData`, and `m_mProtect`
pub record ProtectData : Type 0 where
  pub info : List Text
  pub weight : ℕ

abbrev pub Protect : Type 0
Protect = List (Text × ProtectData)

abbrev pub put_data : Text → ProtectData → Protect → Protect
put_data key x [] = (key, x) ∷ []
put_data key x ((k, y) ∷ m) =
    let rest = put_data key x m in if same_text key k then (k, x) ∷ m else (k, y) ∷ rest

abbrev pub find_weight : Text → Protect → Option ℕ
find_weight key [] = none
find_weight key ((k, x) ∷ m) =
    let rest = find_weight key m in if same_text key k then some x.weight else rest

-- What the search returns as an `int`: a weight, or AD_FAILURE, which the weight 2 ^ 32 - 1 is too.
abbrev pub as_int : Option ℕ → ℤ
as_int none = negsuc 0
as_int (some w) = signed32 w

-- `AdRtbProtectSearch`
abbrev pub protect_search : Text → Protect → ℤ
protect_search key m = as_int (find_weight key m)

-- `AdRtbProtectParse`, where the test of `vStr`, which is empty, never holds: the newline stays.
unfoldable pub protect_parse : Text → List Text
protect_parse s = pieces_of (str_split (9 ∷ []) s)

abbrev pub protect_key : List Text → Text
protect_key info =
    snprintf 128 (c_str (get_or info protect_league []) ++ c_str (get_or info protect_pid []))

module _ (c : Libc) where
  abbrev pub protect_data : List Text → ProtectData
  protect_data info = record {
    info = info;
    weight = c.atoi (c_str (get_or info protect_weight []));
  }

  abbrev pub put_row : List Text → Protect → Protect
  put_row info m =
      if leb protect_max (length info) then put_data (protect_key info) (protect_data info) m else m

  -- The loop over the pieces that `fgets` gives.
  abbrev pub protect_lines : List Text → Protect → Protect
  protect_lines [] m = m
  protect_lines (l ∷ ls) m = protect_lines ls (put_row (protect_parse (c_str l)) m)

  -- `AdRtbProtectInit`, and whether it succeeds; `none` is a file that is not there.
  unfoldable pub protect_init : Option (List Text) → Protect → Protect × Bool
  protect_init none m = (m, false)
  protect_init (some ls) m = (protect_lines ls [], true)
