-- ===== src/Strings/Split.antt =====
-- `AdString::StrSplit`: the pieces between the separators, the empty ones left out.
pub mod Fields
use ad_rtb_adapter.Base.{
  ℕ, zero, suc, ◌+◌, Bool, false, ◌||◌, Option, none, some, List, [], ◌∷◌, length, is_empty, ◌==◌,
  if◌then◌else◌,
}
use ad_rtb_adapter.Strings.{Text}

-- The texts that the C++ code holds by positions of `str` are their characters from there on.
abbrev pub among : ℕ → Text → Bool
among x [] = false
among x (y ∷ ys) = (x == y) || among x ys

-- `str.find_first_not_of(sep)`; the empty text stands for `npos`.
abbrev pub skip : Text → Text → Text
skip sep [] = []
skip sep (x ∷ xs) = let rest = skip sep xs in if among x sep then rest else x ∷ xs

-- What stands behind a separator at the start.
abbrev pub strip : Text → Text → Option Text
strip [] s = some s
strip (x ∷ sep) [] = none
strip (x ∷ sep) (y ∷ s) = let rest = strip sep s in if x == y then rest else none

abbrev pub further : ℕ → Option (Text × Text) → Option (Text × Text)
further x none = none
further x (some (a, b)) = some (x ∷ a, b)

abbrev pub at_once : Option Text → Option (Text × Text) → Option (Text × Text)
at_once none later = later
at_once (some b) later = some ([], b)

-- `str.find(sep, pos_begin)`: what stands before and behind the separator that is found.
abbrev pub cut : Text → Text → Option (Text × Text)
cut sep [] = at_once (strip sep []) none
cut sep (x ∷ xs) = at_once (strip sep (x ∷ xs)) (further x (cut sep xs))

abbrev pub push : Text → List Text → List Text
push tmp ps = if is_empty tmp then ps else tmp ∷ ps

abbrev pub push_before : Text → Option (List Text) → Option (List Text)
push_before tmp none = none
push_before tmp (some ps) = some (push tmp ps)

-- The `while` loop, for as many rounds as there is fuel.
abbrev pub split_loop : ℕ → Text → Text → Option (List Text)
split_loop zero sep s = none
split_loop (suc n) sep s = elim (cut sep s) [
  | none ↦ some (push s [])
  | some p ↦ push_before p.0 (split_loop n sep p.1)
]

unfoldable pub str_split : Text → Text → Option (List Text)
str_split sep str =
    let s = skip sep str in if is_empty s then some [] else split_loop (length s + 1) sep s

-- The pieces of a split, which ends.
abbrev pub pieces_of : Option (List Text) → List Text
pieces_of none = []
pieces_of (some ps) = ps
