-- ===== src/Strings/Tests.antt =====
-- Runs of `StrSplit`.
use ad_rtb_adapter.Base.{◌≡◌, refl, some, is_empty, List, [], ◌∷◌, ap}
use mathlib.Core.Bool.{false≢true}
use ad_rtb_adapter.Strings.{Text}
use ad_rtb_adapter.Strings.Split.{str_split}
use ad_rtb_adapter.Strings.Split.Fields.{pieces, str_split_ends, str_split-pieces}

abbrev size_line : Text
size_line = b'3' ∷ b'0' ∷ b'0' ∷ b'x' ∷ b'2' ∷ b'5' ∷ b'0' ∷ []

abbrev sides : List Text
sides = (b'3' ∷ b'0' ∷ b'0' ∷ []) ∷ (b'2' ∷ b'5' ∷ b'0' ∷ []) ∷ []

split_size : str_split (b'x' ∷ []) size_line ≡ some sides
unfolding str_split
split_size = refl

split_slashes :
    str_split (b'/' ∷ b'/' ∷ []) (b'/' ∷ b'a' ∷ b'/' ∷ b'/' ∷ b'/' ∷ b'b' ∷ [])
    ≡ some ((b'a' ∷ []) ∷ (b'/' ∷ b'b' ∷ []) ∷ [])
unfolding str_split
split_slashes = refl

str_split_ends_example : (ps : List Text) × (str_split (b'/' ∷ b'/' ∷ []) size_line ≡ some ps)
str_split_ends_example =
    str_split_ends (b'/' ∷ b'/' ∷ []) size_line (λ e. absurd (false≢true (ap is_empty e)))

str_split-pieces_example : str_split (b'0' ∷ []) size_line ≡ some (pieces b'0' size_line)
str_split-pieces_example = str_split-pieces b'0' size_line
