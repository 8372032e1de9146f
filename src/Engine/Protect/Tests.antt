-- ===== src/Engine/Protect/Tests.antt =====
-- Runs of `AdRtbProtect`.
use ad_rtb_adapter.Base.{◌≡◌, refl, some, List, [], ◌∷◌}
use ad_rtb_adapter.Base.Int.{negsuc}
use ad_rtb_adapter.Engine.Protect.{as_int, protect_search, protect_parse, protect_init}
use ad_rtb_adapter.Engine.Protect.Last.{last_weight, protect_search-protect_init}
use ad_rtb_adapter.Strings.Sample.{sample_libc}
use ad_rtb_adapter.Strings.Split.{str_split}
use ad_rtb_adapter.Strings.{Text}

-- Two lines for the place "7p", and one that is too short.
abbrev three_lines : List Text
three_lines =
    (b'7' ∷ 9 ∷ b'p' ∷ 9 ∷ b'4' ∷ 10 ∷ [])
    ∷ (b'7' ∷ 9 ∷ b'p' ∷ 9 ∷ b'5' ∷ 10 ∷ [])
    ∷ (b'7' ∷ 9 ∷ b'q' ∷ 10 ∷ [])
    ∷ []

short_line :
    protect_search (b'7' ∷ b'q' ∷ []) (protect_init sample_libc (some three_lines) []).0 ≡ negsuc 0
unfolding protect_init protect_parse str_split
short_line = refl

protect_search-protect_init_example :
    protect_search (b'7' ∷ b'p' ∷ []) (protect_init sample_libc (some three_lines) []).0
    ≡ as_int (last_weight sample_libc (b'7' ∷ b'p' ∷ []) three_lines)
protect_search-protect_init_example =
    protect_search-protect_init sample_libc three_lines [] (b'7' ∷ b'p' ∷ [])
