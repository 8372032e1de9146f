-- ===== src/Config/Tests.antt =====
-- A small configuration file.
use ad_rtb_adapter.Base.{◌≡◌, refl, true, Option, none, some, List, [], ◌∷◌, replicate, arith}
use ad_rtb_adapter.Config.{get_section, no_config, with_checks, fgets_lines, load}
use ad_rtb_adapter.Config.Printed.{Item, heading, entry, comment, printed, all_meant, load-printed}
use ad_rtb_adapter.Strings.{Text}

abbrev small_file : List Item
small_file = comment (b'=' ∷ b'#' ∷ []) ∷ heading (b'A' ∷ []) ∷ entry (b'k' ∷ []) (b'v' ∷ []) ∷ []

abbrev files : Text → Option Text
files name = some (printed small_file)

abbrev file_name : Text
file_name = b'f' ∷ []

value_read :
    get_section (b'A' ∷ []) (with_checks file_name none (all_meant small_file no_config).sections)
    ≡ (b'k' ∷ [], b'v' ∷ []) ∷ []
value_read = refl

load-printed_example :
    load files none [] file_name
    ≡ some (
      record {
        file = file_name;
        sections = with_checks file_name none (all_meant small_file no_config).sections;
      },
      true,
    )
load-printed_example =
    load-printed files none [] file_name small_file
      (
        ((refl, (refl, tt)), omega arith),
        (
          ((refl, (refl, tt)), omega arith),
          ((((refl, (refl, tt)), (refl, (refl, tt))), omega arith), tt),
        ),
      )
      refl

-- A line of 512 characters is cut in front of its last.
long_line : fgets_lines 511 (replicate 512 b'a') ≡ replicate 511 b'a' ∷ (b'a' ∷ []) ∷ []
long_line = refl
