-- ===== src/Strings.antt =====
-- Strings as the C++ code makes them: `c_str`, `snprintf`, and what the C library gives.
pub mod Split
pub mod Sample
mod Tests
use ad_rtb_adapter.Base.{ℕ, ◌-◌, List, [], ◌∷◌, take, ◌==◌, if◌then◌else◌}

abbrev pub Text : Type 0
Text = List ℕ

-- What a C function reads of a string.
abbrev pub c_str : Text → Text
c_str [] = []
c_str (c ∷ cs) = let rest = c_str cs in if c == 0 then [] else c ∷ rest

-- The text that `snprintf(key, n, …)` leaves in `key`, for the characters that it prints.
abbrev pub snprintf : ℕ → Text → Text
snprintf n t = c_str (take (n - 1) t)

-- The C library: "%d" and "%02d" of a UINT, and `atoi`, whose result is stored in a UINT.
pub record Libc : Type 0 where
  pub decimal : ℕ → Text
  pub two_digits : ℕ → Text
  pub atoi : Text → ℕ
