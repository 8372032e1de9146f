-- ===== src/Strings/Sample.antt =====
-- A C library for the tests: decimal digits written out and read.
use ad_rtb_adapter.Base.{
  ℕ, zero, suc, ◌+◌, ◌-◌, ◌*◌, ◌/◌, ◌%◌, [], ◌∷◌, ◌++◌, ltb, leb, ◌&&◌, if◌then◌else◌,
}
use ad_rtb_adapter.Strings.{Text, Libc}

abbrev digits : ℕ → ℕ → Text
digits zero n = []
digits (suc fuel) n =
    let more = digits fuel (n / 10) in (if ltb n 10 then [] else more) ++ (b'0' + n % 10) ∷ []

abbrev pub number_text : ℕ → Text
number_text n = digits 10 n

abbrev two : ℕ → Text
two n = if ltb n 10 then b'0' ∷ number_text n else number_text n

abbrev read : ℕ → Text → ℕ
read n [] = n
read n (x ∷ xs) =
    let rest = read (10 * n + (x - b'0')) xs in if leb b'0' x && leb x b'9' then rest else n

abbrev pub sample_libc : Libc
sample_libc = record { decimal = number_text; two_digits = two; atoi = read 0 }
