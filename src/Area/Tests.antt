-- ===== src/Area/Tests.antt =====
-- Runs of the area tree. Addresses are texts of one number, which stands for the address itself.
use ad_rtb_adapter.Base.{
  ℕ, ◌+◌, ◌*◌, ◌^◌, ◌≡◌, refl, Option, none, some, List, [], ◌∷◌, ◌==◌, if◌then◌else◌, arith,
}
use ad_rtb_adapter.Area.{
  Text, IpArea, clear, bit, add_tree, get, Row, Attribute, prov, city, addr, mask, init,
}
use ad_rtb_adapter.Area.Lookup.{longest}
use ad_rtb_adapter.Area.Nodes.{Owned}
use ad_rtb_adapter.Area.Prefix.{named, get-init}
use ad_rtb_adapter.Area.{show}

abbrev first_number : Text → ℕ
first_number [] = 0
first_number (x ∷ xs) = x

abbrev no_row : Row
no_row = record { province = []; city = []; addr = []; mask = 0 }

-- 10.0.0.0/8 is city 7, 10.1.0.0/16 is city 8.
abbrev two_elements : List (List Attribute)
two_elements =
    (prov (5 ∷ []) ∷ city (7 ∷ []) ∷ addr ((10 * 2 ^ 24) ∷ []) ∷ mask (8 ∷ []) ∷ [])
    ∷ (city (8 ∷ []) ∷ addr ((10 * 2 ^ 24 + 2 ^ 16) ∷ []) ∷ mask (16 ∷ []) ∷ [])
    ∷ []

-- 10.1.2.3
abbrev inside : Text
inside = (10 * 2 ^ 24 + 2 ^ 16 + 515) ∷ []

get-init_example :
    let found = named first_number first_number two_elements no_row (first_number inside) in
    (a : IpArea) × (init first_number first_number two_elements no_row clear ≡ some a)
    × (get first_number inside a []
        ≡ (if first_number inside == 0 then show (found 0) else longest 32 found []))
get-init_example =
    get-init first_number first_number two_elements no_row inside []
      (omega arith, (omega arith, tt))

-- The province is that of the element before.
longest_test :
    longest 32 (named first_number first_number two_elements no_row (first_number inside)) []
    ≡ b'0' ∷ b'0' ∷ b'8' ∷ b'6' ∷ b'-' ∷ 5 ∷ b'-' ∷ 8 ∷ []
unfolding bit
longest_test = refl

clear-Owned : Owned clear
clear-Owned = record { root = refl; all = refl }

abbrev area_of : Option IpArea → IpArea
area_of none = clear
area_of (some a) = a

abbrev two_areas : IpArea
two_areas = area_of (init first_number first_number two_elements no_row clear)

two_areas_made : init first_number first_number two_elements no_row clear ≡ some two_areas
unfolding init add_tree bit
two_areas_made = refl
