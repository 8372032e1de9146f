-- ===== src/Filters/Marks.antt =====
-- The bits of `m_uiMatch`: which filters have marked a unit.
use ad_rtb_adapter.Base.{
  ℕ, ◌+◌, ◌≡◌, refl, Bool, true, false, ◌&&◌, ◌||◌, not, bit_or, ◌==◌, if◌then◌else◌, arith, Option,
  none, some,
}
use ad_rtb_adapter.Filters.Kinds.{
  Kind, time, adexchange, pid, area, size, agent, operator, device, connect, flag,
}
use ad_rtb_adapter.Filters.Parameter.{normal, mobile_mask}

abbrev pub Marks : Type 0
Marks = Kind → Bool

-- The place of a filter in the order of their numbers.
abbrev number : Kind → ℕ
number time = 0
number adexchange = 1
number pid = 2
number area = 3
number size = 4
number agent = 5
number operator = 6
number device = 7
number connect = 8

abbrev pub same : Kind → Kind → Bool
same k j = number k == number j

abbrev bit : ℕ → Bool → ℕ
bit w b = if b then w else 0

abbrev bits : Bool → Bool → Bool → Bool → Bool → Bool → Bool → Bool → Bool → ℕ
bits a b c d e f g h i =
    bit 0x8000 a
    + bit 0x4000 b
    + bit 0x2000 c
    + bit 0x1000 d
    + bit 0x0800 e
    + bit 0x0400 f
    + bit 0x80 g
    + bit 0x40 h
    + bit 0x20 i

unfoldable pub word : Marks → ℕ
word m =
    bits (m time) (m adexchange) (m pid) (m area) (m size) (m agent) (m operator) (m device)
      (m connect)

both : (Bool → Bool) → Bool
both p = p false && p true

and_parts : (a b : Bool) → (a && b) ≡ true → (a ≡ true) × (b ≡ true)
and_parts a b h = ground (arith, h)

both_at : (p : Bool → Bool) → both p ≡ true → (b : Bool) → p b ≡ true
unfolding both
both_at p h false = (and_parts (p false) (p true) h).0
both_at p h true = (and_parts (p false) (p true) h).1

abbrev Nine : Type 0
Nine = Bool → Bool → Bool → Bool → Bool → Bool → Bool → Bool → Bool → Bool

all_nine : Nine → Bool
all_nine p = both λ a.
    both
      λ b. both λ c. both λ d. both λ e. both λ f. both λ g. both λ h. both λ i. p a b c d e f g h i

all_nine_at :
    (p : Nine) → all_nine p ≡ true → (a b c d e f g h i : Bool) → p a b c d e f g h i ≡ true
unfolding all_nine
all_nine_at p t a b c d e f g h i =
    both_at (p a b c d e f g h)
      (both_at (λ h. both (p a b c d e f g h))
        (both_at (λ g. both λ h. both (p a b c d e f g h))
          (both_at (λ f. both λ g. both λ h. both (p a b c d e f g h))
            (both_at (λ e. both λ f. both λ g. both λ h. both (p a b c d e f g h))
              (both_at (λ d. both λ e. both λ f. both λ g. both λ h. both (p a b c d e f g h))
                (both_at
                  (λ c. both λ d. both λ e. both λ f. both λ g. both λ h. both (p a b c d e f g h))
                  (both_at
                    (λ b. both λ c.
                      both λ d. both λ e. both λ f. both λ g. both λ h. both (p a b c d e f g h))
                    (both_at
                      (λ a. both λ b. both λ c.
                        both λ d. both λ e. both λ f. both λ g. both λ h. both (p a b c d e f g h))
                      t a)
                    b)
                  c)
                d)
              e)
            f)
          g)
        h)
      i

module _ (p : Nine) where
  at_marks : Marks → Bool
  at_marks m =
      p (m time) (m adexchange) (m pid) (m area) (m size) (m agent) (m operator) (m device)
        (m connect)

  all_marks : all_nine p ≡ true → (m : Marks) → at_marks m ≡ true
  unfolding at_marks
  all_marks t m =
      all_nine_at p t (m time) (m adexchange) (m pid) (m area) (m size) (m agent) (m operator)
        (m device) (m connect)

-- A further mark.
abbrev pub set : Kind → Marks → Marks
set k m = λ j. same k j || m j

or_table : Kind → Nine
or_table k a b c d e f g h i =
    let next =
      bits (same k time || a) (same k adexchange || b) (same k pid || c) (same k area || d)
        (same k size || e) (same k agent || f) (same k operator || g) (same k device || h)
        (same k connect || i) in
    (bit_or (bits a b c d e f g h i) (flag k) == next) && not (next == 0)

or_table-holds : (k : Kind) → all_nine (or_table k) ≡ true
unfolding all_nine both or_table
or_table-holds time = refl
or_table-holds adexchange = refl
or_table-holds pid = refl
or_table-holds area = refl
or_table-holds size = refl
or_table-holds agent = refl
or_table-holds operator = refl
or_table-holds device = refl
or_table-holds connect = refl

equal_and_positive : (a b : ℕ) → ((a == b) && not (b == 0)) ≡ true → (a ≡ b) × ((b == 0) ≡ false)
equal_and_positive a b h = (ground (arith, h), ground (arith, h))

-- `m_uiMatch |= flag` sets the mark of the filter and no other.
pub bit_or-word :
    (k : Kind) (m : Marks)
    → (bit_or (word m) (flag k) ≡ word (set k m)) × ((word (set k m) == 0) ≡ false)
unfolding or_table at_marks word
bit_or-word k m =
    equal_and_positive (bit_or (word m) (flag k)) (word (set k m))
      (all_marks (or_table k) (or_table-holds k) m)

iff : Bool → Bool → Bool
iff a b = if a then b else not b

iff_eq : (a b : Bool) → iff a b ≡ true → a ≡ b
unfolding iff
iff_eq a b h = ground (arith, h)

-- The marks that every request wants, and those that a mobile one wants besides.
abbrev pub six : Marks → Bool
six m = ((((m time && m adexchange) && m pid) && m area) && m size) && m agent

abbrev pub three : Marks → Bool
three m = (m operator && m device) && m connect

abbrev pub no_three : Marks → Bool
no_three m = (not (m operator) && not (m device)) && not (m connect)

normal_table : Nine
normal_table a b c d e f g h i =
    iff (bits a b c d e f g h i == normal)
      ((((((a && b) && c) && d) && e) && f) && ((not g && not h) && not i))

normal_table-holds : all_nine normal_table ≡ true
unfolding all_nine both normal_table iff
normal_table-holds = refl

pub normal_marks : (m : Marks) → (word m == normal) ≡ six m && no_three m
unfolding at_marks word normal_table
normal_marks m =
    iff_eq (word m == normal) (six m && no_three m) (all_marks normal_table normal_table-holds m)

mobile_table : Nine
mobile_table a b c d e f g h i =
    iff (bits a b c d e f g h i == bit_or normal mobile_mask)
      ((((((a && b) && c) && d) && e) && f) && ((g && h) && i))

mobile_table-holds : all_nine mobile_table ≡ true
unfolding all_nine both mobile_table iff
mobile_table-holds = refl

pub mobile_marks : (m : Marks) → (word m == bit_or normal mobile_mask) ≡ six m && three m
unfolding at_marks word mobile_table
mobile_marks m =
    iff_eq (word m == bit_or normal mobile_mask) (six m && three m)
      (all_marks mobile_table mobile_table-holds m)

zero_table : Nine
zero_table a b c d e f g h i = not ((bits a b c d e f g h i == 0) && a)

zero_table-holds : all_nine zero_table ≡ true
unfolding all_nine both zero_table
zero_table-holds = refl

pub unmarked : (m : Marks) → (word m == 0) ≡ true → m time ≡ false
unfolding at_marks word zero_table
unmarked m h = ground (arith, h, all_marks zero_table zero_table-holds m)

-- What the results have of a unit with the marks `m`.
abbrev pub shown : Marks → Option ℕ
shown m = let w = word m in if w == 0 then none else some w

-- The marks after a filter, when it has the unit or not.
abbrev pub add : Kind → Bool → Marks → Marks
add k b m = λ j. (b && same k j) || m j

pub add_again : (k : Kind) (b c : Bool) (m : Marks) → add k c (add k b m) ≡ add k (b || c) m
add_again k b c m = λ x j. again b c (same k j) (m j) x
  where
    again : (b c s a : Bool) → (c && s) || ((b && s) || a) ≡ ((b || c) && s) || a
    again b c s a = ground arith
