-- ===== src/Config/Printed.antt =====
-- `Load` reads back what is printed.
use ad_rtb_adapter.Base.{
  ℕ, ◌-◌, ◌<◌, ◌≡◌, refl, ◌∙◌, ap, leb, length, length-append, Option, Bool, true, false, ◌||◌,
  some, List, [], ◌∷◌, ◌++◌, map, is_empty, ◌==◌, arith,
}
use ad_rtb_adapter.Config.{
  Config, invalid, delete_invalid, hash, equals, enter, assign, load_line, load_lines, config_max,
  put_in_front, fgets_lines, no_config, file_or, with_checks, load,
}
use ad_rtb_adapter.Strings.Split.{among, str_split}
use ad_rtb_adapter.Strings.Split.Fields.{str_split-join}
use ad_rtb_adapter.Strings.{Text, c_str}

-- A line of the file: the name of a section, a key with its value, or a comment.
pub data Item : Type 0 where
  heading : Text → Item
  entry : Text → Text → Item
  comment : Text → Item

abbrev newline : Text
newline = 10 ∷ []

abbrev pub body : Item → Text
body (heading s) = s
body (entry k v) = k ++ equals ∷ v
body (comment t) = hash ∷ t

abbrev pub print : Item → Text
print i = body i ++ newline

abbrev pub printed : List Item → Text
printed [] = []
printed (i ∷ is) = print i ++ printed is

-- What an item stands for.
abbrev pub meant : Item → Config → Config
meant (heading s) f = record f { section = s }
meant (entry k v) f = enter f k v
meant (comment t) f = f

abbrev pub all_meant : List Item → Config → Config
all_meant [] f = f
all_meant (i ∷ is) f = all_meant is (meant i f)

-- Characters that a name may not have: blanks, the end of a string, `#` and `=`.
abbrev pub special : ℕ → Bool
special x = ((invalid x || (x == 0)) || (x == hash)) || (x == equals)

abbrev pub Plain : Text → Type 0
Plain [] = Unit
Plain (x ∷ xs) = (special x ≡ false) × Plain xs

abbrev pub Name : Text → Type 0
Name t = (is_empty t ≡ false) × Plain t

abbrev pub OneLine : Text → Type 0
OneLine [] = Unit
OneLine (x ∷ xs) = ((x == 10) ≡ false) × OneLine xs

abbrev pub Printable : Item → Type 0
Printable (heading s) = Name s
Printable (entry k v) = Name k × Name v
Printable (comment t) = OneLine t

-- Every item is printable, on a line for which `fgets` has room.
abbrev pub AllPrintable : List Item → Type 0
AllPrintable [] = Unit
AllPrintable (i ∷ is) = (Printable i × (length (print i) < config_max)) × AllPrintable is

-- The characters that a line may have before its comment.
Inside : Text → Type 0
Inside [] = Unit
Inside (x ∷ xs) = ((invalid x ≡ false) × ((x == 0) ≡ false) × ((x == hash) ≡ false)) × Inside xs

Plain-Inside : (t : Text) → Plain t → Inside t
unfolding Inside
Plain-Inside [] p = tt
Plain-Inside (x ∷ t) p =
    ((ground (arith, p.0), ground (arith, p.0), ground (arith, p.0)), Plain-Inside t p.1)

Inside-entry : (k v : Text) → Inside k → Inside v → Inside (k ++ equals ∷ v)
unfolding Inside
Inside-entry [] v i j = ((refl, refl, refl), j)
Inside-entry (x ∷ k) v i j = (i.0, Inside-entry k v i.1 j)

read_whole : (t : Text) → Inside t → delete_invalid (c_str (t ++ newline)) ≡ t
unfolding Inside
read_whole [] i = refl
read_whole (x ∷ t) i = rw (i.0.1, i.0.0, read_whole t i.1) refl

Inside-among : (t : Text) → Inside t → among hash t ≡ false
unfolding Inside
Inside-among [] i = refl
Inside-among (x ∷ t) i = ground (arith, i.0.2, Inside-among t i.1)

Plain-among : (t : Text) → Plain t → among equals t ≡ false
Plain-among [] p = refl
Plain-among (x ∷ t) p = ground (arith, p.0, Plain-among t p.1)

-- A line without `#` is the only piece.
load_line_whole :
    (t : Text) (f : Config)
    → Inside t
    → is_empty t ≡ false
    → load_line (t ++ newline) f ≡ assign f (str_split (equals ∷ []) t)
unfolding load_line Inside
load_line_whole [] f i e = absurd (ground (arith, e))
load_line_whole (x ∷ t) f i e =
    let whole = str_split-join hash ((x ∷ t) ∷ []) (refl, Inside-among (x ∷ t) i, tt) in
    rw (read_whole (x ∷ t) i) (rw (i.0.2, whole) refl)

entry_filled : (k v : Text) → is_empty k ≡ false → is_empty (k ++ equals ∷ v) ≡ false
entry_filled [] v h = refl
entry_filled (x ∷ k) v h = refl

load_line-print : (i : Item) (f : Config) → Printable i → load_line (print i) f ≡ some (meant i f)
unfolding load_line
load_line-print (heading s) f p =
    load_line_whole s f (Plain-Inside s p.1) p.0
    ∙ ap (assign f) (str_split-join equals (s ∷ []) (p.0, Plain-among s p.1, tt))
load_line-print (entry k v) f p =
    load_line_whole (k ++ equals ∷ v) f
      (Inside-entry k v (Plain-Inside k p.0.1) (Plain-Inside v p.1.1)) (entry_filled k v p.0.0)
    ∙ ap (assign f) (
        str_split-join equals (k ∷ v ∷ [])
          (p.0.0, Plain-among k p.0.1, (p.1.0, Plain-among v p.1.1, tt)))
load_line-print (comment t) f p = ignored t f
  where
    ignored : (t : Text) (f : Config) → load_line (hash ∷ t ++ newline) f ≡ some f
    ignored t f = refl

Plain-OneLine : (t : Text) → Plain t → OneLine t
Plain-OneLine [] p = tt
Plain-OneLine (x ∷ t) p = (ground (arith, p.0), Plain-OneLine t p.1)

OneLine-append : (s t : Text) → OneLine s → OneLine t → OneLine (s ++ t)
OneLine-append [] t p q = q
OneLine-append (x ∷ s) t p q = (p.0, OneLine-append s t p.1 q)

Printable-OneLine : (i : Item) → Printable i → OneLine (body i)
Printable-OneLine (heading s) p = Plain-OneLine s p.1
Printable-OneLine (entry k v) p =
    OneLine-append k (equals ∷ v) (Plain-OneLine k p.0.1) (refl, Plain-OneLine v p.1.1)
Printable-OneLine (comment t) p = (refl, p)

-- A line that fits is one piece.
fgets_lines-line :
    (room : ℕ) (t rest : Text)
    → OneLine t
    → length t < room
    → fgets_lines room ((t ++ newline) ++ rest) ≡ (t ++ newline) ∷ fgets_lines (config_max - 1) rest
fgets_lines-line room [] rest p h = refl
fgets_lines-line room (x ∷ t) rest p h =
    let space : leb room 1 ≡ false = ground (arith, h) in
    rw (p.0, space)
      (ap (put_in_front x) (fgets_lines-line (room - 1) t rest p.1 (omega (arith, h))))

lines-printed :
    (is : List Item) → AllPrintable is → fgets_lines (config_max - 1) (printed is) ≡ map print is
lines-printed [] p = refl
lines-printed (i ∷ is) p =
    fgets_lines-line (config_max - 1) (body i) (printed is) (Printable-OneLine i p.0.0)
      (omega (arith, p.0.1, length-append (body i) newline))
    ∙ ap (◌∷◌ (print i)) (lines-printed is p.1)

load_lines-print :
    (is : List Item) (f : Config)
    → AllPrintable is
    → load_lines (map print is) f ≡ some (all_meant is f)
load_lines-print [] f p = refl
load_lines-print (i ∷ is) f p =
    rw (load_lines, load_line-print i f p.0.0) (load_lines-print is (meant i f) p.1)

-- A file of lines with sections, keys with their values, and comments is loaded as what it says: the
-- values are put in their sections one after another, and then the file's name into "[CHECK]" and the
-- number of the machine, if it is found, into "[GLOBAL]". The names and values are not empty and have
-- no blank, no `#`, no `=`, and no 0; comments have no newline; and no line, with its newline, has more
-- than 511 characters.
pub load-printed :
    (files : Text → Option Text) (dev : Option Text) (old name : Text) (is : List Item)
    → AllPrintable is
    → files (file_or name old) ≡ some (printed is)
    → load files dev old name
      ≡ some (
        record {
          file = file_or name old;
          sections = with_checks (file_or name old) dev (all_meant is no_config).sections;
        },
        true,
      )
unfolding load
load-printed files dev old name is p e =
    let read : load_lines (fgets_lines (config_max - 1) (printed is)) no_config
        ≡ some (all_meant is no_config) =
      ap (λ (ls : List Text). load_lines ls no_config) (lines-printed is p)
      ∙ load_lines-print is no_config p in
    rw (load, e, read) refl
