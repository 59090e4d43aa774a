-- ===== src/Cli/Cache/Size.antt =====
-- `_parse_size_bytes` of src/offs/commands/cache.c: a byte count with an optional unit.
pub mod Exact
use offs.Base.{
  ℕ, ◌+◌, ◌-◌, ◌*◌, ◌/◌, Bool, true, false, ◌&&◌, ◌||◌, Option, none, some, List, [], ◌∷◌, ltb, leb,
  ◌==◌, if◌then◌else◌, ◌>>=◌, length, Bytes, codes,
}

-- UINT64_MAX
abbrev pub uint64_max : ℕ
uint64_max = 18446744073709551615

abbrev pub is_digit : ℕ → Bool
is_digit c = leb b'0' c && leb c b'9'

-- tolower of the C locale
abbrev pub to_lower : ℕ → ℕ
to_lower c = if leb b'A' c && leb c b'Z' then c + 32 else c

pub record Digits : Type 0 where
  pub count : ℕ
  pub value : ℕ
  pub suffix : Bytes

-- The digit loop, from the count `i` and the value read so far. `none` is the `return -1` of an
-- overflow.
unfoldable pub parse_digits : ℕ → ℕ → Bytes → Option Digits
parse_digits i value [] = some (record { count = i; value = value; suffix = [] })
parse_digits i value (c ∷ cs) =
    let digit = c - b'0' in
    let rest = parse_digits (i + 1) (value * 10 + digit) cs in
    if is_digit c
    then (if ltb (uint64_max / 10) value
        then none
        else if ltb (uint64_max - digit) (value * 10)
        then none
        else rest)
    else some (record { count = i; value = value; suffix = c ∷ cs })

-- The comparison of one unit's name, up to its terminator.
unfoldable pub same_letters : Bytes → Bytes → Bool
same_letters [] suffix = true
same_letters (x ∷ xs) [] = false
same_letters (x ∷ xs) (y ∷ ys) = to_lower x == to_lower y && same_letters xs ys

unfoldable pub find_unit : List (Bytes × ℕ) → Bytes → Option ℕ
find_unit [] suffix = none
find_unit ((name, multiplier) ∷ units) suffix =
    if length name == length suffix && same_letters name suffix
    then some multiplier
    else find_unit units suffix

unfoldable pub units : List (Bytes × ℕ)
units =
    (codes "TiB", 1024 * 1024 * 1024 * 1024)
    ∷ (codes "TB", 1000000000000)
    ∷ (codes "GiB", 1024 * 1024 * 1024)
    ∷ (codes "GB", 1000000000)
    ∷ (codes "MiB", 1024 * 1024)
    ∷ (codes "MB", 1000000)
    ∷ (codes "KiB", 1024)
    ∷ (codes "KB", 1000)
    ∷ []

-- The multiplier of the text behind the digits: 1 where there is none.
unfoldable pub unit_multiplier : Bytes → Option ℕ
unit_multiplier [] = some 1
unit_multiplier (c ∷ cs) = find_unit units (c ∷ cs)

-- The first bytes that end the parse at once: none at all, or a sign.
unfoldable pub starts_badly : Bytes → Bool
starts_badly [] = true
starts_badly (c ∷ cs) = c == b'-' || c == b'+'

scale : Digits → ℕ → Option ℕ
scale d multiplier =
    if d.value == 0 || ltb (uint64_max / multiplier) d.value
    then none
    else some (d.value * multiplier)

-- What follows the digit loop.
size_of_digits : Digits → Option ℕ
size_of_digits d = if d.count == 0 then none else unit_multiplier d.suffix >>= scale d

unfoldable pub parse_size_bytes : Bytes → Option ℕ
unfolding scale size_of_digits
parse_size_bytes text = if starts_badly text then none else parse_digits 0 0 text >>= size_of_digits
