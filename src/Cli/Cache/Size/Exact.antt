-- ===== src/Cli/Cache/Size/Exact.antt =====
-- `_parse_size_bytes` computes the number that its text stands for, without overflow.
use offs.Base.{
  ℕ, ◌+◌, ◌-◌, ◌*◌, ◌/◌, ◌≤◌, ◌<◌, Bool, true, false, ◌||◌, not, none, some, List, [], ◌∷◌, ◌++◌,
  ltb, leb, ◌==◌, if◌then◌else◌, length, Bytes, codes, ◌≡◌, ◌≢◌, refl, ap, inl, inr, arith, all,
  Bool-cases, Option-cases,
}
use offs.Cli.Cache.Size.{
  uint64_max, is_digit, Digits, parse_digits, unit_multiplier, find_unit, units, same_letters,
  starts_badly, parse_size_bytes,
}

-- The number that decimal digits stand for, in front of them the number `value`.
unfoldable pub decimal_from : ℕ → Bytes → ℕ
decimal_from value [] = value
decimal_from value (c ∷ cs) = decimal_from (value * 10 + (c - b'0')) cs

abbrev pub no_digit_first : Bytes → Bool
no_digit_first [] = true
no_digit_first (c ∷ cs) = not (is_digit c)

decimal_from-ge : (value : ℕ) (ds : Bytes) → value ≤ decimal_from value ds
unfolding decimal_from
decimal_from-ge value [] = omega arith
decimal_from-ge value (c ∷ cs) = omega (arith, decimal_from-ge (value * 10 + (c - b'0')) cs)

-- On digits that stand for a 64-bit number the loop reads them all and gives that number.
parse_digits_fits :
    (i value : ℕ) (ds suffix : Bytes)
    → all is_digit ds ≡ true
    → no_digit_first suffix ≡ true
    → decimal_from value ds ≤ uint64_max
    → parse_digits i value (ds ++ suffix)
      ≡ some (record { count = i + length ds; value = decimal_from value ds; suffix = suffix })
unfolding parse_digits decimal_from
parse_digits_fits i value [] [] d n h = ground arith
parse_digits_fits i value [] (c ∷ cs) d n h = ground arith
parse_digits_fits i value (c ∷ cs) suffix d n h = ground (
  arith,
  parse_digits_fits (i + 1) (value * 10 + (c - b'0')) cs suffix,
  decimal_from-ge (value * 10 + (c - b'0')) cs,
)

-- What the loop gives is a split of the text into digits that stand for a 64-bit number, and the
-- text behind them.
pub record Reads (i value : ℕ) (text : Bytes) (d : Digits) : Type 0 where
  pub digits : Bytes
  pub all_digits : all is_digit digits ≡ true
  pub splits : text ≡ digits ++ d.suffix
  pub counted : d.count ≡ i + length digits
  pub value_is : d.value ≡ decimal_from value digits
  pub bounded : d.value ≤ uint64_max

parse_digits-Reads :
    (i value : ℕ) (text : Bytes) (d : Digits)
    → value ≤ uint64_max
    → parse_digits i value text ≡ some d
    → Reads i value text d
unfolding parse_digits decimal_from
parse_digits-Reads i value [] d h e = record {
  digits = [];
  all_digits = refl;
  splits = ground arith;
  counted = ground arith;
  value_is = ground arith;
  bounded = ground arith;
}
parse_digits-Reads i value (c ∷ cs) d h e = elim (Bool-cases (is_digit c)) [
  | inl yes_digit ↦
      let r =
        parse_digits-Reads (i + 1) (value * 10 + (c - b'0')) cs d (ground arith) (ground arith) in
      record {
        digits = c ∷ r.digits;
        all_digits = ground (arith, r.all_digits);
        splits = ap (◌∷◌ c) r.splits;
        counted = omega (arith, r.counted);
        value_is = r.value_is;
        bounded = r.bounded;
      }
  | inr no_digit ↦ record {
    digits = [];
    all_digits = refl;
    splits = ground arith;
    counted = ground arith;
    value_is = ground arith;
    bounded = ground arith;
  }
]

-- A text that is accepted.
pub record SizeText (text : Bytes) (v : ℕ) : Type 0 where
  pub digits : Bytes
  pub suffix : Bytes
  pub multiplier : ℕ
  pub splits : text ≡ digits ++ suffix
  pub all_digits : all is_digit digits ≡ true
  pub ne_nil : digits ≢ []
  pub unit_is : unit_multiplier suffix ≡ some multiplier
  pub value_is : v ≡ decimal_from 0 digits * multiplier
  pub positive : 0 < v
  pub bounded : v ≤ uint64_max

find_unit-pos : (suffix : Bytes) (m : ℕ) → find_unit units suffix ≡ some m → 0 < m
unfolding find_unit units
find_unit-pos suffix m h = ground arith

unit_multiplier-pos : (suffix : Bytes) (m : ℕ) → unit_multiplier suffix ≡ some m → 0 < m
unfolding unit_multiplier
unit_multiplier-pos [] m h = ground arith
unit_multiplier-pos (c ∷ cs) m h = find_unit-pos (c ∷ cs) m h

mul-le_of_le_div : (a m : ℕ) → 0 < m → a ≤ uint64_max / m → a * m ≤ uint64_max
mul-le_of_le_div a m p h = grind arith

le-div_of_mul_le : (a m : ℕ) → 0 < m → a * m ≤ uint64_max → a ≤ uint64_max / m
le-div_of_mul_le a m p h = grind arith

le-mul_pos : (a m : ℕ) → 0 < m → a ≤ a * m
le-mul_pos a m p = grind arith

mul-pos : (a m : ℕ) → 0 < a → 0 < m → 0 < a * m
mul-pos a m p q = grind arith

find_unit-no_digit :
    (c : ℕ) (cs : Bytes) (m : ℕ) → find_unit units (c ∷ cs) ≡ some m → is_digit c ≡ false
unfolding find_unit units same_letters codes
find_unit-no_digit c cs m h = ground arith

unit_multiplier-no_digit_first :
    (suffix : Bytes) (m : ℕ) → unit_multiplier suffix ≡ some m → no_digit_first suffix ≡ true
unfolding unit_multiplier
unit_multiplier-no_digit_first [] m h = refl
unit_multiplier-no_digit_first (c ∷ cs) m h = ground (arith, find_unit-no_digit c cs m h)

-- Every text that is accepted is a nonempty run of digits and a unit, and the result is the exact
-- product, which is positive and fits 64 bits.
pub parse_size_bytes-SizeText :
    (text : Bytes) (v : ℕ) → parse_size_bytes text ≡ some v → SizeText text v
unfolding parse_size_bytes
parse_size_bytes-SizeText text v h = elim (Option-cases (parse_digits 0 0 text)) [
  | inl e ↦ absurd (ground arith)
  | inr (d, e) ↦ elim (Option-cases (unit_multiplier d.suffix)) [
    | inl u ↦ absurd (ground arith)
    | inr (m, u) ↦
        let r = parse_digits-Reads 0 0 text d (omega arith) e in
        let p = unit_multiplier-pos d.suffix m u in
        record {
          digits = r.digits;
          suffix = d.suffix;
          multiplier = m;
          splits = r.splits;
          all_digits = r.all_digits;
          ne_nil = λ z. ground (arith, r.counted, r.all_digits);
          unit_is = u;
          value_is = ground (arith, r.value_is);
          positive = ground (arith, mul-pos d.value m);
          bounded = ground (arith, mul-le_of_le_div d.value m);
        }
  ]
]

parse_digits_overflow :
    (i value : ℕ) (ds suffix : Bytes)
    → all is_digit ds ≡ true
    → value ≤ uint64_max
    → uint64_max < decimal_from value ds
    → parse_digits i value (ds ++ suffix) ≡ none
unfolding parse_digits decimal_from
parse_digits_overflow i value [] suffix d n h = ground arith
parse_digits_overflow i value (c ∷ cs) suffix d n h =
    ground (arith, parse_digits_overflow (i + 1) (value * 10 + (c - b'0')) cs suffix)

starts_badly-digits :
    (ds suffix : Bytes) → all is_digit ds ≡ true → ds ≢ [] → starts_badly (ds ++ suffix) ≡ false
unfolding starts_badly
starts_badly-digits [] suffix d n = absurd (n refl)
starts_badly-digits (c ∷ cs) suffix d n = ground arith

length-pos {ℓ} : {A : Type ℓ} (xs : List A) → xs ≢ [] → 0 < length xs
length-pos [] h = absurd (h refl)
length-pos (x ∷ xs) h = omega arith

-- A nonempty run of digits and a unit parse to the exact product, unless that is 0 or does not fit
-- 64 bits, when they are refused.
pub parse_size_bytes_exact :
    (ds suffix : Bytes) (m : ℕ)
    → all is_digit ds ≡ true
    → ds ≢ []
    → unit_multiplier suffix ≡ some m
    → parse_size_bytes (ds ++ suffix) ≡ (
        let n = decimal_from 0 ds in
        if n == 0 || ltb uint64_max (n * m) then none else some (n * m))
unfolding parse_size_bytes
parse_size_bytes_exact ds suffix m d n u = elim (Bool-cases (leb (decimal_from 0 ds) uint64_max)) [
  | inl fits ↦ ground (
    arith,
    starts_badly-digits ds suffix d n,
    length-pos ds n,
    unit_multiplier-pos suffix m u,
    mul-le_of_le_div (decimal_from 0 ds) m,
    le-div_of_mul_le (decimal_from 0 ds) m,
    parse_digits_fits 0 0 ds suffix d (unit_multiplier-no_digit_first suffix m u),
  )
  | inr over ↦ ground (
    arith,
    starts_badly-digits ds suffix d n,
    le-mul_pos (decimal_from 0 ds) m (unit_multiplier-pos suffix m u),
    parse_digits_overflow 0 0 ds suffix d,
  )
]
