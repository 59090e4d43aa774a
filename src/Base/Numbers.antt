-- ===== src/Base/Numbers.antt =====
-- Signed integers, and the number functions of the C library (64-bit long, 32-bit int).
use Prim.Native.Nat.{ℕ, ◌+◌, ◌-◌, ◌*◌, ◌%◌, ◌^◌}
use mathlib.Core.Bool.{Bool, true, false, ◌&&◌, ◌||◌}
use mathlib.Core.List.{[], ◌∷◌}
use offs.Base.Tests.{ltb, leb, ◌==◌, if◌then◌else◌}
use offs.Base.Text.{Bytes}

-- `negsuc n` is -(n + 1).
pub data ℤ : Type 0 where
  pos : ℕ → ℤ
  negsuc : ℕ → ℤ

-- The value of a text as `strtol` and its kin read it: the sign, the digits' value, and what
-- `endptr` is left at.
pub record Number : Type 0 where
  pub negative : Bool
  pub magnitude : ℕ
  pub rest : Bytes

abbrev is_space : ℕ → Bool
is_space c = c == b' ' || (leb 9 c && leb c 13)

skip_spaces : Bytes → Bytes
skip_spaces [] = []
skip_spaces (c ∷ cs) = let rest = skip_spaces cs in if is_space c then rest else c ∷ cs

-- The digits below `base`, for a base up to ten; `whole` is what is left where there is none.
read_digits : ℕ → Bool → Bool → ℕ → Bytes → Bytes → Number
read_digits base negative seen value whole [] = record {
  negative = negative;
  magnitude = value;
  rest = if seen then [] else whole;
}
read_digits base negative seen value whole (c ∷ cs) =
    let more = read_digits base negative true (value * base + (c - b'0')) whole cs in
    if leb b'0' c && ltb c (b'0' + base)
    then more
    else record { negative = negative; magnitude = value; rest = if seen then c ∷ cs else whole }

read_signed : ℕ → Bytes → Bytes → Number
read_signed base whole [] = record { negative = false; magnitude = 0; rest = whole }
read_signed base whole (c ∷ cs) =
    if c == b'-'
    then read_digits base true false 0 whole cs
    else if c == b'+'
    then read_digits base false false 0 whole cs
    else read_digits base false false 0 whole (c ∷ cs)

unfoldable pub read_number : ℕ → Bytes → Number
unfolding skip_spaces read_digits read_signed
read_number base text = read_signed base text (skip_spaces text)

abbrev cap : ℕ → ℕ → ℕ
cap limit n = if ltb limit n then limit else n

-- strtoull: a negative number wraps, one that is too large is ULLONG_MAX.
unfoldable pub ull_of : Number → ℕ
ull_of n =
    if ltb 18446744073709551615 n.magnitude
    then 18446744073709551615
    else if n.negative
    then (18446744073709551616 - n.magnitude) % 18446744073709551616
    else n.magnitude

-- strtol
unfoldable pub long_of : Number → ℤ
long_of n =
    if n.negative && ltb 0 n.magnitude
    then negsuc (cap 9223372036854775808 n.magnitude - 1)
    else pos (cap 9223372036854775807 n.magnitude)

-- The low `bits` of a long, as a conversion to an unsigned type takes them.
unfoldable pub low_bits : ℕ → ℤ → ℕ
low_bits bits (pos n) = n % 2 ^ bits
low_bits bits (negsuc n) = 2 ^ bits - 1 - n % 2 ^ bits

-- The conversion of a long to int.
unfoldable pub int_of : ℤ → ℤ
int_of z =
    let low = low_bits 32 z in if ltb low 2147483648 then pos low else negsuc (4294967295 - low)

-- atoi
unfoldable pub atoi : Bytes → ℤ
unfolding read_number long_of low_bits int_of
atoi text = int_of (long_of (read_number 10 text))

-- `(uint16_t)z`
unfoldable pub uint16_of : ℤ → ℕ
uint16_of (pos n) = n % 65536
uint16_of (negsuc n) = 65535 - n % 65536
