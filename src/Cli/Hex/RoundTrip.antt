-- ===== src/Cli/Hex/RoundTrip.antt =====
-- The listing of a hash and its decoding are inverse to one another.
use offs.Base.{
  ℕ, suc, ◌+◌, ◌*◌, ◌/◌, ◌%◌, ◌<◌, Bool, true, ◌&&◌, some, [], ◌∷◌, ◌==◌, length, all, All, Bytes,
  ◌≡◌, refl, arith, map, codes, inl, inr, Bool-cases, ==_iff,
}
use offs.Cli.Cache.Size.{to_lower}
use offs.Cli.Hex.{
  is_hex, hex_value, decode_pairs, hex_decode_hash, hex_digit, hex_column, char_at, key_of_bytes,
  generate_random_api_key,
}

abbrev pub IsByte : ℕ → Type 0
IsByte b = b < 256

hex_value-hex_digit :
    (n : ℕ) → n < 16 → (hex_value (hex_digit n) ≡ n) × (is_hex (hex_digit n) ≡ true)
unfolding hex_value hex_digit is_hex
hex_value-hex_digit n h = ground arith

hex_digit-hex_value :
    (c : ℕ) → is_hex c ≡ true → (hex_digit (hex_value c) ≡ to_lower c) × (hex_value c < 16)
unfolding hex_value hex_digit is_hex
hex_digit-hex_value c h = ground arith

length-hex_column : (bs : Bytes) → length (hex_column bs) ≡ 2 * length bs
unfolding hex_column
length-hex_column [] = omega arith
length-hex_column (b ∷ bs) = omega (arith, length-hex_column bs)

hex_column-is_hex : (bs : Bytes) → All IsByte bs → all is_hex (hex_column bs) ≡ true
unfolding hex_column
hex_column-is_hex [] h = refl
hex_column-is_hex (b ∷ bs) h =
    ground (arith, hex_value-hex_digit (b / 16), hex_value-hex_digit (b % 16), hex_column-is_hex bs)

decode_pairs-hex_column : (bs : Bytes) → All IsByte bs → decode_pairs (hex_column bs) ≡ bs
unfolding decode_pairs hex_column
decode_pairs-hex_column [] h = refl
decode_pairs-hex_column (b ∷ bs) h =
    ground (
      arith,
      hex_value-hex_digit (b / 16),
      hex_value-hex_digit (b % 16),
      decode_pairs-hex_column bs,
    )

-- A hash of 32 bytes, as `offs ephemeral list` prints it, is decoded by `offs block` to itself.
pub hex_decode_hash-hex_column :
    (hash : Bytes)
    → length hash ≡ 32
    → All IsByte hash
    → hex_decode_hash (hex_column hash) ≡ some hash
unfolding hex_decode_hash
hex_decode_hash-hex_column hash l h =
    ground (arith, length-hex_column hash, hex_column-is_hex hash h, decode_pairs-hex_column hash h)

-- What decoding gives for a text of hexadecimal digits, `n` of them pairs.
record Decoded (n : ℕ) (text bs : Bytes) : Type 0 where
  length_is : length bs ≡ n
  bytes : All IsByte bs
  prints : hex_column bs ≡ map to_lower text

decode_pairs-Decoded :
    (n : ℕ) (text : Bytes)
    → length text ≡ n + n
    → all is_hex text ≡ true
    → Decoded n text (decode_pairs text)
unfolding decode_pairs hex_column
decode_pairs-Decoded n [] l h = record { length_is = omega arith; bytes = tt; prints = refl }
decode_pairs-Decoded n (c ∷ []) l h = absurd (omega arith)
decode_pairs-Decoded ℕ.zero (high ∷ low ∷ rest) l h = absurd (omega arith)
decode_pairs-Decoded (suc n) (high ∷ low ∷ rest) l h =
    let r = decode_pairs-Decoded n rest (omega arith) (ground arith) in
    let p = hex_digit-hex_value high (ground arith) in
    let q = hex_digit-hex_value low (ground arith) in
    record {
      length_is = omega (arith, r.length_is);
      bytes = (omega arith, r.bytes);
      prints = ground (arith, r.prints, p, q);
    }

-- A text that is decoded gives 32 bytes, and they print as the text in lower case.
pub hex_column-hex_decode_hash :
    (text hash : Bytes)
    → hex_decode_hash text ≡ some hash
    → (length hash ≡ 32) × All IsByte hash × (hex_column hash ≡ map to_lower text)
unfolding hex_decode_hash
hex_column-hex_decode_hash text hash e = elim (Bool-cases (length text == 64 && all is_hex text)) [
  | inl accepted ↦
      let d = decode_pairs-Decoded 32 text (ground arith) (ground arith) in
      ground (arith, d.length_is, d.bytes, d.prints)
  | inr refused ↦ absurd (ground arith)
]

-- A test that the digits 0 to `last - 1` pass.
digits_pass : (ℕ → Bool) → ℕ → Bool
digits_pass test ℕ.zero = true
digits_pass test (suc last) = digits_pass test last && test last

digits_pass_lem :
    (test : ℕ → Bool) (last digit : ℕ)
    → digit < last
    → digits_pass test last ≡ true
    → test digit ≡ true
unfolding digits_pass
digits_pass_lem test ℕ.zero digit below passed = absurd (omega arith)
digits_pass_lem test (suc last) digit below passed = ground (arith, digits_pass_lem test last digit)

hex_table : digits_pass (λ n. char_at (codes "0123456789abcdef") n == hex_digit n) 16 ≡ true
unfolding digits_pass codes hex_digit
hex_table = refl

char_at-hex_digit : (n : ℕ) → n < 16 → char_at (codes "0123456789abcdef") n ≡ hex_digit n
char_at-hex_digit n h =
    (==_iff _ _).0
      (digits_pass_lem (λ k. char_at (codes "0123456789abcdef") k == hex_digit k) 16 n h hex_table)

key_of_bytes-eq-hex_column : (bs : Bytes) → All IsByte bs → key_of_bytes bs ≡ hex_column bs
unfolding key_of_bytes hex_column
key_of_bytes-eq-hex_column [] h = refl
key_of_bytes-eq-hex_column (b ∷ bs) h =
    ground
      (arith, char_at-hex_digit (b / 16), char_at-hex_digit (b % 16), key_of_bytes-eq-hex_column bs)

-- The key that the daemon generates of 32 random bytes decodes to those bytes, as a hash does.
pub generate_random_api_key-decodes :
    (random key : Bytes)
    → length random ≡ 32
    → All IsByte random
    → generate_random_api_key (some random) ≡ some key
    → hex_decode_hash key ≡ some random
unfolding generate_random_api_key
generate_random_api_key-decodes random key l h e =
    ground (arith, key_of_bytes-eq-hex_column random h, hex_decode_hash-hex_column random l h)
