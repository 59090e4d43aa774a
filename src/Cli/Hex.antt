-- ===== src/Cli/Hex.antt =====
-- Hashes and keys as hexadecimal text: `_hex_decode_hash` of src/offs/commands/block.c, the hash
-- column of `_ephemeral_list` in src/offs/commands/ephemeral.c, and `_generate_random_api_key` of
-- src/offsd/main.c. Allocation succeeds.
pub mod RoundTrip
use offs.Base.{
  ℕ, ◌+◌, ◌-◌, ◌*◌, ◌/◌, ◌%◌, Bool, true, false, ◌&&◌, ◌||◌, Option, none, some, List, [], ◌∷◌,
  ◌++◌, ltb, leb, ◌==◌, if◌then◌else◌, length, all, Bytes, codes,
}

abbrev pub within : ℕ → ℕ → ℕ → Bool
within lo hi c = leb lo c && leb c hi

unfoldable pub is_hex : ℕ → Bool
is_hex c = within b'0' b'9' c || within b'a' b'f' c || within b'A' b'F' c

-- The value of one digit as `strtoul(pair, NULL, 16)` reads it.
unfoldable pub hex_value : ℕ → ℕ
hex_value c =
    if within b'0' b'9' c
    then c - b'0'
    else if within b'a' b'f' c
    then c - b'a' + 10
    else c - b'A' + 10

-- The loop over the pairs, `(uint8_t)strtoul(pair, NULL, 16)` each.
unfoldable pub decode_pairs : Bytes → Bytes
decode_pairs (high ∷ low ∷ rest) = (hex_value high * 16 + hex_value low) % 256 ∷ decode_pairs rest
decode_pairs _ = []

-- `none` is `return 0`, where the text is passed through as it is.
unfoldable pub hex_decode_hash : Bytes → Option Bytes
hex_decode_hash text =
    if length text == 64 && all is_hex text then some (decode_pairs text) else none

-- One nibble as `%02x` prints it.
unfoldable pub hex_digit : ℕ → ℕ
hex_digit n = if ltb n 10 then n + b'0' else n - 10 + b'a'

-- `sprintf(&hex[byte_index * 2], "%02x", hash[byte_index])` for each byte.
unfoldable pub hex_column : Bytes → Bytes
hex_column [] = []
hex_column (b ∷ bs) = hex_digit (b / 16) ∷ hex_digit (b % 16) ∷ hex_column bs

-- `hex[n]`
abbrev pub char_at : Bytes → ℕ → ℕ
char_at [] n = 0
char_at (c ∷ cs) n = elim n [ ℕ.zero ↦ c | ℕ.suc m ↦ char_at cs m ]

-- The text that `_generate_random_api_key` makes of its random bytes, `b >> 4` and `b & 0x0f`
-- being `b / 16` and `b % 16`.
unfoldable pub key_of_bytes : Bytes → Bytes
key_of_bytes [] = []
key_of_bytes (b ∷ bs) =
    char_at (codes "0123456789abcdef") (b / 16)
    ∷ char_at (codes "0123456789abcdef") (b % 16)
    ∷ key_of_bytes bs

-- The key for the result of `platform_random_bytes`: `none` where that fails.
unfoldable pub generate_random_api_key : Option Bytes → Option Bytes
generate_random_api_key none = none
generate_random_api_key (some random) = some (key_of_bytes random)
