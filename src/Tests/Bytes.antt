-- ===== src/Tests/Bytes.antt =====
-- Paths, sizes and hashes.
use offs.Base.{ℕ, ◌+◌, some, [], ◌∷◌, List, codes, ◌≡◌, refl, arith}
use offs.Cli.Cache.Size.{parse_size_bytes, uint64_max, unit_multiplier, is_digit, to_lower}
use offs.Cli.Cache.Size.Exact.{SizeText, parse_size_bytes-SizeText, parse_size_bytes_exact}
use offs.Cli.Hex.{hex_column, hex_decode_hash}
use offs.Cli.Hex.RoundTrip.{hex_decode_hash-hex_column}

parse_size_bytes_exact_example : parse_size_bytes (codes "12MiB") ≡ some 12582912
unfolding codes unit_multiplier offs.Cli.Cache.Size.find_unit offs.Cli.Cache.Size.units
    offs.Cli.Cache.Size.same_letters offs.Cli.Cache.Size.Exact.decimal_from
parse_size_bytes_exact_example =
    parse_size_bytes_exact (codes "12") (codes "MiB") 1048576 refl (λ e. cc e) refl

-- The bytes 200, ..., 231.
abbrev count_up : ℕ → ℕ → List ℕ
count_up ℕ.zero from = []
count_up (ℕ.suc n) from = from ∷ count_up n (from + 1)

abbrev sample_hash : List ℕ
sample_hash = count_up 32 200

hex_decode_hash-hex_column_example : hex_decode_hash (hex_column sample_hash) ≡ some sample_hash
hex_decode_hash-hex_column_example = hex_decode_hash-hex_column sample_hash refl (ground arith)
