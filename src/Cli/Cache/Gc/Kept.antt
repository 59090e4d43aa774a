-- ===== src/Cli/Cache/Gc/Kept.antt =====
-- Which sweep `offs cache gc` asks for (src/offs/commands/cache.c).
use offs.Base.{
  ℕ, Bool, true, false, [], ◌∷◌, ◌++◌, ◌==◌, any, ◌<◌, ◌≤◌, Option, none, some, length, Bytes, ◌≡◌,
  arith,
}
use offs.Cli.Cache.Resize.{Exchange}
use offs.Cli.Cache.Gc.{
  KeepFile, unopened, unsized, sized, text_read, read_gc_keep_file, GcOptions, GcArgs, options,
  GcRequest,
}

pub read_gc_keep_file_lem :
    (cap : ℕ) (file : KeepFile) (text : Bytes)
    → read_gc_keep_file cap file ≡ text_read text
    → (file ≡ sized (length text) text) × (0 < length text) × (length text ≤ cap)
unfolding read_gc_keep_file
read_gc_keep_file_lem cap unopened text h = absurd (ground arith)
read_gc_keep_file_lem cap unsized text h = absurd (ground arith)
read_gc_keep_file_lem cap (sized n bytes) text h = ground arith

-- Whether a text is empty or goes on with a zero byte.
unfoldable pub ends_text : Bytes → Bool
ends_text [] = true
ends_text (c ∷ text) = c == 0

-- The front of a text that its first zero byte ends.
pub record IsFront (urls text : Bytes) : Type 0 where
  pub rest : Bytes
  pub joins : text ≡ urls ++ rest
  pub no_zero : any (λ c. c == 0) urls ≡ false
  pub ended : ends_text rest ≡ true

abbrev request_of : GcRequest → Option GcRequest → GcRequest
request_of r none = r
request_of r (some request) = request

module _ (cap : ℕ) (open_file : Bytes → KeepFile) (sweep : GcRequest → Exchange) where
  -- The list of a request: the named file up to a zero byte, so all of it where it has none; the file
  -- is read whole, not empty and within the cap.
  unfoldable pub IsKeepList : GcArgs → GcRequest → Type 0
  IsKeepList args r =
      (o : GcOptions) × (path : Bytes) × (text : Bytes) × (args ≡ options o)
      × (o.from_text ≡ some path)
      × (open_file path ≡ sized (length text) text)
      × (0 < length text)
      × (length text ≤ cap)
      × IsFront r.urls text
      × (any (λ c. c == 0) text ≡ false → r.urls ≡ text)
      × (r.force ≡ o.force)
      × (r.defrag ≡ o.defrag)
