-- ===== src/Cli/Calls/Payload.antt =====
-- What `offs peer connect` and `offs friend add` send (src/offs/commands/peer.c and friend.c).
use offs.Base.{
  ℕ, ◌<◌, ◌≤◌, List, [], ◌∷◌, Bytes, codes, str_eq, length, ◌≡◌, ◌⊎◌, refl, Bool-cases, inl, inr,
}
use offs.Cli.Cache.Gc.{sized, ReadResult, io_error, empty, too_large, text_read}
use offs.Cli.Cache.Gc.Kept.{read_gc_keep_file_lem}
use offs.Cli.Calls.{Request, World, qr_file_max_bytes, read_file_contents}
use offs.Cli.Calls.Peers.{loose_call, send_image, send_peer}

module _ (W : World) (make : ℕ → Bytes → Request) (text_format : ℕ) where
  -- Nothing, the first argument as a text, or the whole image in the file that is named behind
  -- --qr, which is not empty and within the cap.
  unfoldable pub IsPayload : List Bytes → List Request → Type 0
  IsPayload argv requests =
      (requests ≡ [])
      ⊎ (((arg : Bytes) × (rest : List Bytes) × (argv ≡ arg ∷ rest)
            × (requests ≡ make text_format arg ∷ []))
          ⊎ ((path : Bytes) × (image : Bytes) × (requests ≡ make 2 image ∷ [])
              × (W.open_file path ≡ sized (length image) image)
              × (0 < length image)
              × (length image ≤ qr_file_max_bytes)))

  send_image-IsPayload :
      (argv : List Bytes) (path : Bytes) (result : ReadResult)
      → read_file_contents (W.open_file path) ≡ result
      → IsPayload argv (send_image W make result).requests
  unfolding send_image IsPayload loose_call read_file_contents
  send_image-IsPayload argv path io_error read = inl refl
  send_image-IsPayload argv path empty read = inl refl
  send_image-IsPayload argv path too_large read = inl refl
  send_image-IsPayload argv path (text_read image) read =
      let (whole, some_bytes, fits) =
        read_gc_keep_file_lem qr_file_max_bytes (W.open_file path) image read in
      inr (inr (path, image, refl, whole, some_bytes, fits))

  -- `peer connect` and `friend add` make one request at most, with the text that was given or with
  -- all of the image, which is not empty and has at most 2 MiB. An image that is missing, empty,
  -- too large or read in part is never sent.
  pub send_peer-IsPayload :
      (argv : List Bytes) → IsPayload argv (send_peer W make text_format argv).requests
  unfolding send_peer IsPayload loose_call
  send_peer-IsPayload [] = inl refl
  send_peer-IsPayload (arg ∷ []) = elim (Bool-cases (str_eq arg (codes "--qr"))) [
    | inl e ↦ rw e (inl refl)
    | inr e ↦ rw e (inr (inl (arg, [], refl, refl)))
  ]
  send_peer-IsPayload (arg ∷ path ∷ argv) = elim (Bool-cases (str_eq arg (codes "--qr"))) [
    | inl e ↦ rw e (send_image-IsPayload (arg ∷ path ∷ argv) path _ refl)
    | inr e ↦ rw e (inr (inl (arg, path ∷ argv, refl, refl)))
  ]
