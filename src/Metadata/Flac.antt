-- ===== src/Metadata/Flac.antt =====
-- `ensureFLACMetadataBound` of internal/mediametadata/reader.go.
pub mod Chain
use music_online_go.Metadata.Picture.{validate_picture}
use music_online_go.Metadata.Bytes.{
  bytes_eq, accepted, max_flac_metadata_blocks, refused, on_some, Verdict, Reader, byte, Bytes,
}
use music_online_go.Metadata.Comments.{validate_comment_block, Codec}
use music_online_go.Prelude.{
  zero, inr, inl, false, ltb, suc, ◌&&◌, some, true, ◌⊎◌, if◌then◌else◌, none, ◌+◌, ◌==◌, Option,
  ◌%◌, [], ◌*◌, ◌/◌, Bool, ◌∷◌, ℕ,
}

-- the three bytes of a block's size
unfoldable pub block_size : Bytes → ℕ
block_size header = (byte header 1 * 256 + byte header 2) * 256 + byte header 3

-- `header[0] & 0x7f`
abbrev pub block_type : Bytes → ℕ
block_type header = byte header 0 % 128

-- `header[0] & 0x80 != 0`
abbrev pub is_last : Bytes → Bool
is_last header = byte header 0 / 128 % 2 == 1

-- Comments and pictures are read and checked, other blocks are only measured.
unfoldable pub check_block : Codec → Reader → ℕ → ℕ → ℕ → Bytes → Verdict
check_block codec read max_tag max_cover position header =
    if block_type header == 4
    then on_some (read (position + 4) (block_size header))
        (λ body. validate_comment_block codec body max_tag)
    else if block_type header == 6
    then on_some (read (position + 4) (block_size header)) (λ body. validate_picture body max_cover)
    else accepted

-- One round of the loop over the blocks: `inl` is its verdict, `inr` the next position.
unfoldable pub block_round : Codec → Reader → ℕ → ℕ → ℕ → ℕ → ℕ → ℕ → Verdict ⊎ ℕ
block_round codec read file_size max_tag max_cover position total count =
    if ltb file_size (position + 4)
    then inl refused
    else if ltb max_flac_metadata_blocks (count + 1)
    then inl refused
    else elim (read position 4) [
      | none ↦ inl refused
      | some header ↦
          if ltb max_tag (total + (4 + block_size header))
          then inl refused
          else if ltb file_size (position + (4 + block_size header))
          then inl refused
          else elim (check_block codec read max_tag max_cover position header) [
            | refused ↦ inl refused
            | accepted ↦ if is_last header then inl accepted else inr (4 + block_size header)
          ]
    ]

-- The loop on fuel: none means that the fuel ran out.
unfoldable pub walk_blocks : ℕ → Codec → Reader → ℕ → ℕ → ℕ → ℕ → ℕ → ℕ → Option Verdict
walk_blocks zero codec read file_size max_tag max_cover position total count = none
walk_blocks (suc fuel) codec read file_size max_tag max_cover position total count =
    elim (block_round codec read file_size max_tag max_cover position total count) [
      | inl v ↦ some v
      | inr step ↦
          walk_blocks fuel codec read file_size max_tag max_cover (position + step) (total + step)
            (count + 1)
    ]

-- the bytes of "fLaC"
abbrev pub flac_marker : Bytes
flac_marker = 0x66 ∷ 0x4c ∷ 0x61 ∷ 0x43 ∷ []

unfoldable pub ensure_flac_metadata_bound : Codec → Reader → ℕ → ℕ → ℕ → Option Verdict
unfolding walk_blocks bytes_eq
ensure_flac_metadata_bound codec read file_size max_tag max_cover = elim (read 0 4) [
  | none ↦ some refused
  | some marker ↦
      if bytes_eq marker flac_marker
      then walk_blocks (max_flac_metadata_blocks + 1) codec read file_size max_tag max_cover 4 0 0
      else some accepted
]
