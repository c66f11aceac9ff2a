-- ===== src/Metadata/Comments.antt =====
-- `validateVorbisCommentBlockWithCover` and `validateVorbisPictureComment` of
-- internal/mediametadata/reader.go.
pub mod Parsing
use music_online_go.Metadata.Picture.{validate_picture}
use music_online_go.Metadata.Bytes.{
  max_vorbis_comment_count, max_text_chunk_bytes, on_some, refused, little_endian_at,
  max_vorbis_comment_bytes, accepted, Verdict, Bytes,
}
use music_online_go.Prelude.{
  false, zero, drop, take, true, ◌/◌, [], ◌*◌, ◌||◌, length, ◌+◌, some, ltb, suc, ◌∷◌, ◌==◌,
  if◌then◌else◌, none, Bool, min, Option, ℕ,
}

-- Go's standard library, as far as a picture in a comment needs it: `bytes.TrimSpace`, whether a
-- name is METADATA_BLOCK_PICTURE by `bytes.EqualFold` after trimming, and
-- `base64.StdEncoding.Decode`.
pub record Codec : Type 0 where
  pub trim_space : Bytes → Bytes
  pub is_picture_field : Bytes → Bool
  pub decode_base64 : Bytes → Option Bytes

-- the bytes before and behind the first '='
unfoldable pub split_separator : Bytes → Option (Bytes × Bytes)
split_separator [] = none
split_separator (b ∷ bs) =
    let rest = split_separator bs in
    if b == 0x3d
    then some ([], bs)
    else elim rest [ none ↦ none | some (name, value) ↦ some (b ∷ name, value) ]

-- The decoded block of a picture, within `maxBlockBytes`.
unfoldable pub validate_encoded_picture : Codec → Bytes → ℕ → Verdict
validate_encoded_picture codec encoded max_cover =
    if ltb (max_cover + 2 * max_text_chunk_bytes + 64) (length encoded / 4 * 3)
    then refused
    else elim (codec.decode_base64 encoded) [
      | none ↦ refused
      | some decoded ↦ validate_picture decoded max_cover
    ]

-- a limit of 0 stands for every limit that is not positive
unfoldable pub validate_picture_comment : Codec → Bytes → ℕ → Verdict
validate_picture_comment codec comment max_cover =
    if max_cover == 0 then accepted else elim (split_separator comment) [
      | none ↦ accepted
      | some (name, value) ↦
          if codec.is_picture_field name
          then validate_encoded_picture codec (codec.trim_space value) max_cover
          else accepted
    ]

abbrev pub comment_limit : ℕ → ℕ
comment_limit max_tag = min max_vorbis_comment_bytes max_tag

-- One round of the loop: the offset behind the comment, or none for an error.
unfoldable pub comment_round : Codec → Bytes → ℕ → ℕ → ℕ → Option ℕ
comment_round codec body max_tag max_cover offset = elim (little_endian_at body offset) [
  | none ↦ none
  | some size ↦
      if ltb (comment_limit max_tag) size || ltb (length body) (offset + 4 + size)
      then none
      else elim (validate_picture_comment codec (take size (drop (offset + 4) body)) max_cover) [
        | refused ↦ none
        | accepted ↦ some (offset + 4 + size)
      ]
]

-- the loop over the comments that are left
unfoldable pub validate_comments_from : Codec → Bytes → ℕ → ℕ → ℕ → ℕ → Verdict
validate_comments_from codec body max_tag max_cover offset zero = accepted
validate_comments_from codec body max_tag max_cover offset (suc n) =
    elim (comment_round codec body max_tag max_cover offset) [
      | none ↦ refused
      | some next ↦ validate_comments_from codec body max_tag max_cover next n
    ]

unfoldable pub validate_comment_block_with_cover : Codec → Bytes → ℕ → ℕ → Verdict
unfolding validate_comments_from
validate_comment_block_with_cover codec body max_tag max_cover =
    if ltb max_tag (length body) || ltb (length body) 8
    then refused
    else on_some (little_endian_at body 0) λ vendor.
      if ltb max_text_chunk_bytes vendor || ltb (length body) (4 + vendor)
      then refused
      else on_some (little_endian_at body (4 + vendor)) λ count.
        if ltb max_vorbis_comment_count count
        then refused
        else validate_comments_from codec body max_tag max_cover (4 + vendor + 4) count

unfoldable pub validate_comment_block : Codec → Bytes → ℕ → Verdict
validate_comment_block codec body max_tag = validate_comment_block_with_cover codec body max_tag 0
