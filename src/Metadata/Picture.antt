-- ===== src/Metadata/Picture.antt =====
-- `validateFLACPictureBlock` of internal/mediametadata/reader.go.
pub mod Layout
use music_online_go.Metadata.Bytes.{
  accepted, refused, max_text_chunk_bytes, on_some, big_endian_at, Verdict, Bytes,
}
use music_online_go.Prelude.{
  some, none, ◌||◌, ◌+◌, length, ◌*◌, ltb, ◌==◌, if◌then◌else◌, Option, ℕ,
}
use mathlib.Core.Option

-- a limit of 0 stands for every limit that is not positive
unfoldable pub cover_limit : ℕ → ℕ
cover_limit max_cover = if max_cover == 0 then 10 * 1024 * 1024 else max_cover

-- A length-prefixed text at an offset: the offset behind it, or none if it exceeds safe bounds.
unfoldable pub skip_text : Bytes → ℕ → Option ℕ
skip_text body offset = elim (big_endian_at body offset) [
  | none ↦ none
  | some size ↦
      if ltb max_text_chunk_bytes size || ltb (length body) (offset + 4 + size)
      then none
      else some (offset + 4 + size)
]

unfoldable pub validate_picture : Bytes → ℕ → Verdict
validate_picture body max_cover = on_some (big_endian_at body 0) λ kind.
    on_some (skip_text body 4) λ mime_end. on_some (skip_text body mime_end) λ text_end.
      if ltb (length body) (text_end + 16)
      then refused
      else on_some (big_endian_at body (text_end + 16)) λ size.
        if ltb (cover_limit max_cover) size || ltb (length body) (text_end + 20 + size)
        then refused
        else accepted
