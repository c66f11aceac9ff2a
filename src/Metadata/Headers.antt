-- ===== src/Metadata/Headers.antt =====
-- `ensureTuneTagReadBoundFile`, `validateAPEv2Bounds` and `boundedScannedCover` of
-- internal/mediametadata/reader.go.
pub mod Limits
use music_online_go.Prelude.{
  false, ◌+◌, ◌==◌, ◌-◌, ◌^◌, drop, length, take, ◌||◌, ◌&&◌, ◌/◌, ◌*◌, ltb, [], Bool, some, ◌%◌,
  if◌then◌else◌, none, ◌∷◌, ℕ, Option,
}
use music_online_go.Metadata.Bytes.{
  Bytes, Reader, Verdict, accepted, refused, byte, little_endian, bytes_eq,
  max_vorbis_comment_count,
}
use music_online_go.Metadata.Comments.{Codec}
use music_online_go.Metadata.Flac.{ensure_flac_metadata_bound, flac_marker}
use music_online_go.Metadata.Boxes.{find_box}
use music_online_go.Metadata.Duration.{moov}
use music_online_go.Metadata.Ogg.{Stream, ensure_ogg_comments_bound}

-- An ID3v1 tag has 128 bytes (`id3v1.TagSize`).
abbrev pub id3v1_size : ℕ
id3v1_size = 128

-- the bytes of "ID3", "TAG" and "APETAGEX"
abbrev pub id3_marker : Bytes
id3_marker = 0x49 ∷ 0x44 ∷ 0x33 ∷ []

abbrev pub tag_marker : Bytes
tag_marker = 0x54 ∷ 0x41 ∷ 0x47 ∷ []

abbrev pub ape_marker : Bytes
ape_marker = 0x41 ∷ 0x50 ∷ 0x45 ∷ 0x54 ∷ 0x41 ∷ 0x47 ∷ 0x45 ∷ 0x58 ∷ []

-- four synchsafe bytes, seven bits each
abbrev pub synchsafe : Bytes → ℕ
synchsafe header =
    byte header 6 % 128 * 2 ^ 21
    + byte header 7 % 128 * 2 ^ 14
    + byte header 8 % 128 * 2 ^ 7
    + byte header 9 % 128

abbrev pub is_high : ℕ → Bool
is_high b = b / 128 % 2 == 1

-- the ID3v2 tag in front of the file
unfoldable pub check_id3 : ℕ → ℕ → Bytes → Verdict
check_id3 file_size max_tag header =
    if is_high (byte header 6)
      || is_high (byte header 7)
      || is_high (byte header 8)
      || is_high (byte header 9)
    then refused
    else if ltb max_tag (synchsafe header)
    then refused
    else if ltb file_size (synchsafe header + 10)
    then refused
    else accepted

-- the footer of an APEv2 tag at an offset
unfoldable pub check_footer : ℕ → ℕ → Bytes → Verdict
check_footer max_tag offset footer =
    if ltb max_tag (little_endian (drop 12 footer))
    then refused
    else if ltb max_vorbis_comment_count (little_endian (drop 16 footer))
    then refused
    else if ltb (little_endian (drop 12 footer)) 32
        || ltb (offset + 32) (little_endian (drop 12 footer))
    then refused
    else accepted

unfoldable pub check_ape : Reader → ℕ → ℕ → Verdict
unfolding check_footer
check_ape read max_tag offset = elim (read offset 32) [
  | none ↦ accepted
  | some footer ↦
      if bytes_eq (take 8 footer) ape_marker then check_footer max_tag offset footer else accepted
]

-- The footer stands at the end, or in front of an ID3v1 tag.
unfoldable pub has_id3v1 : Reader → ℕ → Bool
has_id3v1 read file_size =
    if ltb file_size (id3v1_size + 32) then false else elim (read (file_size - id3v1_size) 3) [
      | none ↦ false
      | some marker ↦ bytes_eq marker tag_marker
    ]

unfoldable pub validate_ape_bounds : Reader → ℕ → ℕ → Verdict
unfolding check_ape has_id3v1
validate_ape_bounds read file_size max_tag =
    if ltb file_size 32 then accepted else elim (check_ape read max_tag (file_size - 32)) [
      | refused ↦ refused
      | accepted ↦
          if has_id3v1 read file_size
          then check_ape read max_tag (file_size - id3v1_size - 32)
          else accepted
    ]

-- The format that the tag library has detected.
pub data Format : Type 0 where
  ogg mp4 other_format : Format

-- An open file: its size as `Stat` gives it, if it does, random access, and sequential access. `head`
-- is what the array of ten bytes holds after it was read at 0, and whether that succeeded.
pub record OpenFile : Type 0 where
  pub stat : Option ℕ
  pub read : Reader
  pub stream : Stream
  pub head : Bytes
  pub has_head : Bool

-- the check of the container's own metadata; none means that a search ran out of fuel
unfoldable pub check_container : ℕ → Codec → OpenFile → Format → ℕ → ℕ → ℕ → Option Verdict
check_container fuel codec file format file_size max_tag max_cover =
    if bytes_eq (take 4 file.head) flac_marker
    then ensure_flac_metadata_bound codec file.read file_size max_tag max_cover
    else elim format [
      | ogg ↦ some (ensure_ogg_comments_bound codec file.stream max_tag max_cover)
      | mp4 ↦ elim (find_box fuel file.read 0 file_size moov) [
        | none ↦ none
        | some none ↦ some accepted
        | some (some (start, size)) ↦ if ltb max_tag size then some refused else some accepted
      ]
      | other_format ↦ some accepted
    ]

unfoldable pub check_tags : OpenFile → ℕ → ℕ → Verdict
unfolding check_id3 validate_ape_bounds
check_tags file file_size max_tag =
    elim (if file.has_head && bytes_eq (take 3 file.head) id3_marker
      then check_id3 file_size max_tag file.head
      else accepted) [
        | refused ↦ refused
        | accepted ↦ validate_ape_bounds file.read file_size max_tag
      ]

-- `ensureTuneTagReadBoundFile`
unfoldable pub ensure_read_bound : ℕ → Codec → OpenFile → Format → ℕ → ℕ → Option Verdict
unfolding check_container check_tags
ensure_read_bound fuel codec file format max_tag max_cover = elim file.stat [
  | none ↦ some refused
  | some file_size ↦ elim (check_tags file file_size max_tag) [
    | refused ↦ some refused
    | accepted ↦ check_container fuel codec file format file_size max_tag max_cover
  ]
]

-- `boundedScannedCover`, on the cover's bytes; a limit of 0 stands for every limit that is not
-- positive
unfoldable pub bounded_scanned_cover : Option Bytes → ℕ → Option Bytes
bounded_scanned_cover none max_cover = none
bounded_scanned_cover (some picture) max_cover =
    if length picture == 0 || (max_cover == 0 || ltb max_cover (length picture))
    then none
    else some picture
