-- ===== src/Metadata/Tests.antt =====
-- The checks of metadata blocks at small blocks.
use music_online_go.Metadata.Duration.Rounding.{rounded_uint64_quotient_lem}
use music_online_go.Metadata.Ogg.Comments.{scan_pages-IsChecked}
use music_online_go.Metadata.Headers.Limits.{
  ensure_read_bound_lem, validate_ape_bounds-IsInside, IsInside,
}
use music_online_go.Metadata.Ogg.Packets.{IsChecked}
use music_online_go.Metadata.Ogg.{
  ended, comment_body, scan_segments, enter, leave, opus_tags, page_body, read_page, whole, Stream,
  scan_pages, Scan,
}
use music_online_go.Metadata.Boxes.{found, box_header, box_round, box_loop, find_box, big_endian64}
use music_online_go.Metadata.Duration.{rounded_uint64_quotient, moov}
use music_online_go.Metadata.Headers.{
  synchsafe, id3_marker, mp4, ensure_read_bound, OpenFile, ape_marker, validate_ape_bounds,
}
use music_online_go.Metadata.Boxes.Bounds.{
  box_round_overflow, find_box_bounds, find_box_total, IsFile,
}
use music_online_go.Prelude.{
  false, inr, Bool-cases, ◌-◌, inl, ◌^◌, All, ◌⊎◌, ◌<◌, arith, ◌*◌, take, ℕ, ◌++◌, ◌≤◌, ◌&&◌, ◌+◌,
  ◌==◌, if◌then◌else◌, some, ◌≢◌, List, true, refl, ◌≡◌, none, [], ◌∷◌,
}
use music_online_go.Metadata.Bytes.{
  Verdict, little_endian_at, little_endian, big_endian, bytes_eq, accepted, Reader, refused, Bytes,
}
use music_online_go.Metadata.Bytes.Laws.{le32}
use music_online_go.Metadata.Flac.{
  block_size, check_block, block_round, walk_blocks, flac_marker, ensure_flac_metadata_bound,
}
use music_online_go.Metadata.Flac.Chain.{
  IsBounded, ensure_flac_metadata_bound_total, ensure_flac_metadata_bound-IsBounded,
}
use music_online_go.Metadata.Picture.{cover_limit, validate_picture}
use music_online_go.Metadata.Picture.Layout.{picture_block, validate_picture_lem}
use music_online_go.Metadata.Comments.{
  validate_comments_from, validate_picture_comment, split_separator, validate_encoded_picture,
  Codec, validate_comment_block_with_cover,
}
use music_online_go.Metadata.Comments.Parsing.{
  comment_fields, comment_block, validate_comment_block_lem,
}

-- a 16-byte picture under a limit of 4 bytes
abbrev dimensions : Bytes
dimensions = 0 ∷ 0 ∷ 0 ∷ 1 ∷ 0 ∷ 0 ∷ 0 ∷ 1 ∷ 0 ∷ 0 ∷ 0 ∷ 8 ∷ 0 ∷ 0 ∷ 0 ∷ 0 ∷ []

validate_picture_lem_example :
    validate_picture
      (picture_block 3 (0x70 ∷ 0x6e ∷ 0x67 ∷ []) [] dimensions (1 ∷ 2 ∷ 3 ∷ 4 ∷ 5 ∷ []) [])
      4
    ≡ refused
unfolding cover_limit
validate_picture_lem_example =
    validate_picture_lem 3 4 (0x70 ∷ 0x6e ∷ 0x67 ∷ []) [] dimensions (1 ∷ 2 ∷ 3 ∷ 4 ∷ 5 ∷ []) []
      refl

-- a codec whose every field is a picture that does not decode
abbrev codec : Codec
codec = record { trim_space = λ b. b; is_picture_field = λ name. true; decode_base64 = λ b. none }

validate_comment_block_lem_example :
    validate_comment_block_with_cover codec
      (comment_block (0x76 ∷ []) ((0x61 ∷ 0x3d ∷ 0x62 ∷ []) ∷ []) [])
      100
      50
    ≡ refused
unfolding comment_block comment_fields le32 validate_picture_comment split_separator
    validate_encoded_picture
validate_comment_block_lem_example =
    validate_comment_block_lem codec (0x76 ∷ []) ((0x61 ∷ 0x3d ∷ 0x62 ∷ []) ∷ []) [] 100 50

-- a file of the marker and one empty block of padding, marked as the last
abbrev small_flac : Reader
small_flac offset n = if offset == 0 then some flac_marker else some (0x81 ∷ 0 ∷ 0 ∷ 0 ∷ [])

small_flac_accepted : ensure_flac_metadata_bound codec small_flac 8 100 50 ≡ some accepted
unfolding ensure_flac_metadata_bound walk_blocks block_round check_block block_size bytes_eq
small_flac_accepted = refl

ensure_flac_metadata_bound_total_example :
    ensure_flac_metadata_bound codec small_flac 8 100 50 ≢ none
ensure_flac_metadata_bound_total_example =
    ensure_flac_metadata_bound_total codec small_flac 8 100 50

ensure_flac_metadata_bound-IsBounded_example :
    (hs : List Bytes) × IsBounded codec small_flac 8 100 50 4 0 0 hs
ensure_flac_metadata_bound-IsBounded_example =
    ensure_flac_metadata_bound-IsBounded codec small_flac 8 100 50 small_flac_accepted refl

-- a page of stream 7 with the packet "OpusTags" and an empty comment block
abbrev tags_header : Bytes
tags_header =
    0x4f ∷ 0x67 ∷ 0x67 ∷ 0x53 ∷ 0 ∷ 0 ∷ 0 ∷ 0 ∷ 0 ∷ 0 ∷ 0 ∷ 0 ∷ 0 ∷ 0 ∷ 7 ∷ 0 ∷ 0 ∷ 0 ∷ 0 ∷ 0 ∷ 0
    ∷ 0 ∷ 0 ∷ 0 ∷ 0 ∷ 0 ∷ 1 ∷ []

abbrev small_ogg : Stream
small_ogg position n =
    if position == 0
    then whole tags_header
    else if position == 27
    then whole (16 ∷ [])
    else whole (opus_tags ++ (0 ∷ 0 ∷ 0 ∷ 0 ∷ 0 ∷ 0 ∷ 0 ∷ 0 ∷ []))

abbrev chosen_scan : Scan
chosen_scan = record { packet = []; current = some 7; target = some 7 }

small_ogg_accepted : scan_pages 2 codec small_ogg 100 50 0 chosen_scan ≡ accepted
unfolding scan_pages read_page page_body leave enter scan_segments comment_body little_endian
    little_endian_at bytes_eq validate_comment_block_with_cover validate_comments_from
small_ogg_accepted = refl

scan_pages-IsChecked_example : IsChecked codec 100 50 small_ogg 7 0 (enter 7 chosen_scan).packet
scan_pages-IsChecked_example =
    scan_pages-IsChecked codec 100 50 small_ogg 7 2 0 chosen_scan refl small_ogg_accepted

-- a file that is one empty "moov" box
abbrev moov_header : Bytes
moov_header = 0 ∷ 0 ∷ 0 ∷ 8 ∷ moov

abbrev small_mp4 : Reader
small_mp4 position n = if position == 0 && n == 8 then some moov_header else none

small_mp4-IsFile : IsFile small_mp4 8
small_mp4-IsFile = record {
  small = omega arith;
  inside = λ {p} {n} {bs} e. inside_of p n bs e;
  bytes = λ {p} {n} {bs} e. bytes_of p n bs e;
}
  where
    inside_of : (p n : ℕ) (bs : Bytes) → small_mp4 p n ≡ some bs → p + n ≤ 8
    inside_of p n bs e = ground arith

    bytes_of : (p n : ℕ) (bs : Bytes) → small_mp4 p n ≡ some bs → All (λ b. b < 256) bs
    bytes_of p n bs e = elim (Bool-cases (p == 0 && n == 8)) [
      | inl t ↦ let same : moov_header ≡ bs = ground (arith, t) in rw (← same) (omega arith)
      | inr f ↦ absurd (ground (arith, f))
    ]

find_box_total_example : find_box 9 small_mp4 0 8 moov ≢ none
find_box_total_example =
    find_box_total small_mp4 moov 9 0 8 8 small_mp4-IsFile (omega arith) (omega arith)

small_mp4_found : find_box 9 small_mp4 0 8 moov ≡ some (some (8, 0))
unfolding find_box box_loop box_round box_header big_endian bytes_eq
small_mp4_found = refl

find_box_bounds_example : (0 + 8 ≤ 8) × ((8 + 0 ≤ 0 + 8) ⊎ (2 ^ 63 ≤ 8 + 0))
find_box_bounds_example =
    find_box_bounds small_mp4 moov 9 0 8 8 8 0 small_mp4-IsFile (omega arith) small_mp4_found

-- a box at 8 whose extended size is the largest int64
abbrev huge_header : Bytes
huge_header = 0 ∷ 0 ∷ 0 ∷ 1 ∷ moov

abbrev huge_size : Bytes
huge_size = 0x7f ∷ 0xff ∷ 0xff ∷ 0xff ∷ 0xff ∷ 0xff ∷ 0xff ∷ 0xff ∷ []

abbrev huge_mp4 : Reader
huge_mp4 position n = if position == 8 then some huge_header else some huge_size

box_round_overflow_example :
    (box_round huge_mp4 moov 100 8 ≡ found 24 (big_endian64 huge_size - 16))
    × (100 < 24 + (big_endian64 huge_size - 16))
unfolding big_endian64 big_endian bytes_eq
box_round_overflow_example =
    box_round_overflow huge_mp4 moov huge_header huge_size 100 8 refl refl refl refl (omega arith)
      (omega arith) (omega arith) (omega arith)

rounded_uint64_quotient_lem_example :
    (rounded_uint64_quotient 7 2 * (2 * 2) ≤ 2 * 7 + 2)
    × (2 * 7 + 2 < (rounded_uint64_quotient 7 2 + 1) * (2 * 2))
rounded_uint64_quotient_lem_example = rounded_uint64_quotient_lem 7 2 (omega arith) (omega arith)

-- a file of 32 bytes that is an APEv2 footer with a tag of 32 bytes and no items
abbrev footer : Bytes
footer = ape_marker ++ (0 ∷ 0 ∷ 0 ∷ 0 ∷ 32 ∷ 0 ∷ 0 ∷ 0 ∷ 0 ∷ 0 ∷ 0 ∷ 0 ∷ [])

abbrev small_ape : Reader
small_ape position n = if position == 0 then some footer else none

small_ape_accepted : validate_ape_bounds small_ape 32 100 ≡ accepted
unfolding validate_ape_bounds little_endian bytes_eq
small_ape_accepted = refl

validate_ape_bounds-IsInside_example : IsInside 100 0 footer
validate_ape_bounds-IsInside_example =
    validate_ape_bounds-IsInside small_ape 32 100 0 footer small_ape_accepted (omega arith)
      (inl (omega arith)) refl marked
  where
    marked : bytes_eq (take 8 footer) ape_marker ≡ true
    marked = unfold bytes_eq in refl

-- the same file, opened
abbrev opened : OpenFile
opened = record {
  stat = some 8;
  read = small_mp4;
  stream = λ position n. ended;
  head = moov_header ++ (0 ∷ 0 ∷ []);
  has_head = false;
}

ensure_read_bound_lem_example :
    (verdict : Verdict) × (ensure_read_bound 9 codec opened mp4 100 50 ≡ some verdict)
    × ((verdict ≡ refused)
        ⊎ ((opened.has_head && bytes_eq (take 3 opened.head) id3_marker) ≡ false)
        ⊎ (synchsafe opened.head ≤ 100) × (synchsafe opened.head + 10 ≤ 8))
ensure_read_bound_lem_example =
    ensure_read_bound_lem codec opened mp4 9 100 50 8 refl small_mp4-IsFile (omega arith)
