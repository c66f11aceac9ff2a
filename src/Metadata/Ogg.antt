-- ===== src/Metadata/Ogg.antt =====
-- `ensureOggCommentsBound` of internal/mediametadata/reader.go.
pub mod Packets
pub mod Pieces
pub mod Segments
pub mod Comments
use music_online_go.Prelude.{
  ◌++◌, ◌*◌, ltb, drop, true, not, inr, some, zero, ◌||◌, inl, ◌==◌, length, ◌+◌, [], ◌⊎◌, none,
  take, suc, false, if◌then◌else◌, Option, ◌∷◌, ℕ, List, Bool,
}
use music_online_go.Metadata.Bytes.{
  Bytes, Verdict, accepted, refused, little_endian, byte, bytes_eq, max_flac_metadata_blocks,
}
use music_online_go.Metadata.Comments.{Codec, validate_comment_block_with_cover}

-- What `io.ReadFull` gives: all bytes that were asked for, the end of the file before them, or
-- another error.
pub data FullRead : Type 0 where
  whole : Bytes → FullRead
  ended failed : FullRead

-- `io.ReadFull` of n bytes at the file's position
abbrev pub Stream : Type 0
Stream = ℕ → ℕ → FullRead

abbrev pub read_full : Stream → ℕ → ℕ → FullRead
read_full stream position n = if n == 0 then whole [] else stream position n

-- `bytes.HasPrefix`
abbrev pub has_prefix : Bytes → Bytes → Bool
has_prefix bs prefix = bytes_eq (take (length prefix) bs) prefix

-- the bytes of "OggS", of the two Vorbis packet types, and of "OpusHead" and "OpusTags"
abbrev pub page_marker : Bytes
page_marker = 0x4f ∷ 0x67 ∷ 0x67 ∷ 0x53 ∷ []

abbrev pub vorbis_head : Bytes
vorbis_head = 0x01 ∷ 0x76 ∷ 0x6f ∷ 0x72 ∷ 0x62 ∷ 0x69 ∷ 0x73 ∷ []

abbrev pub vorbis_comment : Bytes
vorbis_comment = 0x03 ∷ 0x76 ∷ 0x6f ∷ 0x72 ∷ 0x62 ∷ 0x69 ∷ 0x73 ∷ []

abbrev pub opus_head : Bytes
opus_head = 0x4f ∷ 0x70 ∷ 0x75 ∷ 0x73 ∷ 0x48 ∷ 0x65 ∷ 0x61 ∷ 0x64 ∷ []

abbrev pub opus_tags : Bytes
opus_tags = 0x4f ∷ 0x70 ∷ 0x75 ∷ 0x73 ∷ 0x54 ∷ 0x61 ∷ 0x67 ∷ 0x73 ∷ []

-- What the loop over the pages carries: the packet so far, its stream, and the stream that an
-- identification header has chosen.
pub record Scan : Type 0 where
  pub packet : Bytes
  pub current : Option ℕ
  pub target : Option ℕ

-- the comment block of a packet that holds one
unfoldable pub comment_body : Bytes → Option Bytes
comment_body packet =
    if has_prefix packet vorbis_head || has_prefix packet opus_head
    then none
    else if has_prefix packet vorbis_comment
    then some (drop 7 packet)
    else if has_prefix packet opus_tags
    then some (drop 8 packet)
    else none

-- the stream that a packet chooses
abbrev pub chosen : ℕ → Bytes → Option ℕ → Option ℕ
chosen serial packet target =
    if has_prefix packet vorbis_head || has_prefix packet opus_head then some serial else target

-- The loop over the segments of a page: `inl` is a verdict.
unfoldable pub scan_segments : Codec → ℕ → ℕ → ℕ → List ℕ → Bytes → Scan → Verdict ⊎ Scan
scan_segments codec max_tag max_cover serial [] body s = inr s
scan_segments codec max_tag max_cover serial (segment ∷ segments) body s =
    elim (ltb (length body) segment || ltb max_tag (length s.packet + segment)) [
      | true ↦ inl refused
      | false ↦ elim (segment == 255) [
        | true ↦
            scan_segments codec max_tag max_cover serial segments (drop segment body)
              (record s { packet = s.packet ++ take segment body })
        | false ↦ elim (comment_body (s.packet ++ take segment body)) [
          | some block ↦ inl (validate_comment_block_with_cover codec block max_tag max_cover)
          | none ↦
              scan_segments codec max_tag max_cover serial segments (drop segment body) (record s {
                packet = [];
                target = chosen serial (s.packet ++ take segment body) s.target;
              })
        ]
      ]
    ]

abbrev pub sum : List ℕ → ℕ
sum [] = 0
sum (n ∷ ns) = n + sum ns

abbrev pub is_other : Option ℕ → ℕ → Bool
is_other none serial = false
is_other (some target) serial = not (target == serial)

-- a page of another stream than the last begins a packet
unfoldable pub enter : ℕ → Scan → Scan
enter serial s = elim s.current [
  | none ↦ record s { packet = []; current = some serial }
  | some current ↦ if current == serial then s else record s { packet = []; current = some serial }
]

abbrev pub is_chosen : Option ℕ → Bool
is_chosen none = false
is_chosen (some serial) = true

pub data Page : Type 0 where
  -- the verdict of the whole check
  stop : Verdict → Page
  -- the position behind the page, and what is carried on
  next : ℕ → Scan → Page

-- behind the segments of a page: the bound on the scan
unfoldable pub leave : ℕ → ℕ → Verdict ⊎ Scan → Page
leave max_tag position (inl v) = stop v
leave max_tag position (inr s) =
    if ltb (max_tag + 2 * 1024 * 1024) position
    then stop (if is_chosen s.target then refused else accepted)
    else next position s

-- the body of a page behind its segment table
unfoldable pub page_body : Codec → Stream → ℕ → ℕ → ℕ → ℕ → Bytes → Scan → Page
unfolding leave enter scan_segments
page_body codec stream max_tag max_cover position serial segments s =
    elim (read_full stream position (sum segments)) [
      | ended ↦ stop refused
      | failed ↦ stop refused
      | whole body ↦
          if is_other s.target serial
          then next (position + sum segments) s
          else leave max_tag (position + sum segments)
              (scan_segments codec max_tag max_cover serial segments body (enter serial s))
    ]

unfoldable pub read_page : Codec → Stream → ℕ → ℕ → ℕ → Scan → Page
unfolding page_body
read_page codec stream max_tag max_cover position s = elim (read_full stream position 27) [
  | ended ↦ stop (if is_chosen s.target then refused else accepted)
  | failed ↦ stop refused
  | whole header ↦
      if not (bytes_eq (take 4 header) page_marker) || not (byte header 4 == 0)
      then stop refused
      else elim (read_full stream (position + 27) (byte header 26)) [
        | ended ↦ stop refused
        | failed ↦ stop refused
        | whole segments ↦
            page_body codec stream max_tag max_cover (position + 27 + byte header 26)
              (little_endian (drop 14 header)) segments s
      ]
]

-- The loop over the pages that are still allowed; behind the last one the check refuses.
unfoldable pub scan_pages : ℕ → Codec → Stream → ℕ → ℕ → ℕ → Scan → Verdict
scan_pages zero codec stream max_tag max_cover position s = refused
scan_pages (suc pages) codec stream max_tag max_cover position s =
    elim (read_page codec stream max_tag max_cover position s) [
      | stop v ↦ v
      | next position' s' ↦ scan_pages pages codec stream max_tag max_cover position' s'
    ]

-- `ensureOggCommentsBound`, behind its seek to the start
unfoldable pub ensure_ogg_comments_bound : Codec → Stream → ℕ → ℕ → Verdict
unfolding scan_pages
ensure_ogg_comments_bound codec stream max_tag max_cover =
    scan_pages max_flac_metadata_blocks codec stream max_tag max_cover 0
      (record { packet = []; current = none; target = none })
