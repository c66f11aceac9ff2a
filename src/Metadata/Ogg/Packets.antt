-- ===== src/Metadata/Ogg/Packets.antt =====
-- What an Ogg stream is, apart from the loops of `ensureOggCommentsBound`: pages with a segment
-- table, and packets that are laced over the pages of one stream.
use music_online_go.Metadata.Ogg.{page_marker, comment_body, sum, whole, read_full, Stream}
use music_online_go.Metadata.Bytes.{accepted, little_endian, bytes_eq, byte, Bytes}
use music_online_go.Prelude.{
  ◌≤◌, length, some, true, drop, take, ◌∷◌, ◌++◌, false, [], ◌≡◌, ◌+◌, ◌==◌, List, ℕ,
}
use music_online_go.Metadata.Comments.{Codec, validate_comment_block_with_cover}

-- The page of the stream `serial` that the file has at `position`.
pub record PageAt (stream : Stream) (serial position : ℕ) : Type 0 where
  pub header : Bytes
  pub segments : Bytes
  pub body : Bytes
  pub has_header : read_full stream position 27 ≡ whole header
  pub marked : bytes_eq (take 4 header) page_marker ≡ true
  pub has_version : (byte header 4 == 0) ≡ true
  pub has_serial : little_endian (drop 14 header) ≡ serial
  pub has_segments : read_full stream (position + 27) (byte header 26) ≡ whole segments
  pub has_body : read_full stream (position + 27 + byte header 26) (sum segments) ≡ whole body

-- where the next page begins
abbrev pub page_end : {stream : Stream} {serial position : ℕ} → PageAt stream serial position → ℕ
page_end {position = position} page = position + 27 + byte page.header 26 + sum page.segments

-- Behind the segments `done` of a page, `packet` is the packet that is not yet complete. A segment
-- of 255 bytes goes on in the next one; any other completes its packet.
pub data Inside (body carried : Bytes) : List ℕ → Bytes → Type 0 where
  begun : Inside body carried [] carried
  goes_on :
      {done : List ℕ} {packet : Bytes}
      → Inside body carried done packet
      → Inside body carried (done ++ 255 ∷ []) (packet ++ take 255 (drop (sum done) body))
  completes :
      {done : List ℕ} {packet : Bytes} (n : ℕ)
      → Inside body carried done packet
      → (n == 255) ≡ false
      → Inside body carried (done ++ n ∷ []) []

-- At a place between two pages, `packet` is the packet of the stream that is not yet complete:
-- `carried` at the start, unchanged by a page of another stream.
pub data Open (stream : Stream) (serial start : ℕ) (carried : Bytes) : ℕ → Bytes → Type 0 where
  started : Open stream serial start carried start carried
  passes :
      {position : ℕ} {packet : Bytes} (other : ℕ) (page : PageAt stream other position)
      → Open stream serial start carried position packet
      → (serial == other) ≡ false
      → Open stream serial start carried (page_end page) packet
  reads :
      {position : ℕ} {packet packet' : Bytes} (page : PageAt stream serial position)
      → Open stream serial start carried position packet
      → Inside page.body packet page.segments packet'
      → Open stream serial start carried (page_end page) packet'

-- A complete packet of the stream behind `start`, no longer than the tag limit, is a comment packet
-- whose block passed its check.
pub record IsChecked (codec : Codec) (max_tag max_cover : ℕ) (stream : Stream) (serial start : ℕ)
    (carried : Bytes) : Type 0 where
  pub position : ℕ
  pub packet : Bytes
  pub opened : Open stream serial start carried position packet
  pub page : PageAt stream serial position
  pub done : List ℕ
  pub part : Bytes
  pub inside : Inside page.body packet done part
  pub last : ℕ
  pub rest : List ℕ
  pub segments : page.segments ≡ done ++ last ∷ rest
  pub complete : (last == 255) ≡ false
  pub block : Bytes
  pub found : comment_body (part ++ take last (drop (sum done) page.body)) ≡ some block
  pub bounded : length (part ++ take last (drop (sum done) page.body)) ≤ max_tag
  pub passed : validate_comment_block_with_cover codec block max_tag max_cover ≡ accepted
