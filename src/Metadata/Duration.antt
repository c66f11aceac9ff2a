-- ===== src/Metadata/Duration.antt =====
-- The durations that internal/mediametadata/reader.go reads from FLAC and MP4 files. An unsigned
-- number is below 2 ^ 64, an int is of 64 bits.
pub mod Rounding
use music_online_go.Prelude.{
  drop, ◌||◌, ◌&&◌, not, ◌/◌, leb, length, ◌+◌, ◌-◌, none, ltb, some, ◌==◌, ◌*◌, [], ◌%◌, Option,
  if◌then◌else◌, ◌^◌, ◌∷◌, ℕ, List, Bool,
}
use music_online_go.Metadata.Bytes.{Bytes, Reader, byte, big_endian, bytes_eq}
use music_online_go.Metadata.Boxes.{find_box, read_at, big_endian64}

abbrev pub max_int : ℕ
max_int = 2 ^ 63 - 1

-- `roundedUint64Quotient`
unfoldable pub rounded_uint64_quotient : ℕ → ℕ → ℕ
rounded_uint64_quotient value divisor =
    if divisor == 0
    then 0
    else if leb (divisor / 2 + divisor % 2) (value % divisor) && ltb (value / divisor) (2 ^ 64 - 1)
    then value / divisor + 1
    else value / divisor

-- `durationSecondsFromUint64`
unfoldable pub duration_seconds : ℕ → ℕ
duration_seconds value = if ltb max_int value then max_int else value

-- The block that go-flac leaves raw: its type and its body.
pub record RawBlock : Type 0 where
  pub is_stream_info : Bool
  pub body : Bytes

abbrev pub sample_rate : Bytes → ℕ
sample_rate body = byte body 10 * 4096 + byte body 11 * 16 + byte body 12 / 16

abbrev pub total_samples : Bytes → ℕ
total_samples body =
    byte body 13 % 16 * 2 ^ 32
    + byte body 14 * 2 ^ 24
    + byte body 15 * 2 ^ 16
    + byte body 16 * 2 ^ 8
    + byte body 17

-- `flacDurationSeconds`; none in the list is a block of another Go type
unfoldable pub flac_duration_seconds : List (Option RawBlock) → ℕ
unfolding duration_seconds rounded_uint64_quotient
flac_duration_seconds [] = 0
flac_duration_seconds (none ∷ blocks) = flac_duration_seconds blocks
flac_duration_seconds (some block ∷ blocks) =
    let rest = flac_duration_seconds blocks in
    if not block.is_stream_info || ltb (length block.body) 18
    then rest
    else if ltb 0 (sample_rate block.body)
    then duration_seconds
        (rounded_uint64_quotient (total_samples block.body) (sample_rate block.body))
    else rest

-- the seconds of a duration in units of a time scale
abbrev pub scaled : ℕ → ℕ → ℕ
scaled time_scale duration =
    if ltb 0 time_scale then duration_seconds (rounded_uint64_quotient duration time_scale) else 0

-- the fields of a movie header, in its two versions
unfoldable pub header_duration : Bytes → ℕ
unfolding duration_seconds rounded_uint64_quotient
header_duration buffer =
    if ltb (length buffer) 20
    then 0
    else if byte buffer 0 == 1
    then (if ltb (length buffer) 32
        then 0
        else scaled (big_endian (drop 20 buffer)) (big_endian64 (drop 24 buffer)))
    else scaled (big_endian (drop 12 buffer)) (big_endian (drop 16 buffer))

-- the bytes of "moov" and "mvhd"
abbrev pub moov : Bytes
moov = 0x6d ∷ 0x6f ∷ 0x6f ∷ 0x76 ∷ []

abbrev pub mvhd : Bytes
mvhd = 0x6d ∷ 0x76 ∷ 0x68 ∷ 0x64 ∷ []

-- `mp4DurationSeconds` of an open file. `tail` is what `ReadAt` gives of 32 bytes at an offset, fewer
-- at the end of the file, none if it fails otherwise. The fuel is that of the two searches.
unfoldable pub mp4_duration_seconds : ℕ → Reader → (ℕ → Option Bytes) → ℕ → Option ℕ
unfolding header_duration
mp4_duration_seconds fuel read tail file_size = elim (find_box fuel read 0 file_size moov) [
  | none ↦ none
  | some none ↦ some 0
  | some (some (moov_start, moov_size)) ↦ elim (find_box fuel read moov_start moov_size mvhd) [
    | none ↦ none
    | some none ↦ some 0
    | some (some (start, size)) ↦
        if ltb size 20
        then some 0
        else elim (tail start) [ none ↦ some 0 | some buffer ↦ some (header_duration buffer) ]
  ]
]
