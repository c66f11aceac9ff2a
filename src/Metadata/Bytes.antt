-- ===== src/Metadata/Bytes.antt =====
-- Byte strings, random access to a file, and the verdict of a check. A byte string is a list of
-- numbers below 256; `ReadAt` on a file is a function that may refuse any read.
pub mod Laws
use music_online_go.Prelude.{
  ◌&&◌, ℕ, zero, suc, ◌+◌, ◌*◌, Bool, true, false, Option, none, some, List, [], ◌∷◌, length, drop,
  ltb, ◌==◌, if◌then◌else◌,
}

abbrev pub Bytes : Type 0
Bytes = List ℕ

-- `ReadAt(buffer of n bytes, offset)`
abbrev pub Reader : Type 0
Reader = ℕ → ℕ → Option Bytes

-- A check accepts, or it refuses with an error; the texts of the errors are not modelled.
pub data Verdict : Type 0 where
  accepted refused : Verdict

-- `if err != nil { return err }` after a read
abbrev pub on_some : {A : Type 0} → Option A → (A → Verdict) → Verdict
on_some none f = refused
on_some (some a) f = f a

abbrev pub byte : Bytes → ℕ → ℕ
byte [] i = 0
byte (b ∷ bs) zero = b
byte (b ∷ bs) (suc i) = byte bs i

-- `binary.BigEndian.Uint32(bytes)` and `binary.LittleEndian.Uint32(bytes)`
unfoldable pub big_endian : Bytes → ℕ
big_endian (a ∷ b ∷ c ∷ d ∷ _) = ((a * 256 + b) * 256 + c) * 256 + d
big_endian _ = 0

unfoldable pub little_endian : Bytes → ℕ
little_endian (a ∷ b ∷ c ∷ d ∷ _) = ((d * 256 + c) * 256 + b) * 256 + a
little_endian _ = 0

-- The closures that read a 32-bit length at an offset, or find the body truncated.
unfoldable pub big_endian_at : Bytes → ℕ → Option ℕ
big_endian_at body offset =
    if ltb (length body) (offset + 4) then none else some (big_endian (drop offset body))

unfoldable pub little_endian_at : Bytes → ℕ → Option ℕ
little_endian_at body offset =
    if ltb (length body) (offset + 4) then none else some (little_endian (drop offset body))

-- the package's constants
abbrev pub max_embedded_tag_bytes : ℕ
max_embedded_tag_bytes = 16 * 1024 * 1024

abbrev pub max_text_chunk_bytes : ℕ
max_text_chunk_bytes = 1024 * 1024

abbrev pub max_tune_tag_metadata_bytes : ℕ
max_tune_tag_metadata_bytes = 64 * 1024 * 1024

abbrev pub max_vorbis_comment_count : ℕ
max_vorbis_comment_count = 4096

abbrev pub max_vorbis_comment_bytes : ℕ
max_vorbis_comment_bytes = 16 * 1024 * 1024

abbrev pub max_flac_metadata_blocks : ℕ
max_flac_metadata_blocks = 1024

-- a limit of 0 stands for every limit that is not positive
unfoldable pub normalized_tag_limit : ℕ → ℕ
normalized_tag_limit limit =
    if limit == 0
    then max_embedded_tag_bytes
    else if ltb max_tune_tag_metadata_bytes limit
    then max_tune_tag_metadata_bytes
    else limit

-- `bytes.Equal`
unfoldable pub bytes_eq : Bytes → Bytes → Bool
bytes_eq [] [] = true
bytes_eq (a ∷ as') (b ∷ bs) = a == b && bytes_eq as' bs
bytes_eq _ _ = false
