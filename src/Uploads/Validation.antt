-- ===== src/Uploads/Validation.antt =====
-- internal/service/upload_validation.go, on bytes. Lower case and the detection of image types are
-- parameters. A file's size that is not positive is 0, and its content is `none` if it cannot be read.
pub mod Markers
pub mod Signatures
pub mod Laws
use music_online_go.Prelude.{
  drop, ltb, ◌/◌, not, length, ◌==◌, ◌&&◌, false, [], take, none, leb, ◌||◌, if◌then◌else◌, some,
  true, Option, Bool, List, ◌∷◌, ℕ,
}
use music_online_go.Metadata.Bytes.{Bytes, byte, bytes_eq, Verdict, accepted, refused}

pub record Texts : Type 0 where
  pub to_lower : Bytes → Bytes
  -- whether `http.DetectContentType` gives one of the allowed image types
  pub is_detected_image : Bytes → Bool

-- `multipart.FileHeader`
pub record FileHeader : Type 0 where
  pub filename : Bytes
  pub size : ℕ
  pub content_type : Bytes
  pub content : Option Bytes

abbrev pub signature_read_size : ℕ
signature_read_size = 512

-- the extensions, with their dots, in the order of their texts
abbrev pub allowed_audio_exts : List Bytes
allowed_audio_exts =
    (46 ∷ 97 ∷ 97 ∷ 99 ∷ [])
    ∷ (46 ∷ 97 ∷ 105 ∷ 102 ∷ [])
    ∷ (46 ∷ 97 ∷ 105 ∷ 102 ∷ 102 ∷ [])
    ∷ (46 ∷ 97 ∷ 112 ∷ 101 ∷ [])
    ∷ (46 ∷ 102 ∷ 108 ∷ 97 ∷ 99 ∷ [])
    ∷ (46 ∷ 109 ∷ 52 ∷ 97 ∷ [])
    ∷ (46 ∷ 109 ∷ 112 ∷ 51 ∷ [])
    ∷ (46 ∷ 111 ∷ 103 ∷ 103 ∷ [])
    ∷ (46 ∷ 111 ∷ 112 ∷ 117 ∷ 115 ∷ [])
    ∷ (46 ∷ 119 ∷ 97 ∷ 118 ∷ [])
    ∷ (46 ∷ 119 ∷ 109 ∷ 97 ∷ [])
    ∷ []

abbrev pub allowed_cover_exts : List Bytes
allowed_cover_exts =
    (46 ∷ 103 ∷ 105 ∷ 102 ∷ [])
    ∷ (46 ∷ 106 ∷ 112 ∷ 101 ∷ 103 ∷ [])
    ∷ (46 ∷ 106 ∷ 112 ∷ 103 ∷ [])
    ∷ (46 ∷ 112 ∷ 110 ∷ 103 ∷ [])
    ∷ (46 ∷ 119 ∷ 101 ∷ 98 ∷ 112 ∷ [])
    ∷ []

-- the checks one after another, each of which may end the validation
abbrev pub both : Verdict → Verdict → Verdict
both refused v = refused
both accepted v = v

abbrev pub require : Bool → Verdict
require true = accepted
require false = refused

-- `validateSize`
unfoldable pub validate_size : ℕ → ℕ → Verdict
validate_size size max_bytes =
    if size == 0 then refused else if ltb max_bytes size then refused else accepted

-- `filepath.Ext`: from the last dot behind the last slash
abbrev pub has_dot_ahead : Bytes → Bool
has_dot_ahead [] = false
has_dot_ahead (b ∷ bs) = b == 0x2e || has_dot_ahead bs

abbrev pub has_slash_ahead : Bytes → Bool
has_slash_ahead [] = false
has_slash_ahead (b ∷ bs) = b == 0x2f || has_slash_ahead bs

unfoldable pub extension : Bytes → Bytes
extension [] = []
extension (b ∷ bs) =
    let rest = extension bs in
    if b == 0x2e && not (has_dot_ahead bs || has_slash_ahead bs) then b ∷ bs else rest

unfoldable pub is_listed : Bytes → List Bytes → Bool
is_listed ext [] = false
is_listed ext (x ∷ xs) = bytes_eq ext x || is_listed ext xs

-- `validateExtension`
unfoldable pub validate_extension : Texts → Bytes → List Bytes → Verdict
unfolding extension is_listed
validate_extension texts filename allowed =
    require (is_listed (texts.to_lower (extension filename)) allowed)

unfoldable pub starts_with : Bytes → Bytes → Bool
starts_with bytes prefix = bytes_eq (take (length prefix) bytes) prefix

-- `strings.TrimSpace`, of a text whose bytes are ASCII
abbrev pub is_blank : ℕ → Bool
is_blank b = leb 9 b && leb b 13 || b == 32

unfoldable pub trim_front : Bytes → Bytes
trim_front [] = []
trim_front (b ∷ bs) = if is_blank b then trim_front bs else b ∷ bs

abbrev pub is_nothing : Bytes → Bool
is_nothing [] = true
is_nothing (b ∷ bs) = false

unfoldable pub trim_back : Bytes → Bytes
trim_back [] = []
trim_back (b ∷ bs) =
    let rest = trim_back bs in if is_blank b && is_nothing rest then [] else b ∷ rest

unfoldable pub before_semicolon : Bytes → Bytes
before_semicolon [] = []
before_semicolon (b ∷ bs) = let rest = before_semicolon bs in if b == 0x3b then [] else b ∷ rest

-- `cleanHeaderContentType`
unfoldable pub clean_content_type : Texts → Bytes → Bytes
unfolding trim_front trim_back before_semicolon
clean_content_type texts value = trim_back (trim_front (before_semicolon (texts.to_lower value)))

-- "application/octet-stream", "application/ogg", "video/mp4", "audio/" and "image/"
abbrev pub octet_stream : Bytes
octet_stream =
    97 ∷ 112 ∷ 112 ∷ 108 ∷ 105 ∷ 99 ∷ 97 ∷ 116 ∷ 105 ∷ 111 ∷ 110 ∷ 47 ∷ 111 ∷ 99 ∷ 116 ∷ 101 ∷ 116
    ∷ 45 ∷ 115 ∷ 116 ∷ 114 ∷ 101 ∷ 97 ∷ 109 ∷ []

abbrev pub application_ogg : Bytes
application_ogg =
    97 ∷ 112 ∷ 112 ∷ 108 ∷ 105 ∷ 99 ∷ 97 ∷ 116 ∷ 105 ∷ 111 ∷ 110 ∷ 47 ∷ 111 ∷ 103 ∷ 103 ∷ []

abbrev pub video_mp4 : Bytes
video_mp4 = 118 ∷ 105 ∷ 100 ∷ 101 ∷ 111 ∷ 47 ∷ 109 ∷ 112 ∷ 52 ∷ []

abbrev pub audio_prefix : Bytes
audio_prefix = 97 ∷ 117 ∷ 100 ∷ 105 ∷ 111 ∷ 47 ∷ []

abbrev pub image_prefix : Bytes
image_prefix = 105 ∷ 109 ∷ 97 ∷ 103 ∷ 101 ∷ 47 ∷ []

unfoldable pub is_unstated : Bytes → Bool
is_unstated content_type = is_nothing content_type || bytes_eq content_type octet_stream

-- `validateAudioHeaderMIME` and `validateHeaderMIME`
unfoldable pub is_audio_type : Bytes → Bool
unfolding is_unstated starts_with
is_audio_type t =
    is_unstated t
    || starts_with t audio_prefix
    || bytes_eq t application_ogg
    || bytes_eq t video_mp4

unfoldable pub is_image_type : Bytes → Bool
unfolding is_unstated starts_with
is_image_type t = is_unstated t || starts_with t image_prefix

-- `isMPEGFrame` and `isADTSFrame`: the highest three or four bits of the second byte
unfoldable pub is_mpeg_frame : Bytes → Bool
is_mpeg_frame bytes = leb 2 (length bytes) && byte bytes 0 == 0xff && byte bytes 1 / 32 == 7

unfoldable pub is_adts_frame : Bytes → Bool
is_adts_frame bytes = leb 2 (length bytes) && byte bytes 0 == 0xff && byte bytes 1 / 16 == 15

-- the bytes at 4 and at 8
unfoldable pub is_at : ℕ → Bytes → Bytes → Bool
is_at offset marker bytes = leb 12 (length bytes) && bytes_eq (take 4 (drop offset bytes)) marker

abbrev pub asf_header : Bytes
asf_header =
    0x30 ∷ 0x26 ∷ 0xb2 ∷ 0x75 ∷ 0x8e ∷ 0x66 ∷ 0xcf ∷ 0x11 ∷ 0xa6 ∷ 0xd9 ∷ 0x00 ∷ 0xaa ∷ 0x00 ∷ 0x62
    ∷ 0xce ∷ 0x6c ∷ []

-- `isSupportedAudioSignature`: "ID3", frames, "fLaC", "OggS", "RIFF" with "WAVE", "FORM" with "AIFF"
-- or "AIFC", "ftyp", "MAC " and the header of ASF
unfoldable pub is_audio_signature : Bytes → Bool
unfolding starts_with is_mpeg_frame is_adts_frame is_at
is_audio_signature bytes =
    leb 2 (length bytes)
    && (starts_with bytes (0x49 ∷ 0x44 ∷ 0x33 ∷ [])
        || is_mpeg_frame bytes
        || is_adts_frame bytes
        || starts_with bytes (0x66 ∷ 0x4c ∷ 0x61 ∷ 0x43 ∷ [])
        || starts_with bytes (0x4f ∷ 0x67 ∷ 0x67 ∷ 0x53 ∷ [])
        || is_at 0 (0x52 ∷ 0x49 ∷ 0x46 ∷ 0x46 ∷ []) bytes
          && is_at 8 (0x57 ∷ 0x41 ∷ 0x56 ∷ 0x45 ∷ []) bytes
        || is_at 0 (0x46 ∷ 0x4f ∷ 0x52 ∷ 0x4d ∷ []) bytes
          && (is_at 8 (0x41 ∷ 0x49 ∷ 0x46 ∷ 0x46 ∷ []) bytes
              || is_at 8 (0x41 ∷ 0x49 ∷ 0x46 ∷ 0x43 ∷ []) bytes)
        || is_at 4 (0x66 ∷ 0x74 ∷ 0x79 ∷ 0x70 ∷ []) bytes
        || starts_with bytes (0x4d ∷ 0x41 ∷ 0x43 ∷ 0x20 ∷ [])
        || starts_with bytes asf_header)

-- `isSupportedCoverSignature`: a detected image, or "RIFF" with "WEBP"
unfoldable pub is_cover_signature : Texts → Bytes → Bool
unfolding is_at
is_cover_signature texts bytes =
    texts.is_detected_image bytes
    || is_at 0 (0x52 ∷ 0x49 ∷ 0x46 ∷ 0x46 ∷ []) bytes
      && is_at 8 (0x57 ∷ 0x45 ∷ 0x42 ∷ 0x50 ∷ []) bytes

-- `readSignature`
unfoldable pub read_signature : FileHeader → Option Bytes
read_signature header = elim header.content [
  | none ↦ none
  | some all ↦ some (take signature_read_size all)
]

unfoldable pub signature_passes : (Bytes → Bool) → Option Bytes → Verdict
signature_passes p none = refused
signature_passes p (some bytes) = require (p bytes)

-- `validateUploadedAudioFileWithLimit`; no header is no file, which passes
unfoldable pub validate_audio_file : Texts → ℕ → Option FileHeader → Verdict
unfolding validate_size validate_extension clean_content_type is_audio_type read_signature
    is_audio_signature signature_passes
validate_audio_file texts max_bytes none = accepted
validate_audio_file texts max_bytes (some h) = both (validate_size h.size max_bytes) (
    both (validate_extension texts h.filename allowed_audio_exts) (
      both (require (is_audio_type (clean_content_type texts h.content_type)))
        (signature_passes is_audio_signature (read_signature h))))

-- `validateUploadedCoverFileWithLimit`
unfoldable pub validate_cover_file : Texts → ℕ → Option FileHeader → Verdict
unfolding validate_size validate_extension clean_content_type is_image_type read_signature
    is_cover_signature signature_passes
validate_cover_file texts max_bytes none = accepted
validate_cover_file texts max_bytes (some h) = both (validate_size h.size max_bytes) (
    both (validate_extension texts h.filename allowed_cover_exts) (
      both (require (is_image_type (clean_content_type texts h.content_type)))
        (signature_passes (is_cover_signature texts) (read_signature h))))
