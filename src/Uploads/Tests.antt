-- ===== src/Uploads/Tests.antt =====
-- Uploads at concrete inputs.
use music_online_go.Prelude.{◌↔◌, [], ◌≡◌, false, some, ◌∷◌, refl}
use music_online_go.Metadata.Bytes.{accepted, refused, bytes_eq}
use music_online_go.Uploads.Validation.{FileHeader, Texts, validate_audio_file}
use music_online_go.Uploads.Validation.Laws.{IsAudioUpload, validate_audio_file_iff}

abbrev ascii : Texts
ascii = record { to_lower = λ text. text; is_detected_image = λ bytes. false }

-- "a.mp3" with an ID3v2 header
abbrev song : FileHeader
song = record {
  filename = 97 ∷ 46 ∷ 109 ∷ 112 ∷ 51 ∷ [];
  size = 5;
  content_type = [];
  content = some (0x49 ∷ 0x44 ∷ 0x33 ∷ 4 ∷ 0 ∷ []);
}

song_accepted : validate_audio_file ascii 10 (some song) ≡ accepted
unfolding validate_audio_file bytes_eq
song_accepted = refl

song_too_large : validate_audio_file ascii 4 (some song) ≡ refused
unfolding validate_audio_file
song_too_large = refl

validate_audio_file_iff_example :
    (validate_audio_file ascii 10 (some song) ≡ accepted) ↔ IsAudioUpload ascii 10 song
validate_audio_file_iff_example = validate_audio_file_iff ascii 10 song
