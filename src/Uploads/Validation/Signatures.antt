-- ===== src/Uploads/Validation/Signatures.antt =====
-- The types and the signatures of audio files, as layouts of their bytes, and that the tests of
-- upload_validation.go tell them.
use music_online_go.Uploads.Validation.Markers.{
  leb_iff, starts_with_iff, is_at_iff, bytes_eq_iff, IsAt, and_iff, StartsWith, or_iff,
}
use music_online_go.Metadata.Bytes.{Bytes}
use music_online_go.Uploads.Validation.{
  video_mp4, application_ogg, is_unstated, audio_prefix, octet_stream, is_adts_frame, asf_header,
  is_audio_type, is_nothing, is_audio_signature, is_mpeg_frame, is_at,
}
use music_online_go.Prelude.{
  refl, ◌⊎◌, false, [], inr, ◌∙◌, ◌||◌, inl, sym, ap, arith, ◌&&◌, ◌<◌, ◌↔◌, ◌∷◌, true, length, ◌≡◌,
  ◌≤◌, Bool, ℕ,
}
use mathlib.Core.Bool.{false≢true}

-- The first byte has all bits set, and the second is at least `low`.
abbrev pub IsFrame : ℕ → Bytes → Type 0
IsFrame low bytes =
    (second : ℕ) × (rest : Bytes) × (bytes ≡ 0xff ∷ second ∷ rest) × (low ≤ second) × (second < 256)

IsFrame-iff :
    (low : ℕ) (bytes : Bytes) (p : Bytes → Bool)
    → (p [] ≡ false)
    → ((a : ℕ) → p (a ∷ []) ≡ false)
    → ((a b : ℕ) (rest : Bytes) → (p (a ∷ b ∷ rest) ≡ true) ↔ ((a ≡ 0xff) × (low ≤ b) × (b < 256)))
    → (p bytes ≡ true) ↔ IsFrame low bytes
IsFrame-iff low bytes p none one two = (only bytes, when)
  where
    only : (bytes : Bytes) → p bytes ≡ true → IsFrame low bytes
    only [] e = absurd (false≢true (sym none ∙ e))
    only (a ∷ []) e = absurd (false≢true (sym (one a) ∙ e))
    only (a ∷ b ∷ rest) e =
        let (first, above, below) = (two a b rest).0 e in
        (b, rest, ap (λ x. x ∷ b ∷ rest) first, above, below)

    when : IsFrame low bytes → p bytes ≡ true
    when (second, rest, e, above, below) = ap p e ∙ (two 0xff second rest).1 (refl, above, below)

is_mpeg_frame_iff : (bytes : Bytes) → (is_mpeg_frame bytes ≡ true) ↔ IsFrame 0xe0 bytes
unfolding is_mpeg_frame
is_mpeg_frame_iff bytes =
    IsFrame-iff 0xe0 bytes is_mpeg_frame refl (λ a. refl) (λ a b rest. second a b rest)
  where
    second :
        (a b : ℕ) (rest : Bytes)
        → (is_mpeg_frame (a ∷ b ∷ rest) ≡ true) ↔ ((a ≡ 0xff) × (0xe0 ≤ b) × (b < 256))
    second a b rest = ground arith

is_adts_frame_iff : (bytes : Bytes) → (is_adts_frame bytes ≡ true) ↔ IsFrame 0xf0 bytes
unfolding is_adts_frame
is_adts_frame_iff bytes =
    IsFrame-iff 0xf0 bytes is_adts_frame refl (λ a. refl) (λ a b rest. second a b rest)
  where
    second :
        (a b : ℕ) (rest : Bytes)
        → (is_adts_frame (a ∷ b ∷ rest) ≡ true) ↔ ((a ≡ 0xff) × (0xf0 ≤ b) × (b < 256))
    second a b rest = ground arith

-- A file that states no type, an unknown one, or one of audio.
pub data IsAudioType (t : Bytes) : Type 0 where
  unstated : t ≡ [] → IsAudioType t
  octets : t ≡ octet_stream → IsAudioType t
  audio : StartsWith audio_prefix t → IsAudioType t
  ogg_application : t ≡ application_ogg → IsAudioType t
  mp4_video : t ≡ video_mp4 → IsAudioType t

is_nothing_iff : (bs : Bytes) → (is_nothing bs ≡ true) ↔ (bs ≡ [])
is_nothing_iff [] = (λ e. refl, λ e. refl)
is_nothing_iff (b ∷ bs) = (λ e. absurd (false≢true e), λ e. absurd (cc))

pub is_audio_type_iff : (t : Bytes) → (is_audio_type t ≡ true) ↔ IsAudioType t
unfolding is_audio_type is_unstated
is_audio_type_iff t = (λ e. of (tests.0 e), λ k. tests.1 (to k))
  where
    Kinds : Type 0
    Kinds =
        ((((t ≡ []) ⊎ (t ≡ octet_stream)) ⊎ StartsWith audio_prefix t) ⊎ (t ≡ application_ogg))
        ⊎ (t ≡ video_mp4)

    tests : (is_audio_type t ≡ true) ↔ Kinds
    tests =
        or_iff _ _
          (or_iff _ _
            (or_iff _ _ (or_iff _ _ (is_nothing_iff t) (bytes_eq_iff t octet_stream))
              (starts_with_iff t audio_prefix))
            (bytes_eq_iff t application_ogg))
          (bytes_eq_iff t video_mp4)

    of : Kinds → IsAudioType t
    of (inl (inl (inl (inl e)))) = unstated e
    of (inl (inl (inl (inr e)))) = octets e
    of (inl (inl (inr e))) = audio e
    of (inl (inr e)) = ogg_application e
    of (inr e) = mp4_video e

    to : IsAudioType t → Kinds
    to (unstated e) = inl (inl (inl (inl e)))
    to (octets e) = inl (inl (inl (inr e)))
    to (audio e) = inl (inl (inr e))
    to (ogg_application e) = inl (inr e)
    to (mp4_video e) = inr e

-- "RIFF" and "WAVE", "FORM" and "AIFF" or "AIFC", "ftyp"
abbrev pub IsWave : Bytes → Type 0
IsWave bs = IsAt 0 (0x52 ∷ 0x49 ∷ 0x46 ∷ 0x46 ∷ []) bs × IsAt 8 (0x57 ∷ 0x41 ∷ 0x56 ∷ 0x45 ∷ []) bs

abbrev pub IsAiff : Bytes → Type 0
IsAiff bs =
    IsAt 0 (0x46 ∷ 0x4f ∷ 0x52 ∷ 0x4d ∷ []) bs
    × (IsAt 8 (0x41 ∷ 0x49 ∷ 0x46 ∷ 0x46 ∷ []) bs ⊎ IsAt 8 (0x41 ∷ 0x49 ∷ 0x46 ∷ 0x43 ∷ []) bs)

-- "ID3", a frame of MPEG or ADTS, "fLaC", "OggS", the containers, "MAC " and the header of ASF
pub data IsAudioSignature (bs : Bytes) : Type 0 where
  id3 : StartsWith (0x49 ∷ 0x44 ∷ 0x33 ∷ []) bs → IsAudioSignature bs
  mpeg : IsFrame 0xe0 bs → IsAudioSignature bs
  adts : IsFrame 0xf0 bs → IsAudioSignature bs
  flac : StartsWith (0x66 ∷ 0x4c ∷ 0x61 ∷ 0x43 ∷ []) bs → IsAudioSignature bs
  ogg : StartsWith (0x4f ∷ 0x67 ∷ 0x67 ∷ 0x53 ∷ []) bs → IsAudioSignature bs
  wave : IsWave bs → IsAudioSignature bs
  aiff : IsAiff bs → IsAudioSignature bs
  mp4 : IsAt 4 (0x66 ∷ 0x74 ∷ 0x79 ∷ 0x70 ∷ []) bs → IsAudioSignature bs
  ape : StartsWith (0x4d ∷ 0x41 ∷ 0x43 ∷ 0x20 ∷ []) bs → IsAudioSignature bs
  asf : StartsWith asf_header bs → IsAudioSignature bs

abbrev Layouts : Bytes → Type 0
Layouts bs =
    ((((((((StartsWith (0x49 ∷ 0x44 ∷ 0x33 ∷ []) bs ⊎ IsFrame 0xe0 bs) ⊎ IsFrame 0xf0 bs)
                ⊎ StartsWith (0x66 ∷ 0x4c ∷ 0x61 ∷ 0x43 ∷ []) bs)
              ⊎ StartsWith (0x4f ∷ 0x67 ∷ 0x67 ∷ 0x53 ∷ []) bs)
            ⊎ IsWave bs)
          ⊎ IsAiff bs)
        ⊎ IsAt 4 (0x66 ∷ 0x74 ∷ 0x79 ∷ 0x70 ∷ []) bs)
      ⊎ StartsWith (0x4d ∷ 0x41 ∷ 0x43 ∷ 0x20 ∷ []) bs)
    ⊎ StartsWith asf_header bs

Layouts-IsAudioSignature : (bs : Bytes) → Layouts bs → IsAudioSignature bs
Layouts-IsAudioSignature bs (inr s) = asf s
Layouts-IsAudioSignature bs (inl (inr s)) = ape s
Layouts-IsAudioSignature bs (inl (inl (inr s))) = mp4 s
Layouts-IsAudioSignature bs (inl (inl (inl (inr s)))) = aiff s
Layouts-IsAudioSignature bs (inl (inl (inl (inl (inr s))))) = wave s
Layouts-IsAudioSignature bs (inl (inl (inl (inl (inl (inr s)))))) = ogg s
Layouts-IsAudioSignature bs (inl (inl (inl (inl (inl (inl (inr s))))))) = flac s
Layouts-IsAudioSignature bs (inl (inl (inl (inl (inl (inl (inl (inr s)))))))) = adts s
Layouts-IsAudioSignature bs (inl (inl (inl (inl (inl (inl (inl (inl (inr s))))))))) = mpeg s
Layouts-IsAudioSignature bs (inl (inl (inl (inl (inl (inl (inl (inl (inl s))))))))) = id3 s

IsAudioSignature-Layouts : (bs : Bytes) → IsAudioSignature bs → Layouts bs
IsAudioSignature-Layouts bs (asf s) = inr s
IsAudioSignature-Layouts bs (ape s) = inl (inr s)
IsAudioSignature-Layouts bs (mp4 s) = inl (inl (inr s))
IsAudioSignature-Layouts bs (aiff s) = inl (inl (inl (inr s)))
IsAudioSignature-Layouts bs (wave s) = inl (inl (inl (inl (inr s))))
IsAudioSignature-Layouts bs (ogg s) = inl (inl (inl (inl (inl (inr s)))))
IsAudioSignature-Layouts bs (flac s) = inl (inl (inl (inl (inl (inl (inr s))))))
IsAudioSignature-Layouts bs (adts s) = inl (inl (inl (inl (inl (inl (inl (inr s)))))))
IsAudioSignature-Layouts bs (mpeg s) = inl (inl (inl (inl (inl (inl (inl (inl (inr s))))))))
IsAudioSignature-Layouts bs (id3 s) = inl (inl (inl (inl (inl (inl (inl (inl (inl s))))))))

at :
    (offset : ℕ) (a b c d : ℕ) (bs : Bytes)
    → offset ≤ 8
    → (is_at offset (a ∷ b ∷ c ∷ d ∷ []) bs ≡ true) ↔ IsAt offset (a ∷ b ∷ c ∷ d ∷ []) bs
at offset a b c d bs small = is_at_iff offset (a ∷ b ∷ c ∷ d ∷ []) bs (omega arith) refl

Layouts-iff : (bs : Bytes) {b : Bool} → (b ≡ true) ↔ Layouts bs → (b ≡ true) ↔ IsAudioSignature bs
Layouts-iff bs tests =
    (λ e. Layouts-IsAudioSignature bs (tests.0 e), λ s. tests.1 (IsAudioSignature-Layouts bs s))

IsWave-iff :
    (bs : Bytes)
    → ((is_at 0 (0x52 ∷ 0x49 ∷ 0x46 ∷ 0x46 ∷ []) bs && is_at 8 (0x57 ∷ 0x41 ∷ 0x56 ∷ 0x45 ∷ []) bs)
        ≡ true)
      ↔ IsWave bs
IsWave-iff bs =
    and_iff _ _ (at 0 0x52 0x49 0x46 0x46 bs (omega arith))
      (at 8 0x57 0x41 0x56 0x45 bs (omega arith))

IsAiff-iff :
    (bs : Bytes)
    → ((is_at 0 (0x46 ∷ 0x4f ∷ 0x52 ∷ 0x4d ∷ []) bs
          && (is_at 8 (0x41 ∷ 0x49 ∷ 0x46 ∷ 0x46 ∷ []) bs
              || is_at 8 (0x41 ∷ 0x49 ∷ 0x46 ∷ 0x43 ∷ []) bs))
        ≡ true)
      ↔ IsAiff bs
IsAiff-iff bs = and_iff _ _ (at 0 0x46 0x4f 0x52 0x4d bs (omega arith)) (
    or_iff _ _ (at 8 0x41 0x49 0x46 0x46 bs (omega arith))
      (at 8 0x41 0x49 0x46 0x43 bs (omega arith)))

pub is_audio_signature_iff :
    (bs : Bytes) → (is_audio_signature bs ≡ true) ↔ ((2 ≤ length bs) × IsAudioSignature bs)
unfolding is_audio_signature
is_audio_signature_iff bs =
    let id3_or_frame =
      or_iff _ _ (or_iff _ _ (starts_with_iff bs (0x49 ∷ 0x44 ∷ 0x33 ∷ [])) (is_mpeg_frame_iff bs))
        (is_adts_frame_iff bs) in
    let or_marker =
      or_iff _ _ (or_iff _ _ id3_or_frame (starts_with_iff bs (0x66 ∷ 0x4c ∷ 0x61 ∷ 0x43 ∷ [])))
        (starts_with_iff bs (0x4f ∷ 0x67 ∷ 0x67 ∷ 0x53 ∷ [])) in
    let or_container =
      or_iff _ _ (or_iff _ _ (or_iff _ _ or_marker (IsWave-iff bs)) (IsAiff-iff bs))
        (at 4 0x66 0x74 0x79 0x70 bs (omega arith)) in
    and_iff _ _ (leb_iff 2 (length bs)) (
      Layouts-iff bs (
        or_iff _ _ (or_iff _ _ or_container (starts_with_iff bs (0x4d ∷ 0x41 ∷ 0x43 ∷ 0x20 ∷ [])))
          (starts_with_iff bs asf_header)))
