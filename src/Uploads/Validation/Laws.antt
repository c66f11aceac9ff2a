-- ===== src/Uploads/Validation/Laws.antt =====
-- What an accepted upload looks like.
use music_online_go.Uploads.Validation.Markers.{is_listed_iff}
use music_online_go.Uploads.Validation.Signatures.{
  is_audio_type_iff, IsAudioSignature, IsAudioType, is_audio_signature_iff,
}
use mathlib.Core.List.{Memᴰ}
use music_online_go.Prelude.{
  length, ◌∙◌, ap, none, false, Option, take, ◌≤◌, true, arith, some, ◌↔◌, ℕ, ◌≡◌, Bool, refl,
}
use music_online_go.Metadata.Bytes.{Bytes, Verdict, accepted, refused}
use music_online_go.Uploads.Validation.{
  is_audio_signature, clean_content_type, is_audio_type, allowed_audio_exts, extension,
  signature_read_size, Texts, validate_extension, FileHeader, read_signature, require,
  validate_audio_file, validate_size, both, signature_passes,
}

both_iff : (v w : Verdict) → (both v w ≡ accepted) ↔ ((v ≡ accepted) × (w ≡ accepted))
both_iff accepted w = (λ h. (refl, h), λ h. h.1)
both_iff refused w = (λ h. absurd (ground (arith, h)), λ h. h.0)

require_iff : (b : Bool) → (require b ≡ accepted) ↔ (b ≡ true)
require_iff true = (λ h. refl, λ h. refl)
require_iff false = (λ h. absurd (ground (arith, h)), λ h. absurd (ground (arith, h)))

validate_size_iff :
    (size max_bytes : ℕ)
    → (validate_size size max_bytes ≡ accepted) ↔ ((1 ≤ size) × (size ≤ max_bytes))
unfolding validate_size
validate_size_iff size max_bytes = ground arith

-- The content can be read, and its first 512 bytes pass the test.
abbrev IsSigned : (Bytes → Bool) → FileHeader → Type 0
IsSigned p h =
    (bytes : Bytes) × (h.content ≡ some bytes) × (p (take signature_read_size bytes) ≡ true)

-- An upload of audio that is in order, by the layout of its type and of its content.
pub record IsAudioUpload (texts : Texts) (max_bytes : ℕ) (h : FileHeader) : Type 0 where
  pub not_empty : 1 ≤ h.size
  pub small : h.size ≤ max_bytes
  pub listed : Memᴰ (texts.to_lower (extension h.filename)) allowed_audio_exts
  pub typed : IsAudioType (clean_content_type texts h.content_type)
  pub bytes : Bytes
  pub read : h.content ≡ some bytes
  pub long : 2 ≤ length (take signature_read_size bytes)
  pub signed : IsAudioSignature (take signature_read_size bytes)

signature_iff :
    (p : Bytes → Bool) (h : FileHeader)
    → (signature_passes p (read_signature h) ≡ accepted) ↔ IsSigned p h
unfolding signature_passes read_signature
signature_iff p h = of h.content
  where
    of :
        (content : Option Bytes)
        → (signature_passes p
              (elim content [ none ↦ none | some all ↦ some (take signature_read_size all) ])
            ≡ accepted)
          ↔ ((bytes : Bytes) × (content ≡ some bytes) × (p (take signature_read_size bytes) ≡ true))
    of none = (λ e. absurd (ground (arith, e)), λ d. absurd (no_content d.1))
      where
        no_content : {bytes : Bytes} → none ≡ some bytes → ⊥
        no_content e = cc
    of (some bytes) = (
      λ e. (bytes, refl, (require_iff (p (take signature_read_size bytes))).0 e),
      λ d.
          (require_iff (p (take signature_read_size bytes))).1
            (ap (λ x. p (take signature_read_size x)) (same d.1) ∙ d.2),
    )
      where
        same : {other : Bytes} → ◌≡◌ {A = Option Bytes} (some bytes) (some other) → bytes ≡ other
        same e = cc

-- An upload of audio is accepted exactly if it is not empty and not above the limit, has a listed
-- extension, states an audio type, no type or an unknown one, and can be read and begins, within
-- its first 512 bytes, with one of the known signatures.
pub validate_audio_file_iff :
    (texts : Texts) (max_bytes : ℕ) (h : FileHeader)
    → (validate_audio_file texts max_bytes (some h) ≡ accepted) ↔ IsAudioUpload texts max_bytes h
unfolding validate_audio_file validate_extension
validate_audio_file_iff texts max_bytes h = (only, when)
  where
    type_passes : Verdict
    type_passes = require (is_audio_type (clean_content_type texts h.content_type))

    signed : Verdict
    signed = signature_passes is_audio_signature (read_signature h)

    listed : Verdict
    listed = validate_extension texts h.filename allowed_audio_exts

    only : validate_audio_file texts max_bytes (some h) ≡ accepted → IsAudioUpload texts max_bytes h
    only e =
        let (size, e1) =
          (both_iff (validate_size h.size max_bytes) (both listed (both type_passes signed))).0 e in
        let (ext, e2) = (both_iff listed (both type_passes signed)).0 e1 in
        let (kind, e3) = (both_iff type_passes signed).0 e2 in
        let (low, high) = (validate_size_iff h.size max_bytes).0 size in
        let (bytes, content, passed) = (signature_iff is_audio_signature h).0 e3 in
        let (long, layout) = (is_audio_signature_iff _).0 passed in
        record {
          not_empty = low;
          small = high;
          listed = (is_listed_iff _ allowed_audio_exts).0 ((require_iff _).0 ext);
          typed = (is_audio_type_iff _).0 ((require_iff _).0 kind);
          bytes = bytes;
          read = content;
          long = long;
          signed = layout;
        }

    when : IsAudioUpload texts max_bytes h → validate_audio_file texts max_bytes (some h) ≡ accepted
    when u = (both_iff _ _).1 (
      (validate_size_iff h.size max_bytes).1 (u.not_empty, u.small),
      (both_iff _ _).1 (
        (require_iff _).1 ((is_listed_iff _ allowed_audio_exts).1 u.listed),
        (both_iff _ _).1 (
          (require_iff _).1 ((is_audio_type_iff _).1 u.typed),
          (signature_iff is_audio_signature h).1
              (u.bytes, u.read, (is_audio_signature_iff _).1 (u.long, u.signed)),
        ),
      ),
    )
