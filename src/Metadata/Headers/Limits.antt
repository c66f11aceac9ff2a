-- ===== src/Metadata/Headers/Limits.antt =====
-- What the bounds on tags admit.
use music_online_go.Metadata.Flac.Chain.{ensure_flac_metadata_bound_total}
use music_online_go.Metadata.Flac.{flac_marker}
use music_online_go.Metadata.Duration.{moov}
use music_online_go.Metadata.Boxes.{find_box}
use music_online_go.Metadata.Ogg.{ensure_ogg_comments_bound}
use music_online_go.Metadata.Boxes.Bounds.{find_box_total, IsFile}
use music_online_go.Metadata.Comments.{Codec}
use music_online_go.Prelude.{
  ◌∙◌, none, ◌≢◌, Option, Bool-cases, ◌&&◌, ◌<◌, refl, inr, inl, false, ltb, ◌⊎◌, if◌then◌else◌,
  ◌-◌, arith, ◌+◌, true, take, some, ◌≤◌, drop, ◌≡◌, ℕ,
}
use music_online_go.Metadata.Bytes.{
  little_endian, Bytes, Reader, Verdict, accepted, refused, bytes_eq,
}
use music_online_go.Metadata.Headers.{
  other_format, mp4, ogg, check_id3, check_container, synchsafe, id3_marker, Format, OpenFile,
  check_tags, ensure_read_bound, check_footer, check_ape, has_id3v1, validate_ape_bounds,
  ape_marker, id3v1_size,
}

-- An APEv2 footer in a file: its tag is within the limit and begins inside the file.
abbrev pub IsInside : ℕ → ℕ → Bytes → Type 0
IsInside max_tag offset footer =
    (little_endian (drop 12 footer) ≤ max_tag)
    × (little_endian (drop 16 footer) ≤ 4096)
    × (32 ≤ little_endian (drop 12 footer))
    × (little_endian (drop 12 footer) ≤ offset + 32)

check_ape-IsInside :
    (read : Reader) (max_tag offset : ℕ) (footer : Bytes)
    → check_ape read max_tag offset ≡ accepted
    → read offset 32 ≡ some footer
    → bytes_eq (take 8 footer) ape_marker ≡ true
    → IsInside max_tag offset footer
unfolding check_ape check_footer
check_ape-IsInside read max_tag offset footer e r m = inside (rw (check_ape, r, m) at e)
  where
    inside : check_footer max_tag offset footer ≡ accepted → IsInside max_tag offset footer
    inside h = ground arith

-- Where readers look for a footer: at the end of the file, or in front of an ID3v1 tag.
abbrev pub IsPlace : Reader → ℕ → ℕ → Type 0
IsPlace read file_size offset =
    (offset ≡ file_size - 32)
    ⊎ (has_id3v1 read file_size ≡ true) × (offset ≡ file_size - id3v1_size - 32)

-- If the check accepts a file, each APEv2 footer that stands at the end of the file or in front of an
-- ID3v1 tag has at most 4096 items and a tag that is no longer than the limit, at least as long as
-- the footer and begins inside the file.
pub validate_ape_bounds-IsInside :
    (read : Reader) (file_size max_tag offset : ℕ) (footer : Bytes)
    → validate_ape_bounds read file_size max_tag ≡ accepted
    → 32 ≤ file_size
    → IsPlace read file_size offset
    → read offset 32 ≡ some footer
    → bytes_eq (take 8 footer) ape_marker ≡ true
    → IsInside max_tag offset footer
unfolding validate_ape_bounds
validate_ape_bounds-IsInside read file_size max_tag offset footer e size place r m =
    check_ape-IsInside read max_tag offset footer (each place) r m
  where
    first :
        (v : Verdict) {w : Verdict}
        → elim v [ refused ↦ refused | accepted ↦ w ] ≡ accepted
        → (v ≡ accepted) × (w ≡ accepted)
    first accepted h = (refl, h)
    first refused h = cc

    large : ltb file_size 32 ≡ false
    large = ground arith

    both :
        (check_ape read max_tag (file_size - 32) ≡ accepted)
        × ((if has_id3v1 read file_size
              then check_ape read max_tag (file_size - id3v1_size - 32)
              else accepted)
            ≡ accepted)
    both = first (check_ape read max_tag (file_size - 32)) (rw (large) at e)

    each : IsPlace read file_size offset → check_ape read max_tag offset ≡ accepted
    each (inl o) = rw (o) both.0
    each (inr (t, o)) = rw (o) (rw (t) at both.1)

given : (o : Option Verdict) → o ≢ none → (v : Verdict) × (o ≡ some v)
given none h = absurd (h refl)
given (some v) h = (v, refl)

check_container_total :
    (fuel : ℕ) (codec : Codec) (file : OpenFile) (format : Format) (file_size max_tag max_cover : ℕ)
    → IsFile file.read file_size
    → file_size < fuel
    → check_container fuel codec file format file_size max_tag max_cover ≢ none
unfolding check_container
check_container_total fuel codec file format file_size max_tag max_cover f enough =
    elim (Bool-cases (bytes_eq (take 4 file.head) flac_marker)) [
      | inl m ↦
          rw (check_container, m)
            (ensure_flac_metadata_bound_total codec file.read file_size max_tag max_cover)
      | inr m ↦ rw (check_container, m) (by_format format)
    ]
  where
    searched :
        (r : Option (Option (ℕ × ℕ)))
        → r ≢ none
        → ◌≢◌ {A = Option Verdict}
            (elim r [
              | none ↦ none
              | some none ↦ some accepted
              | some (some (start, size)) ↦ if ltb max_tag size then some refused else some accepted
            ])
            none
    searched none h = λ e. h refl
    searched (some none) h = λ e. cc
    searched (some (some (start, size))) h = elim (Bool-cases (ltb max_tag size)) [
      | inl t ↦ rw (t) (λ e. cc)
      | inr t ↦ rw (t) (λ e. cc)
    ]

    by_format :
        (k : Format)
        → elim k [
          | ogg ↦ some (ensure_ogg_comments_bound codec file.stream max_tag max_cover)
          | mp4 ↦ elim (find_box fuel file.read 0 file_size moov) [
            | none ↦ none
            | some none ↦ some accepted
            | some (some (start, size)) ↦ if ltb max_tag size then some refused else some accepted
          ]
          | other_format ↦ some accepted
        ]
          ≢ none
    by_format ogg = λ e. cc
    by_format mp4 =
        searched (find_box fuel file.read 0 file_size moov) (
          find_box_total file.read moov fuel 0 file_size file_size f (omega (arith, f.small))
            enough)
    by_format other_format = λ e. cc

check_id3-bounds :
    (file_size max_tag : ℕ) (header : Bytes)
    → check_id3 file_size max_tag header ≡ accepted
    → (synchsafe header ≤ max_tag) × (synchsafe header + 10 ≤ file_size)
unfolding check_id3
check_id3-bounds file_size max_tag header e = ground arith

check_tags-bounds :
    (file : OpenFile) (file_size max_tag : ℕ)
    → check_tags file file_size max_tag ≡ accepted
    → ((file.has_head && bytes_eq (take 3 file.head) id3_marker) ≡ false)
      ⊎ (synchsafe file.head ≤ max_tag) × (synchsafe file.head + 10 ≤ file_size)
unfolding check_tags
check_tags-bounds file file_size max_tag e =
    elim (Bool-cases (file.has_head && bytes_eq (take 3 file.head) id3_marker)) [
      | inr m ↦ inl m
      | inl m ↦ inr (
          check_id3-bounds file_size max_tag file.head
            (first (check_id3 file_size max_tag file.head) _ (rw (check_tags, m) at e)))
    ]
  where
    first : (v w : Verdict) → elim v [ refused ↦ refused | accepted ↦ w ] ≡ accepted → v ≡ accepted
    first accepted w h = refl
    first refused w h = cc

-- The whole check gives a verdict for every file and every format, if the fuel of its search for a
-- box is above the size of the file; and if it accepts a file that begins with an ID3v2 header, the
-- tag is no longer than the limit and ends inside the file.
pub ensure_read_bound_lem :
    (codec : Codec) (file : OpenFile) (format : Format) (fuel max_tag max_cover file_size : ℕ)
    → file.stat ≡ some file_size
    → IsFile file.read file_size
    → file_size < fuel
    → (verdict : Verdict) × (ensure_read_bound fuel codec file format max_tag max_cover
        ≡ some verdict)
      × ((verdict ≡ refused)
          ⊎ ((file.has_head && bytes_eq (take 3 file.head) id3_marker) ≡ false)
          ⊎ (synchsafe file.head ≤ max_tag) × (synchsafe file.head + 10 ≤ file_size))
unfolding ensure_read_bound
ensure_read_bound_lem codec file format fuel max_tag max_cover file_size s f enough =
    of (check_tags file file_size max_tag) refl
  where
    same :
        check_tags file file_size max_tag ≡ accepted
        → ensure_read_bound fuel codec file format max_tag max_cover
          ≡ check_container fuel codec file format file_size max_tag max_cover
    same e = rw (ensure_read_bound, s, e) refl

    of :
        (v : Verdict)
        → check_tags file file_size max_tag ≡ v
        → (verdict : Verdict) × (ensure_read_bound fuel codec file format max_tag max_cover
            ≡ some verdict)
          × ((verdict ≡ refused)
              ⊎ ((file.has_head && bytes_eq (take 3 file.head) id3_marker) ≡ false)
              ⊎ (synchsafe file.head ≤ max_tag) × (synchsafe file.head + 10 ≤ file_size))
    of refused e = (refused, rw (ensure_read_bound, s, e) refl, inl refl)
    of accepted e =
        let (v, c) =
          given (check_container fuel codec file format file_size max_tag max_cover)
            (check_container_total fuel codec file format file_size max_tag max_cover f enough) in
        (v, same e ∙ c, inr (check_tags-bounds file file_size max_tag e))
