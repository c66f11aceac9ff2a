-- ===== src/Metadata/Picture/Layout.antt =====
-- A picture block written field by field, against the check.
use mathlib.Core.List.{append_assoc}
use music_online_go.Metadata.Bytes.Laws.{big_endian_at-append, be32}
use music_online_go.Prelude.{
  inr, inl, Bool-cases, ◌≤◌, refl, [], length-append, ap, arith, ◌+◌, some, none, ◌||◌, ltb,
  if◌then◌else◌, ◌++◌, length, ◌≡◌, ℕ,
}
use music_online_go.Metadata.Picture.{cover_limit, skip_text, validate_picture}
use music_online_go.Metadata.Bytes.{big_endian_at, accepted, refused, max_text_chunk_bytes, Bytes}

-- The block of the FLAC format: type, MIME type, description, four dimensions, picture data, and
-- whatever follows.
unfoldable pub picture_block : ℕ → Bytes → Bytes → Bytes → Bytes → Bytes → Bytes
picture_block kind mime text dimensions picture rest =
    be32 kind
    ++ (be32 (length mime)
        ++ (mime
            ++ (be32 (length text)
                ++ (text ++ (dimensions ++ (be32 (length picture) ++ (picture ++ rest)))))))

length_field :
    (body before : Bytes) (n : ℕ) (rest : Bytes)
    → body ≡ before ++ (be32 n ++ rest)
    → length body ≡ length before + 4 + length rest
unfolding be32
length_field body before n rest e =
    omega (arith, ap (λ (b : Bytes). length b) e, length-append before (be32 n ++ rest))

skip_text_lem :
    (body before t rest : Bytes) (offset : ℕ)
    → body ≡ before ++ (be32 (length t) ++ (t ++ rest))
    → offset ≡ length before
    → skip_text body offset
      ≡ (if ltb max_text_chunk_bytes (length t) then none else some (offset + 4 + length t))
unfolding skip_text
skip_text_lem body before t rest offset e o = ground (
  arith,
  big_endian_at-append body before (length t) (t ++ rest) {offset = offset} e o,
  length_field body before (length t) (t ++ rest) e,
  length-append t rest,
)

-- the check, given what each of its reads returns
validate_picture_reads :
    (body : Bytes) (max_cover kind m t n : ℕ)
    → big_endian_at body 0 ≡ some kind
    → skip_text body 4 ≡ (if ltb max_text_chunk_bytes m then none else some (4 + 4 + m))
    → skip_text body (4 + 4 + m)
      ≡ (if ltb max_text_chunk_bytes t then none else some (4 + 4 + m + 4 + t))
    → big_endian_at body (4 + 4 + m + 4 + t + 16) ≡ some n
    → 4 + 4 + m + 4 + t + 20 + n ≤ length body
    → validate_picture body max_cover ≡ (
        if ltb max_text_chunk_bytes m
          || (ltb max_text_chunk_bytes t || ltb (cover_limit max_cover) n)
        then refused
        else accepted)
unfolding validate_picture
validate_picture_reads body max_cover kind m t n r1 r2 r3 r4 fits =
    elim (Bool-cases (ltb max_text_chunk_bytes m)) [
      | inl e ↦ rw (r1, r2, e)
      | inr e ↦ elim (Bool-cases (ltb max_text_chunk_bytes t)) [
        | inl f ↦ rw (r1, r2, e, r3, f)
        | inr f ↦ rw (r1, r2, e, r3, f) (ground (arith, r4))
      ]
    ]

-- The check accepts a block exactly when its two texts and its picture keep within the limits.
pub validate_picture_lem :
    (kind max_cover : ℕ) (mime text dimensions picture rest : Bytes)
    → length dimensions ≡ 16
    → validate_picture (picture_block kind mime text dimensions picture rest) max_cover ≡ (
        if ltb max_text_chunk_bytes (length mime)
          || (ltb max_text_chunk_bytes (length text)
              || ltb (cover_limit max_cover) (length picture))
        then refused
        else accepted)
unfolding picture_block
validate_picture_lem kind max_cover mime text dimensions picture rest d =
    let body = picture_block kind mime text dimensions picture rest in
    let before_text = be32 kind ++ (be32 (length mime) ++ mime) in
    let before_size = before_text ++ (be32 (length text) ++ (text ++ dimensions)) in
    let tail = dimensions ++ (be32 (length picture) ++ (picture ++ rest)) in
    let at_text : body ≡ before_text ++ (be32 (length text) ++ (text ++ tail)) =
      simp append_assoc in
    let at_size : body ≡ before_size ++ (be32 (length picture) ++ (picture ++ rest)) =
      simp append_assoc in
    let text_offset : 4 + 4 + length mime ≡ length before_text = unfold be32 in omega arith in
    let size_offset : 4 + 4 + length mime + 4 + length text + 16 ≡ length before_size =
      unfold be32 in
      omega (
        arith,
        length-append before_text (be32 (length text) ++ (text ++ dimensions)),
        length-append text dimensions,
      ) in
    validate_picture_reads body max_cover kind (length mime) (length text) (length picture)
      (big_endian_at-append body [] kind
        (be32 (length mime) ++ (mime ++ (be32 (length text) ++ (text ++ tail)))) {offset = 0} refl
        refl)
      (skip_text_lem body (be32 kind) mime (be32 (length text) ++ (text ++ tail)) 4 refl
        (unfold be32 in refl))
      (skip_text_lem body before_text text tail (4 + 4 + length mime) at_text text_offset)
      (big_endian_at-append body before_size (length picture) (picture ++ rest) at_size size_offset)
      (omega (
        arith,
        length_field body before_size (length picture) (picture ++ rest) at_size,
        length-append picture rest,
        size_offset,
      ))
