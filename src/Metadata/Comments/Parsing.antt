-- ===== src/Metadata/Comments/Parsing.antt =====
-- A comment block written comment by comment, against the check of its bytes.
use mathlib.Core.List.{append_assoc}
use music_online_go.Metadata.Bytes.{
  max_vorbis_comment_count, max_text_chunk_bytes, refused, accepted, Verdict, little_endian_at,
  Bytes,
}
use music_online_go.Prelude.{
  Option, none, true, Bool, ◌||◌, take-append, false, drop-append, suc, length-append, sym, ap, ◌∙◌,
  ltb, ◌≤◌, arith, drop, if◌then◌else◌, refl, some, ◌+◌, take, [], ◌++◌, ◌≡◌, ℕ, ◌∷◌, length, List,
}
use music_online_go.Metadata.Bytes.Laws.{little_endian_at-append, le32}
use music_online_go.Metadata.Comments.{
  comment_round, validate_comment_block_with_cover, validate_picture_comment, comment_limit, Codec,
  validate_comments_from,
}

unfoldable pub comment_fields : List Bytes → Bytes
comment_fields [] = []
comment_fields (c ∷ cs) = le32 (length c) ++ (c ++ comment_fields cs)

-- The block of the Vorbis comment format: vendor, number of comments, the comments, and whatever
-- follows.
unfoldable pub comment_block : Bytes → List Bytes → Bytes → Bytes
comment_block vendor comments rest =
    le32 (length vendor)
    ++ (vendor ++ (le32 (length comments) ++ (comment_fields comments ++ rest)))

-- What the check demands of the comments themselves.
abbrev pub comments_verdict : Codec → ℕ → ℕ → List Bytes → Verdict
comments_verdict codec max_tag max_cover [] = accepted
comments_verdict codec max_tag max_cover (c ∷ cs) =
    if ltb (comment_limit max_tag) (length c)
    then refused
    else elim (validate_picture_comment codec c max_cover) [
      | refused ↦ refused
      | accepted ↦ comments_verdict codec max_tag max_cover cs
    ]

length_field :
    (body before : Bytes) (n : ℕ) (rest : Bytes)
    → body ≡ before ++ (le32 n ++ rest)
    → length body ≡ length before + 4 + length rest
unfolding le32
length_field body before n rest e =
    omega (arith, ap (λ (b : Bytes). length b) e, length-append before (le32 n ++ rest))

-- the bytes of a comment are read back
comment_bytes :
    (body before c rest : Bytes) {offset : ℕ}
    → body ≡ before ++ (le32 (length c) ++ (c ++ rest))
    → offset ≡ length before
    → take (length c) (drop (offset + 4) body) ≡ c
comment_bytes body before c rest {offset} e o =
    let before' = before ++ le32 (length c) in
    let split : body ≡ before' ++ (c ++ rest) =
      e ∙ sym (append_assoc before (le32 (length c)) (c ++ rest)) in
    let at : offset + 4 ≡ length before' =
      unfold le32 in omega (arith, length-append before (le32 (length c))) in
    rw (split, at, drop-append before' (c ++ rest)) (take-append c rest)

one_comment :
    (codec : Codec) (body : Bytes) (max_tag max_cover offset : ℕ) (c : Bytes)
    → little_endian_at body offset ≡ some (length c)
    → take (length c) (drop (offset + 4) body) ≡ c
    → offset + 4 + length c ≤ length body
    → comment_round codec body max_tag max_cover offset ≡ (
        if ltb (comment_limit max_tag) (length c)
        then none
        else elim (validate_picture_comment codec c max_cover) [
          | refused ↦ none
          | accepted ↦ some (offset + 4 + length c)
        ])
unfolding comment_round
one_comment codec body max_tag max_cover offset c r bytes fits =
    rw (comment_round, r, bytes, inside (length body) (offset + 4 + length c) fits)
      (or_false (ltb (comment_limit max_tag) (length c)) _ _)
  where
    inside : (m n : ℕ) → n ≤ m → ltb m n ≡ false
    inside m n h = ground arith

    or_false : (b : Bool) (x y : Option ℕ) → (if b || false then x else y) ≡ (if b then x else y)
    or_false true x y = refl
    or_false false x y = refl

next_comment :
    (codec : Codec) (body : Bytes) (max_tag max_cover n : ℕ) (b : Bool) (v : Verdict)
    (after offset : ℕ) {w : Verdict}
    → comment_round codec body max_tag max_cover offset
      ≡ (if b then none else elim v [ refused ↦ none | accepted ↦ some after ])
    → validate_comments_from codec body max_tag max_cover after n ≡ w
    → validate_comments_from codec body max_tag max_cover offset (suc n)
      ≡ (if b then refused else elim v [ refused ↦ refused | accepted ↦ w ])
unfolding validate_comments_from
next_comment codec body max_tag max_cover n true v after offset e h =
    rw (validate_comments_from, e) refl
next_comment codec body max_tag max_cover n false refused after offset e h =
    rw (validate_comments_from, e) refl
next_comment codec body max_tag max_cover n false accepted after offset e h =
    rw (validate_comments_from, e) h

pub comments_from_lem :
    (codec : Codec) (body before : Bytes) (max_tag max_cover offset : ℕ) (comments : List Bytes)
    (rest : Bytes)
    → body ≡ before ++ (comment_fields comments ++ rest)
    → offset ≡ length before
    → validate_comments_from codec body max_tag max_cover offset (length comments)
      ≡ comments_verdict codec max_tag max_cover comments
comments_from_lem codec body before max_tag max_cover offset [] rest e o =
    unfold validate_comments_from in refl
comments_from_lem codec body before max_tag max_cover offset (c ∷ cs) rest e o =
    let split : body ≡ before ++ (le32 (length c) ++ (c ++ (comment_fields cs ++ rest))) =
      unfold comment_fields in e ∙ simp append_assoc in
    let before' = before ++ (le32 (length c) ++ c) in
    let next : body ≡ before' ++ (comment_fields cs ++ rest) = split ∙ simp append_assoc in
    let at : offset + 4 + length c ≡ length before' =
      unfold le32 in omega (arith, length-append before (le32 (length c) ++ c)) in
    next_comment codec body max_tag max_cover (length cs) (ltb (comment_limit max_tag) (length c))
      (validate_picture_comment codec c max_cover) (offset + 4 + length c) offset
      (one_comment codec body max_tag max_cover offset c
        (little_endian_at-append body before (length c) (c ++ (comment_fields cs ++ rest)) split o)
        (comment_bytes body before c (comment_fields cs ++ rest) split o)
        (omega (
          arith,
          ap (λ (b : Bytes). length b) next,
          length-append before' (comment_fields cs ++ rest),
        )))
      (comments_from_lem codec body before' max_tag max_cover (offset + 4 + length c) cs rest next
        at)

from_reads :
    (codec : Codec) (body : Bytes) (max_tag max_cover vendor count : ℕ)
    → little_endian_at body 0 ≡ some vendor
    → 4 + vendor + 4 ≤ length body
    → little_endian_at body (4 + vendor) ≡ some count
    → 8 ≤ length body
    → validate_comment_block_with_cover codec body max_tag max_cover ≡ (
        if ltb max_tag (length body)
        then refused
        else if ltb max_text_chunk_bytes vendor || ltb max_vorbis_comment_count count
        then refused
        else validate_comments_from codec body max_tag max_cover (4 + vendor + 4) count)
unfolding validate_comment_block_with_cover
from_reads codec body max_tag max_cover vendor count v fits c enough =
    rw (v, c, inside (length body) 8 enough, inside (length body) (4 + vendor) (omega arith))
      (branches (ltb max_tag (length body)) (ltb max_text_chunk_bytes vendor)
        (ltb max_vorbis_comment_count count)
        (validate_comments_from codec body max_tag max_cover (4 + vendor + 4) count))
  where
    inside : (m n : ℕ) → n ≤ m → ltb m n ≡ false
    inside m n h = ground arith

    branches :
        (a b d : Bool) (x : Verdict)
        → (if a || false then refused else if b || false then refused else if d then refused else x)
          ≡ (if a then refused else if b || d then refused else x)
    branches true b d x = refl
    branches false true d x = refl
    branches false false true x = refl
    branches false false false x = refl

-- The check accepts a block exactly when it is within the tag limit, its vendor and its number of
-- comments are within theirs, and each comment is short enough and holds no unsafe picture.
pub validate_comment_block_lem :
    (codec : Codec) (vendor : Bytes) (comments : List Bytes) (rest : Bytes) (max_tag max_cover : ℕ)
    → validate_comment_block_with_cover codec (comment_block vendor comments rest) max_tag max_cover
      ≡ (if ltb max_tag (length (comment_block vendor comments rest))
          then refused
          else if ltb max_text_chunk_bytes (length vendor)
              || ltb max_vorbis_comment_count (length comments)
          then refused
          else comments_verdict codec max_tag max_cover comments)
validate_comment_block_lem codec vendor comments rest max_tag max_cover =
    from_reads codec (comment_block vendor comments rest) max_tag max_cover (length vendor)
      (length comments)
      (little_endian_at-append block [] (length vendor) (vendor ++ (le32 (length comments) ++ tail))
        at refl)
      (omega (arith, second_length, vendor_length))
      (little_endian_at-append block (le32 (length vendor) ++ vendor) (length comments) tail second
        vendor_length)
      (omega (arith, second_length, vendor_length))
    ∙ rw
        (comments_from_lem codec block before max_tag max_cover (4 + length vendor + 4) comments
          rest third third_length)
        refl
  where
    block : Bytes
    block = comment_block vendor comments rest

    tail : Bytes
    tail = comment_fields comments ++ rest

    at : block ≡ [] ++ (le32 (length vendor) ++ (vendor ++ (le32 (length comments) ++ tail)))
    at = unfold comment_block in refl

    second : block ≡ (le32 (length vendor) ++ vendor) ++ (le32 (length comments) ++ tail)
    second = at ∙ sym (append_assoc (le32 (length vendor)) vendor (le32 (length comments) ++ tail))

    vendor_length : 4 + length vendor ≡ length (le32 (length vendor) ++ vendor)
    vendor_length = unfold le32 in omega (arith, length-append (le32 (length vendor)) vendor)

    before : Bytes
    before = (le32 (length vendor) ++ vendor) ++ le32 (length comments)

    third : block ≡ before ++ tail
    third =
        second ∙ sym (append_assoc (le32 (length vendor) ++ vendor) (le32 (length comments)) tail)

    third_length : 4 + length vendor + 4 ≡ length before
    third_length =
        unfold le32 in
        omega (
          arith,
          vendor_length,
          length-append (le32 (length vendor) ++ vendor) (le32 (length comments)),
        )

    second_length : length block ≡ length (le32 (length vendor) ++ vendor) + 4 + length tail
    second_length =
        length_field block (le32 (length vendor) ++ vendor) (length comments) tail second
