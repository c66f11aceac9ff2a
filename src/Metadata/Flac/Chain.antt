-- ===== src/Metadata/Flac/Chain.antt =====
-- The walk over the blocks of a FLAC file, against the chain of blocks that it follows.
use mathlib.Core.Bool.{false≢true}
use music_online_go.Prelude.{
  ap, sym, ◌∙◌, ℕ, zero, suc, ◌+◌, ◌≤◌, ◌<◌, ◌≡◌, ◌≢◌, Bool, Bool-cases, Option-cases, true, false,
  Option, none, some, ◌⊎◌, inl, inr, List, [], ◌∷◌, length, ltb, refl, arith, sym, ◌∙◌,
}
use music_online_go.Metadata.Bytes.{
  bytes_eq, Bytes, Reader, Verdict, accepted, refused, max_flac_metadata_blocks,
}
use music_online_go.Metadata.Comments.{Codec}
use music_online_go.Metadata.Flac.{
  block_size, is_last, check_block, block_round, walk_blocks, flac_marker,
  ensure_flac_metadata_bound,
}

unfoldable pub chain_size : List Bytes → ℕ
chain_size [] = 0
chain_size (h ∷ hs) = 4 + block_size h + chain_size hs

abbrev matches : Option Bytes → Bool
matches none = true
matches (some marker) = bytes_eq marker flac_marker

module _ (codec : Codec) (read : Reader) (file_size max_tag max_cover : ℕ) where
  -- One round that goes on, and one that accepts: the header that was read, and what holds of it.
  pub record IsBlock (position total count : ℕ) (h : Bytes) : Type 0 where
    pub header : read position 4 ≡ some h
    pub checked : check_block codec read max_tag max_cover position h ≡ accepted
    pub counted : count + 1 ≤ max_flac_metadata_blocks
    pub in_tag : total + (4 + block_size h) ≤ max_tag
    pub in_file : position + (4 + block_size h) ≤ file_size

  -- Headers that follow each other in the file from a position on, the last one marked as the last.
  unfoldable pub IsChain : ℕ → List Bytes → Type 0
  IsChain position [] = ⊥
  IsChain position (h ∷ []) =
      (read position 4 ≡ some h)
      × (check_block codec read max_tag max_cover position h ≡ accepted)
      × (is_last h ≡ true)
  IsChain position (h ∷ (k ∷ hs)) =
      (read position 4 ≡ some h)
      × (check_block codec read max_tag max_cover position h ≡ accepted)
      × (is_last h ≡ false)
      × IsChain (position + (4 + block_size h)) (k ∷ hs)

  Verdict-cases : (v : Verdict) → (v ≡ accepted) ⊎ (v ≡ refused)
  Verdict-cases accepted = inl refl
  Verdict-cases refused = inr refl

  round-IsBlock :
      (position total count : ℕ)
      → (block_round codec read file_size max_tag max_cover position total count ≡ inl refused)
        ⊎ ((h : Bytes) × IsBlock position total count h
            × ((is_last h ≡ true)
                  × (block_round codec read file_size max_tag max_cover position total count
                      ≡ inl accepted)
                ⊎ (is_last h ≡ false)
                  × (block_round codec read file_size max_tag max_cover position total count
                      ≡ inr (4 + block_size h))))
  unfolding block_round
  round-IsBlock position total count = elim (Bool-cases (ltb file_size (position + 4))) [
    | inl a ↦ rw (a) (inl refl)
    | inr a ↦ elim (Bool-cases (ltb max_flac_metadata_blocks (count + 1))) [
      | inl b ↦ rw (a, b) (inl refl)
      | inr b ↦ elim (Option-cases (read position 4)) [
        | inl n ↦ rw (a, b, n) (inl refl)
        | inr (h, r) ↦ elim (Bool-cases (ltb max_tag (total + (4 + block_size h)))) [
          | inl d ↦ rw (a, b, r, d) (inl refl)
          | inr d ↦ elim (Bool-cases (ltb file_size (position + (4 + block_size h)))) [
            | inl f ↦ rw (a, b, r, d, f) (inl refl)
            | inr f ↦ elim (Verdict-cases (check_block codec read max_tag max_cover position h)) [
              | inr v ↦ rw (a, b, r, d, f, v) (inl refl)
              | inl v ↦
                  let block : IsBlock position total count h = record {
                    header = r;
                    checked = v;
                    counted = ground arith;
                    in_tag = ground arith;
                    in_file = ground arith;
                  } in
                  elim (Bool-cases (is_last h)) [
                    | inl l ↦ inr (h, block, inl (l, rw (a, b, r, d, f, v, l) refl))
                    | inr l ↦ inr (h, block, inr (l, rw (a, b, r, d, f, v, l) refl))
                  ]
            ]
          ]
        ]
      ]
    ]
  ]

  -- fuel for the blocks that are still allowed is enough
  walk_blocks_total :
      (fuel position total count : ℕ)
      → max_flac_metadata_blocks < fuel + count
      → count ≤ max_flac_metadata_blocks
      → walk_blocks fuel codec read file_size max_tag max_cover position total count ≢ none
  unfolding walk_blocks
  walk_blocks_total zero position total count enough low = absurd (omega arith)
  walk_blocks_total (suc fuel) position total count enough low =
      elim (round-IsBlock position total count) [
        | inl e ↦ rw (walk_blocks, e) (λ q. cc)
        | inr (h, b, inl (l, e)) ↦ rw (walk_blocks, e) (λ q. cc)
        | inr (h, b, inr (l, e)) ↦
            rw (walk_blocks, e)
              (walk_blocks_total fuel (position + (4 + block_size h)) (total + (4 + block_size h))
                (count + 1) (omega arith) (omega (arith, b.counted)))
      ]

  -- Blocks whose chain, number and sizes are within the limits from a round on.
  pub record IsBounded (position total count : ℕ) (hs : List Bytes) : Type 0 where
    pub chain : IsChain position hs
    pub number : count + length hs ≤ max_flac_metadata_blocks
    pub size : total + chain_size hs ≤ max_tag
    pub end : position + chain_size hs ≤ file_size

  IsBounded-last :
      (position total count : ℕ) (h : Bytes)
      → IsBlock position total count h
      → is_last h ≡ true
      → IsBounded position total count (h ∷ [])
  unfolding chain_size IsChain
  IsBounded-last position total count h b l = record {
    chain = (b.header, b.checked, l);
    number = omega (arith, b.counted);
    size = omega (arith, b.in_tag);
    end = omega (arith, b.in_file);
  }

  IsBounded-next :
      (position total count : ℕ) (h : Bytes) (hs : List Bytes)
      → IsBlock position total count h
      → is_last h ≡ false
      → IsBounded (position + (4 + block_size h)) (total + (4 + block_size h)) (count + 1) hs
      → IsBounded position total count (h ∷ hs)
  unfolding chain_size IsChain
  IsBounded-next position total count h [] b l r = absurd r.chain
  IsBounded-next position total count h (k ∷ hs) b l r = record {
    chain = (b.header, b.checked, l, r.chain);
    number = omega (arith, r.number);
    size = omega (arith, r.size);
    end = omega (arith, r.end);
  }

  walk_blocks-IsBounded :
      (fuel position total count : ℕ)
      → walk_blocks fuel codec read file_size max_tag max_cover position total count ≡ some accepted
      → (hs : List Bytes) × IsBounded position total count hs
  unfolding walk_blocks
  walk_blocks-IsBounded zero position total count = λ q. absurd (cc)
  walk_blocks-IsBounded (suc fuel) position total count =
      elim (round-IsBlock position total count) [
        | inl e ↦ rw (walk_blocks, e) (λ q. absurd (cc))
        | inr (h, b, inl (l, e)) ↦ λ q. (h ∷ [], IsBounded-last position total count h b l)
        | inr (h, b, inr (l, e)) ↦
            rw (walk_blocks, e)
              (λ q.
                let (hs, r) =
                  walk_blocks-IsBounded fuel (position + (4 + block_size h))
                    (total + (4 + block_size h)) (count + 1) q in
                (h ∷ hs, IsBounded-next position total count h hs b l r))
      ]

  wrong_marker :
      (marker : Bytes) → bytes_eq marker flac_marker ≡ false → some marker ≡ some flac_marker → ⊥
  unfolding bytes_eq
  wrong_marker marker y m = false≢true (sym y ∙ ap (λ b. matches b) m)

  -- The check of a FLAC file always gives a verdict, whatever the file: the walk over its blocks
  -- does not run out of fuel.
  pub ensure_flac_metadata_bound_total :
      ensure_flac_metadata_bound codec read file_size max_tag max_cover ≢ none
  unfolding ensure_flac_metadata_bound
  ensure_flac_metadata_bound_total = elim (Option-cases (read 0 4)) [
    | inl n ↦ rw (ensure_flac_metadata_bound, n) (λ q. cc)
    | inr (marker, r) ↦ elim (Bool-cases (bytes_eq marker flac_marker)) [
      | inl y ↦
          rw (ensure_flac_metadata_bound, r, y)
            (walk_blocks_total (max_flac_metadata_blocks + 1) 4 0 0 (omega arith) (omega arith))
      | inr y ↦ rw (ensure_flac_metadata_bound, r, y) (λ q. cc)
    ]
  ]

  -- If the check accepts a file that begins with the FLAC marker, then behind the marker there is a
  -- chain of at most 1024 blocks that passed their checks, the last one marked as the last, whose
  -- sizes add up to no more than the tag limit and end inside the file.
  pub ensure_flac_metadata_bound-IsBounded :
      ensure_flac_metadata_bound codec read file_size max_tag max_cover ≡ some accepted
      → read 0 4 ≡ some flac_marker
      → (hs : List Bytes) × IsBounded 4 0 0 hs
  unfolding ensure_flac_metadata_bound
  ensure_flac_metadata_bound-IsBounded = elim (Option-cases (read 0 4)) [
    | inl n ↦ rw (ensure_flac_metadata_bound, n) (λ e m. absurd (cc))
    | inr (marker, r) ↦ elim (Bool-cases (bytes_eq marker flac_marker)) [
      | inl y ↦
          rw (ensure_flac_metadata_bound, r, y)
            (λ e m. walk_blocks-IsBounded (max_flac_metadata_blocks + 1) 4 0 0 e)
      | inr y ↦ rw (ensure_flac_metadata_bound, r, y) (λ e m. absurd (wrong_marker marker y m))
    ]
  ]
