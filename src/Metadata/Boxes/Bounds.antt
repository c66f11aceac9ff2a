-- ===== src/Metadata/Boxes/Bounds.antt =====
-- The search for a box: its end, and the region that it reports.
use music_online_go.Prelude.{
  sub64, lt64, add64, zero, suc, none, refl, ◌≢◌, drop, take, false, true, ◌-◌, ltb, Option-cases,
  ◌||◌, ◌⊎◌, inr, inl, Bool-cases, ◌+◌, [], ◌∷◌, some, arith, ◌≡◌, ◌≤◌, ◌^◌, ℕ, All, ◌<◌,
}
use music_online_go.Metadata.Bytes.{bytes_eq, Bytes, Reader, big_endian}
use music_online_go.Metadata.Boxes.{
  BoxHeader, box_header, box_round, BoxRound, answer, box_loop, find_box, missing, found, onward,
  big_endian64, read_at,
}

-- What `ReadAt` promises: all bytes that were asked for, inside the file.
pub record IsFile (read : Reader) (file_size : ℕ) : Type 0 where
  pub small : file_size < 2 ^ 63
  pub inside : {p n : ℕ} {bs : Bytes} → read p n ≡ some bs → p + n ≤ file_size
  pub bytes : {p n : ℕ} {bs : Bytes} → read p n ≡ some bs → All (λ b. b < 256) bs

big_endian-lt : (bs : Bytes) → All (λ b. b < 256) bs → big_endian bs < 2 ^ 32
unfolding big_endian
big_endian-lt [] h = omega arith
big_endian-lt (a ∷ []) h = omega arith
big_endian-lt (a ∷ b ∷ []) h = omega arith
big_endian-lt (a ∷ b ∷ c ∷ []) h = omega arith
big_endian-lt (a ∷ b ∷ c ∷ d ∷ bs) h = omega arith

-- the sizes of a header are int64
pub record IsSized (h : BoxHeader) : Type 0 where
  pub size_lt : h.size < 2 ^ 63
  pub header_ge : 8 ≤ h.header_size
  pub header_le : h.header_size ≤ 16

box_header-IsSized :
    (read : Reader) (position end : ℕ) (header : Bytes) {h : BoxHeader}
    → position ≤ end
    → end < 2 ^ 63
    → All (λ b. b < 256) header
    → box_header read position end header ≡ some h
    → IsSized h
unfolding box_header
box_header-IsSized read position end header {h} le small bytes e =
    elim (Option-cases (read_at read (add64 position 8) 8)) [
      | inl n ↦ ground (arith, n, big_endian-lt header bytes)
      | inr (extended, n) ↦ ground (arith, n, big_endian-lt header bytes)
    ]

-- what a round can answer, below the overflow of a position
data IsRound (position end file_size : ℕ) : BoxRound → Type 0 where
  none_found : IsRound position end file_size missing
  reports :
      (h : BoxHeader)
      → IsSized h
      → position + 8 ≤ file_size
      → h.header_size ≤ h.size
      → (position + h.size ≤ end) ⊎ (2 ^ 63 ≤ position + h.size)
      → IsRound position end file_size (found (position + h.header_size) (h.size - h.header_size))
  goes_on :
      (h : BoxHeader)
      → IsSized h
      → position + 8 ≤ file_size
      → h.header_size ≤ h.size
      → (position + h.size ≤ end) ⊎ (2 ^ 63 ≤ position + h.size)
      → IsRound position end file_size (onward (position + h.size))

-- the sizes that pass the guard
guard_passed :
    (position end : ℕ) (h : BoxHeader)
    → position + 8 ≤ end
    → end < 2 ^ 63
    → IsSized h
    → (lt64 h.size h.header_size || lt64 end (add64 position h.size)) ≡ false
    → (h.header_size ≤ h.size)
      × (add64 position h.size ≡ position + h.size)
      × (add64 position h.header_size ≡ position + h.header_size)
      × (sub64 h.size h.header_size ≡ h.size - h.header_size)
      × ((position + h.size ≤ end) ⊎ (2 ^ 63 ≤ position + h.size))
guard_passed position end h le small z g = ground arith

box_round-IsRound :
    (read : Reader) (wanted : Bytes) (end position file_size : ℕ)
    → IsFile read file_size
    → position < 2 ^ 63
    → end < 2 ^ 63
    → IsRound position end file_size (box_round read wanted end position)
unfolding box_round
box_round-IsRound read wanted end position file_size f low small =
    elim (Bool-cases (lt64 end (add64 position 8))) [
      | inl e ↦ rw (e) none_found
      | inr e ↦ elim (Option-cases (read_at read position 8)) [
        | inl n ↦ rw (e, n) none_found
        | inr (header, n) ↦ elim (Option-cases (box_header read position end header)) [
          | inl m ↦ rw (e, n, m) none_found
          | inr (h, m) ↦
              let n' : read position 8 ≡ some header = rw (low_is position low) at n in
              let fits : position + 8 ≤ end = fits_in position end (f.inside n') f.small small e in
              let z =
                box_header-IsSized read position end header (below fits) small (f.bytes n') m in
              elim (Bool-cases (lt64 h.size h.header_size || lt64 end (add64 position h.size))) [
                | inl g ↦ rw (e, n, m, g) none_found
                | inr g ↦
                    let (le, a, b, c, o) = guard_passed position end h fits small z g in
                    elim (Bool-cases (bytes_eq (take 4 (drop 4 header)) wanted)) [
                      | inl t ↦ rw (e, n, m, g, t, b, c) (reports h z (f.inside n') le o)
                      | inr t ↦ rw (e, n, m, g, t, a) (goes_on h z (f.inside n') le o)
                    ]
              ]
        ]
      ]
    ]
  where
    below : {p e : ℕ} → p + 8 ≤ e → p ≤ e
    below h = omega arith

    fits_in :
        (p e : ℕ)
        → p + 8 ≤ file_size
        → file_size < 2 ^ 63
        → e < 2 ^ 63
        → lt64 e (add64 p 8) ≡ false
        → p + 8 ≤ e
    fits_in p e a b c g = ground arith

    low_is : (p : ℕ) → p < 2 ^ 63 → ltb p (2 ^ 63) ≡ true
    low_is p h = ground arith

-- a round that starts at a negative position finds nothing
box_round_negative :
    (read : Reader) (wanted : Bytes) (end position : ℕ)
    → 2 ^ 63 ≤ position
    → box_round read wanted end position ≡ missing
unfolding box_round
box_round_negative read wanted end position h = elim (Bool-cases (lt64 end (add64 position 8))) [
  | inl e ↦ rw (e) refl
  | inr e ↦ rw (e, negative) refl
]
  where
    negative : ltb position (2 ^ 63) ≡ false
    negative = ground arith

module _ (read : Reader) (wanted : Bytes) (end file_size : ℕ) where
  after_round :
      (fuel position : ℕ) (r : BoxRound)
      → IsRound position end file_size r
      → ((next : ℕ)
          → position + 8 ≤ next
          → position + 8 ≤ file_size
          → box_loop fuel read wanted end next ≢ none)
      → answer r (λ next. box_loop fuel read wanted end next) ≢ none
  after_round fuel position missing none_found rec = λ e. cc
  after_round fuel position (found s l) i rec = λ e. cc
  after_round fuel position (onward n) (goes_on h z inside le o) rec =
      rec (position + h.size) (omega (arith, z.header_ge)) inside

  -- one unit of fuel for each byte of the file and one more are enough
  box_loop_total :
      (fuel position : ℕ)
      → IsFile read file_size
      → end < 2 ^ 63
      → 0 < fuel
      → file_size < fuel + position
      → box_loop fuel read wanted end position ≢ none
  unfolding box_loop
  box_loop_total zero position f small some_fuel enough = absurd (omega arith)
  box_loop_total (suc fuel) position f small some_fuel enough =
      elim (Bool-cases (ltb position (2 ^ 63))) [
        | inl low ↦
            after_round fuel position (box_round read wanted end position)
              (box_round-IsRound read wanted end position file_size f (ground arith) small)
              (λ next far inside. box_loop_total fuel next f small (omega arith) (omega arith))
        | inr high ↦
            rw (box_loop, box_round_negative read wanted end position (ground arith)) (λ e. cc)
      ]

  abbrev IsReported : ℕ → ℕ → ℕ → Type 0
  IsReported start s l = (start + 8 ≤ s) × ((s + l ≤ end) ⊎ (2 ^ 63 ≤ s + l))

  IsReported-round :
      (fuel start position s l : ℕ) (r : BoxRound)
      → start ≤ position
      → IsRound position end file_size r
      → ((next : ℕ)
          → start ≤ next
          → box_loop fuel read wanted end next ≡ some (some (s, l))
          → IsReported start s l)
      → answer r (λ next. box_loop fuel read wanted end next) ≡ some (some (s, l))
      → IsReported start s l
  IsReported-round fuel start position s l missing le none_found rec e = absurd (cc)
  IsReported-round fuel start position s l (found s' l') le (reports h z inside hle o) rec e =
      let first : position + h.header_size ≡ s = cc in
      let second : h.size - h.header_size ≡ l = cc in
      (omega (arith, z.header_ge), whole first second o)
    where
      whole :
          position + h.header_size ≡ s
          → h.size - h.header_size ≡ l
          → (position + h.size ≤ end) ⊎ (2 ^ 63 ≤ position + h.size)
          → (s + l ≤ end) ⊎ (2 ^ 63 ≤ s + l)
      whole a b (inl x) = inl (omega arith)
      whole a b (inr x) = inr (omega arith)
  IsReported-round fuel start position s l (onward n) le (goes_on h z inside hle o) rec e =
      rec (position + h.size) (omega arith) e

  box_loop-IsReported :
      (fuel start position s l : ℕ)
      → IsFile read file_size
      → end < 2 ^ 63
      → start ≤ position
      → box_loop fuel read wanted end position ≡ some (some (s, l))
      → IsReported start s l
  unfolding box_loop
  box_loop-IsReported zero start position s l f small le = λ e. absurd (cc)
  box_loop-IsReported (suc fuel) start position s l f small le =
      elim (Bool-cases (ltb position (2 ^ 63))) [
        | inl low ↦
            IsReported-round fuel start position s l (box_round read wanted end position) le
              (box_round-IsRound read wanted end position file_size f (ground arith) small)
              (λ next far. box_loop-IsReported fuel start next s l f small far)
        | inr high ↦
            rw (box_loop, box_round_negative read wanted end position (ground arith))
              (λ e. absurd (cc))
      ]

-- Whether there is such a box is always answered, if the fuel is above the size of the file.
pub find_box_total :
    (read : Reader) (wanted : Bytes) (fuel start length file_size : ℕ)
    → IsFile read file_size
    → start + length < 2 ^ 63
    → file_size < fuel
    → find_box fuel read start length wanted ≢ none
unfolding find_box
find_box_total read wanted fuel start length file_size f small enough =
    rw (sum start length small) (
      box_loop_total read wanted (start + length) file_size fuel start f small (omega arith)
        (omega arith))
  where
    sum : (a b : ℕ) → a + b < 2 ^ 63 → add64 a b ≡ a + b
    sum a b h = omega arith

-- The region of a box that is found begins behind the region's start and a header, and it ends
-- inside the region that was searched, unless its end does not fit an int64.
pub find_box_bounds :
    (read : Reader) (wanted : Bytes) (fuel start length file_size s l : ℕ)
    → IsFile read file_size
    → start + length < 2 ^ 63
    → find_box fuel read start length wanted ≡ some (some (s, l))
    → (start + 8 ≤ s) × ((s + l ≤ start + length) ⊎ (2 ^ 63 ≤ s + l))
unfolding find_box
find_box_bounds read wanted fuel start length file_size s l f small e =
    box_loop-IsReported read wanted (start + length) file_size fuel start start s l f small
      (omega arith) (rw (sum start length small) at e)
  where
    sum : (a b : ℕ) → a + b < 2 ^ 63 → add64 a b ≡ a + b
    sum a b h = omega arith

extended_header :
    (read : Reader) (end position : ℕ) (header extended : Bytes)
    → big_endian header ≡ 1
    → read (position + 8) 8 ≡ some extended
    → position + 8 < 2 ^ 63
    → big_endian64 extended < 2 ^ 63
    → box_header read position end header
      ≡ some (record { size = big_endian64 extended; header_size = 16 })
unfolding box_header
extended_header read end position header extended one x fits int =
    rw (box_header, one, sum, low, x, int64) refl
  where
    sum : add64 position 8 ≡ position + 8
    sum = omega arith

    low : ltb (position + 8) (2 ^ 63) ≡ true
    low = ground arith

    int64 : ltb (2 ^ 63 - 1) (big_endian64 extended) ≡ false
    int64 = ground arith

-- The exception does happen: a box of the wanted name whose extended size is an int64 but reaches
-- 2 ^ 63 from its position is reported, although it ends far behind the searched region.
pub box_round_overflow :
    (read : Reader) (wanted header extended : Bytes) (end position : ℕ)
    → read position 8 ≡ some header
    → big_endian header ≡ 1
    → bytes_eq (take 4 (drop 4 header)) wanted ≡ true
    → read (position + 8) 8 ≡ some extended
    → position + 16 ≤ end
    → end < 2 ^ 63
    → big_endian64 extended < 2 ^ 63
    → 2 ^ 63 ≤ position + big_endian64 extended
    → (box_round read wanted end position ≡ found (position + 16) (big_endian64 extended - 16))
      × (end < position + 16 + (big_endian64 extended - 16))
unfolding box_round
box_round_overflow read wanted header extended end position r one name x fits small int over = (
  rw
      (
        box_round,
        ahead,
        low position (omega arith),
        r,
        extended_header read end position header extended one x (omega arith) int,
        passed,
        name,
        sum position 16 (omega arith),
        difference (big_endian64 extended) 16 (omega arith) int,
      )
      refl,
  omega arith,
)
  where
    low : (p : ℕ) → p < 2 ^ 63 → ltb p (2 ^ 63) ≡ true
    low p h = ground arith

    sum : (p q : ℕ) → p + q < 2 ^ 63 → add64 p q ≡ p + q
    sum p q h = omega arith

    difference : (p q : ℕ) → q ≤ p → p < 2 ^ 63 → sub64 p q ≡ p - q
    difference p q h k = omega arith

    ahead : lt64 end (add64 position 8) ≡ false
    ahead = ground arith

    passed :
        (lt64 (big_endian64 extended) 16 || lt64 end (add64 position (big_endian64 extended)))
        ≡ false
    passed = ground arith
