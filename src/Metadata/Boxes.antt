-- ===== src/Metadata/Boxes.antt =====
-- `findMP4Box` of internal/mediametadata/reader.go. An int64 is its bit pattern, below 2 ^ 64.
pub mod Bounds
use music_online_go.Prelude.{
  sub64, lt64, add64, take, zero, ◌||◌, suc, some, drop, ◌-◌, ltb, none, ◌==◌, ◌%◌, ◌+◌, ◌*◌, Bool,
  Option, if◌then◌else◌, ◌^◌, ℕ,
}
use music_online_go.Metadata.Bytes.{Bytes, Reader, byte, big_endian, bytes_eq}

-- `ReadAt` refuses a negative offset.
abbrev pub read_at : Reader → ℕ → ℕ → Option Bytes
read_at read position n = if ltb position (2 ^ 63) then read position n else none

-- `binary.BigEndian.Uint64`
unfoldable pub big_endian64 : Bytes → ℕ
big_endian64 bs = big_endian bs * 2 ^ 32 + big_endian (drop 4 bs)

pub record BoxHeader : Type 0 where
  pub size : ℕ
  pub header_size : ℕ

-- The size of the box whose first eight bytes are given: none where the extended size cannot be
-- read or is negative.
unfoldable pub box_header : Reader → ℕ → ℕ → Bytes → Option BoxHeader
box_header read position end header =
    if big_endian header == 1
    then elim (read_at read (add64 position 8) 8) [
      | none ↦ none
      | some extended ↦
          if ltb (2 ^ 63 - 1) (big_endian64 extended)
          then none
          else some (record { size = big_endian64 extended; header_size = 16 })
    ]
    else if big_endian header == 0
    then some (record { size = sub64 end position; header_size = 8 })
    else some (record { size = big_endian header; header_size = 8 })

pub data BoxRound : Type 0 where
  -- not found
  missing : BoxRound
  found : ℕ → ℕ → BoxRound
  -- the next position
  onward : ℕ → BoxRound

-- One round of the loop over the boxes.
unfoldable pub box_round : Reader → Bytes → ℕ → ℕ → BoxRound
box_round read wanted end position =
    if lt64 end (add64 position 8) then missing else elim (read_at read position 8) [
      | none ↦ missing
      | some header ↦ elim (box_header read position end header) [
        | none ↦ missing
        | some h ↦
            if lt64 h.size h.header_size || lt64 end (add64 position h.size)
            then missing
            else if bytes_eq (take 4 (drop 4 header)) wanted
            then found (add64 position h.header_size) (sub64 h.size h.header_size)
            else onward (add64 position h.size)
      ]
    ]

-- What follows a round; `rest` is the loop from the next position on.
abbrev pub answer : BoxRound → (ℕ → Option (Option (ℕ × ℕ))) → Option (Option (ℕ × ℕ))
answer missing rest = some none
answer (found start size) rest = some (some (start, size))
answer (onward next) rest = rest next

-- The loop on fuel: none means that the fuel ran out, `some none` that there is no such box.
unfoldable pub box_loop : ℕ → Reader → Bytes → ℕ → ℕ → Option (Option (ℕ × ℕ))
box_loop zero read wanted end position = none
box_loop (suc fuel) read wanted end position =
    answer (box_round read wanted end position) (λ next. box_loop fuel read wanted end next)

-- `findMP4Box`
unfoldable pub find_box : ℕ → Reader → ℕ → ℕ → Bytes → Option (Option (ℕ × ℕ))
unfolding box_loop
find_box fuel read start length wanted = box_loop fuel read wanted (add64 start length) start
