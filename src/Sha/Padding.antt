-- ===== src/Sha/Padding.antt =====
-- zkvm/sha256_proper.go: `alignUp`, `computePaddedLength`, and the padded buffer that `shaBuffer`
-- and `FinalizeProperHasher` fill. A Go int is its 32-bit pattern, as on riscv32.
pub mod Bounds
pub mod Layout
use go_zkvm.Base.{ℕ, ◌+◌, ◌-◌, ◌*◌, ◌/◌, ◌%◌, ◌^◌, bit_and, Option, none, some, List, ltb}
use go_zkvm.Base.{length, replicate, copy, copy_at, set, if◌then◌else◌}
use go_zkvm.Base.Bytes.{le_bytes, le_number, be32}

abbrev pub block_size : ℕ
block_size = 64

-- `^x`
abbrev complement : ℕ → ℕ
complement x = 2 ^ 32 - 1 - x

-- `x / d` of ints, which rounds towards zero, for `0 < d`.
abbrev div_int : ℕ → ℕ → ℕ
div_int x d = if ltb x (2 ^ 31) then x / d else (2 ^ 32 - (2 ^ 32 - x) / d) % 2 ^ 32

pub align_up : ℕ → ℕ → ℕ
align_up addr al =
    bit_and ((addr + al + (2 ^ 32 - 1)) % 2 ^ 32) (complement ((al + (2 ^ 32 - 1)) % 2 ^ 32))

pub compute_padded_length : ℕ → ℕ
compute_padded_length data_len =
    let n_words = div_int (align_up ((data_len + 1) % 2 ^ 32) 4) 4 in
    align_up ((n_words + 2) % 2 ^ 32) 16 * 4 % 2 ^ 32

-- `bitsTrailer` after the swap: the word whose little-endian bytes are the big-endian ones of `v`.
abbrev swap_trailer : ℕ → ℕ
swap_trailer v = le_number (be32 v)

-- The buffer of `padLen` bytes (`padBufu8`, the byte view of `padBuf`): the message bytes, the end
-- marker, zeros, and the trailer in the last word. A length outside the view of 2^30 bytes, a
-- negative one included, panics.
pub pad_buffer : List ℕ → ℕ → Option (List ℕ)
pad_buffer bytes bits =
    let pad_len = compute_padded_length (length bytes) in
    let filled = copy (replicate pad_len 0) bytes in
    let marked = set filled (length bytes) 0x80 in
    let pad_words = pad_len / 4 in
    if ltb (2 ^ 30) pad_len
    then none
    else some (copy_at marked (4 * (pad_words - 1)) (le_bytes 4 (swap_trailer bits)))
