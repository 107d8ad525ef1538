-- ===== src/Sha/Padding/Bounds.antt =====
-- The length that `computePaddedLength` returns.
use go_zkvm.Base.{ℕ, ◌+◌, ◌-◌, ◌*◌, ◌/◌, ◌%◌, ◌^◌, ◌<◌, ◌≡◌, arith}
use go_zkvm.Base.Bits.{clear_two_bits, clear_four_bits}
use go_zkvm.Sha.Padding.{align_up, compute_padded_length}

align_up_word : (n : ℕ) → n + 3 < 2 ^ 32 → align_up n 4 ≡ (n + 3) / 4 * 4
unfolding align_up
align_up_word n h = omega (arith, clear_two_bits ((n + 4 + (2 ^ 32 - 1)) % 2 ^ 32) (omega arith))

align_up_block : (n : ℕ) → n + 15 < 2 ^ 32 → align_up n 16 ≡ (n + 15) / 16 * 16
unfolding align_up
align_up_block n h = omega (arith, clear_four_bits ((n + 16 + (2 ^ 32 - 1)) % 2 ^ 32) (omega arith))

-- For a length of less than 2^31 - 80, `computePaddedLength` is the least number of whole
-- 64-byte blocks that holds the data, the end marker and eight bytes of length.
pub compute_padded_length-eq :
    (n : ℕ) → n + 80 < 2 ^ 31 → compute_padded_length n ≡ 64 * ((n + 8) / 64 + 1)
unfolding compute_padded_length
compute_padded_length-eq n h = ground (
  arith,
  align_up_word ((n + 1) % 2 ^ 32) (omega arith),
  align_up_block (((n + 1 + 3) / 4 + 2) % 2 ^ 32) (omega arith),
)
