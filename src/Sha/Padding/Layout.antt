-- ===== src/Sha/Padding/Layout.antt =====
-- What `pad_buffer` writes, byte by byte, and when it panics.
use go_zkvm.Base.{
  ℕ, suc, ◌+◌, ◌-◌, ◌*◌, ◌/◌, ◌^◌, ◌≤◌, ◌<◌, ◌≡◌, refl, sym, ap, ◌∙◌, ◌≡⟨◌⟩◌, ◌∎, arith,
}
use go_zkvm.Base.{
  List, [], ◌∷◌, ◌++◌, append_assoc, append-nil, none, some, false, ltb, ltb_of_le, lt→ltb,
}
use go_zkvm.Base.{length, length-append, length-replicate, replicate, replicate-add}
use go_zkvm.Base.{copy, copy-append, copy_at, copy_at-append, set, set-append}
use go_zkvm.Base.Bytes.{be32, le_bytes-be32}
use go_zkvm.Sha.Padding.{pad_buffer}
use go_zkvm.Sha.Padding.Bounds.{compute_padded_length-eq}

-- The number of blocks that a message of `n` bytes is padded to, and the zero bytes between the end
-- marker and the trailer word.
abbrev pub padded_blocks : ℕ → ℕ
padded_blocks n = (n + 8) / 64 + 1

abbrev pub zero_bytes : ℕ → ℕ
zero_bytes n = 64 * padded_blocks n - n - 5

-- What follows a message of `n` bytes, with `bits` as the trailer.
abbrev pub padding : ℕ → ℕ → List ℕ
padding n bits = 0x80 ∷ (replicate (zero_bytes n) 0 ++ be32 bits)

copy_whole : (dst src : List ℕ) → length dst ≡ length src → copy dst src ≡ src
copy_whole dst src h =
    ap (λ t. copy t src) (sym (append-nil dst)) ∙ copy-append dst [] src h ∙ append-nil src

fill_layout :
    (bytes trailer : List ℕ) (z v : ℕ)
    → length trailer ≡ 4
    → copy_at
        (set (copy (replicate (length bytes + suc (z + 4)) 0) bytes) (length bytes) v)
        (length bytes + suc z)
        trailer
      ≡ bytes ++ (v ∷ (replicate z 0 ++ trailer))
fill_layout bytes trailer z v h =
    copy_at (set (copy (replicate (length bytes + suc (z + 4)) 0) bytes) (length bytes) v) at
      trailer
    ≡⟨ ap (λ t. copy_at (set (copy t bytes) (length bytes) v) at trailer)
        (replicate-add (length bytes) (suc (z + 4)) 0) ⟩
      copy_at
        (set (copy (replicate (length bytes) 0 ++ (0 ∷ replicate (z + 4) 0)) bytes) (length bytes)
          v)
        at trailer
    ≡⟨ ap (λ t. copy_at (set t (length bytes) v) at trailer)
        (copy-append (replicate (length bytes) 0) _ bytes
          (length-replicate {A = ℕ} (length bytes) 0)) ⟩
      copy_at (set (bytes ++ (0 ∷ replicate (z + 4) 0)) (length bytes) v) at trailer
    ≡⟨ ap (λ t. copy_at t at trailer)
        (set-append bytes (replicate (z + 4) 0) 0 v (length bytes) refl) ⟩
      copy_at (bytes ++ (v ∷ replicate (z + 4) 0)) at trailer
    ≡⟨ ap (λ t. copy_at (bytes ++ (v ∷ t)) at trailer) (replicate-add z 4 0) ⟩
      copy_at (bytes ++ (v ∷ (replicate z 0 ++ replicate 4 0))) at trailer
    ≡⟨ ap (λ t. copy_at t at trailer)
        (sym (append_assoc bytes (v ∷ replicate z 0) (replicate 4 0))) ⟩
      copy_at ((bytes ++ (v ∷ replicate z 0)) ++ replicate 4 0) at trailer
    ≡⟨ copy_at-append (bytes ++ (v ∷ replicate z 0)) (replicate 4 0) trailer at front_length ⟩
      (bytes ++ (v ∷ replicate z 0)) ++ copy (replicate 4 0) trailer
    ≡⟨ ap (λ t. (bytes ++ (v ∷ replicate z 0)) ++ t)
        (copy_whole (replicate 4 0) trailer (omega arith)) ⟩
      (bytes ++ (v ∷ replicate z 0)) ++ trailer
    ≡⟨ append_assoc bytes (v ∷ replicate z 0) trailer ⟩ bytes ++ (v ∷ (replicate z 0 ++ trailer)) ∎
  where
    at : ℕ
    at = length bytes + suc z

    front_length : length bytes + suc z ≡ length (bytes ++ (v ∷ replicate z 0))
    front_length =
        omega (arith, length-append bytes (v ∷ replicate z 0), length-replicate {A = ℕ} z 0)

-- The same for a buffer length and a trailer position that are computed in another way.
fill_layout_at :
    (bytes trailer : List ℕ) (z v size at : ℕ)
    → length trailer ≡ 4
    → size ≡ length bytes + suc (z + 4)
    → at ≡ length bytes + suc z
    → copy_at (set (copy (replicate size 0) bytes) (length bytes) v) at trailer
      ≡ bytes ++ (v ∷ (replicate z 0 ++ trailer))
fill_layout_at bytes trailer z v size at h es ea = rw (es, ea) (fill_layout bytes trailer z v h)

-- A message of less than 2^30 - 8 bytes is padded, without a panic, to the message, the end marker,
-- zeros, and the trailer in big-endian order.
pub pad_buffer-eq :
    (bytes : List ℕ) (bits : ℕ)
    → length bytes + 8 < 2 ^ 30
    → pad_buffer bytes bits ≡ some (bytes ++ padding (length bytes) bits)
unfolding pad_buffer
pad_buffer-eq bytes bits h =
    rw (compute_padded_length-eq (length bytes) (omega arith), fits, le_bytes-be32)
      (ap some (
        fill_layout_at bytes (be32 bits) (zero_bytes (length bytes)) 0x80 _ _ (omega arith)
          (omega arith) (omega arith)))
  where
    fits : ltb (2 ^ 30) (64 * padded_blocks (length bytes)) ≡ false
    fits = ltb_of_le _ _ (omega arith)

-- A message of 2^30 - 8 bytes or more, up to the largest that an int can measure with its padding,
-- panics.
pub pad_buffer_panic :
    (bytes : List ℕ) (bits : ℕ)
    → 2 ^ 30 ≤ length bytes + 8
    → length bytes + 80 < 2 ^ 31
    → pad_buffer bytes bits ≡ none
unfolding pad_buffer
pad_buffer_panic bytes bits low high = rw (
  compute_padded_length-eq (length bytes) high,
  lt→ltb (2 ^ 30) (64 * padded_blocks (length bytes)) (omega arith),
)

-- The padded message is a whole number of blocks.
pub length-padding : (n bits : ℕ) → n + length (padding n bits) ≡ 64 * padded_blocks n
length-padding n bits = omega (
  arith,
  length-append (replicate (zero_bytes n) 0) (be32 bits),
  length-replicate {A = ℕ} (zero_bytes n) 0,
)
