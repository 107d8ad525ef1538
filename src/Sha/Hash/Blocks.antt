-- ===== src/Sha/Hash/Blocks.antt =====
-- Laws of block-by-block compression.
use go_zkvm.Base.{ℕ, zero, suc, ◌+◌, ◌*◌, ◌≤◌, ◌≡◌, refl, ap, arith}
use go_zkvm.Base.{List, [], ◌∷◌, ◌++◌, length, drop}
use go_zkvm.Base.{take-append_le, drop-append_le, length-drop}
use go_zkvm.Sha.Accelerator.{Accelerator, IsLawful, IsDigest, compress_blocks}

module _ (acc : Accelerator) where
  -- Only the first `n` blocks count.
  pub compress_blocks-append :
      (n : ℕ) (state front back : List ℕ)
      → 64 * n ≤ length front
      → compress_blocks acc n state (front ++ back) ≡ compress_blocks acc n state front
  compress_blocks-append zero state front back h = refl
  compress_blocks-append (suc n) state front back h =
      rw
        (
          take-append_le 32 front back (omega arith),
          drop-append_le 32 front back (omega arith),
          drop-append_le 64 front back (omega arith),
          take-append_le 32 (drop 32 front) back (omega (arith, length-drop 32 front)),
        )
        (compress_blocks-append n _ (drop 64 front) back (omega (arith, length-drop 64 front)))

  -- Compressing `m` blocks and then `n` more is compressing `m + n`.
  pub compress_blocks-add :
      (m n k : ℕ) (state front back : List ℕ)
      → k ≡ m + n
      → length front ≡ 64 * m
      → compress_blocks acc k state (front ++ back)
        ≡ compress_blocks acc n (compress_blocks acc m state front) back
  compress_blocks-add zero n k state [] back hk hf =
      ap (λ (t : ℕ). compress_blocks acc t state back) {x = k} {y = n} (omega arith)
  compress_blocks-add zero n k state (x ∷ front) back hk hf = absurd (omega arith)
  compress_blocks-add (suc m) n zero state front back hk hf = absurd (omega arith)
  compress_blocks-add (suc m) n (suc k) state front back hk hf =
      rw
        (
          take-append_le 32 front back (omega arith),
          drop-append_le 32 front back (omega arith),
          drop-append_le 64 front back (omega arith),
          take-append_le 32 (drop 32 front) back (omega (arith, length-drop 32 front)),
        )
        (compress_blocks-add m n k _ (drop 64 front) back (omega arith)
          (omega (arith, length-drop 64 front)))

  pub compress_blocks-IsDigest :
      IsLawful acc
      → (n : ℕ) (state bytes : List ℕ) → IsDigest state
      → IsDigest (compress_blocks acc n state bytes)
  compress_blocks-IsDigest law zero state bytes h = h
  compress_blocks-IsDigest law (suc n) state bytes h =
      compress_blocks-IsDigest law n _ (drop 64 bytes) (law.compress-IsDigest state _ _ h)
