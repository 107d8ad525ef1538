-- ===== src/Journal/Rounds.antt =====
-- The loop over whole blocks of `UpdateProperHasher`: how many rounds it takes.
use go_zkvm.Base.{
  ℕ, zero, suc, ◌+◌, ◌*◌, ◌/◌, ◌%◌, ◌≤◌, ◌<◌, ◌≡◌, refl, sym, ap, ◌∙◌, arith, length, length-drop,
}
use go_zkvm.Sha.Accelerator.{Accelerator}
use go_zkvm.Journal.{Hasher, Slice, advance, absorb_block, full_blocks}
use go_zkvm.Journal.Stream.{full_blocks_stop, full_blocks_step}

module _ (acc : Accelerator) where
  -- The loop has gone through all whole blocks.
  abbrev Finished : ℕ → ℕ → Hasher → Slice → Type 0
  Finished rounds fuel h s =
      (full_blocks acc fuel h s ≡ full_blocks acc rounds h s)
      × (length (full_blocks acc rounds h s).1.bytes + 64 * rounds ≡ length s.bytes)

  full_blocks-Finished :
      (rounds fuel : ℕ) (h : Hasher) (s : Slice)
      → rounds ≤ fuel
      → 64 * rounds ≤ length s.bytes
      → length s.bytes < 64 * rounds + 64
      → Finished rounds fuel h s
  full_blocks-Finished zero fuel h s enough low high =
      rw (full_blocks_stop acc fuel h s (omega arith), full_blocks_stop acc zero h s (omega arith))
        (refl, omega arith)
  full_blocks-Finished (suc rounds) zero h s enough low high = let no : ⊥ = omega arith in absurd no
  full_blocks-Finished (suc rounds) (suc fuel) h s enough low high =
      let shorter = length-drop 64 s.bytes in
      let (same, left) =
        full_blocks-Finished rounds fuel (absorb_block acc h s) (advance 64 s) (omega arith)
          (omega (arith, shorter)) (omega (arith, shorter)) in
      rw
        (full_blocks_step acc fuel h s (omega arith), full_blocks_step acc rounds h s (omega arith))
        (same, omega (arith, left, shorter))

  -- The loop over whole blocks makes exactly as many rounds as the input has blocks of 64 bytes: with
  -- at least that much fuel, and so with the fuel that the model gives it, more fuel changes nothing,
  -- and the bytes that are left are those past the last whole block, fewer than 64.
  pub full_blocks_terminates :
      (fuel : ℕ) (h : Hasher) (s : Slice)
      → length s.bytes / 64 ≤ fuel
      → (full_blocks acc fuel h s ≡ full_blocks acc (length s.bytes) h s)
        × (length (full_blocks acc fuel h s).1.bytes ≡ length s.bytes % 64)
  full_blocks_terminates fuel h s enough =
      let n = length s.bytes in
      let (same, left) =
        full_blocks-Finished (n / 64) fuel h s enough (omega arith) (omega arith) in
      let (same', _) =
        full_blocks-Finished (n / 64) n h s (omega arith) (omega arith) (omega arith) in
      (same ∙ sym same', ap (λ r. length r.1.bytes) same ∙ omega (arith, left))
