-- ===== src/Sha/Hash/OneShot.antt =====
-- `shaBuffer` against the padding of FIPS 180-4 and the iterated compression.
use go_zkvm.Base.{ℕ, zero, suc, ◌+◌, ◌-◌, ◌*◌, ◌/◌, ◌%◌, ◌^◌, ◌<◌, ◌≡◌, refl, sym, ap, ◌∙◌, arith}
use go_zkvm.Base.{List, ◌∷◌, ◌++◌, append_assoc, length, length-append, take, drop, replicate}
use go_zkvm.Base.{some, replicate-add, length-replicate}
use go_zkvm.Base.Bytes.{be32}
use go_zkvm.Sha.Accelerator.{Accelerator, IsLawful, IsDigest, compress_blocks}
use go_zkvm.Sha.Padding.Layout.{padding, padded_blocks, zero_bytes, pad_buffer-eq, length-padding}
use go_zkvm.Sha.Hash.{sha_loop, sha_buffer, sha256_init_state}
use go_zkvm.Base.{take-take, drop-take, drop-drop}
use go_zkvm.Sha.Hash.Blocks.{compress_blocks-IsDigest}

-- The padding of FIPS 180-4, section 5.1.1: the bit 1, the least number of zero bits that leaves
-- room for the length, and the length in bits as a 64-bit big-endian number.
abbrev pub fips_zeros : ℕ → ℕ
fips_zeros n = (119 - n % 64) % 64

abbrev pub be64 : ℕ → List ℕ
be64 v = be32 (v / 2 ^ 32) ++ be32 (v % 2 ^ 32)

abbrev pub fips_message : List ℕ → List ℕ
fips_message bytes =
    bytes ++ (0x80 ∷ (replicate (fips_zeros (length bytes)) 0 ++ be64 (8 * length bytes)))

-- SHA-256 without the final encoding: the compressions of the padded message from a given state.
abbrev pub fips_hash : Accelerator → List ℕ → List ℕ → List ℕ
fips_hash acc state bytes =
    compress_blocks acc (length (fips_message bytes) / 64) state (fips_message bytes)

-- The state after one round.
abbrev round : Accelerator → List ℕ → List ℕ → List ℕ
round acc state block = acc.compress state (take 32 block) (take 32 (drop 32 block))

sha_loop_step :
    (acc : Accelerator) (n i : ℕ) (state out pad : List ℕ)
    → let out' = round acc state (drop (i * 64) pad) in
      sha_loop acc (suc n) i state out pad ≡ sha_loop acc n (i + 1) out' out' pad
unfolding sha_loop
sha_loop_step acc n i state out pad =
    ap
      (λ (front : List ℕ).
        let out' = acc.compress state front (drop 32 (take 64 rest)) in
        sha_loop acc n (i + 1) out' out' pad)
      (take-take 32 64 rest (omega arith))
    ∙ ap
        (λ (back : List ℕ).
          let out' = acc.compress state (take 32 rest) back in sha_loop acc n (i + 1) out' out' pad)
        (drop-take 32 32 64 rest (omega arith))
  where
    rest : List ℕ
    rest = drop (i * 64) pad

sha_loop_lem :
    (acc : Accelerator) (n i : ℕ) (state out pad : List ℕ)
    → sha_loop acc (suc n) i state out pad ≡ compress_blocks acc (suc n) state (drop (i * 64) pad)
sha_loop_lem acc zero i state out pad =
    sha_loop_step acc zero i state out pad ∙ unfold sha_loop in refl
sha_loop_lem acc (suc n) i state out pad =
    sha_loop_step acc (suc n) i state out pad
    ∙ sha_loop_lem acc n (i + 1) _ _ pad
    ∙ ap (λ t. compress_blocks acc (suc n) (round acc state (drop (i * 64) pad)) t)
        (sym (drop-drop 64 (i * 64) ((i + 1) * 64) pad (omega arith)))

-- `shaBuffer` compresses the padded message, block by block.
pub sha_buffer-padding :
    (acc : Accelerator) (state bytes : List ℕ)
    → length bytes + 8 < 2 ^ 30
    → sha_buffer acc state bytes
      ≡ some (
          compress_blocks acc
            (padded_blocks (length bytes))
            state
            (bytes ++ padding (length bytes) (length bytes * 8 % 2 ^ 32)))
unfolding sha_buffer
sha_buffer-padding acc state bytes h = rw (pad_buffer-eq bytes (length bytes * 8 % 2 ^ 32) h) (
    ap some (
      ap (λ (n : ℕ). sha_loop acc n 0 state (replicate 8 0) padded) rounds
      ∙ sha_loop_lem acc ((length bytes + 8) / 64) 0 state (replicate 8 0) padded
      ∙ ap (λ (n : ℕ). compress_blocks acc n state padded) {x = suc ((length bytes + 8) / 64)}
          {y = padded_blocks (length bytes)} (omega arith)))
  where
    padded : List ℕ
    padded = bytes ++ padding (length bytes) (length bytes * 8 % 2 ^ 32)

    size : length padded ≡ 64 * padded_blocks (length bytes)
    size = omega (
      arith,
      length-append bytes (padding (length bytes) (length bytes * 8 % 2 ^ 32)),
      length-padding (length bytes) (length bytes * 8 % 2 ^ 32),
    )

    rounds : length padded / 4 / 16 ≡ suc ((length bytes + 8) / 64)
    rounds = omega (arith, size)

padding-fips :
    (n : ℕ)
    → n < 2 ^ 29
    → padding n (n * 8 % 2 ^ 32) ≡ 0x80 ∷ (replicate (fips_zeros n) 0 ++ be64 (8 * n))
padding-fips n h =
    ap (λ t. 0x80 ∷ t)
      (ap (λ (k : ℕ). replicate k 0 ++ be32 (n * 8 % 2 ^ 32)) {x = zero_bytes n}
          {y = fips_zeros n + 4} (omega arith)
        ∙ ap (λ t. t ++ be32 (n * 8 % 2 ^ 32)) (replicate-add (fips_zeros n) 4 0)
        ∙ append_assoc (replicate (fips_zeros n) 0) (be32 0) (be32 (n * 8 % 2 ^ 32))
        ∙ ap (λ (k : ℕ). replicate (fips_zeros n) 0 ++ (be32 k ++ be32 (n * 8 % 2 ^ 32))) {x = 0}
            {y = 8 * n / 2 ^ 32} (omega arith)
        ∙ ap (λ (k : ℕ). replicate (fips_zeros n) 0 ++ (be32 (8 * n / 2 ^ 32) ++ be32 k))
            {x = n * 8 % 2 ^ 32} {y = 8 * n % 2 ^ 32} (omega arith))

-- The message padded by the standard is a whole number of blocks.
length-fips_message :
    (bytes : List ℕ)
    → length bytes < 2 ^ 29
    → length (fips_message bytes) ≡ 64 * padded_blocks (length bytes)
length-fips_message bytes h = omega (
  arith,
  length-append bytes (0x80 ∷ (replicate (fips_zeros (length bytes)) 0 ++ be64 (8 * length bytes))),
  length-append (replicate (fips_zeros (length bytes)) 0) (be64 (8 * length bytes)),
  length-replicate {A = ℕ} (fips_zeros (length bytes)) 0,
)

-- The blocks that the code hashes are those of the standard.
pub padded-fips_hash :
    (acc : Accelerator) (state bytes : List ℕ)
    → length bytes < 2 ^ 29
    → compress_blocks acc
        (padded_blocks (length bytes))
        state
        (bytes ++ padding (length bytes) (length bytes * 8 % 2 ^ 32))
      ≡ fips_hash acc state bytes
padded-fips_hash acc state bytes h =
    ap (λ t. compress_blocks acc (padded_blocks (length bytes)) state (bytes ++ t))
      (padding-fips (length bytes) h)
    ∙ ap (λ (n : ℕ). compress_blocks acc n state (fips_message bytes))
        {x = padded_blocks (length bytes)} {y = length (fips_message bytes) / 64}
        (omega (arith, length-fips_message bytes h))

-- On every message of less than 2^29 bytes `shaBuffer` does not panic, and its result is the iterated
-- compression of the message padded by the rule of FIPS 180-4.
pub sha_buffer-fips :
    (acc : Accelerator) (state bytes : List ℕ)
    → length bytes < 2 ^ 29
    → sha_buffer acc state bytes ≡ some (fips_hash acc state bytes)
sha_buffer-fips acc state bytes h =
    sha_buffer-padding acc state bytes (omega arith) ∙ ap some (padded-fips_hash acc state bytes h)

-- A digest of `shaBuffer` is eight 32-bit words.
pub fips_hash-IsDigest :
    (acc : Accelerator) (state bytes : List ℕ)
    → IsLawful acc
    → IsDigest state
    → IsDigest (fips_hash acc state bytes)
fips_hash-IsDigest acc state bytes law h =
    compress_blocks-IsDigest acc law (length (fips_message bytes) / 64) state (fips_message bytes) h

pub init_state-IsDigest : IsDigest sha256_init_state
init_state-IsDigest = omega arith
