-- ===== src/Journal/Finalize.antt =====
-- `FinalizeProperHasher` and `addAssumptionDigest`: the running hash meets the one-shot hash.
use go_zkvm.Base.{ℕ, ◌+◌, ◌*◌, ◌/◌, ◌%◌, ◌^◌, ◌<◌, ◌≡◌, refl, sym, ap, ◌∙◌, arith}
use go_zkvm.Base.{List, [], ◌∷◌, ◌++◌, append_assoc, length, length-append, take, take-append, some}
use go_zkvm.Base.{lt→ltb}
use go_zkvm.Sha.Accelerator.{Accelerator, IsLawful, IsDigest, compress_blocks}
use go_zkvm.Base.{replicate}
use go_zkvm.Base.Bytes.{be32}
use go_zkvm.Sha.Padding.Layout.{padding, zero_bytes, padded_blocks, pad_buffer-eq, length-padding}
use go_zkvm.Sha.Hash.{sha256_init_state, sha_buffer}
use go_zkvm.Sha.Hash.Blocks.{compress_blocks-add}
use go_zkvm.Sha.Hash.OneShot.{fips_hash, padded-fips_hash, sha_buffer-padding, fips_hash-IsDigest}
use go_zkvm.Sha.Hash.OneShot.{init_state-IsDigest}
use go_zkvm.Sha.Tagged.{tagged_list_cons}
use go_zkvm.Sha.Tagged.Preimage.{
  tagged_digest, tagged_struct-eq, tagged_list_cons-eq, tagged_digest-IsDigest,
}
use go_zkvm.Journal.{Hasher, Globals, journal_digest, finalize_proper_hasher, ensure_initialized}
use go_zkvm.Journal.{add_assumption_digest}
use go_zkvm.Journal.State.{Absorbed, Represents}

-- The assumptions digest after one more assumption.
abbrev pub cons_assumption : Accelerator → List ℕ → List ℕ → List ℕ → List ℕ
cons_assumption acc claim root list =
    tagged_digest acc "risc0.Assumptions"
      (tagged_digest acc "risc0.Assumption" (claim ∷ root ∷ []) [] ∷ list ∷ []) []

module _ (acc : Accelerator) (law : IsLawful acc) where
  module _ (h : Hasher) (message : List ℕ) (inv : Absorbed acc h message) where
    open inv use {holds, counted}

    abbrev bits : ℕ
    bits = h.total_len * 8 % 2 ^ 64 % 2 ^ 32

    abbrev last_bytes : List ℕ
    last_bytes = holds.rest ++ padding (length holds.rest) bits

    remaining : take h.buffer_len h.buffer_data ≡ holds.rest
    remaining =
        ap (take h.buffer_len) holds.buffered
        ∙ take-append holds.rest holds.junk h.buffer_len holds.rest_len

    last_size : length last_bytes ≡ 64 * padded_blocks (length holds.rest)
    last_size = omega (
      arith,
      length-append holds.rest (padding (length holds.rest) bits),
      length-padding (length holds.rest) bits,
    )

    message_size : length message ≡ 64 * holds.rounds + length holds.rest
    message_size =
        ap length holds.split ∙ omega (arith, length-append holds.full holds.rest, holds.whole)

    -- The padding of what is left is the padding of the whole message.
    same_padding :
        padding (length holds.rest) bits ≡ padding (length message) (length message * 8 % 2 ^ 32)
    same_padding =
        ap (λ (n : ℕ). 0x80 ∷ (replicate n 0 ++ be32 bits)) {x = zero_bytes (length holds.rest)}
          {y = zero_bytes (length message)} (omega (arith, message_size))
        ∙ ap (λ (b : ℕ). padding (length message) b) {x = bits} {y = length message * 8 % 2 ^ 32}
            (omega (arith, counted))

    -- The last compressions start where the running ones ended.
    journal_digest-padding :
        journal_digest acc h
        ≡ some (
            compress_blocks acc
              (padded_blocks (length message))
              sha256_init_state
              (message ++ padding (length message) (length message * 8 % 2 ^ 32)))
    unfolding journal_digest
    journal_digest-padding =
        rw
          (
            remaining,
            pad_buffer-eq holds.rest bits (omega (arith, holds.rest_fits)),
            lt→ltb 0 (length last_bytes / 4) (omega (arith, last_size)),
          )
          (ap some (
            ap (λ (n : ℕ). acc.buffer h.state last_bytes n) {x = length last_bytes / 4 / 16}
              {y = last_rounds} (omega (arith, last_size))
            ∙ law.buffer_lem h.state last_bytes last_rounds last_size
            ∙ ap (λ t. compress_blocks acc last_rounds t last_bytes) holds.compressed
            ∙ sym (
                compress_blocks-add acc holds.rounds last_rounds (holds.rounds + last_rounds)
                  sha256_init_state holds.full last_bytes refl holds.whole)
            ∙ ap (λ (n : ℕ). compress_blocks acc n sha256_init_state (holds.full ++ last_bytes))
                {x = holds.rounds + last_rounds} {y = padded_blocks (length message)}
                (omega (arith, message_size))
            ∙ ap (compress_blocks acc (padded_blocks (length message)) sha256_init_state) joined))
      where
        last_rounds : ℕ
        last_rounds = padded_blocks (length holds.rest)

        joined :
            holds.full ++ last_bytes
            ≡ message ++ padding (length message) (length message * 8 % 2 ^ 32)
        joined =
            sym (append_assoc holds.full holds.rest (padding (length holds.rest) bits))
            ∙ ap (λ t. t ++ padding (length holds.rest) bits) (sym holds.split)
            ∙ ap (λ t. message ++ t) same_padding

  -- The finalized running hash of a hasher that has taken a message, however it was cut into calls, is
  -- what `shaBuffer` computes from all of it at once, for less than 2^30 - 8 bytes.
  pub journal_digest-sha_buffer :
      (h : Hasher) (message : List ℕ)
      → Absorbed acc h message
      → length message + 8 < 2 ^ 30
      → journal_digest acc h ≡ sha_buffer acc sha256_init_state message
  journal_digest-sha_buffer h message inv short =
      journal_digest-padding h message inv
      ∙ sym (sha_buffer-padding acc sha256_init_state message short)

  -- When the variables stand for a message of less than 2^29 bytes and an assumptions digest of eight
  -- words, `FinalizeProperHasher` does not panic, and returns the tagged risc0.Output of the SHA-256 of
  -- the message and the assumptions digest.
  pub finalize-Represents :
      (g : Globals) (message assumed : List ℕ)
      → Represents acc g message assumed
      → IsDigest assumed
      → length message < 2 ^ 29
      → finalize_proper_hasher acc g
        ≡ some (
          tagged_digest acc "risc0.Output"
              (fips_hash acc sha256_init_state message ∷ assumed ∷ [])
              [],
          ensure_initialized g,
        )
  unfolding finalize_proper_hasher
  finalize-Represents g message assumed r ha short = rw (
    journal_digest-padding (ensure_initialized g).hasher message r.absorbed,
    padded-fips_hash acc sha256_init_state message short,
    r.list,
    tagged_struct-eq acc "risc0.Output" (fips_hash acc sha256_init_state message ∷ assumed ∷ []) law
        (fips_hash-IsDigest acc sha256_init_state message law init_state-IsDigest, (ha, tt))
        (omega arith) (omega arith),
  )

  -- On digests of eight words `addAssumptionDigest` does not panic, and changes the assumptions digest
  -- alone: to risc0.Assumptions of the tagged assumption and the digest before.
  pub add_assumption_digest-eq :
      (g : Globals) (claim root : List ℕ)
      → IsDigest claim
      → IsDigest root
      → IsDigest g.assumptions
      → add_assumption_digest acc claim root g
        ≡ some (record g { assumptions = cons_assumption acc claim root g.assumptions })
  unfolding add_assumption_digest
  add_assumption_digest-eq g claim root hc hr hl = rw (
    tagged_struct-eq acc "risc0.Assumption" (claim ∷ root ∷ []) law (hc, (hr, tt)) (omega arith)
        (omega arith),
    list_cons,
  )
    where
      assumption : List ℕ
      assumption = tagged_digest acc "risc0.Assumption" (claim ∷ root ∷ []) []

      assumption-IsDigest : IsDigest assumption
      assumption-IsDigest = tagged_digest-IsDigest acc "risc0.Assumption" (claim ∷ root ∷ []) [] law

      list_cons :
          tagged_list_cons acc "risc0.Assumptions" assumption g.assumptions
          ≡ some (cons_assumption acc claim root g.assumptions)
      list_cons =
          tagged_list_cons-eq acc "risc0.Assumptions" assumption g.assumptions law
            assumption-IsDigest hl (omega arith)

  pub cons_assumption-IsDigest :
      (claim root list : List ℕ) → IsDigest (cons_assumption acc claim root list)
  cons_assumption-IsDigest claim root list =
      tagged_digest-IsDigest acc "risc0.Assumptions"
        (tagged_digest acc "risc0.Assumption" (claim ∷ root ∷ []) [] ∷ list ∷ []) [] law
