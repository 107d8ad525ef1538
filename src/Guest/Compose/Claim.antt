-- ===== src/Guest/Compose/Claim.antt =====
-- The claim that `Verify` asserts, and what a call of `Verify` does to the machine.
use go_zkvm.Base.{ℕ, ◌^◌, ◌<◌, ◌≡◌, refl, arith, Option, none, some, List, [], ◌∷◌, length, All}
use go_zkvm.Sha.Accelerator
use go_zkvm.Sha.Accelerator.{Accelerator, IsDigest}
use go_zkvm.Sha.Hash.{sha256_init_state}
use go_zkvm.Sha.Hash.OneShot.{fips_hash, sha_buffer-fips, fips_hash-IsDigest, init_state-IsDigest}
use go_zkvm.Sha.Words.{digest_bytes_to_words}
use go_zkvm.Sha.Words.RoundTrip.{IsByte, digest_bytes_to_words-IsDigest}
use go_zkvm.Sha.Tagged.Preimage.{tagged_digest, tagged_struct-eq, tagged_struct_with_data-eq}
use go_zkvm.Sha.Tagged.Preimage.{tagged_digest-IsDigest}
use go_zkvm.Journal.{Globals, zero_digest, ensure_initialized, add_assumption_digest}
use go_zkvm.Journal.Finalize.{cons_assumption, add_assumption_digest-eq}
use go_zkvm.Guest.Platform.{Platform, IsLawful}
use go_zkvm.Guest.Monad.{Guest, Outcome, returned, aborted, then_run, lift, after_syscall}
use go_zkvm.Guest.Monad.{put_globals}
use go_zkvm.Guest.Compose.{verify}

-- A Go `[32]byte`.
abbrev pub IsImageId : List ℕ → Type 0
IsImageId bytes = (length bytes ≡ 32) × All IsByte bytes

module _ (acc : Accelerator) where
  -- risc0.SystemState of a halted machine: the zero memory image and the program counter 0.
  abbrev pub post_state : List ℕ
  post_state = tagged_digest acc "risc0.SystemState" (zero_digest ∷ []) (0 ∷ [])

  -- risc0.Output of a receipt without assumptions.
  abbrev pub leaf_output : List ℕ → List ℕ
  leaf_output journal =
      tagged_digest acc "risc0.Output" (fips_hash acc sha256_init_state journal ∷ zero_digest ∷ [])
        []

  -- The digest of the risc0.ReceiptClaim for an image and a journal.
  abbrev pub receipt_claim : List ℕ → List ℕ → List ℕ
  receipt_claim image_id journal =
      tagged_digest acc "risc0.ReceiptClaim"
        (zero_digest ∷ digest_bytes_to_words image_id ∷ post_state ∷ leaf_output journal ∷ [])
        (0 ∷ 0 ∷ [])

zero_digest-IsDigest : IsDigest zero_digest
zero_digest-IsDigest = omega arith

module _ (P : Platform) (law : IsLawful P) where
  pub receipt_claim-IsDigest :
      (image_id journal : List ℕ) → IsDigest (receipt_claim P.sha image_id journal)
  receipt_claim-IsDigest image_id journal =
      tagged_digest-IsDigest P.sha "risc0.ReceiptClaim"
        (zero_digest
          ∷ digest_bytes_to_words image_id
          ∷ post_state P.sha
          ∷ leaf_output P.sha journal
          ∷ [])
        (0 ∷ 0 ∷ []) law.sha-IsLawful

  -- What `Verify` does for the host's answer on the claim: without a receipt the run is stopped.
  abbrev pub concluded : List ℕ → Guest P.Host → Option P.Host → Outcome P.Host (Unit {0})
  concluded claim g none = aborted (record g { globals = ensure_initialized g.globals })
  concluded claim g (some h) =
      let v = ensure_initialized g.globals in
      returned tt (record {
        globals = record v { assumptions = cons_assumption P.sha claim zero_digest v.assumptions };
        host = h;
      })

  -- On an image ID of 32 bytes and a journal of less than 2^29 bytes, and with an assumptions digest of
  -- eight words, `Verify` does not panic. It passes the claim and the zero control root to
  -- `sys_verify_integrity`. When the host goes on, the same claim is consed on the assumptions, and the
  -- journal hash is left alone; when the host stops the run, that is at the syscall, with the
  -- assumptions as they were.
  pub verify-eq :
      (g : Guest P.Host) (image_id journal : List ℕ)
      → IsImageId image_id
      → length journal < 2 ^ 29
      → IsDigest (ensure_initialized g.globals).assumptions
      → let claim = receipt_claim P.sha image_id journal in
        verify P image_id journal g
        ≡ concluded claim g (P.sys_verify_integrity g.host claim zero_digest)
  unfolding verify
  verify-eq g image_id journal (size, bytes) short ha =
      rw
        (
          sha_buffer-fips P.sha sha256_init_state journal short,
          tagged_struct_with_data-eq P.sha "risc0.SystemState" (zero_digest ∷ []) (0 ∷ []) sha
              (zero_digest-IsDigest, tt) (omega arith) (omega arith),
          tagged_struct-eq P.sha "risc0.Output" (journal_digest ∷ zero_digest ∷ []) sha
              (
                fips_hash-IsDigest P.sha sha256_init_state journal sha init_state-IsDigest,
                (zero_digest-IsDigest, tt),
              )
              (omega arith) (omega arith),
          tagged_struct_with_data-eq P.sha "risc0.ReceiptClaim"
              (zero_digest
                ∷ digest_bytes_to_words image_id
                ∷ post_state P.sha
                ∷ leaf_output P.sha journal
                ∷ [])
              (0 ∷ 0 ∷ []) sha
              (
                zero_digest-IsDigest,
                (
                  digest_bytes_to_words-IsDigest image_id bytes,
                  (
                    tagged_digest-IsDigest P.sha "risc0.SystemState" (zero_digest ∷ []) (0 ∷ [])
                        sha,
                    (
                      tagged_digest-IsDigest P.sha "risc0.Output"
                          (journal_digest ∷ zero_digest ∷ []) [] sha,
                      tt,
                    ),
                  ),
                ),
              )
              (omega arith) (omega arith),
        )
        (answered
          (P.sys_verify_integrity g.host (receipt_claim P.sha image_id journal) zero_digest))
    where
      sha : Accelerator.IsLawful P.sha
      sha = law.sha-IsLawful

      journal_digest : List ℕ
      journal_digest = fips_hash P.sha sha256_init_state journal

      claim : List ℕ
      claim = receipt_claim P.sha image_id journal

      v : Globals
      v = ensure_initialized g.globals

      answered :
          (o : Option P.Host)
          → then_run (after_syscall (record g { globals = v }) o) (λ _ g'.
            then_run
              (lift (add_assumption_digest P.sha claim zero_digest g'.globals) g')
              (λ v'' g''. put_globals v'' g''))
            ≡ concluded claim g o
      answered none = refl
      answered (some h) =
          rw
            (add_assumption_digest-eq P.sha sha v claim zero_digest
              (receipt_claim-IsDigest image_id journal) zero_digest-IsDigest ha)
            refl
