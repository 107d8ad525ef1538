-- ===== src/Guest/Compose.antt =====
-- zkvm/verify.go: `Verify`, the guest-side composition primitive.
pub mod Claim
use go_zkvm.Base.{ℕ, List, [], ◌∷◌}
use go_zkvm.Sha.Hash.{sha256_init_state, sha_buffer}
use go_zkvm.Sha.Words.{digest_bytes_to_words}
use go_zkvm.Sha.Tagged.{tagged_struct, tagged_struct_with_data}
use go_zkvm.Journal.{zero_digest, ensure_initialized, add_assumption_digest}
use go_zkvm.Guest.Platform.{Platform}
use go_zkvm.Guest.Monad.{M, Guest, Outcome, then_run, ◌>>=◌, ◌>>◌, lift}
use go_zkvm.Guest.Monad.{get_globals, put_globals, syscall_or_abort}

module _ (P : Platform) where
  pub verify : List ℕ → List ℕ → M P.Host (Unit {0})
  verify image_id journal = do
    v ← get_globals
    put_globals (ensure_initialized v)
    let image_id_words = digest_bytes_to_words image_id
    journal_digest ← lift (sha_buffer P.sha sha256_init_state journal)
    post_state_digest ←
        lift (tagged_struct_with_data P.sha "risc0.SystemState" (zero_digest ∷ []) (0 ∷ []))
    output_digest ← lift (tagged_struct P.sha "risc0.Output" (journal_digest ∷ zero_digest ∷ []))
    claim_digest ← lift (
        tagged_struct_with_data P.sha "risc0.ReceiptClaim"
          (zero_digest ∷ image_id_words ∷ post_state_digest ∷ output_digest ∷ []) (0 ∷ 0 ∷ []))
    syscall_or_abort (λ h. P.sys_verify_integrity h claim_digest zero_digest)
    v' ← get_globals
    v'' ← lift (add_assumption_digest P.sha claim_digest zero_digest v')
    put_globals v''
