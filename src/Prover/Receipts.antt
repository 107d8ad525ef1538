-- ===== src/Prover/Receipts.antt =====
-- Receipts in host-core: what `prove` returns, `verify` accepts.
use go_zkvm.Base.{ℕ, ◌≡◌, refl, ==_iff, true, some}
use go_zkvm.Base.{List, [], ◌∷◌, ◌%◌, ◌^◌}
use mathlib.Core.Path.{subst}
use go_zkvm.Host.Messages.{ProveResult, VerifyResult}
use Prim.Native.String
use go_zkvm.R0bf.Files.{same_bytes}
use go_zkvm.Prover.Outcome.{ok, map_err, bind_ok, then_ok, map_err_ok, ok_inj}
use go_zkvm.Prover.Core.{Zkvm, ProveReceiptKind, core_prove, core_verify, self_check}
use go_zkvm.Prover.Core.{check_journal, build_env_with_assumptions, receipt_encoding_borsh}
use go_zkvm.Prover.Core.{
  receipt_kind_name, invalid_guest_binary, prove_failed, verify_failed, internal,
}

-- A digest is printed in hexadecimal, which reads back, and borsh reads back what it wrote.
pub record IsFaithful (Z : Zkvm) : Type 0 where
  pub digest_lem : (d : Z.Digest) → Z.digest_from_hex (Z.digest_text d) ≡ ok d
  pub receipt_lem :
      (r : Z.Receipt) (b : List ℕ) → Z.receipt_to_vec r ≡ ok b → Z.receipt_from_slice b ≡ ok r

same_bytes_refl : (b : List ℕ) → same_bytes b b ≡ true
same_bytes_refl [] = refl
same_bytes_refl (x ∷ b) = rw ((==_iff x x).1 refl) (same_bytes_refl b)

module _ (Z : Zkvm) (faithful : IsFaithful Z) where
  -- What is said of a receipt.
  abbrev proof_of : Z.Digest → Z.Receipt → List ℕ → ProveResult
  proof_of image_id receipt bytes = record {
    image_id = Z.digest_text image_id;
    journal = Z.receipt_journal receipt;
    receipt = bytes;
    receipt_encoding = receipt_encoding_borsh;
    receipt_kind = receipt_kind_name Z receipt;
    prover_name = Z.prover_name;
    seal_bytes = Z.seal_size receipt % 2 ^ 64;
  }

  abbrev pub accepted_result : ProveResult → VerifyResult
  accepted_result r = record {
    verified = true;
    journal = r.journal;
    receipt_encoding = r.receipt_encoding;
    receipt_kind = r.receipt_kind;
    seal_bytes = r.seal_bytes;
  }

  core_verify-proof_of :
      (image_id : Z.Digest) (receipt : Z.Receipt) (bytes : List ℕ)
      → Z.receipt_verify receipt image_id ≡ ok tt
      → Z.receipt_to_vec receipt ≡ ok bytes
      → core_verify Z bytes (Z.digest_text image_id) (some (Z.receipt_journal receipt))
        ≡ ok (accepted_result (proof_of image_id receipt bytes))
  unfolding core_verify check_journal
  core_verify-proof_of image_id receipt bytes verified packed =
      rw
        (
          faithful.digest_lem image_id,
          faithful.receipt_lem receipt bytes packed,
          verified,
          same_bytes_refl (Z.receipt_journal receipt),
        )
        refl

  -- When hex and borsh read back what they wrote, a proof that was made with the self-check
  -- verifies: `verify` accepts the receipt for the image ID and the journal that `prove` returned,
  -- and reports that journal, encoding, kind and seal size.
  pub core_verify-core_prove :
      (guest stdin : List ℕ) (assumptions : List (List ℕ)) (kind : ProveReceiptKind)
      (r : ProveResult)
      → core_prove Z guest stdin assumptions true kind ≡ ok r
      → core_verify Z r.receipt r.image_id (some r.journal) ≡ ok (accepted_result r)
  unfolding core_prove self_check
  core_verify-core_prove guest stdin assumptions kind r e =
      let (image_id, e1, k1) =
        bind_ok (map_err invalid_guest_binary (Z.compute_image_id guest)) _ r e in
      let (env, e2, k2) = bind_ok (build_env_with_assumptions Z stdin assumptions) _ r k1 in
      let (receipt, e3, k3) =
        bind_ok (map_err prove_failed (Z.prove_with_opts env guest kind)) _ r k2 in
      let (e4, k4) = then_ok (map_err verify_failed (Z.receipt_verify receipt image_id)) _ r k3 in
      let (bytes, e5, k5) =
        bind_ok
          (map_err (λ m. internal (String.◌++◌ "serialize receipt: " m)) (Z.receipt_to_vec receipt))
          _ r k4 in
      let same = ok_inj (proof_of image_id receipt bytes) r k5 in
      subst (λ r. core_verify Z r.receipt r.image_id (some r.journal) ≡ ok (accepted_result r)) same
        (core_verify-proof_of image_id receipt bytes
          (map_err_ok verify_failed (Z.receipt_verify receipt image_id) tt e4)
          (map_err_ok _ (Z.receipt_to_vec receipt) bytes e5))
