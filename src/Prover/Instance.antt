-- ===== src/Prover/Instance.antt =====
-- The crate as a loaded library serves the prover of host-core: what Host/Library asks of it holds.
use go_zkvm.Base.{ℕ, ◌≡◌, refl, ap, ◌∙◌, ==_iff, List, [], ◌∷◌}
use go_zkvm.Base.{◌⊎◌, inl, inr}
use go_zkvm.Host.Loader.{same_text}
use go_zkvm.Host.Messages.{ReceiptKind, receipt_kind_composite, receipt_kind_succinct}
use go_zkvm.Host.Calls.{Codec}
use go_zkvm.Host.Library.{IsLibrary, wire_image_id, wire_execute, wire_prove, wire_verify}
use go_zkvm.Prover.Outcome.{ok, map_err}
use go_zkvm.Prover.Core.{Zkvm, ProveReceiptKind, composite, succinct, compute_image_id_hex}
use go_zkvm.Prover.Core.{core_execute, core_prove, core_verify}
use go_zkvm.Prover.Boundary.{Serde, error_from_host, parse_prove_receipt_kind}
use go_zkvm.Prover.Boundary.{handle_compute_image_id, handle_execute, handle_prove, handle_verify}
use go_zkvm.Prover.Crate.{Heap, Host, crate_linker, exported, crate_foreign, crate_service}
use go_zkvm.Prover.Crate.{IsWire, block_sizes, release}
use go_zkvm.Prover.Handlers.{handle_compute_image_id_lem, handle_execute_lem, handle_prove_lem}
use go_zkvm.Prover.Handlers.{
  handle_verify_lem, core_execute-fits, core_prove-fits, core_verify-fits,
}
use go_zkvm.Prover.Serves.{exported-Answers}

pub tail_blocks : List (ℕ × ℕ) → List (ℕ × ℕ)
tail_blocks [] = []
tail_blocks (b ∷ bs) = bs

-- The newest block is given back.
pub release_first :
    (heap : Heap) (ptr n : ℕ) (rest : List (ℕ × ℕ))
    → block_sizes heap ≡ (ptr, n) ∷ rest
    → block_sizes (release ptr heap) ≡ rest
unfolding tail_blocks
release_first [] ptr n rest e = absurd (cc e)
release_first ((p, bytes) ∷ heap) ptr n rest e =
    rw ((==_iff p ptr).1 (ap first_address e)) (ap tail_blocks e)
  where
    first_address : List (ℕ × ℕ) → ℕ
    first_address [] = ptr
    first_address ((p, n) ∷ bs) = p

-- The two kinds that the crate accepts.
pub parse_valid :
    (Z : Zkvm) (W : Serde) (kind : ReceiptKind)
    → (kind ≡ receipt_kind_composite) ⊎ (kind ≡ receipt_kind_succinct)
    → (k : ProveReceiptKind) × (parse_prove_receipt_kind Z W kind ≡ ok k)
unfolding parse_prove_receipt_kind same_text
parse_valid Z W kind (inl e) = (composite, rw e refl)
parse_valid Z W kind (inr e) = (succinct, rw e refl)

module _ {C : Codec} {W : Serde} (wire : IsWire C W) (H : Host) (Z : Zkvm) where
  -- The Rust crate, loaded, answers the requests of the Go side as the prover of host-core, and hands
  -- out each response in a block that it holds until it is freed, provided that both sides speak the
  -- same JSON and base64.
  unfoldable pub crate-IsLibrary :
      IsLibrary (crate_linker H) (crate_foreign Z W H) C (crate_service Z W)
  unfolding exported same_text
  crate-IsLibrary = record {
    name_of = λ f. f;
    buffers = λ s. block_sizes s.1;
    free_lem = λ s f ptr n rest named live. release_first s.1 ptr n rest live;
    info_lem = λ s logger op m n. refl;
    compute_image_id_lem = λ s f j b guest named em ev eg.
        exported-Answers wire H Z C.unmarshal_compute_image_id (wire_image_id C)
          W.to_vec_compute_image_id (handle_compute_image_id Z W)
          (map_err error_from_host (compute_image_id_hex Z guest)) _ "go_zkvm_compute_image_id" f b
          s named refl (handle_compute_image_id_lem wire Z j b guest em ev eg) refl
          (λ id e. wire.to_vec_compute_image_id_lem (wire_image_id C id));
    execute_lem = λ s f j b guest stdin assumptions named em ev eg es ea.
        exported-Answers wire H Z C.unmarshal_execute (wire_execute C) W.to_vec_execute
          (handle_execute Z W) (map_err error_from_host (core_execute Z guest stdin assumptions)) _
          "go_zkvm_execute" f b s named refl
          (handle_execute_lem wire Z j b guest stdin assumptions em ev eg es ea) refl
          (λ r e.
            let (segments, rows) = core_execute-fits Z guest stdin assumptions r e in
            wire.to_vec_execute_lem (wire_execute C r) segments rows);
    prove_lem = λ s f j b guest stdin assumptions named em ev eg es ea kind.
        let (k, ek) = parse_valid Z W j.receipt_kind kind in
        exported-Answers wire H Z C.unmarshal_prove (wire_prove C) W.to_vec_prove (handle_prove Z W)
          (map_err error_from_host (core_prove Z guest stdin assumptions j.verify_receipt k)) _
          "go_zkvm_prove" f b s named refl
          (handle_prove_lem wire Z j b guest stdin assumptions em ev eg es ea ∙ rw ek refl)
          (rw ek refl)
          (λ r e.
            wire.to_vec_prove_lem (wire_prove C r)
              (core_prove-fits Z guest stdin assumptions j.verify_receipt k r e));
    verify_lem = λ s f j b receipt expected named em ev er ee.
        exported-Answers wire H Z C.unmarshal_verify (wire_verify C) W.to_vec_verify
          (handle_verify Z W) (map_err error_from_host (core_verify Z receipt j.image_id expected))
          _ "go_zkvm_verify" f b s named refl
          (handle_verify_lem wire Z j b receipt expected em ev er ee) refl
          (λ r e.
            wire.to_vec_verify_lem (wire_verify C r)
              (core_verify-fits Z receipt j.image_id expected r e));
  }
