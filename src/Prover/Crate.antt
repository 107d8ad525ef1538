-- ===== src/Prover/Crate.antt =====
-- host-ffi/src/lib.rs as a loaded library: its heap, `go_zkvm_free_buffer`, and the calls through pointers.
use go_zkvm.Base.{ℕ, ◌^◌, ◌<◌, ◌≡◌, String, Bool, ◌==◌, Option, none, some, inr}
use go_zkvm.Base.{List, [], ◌∷◌, length, map, take, if◌then◌else◌}
use Prim.Native.String
use go_zkvm.Host.Loader.{Linker, abi_version, same_text}
use go_zkvm.Host.Messages.{
  FfiErrorResponse, ComputeImageIdRequest, ComputeImageIdResponse, ExecuteJsonRequest,
  ExecuteJsonResponse, ProveJsonRequest, ProveJsonResponse, VerifyJsonRequest, VerifyJsonResponse,
}
use go_zkvm.Host.Ffi.{Foreign, Reply, decoded}
use go_zkvm.Host.Calls.{Codec}
use go_zkvm.Host.Library.{
  Service, accepted, refused, wire_image_id, wire_execute, wire_prove, wire_verify,
}
use go_zkvm.Host.Library
use go_zkvm.Prover.Outcome.{Outcome, ok, err, unwound, ◌>>=◌, map_err, sent}
use go_zkvm.Prover.Core.{Zkvm, compute_image_id_hex, core_execute, core_prove, core_verify}
use go_zkvm.Prover.Boundary.{Serde, Handled, crate_abi_version, internal_response, error_from_host}
use go_zkvm.Prover.Boundary.{parse_prove_receipt_kind, handle_compute_image_id, handle_execute}
use go_zkvm.Prover.Boundary.{handle_prove, handle_verify, answer, status_and_payload}

-- The boxed slices that were leaked to the caller, the last one first.
abbrev pub Heap : Type 0
Heap = List (ℕ × List ℕ)

abbrev pub block_at : ℕ → Heap → List ℕ
block_at ptr [] = []
block_at ptr ((p, bytes) ∷ heap) = if p == ptr then bytes else block_at ptr heap

-- `drop(Box::from_raw(…))` on the block at an address.
abbrev pub release : ℕ → Heap → Heap
release ptr [] = []
release ptr ((p, bytes) ∷ heap) =
    let rest = release ptr heap in if p == ptr then heap else (p, bytes) ∷ rest

abbrev pub block_sizes : Heap → List (ℕ × ℕ)
block_sizes heap = map (λ block. (block.0, length block.1)) heap

-- The process around the crate: the dynamic linker, the logger, and the allocator.
pub record Host : Type 1 where
  pub State : Type 0
  pub Handle : Type 0
  pub dlopen : State → String → Option Handle × State
  -- Whether the symbol is there.
  pub dlsym : State → Handle → String → Bool × State
  pub dlerror : State → Option String × State
  pub Logger : Type 0
  pub info : State → Logger → String → ℕ → ℕ → State
  pub allocate : Heap → ℕ

module _ (H : Host) where
  -- The resolved pointer of a symbol is the symbol.
  abbrev pub crate_linker : Linker
  crate_linker = record {
    System = H.State × Heap;
    Handle = H.Handle;
    Pointer = String;
    dlopen = λ s path. let (handle, state) = H.dlopen s.0 path in (handle, (state, s.1));
    dlsym = λ s handle name.
        let (found, state) = H.dlsym s.0 handle name in
        (if found then some name else none, (state, s.1));
    dlerror = λ s. let (message, state) = H.dlerror s.0 in (message, (state, s.1));
    call_version = λ s f. (crate_abi_version, s);
  }

  -- The end of `invoke`: the payload becomes a boxed slice that the caller owns. The caller's output
  -- variables are never null.
  unfoldable pub hand_over : H.State × Heap → ℕ × List ℕ → Reply × (H.State × Heap)
  hand_over (state, heap) (status, payload) =
      let ptr = H.allocate heap in
      (
        record { status = status; out_ptr = some ptr; out_len = length payload },
        (state, (ptr, payload) ∷ heap),
      )

module _ (Z : Zkvm) (W : Serde) where
  -- The exported function behind a pointer.
  unfoldable pub exported : String → Option (List ℕ) → ℕ → ℕ × List ℕ
  unfolding answer
  exported f req_ptr req_len =
      if same_text f "go_zkvm_compute_image_id"
      then answer W (handle_compute_image_id Z W) W.to_vec_compute_image_id req_ptr req_len
      else if same_text f "go_zkvm_execute"
      then answer W (handle_execute Z W) W.to_vec_execute req_ptr req_len
      else if same_text f "go_zkvm_prove"
      then answer W (handle_prove Z W) W.to_vec_prove req_ptr req_len
      else answer W (handle_verify Z W) W.to_vec_verify req_ptr req_len

  abbrev pub crate_foreign : (H : Host) → Foreign (crate_linker H)
  crate_foreign H = record {
    Logger = H.Logger;
    call_op = λ s f req_ptr req_len. hand_over H s (exported f req_ptr req_len);
    call_free = λ s f ptr n. (s.0, release ptr s.1);
    read_bytes = λ s ptr n. take n (block_at ptr s.1);
    info = λ s logger op m n. (H.info s.0 logger op m n, s.1);
  }

-- What a caller gets for an outcome of the crate: a panic becomes an error.
abbrev pub served : {A : Type 0} → Handled A → Library.Outcome A
served (ok a) = accepted a
served (err e) = refused e
served (unwound message) =
    refused (internal_response (String.◌++◌ "panic in FFI boundary: " message))

-- The prover of host-core.
abbrev pub crate_service : Zkvm → Serde → Service
crate_service Z W = record {
  compute_image_id = λ guest. served (map_err error_from_host (compute_image_id_hex Z guest));
  execute = λ guest stdin assumptions.
      served (map_err error_from_host (core_execute Z guest stdin assumptions));
  prove = λ guest stdin assumptions self_verify kind. served (
      parse_prove_receipt_kind Z W kind
      >>= (λ k. map_err error_from_host (core_prove Z guest stdin assumptions self_verify k)));
  verify = λ receipt image_id expected.
      served (map_err error_from_host (core_verify Z receipt image_id expected));
}

-- Both sides speak the same JSON and base64: encoding/json and serde_json on the fields of these messages,
-- within the widths of their integers, and the padded standard alphabet on both sides.
pub record IsWire (C : Codec) (W : Serde) : Type 0 where
  pub decode_lem : (bytes : List ℕ) → W.base64_decode (C.encode_base64 bytes) ≡ ok bytes
  pub encode_lem : (bytes : List ℕ) → W.base64_encode bytes ≡ C.encode_base64 bytes
  pub parse_compute_image_id_lem :
      (j : ComputeImageIdRequest) (b : List ℕ)
      → C.marshal_compute_image_id j ≡ some b
      → j.abi_version ≡ abi_version
      → W.parse_compute_image_id b ≡ ok j
  pub parse_execute_lem :
      (j : ExecuteJsonRequest) (b : List ℕ)
      → C.marshal_execute j ≡ some b
      → j.abi_version ≡ abi_version
      → W.parse_execute b ≡ ok j
  pub parse_prove_lem :
      (j : ProveJsonRequest) (b : List ℕ)
      → C.marshal_prove j ≡ some b
      → j.abi_version ≡ abi_version
      → W.parse_prove b ≡ ok j
  pub parse_verify_lem :
      (j : VerifyJsonRequest) (b : List ℕ)
      → C.marshal_verify j ≡ some b
      → j.abi_version ≡ abi_version
      → W.parse_verify b ≡ ok j
  pub to_vec_compute_image_id_lem :
      (r : ComputeImageIdResponse)
      → (b : List ℕ) × (W.to_vec_compute_image_id r ≡ ok b)
        × (C.unmarshal_compute_image_id b ≡ decoded r)
        × (0 < length b)
  pub to_vec_execute_lem :
      (r : ExecuteJsonResponse)
      → r.segment_count < 2 ^ 32
      → r.session_rows < 2 ^ 64
      → (b : List ℕ) × (W.to_vec_execute r ≡ ok b)
        × (C.unmarshal_execute b ≡ decoded r)
        × (0 < length b)
  pub to_vec_prove_lem :
      (r : ProveJsonResponse)
      → r.seal_bytes < 2 ^ 64
      → (b : List ℕ) × (W.to_vec_prove r ≡ ok b)
        × (C.unmarshal_prove b ≡ decoded r)
        × (0 < length b)
  pub to_vec_verify_lem :
      (r : VerifyJsonResponse)
      → r.seal_bytes < 2 ^ 64
      → (b : List ℕ) × (W.to_vec_verify r ≡ ok b)
        × (C.unmarshal_verify b ≡ decoded r)
        × (0 < length b)
  pub to_vec_error_lem :
      (e : FfiErrorResponse)
      → (b : List ℕ) × (W.to_vec_error e ≡ inr b)
        × (C.unmarshal_error b ≡ decoded e)
        × (0 < length b)

module _ (W : Serde) where
  -- The status and the payload for a computation whose value is sent in a form.
  abbrev pub packed :
      {A Resp : Type 0} → (Resp → Outcome String (List ℕ)) → (A → Resp) → Handled A → ℕ × List ℕ
  packed to_vec form o = status_and_payload W (
      sent o form
      >>= (λ r. map_err (λ m. internal_response (String.◌++◌ "serialize response: " m)) (to_vec r)))

  -- The response to an outcome is below 2 GiB.
  abbrev pub Below :
      {A Resp : Type 0} → (Resp → Outcome String (List ℕ)) → (A → Resp) → Handled A → Type 0
  Below to_vec form o = length (packed to_vec form o).1 < 2 ^ 31
