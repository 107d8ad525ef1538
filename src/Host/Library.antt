-- ===== src/Host/Library.antt =====
-- What the Go side relies on: the Rust library behind the FFI (docs/host-api.md and the memory rules at
-- the top of host/ffi_cgo.go) as an abstract service, and the standard library's JSON and base64.
pub mod Errors
pub mod Exchange
pub mod Payloads
pub mod Exchanges
pub mod Operations
pub mod Ready
pub mod RoundTrip
use go_zkvm.Base.{◌⊎◌, ℕ, ◌^◌, ◌<◌, ◌≡◌, ◌≢◌, String, Bool, true, false, Option, none, some}
use go_zkvm.Base.{List, [], ◌∷◌, length}
use go_zkvm.Host.Loader.{Linker, Loader, abi_version}
use go_zkvm.Host.Messages
use go_zkvm.Host.Messages.{receipt_kind_composite, receipt_kind_succinct}
use go_zkvm.Host.Messages.{
  FfiErrorResponse, ComputeImageIdRequest, ComputeImageIdResponse, ExecuteJsonRequest,
  ExecuteJsonResponse, ProveJsonRequest, ProveJsonResponse, VerifyJsonRequest, VerifyJsonResponse,
  ReceiptKind, ExecuteResult, ProveResult, VerifyResult,
}
use go_zkvm.Host.Ffi.{Foreign, Reply, Decoded, decoded}
use go_zkvm.Host.Calls.{Codec}

pub data Outcome (A : Type 0) : Type 0 where
  accepted : A → Outcome A
  refused : FfiErrorResponse → Outcome A

-- The prover on plain bytes.
pub record Service : Type 0 where
  pub compute_image_id : List ℕ → Outcome String
  pub execute : List ℕ → List ℕ → List (List ℕ) → Outcome ExecuteResult
  pub prove : List ℕ → List ℕ → List (List ℕ) → Bool → ReceiptKind → Outcome ProveResult
  pub verify : List ℕ → String → Option (List ℕ) → Outcome VerifyResult

-- A text that is the base64 of the bytes, and a list of such.
abbrev pub Encodes : Codec → String → List ℕ → Type 0
Encodes C text bytes = text ≡ C.encode_base64 bytes

abbrev pub AllEncode : Codec → List String → List (List ℕ) → Type 0
AllEncode C [] [] = Unit {0}
AllEncode C [] (b ∷ bytes) = ⊥
AllEncode C (t ∷ texts) [] = ⊥
AllEncode C (t ∷ texts) (b ∷ bytes) = Encodes C t b × AllEncode C texts bytes

-- The JSON of these messages cannot fail and is never empty, and base64 decodes what it encodes.
pub record IsCodec (C : Codec) : Type 0 where
  pub base64_lem : (bytes : List ℕ) → C.decode_base64 (C.encode_base64 bytes) ≡ some bytes
  pub marshal_compute_image_id_lem :
      (req : ComputeImageIdRequest)
      → (b : List ℕ) × (C.marshal_compute_image_id req ≡ some b) × (0 < length b)
  pub marshal_execute_lem :
      (req : ExecuteJsonRequest) → (b : List ℕ) × (C.marshal_execute req ≡ some b) × (0 < length b)
  pub marshal_prove_lem :
      (req : ProveJsonRequest) → (b : List ℕ) × (C.marshal_prove req ≡ some b) × (0 < length b)
  pub marshal_verify_lem :
      (req : VerifyJsonRequest) → (b : List ℕ) × (C.marshal_verify req ≡ some b) × (0 < length b)

-- The responses on the wire.
module _ (C : Codec) where
  abbrev pub wire_image_id : String → ComputeImageIdResponse
  wire_image_id id = record { image_id = id }

  abbrev pub wire_execute : ExecuteResult → ExecuteJsonResponse
  wire_execute r = record {
    image_id = r.image_id;
    journal_base64 = C.encode_base64 r.journal;
    exit_code = r.exit_code;
    segment_count = r.segment_count;
    session_rows = r.session_rows;
  }

  abbrev pub wire_prove : ProveResult → ProveJsonResponse
  wire_prove r = record {
    image_id = r.image_id;
    journal_base64 = C.encode_base64 r.journal;
    receipt_base64 = C.encode_base64 r.receipt;
    receipt_encoding = r.receipt_encoding;
    receipt_kind = r.receipt_kind;
    prover_name = r.prover_name;
    seal_bytes = r.seal_bytes;
  }

  abbrev pub wire_verify : VerifyResult → VerifyJsonResponse
  wire_verify r = record {
    verified = r.verified;
    journal_base64 = C.encode_base64 r.journal;
    receipt_encoding = r.receipt_encoding;
    receipt_kind = r.receipt_kind;
    seal_bytes = r.seal_bytes;
  }

  -- The journal that a verify request asks for.
  abbrev pub Expects : VerifyJsonRequest → Option (List ℕ) → Type 0
  Expects j none = j.expected_journal_present ≡ false
  Expects j (some b) = (j.expected_journal_present ≡ true) × Encodes C j.expected_journal_base64 b

module _ {L : Linker} (F : Foreign L) where
  -- The response to a request is below 2 GiB: `C.GoBytes` takes a C.int.
  abbrev pub Fits :
      {Req : Type 0} → (L.Pointer → String) → String → (Req → Option (List ℕ)) → Req → Type 0
  Fits name_of name marshal j =
      (s : L.System) (f : L.Pointer) (b : List ℕ)
      → name_of f ≡ name
      → marshal j ≡ some b
      → (F.call_op s f (some b) (length b)).0.out_len < 2 ^ 31

module _ {L : Linker} (F : Foreign L) (buffers : L.System → List (ℕ × ℕ)) where
  -- The call allocated a buffer with the body, and handed it over.
  abbrev pub Delivers : Reply → L.System → L.System → List ℕ → Type 0
  Delivers reply s s' body =
      (ptr : ℕ) × (reply.out_ptr ≡ some ptr)
      × (reply.out_len ≡ length body)
      × (0 < length body)
      × (F.read_bytes s' ptr (length body) ≡ body)
      × (buffers s' ≡ (ptr, length body) ∷ buffers s)

  -- Status 0 and a response, or another status and an error response.
  abbrev pub Answers :
      {A Resp : Type 0}
      → (List ℕ → Decoded FfiErrorResponse)
      → (List ℕ → Decoded Resp)
      → (A → Resp)
      → Outcome A
      → Reply × L.System
      → L.System
      → Type 0
  Answers unmarshal_error unmarshal wire (accepted a) (reply, s') s =
      (reply.status ≡ 0)
      × ((body : List ℕ) × (unmarshal body ≡ decoded (wire a)) × Delivers reply s s' body)
  Answers unmarshal_error unmarshal wire (refused e) (reply, s') s =
      (reply.status ≢ 0)
      × ((body : List ℕ) × (unmarshal_error body ≡ decoded e) × Delivers reply s s' body)

-- The library serves `S`. `name_of` tells which symbol a pointer stands for, and `buffers` are the
-- allocations that the Go side has to give back.
pub record IsLibrary (L : Linker) (F : Foreign L) (C : Codec) (S : Service) : Type 0 where
  pub name_of : L.Pointer → String
  pub buffers : L.System → List (ℕ × ℕ)
  pub free_lem :
      (s : L.System) (f : L.Pointer) (ptr n : ℕ) (rest : List (ℕ × ℕ))
      → name_of f ≡ "go_zkvm_free_buffer"
      → buffers s ≡ (ptr, n) ∷ rest
      → buffers (F.call_free s f ptr n) ≡ rest
  pub info_lem :
      (s : L.System) (logger : F.Logger) (op : String) (m n : ℕ)
      → buffers (F.info s logger op m n) ≡ buffers s
  pub compute_image_id_lem :
      (s : L.System) (f : L.Pointer) (j : ComputeImageIdRequest) (b guest : List ℕ)
      → name_of f ≡ "go_zkvm_compute_image_id"
      → C.marshal_compute_image_id j ≡ some b
      → j.abi_version ≡ abi_version
      → Encodes C j.guest_binary_base64 guest
      → Answers F buffers C.unmarshal_error C.unmarshal_compute_image_id
          (wire_image_id C)
          (S.compute_image_id guest)
          (F.call_op s f (some b) (length b))
          s
  pub execute_lem :
      (s : L.System) (f : L.Pointer) (j : ExecuteJsonRequest) (b guest stdin : List ℕ)
      (assumptions : List (List ℕ))
      → name_of f ≡ "go_zkvm_execute"
      → C.marshal_execute j ≡ some b
      → j.abi_version ≡ abi_version
      → Encodes C j.guest_binary_base64 guest
      → Encodes C j.stdin_base64 stdin
      → AllEncode C j.assumptions_base64 assumptions
      → Answers F buffers C.unmarshal_error C.unmarshal_execute
          (wire_execute C)
          (S.execute guest stdin assumptions)
          (F.call_op s f (some b) (length b))
          s
  pub prove_lem :
      (s : L.System) (f : L.Pointer) (j : ProveJsonRequest) (b guest stdin : List ℕ)
      (assumptions : List (List ℕ))
      → name_of f ≡ "go_zkvm_prove"
      → C.marshal_prove j ≡ some b
      → j.abi_version ≡ abi_version
      → Encodes C j.guest_binary_base64 guest
      → Encodes C j.stdin_base64 stdin
      → AllEncode C j.assumptions_base64 assumptions
      → (j.receipt_kind ≡ receipt_kind_composite) ⊎ (j.receipt_kind ≡ receipt_kind_succinct)
      → Answers F buffers C.unmarshal_error C.unmarshal_prove
          (wire_prove C)
          (S.prove guest stdin assumptions j.verify_receipt j.receipt_kind)
          (F.call_op s f (some b) (length b))
          s
  pub verify_lem :
      (s : L.System) (f : L.Pointer) (j : VerifyJsonRequest) (b receipt : List ℕ)
      (expected : Option (List ℕ))
      → name_of f ≡ "go_zkvm_verify"
      → C.marshal_verify j ≡ some b
      → j.abi_version ≡ abi_version
      → Encodes C j.receipt_base64 receipt
      → Expects C j expected
      → Answers F buffers C.unmarshal_error C.unmarshal_verify
          (wire_verify C)
          (S.verify receipt j.image_id expected)
          (F.call_op s f (some b) (length b))
          s

module _ {Pointer : Type 0} (name_of : Pointer → String) where
  -- A pointer that the linker gave for the symbol.
  abbrev pub Exports : Option Pointer → String → Type 0
  Exports pointer name = (f : Pointer) × (pointer ≡ some f) × (name_of f ≡ name)

module _ {L : Linker} (name_of : L.Pointer → String) where
  -- The five pointers that the operations use are in place.
  abbrev pub IsReady : Loader L → Type 0
  IsReady s =
      Exports name_of s.compute_image_id_ptr "go_zkvm_compute_image_id"
      × Exports name_of s.execute_ptr "go_zkvm_execute"
      × Exports name_of s.prove_ptr "go_zkvm_prove"
      × Exports name_of s.verify_ptr "go_zkvm_verify"
      × Exports name_of s.free_buffer_ptr "go_zkvm_free_buffer"
