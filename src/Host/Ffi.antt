-- ===== src/Host/Ffi.antt =====
-- host/ffi_cgo.go: the calls through the loaded function pointers, the buffers that cross the boundary,
-- `callJSON` and `decodeFFIError`. The process is the loader's record; a call returns or panics.
use go_zkvm.Base.{ℕ, ◌-◌, ◌%◌, ◌^◌, String, Bool, true, false, not, ◌==◌, leb, Option, none, some}
use go_zkvm.Base.{List, [], length, if◌then◌else◌}
use go_zkvm.Host.Loader.{Linker, Loader, same_text}
use go_zkvm.Host.Messages.{FfiErrorResponse}
use go_zkvm.Host.Failure.{HostError, Failure, host_error, marshal_request, empty_response}
use go_zkvm.Host.Failure.{decode_response}

-- What an FFI call leaves in the status and in `*out_ptr` and `*out_len`. The status is the 32-bit
-- pattern of an int32, a null pointer is `none`.
pub record Reply : Type 0 where
  pub status : ℕ
  pub out_ptr : Option ℕ
  pub out_len : ℕ

-- The Rust library behind its function pointers, the memory that it allocates, and the logger.
pub record Foreign (L : Linker) : Type 1 where
  pub Logger : Type 0
  -- A call with the request buffer and its length.
  pub call_op : L.System → L.Pointer → Option (List ℕ) → ℕ → Reply × L.System
  pub call_free : L.System → L.Pointer → ℕ → ℕ → L.System
  -- The bytes at an address, as `C.GoBytes` copies them.
  pub read_bytes : L.System → ℕ → ℕ → List ℕ
  -- `logger.Info` with the operation and the two sizes.
  pub info : L.System → Logger → String → ℕ → ℕ → L.System

pub data Answer (A : Type 0) : Type 0 where
  value : A → Answer A
  failure : Failure → Answer A

-- A call that returned, with what it left behind, or a run-time panic.
pub data Run (S : Type 0) (A : Type 0) : Type 0 where
  returned : Answer A → S → Run S A
  panicked : Run S A

-- What a decoder of the standard library returns.
pub data Decoded (A : Type 0) : Type 0 where
  decoded : A → Decoded A
  undecodable : String → Decoded A

abbrev pub M : Type 0 → Type 0 → Type 0
M S A = S → Run S A

module _ {S : Type 0} where
  abbrev pub pure : {A : Type 0} → A → M S A
  pure a s = returned (value a) s

  abbrev pub fail : {A : Type 0} → Failure → M S A
  fail e s = returned (failure e) s

  abbrev pub then_run : {A B : Type 0} → Run S A → (A → M S B) → Run S B
  then_run (returned (value a) s) f = f a s
  then_run (returned (failure e) s) f = returned (failure e) s
  then_run panicked f = panicked

  infixl 5 ◌>>=◌ ◌>>◌
  abbrev pub ◌>>=◌ : {A B : Type 0} → M S A → (A → M S B) → M S B
  ◌>>=◌ m f s = then_run (m s) f

  abbrev pub ◌>>◌ : {B : Type 0} → M S (Unit {0}) → M S B → M S B
  ◌>>◌ m k s = then_run (m s) (λ _. k)

  abbrev pub fail_if : Bool → Failure → M S (Unit {0})
  fail_if true e s = returned (failure e) s
  fail_if false e s = returned (value tt) s

  abbrev pub or_fail : {A : Type 0} → Option A → Failure → M S A
  or_fail none e s = returned (failure e) s
  or_fail (some a) e s = returned (value a) s

  abbrev pub or_fail_with : {A : Type 0} → Decoded A → (String → Failure) → M S A
  or_fail_with (decoded a) e s = returned (value a) s
  or_fail_with (undecodable why) e s = returned (failure (e why)) s

  -- A step that changes the process, and one that may panic.
  abbrev pub step : {A : Type 0} → (S → A × S) → M S A
  step f s = let (a, s') = f s in returned (value a) s'

  abbrev pub run_option : {A : Type 0} → Option (A × S) → Run S A
  run_option none = panicked
  run_option (some (a, s)) = returned (value a) s

-- `bytesPtr`: the address of the first byte, which stands for the bytes, or nil.
unfoldable pub bytes_ptr : List ℕ → Option (List ℕ)
bytes_ptr b = if length b == 0 then none else some b

-- The texts that fmt builds for `decodeFFIError`.
pub record Format : Type 0 where
  pub status_text : ℕ → String
  pub decode_text : String → String

module _ {L : Linker} (F : Foreign L) where
  -- `go_zkvm_host_call_…`: -1, and an untouched output, without the pointer.
  unfoldable pub host_call : Option L.Pointer → Option (List ℕ) → ℕ → Loader L → Reply × Loader L
  host_call none req_ptr req_len s =
      (record { status = 2 ^ 32 - 1; out_ptr = none; out_len = 0 }, s)
  host_call (some f) req_ptr req_len s =
      let (reply, system) = F.call_op s.system f req_ptr req_len in
      (reply, record s { system = system })

  -- `ffiInvoker`
  abbrev pub FfiInvoker : Type 0
  FfiInvoker = Option (List ℕ) → ℕ → Loader L → Reply × Loader L

  unfoldable pub ffi_call_compute_image_id : FfiInvoker
  unfolding host_call
  ffi_call_compute_image_id req_ptr req_len s = host_call s.compute_image_id_ptr req_ptr req_len s

  unfoldable pub ffi_call_execute : FfiInvoker
  unfolding host_call
  ffi_call_execute req_ptr req_len s = host_call s.execute_ptr req_ptr req_len s

  unfoldable pub ffi_call_prove : FfiInvoker
  unfolding host_call
  ffi_call_prove req_ptr req_len s = host_call s.prove_ptr req_ptr req_len s

  unfoldable pub ffi_call_verify : FfiInvoker
  unfolding host_call
  ffi_call_verify req_ptr req_len s = host_call s.verify_ptr req_ptr req_len s

  -- `go_zkvm_host_call_free_buffer` through its pointer.
  unfoldable pub free_through : Option L.Pointer → ℕ → ℕ → Loader L → Loader L
  free_through none ptr n s = s
  free_through (some f) ptr n s = record s { system = F.call_free s.system f ptr n }

  unfoldable pub host_call_free_buffer : ℕ → ℕ → Loader L → Loader L
  unfolding free_through
  host_call_free_buffer ptr n s = free_through s.free_buffer_ptr ptr n s

  -- `C.GoBytes(ptr, C.int(n))`: a length with the sign bit panics.
  unfoldable pub go_bytes : ℕ → ℕ → Loader L → Option (List ℕ)
  go_bytes ptr n s =
      let c_int = n % 2 ^ 32 in
      if leb (2 ^ 31) c_int then none else some (F.read_bytes s.system ptr c_int)

  unfoldable pub free_after : ℕ → ℕ → Option (List ℕ) → Loader L → Option (List ℕ × Loader L)
  unfolding host_call_free_buffer
  free_after ptr n none s = none
  free_after ptr n (some buf) s = some (buf, host_call_free_buffer ptr n s)

  -- `copyAndFree`
  unfoldable pub copy_and_free : Option ℕ → ℕ → Loader L → Option (List ℕ × Loader L)
  unfolding host_call_free_buffer go_bytes free_after
  copy_and_free none n s = some ([], s)
  copy_and_free (some ptr) n s =
      if n == 0
      then some ([], host_call_free_buffer ptr n s)
      else free_after ptr n (go_bytes ptr n s) s

-- `decodeFFIError` on a body that is not empty.
unfoldable pub decode_error_body : Format → String → Decoded FfiErrorResponse → HostError
decode_error_body t op (undecodable why) = record {
  op = op;
  code = "internal_error";
  message = t.decode_text why;
}
decode_error_body t op (decoded e) = record {
  op = op;
  code = if same_text e.code "" then "internal_error" else e.code;
  message = if same_text e.message "" then "FFI call failed" else e.message;
}

unfoldable pub decode_ffi_error :
    Format → (List ℕ → Decoded FfiErrorResponse) → String → List ℕ → ℕ → HostError
unfolding decode_error_body
decode_ffi_error t unmarshal_error op resp_bytes status =
    if length resp_bytes == 0
    then record { op = op; code = "internal_error"; message = t.status_text status }
    else decode_error_body t op (unmarshal_error resp_bytes)

module _ {L : Linker} (F : Foreign L) (t : Format)
    (unmarshal_error : List ℕ → Decoded FfiErrorResponse) {Req Resp : Type 0}
    (marshal : Req → Option (List ℕ)) (unmarshal : List ℕ → Decoded Resp) where
  -- `callJSON` from the test of the status on.
  unfoldable pub read_response : String → ℕ → List ℕ → M (Loader L) Resp
  unfolding decode_ffi_error
  read_response op status resp_bytes = do
    fail_if (not (status == 0))
        (host_error (decode_ffi_error t unmarshal_error op resp_bytes status))
    fail_if (length resp_bytes == 0) (empty_response op)
    or_fail_with (unmarshal resp_bytes) (decode_response op)

  -- `callJSON`
  unfoldable pub call_json : String → FfiInvoker F → Req → M (Loader L) Resp
  unfolding bytes_ptr copy_and_free read_response
  call_json op fn req = do
    req_bytes ← or_fail (marshal req) (marshal_request op)
    reply ← step (fn (bytes_ptr req_bytes) (length req_bytes))
    resp_bytes ← λ s. run_option (copy_and_free F reply.out_ptr reply.out_len s)
    read_response op reply.status resp_bytes
