-- ===== src/Host/Library/Errors.antt =====
-- What `callJSON` and `decodeFFIError` do with whatever the library leaves behind.
use go_zkvm.Base.{ℕ, ◌%◌, ◌^◌, ◌≤◌, ◌<◌, ◌≡◌, ◌≢◌, refl, sym, ap, ◌∙◌, arith, String, true, false}
use go_zkvm.Base.{◌==◌, leb, Option, none, some, List, length, if◌then◌else◌, Bool-cases, inl, inr}
use Prim.Native.String
use text.Mathlib.TextEquality.{eq_iff}
use mathlib.Core.Bool.{true≢false}
use go_zkvm.Host.Loader.{Linker, Loader, same_text}
use go_zkvm.Host.Loader.Runs.{same_text_refl, same_text_ne}
use go_zkvm.Host.Messages.{FfiErrorResponse}
use go_zkvm.Host.Failure.{HostError, error_text, Failure, decode_response}
use go_zkvm.Host.Ffi.{Foreign, Format, Reply, Decoded, decoded, undecodable, value, failure, Run}
use go_zkvm.Host.Ffi.{
  returned, panicked, or_fail_with, then_run, run_option, decode_error_body, decode_ffi_error,
}
use go_zkvm.Host.Ffi.{
  call_json, read_response, copy_and_free, go_bytes, free_after, bytes_ptr, FfiInvoker,
}

internal-ne : ◌≢◌ {A = String} "internal_error" ""
internal-ne = ground (arith, eq_iff "internal_error" "")

failed-ne : ◌≢◌ {A = String} "FFI call failed" ""
failed-ne = ground (arith, eq_iff "FFI call failed" "")

-- A text with a default for the empty one.
filled-ne : (s d : String) → d ≢ "" → (if same_text s "" then d else s) ≢ ""
filled-ne s d full = elim (Bool-cases (same_text s "")) [
  | inl empty ↦ rw empty full
  | inr other ↦
      rw other
        (λ e. true≢false (sym (same_text_refl "") ∙ ap (λ t. same_text t "") (sym e) ∙ other))
]

-- An error that a caller can tell by its operation and its code.
abbrev pub IsTold : String → HostError → Type 0
IsTold op e = (e.op ≡ op) × (e.code ≢ "") × (e.message ≢ "")

module _ (t : Format) (unmarshal_error : List ℕ → Decoded FfiErrorResponse) (op : String)
    (status-ne : (status : ℕ) → t.status_text status ≢ "")
    (decode-ne : (why : String) → t.decode_text why ≢ "") where
  decode_error_body-IsTold : (d : Decoded FfiErrorResponse) → IsTold op (decode_error_body t op d)
  unfolding decode_error_body
  decode_error_body-IsTold (undecodable why) = (refl, internal-ne, decode-ne why)
  decode_error_body-IsTold (decoded e) = (
    refl,
    filled-ne e.code "internal_error" internal-ne,
    filled-ne e.message "FFI call failed" failed-ne,
  )

  decode_ffi_error-IsTold :
      (body : List ℕ) (status : ℕ) → IsTold op (decode_ffi_error t unmarshal_error op body status)
  unfolding decode_ffi_error
  decode_ffi_error-IsTold body status = elim (Bool-cases (length body == 0)) [
    | inl empty ↦ rw empty (refl, internal-ne, status-ne status)
    | inr full ↦ rw full (decode_error_body-IsTold (unmarshal_error body))
  ]

  -- An error with a code.
  error_text-IsTold :
      (e : HostError)
      → IsTold op e
      → error_text (some e)
        ≡ String.◌++◌ op (String.◌++◌ " (" (String.◌++◌ e.code (String.◌++◌ "): " e.message)))
  unfolding error_text
  error_text-IsTold e (same, full, _) = rw (same_text_ne e.code "" full) (
      ap (λ o. String.◌++◌ o (String.◌++◌ " (" (String.◌++◌ e.code (String.◌++◌ "): " e.message))))
        same)

  -- Whatever the library leaves behind on a failed call (no body, a body that is not JSON, an error
  -- with an empty code or message), the error names the operation, has a code and a message, and prints
  -- as the operation, the code in parentheses and the message, provided that the texts which fmt builds
  -- are not empty.
  pub decode_ffi_error-error_text :
      (body : List ℕ) (status : ℕ)
      → IsTold op (decode_ffi_error t unmarshal_error op body status)
        × (error_text (some (decode_ffi_error t unmarshal_error op body status))
            ≡ String.◌++◌ op (
                String.◌++◌ " (" (
                  String.◌++◌ (decode_ffi_error t unmarshal_error op body status).code (
                    String.◌++◌ "): "
                      (decode_ffi_error t unmarshal_error op body status).message))))
  decode_ffi_error-error_text body status =
      let told = decode_ffi_error-IsTold body status in
      (told, error_text-IsTold (decode_ffi_error t unmarshal_error op body status) told)

module _ {L : Linker} (F : Foreign L) (t : Format)
    (unmarshal_error : List ℕ → Decoded FfiErrorResponse) {Req Resp : Type 0}
    (marshal : Req → Option (List ℕ)) (unmarshal : List ℕ → Decoded Resp) where
  -- A response that has been copied.
  abbrev pub IsRead : Reply → Loader L → Resp → Loader L → Type 0
  IsRead reply s1 r s' =
      (reply.status ≡ 0)
      × ((body : List ℕ) × (copy_and_free F reply.out_ptr reply.out_len s1 ≡ some (body, s'))
          × (0 < length body)
          × (unmarshal body ≡ decoded r))

  failed-ne-value :
      (e : Failure) (r : Resp) (s s' : Loader L)
      → ¬ (Path (Run (Loader L) Resp) (returned (failure e) s) (returned (value r) s'))
  failed-ne-value e r s s' h = cc h

  decoded_value :
      (op : String) (d : Decoded Resp) (r : Resp) (s s' : Loader L)
      → or_fail_with d (decode_response op) s ≡ returned (value r) s'
      → (d ≡ decoded r) × (s ≡ s')
  decoded_value op (decoded a) r s s' h = (cc h, cc h)
  decoded_value op (undecodable why) r s s' h = absurd (failed-ne-value _ r s s' h)

  read_response-value :
      (op : String) (status : ℕ) (body : List ℕ) (r : Resp) (s s' : Loader L)
      → read_response F t unmarshal_error marshal unmarshal op status body s ≡ returned (value r) s'
      → (status ≡ 0) × (0 < length body) × (unmarshal body ≡ decoded r) × (s ≡ s')
  unfolding read_response
  read_response-value op status body r s s' h = elim (Bool-cases (status == 0)) [
    | inl fine ↦ elim (Bool-cases (length body == 0)) [
      | inl empty ↦ absurd (failed-ne-value _ r s s' (rw (fine, empty) at h))
      | inr full ↦
          let (same, kept) = decoded_value op (unmarshal body) r s s' (rw (fine, full) at h) in
          (ground (arith, fine), ground (arith, full), same, kept)
    ]
    | inr bad ↦ absurd (failed-ne-value _ r s s' (rw bad at h))
  ]

  -- Behind the marshalling of the request.
  called_value :
      (op : String) (reply : Reply) (r : Resp) (s1 s' : Loader L)
      (copied : Option (List ℕ × Loader L))
      → copy_and_free F reply.out_ptr reply.out_len s1 ≡ copied
      → then_run
          (run_option copied)
          (λ body. read_response F t unmarshal_error marshal unmarshal op reply.status body)
        ≡ returned (value r) s'
      → IsRead reply s1 r s'
  called_value op reply r s1 s' none e h = absurd (cc h)
  called_value op reply r s1 s' (some (body, s2)) e h =
      let (fine, full, same, kept) = read_response-value op reply.status body r s2 s' h in
      (fine, (body, e ∙ ap (λ u. some (body, u)) kept, full, same))

  marshalled_value :
      (op : String) (fn : FfiInvoker F) (req : Req) (r : Resp) (s s' : Loader L)
      (m : Option (List ℕ))
      → marshal req ≡ m
      → call_json F t unmarshal_error marshal unmarshal op fn req s ≡ returned (value r) s'
      → (b : List ℕ) × (m ≡ some b)
        × IsRead (fn (bytes_ptr b) (length b) s).0 (fn (bytes_ptr b) (length b) s).1 r s'
  unfolding call_json
  marshalled_value op fn req r s s' none e h = absurd (failed-ne-value _ r s s' (rw e at h))
  marshalled_value op fn req r s s' (some b) e h =
      let (reply, s1) = fn (bytes_ptr b) (length b) s in
      (
        b,
        refl,
        called_value op reply r s1 s' (copy_and_free F reply.out_ptr reply.out_len s1) refl
            (rw e at h),
      )

  -- Whatever the library does, `callJSON` returns a response only if the request was marshalled, the one
  -- call with these bytes gave status 0 and a body that is not empty, `copyAndFree` gave that body, and
  -- the response is what the body decodes to.
  pub call_json-value :
      (op : String) (fn : FfiInvoker F) (req : Req) (r : Resp) (s s' : Loader L)
      → call_json F t unmarshal_error marshal unmarshal op fn req s ≡ returned (value r) s'
      → (b : List ℕ) × (marshal req ≡ some b)
        × IsRead (fn (bytes_ptr b) (length b) s).0 (fn (bytes_ptr b) (length b) s).1 r s'
  call_json-value op fn req r s s' h = marshalled_value op fn req r s s' (marshal req) refl h

  -- A response whose length has bit 31 set makes `callJSON` panic, whatever its status and its bytes.
  pub call_json_long :
      (op : String) (fn : FfiInvoker F) (req : Req) (b : List ℕ) (reply : Reply) (ptr : ℕ)
      (s s1 : Loader L)
      → marshal req ≡ some b
      → fn (bytes_ptr b) (length b) s ≡ (reply, s1)
      → reply.out_ptr ≡ some ptr
      → 2 ^ 31 ≤ reply.out_len % 2 ^ 32
      → call_json F t unmarshal_error marshal unmarshal op fn req s ≡ panicked
  unfolding call_json copy_and_free go_bytes free_after
  call_json_long op fn req b reply ptr s s1 em en ep long = rw (em, en, ep, nonzero, signed) refl
    where
      nonzero : (reply.out_len == 0) ≡ false
      nonzero = ground arith

      signed : leb (2 ^ 31) (reply.out_len % 2 ^ 32) ≡ true
      signed = ground arith
