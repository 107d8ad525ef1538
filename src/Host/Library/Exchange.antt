-- ===== src/Host/Library/Exchange.antt =====
-- One call over the boundary: the answer is the service's, and the buffer goes back.
use go_zkvm.Base.{
  ℕ, ◌%◌, ◌^◌, ◌<◌, ◌≡◌, ◌≢◌, refl, ap, ◌∙◌, arith, String, false, Bool-cases, ◌⊎◌, inl, inr,
}
use go_zkvm.Base.{◌==◌, leb, Option, none, some, List, length}
use go_zkvm.Host.Loader.{Linker, Loader}
use go_zkvm.Host.Messages.{FfiErrorResponse}
use go_zkvm.Host.Failure.{host_error, decode_response, empty_response}
use go_zkvm.Host.Ffi.{
  Foreign, Format, Reply, Decoded, decoded, undecodable, Answer, value, failure, returned,
}
use go_zkvm.Host.Ffi.{Run, panicked, M, then_run}
use go_zkvm.Host.Ffi.{decode_error_body, decode_ffi_error, call_json, read_response, copy_and_free}
use go_zkvm.Host.Ffi.{host_call, bytes_ptr, FfiInvoker}
use go_zkvm.Host.Calls.{Codec}
use go_zkvm.Host.Library.{
  Outcome, accepted, refused, Service, Answers, Delivers, IsLibrary, Exports,
}

decoded_cases :
    {A : Type 0} (o : Decoded A)
    → ((a : A) × (o ≡ decoded a)) ⊎ ((why : String) × (o ≡ undecodable why))
decoded_cases (decoded a) = inl (a, refl)
decoded_cases (undecodable why) = inr (why, refl)

-- A step that gives an answer, and leaves the process as it is.
abbrev pub Settles : {St A : Type 0} → M St A → Type 0
Settles {St = St} {A = A} m = (s : St) → (r : Answer A) × (m s ≡ returned r s)

-- What a service's outcome is to the caller of an operation.
abbrev pub answer_of : {A Resp : Type 0} → Format → String → (A → Resp) → Outcome A → Answer Resp
answer_of t op wire (accepted a) = value (wire a)
answer_of t op wire (refused e) = failure (host_error (decode_error_body t op (decoded e)))

module _ {L : Linker} {F : Foreign L} {C : Codec} {S : Service} (lib : IsLibrary L F C S) where
  -- A run that panics, or that gives an answer and holds the same buffers in the same process but for
  -- the system.
  abbrev pub Keeps : {A : Type 0} → Loader L → Run (Loader L) A → Type 0
  Keeps {A = A} s run =
      (run ≡ panicked)
      ⊎ ((r : Answer A) × (after : L.System) × (run ≡ returned r (record s { system = after }))
          × (lib.buffers after ≡ lib.buffers s.system))

  pub then_run-Keeps :
      {A B : Type 0} (s : Loader L) (run : Run (Loader L) A) (f : A → M (Loader L) B)
      → Keeps s run
      → ((a : A) → Settles (f a))
      → Keeps s (then_run run f)
  then_run-Keeps s run f (inl e) settles = inl (ap (λ o. then_run o f) e)
  then_run-Keeps s run f (inr (value a, after, e, same)) settles =
      let (r, e') = settles a (record s { system = after }) in
      inr (r, after, ap (λ o. then_run o f) e ∙ e', same)
  then_run-Keeps s run f (inr (failure why, after, e, same)) settles =
      inr (failure why, after, ap (λ o. then_run o f) e, same)

  -- In a process that differs in the system.
  pub Keeps-before :
      {A : Type 0} (s : Loader L) (before : L.System) (run : Run (Loader L) A)
      → lib.buffers before ≡ lib.buffers s.system
      → Keeps (record s { system = before }) run
      → Keeps s run
  Keeps-before s before run same (inl e) = inl e
  Keeps-before s before run same (inr (r, after, e, same')) = inr (r, after, e, same' ∙ same)

  -- A buffer that was handed over is read while it is live, and given back once.
  pub copy_and_free-Delivers :
      (s : Loader L) (reply : Reply) (before : L.System) (body : List ℕ)
      → Exports lib.name_of s.free_buffer_ptr "go_zkvm_free_buffer"
      → Delivers F lib.buffers reply before s.system body
      → length body < 2 ^ 31
      → (after : L.System) × (copy_and_free F reply.out_ptr reply.out_len s
          ≡ some (body, record s { system = after }))
        × (lib.buffers after ≡ lib.buffers before)
  unfolding copy_and_free
  copy_and_free-Delivers s reply before body (f, ef, named) (ptr, ep, en, some_bytes, read, live)
        fits =
      (
        F.call_free s.system f ptr (length body),
        rw (ep, en, nonzero, whole, signless, read, ef),
        lib.free_lem s.system f ptr (length body) (lib.buffers before) named live,
      )
    where
      nonzero : (length body == 0) ≡ false
      nonzero = ground arith

      whole : length body % 2 ^ 32 ≡ length body
      whole = omega arith

      signless : leb (2 ^ 31) (length body) ≡ false
      signless = ground arith

  -- A buffer of whatever size is given back, unless its length has the sign bit of a C.int.
  copy_and_free-kept :
      (s : Loader L) (reply : Reply) (before : L.System) (body : List ℕ)
      → Exports lib.name_of s.free_buffer_ptr "go_zkvm_free_buffer"
      → Delivers F lib.buffers reply before s.system body
      → (copy_and_free F reply.out_ptr reply.out_len s ≡ none)
        ⊎ ((bytes : List ℕ) × (after : L.System) × (copy_and_free F reply.out_ptr reply.out_len s
              ≡ some (bytes, record s { system = after }))
            × (lib.buffers after ≡ lib.buffers before))
  unfolding copy_and_free
  copy_and_free-kept s reply before body (f, ef, named) (ptr, ep, en, some_bytes, read, live) =
      elim (Bool-cases (leb (2 ^ 31) (length body % 2 ^ 32))) [
        | inl signed ↦ inl (rw (ep, en, nonzero, signed) refl)
        | inr signless ↦ inr (
          F.read_bytes s.system ptr (length body % 2 ^ 32),
          F.call_free s.system f ptr (length body),
          rw (ep, en, nonzero, signless, ef) refl,
          lib.free_lem s.system f ptr (length body) (lib.buffers before) named live,
        )
      ]
    where
      nonzero : (length body == 0) ≡ false
      nonzero = ground arith

  -- A call through a resolved pointer.
  pub host_call_lem :
      (s : Loader L) (pointer : Option L.Pointer) (f : L.Pointer) (b : List ℕ)
      → pointer ≡ some f
      → 0 < length b
      → host_call F pointer (bytes_ptr b) (length b) s ≡ (
        (F.call_op s.system f (some b) (length b)).0,
        record s { system = (F.call_op s.system f (some b) (length b)).1 },
      )
  unfolding host_call bytes_ptr
  host_call_lem s pointer f b e some_bytes = rw (e, nonzero) refl
    where
      nonzero : (length b == 0) ≡ false
      nonzero = ground arith

  module _ {A Req Resp : Type 0} (marshal : Req → Option (List ℕ))
      (unmarshal : List ℕ → Decoded Resp) (wire : A → Resp) where
    read_response-accepted :
        (op : String) (status : ℕ) (body : List ℕ) (r : Resp) (s : Loader L)
        → status ≡ 0
        → 0 < length body
        → unmarshal body ≡ decoded r
        → read_response F C.format C.unmarshal_error marshal unmarshal op status body s
          ≡ returned (value r) s
    unfolding read_response
    read_response-accepted op status body r s zero_status some_bytes eb =
        rw (zero_status, nonzero, eb) refl
      where
        nonzero : (length body == 0) ≡ false
        nonzero = ground arith

    read_response-refused :
        (op : String) (status : ℕ) (body : List ℕ) (e : FfiErrorResponse) (s : Loader L)
        → status ≢ 0
        → 0 < length body
        → C.unmarshal_error body ≡ decoded e
        → read_response F C.format C.unmarshal_error marshal unmarshal op status body s
          ≡ returned (failure (host_error (decode_error_body C.format op (decoded e)))) s
    unfolding read_response
    read_response-refused op status body e s bad_status some_bytes eb = rw (bad, nonzero, eb) refl
      where
        bad : (status == 0) ≡ false
        bad = ground arith

        nonzero : (length body == 0) ≡ false
        nonzero = ground arith

    read_response-Answers :
        (op : String) (reply : Reply) (s : L.System) (outcome : Outcome A) (s1 : Loader L)
        → Answers F lib.buffers C.unmarshal_error unmarshal wire outcome (reply, s1.system) s
        → (body : List ℕ) × Delivers F lib.buffers reply s s1.system body
          × ((s2 : Loader L)
              → read_response F C.format C.unmarshal_error marshal unmarshal op reply.status body s2
                ≡ returned (answer_of C.format op wire outcome) s2)
    read_response-Answers op reply s (accepted a) s1 (zero_status, (body, eb, d)) =
        (body, d, λ s2. read_response-accepted op reply.status body (wire a) s2 zero_status d.3 eb)
    read_response-Answers op reply s (refused e) s1 (bad_status, (body, eb, d)) =
        (body, d, λ s2. read_response-refused op reply.status body e s2 bad_status d.3 eb)

    -- Whatever the status and the bytes are.
    read_response-Settles :
        (op : String) (status : ℕ) (bytes : List ℕ)
        → Settles {St = Loader L}
            (read_response F C.format C.unmarshal_error marshal unmarshal op status bytes)
    unfolding read_response
    read_response-Settles op status bytes s = elim (Bool-cases (status == 0)) [
      | inr bad ↦ (
        failure (host_error (decode_ffi_error C.format C.unmarshal_error op bytes status)),
        rw bad refl,
      )
      | inl fine ↦ elim (Bool-cases (length bytes == 0)) [
        | inl nothing ↦ (failure (empty_response op), rw (fine, nothing) refl)
        | inr something ↦ elim (decoded_cases (unmarshal bytes)) [
          | inl (r, e) ↦ (value r, rw (fine, something, e) refl)
          | inr (why, e) ↦ (failure (decode_response op why), rw (fine, something, e) refl)
        ]
      ]
    ]

    -- `callJSON` panics or gives an answer, and no buffer stays behind; and the answer is the outcome of
    -- the service, when the response is below 2 GiB.
    pub call_json-Exchanged :
        (op : String) (fn : FfiInvoker F) (req : Req) (b : List ℕ) (f : L.Pointer) (s : Loader L)
        (outcome : Outcome A)
        → Exports lib.name_of s.free_buffer_ptr "go_zkvm_free_buffer"
        → marshal req ≡ some b
        → fn (bytes_ptr b) (length b) s ≡ (
          (F.call_op s.system f (some b) (length b)).0,
          record s { system = (F.call_op s.system f (some b) (length b)).1 },
        )
        → Answers F lib.buffers C.unmarshal_error unmarshal wire outcome
            (F.call_op s.system f (some b) (length b))
            s.system
        → Keeps s (call_json F C.format C.unmarshal_error marshal unmarshal op fn req s)
          × ((F.call_op s.system f (some b) (length b)).0.out_len < 2 ^ 31
              → (after : L.System) × (call_json F C.format C.unmarshal_error marshal unmarshal op fn
                    req s
                  ≡ returned (answer_of C.format op wire outcome) (record s { system = after }))
                × (lib.buffers after ≡ lib.buffers s.system))
    unfolding call_json
    call_json-Exchanged op fn req b f s outcome free em en answers =
        let s1 : Loader L = record s { system = (F.call_op s.system f (some b) (length b)).1 } in
        let reply : Reply = (F.call_op s.system f (some b) (length b)).0 in
        let (body, d, read) = read_response-Answers op reply s.system outcome s1 answers in
        (
          elim (copy_and_free-kept s1 reply s.system body free d) [
            | inl panics ↦ inl (rw (em, en, panics) refl)
            | inr (bytes, after, copied, same) ↦
                let (r, e) =
                  read_response-Settles op reply.status bytes (record s { system = after }) in
                inr (r, after, rw (em, en, copied) e, same)
          ],
          λ fits.
              let (after, copied, same) =
                copy_and_free-Delivers s1 reply s.system body free d (omega (arith, d.2, fits)) in
              (after, rw (em, en, copied) (read (record s { system = after })), same),
        )
