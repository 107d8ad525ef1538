-- ===== src/Prover/Serves.antt =====
-- The crate as a loaded library serves the prover of host-core: `IsLibrary` and `IsReady` hold of it.
use go_zkvm.Base.{ℕ, ◌^◌, ◌<◌, ◌≡◌, ◌≢◌, refl, sym, ap, ◌∙◌, arith, String}
use go_zkvm.Base.{==_iff, Option, some, List, length, take_all}
use mathlib.Core.Path.{subst}
use Prim.Native.String
use go_zkvm.Host.Messages.{FfiErrorResponse}
use go_zkvm.Host.Ffi.{Decoded, decoded}
use go_zkvm.Host.Calls.{Codec}
use go_zkvm.Host.Library
use go_zkvm.Host.Library.{
  accepted, refused, Answers, Delivers, Fits, IsLibrary, wire_image_id, wire_execute,
}
use go_zkvm.Host.Library.{wire_prove, wire_verify}
use go_zkvm.Prover.Outcome.{Outcome, ok, err, unwound}
use go_zkvm.Prover.Core.{Zkvm}
use go_zkvm.Prover.Boundary.{Serde, Handled, internal_response, read_input}
use go_zkvm.Prover.Boundary.{serialize_error, fallback, status_and_payload, answer}
use go_zkvm.Prover.Crate.{Heap, Host, hand_over, exported, crate_foreign, served}
use go_zkvm.Prover.Crate.{packed, Below, IsWire, block_sizes}
use go_zkvm.Prover.Outcome.{sent}

module _ {C : Codec} {W : Serde} (wire : IsWire C W) where
  -- A status and a payload that mean an outcome to the Go side.
  abbrev pub Means :
      {A Resp : Type 0}
      → (List ℕ → Decoded Resp)
      → (A → Resp)
      → Library.Outcome A
      → ℕ × List ℕ
      → Type 0
  Means unmarshal form (accepted a) (status, payload) =
      (status ≡ 0) × (unmarshal payload ≡ decoded (form a)) × (0 < length payload)
  Means unmarshal form (refused e) (status, payload) =
      (status ≢ 0) × (C.unmarshal_error payload ≡ decoded e) × (0 < length payload)

  serialize_error-decoded :
      (e : FfiErrorResponse)
      → (C.unmarshal_error (serialize_error W e) ≡ decoded e) × (0 < length (serialize_error W e))
  unfolding serialize_error fallback
  serialize_error-decoded e =
      let (b, eb, back, some_bytes) = wire.to_vec_error_lem e in rw eb (back, some_bytes)

  -- What a serializer gives for the values of a computation.
  abbrev pub Packs :
      {A Resp : Type 0}
      → (List ℕ → Decoded Resp)
      → (A → Resp)
      → (Resp → Outcome String (List ℕ))
      → Handled A
      → Type 0
  Packs {A = A} unmarshal form to_vec o =
      (a : A)
      → o ≡ ok a
      → (b : List ℕ) × (to_vec (form a) ≡ ok b) × (unmarshal b ≡ decoded (form a)) × (0 < length b)

  -- `invoke` on a handler's computation.
  packed-Means :
      {A Resp : Type 0} (unmarshal : List ℕ → Decoded Resp) (form : A → Resp)
      (to_vec : Resp → Outcome String (List ℕ)) (o : Handled A)
      → Packs unmarshal form to_vec o
      → Means unmarshal form (served o) (packed W to_vec form o)
  unfolding status_and_payload
  packed-Means unmarshal form to_vec (ok a) packs =
      let (b, eb, back, some_bytes) = packs a refl in rw eb (refl, back, some_bytes)
  packed-Means unmarshal form to_vec (err e) packs =
      let (back, some_bytes) = serialize_error-decoded e in (omega arith, back, some_bytes)
  packed-Means unmarshal form to_vec (unwound m) packs =
      let (back, some_bytes) =
        serialize_error-decoded (internal_response (String.◌++◌ "panic in FFI boundary: " m)) in
      (omega arith, back, some_bytes)

  answer-packed :
      {A Resp : Type 0} (form : A → Resp) (to_vec : Resp → Outcome String (List ℕ))
      (handler : List ℕ → Handled Resp) (o : Handled A) (b : List ℕ)
      → handler b ≡ sent o form
      → answer W handler to_vec (some b) (length b) ≡ packed W to_vec form o
  unfolding answer read_input
  answer-packed form to_vec handler o b handled =
      rw (take_all (length b) b (omega arith), handled) refl

  -- A payload that is handed over.
  module _ (H : Host) (Z : Zkvm) where
    hand_over-Delivers :
        (s : H.State × Heap) (r : ℕ × List ℕ)
        → 0 < length r.1
        → Delivers
            (crate_foreign Z W H)
            (λ s. block_sizes s.1)
            (hand_over H s r).0
            s
            (hand_over H s r).1
            r.1
    unfolding hand_over
    hand_over-Delivers s r some_bytes = (
      H.allocate s.1,
      refl,
      refl,
      some_bytes,
      rw ((==_iff (H.allocate s.1) (H.allocate s.1)).1 refl)
          (take_all (length r.1) r.1 (omega arith)),
      refl,
    )

    hand_over-Answers :
        {A Resp : Type 0} (unmarshal : List ℕ → Decoded Resp) (form : A → Resp)
        (outcome : Library.Outcome A) (s : H.State × Heap) (r : ℕ × List ℕ)
        → Means unmarshal form outcome r
        → Answers
            (crate_foreign Z W H)
            (λ s. block_sizes s.1)
            C.unmarshal_error
            unmarshal
            form
            outcome
            (hand_over H s r)
            s
    unfolding hand_over
    hand_over-Answers unmarshal form (accepted a) s r (fine, back, some_bytes) =
        (fine, (r.1, back, hand_over-Delivers s r some_bytes))
    hand_over-Answers unmarshal form (refused e) s r (bad, back, some_bytes) =
        (bad, (r.1, back, hand_over-Delivers s r some_bytes))

    -- A call through a pointer to an exported function.
    pub exported-Answers :
        {A Resp : Type 0} (unmarshal : List ℕ → Decoded Resp) (form : A → Resp)
        (to_vec : Resp → Outcome String (List ℕ)) (handler : List ℕ → Handled Resp) (o : Handled A)
        (outcome : Library.Outcome A) (name f : String) (b : List ℕ) (s : H.State × Heap)
        → f ≡ name
        → exported Z W name (some b) (length b) ≡ answer W handler to_vec (some b) (length b)
        → handler b ≡ sent o form
        → served o ≡ outcome
        → Packs unmarshal form to_vec o
        → Answers
            (crate_foreign Z W H)
            (λ s. block_sizes s.1)
            C.unmarshal_error
            unmarshal
            form
            outcome
            ((crate_foreign Z W H).call_op s f (some b) (length b))
            s
    exported-Answers unmarshal form to_vec handler o outcome name f b s named routed handled out
          packs =
        subst
          (λ r.
            Answers (crate_foreign Z W H) (λ s. block_sizes s.1) C.unmarshal_error unmarshal form
              outcome (hand_over H s r) s)
          (sym (
            ap (λ g. exported Z W g (some b) (length b)) named
            ∙ routed
            ∙ answer-packed form to_vec handler o b handled))
          (subst
            (λ outcome.
              Answers (crate_foreign Z W H) (λ s. block_sizes s.1) C.unmarshal_error unmarshal form
                outcome (hand_over H s (packed W to_vec form o)) s)
            out
            (hand_over-Answers unmarshal form (served o) s (packed W to_vec form o)
              (packed-Means unmarshal form to_vec o packs)))

    -- The length of what is handed over for a request.
    pub exported-Fits :
        {Req A Resp : Type 0} (form : A → Resp) (to_vec : Resp → Outcome String (List ℕ))
        (handler : List ℕ → Handled Resp) (o : Handled A) (name : String)
        (marshal : Req → Option (List ℕ)) (j : Req)
        → ((b : List ℕ)
            → exported Z W name (some b) (length b) ≡ answer W handler to_vec (some b) (length b))
        → ((b : List ℕ) → marshal j ≡ some b → handler b ≡ sent o form)
        → Below W to_vec form o
        → Fits (crate_foreign Z W H) (λ f. f) name marshal j
    unfolding hand_over
    exported-Fits form to_vec handler o name marshal j routed handled small s f b named em =
        subst (λ r. (hand_over H s r).0.out_len < 2 ^ 31)
          (sym (
            ap (λ g. exported Z W g (some b) (length b)) named
            ∙ routed b
            ∙ answer-packed form to_vec handler o b (handled b em)))
          small
