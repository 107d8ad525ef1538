-- ===== src/Host/Library/Payloads.antt =====
-- The payloads of the messages: lists of assumptions, receipt kinds, and what a response decodes to.
use go_zkvm.Base.{
  ℕ, Bool-cases, ◌⊎◌, inl, inr, ◌≡◌, refl, sym, ap, ◌∙◌, arith, String, true, false, ◌==◌, Option,
  none, some,
}
use go_zkvm.Base.{List, [], ◌∷◌, ◌++◌, map, length, append_assoc, append-nil}
use mathlib.Core.Path.{subst}
use go_zkvm.Host.Loader.{same_text}
use go_zkvm.Host.Messages.{ExecuteResult, ProveResult}
use go_zkvm.Host.Messages.{VerifyResult}
use go_zkvm.Host.Messages.{ExecuteJsonResponse, ProveJsonResponse, VerifyJsonResponse}
use go_zkvm.Host.Failure.{decode_journal, decode_receipt}
use go_zkvm.Host.Loader.Runs.{same_text_refl}
use go_zkvm.Host.Messages.{ReceiptKind, receipt_kind_composite, receipt_kind_succinct}
use go_zkvm.Host.Ffi.{Format, returned, then_run}
use go_zkvm.Host.Ffi.{pure, value, failure}
use go_zkvm.Host.Calls.{Codec, encode_items, encode_binary_list}
use go_zkvm.Host.Calls.{is_valid_prove_receipt_kind}
use go_zkvm.Host.Calls.{read_execute, read_prove, read_verify}
use go_zkvm.Host.Library.{Outcome, accepted, refused, AllEncode, IsCodec, wire_image_id}
use go_zkvm.Host.Library.{wire_execute, wire_prove, wire_verify}
use go_zkvm.Host.Library.Exchange.{answer_of, Settles}

module _ (C : Codec) (codec : IsCodec C) where
  encode_items_lem :
      (encoded : List String) (items : List (List ℕ))
      → encode_items C encoded items ≡ encoded ++ map C.encode_base64 items
  unfolding encode_items
  encode_items_lem encoded [] = sym (append-nil encoded)
  encode_items_lem encoded (item ∷ items) =
      encode_items_lem (encoded ++ (C.encode_base64 item ∷ [])) items
      ∙ append_assoc encoded (C.encode_base64 item ∷ []) (map C.encode_base64 items)

  map-AllEncode : (items : List (List ℕ)) → AllEncode C (map C.encode_base64 items) items
  map-AllEncode [] = tt
  map-AllEncode (item ∷ items) = (refl, map-AllEncode items)

  encode_binary_list_lem :
      (items : List (List ℕ)) → encode_binary_list C items ≡ map C.encode_base64 items
  unfolding encode_binary_list
  encode_binary_list_lem [] = refl
  encode_binary_list_lem (item ∷ items) = rw nonzero (encode_items_lem [] (item ∷ items))
    where
      nonzero : (length (item ∷ items) == 0) ≡ false
      nonzero = ground arith

  -- Every item of the list that goes over the boundary decodes to the item that it came from.
  pub encode_binary_list-AllEncode :
      (items : List (List ℕ)) → AllEncode C (encode_binary_list C items) items
  encode_binary_list-AllEncode items =
      subst (λ t. AllEncode C t items) (sym (encode_binary_list_lem items)) (map-AllEncode items)

  -- What a response decodes to.
  module _ {St : Type 0} (s : St) (t : Format) where
    pub read_execute-answer_of :
        (op : String) (outcome : Outcome ExecuteResult)
        → then_run (returned (answer_of t op (wire_execute C) outcome) s) (read_execute C)
          ≡ returned (answer_of t op (λ r. r) outcome) s
    unfolding read_execute
    read_execute-answer_of op (accepted r) = rw (codec.base64_lem r.journal) refl
    read_execute-answer_of op (refused e) = refl

    pub read_prove-answer_of :
        (op : String) (outcome : Outcome ProveResult)
        → then_run (returned (answer_of t op (wire_prove C) outcome) s) (read_prove C)
          ≡ returned (answer_of t op (λ r. r) outcome) s
    unfolding read_prove
    read_prove-answer_of op (accepted r) =
        rw (codec.base64_lem r.journal, codec.base64_lem r.receipt) refl
    read_prove-answer_of op (refused e) = refl

    pub read_verify-answer_of :
        (op : String) (outcome : Outcome VerifyResult)
        → then_run (returned (answer_of t op (wire_verify C) outcome) s) (read_verify C)
          ≡ returned (answer_of t op (λ r. r) outcome) s
    unfolding read_verify
    read_verify-answer_of op (accepted r) = rw (codec.base64_lem r.journal) refl
    read_verify-answer_of op (refused e) = refl

    pub read_image_id-answer_of :
        (op : String) (outcome : Outcome String)
        → then_run
            (returned (answer_of t op (wire_image_id C) outcome) s)
            (λ resp. pure resp.image_id)
          ≡ returned (answer_of t op (λ r. r) outcome) s
    read_image_id-answer_of op (accepted r) = refl
    read_image_id-answer_of op (refused e) = refl

option_cases : {A : Type 0} (o : Option A) → (o ≡ none) ⊎ ((a : A) × (o ≡ some a))
option_cases none = inl refl
option_cases (some a) = inr (a, refl)

-- Whatever a response holds.
module _ (C : Codec) {St : Type 0} where
  pub read_execute-Settles : (resp : ExecuteJsonResponse) → Settles {St = St} (read_execute C resp)
  unfolding read_execute
  read_execute-Settles resp s = elim (option_cases (C.decode_base64 resp.journal_base64)) [
    | inl e ↦ (failure (decode_journal "execute"), rw e refl)
    | inr (journal, e) ↦ (
      value (record {
        image_id = resp.image_id;
        journal = journal;
        exit_code = resp.exit_code;
        segment_count = resp.segment_count;
        session_rows = resp.session_rows;
      }),
      rw e refl,
    )
  ]

  pub read_prove-Settles : (resp : ProveJsonResponse) → Settles {St = St} (read_prove C resp)
  unfolding read_prove
  read_prove-Settles resp s = elim (option_cases (C.decode_base64 resp.journal_base64)) [
    | inl e ↦ (failure (decode_journal "prove"), rw e refl)
    | inr (journal, e) ↦ elim (option_cases (C.decode_base64 resp.receipt_base64)) [
      | inl e' ↦ (failure (decode_receipt "prove"), rw (e, e') refl)
      | inr (receipt, e') ↦ (
        value (record {
          image_id = resp.image_id;
          journal = journal;
          receipt = receipt;
          receipt_encoding = resp.receipt_encoding;
          receipt_kind = resp.receipt_kind;
          prover_name = resp.prover_name;
          seal_bytes = resp.seal_bytes;
        }),
        rw (e, e') refl,
      )
    ]
  ]

  pub read_verify-Settles : (resp : VerifyJsonResponse) → Settles {St = St} (read_verify C resp)
  unfolding read_verify
  read_verify-Settles resp s = elim (option_cases (C.decode_base64 resp.journal_base64)) [
    | inl e ↦ (failure (decode_journal "verify"), rw e refl)
    | inr (journal, e) ↦ (
      value (record {
        verified = resp.verified;
        journal = journal;
        receipt_encoding = resp.receipt_encoding;
        receipt_kind = resp.receipt_kind;
        seal_bytes = resp.seal_bytes;
      }),
      rw e refl,
    )
  ]

pub valid_kind :
    (kind : ReceiptKind)
    → (kind ≡ receipt_kind_composite) ⊎ (kind ≡ receipt_kind_succinct)
    → is_valid_prove_receipt_kind kind ≡ true
unfolding is_valid_prove_receipt_kind
valid_kind kind (inl e) = rw (e, same_text_refl receipt_kind_composite) refl
valid_kind kind (inr e) = elim (Bool-cases (same_text kind receipt_kind_composite)) [
  | inl composite ↦ rw composite refl
  | inr other ↦
      rw
        (
          other,
          ap (λ t. same_text t receipt_kind_succinct) e ∙ same_text_refl receipt_kind_succinct,
        )
        refl
]
