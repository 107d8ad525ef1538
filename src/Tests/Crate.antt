-- ===== src/Tests/Crate.antt =====
-- The Rust crates over a toy prover, loaded into a toy process.
use go_zkvm.Base.{
  ℕ, zero, suc, ◌/◌, ◌%◌, ◌<◌, ◌≡◌, refl, sym, ap, ◌∙◌, arith, String, true, Bool-cases,
}
use go_zkvm.Base.{◌==◌, some, List, [], ◌∷◌, length, inl, inr, if◌then◌else◌}
use Prim.Native.String
use mathlib.Core.Option.{some-injective}
use go_zkvm.Host.Messages.{ProveResult, VerifyJsonResponse}
use go_zkvm.Host.Ffi.{decoded}
use go_zkvm.Host.Calls.{Codec}
use go_zkvm.Host.Library.{IsCodec, wire_execute, wire_prove, wire_verify}
use go_zkvm.Prover.Outcome.{Outcome, ok, map_err}
use go_zkvm.Prover.Core.{Zkvm, composite, composite_receipt}
use go_zkvm.Prover.Core.{
  compute_image_id_hex, add_assumptions, build_env_with_assumptions, core_execute,
}
use go_zkvm.Prover.Core.{core_prove, core_verify, self_check, receipt_kind_name}
use go_zkvm.Prover.Boundary.{Serde, error_from_host, status_and_payload}
use go_zkvm.Prover.Crate.{IsWire, Below}
use go_zkvm.Prover.Receipts.{IsFaithful, accepted_result, core_verify-core_prove}
use go_zkvm.Tests.Coding.{to_text, of_text, read_text, of_text-to_text, read_text-to_text}
use go_zkvm.Tests.Prover.{prover_format}
use go_zkvm.Tests.Json.{put_text, put_chars, size}
use go_zkvm.Tests.Wire.{
  put_image_request, get_image_request, get-put_image_request, put_image_response,
  get_image_response, get-put_image_response, put_run_request, get_run_request, get-put_run_request,
  put_run_response, get_run_response, get-put_run_response, put_proof_request, get_proof_request,
  get-put_proof_request, put_proof_response, get_proof_response, get-put_proof_response,
  put_check_request, get_check_request, get-put_check_request, put_check_response,
  get_check_response, get-put_check_response, put_error, get_error, get-put_error,
}

abbrev pub toy_codec : Codec
toy_codec = record {
  encode_base64 = to_text;
  decode_base64 = of_text;
  marshal_compute_image_id = λ j. some (put_image_request j);
  unmarshal_compute_image_id = λ b. decoded (get_image_response b);
  marshal_execute = λ j. some (put_run_request j);
  unmarshal_execute = λ b. decoded (get_run_response b);
  marshal_prove = λ j. some (put_proof_request j);
  unmarshal_prove = λ b. decoded (get_proof_response b);
  marshal_verify = λ j. some (put_check_request j);
  unmarshal_verify = λ b. decoded (get_check_response b);
  unmarshal_error = λ b. decoded (get_error b);
  format = prover_format;
}

abbrev pub toy_serde : Serde
toy_serde = record {
  parse_compute_image_id = λ b. ok (get_image_request b);
  parse_execute = λ b. ok (get_run_request b);
  parse_prove = λ b. ok (get_proof_request b);
  parse_verify = λ b. ok (get_check_request b);
  to_vec_compute_image_id = λ r. ok (put_image_response r);
  to_vec_execute = λ r. ok (put_run_response r);
  to_vec_prove = λ r. ok (put_proof_response r);
  to_vec_verify = λ r. ok (put_check_response r);
  to_vec_error = λ e. inr (put_error e);
  base64_decode = λ t. ok (read_text 0 t);
  base64_encode = to_text;
  into_bytes = λ t. [];
}

pub toy_codec-IsCodec : IsCodec toy_codec
unfolding put_image_request put_run_request put_proof_request put_check_request
toy_codec-IsCodec = record {
  base64_lem = of_text-to_text;
  marshal_compute_image_id_lem = λ j. (put_image_request j, refl, omega arith);
  marshal_execute_lem = λ j. (put_run_request j, refl, omega arith);
  marshal_prove_lem = λ j. (put_proof_request j, refl, omega arith);
  marshal_verify_lem = λ j. (put_check_request j, refl, omega arith);
}

-- What was written is read.
parsed :
    {A : Type 0} (put : A → List ℕ) (get : List ℕ → A) (j : A) (b : List ℕ)
    → get (put j) ≡ j
    → some (put j) ≡ some b
    → Path (Outcome String A) (ok (get b)) (ok j)
parsed put get j b law e = ap (λ t. ok (get t)) (sym (some-injective _ _ e)) ∙ ap ok law

put_check_response-some : (r : VerifyJsonResponse) → 0 < length (put_check_response r)
unfolding put_check_response
put_check_response-some r = elim (Bool-cases r.verified) [
  | inl checked ↦ rw checked (omega arith)
  | inr unchecked ↦ rw unchecked (omega arith)
]

pub toy-IsWire : IsWire toy_codec toy_serde
unfolding put_image_response put_run_response put_proof_response put_error put_text
toy-IsWire = record {
  decode_lem = λ bytes. ap ok (read_text-to_text bytes);
  encode_lem = λ bytes. refl;
  parse_compute_image_id_lem =
      λ j b e v. parsed put_image_request get_image_request j b (get-put_image_request j) e;
  parse_execute_lem =
      λ j b e v. parsed put_run_request get_run_request j b (get-put_run_request j) e;
  parse_prove_lem =
      λ j b e v. parsed put_proof_request get_proof_request j b (get-put_proof_request j) e;
  parse_verify_lem =
      λ j b e v. parsed put_check_request get_check_request j b (get-put_check_request j) e;
  to_vec_compute_image_id_lem =
      λ r. (put_image_response r, refl, ap decoded (get-put_image_response r), omega arith);
  to_vec_execute_lem = λ r small small'.
      (put_run_response r, refl, ap decoded (get-put_run_response r), omega arith);
  to_vec_prove_lem =
      λ r small. (put_proof_response r, refl, ap decoded (get-put_proof_response r), omega arith);
  to_vec_verify_lem = λ r small. (
    put_check_response r,
    refl,
    ap decoded (get-put_check_response r),
    put_check_response-some r,
  );
  to_vec_error_lem = λ e. (put_error e, refl, ap decoded (get-put_error e), omega arith);
}

abbrev hex_digit : ℕ → List String → String
hex_digit n [] = ""
hex_digit zero (d ∷ digits) = d
hex_digit (suc n) (d ∷ digits) = hex_digit n digits

abbrev hex_digits : List String
hex_digits =
    "0" ∷ "1" ∷ "2" ∷ "3" ∷ "4" ∷ "5" ∷ "6" ∷ "7" ∷ "8" ∷ "9" ∷ "a" ∷ "b" ∷ "c" ∷ "d" ∷ "e" ∷ "f"
    ∷ []

abbrev hex_text : List ℕ → String
hex_text [] = ""
hex_text (b ∷ bytes) =
    String.◌++◌ (hex_digit (b / 16) hex_digits)
      (String.◌++◌ (hex_digit (b % 16) hex_digits) (hex_text bytes))

-- A prover whose guest commits two bytes.
abbrev pub toy_zkvm : Zkvm
toy_zkvm = record {
  Digest = Unit {0};
  Receipt = Unit {0};
  Builder = List ℕ;
  Env = List ℕ;
  Session = Unit {0};
  compute_image_id = λ guest. ok tt;
  digest_text = λ d. "aa";
  digest_from_hex = λ t. ok tt;
  hex_encode = hex_text;
  builder = [];
  write_slice = λ b stdin. stdin;
  add_assumption = λ b r. ok b;
  build = λ b. ok b;
  execute = λ env guest. ok tt;
  session_journal = λ s. 7 ∷ 8 ∷ [];
  exit_code_text = λ s. "Halted(0)";
  segment_count = λ s. 1;
  session_rows = λ s. 65536;
  prover_name = "local";
  prove_with_opts = λ env guest kind. ok tt;
  receipt_verify = λ r d. ok tt;
  receipt_to_vec = λ r. ok (1 ∷ 2 ∷ 3 ∷ []);
  receipt_from_slice = λ b. ok tt;
  receipt_journal = λ r. 7 ∷ 8 ∷ [];
  receipt_inner = λ r. composite_receipt;
  seal_size = λ r. 3;
  decimal = λ n. "0";
}

pub toy-IsFaithful : IsFaithful toy_zkvm
toy-IsFaithful = record { digest_lem = λ d. refl; receipt_lem = λ r b e. refl }

abbrev pub toy_proof : ProveResult
toy_proof = record {
  image_id = "aa";
  journal = 7 ∷ 8 ∷ [];
  receipt = 1 ∷ 2 ∷ 3 ∷ [];
  receipt_encoding = "borsh";
  receipt_kind = "composite";
  prover_name = "local";
  seal_bytes = 3;
}

pub toy_proved : core_prove toy_zkvm (1 ∷ []) (2 ∷ []) [] true composite ≡ ok toy_proof
unfolding core_prove build_env_with_assumptions add_assumptions self_check receipt_kind_name
toy_proved = refl

core_verify-core_prove_example :
    core_verify toy_zkvm (1 ∷ 2 ∷ 3 ∷ []) "aa" (some (7 ∷ 8 ∷ []))
    ≡ ok (accepted_result toy_zkvm toy-IsFaithful toy_proof)
core_verify-core_prove_example =
    core_verify-core_prove toy_zkvm toy-IsFaithful (1 ∷ []) (2 ∷ []) [] composite toy_proof
      toy_proved

toy_added : (idx : ℕ) (all : List (List ℕ)) (b : List ℕ) → add_assumptions toy_zkvm idx all b ≡ ok b
unfolding add_assumptions
toy_added idx [] b = refl
toy_added idx (x ∷ all) b = toy_added (suc idx) all b

toy_built :
    (stdin : List ℕ) (all : List (List ℕ))
    → (env : List ℕ) × (build_env_with_assumptions toy_zkvm stdin all ≡ ok env)
unfolding build_env_with_assumptions
toy_built stdin all =
    let env = if length stdin == 0 then [] else stdin in (env, rw (toy_added 0 all env) refl)

pub toy_execute-small :
    (guest stdin : List ℕ) (all : List (List ℕ))
    → Below toy_serde toy_serde.to_vec_execute
        (wire_execute toy_codec)
        (map_err error_from_host (core_execute toy_zkvm guest stdin all))
unfolding core_execute compute_image_id_hex status_and_payload put_run_response put_text put_chars
    size to_text
toy_execute-small guest stdin all = let (env, e) = toy_built stdin all in rw e (omega arith)

pub toy_prove-small : Below toy_serde toy_serde.to_vec_prove (wire_prove toy_codec) (ok toy_proof)
unfolding status_and_payload put_proof_response put_text put_chars size to_text
toy_prove-small = omega arith

pub toy_verify-small :
    Below toy_serde toy_serde.to_vec_verify
      (wire_verify toy_codec)
      (ok (accepted_result toy_zkvm toy-IsFaithful toy_proof))
unfolding status_and_payload put_check_response put_text put_chars size to_text
toy_verify-small = omega arith
