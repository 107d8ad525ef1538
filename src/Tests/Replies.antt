-- ===== src/Tests/Replies.antt =====
-- Replies that the library of the tests would not give.
use go_zkvm.Base.{ℕ, ◌^◌, ◌≡◌, ◌≢◌, refl, arith, String, some, List, [], ◌∷◌}
use Prim.Native.String
use text.Mathlib.TextEquality.{eq_iff}
use go_zkvm.Host.Loader.{Loader}
use go_zkvm.Host.Failure.{HostError, error_text}
use go_zkvm.Host.Messages.{FfiErrorResponse}
use go_zkvm.Host.Ffi.{
  Reply, Decoded, decoded, undecodable, value, returned, panicked, decode_ffi_error,
}
use go_zkvm.Host.Ffi.{
  call_json, bytes_ptr, copy_and_free, go_bytes, free_after, host_call_free_buffer,
}
use go_zkvm.Host.Ffi.{free_through, read_response}
use go_zkvm.Host.Library.Errors.{
  IsTold, decode_ffi_error-error_text, IsRead, call_json-value, call_json_long,
}
use go_zkvm.Tests.Prover.{prover_linker, prover, prover_format, one_body}
use go_zkvm.Tests.Proving.{ready}

bad_json : List ℕ → Decoded FfiErrorResponse
bad_json body = undecodable "unexpected end"

failed-ne : ◌≢◌ {A = String} "failed" ""
failed-ne = ground (arith, eq_iff "failed" "")

bad-ne : ◌≢◌ {A = String} "bad JSON" ""
bad-ne = ground (arith, eq_iff "bad JSON" "")

abbrev told : HostError
told = decode_ffi_error prover_format bad_json "prove" (1 ∷ []) 7

decode_ffi_error-error_text_example :
    IsTold "prove" told
    × (error_text (some told)
        ≡ String.◌++◌ "prove"
            (String.◌++◌ " (" (String.◌++◌ told.code (String.◌++◌ "): " told.message))))
decode_ffi_error-error_text_example =
    decode_ffi_error-error_text prover_format bad_json "prove" (λ status. failed-ne) (λ why. bad-ne)
      (1 ∷ []) 7

-- An invoker with a fixed reply.
abbrev replies : Reply → List (List ℕ) → Loader prover_linker → Reply × Loader prover_linker
replies reply held s = (reply, record s { system = held })

abbrev short_reply : Reply
short_reply = record { status = 0; out_ptr = some 4096; out_len = 2 }

abbrev long_reply : Reply
long_reply = record { status = 0; out_ptr = some 4096; out_len = 2 ^ 31 }

abbrev same_bytes : List ℕ → Decoded (List ℕ)
same_bytes body = decoded body

read_back :
    call_json prover prover_format bad_json some same_bytes "verify"
      (λ req n s. replies short_reply (one_body ∷ []) s)
      (9 ∷ [])
      ready
    ≡ returned (value one_body) (record ready { system = [] })
unfolding call_json bytes_ptr copy_and_free go_bytes free_after host_call_free_buffer free_through
    read_response
read_back = refl

call_json-value_example :
    (b : List ℕ) × (some (9 ∷ []) ≡ some b)
    × IsRead prover prover_format bad_json some same_bytes short_reply
        (record ready { system = one_body ∷ [] })
        one_body
        (record ready { system = [] })
call_json-value_example =
    call_json-value prover prover_format bad_json some same_bytes "verify"
      (λ req n s. replies short_reply (one_body ∷ []) s) (9 ∷ []) one_body ready
      (record ready { system = [] }) read_back

call_json_long_example :
    call_json prover prover_format bad_json some same_bytes "prove"
      (λ req n s. replies long_reply (one_body ∷ []) s)
      (9 ∷ [])
      ready
    ≡ panicked
call_json_long_example =
    call_json_long prover prover_format bad_json some same_bytes "prove"
      (λ req n s. replies long_reply (one_body ∷ []) s) (9 ∷ []) (9 ∷ []) long_reply 4096 ready
      (record ready { system = one_body ∷ [] }) refl refl refl (omega arith)
