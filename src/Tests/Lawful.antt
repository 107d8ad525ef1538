-- ===== src/Tests/Lawful.antt =====
-- The library of the tests and its codec satisfy their laws.
use go_zkvm.Base.{◌∙◌, ℕ, ◌^◌, ◌<◌, ◌≡◌, refl, sym, ap, ◌∙◌, arith, String}
use go_zkvm.Base.{Bool-cases, inl, inr, Option, some, List, [], ◌∷◌, length, length-take, take}
use mathlib.Core.Path.{subst}
use mathlib.Core.Option.{some-ne-none, some-injective}
use go_zkvm.Host.Loader.{same_text}
use go_zkvm.Host.Messages.{ExecuteJsonRequest}
use go_zkvm.Host.Library.{
  accepted, refused, Fits, IsCodec, IsLibrary, Delivers, Answers, wire_image_id, wire_execute,
}
use go_zkvm.Host.Library.{wire_prove, wire_verify}
use go_zkvm.Host.Library.Ready.{IsLinker, IsComplete}
use go_zkvm.Tests.Coding.{to_text, read_text, of_text, of_text-to_text}
use go_zkvm.Tests.Prover.{
  Held, prover_linker, one_body, body_of, prover_reply, without_first, prover, executed, proved,
  verified, no_image, prover_service, prover_codec, held_buffers,
}

pub prover_codec-IsCodec : IsCodec prover_codec
prover_codec-IsCodec = record {
  base64_lem = of_text-to_text;
  marshal_compute_image_id_lem = λ req. (one_body, refl, omega arith);
  marshal_execute_lem = λ req. (1 ∷ read_text 0 req.stdin_base64, refl, omega arith);
  marshal_prove_lem = λ req. (one_body, refl, omega arith);
  marshal_verify_lem = λ req. (one_body, refl, omega arith);
}

tail_of : List (ℕ × ℕ) → List (ℕ × ℕ)
tail_of [] = []
tail_of (b ∷ bs) = bs

pub free_first :
    (held : Held) (b : ℕ × ℕ) (rest : List (ℕ × ℕ))
    → held_buffers held ≡ b ∷ rest
    → held_buffers (without_first held) ≡ rest
unfolding tail_of
free_first [] b rest e = absurd (cc e)
free_first (body ∷ held) b rest e = ap tail_of e

-- A body that was handed over.
pub handed :
    (held : Held) (f : String) (req : List ℕ)
    → 0 < length (body_of f (some req))
    → Delivers prover held_buffers
        (prover_reply f (body_of f (some req)))
        held
        (body_of f (some req) ∷ held)
        (body_of f (some req))
handed held f req some_bytes = (4096, refl, refl, some_bytes, refl, refl)

-- The decoded input of a run.
stdin_of : (text : String) (stdin : List ℕ) → text ≡ to_text stdin → read_text 0 text ≡ stdin
unfolding of_text
stdin_of text stdin e = ap (read_text 0) e ∙ some-injective _ _ (of_text-to_text stdin)

pub execute_at :
    (held : Held) (j : ExecuteJsonRequest) (b stdin : List ℕ)
    → some (1 ∷ read_text 0 j.stdin_base64) ≡ some b
    → j.stdin_base64 ≡ to_text stdin
    → Answers prover held_buffers prover_codec.unmarshal_error prover_codec.unmarshal_execute
        (wire_execute prover_codec)
        (accepted (executed stdin))
        (prover.call_op held "go_zkvm_execute" (some b) (length b))
        held
unfolding same_text
execute_at held j b stdin e es =
    subst
      (λ r.
        Answers prover held_buffers prover_codec.unmarshal_error prover_codec.unmarshal_execute
          (wire_execute prover_codec) (accepted (executed stdin))
          (prover.call_op held "go_zkvm_execute" (some r) (length r)) held)
      (ap (λ t. 1 ∷ t) (sym (stdin_of j.stdin_base64 stdin es)) ∙ some-injective _ _ e)
      (refl, (1 ∷ take 100 stdin, refl, handed held "go_zkvm_execute" (1 ∷ stdin) (omega arith)))

unfoldable pub prover-IsLibrary : IsLibrary prover_linker prover prover_codec prover_service
unfolding same_text
prover-IsLibrary = record {
  name_of = λ f. f;
  buffers = held_buffers;
  free_lem = λ held f ptr n rest e live. free_first held (ptr, n) rest live;
  info_lem = λ held logger op m n. refl;
  compute_image_id_lem = λ held f j b guest e em ev eg.
      subst
        (λ f.
          Answers prover held_buffers prover_codec.unmarshal_error
            prover_codec.unmarshal_compute_image_id (wire_image_id prover_codec) (refused no_image)
            (prover.call_op held f (some b) (length b)) held)
        (sym e)
        (omega arith, (one_body, refl, handed held "go_zkvm_compute_image_id" b (omega arith)));
  execute_lem = λ held f j b guest stdin assumptions e em ev eg es ea.
      subst
        (λ f.
          Answers prover held_buffers prover_codec.unmarshal_error prover_codec.unmarshal_execute
            (wire_execute prover_codec) (accepted (executed stdin))
            (prover.call_op held f (some b) (length b)) held)
        (sym e) (execute_at held j b stdin em es);
  prove_lem = λ held f j b guest stdin assumptions e em ev eg es ea ek.
      subst
        (λ f.
          Answers prover held_buffers prover_codec.unmarshal_error prover_codec.unmarshal_prove
            (wire_prove prover_codec) (accepted proved) (prover.call_op held f (some b) (length b))
            held)
        (sym e) (refl, (one_body, refl, handed held "go_zkvm_prove" b (omega arith)));
  verify_lem = λ held f j b receipt expected e em ev er ej.
      subst
        (λ f.
          Answers prover held_buffers prover_codec.unmarshal_error prover_codec.unmarshal_verify
            (wire_verify prover_codec) (accepted verified)
            (prover.call_op held f (some b) (length b)) held)
        (sym e) (refl, (one_body, refl, handed held "go_zkvm_verify" b (omega arith)));
}

pub prover-IsLinker : IsLinker prover_linker prover-IsLibrary.name_of
unfolding prover-IsLibrary
prover-IsLinker = record {
  dlopen-dlerror = λ held path e silent. some-ne-none _ silent;
  dlsym-name = λ held h name f e. sym (some-injective _ _ e);
}

pub prover-IsComplete : (path : String) → IsComplete prover_linker path
prover-IsComplete path held h e t = (refl, (refl, (refl, (refl, (refl, (refl, tt))))))

-- No response of this library is longer than 101 bytes.
body_of-small : (f : String) (req : List ℕ) → length (body_of f (some req)) < 2 ^ 31
body_of-small f req = elim (Bool-cases (same_text f "go_zkvm_execute")) [
  | inl run ↦ rw run (omega (arith, length-take 101 req))
  | inr other ↦ rw other (omega arith)
]

pub prover-Fits :
    {Req : Type 0} (name : String) (marshal : Req → Option (List ℕ)) (j : Req)
    → Fits prover prover-IsLibrary.name_of name marshal j
prover-Fits name marshal j held f b named e = body_of-small f b
