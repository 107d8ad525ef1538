-- ===== src/Tests/Prover.antt =====
-- A Rust library for the tests. It holds the bodies that it handed out, the last one first. A run of the
-- guest commits the first hundred bytes of its input, and the request for an image ID is refused.
use go_zkvm.Base.{ℕ, String, true}
use go_zkvm.Base.{Option, none, some, List, [], ◌∷◌, length, map, take, drop, if◌then◌else◌}
use go_zkvm.Host.Loader.{Linker, same_text}
use go_zkvm.Host.Messages.{ExecuteResult, ProveResult, VerifyResult, FfiErrorResponse}
use go_zkvm.Host.Ffi.{Foreign, Format, Reply, decoded}
use go_zkvm.Host.Calls.{Codec}
use go_zkvm.Host.Library.{Service, accepted, refused}
use go_zkvm.Tests.Coding.{read_text, to_text, of_text}

abbrev pub Held : Type 0
Held = List (List ℕ)

abbrev pub prover_linker : Linker
prover_linker = record {
  System = Held;
  Handle = String;
  Pointer = String;
  dlopen = λ held path. (some path, held);
  dlsym = λ held library name. (some name, held);
  dlerror = λ held. (some "undefined symbol", held);
  call_version = λ held f. (2, held);
}

abbrev pub one_body : List ℕ
one_body = 123 ∷ 125 ∷ []

-- A run's response is the request itself, cut off.
abbrev pub body_of : String → Option (List ℕ) → List ℕ
body_of f none = []
body_of f (some req) = if same_text f "go_zkvm_execute" then take 101 req else one_body

abbrev pub prover_reply : String → List ℕ → Reply
prover_reply f body = record {
  status = if same_text f "go_zkvm_compute_image_id" then 1 else 0;
  out_ptr = some 4096;
  out_len = length body;
}

abbrev pub first_bytes : Held → List ℕ
first_bytes [] = []
first_bytes (body ∷ held) = body

abbrev pub without_first : Held → Held
without_first [] = []
without_first (body ∷ held) = held

abbrev pub prover : Foreign prover_linker
prover = record {
  Logger = Unit {0};
  call_op = λ held f req n. (prover_reply f (body_of f req), body_of f req ∷ held);
  call_free = λ held f ptr n. without_first held;
  read_bytes = λ held ptr n. first_bytes held;
  info = λ held logger op m n. held;
}

abbrev pub executed : List ℕ → ExecuteResult
executed stdin = record {
  image_id = "aa";
  journal = take 100 stdin;
  exit_code = "Halted(0)";
  segment_count = 1;
  session_rows = 65536;
}

abbrev pub proved : ProveResult
proved = record {
  image_id = "aa";
  journal = 7 ∷ 8 ∷ [];
  receipt = 1 ∷ 2 ∷ 3 ∷ [];
  receipt_encoding = "bincode";
  receipt_kind = "composite";
  prover_name = "local";
  seal_bytes = 3;
}

abbrev pub verified : VerifyResult
verified = record {
  verified = true;
  journal = 7 ∷ 8 ∷ [];
  receipt_encoding = "bincode";
  receipt_kind = "composite";
  seal_bytes = 3;
}

abbrev pub no_image : FfiErrorResponse
no_image = record { code = "invalid_guest"; message = "" }

abbrev pub prover_service : Service
prover_service = record {
  compute_image_id = λ guest. refused no_image;
  execute = λ guest stdin assumptions. accepted (executed stdin);
  prove = λ guest stdin assumptions self_verify kind. accepted proved;
  verify = λ receipt id expected. accepted verified;
}

abbrev pub prover_format : Format
prover_format = record { status_text = λ status. "failed"; decode_text = λ why. "bad JSON" }

abbrev pub prover_codec : Codec
prover_codec = record {
  encode_base64 = to_text;
  decode_base64 = of_text;
  marshal_compute_image_id = λ req. some one_body;
  unmarshal_compute_image_id = λ body. decoded (record { image_id = "aa" });
  marshal_execute = λ req. some (1 ∷ read_text 0 req.stdin_base64);
  unmarshal_execute = λ body. decoded (record {
    image_id = "aa";
    journal_base64 = to_text (drop 1 body);
    exit_code = "Halted(0)";
    segment_count = 1;
    session_rows = 65536;
  });
  marshal_prove = λ req. some one_body;
  unmarshal_prove = λ body. decoded (record {
    image_id = proved.image_id;
    journal_base64 = to_text proved.journal;
    receipt_base64 = to_text proved.receipt;
    receipt_encoding = proved.receipt_encoding;
    receipt_kind = proved.receipt_kind;
    prover_name = proved.prover_name;
    seal_bytes = proved.seal_bytes;
  });
  marshal_verify = λ req. some one_body;
  unmarshal_verify = λ body. decoded (record {
    verified = verified.verified;
    journal_base64 = to_text verified.journal;
    receipt_encoding = verified.receipt_encoding;
    receipt_kind = verified.receipt_kind;
    seal_bytes = verified.seal_bytes;
  });
  unmarshal_error = λ body. decoded no_image;
  format = prover_format;
}

abbrev pub held_buffers : Held → List (ℕ × ℕ)
held_buffers held = map (λ body. (4096, length body)) held
