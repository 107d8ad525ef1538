-- ===== src/Host/Failure.antt =====
-- The errors of the package host: `HostError` of host/types.go, and the errors that fmt.Errorf builds.
use go_zkvm.Base.{String, Option, none, some, if◌then◌else◌}
use Prim.Native.String
use go_zkvm.Host.Loader.{LoadError, same_text}

-- `HostError`
pub record HostError : Type 0 where
  pub op : String
  pub code : String
  pub message : String

-- `Error`, on a pointer that may be nil.
unfoldable pub error_text : Option HostError → String
error_text none = ""
error_text (some e) =
    if same_text e.code ""
    then String.◌++◌ e.op (String.◌++◌ ": " e.message)
    else String.◌++◌ e.op (String.◌++◌ " (" (String.◌++◌ e.code (String.◌++◌ "): " e.message)))

pub data Failure : Type 0 where
  host_error : HostError → Failure
  -- "marshal %s request"
  marshal_request : String → Failure
  -- "%s returned an empty response"
  empty_response : String → Failure
  -- "decode %s response", and what the decoder says
  decode_response : String → String → Failure
  -- "unsupported prove receipt kind %q"
  unsupported_receipt_kind : String → Failure
  -- "decode %s journal" and "decode %s receipt"
  decode_journal : String → Failure
  decode_receipt : String → Failure
  -- what `os.ReadFile` says
  read_file : String → Failure
  -- "library path must not be empty"
  empty_library_path : Failure
  load : LoadError → Failure
