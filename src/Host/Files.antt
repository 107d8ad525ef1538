-- ===== src/Host/Files.antt =====
-- host/types.go: `Close`, and the wrappers that read a guest from a file and make a client for one call.
pub mod Runs
use go_zkvm.Base.{String, List, [], Option, none, some}
use go_zkvm.Host.Loader.{Linker, Loader}
use go_zkvm.Host.Messages.{ExecuteRequest, ExecuteResult, ProveRequest, ProveResult}
use go_zkvm.Host.Failure
use go_zkvm.Host.Failure.{Failure, empty_library_path, load}
use go_zkvm.Host.Options.{RunOption}
use go_zkvm.Host.Ffi.{Foreign, Decoded, Run, returned, value, failure, M, ◌>>=◌, pure, or_fail_with}
use go_zkvm.Host.Client.{Environment, Client, Created, created, empty_path, load_error, new_client}
use go_zkvm.Host.Calls.{Codec, compute_image_id, execute, prove}
use go_zkvm.Host.Loader.{LoadError}
use go_zkvm.Base.{ℕ}

-- `Close`, which has nothing to release: no error, and no change.
unfoldable pub close : {St : Type 0} → Client → M St (Unit {0})
close c s = returned (value tt) s

-- The two results of `New`, as a step of a caller.
abbrev pub created_run : {St : Type 0} → Created LoadError × St → Run St Client
created_run (created c, s) = returned (value c) s
created_run (empty_path, s) = returned (failure empty_library_path) s
created_run (load_error e, s) = returned (failure (load e)) s

module _ {L : Linker} (F : Foreign L) (C : Codec) (E : Environment)
    (disk : String → Decoded (List ℕ)) where
  -- `ReadGuestFile`: `os.ReadFile` gives the bytes or an error.
  unfoldable pub read_guest_file : String → M (Loader L) (List ℕ)
  read_guest_file path = or_fail_with (disk path) Failure.read_file

  unfoldable pub new : M (Loader L) Client
  new s = created_run (new_client E [] s)

  -- The calls that the three wrappers share; the deferred `Close` runs last and its error is dropped.
  unfoldable pub with_client :
      {A : Type 0} → String → (Client → List ℕ → M (Loader L) A) → M (Loader L) A
  unfolding read_guest_file new
  with_client path call = do guest ← read_guest_file path; client ← new; call client guest

  unfoldable pub compute_image_id_file : String → M (Loader L) String
  unfolding with_client
  compute_image_id_file path = with_client path (compute_image_id F C)

  unfoldable pub execute_file :
      String → List ℕ → List (RunOption F.Logger) → M (Loader L) ExecuteResult
  unfolding with_client
  execute_file path stdin opts = with_client path λ client guest.
      execute F C client (record { guest_binary = guest; stdin = stdin; assumptions = [] }) opts

  unfoldable pub prove_file : String → List ℕ → List (RunOption F.Logger) → M (Loader L) ProveResult
  unfolding with_client
  prove_file path stdin opts = with_client path λ client guest.
      prove F C client (record { guest_binary = guest; stdin = stdin; assumptions = [] }) opts
