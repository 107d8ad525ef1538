-- ===== src/Guest/Session.antt =====
-- A whole guest run: any sequence of Read, ReadValue, Write, WriteStderr, Print, Debug, CycleCount, Commit,
-- CommitValue and Verify, then `Halt`. The arguments of a call may depend on what the calls before it
-- returned; the list is what the program came to do. A guest that itself calls the exported functions of
-- the hash (InitProperHasher, UpdateProperHasher, FinalizeProperHasher, SumSHA256) is not among these.
pub mod Refines
use go_zkvm.Base.{
  ℕ, ◌+◌, ◌^◌, ◌<◌, ◌≤◌, ◌≡◌, Bool, true, All, ◌≡◌, refl, sym, ap, ◌∙◌, arith, String, map,
}
use go_zkvm.Base.{List, [], ◌∷◌, ◌++◌, append-nil, append_assoc, length}
use mathlib.Core.Path.{subst}
use go_zkvm.Sha.Accelerator.{Accelerator, IsDigest}
use go_zkvm.Sha.Hash.{sha256_init_state}
use go_zkvm.Sha.Hash.OneShot.{fips_hash}
use go_zkvm.Sha.Tagged.Preimage.{tagged_digest}
use go_zkvm.Journal.{Slice, zero_digest, start, ensure_initialized}
use go_zkvm.Journal.State.{Represents, start-Represents, ensure_idem}
use go_zkvm.Journal.Finalize.{cons_assumption, cons_assumption-IsDigest}
use go_zkvm.Guest.Platform.{Platform, IsLawful}
use go_zkvm.Guest.Monad.{M, Guest, returned, halted, pure, ◌>>=◌, ◌>>◌}
use go_zkvm.Guest.Api
use go_zkvm.Guest.Api.Effects.{IsQuiet, Commits, commit-Commits, commit_value-Commits, halt-eq}
use go_zkvm.Guest.Api.Effects.{
  read-IsQuiet, read_value-IsQuiet, write-IsQuiet, write_stderr-IsQuiet,
}
use go_zkvm.Guest.Api.Effects.{print-IsQuiet, debug-IsQuiet, cycle_count-IsQuiet}
use go_zkvm.Guest.Compose
use go_zkvm.Guest.Compose.Claim.{IsImageId, receipt_claim, verify-eq}

pub data Call : Type 0 where
  read : List ℕ → Call
  read_value : List ℕ → Call
  write : List ℕ → Call
  write_stderr : List ℕ → Call
  print : String → Call
  debug : String → Call
  cycle_count : Call
  commit : Slice → Call
  commit_value : Slice → Call
  verify : List ℕ → List ℕ → Call

-- What Go's types promise of a call, a journal of less than 2^29 bytes, and a value of at most 2^30 bytes.
abbrev pub IsValid : Call → Type 0
IsValid (read buf) = Unit {0}
IsValid (read_value val) = Unit {0}
IsValid (write buf) = Unit {0}
IsValid (write_stderr buf) = Unit {0}
IsValid (print text) = Unit {0}
IsValid (debug text) = Unit {0}
IsValid cycle_count = Unit {0}
IsValid (commit s) = Unit {0}
IsValid (commit_value s) = length s.bytes ≤ 2 ^ 30
IsValid (verify image_id journal) = IsImageId image_id × (length journal < 2 ^ 29)

abbrev pub AllValid : List Call → Type 0
AllValid [] = Unit {0}
AllValid (c ∷ calls) = IsValid c × AllValid calls

-- The bytes that a call commits.
abbrev pub committed : Call → List ℕ
committed (read buf) = []
committed (read_value val) = []
committed (write buf) = []
committed (write_stderr buf) = []
committed (print text) = []
committed (debug text) = []
committed cycle_count = []
committed (commit s) = s.bytes
committed (commit_value s) = s.bytes
committed (verify image_id journal) = []

abbrev pub all_committed : List Call → List ℕ
all_committed [] = []
all_committed (c ∷ calls) = committed c ++ all_committed calls

-- The claims that a call asserts.
abbrev pub asserted : Accelerator → Call → List (List ℕ)
asserted acc (read buf) = []
asserted acc (read_value val) = []
asserted acc (write buf) = []
asserted acc (write_stderr buf) = []
asserted acc (print text) = []
asserted acc (debug text) = []
asserted acc cycle_count = []
asserted acc (commit s) = []
asserted acc (commit_value s) = []
asserted acc (verify image_id journal) = receipt_claim acc image_id journal ∷ []

abbrev pub all_asserted : Accelerator → List Call → List (List ℕ)
all_asserted acc [] = []
all_asserted acc (c ∷ calls) = asserted acc c ++ all_asserted acc calls

-- The assumptions digest after claims are consed on a list, the last one outermost.
abbrev pub assume_all : Accelerator → List ℕ → List (List ℕ) → List ℕ
assume_all acc list [] = list
assume_all acc list (c ∷ claims) = assume_all acc (cons_assumption acc c zero_digest list) claims

-- The claims as `sys_verify_integrity` is told of them, each with the zero control root.
abbrev pub registrations : List (List ℕ) → List (List ℕ × List ℕ)
registrations [] = []
registrations (c ∷ claims) = (c, zero_digest) ∷ registrations claims

-- A registry holds a receipt for each of the claims, with the zero control root.
abbrev pub AllSupplied : (List ℕ → List ℕ → Bool) → List (List ℕ) → Type 0
AllSupplied receipts claims = All (λ c. receipts c zero_digest ≡ true) claims

module _ (P : Platform) where
  pub perform : Call → M P.Host (Unit {0})
  perform (read buf) = Api.read P buf >>= λ _. pure tt
  perform (read_value val) = Api.read_value P val >>= λ _. pure tt
  perform (write buf) = Api.write P buf
  perform (write_stderr buf) = Api.write_stderr P buf
  perform (print text) = Api.print P text
  perform (debug text) = Api.debug P text
  perform cycle_count = Api.cycle_count P >>= λ _. pure tt
  perform (commit s) = Api.commit P s
  perform (commit_value s) = Api.commit_value P s
  perform (verify image_id journal) = Compose.verify P image_id journal

  pub run : List Call → M P.Host (Unit {0})
  run [] = pure tt
  run (c ∷ calls) = perform c >> run calls

  -- A guest that makes the calls and halts.
  pub guest_main : List Call → ℕ → M P.Host (Unit {0})
  guest_main calls exit_code = run calls >> Api.halt P exit_code
