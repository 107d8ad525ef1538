-- ===== src/Guest/Api.antt =====
-- zkvm/zkvm.go
pub mod Effects
use go_zkvm.Base.{
  ℕ, String, List, length, ltb, leb, ◌^◌, Option, none, some, if◌then◌else◌, replicate,
}
use go_zkvm.Base.Bytes.{utf8}
use go_zkvm.Journal.{Slice, update_proper_hasher, finalize_proper_hasher}
use go_zkvm.Guest.Platform.{Platform}
use go_zkvm.Guest.Monad.{M, Guest, Outcome, halted, pure, then_run, ◌>>=◌, ◌>>◌, lift}
use go_zkvm.Guest.Monad.{get_globals, put_globals, syscall, syscall_with}

abbrev pub fd_stdin : ℕ
fd_stdin = 0

abbrev pub fd_stdout : ℕ
fd_stdout = 1

abbrev pub fd_stderr : ℕ
fd_stderr = 2

abbrev pub fd_journal : ℕ
fd_journal = 3

module _ (P : Platform) where
  -- `Read`: the slice before, and the slice after.
  pub read : List ℕ → M P.Host (List ℕ)
  read buf = if ltb 0 (length buf) then syscall_with (λ h. P.sys_read h fd_stdin buf) else pure buf

  -- `ReadValue`: the bytes of the value in memory, before and after.
  pub read_value : List ℕ → M P.Host (List ℕ)
  read_value val = syscall_with (λ h. P.sys_read h fd_stdin val)

  pub write : List ℕ → M P.Host (Unit {0})
  write buf = if ltb 0 (length buf) then syscall (λ h. P.sys_write h fd_stdout buf) else pure tt

  pub write_stderr : List ℕ → M P.Host (Unit {0})
  write_stderr buf =
      if ltb 0 (length buf) then syscall (λ h. P.sys_write h fd_stderr buf) else pure tt

  -- `UpdateProperHasher` on the package variables.
  update_hasher : Slice → M P.Host (Unit {0})
  update_hasher s = do v ← get_globals; put_globals (update_proper_hasher P.sha v s)

  -- The body of `Commit` under its guard.
  commit_bytes : Slice → M P.Host (Unit {0})
  unfolding update_hasher
  commit_bytes s = do syscall (λ h. P.sys_write h fd_journal s.bytes); update_hasher s

  pub commit : Slice → M P.Host (Unit {0})
  unfolding commit_bytes
  commit s = if ltb 0 (length s.bytes) then commit_bytes s else pure tt

  -- `CommitValue`: the bytes of the value in memory, with its address. They are sliced out of an array of
  -- 2^30 bytes, which panics for a larger value.
  pub commit_value : Slice → M P.Host (Unit {0})
  unfolding update_hasher
  commit_value s = do
    syscall (λ h. P.sys_write h fd_journal s.bytes)
    bytes ← lift (if leb (length s.bytes) (2 ^ 30) then some s else none)
    update_hasher bytes

  pub halt : {A : Type 0} → ℕ → M P.Host A
  halt exit_code = do
    v ← get_globals
    (digest, v') ← lift (finalize_proper_hasher P.sha v)
    put_globals v'
    λ g. halted exit_code digest g

  pub cycle_count : M P.Host ℕ
  cycle_count = syscall_with P.sys_cycle_count

  pub print : String → M P.Host (Unit {0})
  print s = write (utf8 s)

  pub debug : String → M P.Host (Unit {0})
  debug s = write_stderr (utf8 s)
