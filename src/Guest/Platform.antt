-- ===== src/Guest/Platform.antt =====
-- The syscalls of libzkvm_platform.a, which the Go code only calls, and what is relied on.
use go_zkvm.Base.{ℕ, ◌≤◌, ◌≡◌, List, [], ◌∷◌, ◌++◌, length, take, drop, ◌==◌, if◌then◌else◌}
use go_zkvm.Base.{Bool, true, false, Option, none, some}
use go_zkvm.Sha.Accelerator.{Accelerator}
use go_zkvm.Sha.Accelerator

pub record Platform : Type 1 where
  -- The rest of the machine: the host's streams, the assumptions that it was told of, the cycles.
  pub Host : Type 0
  -- `sys_read(fd, buf, len)`: the buffer before, and the buffer after.
  pub sys_read : Host → ℕ → List ℕ → List ℕ × Host
  -- `sys_write(fd, buf, len)`
  pub sys_write : Host → ℕ → List ℕ → Host
  -- `sys_verify_integrity(claim_digest, control_root)`: none when the host stops the run.
  pub sys_verify_integrity : Host → List ℕ → List ℕ → Option Host
  pub sys_cycle_count : Host → ℕ × Host
  pub sha : Accelerator

-- The documented behaviour (docs/ecall-reference.md, docs/journal-digest.md): descriptor 0 is the
-- private input, descriptor 3 the public journal, and `sys_verify_integrity` adds an assumption. A run
-- has a registry of receipts; a claim without a matching receipt stops the run at once
-- (docs/tutorial.md, "Register the assumption").
pub record IsLawful (P : Platform) : Type 0 where
  pub stdin : P.Host → List ℕ
  pub journal : P.Host → List ℕ
  pub registered : P.Host → List (List ℕ × List ℕ)
  pub receipts : P.Host → List ℕ → List ℕ → Bool
  pub sha-IsLawful : Accelerator.IsLawful P.sha
  pub journal-write :
      (h : P.Host) (fd : ℕ) (bytes : List ℕ)
      → journal (P.sys_write h fd bytes) ≡ (if fd == 3 then journal h ++ bytes else journal h)
  pub journal-read : (h : P.Host) (fd : ℕ) (b : List ℕ) → journal (P.sys_read h fd b).1 ≡ journal h
  pub journal-cycle : (h : P.Host) → journal (P.sys_cycle_count h).1 ≡ journal h
  pub registered-write :
      (h : P.Host) (fd : ℕ) (bytes : List ℕ) → registered (P.sys_write h fd bytes) ≡ registered h
  pub registered-read :
      (h : P.Host) (fd : ℕ) (b : List ℕ) → registered (P.sys_read h fd b).1 ≡ registered h
  pub registered-cycle : (h : P.Host) → registered (P.sys_cycle_count h).1 ≡ registered h
  pub receipts-write :
      (h : P.Host) (fd : ℕ) (bytes : List ℕ) → receipts (P.sys_write h fd bytes) ≡ receipts h
  pub receipts-read :
      (h : P.Host) (fd : ℕ) (b : List ℕ) → receipts (P.sys_read h fd b).1 ≡ receipts h
  pub receipts-cycle : (h : P.Host) → receipts (P.sys_cycle_count h).1 ≡ receipts h
  pub verify-supplied :
      (h : P.Host) (c r : List ℕ)
      → receipts h c r ≡ true
      → (h' : P.Host) × (P.sys_verify_integrity h c r ≡ some h')
        × (journal h' ≡ journal h)
        × (registered h' ≡ registered h ++ ((c, r) ∷ []))
        × (receipts h' ≡ receipts h)
  pub verify-missing :
      (h : P.Host) (c r : List ℕ) → receipts h c r ≡ false → P.sys_verify_integrity h c r ≡ none
  pub read-stdin :
      (h : P.Host) (b : List ℕ)
      → length b ≤ length (stdin h)
      → ((P.sys_read h 0 b).0 ≡ take (length b) (stdin h))
        × (stdin (P.sys_read h 0 b).1 ≡ drop (length b) (stdin h))
  pub stdin-write :
      (h : P.Host) (fd : ℕ) (bytes : List ℕ) → stdin (P.sys_write h fd bytes) ≡ stdin h
