-- ===== src/Tests/Guests.antt =====
-- Guests on the small machine.
use go_zkvm.Base.{ℕ, ◌+◌, ◌-◌, ◌*◌, ◌^◌, ◌≡◌, refl, sym, arith, List, [], ◌∷◌, ◌++◌, replicate}
use mathlib.Core.Path.{subst}
use go_zkvm.Base.Bytes.{le_bytes}
use go_zkvm.Sha.Accelerator.{IsDigest}
use go_zkvm.Journal.{start, zero_digest, ensure_initialized}
use go_zkvm.Journal.State.{start-Represents}
use go_zkvm.Guest.Monad.{Guest, returned, halted, aborted}
use go_zkvm.Guest.Compose
use go_zkvm.Guest.Compose.Claim.{IsImageId, receipt_claim, concluded, verify-eq}
use go_zkvm.Guest.Session.{Call, read, print, cycle_count, commit, commit_value, verify, AllValid}
use go_zkvm.Guest.Session.{AllSupplied, all_committed, all_asserted, registrations, run, guest_main}
use go_zkvm.Guest.Session.Refines.{run_digest, boot, guest_main-halts, run-Extends, Extends}
use go_zkvm.Examples.Common.{Halts}
use go_zkvm.Examples.Simple.{simple_main, simple_main-Halts}
use go_zkvm.Examples.Multiply.{multiply_main}
use go_zkvm.Examples.Multiply.Run.{multiply_main-accepts, multiply_main-rejects}
use go_zkvm.Examples.Policy.{policy_main}
use go_zkvm.Examples.Policy.Run.{input_bytes, summary}
use go_zkvm.Examples.Policy.Verdict.{IsPurchase, policy_main-accepts, policy_main-rejects}
use go_zkvm.Tests.Machine.{proves_first, proves_later, machine, machine-IsLawful, World, world}

abbrev image_id : List ℕ
image_id = replicate 32 0xa5

abbrev session : List Call
session =
    read (0 ∷ 0 ∷ [])
    ∷ commit (record { addr = 1000; bytes = 1 ∷ 2 ∷ 3 ∷ [] })
    ∷ verify image_id (4 ∷ 5 ∷ [])
    ∷ print "one assumption\n"
    ∷ commit_value (record { addr = 2001; bytes = replicate 70 9 })
    ∷ verify image_id []
    ∷ cycle_count
    ∷ []

-- A machine whose host has a receipt of the guest for each of the journals.
abbrev proven_world : List ℕ → World
proven_world input = record (world input) {
  proven =
      (receipt_claim machine.sha image_id (4 ∷ 5 ∷ []), zero_digest)
      ∷ (receipt_claim machine.sha image_id [], zero_digest)
      ∷ [];
}

image_id-IsImageId : IsImageId image_id
image_id-IsImageId = omega arith

session-AllValid : AllValid session
session-AllValid = (
  tt,
  (
    tt,
    (
      (image_id-IsImageId, omega arith),
      (tt, (omega arith, ((image_id-IsImageId, omega arith), (tt, tt)))),
    ),
  ),
)

session-AllSupplied :
    (input : List ℕ)
    → AllSupplied
        (machine-IsLawful.receipts (proven_world input))
        (all_asserted machine.sha session)
session-AllSupplied input = (
  proves_first (receipt_claim machine.sha image_id (4 ∷ 5 ∷ [])) zero_digest
      ((receipt_claim machine.sha image_id [], zero_digest) ∷ []),
  (
    proves_later (receipt_claim machine.sha image_id (4 ∷ 5 ∷ []), zero_digest)
        (receipt_claim machine.sha image_id []) zero_digest
        ((receipt_claim machine.sha image_id [], zero_digest) ∷ [])
        (proves_first (receipt_claim machine.sha image_id []) zero_digest []),
    tt,
  ),
)

guest_main-halts_example :
    (g : Guest World) × (guest_main machine session 0
        (boot machine machine-IsLawful (proven_world (7 ∷ 8 ∷ [])))
      ≡ halted 0 (run_digest machine machine-IsLawful session) g)
    × (g.host.public_output ≡ [] ++ all_committed session)
    × (g.host.assumed ≡ [] ++ registrations (all_asserted machine.sha session))
guest_main-halts_example =
    guest_main-halts machine machine-IsLawful session 0 (proven_world (7 ∷ 8 ∷ [])) session-AllValid
      (omega arith) (session-AllSupplied (7 ∷ 8 ∷ []))

run-Extends_example :
    (g : Guest World) × (run machine session (boot machine machine-IsLawful (proven_world []))
      ≡ returned tt g)
    × Extends machine machine-IsLawful [] zero_digest
        (all_committed session)
        (all_asserted machine.sha session)
        (boot machine machine-IsLawful (proven_world []))
        g
run-Extends_example =
    run-Extends machine machine-IsLawful session (boot machine machine-IsLawful (proven_world []))
      [] zero_digest session-AllValid (session-AllSupplied []) (start-Represents machine.sha)
      (omega arith)

start_list : IsDigest (ensure_initialized start).assumptions
start_list = subst IsDigest (sym (start-Represents machine.sha).list) (omega arith)

verify-eq_example :
    let claim = receipt_claim machine.sha image_id (4 ∷ 5 ∷ []) in
    let g : Guest World = record { globals = start; host = proven_world [] } in
    Compose.verify machine image_id (4 ∷ 5 ∷ []) g
    ≡ concluded machine machine-IsLawful claim g
        (machine.sys_verify_integrity (proven_world []) claim zero_digest)
verify-eq_example =
    verify-eq machine machine-IsLawful (record { globals = start; host = proven_world [] }) image_id
      (4 ∷ 5 ∷ []) image_id-IsImageId (omega arith) start_list

-- A host without receipts stops the run.
unproven :
    Compose.verify machine image_id (4 ∷ 5 ∷ []) (record { globals = start; host = world [] })
    ≡ aborted (record { globals = ensure_initialized start; host = world [] })
unproven =
    verify-eq machine machine-IsLawful (record { globals = start; host = world [] }) image_id
      (4 ∷ 5 ∷ []) image_id-IsImageId (omega arith) start_list

simple_run :
    Halts machine machine-IsLawful
      (world [])
      0
      []
      (simple_main machine (record { globals = start; host = world [] }))
simple_run = simple_main-Halts machine machine-IsLawful (world [])

abbrev two_factors : ℕ → ℕ → World
two_factors a b = world (le_bytes 8 a ++ (le_bytes 8 b ++ []))

multiply_main-accepts_example :
    Halts machine machine-IsLawful
      (two_factors 17 23)
      0
      (le_bytes 8 (17 * 23))
      (multiply_main machine 1000 (record { globals = start; host = two_factors 17 23 }))
multiply_main-accepts_example =
    multiply_main-accepts machine machine-IsLawful 1000 (two_factors 17 23) 17 23 [] (omega arith)
      (omega arith) refl (omega arith) (omega arith) (omega arith)

-- The product of these two wraps.
multiply_main-rejects_example :
    Halts machine machine-IsLawful (two_factors (2 ^ 40) (2 ^ 41)) 1 [] (
      multiply_main machine 1000 (record { globals = start; host = two_factors (2 ^ 40) (2 ^ 41) }))
multiply_main-rejects_example =
    multiply_main-rejects machine machine-IsLawful 1000 (two_factors (2 ^ 40) (2 ^ 41)) (2 ^ 40)
      (2 ^ 41) [] (omega arith) (omega arith) refl (omega arith)

abbrev prices : List ℕ
prices = 120 ∷ 80 ∷ 35 ∷ []

abbrev purchase : List ℕ → ℕ → ℕ → World
purchase items discount limit = world (input_bytes items discount limit [])

abbrev addresses : ℕ → ℕ
addresses n = 1000 + 8 * n

policy_main-accepts_example :
    Halts machine machine-IsLawful
      (purchase prices 35 200)
      0
      (summary 3 235 35 200)
      (policy_main machine addresses (record { globals = start; host = purchase prices 35 200 }))
policy_main-accepts_example =
    policy_main-accepts machine machine-IsLawful addresses (purchase prices 35 200) prices 35 200 []
      (omega arith) (omega arith) (omega arith) refl (omega arith)

-- The sum of these items wraps.
policy_main-rejects_example :
    Halts machine machine-IsLawful (purchase (7 ∷ (2 ^ 64 - 1) ∷ []) 1 9) 1 [] (
      policy_main machine addresses
        (record { globals = start; host = purchase (7 ∷ (2 ^ 64 - 1) ∷ []) 1 9 }))
policy_main-rejects_example =
    policy_main-rejects machine machine-IsLawful addresses (purchase (7 ∷ (2 ^ 64 - 1) ∷ []) 1 9)
      (7 ∷ (2 ^ 64 - 1) ∷ []) 1 9 [] (omega arith) (omega arith) (omega arith) (omega arith) refl
      too_much
  where
    too_much : ¬ IsPurchase (7 ∷ (2 ^ 64 - 1) ∷ []) 1
    too_much (some_items, few, (positive, small), low) = omega arith
