-- ===== src/Examples/Policy.antt =====
-- examples/policy_check/main.go
pub mod Items
pub mod Run
pub mod Verdict
use go_zkvm.Base.{ℕ, zero, suc, ◌+◌, ◌-◌, ◌%◌, ◌^◌, ◌||◌, ◌==◌, ltb, leb, if◌then◌else◌, replicate}
use go_zkvm.Base.Bytes.{le_bytes, le_number}
use go_zkvm.Guest.Platform.{Platform}
use go_zkvm.Guest.Monad.{M, pure, ◌>>=◌, ◌>>◌}
use go_zkvm.Guest.Api.{read_value, commit_value, halt}
use go_zkvm.Examples.Common.{reject_if}

abbrev pub max_policy_items : ℕ
max_policy_items = 16

module _ (P : Platform) where
  -- The loop over the items, with `n` rounds left.
  pub sum_items : ℕ → ℕ → M P.Host ℕ
  sum_items zero subtotal = pure subtotal
  sum_items (suc n) subtotal = do
    b ← read_value P (replicate 8 0)
    let item = le_number b
    reject_if P (item == 0) "Error: item value must be non-zero\n"
    let next_subtotal = (subtotal + item) % 2 ^ 64
    reject_if P (ltb next_subtotal subtotal) "Error: subtotal overflow\n"
    sum_items n next_subtotal

-- `addr` gives the addresses of the six published variables.
module _ (P : Platform) (addr : ℕ → ℕ) where
  -- The public summary, and the end.
  pub publish_summary : ℕ → ℕ → ℕ → ℕ → M P.Host (Unit {0})
  publish_summary item_count subtotal discount limit = do
    let total = subtotal - discount
    let approved = if leb total limit then 1 else 0
    commit_value P (record { addr = addr 0; bytes = le_bytes 4 item_count })
    commit_value P (record { addr = addr 1; bytes = le_bytes 4 approved })
    commit_value P (record { addr = addr 2; bytes = le_bytes 8 subtotal })
    commit_value P (record { addr = addr 3; bytes = le_bytes 8 discount })
    commit_value P (record { addr = addr 4; bytes = le_bytes 8 total })
    commit_value P (record { addr = addr 5; bytes = le_bytes 8 limit })
    halt P 0

  -- From the check of the discount on. The subtraction does not wrap behind it.
  pub settle : ℕ → ℕ → ℕ → ℕ → M P.Host (Unit {0})
  settle item_count subtotal discount limit = do
    reject_if P (ltb subtotal discount) "Error: discount exceeds subtotal\n"
    publish_summary item_count subtotal discount limit

  -- The two reads behind the loop.
  pub read_terms : ℕ → ℕ → M P.Host (Unit {0})
  read_terms item_count subtotal = do
    d ← read_value P (replicate 8 0)
    l ← read_value P (replicate 8 0)
    settle item_count subtotal (le_number d) (le_number l)

  pub check_items : ℕ → M P.Host (Unit {0})
  check_items item_count = do subtotal ← sum_items P item_count 0; read_terms item_count subtotal

  pub policy : ℕ → M P.Host (Unit {0})
  policy item_count = do
    reject_if P (item_count == 0 || ltb max_policy_items item_count) "Error: invalid item count\n"
    check_items item_count

  pub policy_main : M P.Host (Unit {0})
  policy_main = do c ← read_value P (replicate 4 0); policy (le_number c)
