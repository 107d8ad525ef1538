-- ===== src/Examples/Multiply.antt =====
-- examples/multiply/main.go
pub mod Run
use go_zkvm.Base.{ℕ, ◌*◌, ◌/◌, ◌%◌, ◌^◌, ◌||◌, not, ◌==◌, replicate}
use go_zkvm.Base.Bytes.{le_bytes, le_number}
use go_zkvm.Guest.Platform.{Platform}
use go_zkvm.Guest.Monad.{M, ◌>>=◌, ◌>>◌}
use go_zkvm.Guest.Api.{read_value, commit_value, print, halt}
use go_zkvm.Examples.Common.{reject_if}

-- `addr` is the address of `product`.
module _ (P : Platform) (addr : ℕ) where
  -- The public output, and the end.
  pub publish : ℕ → M P.Host (Unit {0})
  publish product = do
    commit_value P (record { addr = addr; bytes = le_bytes 8 product })
    print P "Successfully computed product\n"
    halt P 0

  -- The product, guarded against overflow.
  pub checked_product : ℕ → ℕ → M P.Host (Unit {0})
  checked_product a b = do
    let product = a * b % 2 ^ 64
    reject_if P (not (product / a == b)) "Error: Integer overflow\n"
    publish product

  -- The second validation and what follows it.
  pub non_trivial : ℕ → ℕ → M P.Host (Unit {0})
  non_trivial a b = do
    reject_if P (a == 1 || b == 1) "Error: Trivial factors\n"
    checked_product a b

  pub multiply : ℕ → ℕ → M P.Host (Unit {0})
  multiply a b = do reject_if P (a == 0 || b == 0) "Error: Zero factor\n"; non_trivial a b

  pub multiply_main : M P.Host (Unit {0})
  multiply_main = do
    a ← read_value P (replicate 8 0)
    b ← read_value P (replicate 8 0)
    multiply (le_number a) (le_number b)
