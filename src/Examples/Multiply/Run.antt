-- ===== src/Examples/Multiply/Run.antt =====
-- The guest on an input of two factors: when it accepts, and what it publishes.
use go_zkvm.Base.{ℕ, ◌*◌, ◌/◌, ◌%◌, ◌^◌, ◌≤◌, ◌<◌, ◌≡◌, refl, ap, ◌∙◌, arith, true}
use go_zkvm.Base.{◌||◌, not, ◌==◌, Bool-cases, inl, inr, ltb, ltb→lt, ltb-false}
use go_zkvm.Base.{List, [], ◌++◌, replicate}
use go_zkvm.Base.Bytes.{le_bytes, le_number, le_number-le_bytes}
use native.Mathlib.Nat.{mul-div_cancel_left, div-lt_iff_lt-mul, mod-eq_of_lt, mul_comm}
use go_zkvm.Journal.{start}
use go_zkvm.Guest.Platform.{Platform, IsLawful}
use go_zkvm.Guest.Monad.{Guest, then_run}
use go_zkvm.Guest.Api.Effects.{print-IsQuiet, read_value-stdin}
use go_zkvm.Examples.Common.{Halts, Wrote, halt-Halts, quiet-Wrote, boot-Wrote, reject-Halts}
use go_zkvm.Examples.Common.{reject_skip, commit_value-Wrote, Halts-trans}
use mathlib.Core.Path.{ap₂}
use go_zkvm.Guest.Monad.{◌>>=◌, ◌>>◌}
use go_zkvm.Guest.Api.{read_value, print, halt}
use go_zkvm.Examples.Multiply.{publish, checked_product, non_trivial, multiply, multiply_main}

-- The division test finds every wrap of a 64-bit product.
product_fits : (a b : ℕ) → 0 < a → a * b < 2 ^ 64 → a * b % 2 ^ 64 / a ≡ b
product_fits a b ha fits =
    ap (λ (t : ℕ). t / a) (mod-eq_of_lt {n = a * b} {m = 2 ^ 64} fits) ∙ mul-div_cancel_left b ha

product_wraps : (a b : ℕ) → 0 < a → 2 ^ 64 ≤ a * b → a * b % 2 ^ 64 / a < b
product_wraps a b ha wraps =
    (div-lt_iff_lt-mul {k = a} {x = a * b % 2 ^ 64} {y = b} ha).1 (omega (arith, mul_comm a b))

overflow :
    (a b : ℕ)
    → ¬ ((2 ≤ a) × (2 ≤ b) × (a * b < 2 ^ 64))
    → 2 ≤ a
    → 2 ≤ b
    → not (a * b % 2 ^ 64 / a == b) ≡ true
overflow a b bad ha hb = elim (Bool-cases (ltb (a * b) (2 ^ 64))) [
  | inl fits ↦ absurd (bad (ha, hb, ltb→lt (a * b) (2 ^ 64) fits))
  | inr wraps ↦ ground (arith, product_wraps a b (omega arith) (ltb-false (a * b) (2 ^ 64) wraps))
]

module _ (P : Platform) (law : IsLawful P) (addr : ℕ) where
  publish-Halts :
      (host : P.Host) (product : ℕ) (g : Guest P.Host)
      → Wrote P law host [] g
      → Halts P law host 0 (le_bytes 8 product) (publish P addr product g)
  unfolding publish
  publish-Halts host product g w =
      let (g1, e1, w1) =
        commit_value-Wrote P law host [] (record { addr = addr; bytes = le_bytes 8 product }) g
          (omega arith) w in
      let (g2, e2, q2) = print-IsQuiet P law "Successfully computed product\n" g1 in
      Halts-trans P law host 0 (le_bytes 8 product)
        (ap (λ o. then_run o (λ _. print P "Successfully computed product\n" >> halt P 0)) e1
          ∙ ap (λ o. then_run o (λ _. halt P 0)) e2)
        (halt-Halts P law host 0 (le_bytes 8 product) g2 (omega arith)
          (quiet-Wrote P law host (le_bytes 8 product) g1 g2 q2 w1))

  multiply-accepts :
      (host : P.Host) (a b : ℕ) (g : Guest P.Host)
      → 2 ≤ a
      → 2 ≤ b
      → a * b < 2 ^ 64
      → Wrote P law host [] g
      → Halts P law host 0 (le_bytes 8 (a * b)) (multiply P addr a b g)
  unfolding multiply non_trivial checked_product
  multiply-accepts host a b g ha hb fits w =
      let whole : a * b % 2 ^ 64 ≡ a * b = mod-eq_of_lt {n = a * b} {m = 2 ^ 64} fits in
      Halts-trans P law host 0 (le_bytes 8 (a * b))
        (reject_skip P law (a == 0 || b == 0) "Error: Zero factor\n" g (non_trivial P addr a b)
            (ground arith)
          ∙ reject_skip P law (a == 1 || b == 1) "Error: Trivial factors\n" g
              (checked_product P addr a b) (ground arith)
          ∙ reject_skip P law (not (a * b % 2 ^ 64 / a == b)) "Error: Integer overflow\n" g
              (publish P addr (a * b % 2 ^ 64))
              (ground (arith, product_fits a b (omega arith) fits))
          ∙ ap (λ (t : ℕ). publish P addr t g) whole)
        (publish-Halts host (a * b) g w)

  -- An input that is not two factors of 2 or more with a 64-bit product.
  multiply-rejects :
      (host : P.Host) (a b : ℕ) (g : Guest P.Host)
      → ¬ ((2 ≤ a) × (2 ≤ b) × (a * b < 2 ^ 64))
      → Wrote P law host [] g
      → Halts P law host 1 [] (multiply P addr a b g)
  unfolding multiply non_trivial checked_product
  multiply-rejects host a b g bad w = elim (Bool-cases (a == 0 || b == 0)) [
    | inl zero_factor ↦
        reject-Halts P law host [] (a == 0 || b == 0) "Error: Zero factor\n" g
          (non_trivial P addr a b) zero_factor (omega arith) w
    | inr fine ↦
        Halts-trans P law host 1 []
          (reject_skip P law (a == 0 || b == 0) "Error: Zero factor\n" g (non_trivial P addr a b)
            fine)
          (elim (Bool-cases (a == 1 || b == 1)) [
            | inl trivial ↦
                reject-Halts P law host [] (a == 1 || b == 1) "Error: Trivial factors\n" g
                  (checked_product P addr a b) trivial (omega arith) w
            | inr good ↦
                let factors : (2 ≤ a) × (2 ≤ b) = ground arith in
                Halts-trans P law host 1 []
                  (reject_skip P law (a == 1 || b == 1) "Error: Trivial factors\n" g
                    (checked_product P addr a b) good)
                  (reject-Halts P law host [] (not (a * b % 2 ^ 64 / a == b))
                    "Error: Integer overflow\n" g (publish P addr (a * b % 2 ^ 64))
                    (overflow a b bad factors.0 factors.1) (omega arith) w)
          ])
  ]

  -- The guest reads its two factors from the private input.
  multiply_main-eq :
      (host : P.Host) (a b : ℕ) (rest : List ℕ)
      → a < 2 ^ 64
      → b < 2 ^ 64
      → law.stdin host ≡ le_bytes 8 a ++ (le_bytes 8 b ++ rest)
      → (g : Guest P.Host) × (multiply_main P addr (record { globals = start; host = host })
          ≡ multiply P addr a b g)
        × Wrote P law host [] g
  unfolding multiply_main
  multiply_main-eq host a b rest ha hb input =
      let g0 : Guest P.Host = record { globals = start; host = host } in
      let (g1, e1, q1, left) =
        read_value-stdin P law (replicate 8 0) (le_bytes 8 a) (le_bytes 8 b ++ rest) g0 refl
          input in
      let (g2, e2, q2, left') =
        read_value-stdin P law (replicate 8 0) (le_bytes 8 b) rest g1 refl left in
      (
        g2,
        ap
              (λ o. then_run o λ x.
                read_value P (replicate 8 0) >>= λ y. multiply P addr (le_number x) (le_number y))
              e1
            ∙ ap (λ o. then_run o λ y. multiply P addr (le_number (le_bytes 8 a)) (le_number y)) e2
            ∙ ap₂ (λ x y. multiply P addr x y g2) (le_number-le_bytes 8 a (omega arith))
                (le_number-le_bytes 8 b (omega arith)),
        quiet-Wrote P law host [] g1 g2 q2
            (quiet-Wrote P law host [] g0 g1 q1 (boot-Wrote P law host)),
      )

-- On two 64-bit factors of at least 2 with a product below 2^64 the guest halts with status 0, and its
-- journal is the product, as eight little-endian bytes. The digest is that of this journal.
pub multiply_main-accepts :
    (P : Platform) (law : IsLawful P) (addr : ℕ) (host : P.Host) (a b : ℕ) (rest : List ℕ)
    → a < 2 ^ 64
    → b < 2 ^ 64
    → law.stdin host ≡ le_bytes 8 a ++ (le_bytes 8 b ++ rest)
    → 2 ≤ a
    → 2 ≤ b
    → a * b < 2 ^ 64
    → Halts P law host 0
        (le_bytes 8 (a * b))
        (multiply_main P addr (record { globals = start; host = host }))
multiply_main-accepts P law addr host a b rest wa wb input ha hb fits =
    let (g, e, w) = multiply_main-eq P law addr host a b rest wa wb input in
    Halts-trans P law host 0 (le_bytes 8 (a * b)) e
      (multiply-accepts P law addr host a b g ha hb fits w)

-- On any other two 64-bit factors the guest of examples/multiply halts with status 1, and publishes
-- nothing.
pub multiply_main-rejects :
    (P : Platform) (law : IsLawful P) (addr : ℕ) (host : P.Host) (a b : ℕ) (rest : List ℕ)
    → a < 2 ^ 64
    → b < 2 ^ 64
    → law.stdin host ≡ le_bytes 8 a ++ (le_bytes 8 b ++ rest)
    → ¬ ((2 ≤ a) × (2 ≤ b) × (a * b < 2 ^ 64))
    → Halts P law host 1 [] (multiply_main P addr (record { globals = start; host = host }))
multiply_main-rejects P law addr host a b rest wa wb input bad =
    let (g, e, w) = multiply_main-eq P law addr host a b rest wa wb input in
    Halts-trans P law host 1 [] e (multiply-rejects P law addr host a b g bad w)
