-- ===== src/Examples/Policy/Verdict.antt =====
-- The guest on a list of items, a discount and a limit: when it accepts, and what it publishes.
use go_zkvm.Base.{ℕ, ◌+◌, ◌^◌, ◌≤◌, ◌<◌, ◌≡◌, ap, ◌∙◌, arith}
use go_zkvm.Base.{◌||◌, ◌==◌, ltb, Bool-cases, ltb→lt, ltb-false, inl, inr}
use go_zkvm.Base.{List, [], ◌++◌, length, All}
use go_zkvm.Base.Bytes.{le_bytes}
use go_zkvm.Journal.{start}
use go_zkvm.Guest.Platform.{Platform, IsLawful}
use go_zkvm.Guest.Monad.{Guest, then_run}
use go_zkvm.Examples.Common.{Halts, Wrote, reject-Halts, reject_skip}
use go_zkvm.Examples.Common.{then_run-Halts, Halts-trans}
use go_zkvm.Examples.Policy.{max_policy_items, sum_items, settle, read_terms}
use go_zkvm.Examples.Policy.{check_items, policy, policy_main}
use go_zkvm.Examples.Policy.Items.{sum, items_bytes, IsBill, Summed, sum_items-cases}
use go_zkvm.Examples.Policy.Run.{input_bytes, summary, settle-accepts, settle-rejects}
use go_zkvm.Examples.Policy.Run.{read_terms-settle, policy_main-policy}

-- What the guest asks of its input.
abbrev pub IsPurchase : List ℕ → ℕ → Type 0
IsPurchase items discount =
    (0 < length items) × (length items ≤ 16) × IsBill 0 items × (discount ≤ sum items)

module _ (P : Platform) (law : IsLawful P) (addr : ℕ → ℕ) where
  -- The items, the discount and the limit in range for their Go types.
  module _ (host : P.Host) (items : List ℕ) (discount limit : ℕ) (rest : List ℕ)
      (words : All (λ item. item < 2 ^ 64) items) (hd : discount < 2 ^ 64)
      (hl : limit < 2 ^ 64) where
    abbrev terms : List ℕ
    terms = le_bytes 8 discount ++ (le_bytes 8 limit ++ rest)

    -- Behind a sum that succeeded stands the check of the discount.
    check_items-settle :
        (g : Guest P.Host)
        → Summed P law host 0 items terms g
        → (g' : Guest P.Host) × (check_items P addr (length items) g
            ≡ settle P addr (length items) (sum items) discount limit g')
          × Wrote P law host [] g'
    unfolding check_items
    check_items-settle g (g1, e1, left, w1) =
        let (g2, e2, w2) =
          read_terms-settle P law addr host (length items) (sum items) discount limit rest g1 hd hl
            left w1 in
        (
          g2,
          ap (λ o. then_run o (read_terms P addr (length items))) e1
              ∙ ap (λ (t : ℕ). read_terms P addr (length items) t g1) {x = 0 + sum items}
                  {y = sum items} (omega arith)
              ∙ e2,
          w2,
        )

    check_items-accepts :
        (g : Guest P.Host)
        → IsPurchase items discount
        → law.stdin g.host ≡ items_bytes items ++ terms
        → Wrote P law host [] g
        → Halts P law host 0
            (summary (length items) (sum items) discount limit)
            (check_items P addr (length items) g)
    unfolding check_items
    check_items-accepts g (_, _, bill, low) input w =
        elim (sum_items-cases P law host items terms 0 g words (omega arith) input w) [
          | inl (_, summed) ↦
              let (g2, e2, w2) = check_items-settle g summed in
              Halts-trans P law host 0 (summary (length items) (sum items) discount limit) e2
                (settle-accepts P law addr host (length items) (sum items) discount limit g2 low w2)
          | inr (bad, _) ↦ absurd (bad bill)
        ]

    check_items-rejects :
        (g : Guest P.Host)
        → ¬ (IsBill 0 items × (discount ≤ sum items))
        → law.stdin g.host ≡ items_bytes items ++ terms
        → Wrote P law host [] g
        → Halts P law host 1 [] (check_items P addr (length items) g)
    unfolding check_items
    check_items-rejects g bad input w =
        elim (sum_items-cases P law host items terms 0 g words (omega arith) input w) [
          | inl (bill, summed) ↦
              let (g2, e2, w2) = check_items-settle g summed in
              Halts-trans P law host 1 [] e2 (
                settle-rejects P law addr host (length items) (sum items) discount limit g2
                  (too_high bill) w2)
          | inr (_, halts) ↦
              then_run-Halts P law host 1 [] (sum_items P (length items) 0 g)
                (read_terms P addr (length items)) halts
        ]
      where
        too_high : IsBill 0 items → sum items < discount
        too_high bill = elim (Bool-cases (ltb (sum items) discount)) [
          | inl high ↦ ltb→lt (sum items) discount high
          | inr low ↦ absurd (bad (bill, ltb-false (sum items) discount low))
        ]

-- With an input of 64-bit numbers, on 1 to 16 items above zero with a sum below 2^64 and a discount of
-- at most the sum, the guest halts with status 0, and its journal is the number of items, whether what
-- is left after the discount is within the limit, the sum, the discount, what is left, and the limit.
pub policy_main-accepts :
    (P : Platform) (law : IsLawful P) (addr : ℕ → ℕ) (host : P.Host) (items : List ℕ)
    (discount limit : ℕ) (rest : List ℕ)
    → All (λ item. item < 2 ^ 64) items
    → discount < 2 ^ 64
    → limit < 2 ^ 64
    → law.stdin host ≡ input_bytes items discount limit rest
    → IsPurchase items discount
    → Halts P law host 0
        (summary (length items) (sum items) discount limit)
        (policy_main P addr (record { globals = start; host = host }))
unfolding policy
policy_main-accepts P law addr host items discount limit rest words hd hl input
      (some_items, few, bill, low) =
    let n : ℕ = length items in
    let (g, e, left, w) =
      policy_main-policy P law addr host n
        (items_bytes items ++ (le_bytes 8 discount ++ (le_bytes 8 limit ++ rest))) (omega arith)
        input in
    Halts-trans P law host 0 (summary n (sum items) discount limit)
      (e
        ∙ reject_skip P law (n == 0 || ltb max_policy_items n) "Error: invalid item count\n" g
            (check_items P addr n) (ground arith))
      (check_items-accepts P law addr host items discount limit rest words hd hl g
        (some_items, few, bill, low) left w)

-- On any other items and discount of 64 bits, fewer than 2^32 items, the guest of
-- examples/policy_check halts with status 1, and publishes nothing.
pub policy_main-rejects :
    (P : Platform) (law : IsLawful P) (addr : ℕ → ℕ) (host : P.Host) (items : List ℕ)
    (discount limit : ℕ) (rest : List ℕ)
    → All (λ item. item < 2 ^ 64) items
    → discount < 2 ^ 64
    → limit < 2 ^ 64
    → length items < 2 ^ 32
    → law.stdin host ≡ input_bytes items discount limit rest
    → ¬ IsPurchase items discount
    → Halts P law host 1 [] (policy_main P addr (record { globals = start; host = host }))
unfolding policy
policy_main-rejects P law addr host items discount limit rest words hd hl count input bad =
    let n : ℕ = length items in
    let (g, e, left, w) =
      policy_main-policy P law addr host n
        (items_bytes items ++ (le_bytes 8 discount ++ (le_bytes 8 limit ++ rest))) count input in
    Halts-trans P law host 1 [] e (elim (Bool-cases (n == 0 || ltb max_policy_items n)) [
      | inl wrong ↦
          reject-Halts P law host [] (n == 0 || ltb max_policy_items n)
            "Error: invalid item count\n" g (check_items P addr n) wrong (omega arith) w
      | inr fine ↦
          let in_range : (0 < n) × (n ≤ 16) = ground arith in
          Halts-trans P law host 1 []
            (reject_skip P law (n == 0 || ltb max_policy_items n) "Error: invalid item count\n" g
              (check_items P addr n) fine)
            (check_items-rejects P law addr host items discount limit rest words hd hl g
              (λ (bill, low). bad (in_range.0, in_range.1, bill, low)) left w)
    ])
