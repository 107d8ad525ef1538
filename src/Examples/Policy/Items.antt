-- ===== src/Examples/Policy/Items.antt =====
-- The loop over the items: the sum, or the reason to reject.
use go_zkvm.Base.{ℕ, suc, ◌+◌, ◌%◌, ◌^◌, ◌<◌, ◌≡◌, refl, ap, ◌∙◌, arith, ◌==◌, ltb, Bool-cases}
use go_zkvm.Base.{◌⊎◌, inl, inr, ltb-false, ltb→lt}
use go_zkvm.Base.{List, [], ◌∷◌, ◌++◌, append_assoc, length, replicate, All}
use go_zkvm.Base.Bytes.{le_bytes, le_number, le_number-le_bytes}
use go_zkvm.Guest.Platform.{Platform, IsLawful}
use go_zkvm.Guest.Monad.{M, Guest, returned, then_run, ◌>>◌}
use go_zkvm.Guest.Api.Effects.{read_value-stdin}
use go_zkvm.Examples.Common.{
  Halts, Wrote, quiet-Wrote, reject-Halts, reject_skip, Halts-trans, reject_if,
}
use go_zkvm.Examples.Policy.{sum_items}

abbrev pub sum : List ℕ → ℕ
sum [] = 0
sum (item ∷ items) = item + sum items

-- The items as the host sends them.
abbrev pub items_bytes : List ℕ → List ℕ
items_bytes [] = []
items_bytes (item ∷ items) = le_bytes 8 item ++ items_bytes items

-- What the guest asks of the items: none is zero, and the subtotal does not wrap.
abbrev pub IsBill : ℕ → List ℕ → Type 0
IsBill subtotal items = All (λ item. 0 < item) items × (subtotal + sum items < 2 ^ 64)

module _ (P : Platform) (law : IsLawful P) where
  abbrev pub Summed : P.Host → ℕ → List ℕ → List ℕ → Guest P.Host → Type 0
  Summed host subtotal items rest g =
      (g' : Guest P.Host) × (sum_items P (length items) subtotal g
        ≡ returned (subtotal + sum items) g')
      × (law.stdin g'.host ≡ rest)
      × Wrote P law host [] g'

  -- What follows the read in a round of the loop.
  abbrev after_read : ℕ → ℕ → ℕ → M P.Host ℕ
  after_read n subtotal item =
      reject_if P (item == 0) "Error: item value must be non-zero\n"
      >> (reject_if P (ltb ((subtotal + item) % 2 ^ 64) subtotal) "Error: subtotal overflow\n"
          >> sum_items P n ((subtotal + item) % 2 ^ 64))

  -- A round reads the next item.
  read_item :
      (host : P.Host) (item n subtotal : ℕ) (rest : List ℕ) (g : Guest P.Host)
      → item < 2 ^ 64
      → law.stdin g.host ≡ le_bytes 8 item ++ rest
      → Wrote P law host [] g
      → (g' : Guest P.Host) × (sum_items P (suc n) subtotal g ≡ after_read n subtotal item g')
        × (law.stdin g'.host ≡ rest)
        × Wrote P law host [] g'
  unfolding sum_items
  read_item host item n subtotal rest g hi input w =
      let (g', e, q, left) =
        read_value-stdin P law (replicate 8 0) (le_bytes 8 item) rest g refl input in
      (
        g',
        ap (λ o. then_run o (λ b. after_read n subtotal (le_number b))) e
            ∙ ap (λ (t : ℕ). after_read n subtotal t g') (le_number-le_bytes 8 item (omega arith)),
        left,
        quiet-Wrote P law host [] g g' q w,
      )

  -- The loop over the items that the host sends ends with their sum, and leaves what follows them, or
  -- the guest has halted with status 1.
  pub sum_items-cases :
      (host : P.Host) (items rest : List ℕ) (subtotal : ℕ) (g : Guest P.Host)
      → All (λ item. item < 2 ^ 64) items
      → subtotal < 2 ^ 64
      → law.stdin g.host ≡ items_bytes items ++ rest
      → Wrote P law host [] g
      → (IsBill subtotal items × Summed host subtotal items rest g)
        ⊎ ((¬ IsBill subtotal items)
            × Halts P law host 1 [] (sum_items P (length items) subtotal g))
  unfolding sum_items
  sum_items-cases host [] rest subtotal g h fits input w =
      inl ((tt, omega arith), (g, ap (λ (t : ℕ). returned t g) (omega arith), input, w))
  sum_items-cases host (item ∷ items) rest subtotal g (hi, hs) fits input w =
      let (g1, e1, left, w1) =
        read_item host item (length items) subtotal (items_bytes items ++ rest) g hi
          (input ∙ append_assoc (le_bytes 8 item) (items_bytes items) rest) w in
      elim (Bool-cases (item == 0)) [
        | inl null ↦ inr (
          (λ (positive, _). absurd (ground arith)),
          Halts-trans P law host 1 [] e1 (
              reject-Halts P law host [] (item == 0) "Error: item value must be non-zero\n" g1 _
                null (omega arith) w1),
        )
        | inr some_value ↦
            let e2 =
              e1
              ∙ reject_skip P law (item == 0) "Error: item value must be non-zero\n" g1 _
                  some_value in
            elim (Bool-cases (ltb next subtotal)) [
              | inl wraps ↦ inr (
                (λ (_, small). absurd (omega (arith, ltb→lt next subtotal wraps))),
                Halts-trans P law host 1 [] e2 (
                    reject-Halts P law host [] (ltb next subtotal) "Error: subtotal overflow\n" g1 _
                      wraps (omega arith) w1),
              )
              | inr grows ↦
                  let no_wrap : next ≡ subtotal + item =
                    omega (arith, ltb-false next subtotal grows) in
                  let e3 =
                    e2
                    ∙ reject_skip P law (ltb next subtotal) "Error: subtotal overflow\n" g1 _
                        grows in
                  elim (sum_items-cases host items rest next g1 hs (omega arith) left w1) [
                    | inl ((positive, small), (g2, e4, left2, w2)) ↦ inl (
                      ((ground arith, positive), omega (arith, no_wrap)),
                      (
                        g2,
                        e3 ∙ e4 ∙ ap (λ (t : ℕ). returned t g2) (omega (arith, no_wrap)),
                        left2,
                        w2,
                      ),
                    )
                    | inr (bad, halts) ↦ inr (
                      (λ ((_, positive), small). bad (positive, omega (arith, no_wrap))),
                      Halts-trans P law host 1 [] e3 halts,
                    )
                  ]
            ]
      ]
    where
      next : ℕ
      next = (subtotal + item) % 2 ^ 64
