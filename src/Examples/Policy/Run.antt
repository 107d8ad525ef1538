-- ===== src/Examples/Policy/Run.antt =====
-- The steps of the guest around the loop: the input, the check of the discount, and the output.
use go_zkvm.Base.{ℕ, ◌-◌, ◌^◌, ◌≤◌, ◌<◌, ◌≡◌, refl, ap, ◌∙◌, arith}
use go_zkvm.Base.{ltb, leb, if◌then◌else◌}
use go_zkvm.Base.{List, [], ◌++◌, length, replicate}
use go_zkvm.Base.Bytes.{le_bytes, le_number, le_number-le_bytes}
use mathlib.Core.Path.{ap₂}
use go_zkvm.Journal.{start}
use go_zkvm.Guest.Platform.{Platform, IsLawful}
use go_zkvm.Guest.Monad.{M, Guest, then_run, ◌>>=◌, ◌>>◌}
use go_zkvm.Guest.Api.{read_value, commit_value}
use go_zkvm.Guest.Api.Effects.{read_value-stdin}
use go_zkvm.Examples.Common.{Halts, Wrote, quiet-Wrote, boot-Wrote, reject-Halts, reject_skip}
use go_zkvm.Examples.Common.{commit_value-Wrote, halt-Halts, Halts-trans}
use go_zkvm.Examples.Policy.{publish_summary, settle, read_terms}
use go_zkvm.Examples.Policy.{policy, policy_main}
use go_zkvm.Examples.Policy.Items.{items_bytes}

-- The private input: the number of items, the items, the discount and the limit.
abbrev pub input_bytes : List ℕ → ℕ → ℕ → List ℕ → List ℕ
input_bytes items discount limit rest =
    le_bytes 4 (length items)
    ++ (items_bytes items ++ (le_bytes 8 discount ++ (le_bytes 8 limit ++ rest)))

-- The public summary of a purchase.
abbrev pub summary : ℕ → ℕ → ℕ → ℕ → List ℕ
summary item_count subtotal discount limit =
    le_bytes 4 item_count
    ++ (le_bytes 4 (if leb (subtotal - discount) limit then 1 else 0)
        ++ (le_bytes 8 subtotal
            ++ (le_bytes 8 discount ++ (le_bytes 8 (subtotal - discount) ++ le_bytes 8 limit))))

module _ (P : Platform) (law : IsLawful P) (addr : ℕ → ℕ) where
  -- A commit that is followed by more.
  commit_then :
      {B : Type 0} (host : P.Host) (journal : List ℕ) (code n : ℕ) (bytes : List ℕ)
      (rest : M P.Host B) (out : List ℕ) (g : Guest P.Host)
      → length bytes ≤ 2 ^ 30
      → Wrote P law host journal g
      → ((g' : Guest P.Host)
          → Wrote P law host (journal ++ bytes) g'
          → Halts P law host code out (rest g'))
      → Halts P law host code out
          ((commit_value P (record { addr = addr n; bytes = bytes }) >> rest) g)
  commit_then host journal code n bytes rest out g fits w next =
      let (g', e, w') =
        commit_value-Wrote P law host journal (record { addr = addr n; bytes = bytes }) g fits w in
      Halts-trans P law host code out (ap (λ o. then_run o (λ _. rest)) e) (next g' w')

  publish_summary-Halts :
      (host : P.Host) (item_count subtotal discount limit : ℕ) (g : Guest P.Host)
      → Wrote P law host [] g
      → Halts P law host 0
          (summary item_count subtotal discount limit)
          (publish_summary P addr item_count subtotal discount limit g)
  unfolding publish_summary
  publish_summary-Halts host item_count subtotal discount limit g w =
      commit_then host [] 0 0 b0 _ out g (omega arith) w λ g1 w1.
        commit_then host b0 0 1 b1 _ out g1 (omega arith) w1 λ g2 w2.
          commit_then host (b0 ++ b1) 0 2 b2 _ out g2 (omega arith) w2 λ g3 w3.
            commit_then host ((b0 ++ b1) ++ b2) 0 3 b3 _ out g3 (omega arith) w3 λ g4 w4.
              commit_then host (((b0 ++ b1) ++ b2) ++ b3) 0 4 b4 _ out g4 (omega arith) w4 λ g5 w5.
                commit_then host ((((b0 ++ b1) ++ b2) ++ b3) ++ b4) 0 5 b5 _ out g5 (omega arith) w5
                  λ g6 w6. halt-Halts P law host 0 out g6 (omega arith) w6
    where
      b0 : List ℕ
      b0 = le_bytes 4 item_count

      b1 : List ℕ
      b1 = le_bytes 4 (if leb (subtotal - discount) limit then 1 else 0)

      b2 : List ℕ
      b2 = le_bytes 8 subtotal

      b3 : List ℕ
      b3 = le_bytes 8 discount

      b4 : List ℕ
      b4 = le_bytes 8 (subtotal - discount)

      b5 : List ℕ
      b5 = le_bytes 8 limit

      out : List ℕ
      out = summary item_count subtotal discount limit

  -- The discount is checked against the subtotal.
  pub settle-accepts :
      (host : P.Host) (item_count subtotal discount limit : ℕ) (g : Guest P.Host)
      → discount ≤ subtotal
      → Wrote P law host [] g
      → Halts P law host 0
          (summary item_count subtotal discount limit)
          (settle P addr item_count subtotal discount limit g)
  unfolding settle
  settle-accepts host item_count subtotal discount limit g low w =
      Halts-trans P law host 0 (summary item_count subtotal discount limit)
        (reject_skip P law (ltb subtotal discount) "Error: discount exceeds subtotal\n" g
          (publish_summary P addr item_count subtotal discount limit) (ground arith))
        (publish_summary-Halts host item_count subtotal discount limit g w)

  pub settle-rejects :
      (host : P.Host) (item_count subtotal discount limit : ℕ) (g : Guest P.Host)
      → subtotal < discount
      → Wrote P law host [] g
      → Halts P law host 1 [] (settle P addr item_count subtotal discount limit g)
  unfolding settle
  settle-rejects host item_count subtotal discount limit g high w =
      reject-Halts P law host [] (ltb subtotal discount) "Error: discount exceeds subtotal\n" g
        (publish_summary P addr item_count subtotal discount limit) (ground arith) (omega arith) w

  -- The discount and the limit are read.
  pub read_terms-settle :
      (host : P.Host) (item_count subtotal discount limit : ℕ) (rest : List ℕ) (g : Guest P.Host)
      → discount < 2 ^ 64
      → limit < 2 ^ 64
      → law.stdin g.host ≡ le_bytes 8 discount ++ (le_bytes 8 limit ++ rest)
      → Wrote P law host [] g
      → (g' : Guest P.Host) × (read_terms P addr item_count subtotal g
          ≡ settle P addr item_count subtotal discount limit g')
        × Wrote P law host [] g'
  unfolding read_terms
  read_terms-settle host item_count subtotal discount limit rest g hd hl input w =
      let (g1, e1, q1, left) =
        read_value-stdin P law (replicate 8 0) (le_bytes 8 discount) (le_bytes 8 limit ++ rest) g
          refl input in
      let (g2, e2, q2, left') =
        read_value-stdin P law (replicate 8 0) (le_bytes 8 limit) rest g1 refl left in
      (
        g2,
        ap
              (λ o. then_run o λ d. read_value P (replicate 8 0) >>= λ l.
                settle P addr item_count subtotal (le_number d) (le_number l))
              e1
            ∙ ap
                (λ o. then_run o λ l.
                  settle P addr item_count subtotal (le_number (le_bytes 8 discount)) (le_number l))
                e2
            ∙ ap₂ (λ d l. settle P addr item_count subtotal d l g2)
                (le_number-le_bytes 8 discount (omega arith))
                (le_number-le_bytes 8 limit (omega arith)),
        quiet-Wrote P law host [] g1 g2 q2 (quiet-Wrote P law host [] g g1 q1 w),
      )

  -- The number of items is read.
  pub policy_main-policy :
      (host : P.Host) (item_count : ℕ) (rest : List ℕ)
      → item_count < 2 ^ 32
      → law.stdin host ≡ le_bytes 4 item_count ++ rest
      → (g : Guest P.Host) × (policy_main P addr (record { globals = start; host = host })
          ≡ policy P addr item_count g)
        × (law.stdin g.host ≡ rest)
        × Wrote P law host [] g
  unfolding policy_main
  policy_main-policy host item_count rest hn input =
      let g0 : Guest P.Host = record { globals = start; host = host } in
      let (g1, e1, q1, left) =
        read_value-stdin P law (replicate 4 0) (le_bytes 4 item_count) rest g0 refl input in
      (
        g1,
        ap (λ o. then_run o (λ c. policy P addr (le_number c))) e1
            ∙ ap (λ (t : ℕ). policy P addr t g1) (le_number-le_bytes 4 item_count (omega arith)),
        left,
        quiet-Wrote P law host [] g0 g1 q1 (boot-Wrote P law host),
      )
