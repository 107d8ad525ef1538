-- ===== src/Examples/Simple.antt =====
-- examples/simple/main.go
use go_zkvm.Base.{ap, ◌∙◌, arith, []}
use go_zkvm.Journal.{start}
use go_zkvm.Guest.Platform.{Platform, IsLawful}
use go_zkvm.Guest.Monad.{M, then_run, ◌>>◌}
use go_zkvm.Guest.Api.{print, halt}
use go_zkvm.Guest.Api.Effects.{print-IsQuiet}
use go_zkvm.Examples.Common.{Halts, halt-Halts, quiet-Wrote, boot-Wrote}

module _ (P : Platform) where
  pub simple_main : M P.Host (Unit {0})
  simple_main = print P "Hello from Go zkVM!\n" >> halt P 0

-- The guest of examples/simple halts with status 0, an empty journal, and the digest of the empty journal.
pub simple_main-Halts :
    (P : Platform) (law : IsLawful P) (host : P.Host)
    → Halts P law host 0 [] (simple_main P (record { globals = start; host = host }))
unfolding simple_main
simple_main-Halts P law host =
    let (g, e, q) =
      print-IsQuiet P law "Hello from Go zkVM!\n" (record { globals = start; host = host }) in
    let (g', h, w) =
      halt-Halts P law host 0 [] g (omega arith)
        (quiet-Wrote P law host [] _ g q (boot-Wrote P law host)) in
    (g', ap (λ o. then_run o (λ _. halt P 0)) e ∙ h, w)
