-- ===== src/Examples/Common.antt =====
-- What the sample guests share: an early exit, and the lemmas to run a guest step by step.
use go_zkvm.Base.{ℕ, ◌^◌, ◌<◌, ◌≤◌, ◌≡◌, sym, ap, ◌∙◌, arith, String, Bool, true, false}
use go_zkvm.Base.{List, [], ◌∷◌, ◌++◌, append-nil, append_assoc, length, if◌then◌else◌}
use mathlib.Core.Path.{subst}
use go_zkvm.Sha.Hash.{sha256_init_state}
use go_zkvm.Sha.Hash.OneShot.{fips_hash}
use go_zkvm.Sha.Tagged.Preimage.{tagged_digest}
use go_zkvm.Journal.{Slice, zero_digest, start, ensure_initialized}
use go_zkvm.Journal.State.{Represents, start-Represents}
use go_zkvm.Guest.Platform.{Platform, IsLawful}
use go_zkvm.Guest.Monad.{M, Guest, Outcome, returned, halted, pure, then_run, ◌>>◌}
use go_zkvm.Guest.Api.{commit_value, debug, halt}
use go_zkvm.Guest.Api.Effects.{IsQuiet, debug-IsQuiet, halt-eq, commit_value-Commits}

-- `if bad { zkvm.Debug(message); zkvm.Halt(1) }`
pub reject_if : (P : Platform) → Bool → String → M P.Host (Unit {0})
reject_if P bad message = if bad then (debug P message >> halt P 1) else pure tt

module _ (P : Platform) where
  -- risc0.Output of a journal, for a guest that made no assumptions.
  abbrev pub output_digest : List ℕ → List ℕ
  output_digest journal =
      tagged_digest P.sha "risc0.Output"
        (fips_hash P.sha sha256_init_state journal ∷ zero_digest ∷ []) []

module _ (P : Platform) (law : IsLawful P) where
  -- The package variables stand for a journal, and it is what the guest has added to the host's.
  abbrev pub Wrote : P.Host → List ℕ → Guest P.Host → Type 0
  Wrote host journal g =
      Represents P.sha g.globals journal zero_digest
      × (law.journal g.host ≡ law.journal host ++ journal)

  -- The run ends with the exit code and the digest of the journal that it added to the host's.
  abbrev pub Halts : {A : Type 0} → P.Host → ℕ → List ℕ → Outcome P.Host A → Type 0
  Halts host code journal o =
      (g : Guest P.Host) × (o ≡ halted code (output_digest P journal) g)
      × (law.journal g.host ≡ law.journal host ++ journal)

  pub Halts-trans :
      {A : Type 0} (host : P.Host) (code : ℕ) (journal : List ℕ) {o o' : Outcome P.Host A}
      → o ≡ o'
      → Halts host code journal o'
      → Halts host code journal o
  Halts-trans host code journal e (g, h, w) = (g, e ∙ h, w)

  pub quiet-Wrote :
      (host : P.Host) (journal : List ℕ) (g g' : Guest P.Host)
      → IsQuiet P law g g'
      → Wrote host journal g
      → Wrote host journal g'
  quiet-Wrote host journal g g' (same, (j, k, l)) (r, w) =
      (subst (λ v. Represents P.sha v journal zero_digest) (sym same) r, j ∙ w)

  -- What would follow a halt does not run.
  pub then_run-Halts :
      {A B : Type 0} (host : P.Host) (code : ℕ) (journal : List ℕ) (o : Outcome P.Host A)
      (f : A → M P.Host B)
      → Halts host code journal o
      → Halts host code journal (then_run o f)
  then_run-Halts host code journal o f (g, h, w) = (g, ap (λ t. then_run t f) h, w)

  pub halt-Halts :
      {A : Type 0} (host : P.Host) (code : ℕ) (journal : List ℕ) (g : Guest P.Host)
      → length journal < 2 ^ 29
      → Wrote host journal g
      → Halts {A = A} host code journal (halt P code g)
  halt-Halts host code journal g short (r, w) = (
    record g { globals = ensure_initialized g.globals },
    halt-eq P law code g journal zero_digest r (omega arith) short,
    w,
  )

  -- A check that fails ends the guest with status 1.
  pub reject-Halts :
      {B : Type 0} (host : P.Host) (journal : List ℕ) (bad : Bool) (message : String)
      (g : Guest P.Host) (rest : M P.Host B)
      → bad ≡ true
      → length journal < 2 ^ 29
      → Wrote host journal g
      → Halts host 1 journal ((reject_if P bad message >> rest) g)
  unfolding reject_if
  reject-Halts {B = B} host journal bad message g rest failed short w =
      let (g', e, q) = debug-IsQuiet P law message g in
      let (g'', h, w') =
        halt-Halts {A = Unit {0}} host 1 journal g' short (quiet-Wrote host journal g g' q w) in
      (
        g'',
        ap (λ b. (reject_if P b message >> rest) g) failed
            ∙ ap
                (λ o.
                  then_run {A = Unit {0}} {B = B}
                    (then_run {A = Unit {0}} {B = Unit {0}} o (λ _. halt P 1)) (λ _. rest))
                e
            ∙ ap (λ o. then_run {A = Unit {0}} {B = B} o (λ _. rest)) h,
        w',
      )

  -- A check that passes goes on.
  pub reject_skip :
      {B : Type 0} (bad : Bool) (message : String) (g : Guest P.Host) (rest : M P.Host B)
      → bad ≡ false
      → (reject_if P bad message >> rest) g ≡ rest g
  unfolding reject_if
  reject_skip bad message g rest e = rw e

  pub commit_value-Wrote :
      (host : P.Host) (journal : List ℕ) (s : Slice) (g : Guest P.Host)
      → length s.bytes ≤ 2 ^ 30
      → Wrote host journal g
      → (g' : Guest P.Host) × (commit_value P s g ≡ returned tt g')
        × Wrote host (journal ++ s.bytes) g'
  commit_value-Wrote host journal s g fits (r, w) =
      let (g', e, (r', j, k, l)) = commit_value-Commits P law s g journal zero_digest fits r in
      (g', e, (r', j ∙ ap (λ t. t ++ s.bytes) w ∙ append_assoc (law.journal host) journal s.bytes))

  pub boot-Wrote : (host : P.Host) → Wrote host [] (record { globals = start; host = host })
  boot-Wrote host = (start-Represents P.sha, sym (append-nil (law.journal host)))
