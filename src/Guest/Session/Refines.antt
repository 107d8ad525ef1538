-- ===== src/Guest/Session/Refines.antt =====
-- A guest run refines the abstract guest, whose state is the bytes committed and the claims asserted.
use go_zkvm.Base.{ℕ, ◌^◌, ◌<◌, ◌≡◌, refl, sym, ap, ◌∙◌, arith, All-split}
use go_zkvm.Base.{List, [], ◌∷◌, ◌++◌, append-nil, append_assoc, length}
use mathlib.Core.Path.{subst}
use go_zkvm.Sha.Accelerator.{IsDigest}
use go_zkvm.Sha.Hash.{sha256_init_state}
use go_zkvm.Sha.Hash.OneShot.{fips_hash}
use go_zkvm.Sha.Tagged.Preimage.{tagged_digest}
use go_zkvm.Journal.{zero_digest, start, ensure_initialized}
use go_zkvm.Journal.State.{Represents, start-Represents, assume-Represents}
use go_zkvm.Journal.Finalize.{cons_assumption, cons_assumption-IsDigest}
use go_zkvm.Guest.Platform.{Platform, IsLawful}
use go_zkvm.Guest.Monad.{Guest, returned, halted, pure, then_run}
use go_zkvm.Guest.Api
use go_zkvm.Guest.Api.Effects.{IsQuiet, commit-Commits, commit_value-Commits, halt-eq}
use go_zkvm.Guest.Api.Effects.{
  read-IsQuiet, read_value-IsQuiet, write-IsQuiet, write_stderr-IsQuiet,
}
use go_zkvm.Guest.Api.Effects.{print-IsQuiet, debug-IsQuiet, cycle_count-IsQuiet}
use go_zkvm.Guest.Compose.Claim.{receipt_claim, concluded, verify-eq}
use go_zkvm.Guest.Session.{Call, read, read_value, write, write_stderr, print, debug, cycle_count}
use go_zkvm.Guest.Session.{
  commit, commit_value, verify, IsValid, AllValid, committed, all_committed,
}
use go_zkvm.Guest.Session.{
  asserted, all_asserted, AllSupplied, assume_all, registrations, perform, run, guest_main,
}

module _ (P : Platform) (law : IsLawful P) where
  -- From a state that stands for `message` and `list`, the state `g'` stands for more of both, and
  -- the streams have grown by the same.
  abbrev pub Extends :
      List ℕ → List ℕ → List ℕ → List (List ℕ) → Guest P.Host → Guest P.Host → Type 0
  Extends message list bytes claims g g' =
      Represents P.sha g'.globals (message ++ bytes) (assume_all P.sha list claims)
      × (law.journal g'.host ≡ law.journal g.host ++ bytes)
      × (law.registered g'.host ≡ law.registered g.host ++ registrations claims)
      × (law.receipts g'.host ≡ law.receipts g.host)

  quiet-Extends :
      (message list : List ℕ) (g g' : Guest P.Host)
      → Represents P.sha g.globals message list
      → IsQuiet P law g g'
      → Extends message list [] [] g g'
  quiet-Extends message list g g' r (same, (j, k, l)) = (
    subst (λ v. Represents P.sha v (message ++ []) list) (sym same)
        (subst (λ t. Represents P.sha g.globals t list) (sym (append-nil message)) r),
    j ∙ sym (append-nil (law.journal g.host)),
    k ∙ sym (append-nil (law.registered g.host)),
    l,
  )

  commits-Extends :
      (message list bytes : List ℕ) (g g' : Guest P.Host)
      → Represents P.sha g'.globals (message ++ bytes) list
      → law.journal g'.host ≡ law.journal g.host ++ bytes
      → law.registered g'.host ≡ law.registered g.host
      → law.receipts g'.host ≡ law.receipts g.host
      → Extends message list bytes [] g g'
  commits-Extends message list bytes g g' r j k l =
      (r, j, k ∙ sym (append-nil (law.registered g.host)), l)

  -- Every call returns, and extends what the state stands for by what it commits and asserts.
  perform-Extends :
      (c : Call) (g : Guest P.Host) (message list : List ℕ)
      → IsValid c
      → AllSupplied (law.receipts g.host) (asserted P.sha c)
      → Represents P.sha g.globals message list
      → IsDigest list
      → (g' : Guest P.Host) × (perform P c g ≡ returned tt g')
        × Extends message list (committed c) (asserted P.sha c) g g'
  unfolding perform
  perform-Extends (read buf) g message list v has r d =
      let (b, g', e, q) = read-IsQuiet P law buf g in
      (g', ap (λ o. then_run o (λ _. pure tt)) e, quiet-Extends message list g g' r q)
  perform-Extends (read_value val) g message list v has r d =
      let (b, g', e, q) = read_value-IsQuiet P law val g in
      (g', ap (λ o. then_run o (λ _. pure tt)) e, quiet-Extends message list g g' r q)
  perform-Extends (write buf) g message list v has r d =
      let (g', e, q) = write-IsQuiet P law buf g in (g', e, quiet-Extends message list g g' r q)
  perform-Extends (write_stderr buf) g message list v has r d =
      let (g', e, q) = write_stderr-IsQuiet P law buf g in
      (g', e, quiet-Extends message list g g' r q)
  perform-Extends (print text) g message list v has r d =
      let (g', e, q) = print-IsQuiet P law text g in (g', e, quiet-Extends message list g g' r q)
  perform-Extends (debug text) g message list v has r d =
      let (g', e, q) = debug-IsQuiet P law text g in (g', e, quiet-Extends message list g g' r q)
  perform-Extends cycle_count g message list v has r d =
      let (n, g', e, q) = cycle_count-IsQuiet P law g in
      (g', ap (λ o. then_run o (λ _. pure tt)) e, quiet-Extends message list g g' r q)
  perform-Extends (commit s) g message list v has r d =
      let (g', e, (r', j, k, l)) = commit-Commits P law s g message list r in
      (g', e, commits-Extends message list s.bytes g g' r' j k l)
  perform-Extends (commit_value s) g message list v has r d =
      let (g', e, (r', j, k, l)) = commit_value-Commits P law s g message list v r in
      (g', e, commits-Extends message list s.bytes g g' r' j k l)
  perform-Extends (verify image_id journal) g message list (hid, short) (has, _) r d =
      let claim : List ℕ = receipt_claim P.sha image_id journal in
      let assumptions : List ℕ = (ensure_initialized g.globals).assumptions in
      let (h', answered, j, k, l) = law.verify-supplied g.host claim zero_digest has in
      (
        _,
        verify-eq P law g image_id journal hid short (subst IsDigest (sym r.list) d)
            ∙ ap (concluded P law claim g) answered,
        (
          subst
              (λ t.
                Represents P.sha
                  (record (ensure_initialized g.globals) {
                    assumptions = cons_assumption P.sha claim zero_digest assumptions;
                  })
                  (message ++ []) (cons_assumption P.sha claim zero_digest t))
              r.list
              (subst
                (λ t.
                  Represents P.sha
                    (record (ensure_initialized g.globals) {
                      assumptions = cons_assumption P.sha claim zero_digest assumptions;
                    })
                    t (cons_assumption P.sha claim zero_digest assumptions))
                (sym (append-nil message))
                (assume-Represents P.sha g.globals message list
                  (cons_assumption P.sha claim zero_digest assumptions) r)),
          j ∙ sym (append-nil (law.journal g.host)),
          k,
          l,
        ),
      )

  assume_all-IsDigest :
      (list : List ℕ) (claims : List (List ℕ))
      → IsDigest list
      → IsDigest (assume_all P.sha list claims)
  assume_all-IsDigest list [] d = d
  assume_all-IsDigest list (c ∷ claims) d =
      assume_all-IsDigest (cons_assumption P.sha c zero_digest list) claims
        (cons_assumption-IsDigest P.sha law.sha-IsLawful c zero_digest list)

  assume_all-append :
      (list : List ℕ) (claims more : List (List ℕ))
      → assume_all P.sha list (claims ++ more)
        ≡ assume_all P.sha (assume_all P.sha list claims) more
  assume_all-append list [] more = refl
  assume_all-append list (c ∷ claims) more =
      assume_all-append (cons_assumption P.sha c zero_digest list) claims more

  registrations-append :
      (claims more : List (List ℕ))
      → registrations (claims ++ more) ≡ registrations claims ++ registrations more
  registrations-append [] more = refl
  registrations-append (c ∷ claims) more =
      ap (λ t. (c, zero_digest) ∷ t) (registrations-append claims more)

  -- One extension after another.
  Extends-trans :
      (message list bytes more : List ℕ) (claims extra : List (List ℕ)) (g g' g'' : Guest P.Host)
      → Extends message list bytes claims g g'
      → Extends (message ++ bytes) (assume_all P.sha list claims) more extra g' g''
      → Extends message list (bytes ++ more) (claims ++ extra) g g''
  Extends-trans message list bytes more claims extra g g' g'' (r, j, k, l) (r', j', k', l') = (
    subst (λ t. Represents P.sha g''.globals t (assume_all P.sha list (claims ++ extra)))
        (append_assoc message bytes more)
        (subst (Represents P.sha g''.globals ((message ++ bytes) ++ more))
          (sym (assume_all-append list claims extra)) r'),
    j' ∙ ap (λ t. t ++ more) j ∙ append_assoc (law.journal g.host) bytes more,
    k'
        ∙ ap (λ t. t ++ registrations extra) k
        ∙ append_assoc (law.registered g.host) (registrations claims) (registrations extra)
        ∙ ap (λ t. law.registered g.host ++ t) (sym (registrations-append claims extra)),
    l' ∙ l,
  )

  -- From a state that stands for some bytes and an assumptions digest of eight words, a sequence of calls
  -- of Read, ReadValue, Write, WriteStderr, Print, Debug, CycleCount, Commit, CommitValue and Verify
  -- returns, and extends what the state stands for, the journal and the registered claims by all that
  -- the calls commit and assert, in their order, if each `CommitValue` is of at most 2^30 bytes, each
  -- `Verify` is passed an image ID of 32 bytes and a journal of less than 2^29 bytes, and the host has a
  -- receipt for each claim that is asserted.
  pub run-Extends :
      (calls : List Call) (g : Guest P.Host) (message list : List ℕ)
      → AllValid calls
      → AllSupplied (law.receipts g.host) (all_asserted P.sha calls)
      → Represents P.sha g.globals message list
      → IsDigest list
      → (g' : Guest P.Host) × (run P calls g ≡ returned tt g')
        × Extends message list (all_committed calls) (all_asserted P.sha calls) g g'
  unfolding run
  run-Extends [] g message list v has r d =
      (g, refl, quiet-Extends message list g g r (refl, (refl, refl, refl)))
  run-Extends (c ∷ calls) g message list (v, vs) has r d =
      let (now, later) = All-split _ (asserted P.sha c) (all_asserted P.sha calls) has in
      let (g1, e1, x1) = perform-Extends c g message list v now r d in
      let (g2, e2, x2) =
        run-Extends calls g1 (message ++ committed c) (assume_all P.sha list (asserted P.sha c)) vs
          (subst (λ t. AllSupplied t (all_asserted P.sha calls)) (sym x1.3) later) x1.0
          (assume_all-IsDigest list (asserted P.sha c) d) in
      (
        g2,
        ap (λ o. then_run o (λ _. run P calls)) e1 ∙ e2,
        Extends-trans message list (committed c) (all_committed calls) (asserted P.sha c)
            (all_asserted P.sha calls) g g1 g2 x1 x2,
      )

  -- A guest's first state on a machine.
  abbrev pub boot : P.Host → Guest P.Host
  boot host = record { globals = start; host = host }

  -- The digest that a run must end with: risc0.Output of the SHA-256 of the journal and the list of
  -- assumptions.
  abbrev pub run_digest : List Call → List ℕ
  run_digest calls =
      tagged_digest P.sha "risc0.Output"
        (fips_hash P.sha sha256_init_state (all_committed calls)
          ∷ assume_all P.sha zero_digest (all_asserted P.sha calls)
          ∷ [])
        []

  -- Whatever sequence of Read, ReadValue, Write, WriteStderr, Print, Debug, CycleCount, Commit,
  -- CommitValue and Verify a guest makes, it ends by a halt with the given exit code, if less than 2^29
  -- bytes are committed, each `CommitValue` is of at most 2^30 bytes, each `Verify` is passed an image
  -- ID of 32 bytes and a journal of less than 2^29 bytes, and the host has a receipt for each claim
  -- that is asserted. The digest passed to `sys_halt` is risc0.Output of the SHA-256 of exactly the
  -- bytes that were written to the journal and of the list of exactly the claims that were registered
  -- with `sys_verify_integrity`, each in the order of the calls.
  pub guest_main-halts :
      (calls : List Call) (exit_code : ℕ) (host : P.Host)
      → AllValid calls
      → length (all_committed calls) < 2 ^ 29
      → AllSupplied (law.receipts host) (all_asserted P.sha calls)
      → (g : Guest P.Host) × (guest_main P calls exit_code (boot host)
          ≡ halted exit_code (run_digest calls) g)
        × (law.journal g.host ≡ law.journal host ++ all_committed calls)
        × (law.registered g.host ≡ law.registered host ++ registrations (all_asserted P.sha calls))
  unfolding guest_main
  guest_main-halts calls exit_code host v short has =
      let zero-IsDigest : IsDigest zero_digest = omega arith in
      let (g, e, (r, j, k, _)) =
        run-Extends calls (boot host) [] zero_digest v has (start-Represents P.sha) zero-IsDigest in
      (
        record g { globals = ensure_initialized g.globals },
        ap (λ o. then_run o (λ _. Api.halt P exit_code)) e
            ∙ halt-eq P law exit_code g (all_committed calls)
                (assume_all P.sha zero_digest (all_asserted P.sha calls)) r
                (assume_all-IsDigest zero_digest (all_asserted P.sha calls) zero-IsDigest) short,
        j,
        k,
      )
