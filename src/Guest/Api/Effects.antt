-- ===== src/Guest/Api/Effects.antt =====
-- What each call of the guest API does to the machine.
use go_zkvm.Base.{
  ℕ, ◌^◌, ◌<◌, ◌≤◌, ◌≡◌, leb, true, refl, sym, ap, ◌∙◌, arith, String, Bool-cases, inl, inr,
}
use go_zkvm.Base.{List, [], ◌∷◌, ◌++◌, append-nil, length, ltb, ltb-false}
use go_zkvm.Base.{length-append, take, drop, take-append, drop-append}
use go_zkvm.Base.Bytes.{utf8}
use mathlib.Core.Path.{subst}
use go_zkvm.Sha.Accelerator.{IsDigest}
use go_zkvm.Sha.Hash.{sha256_init_state}
use go_zkvm.Sha.Hash.OneShot.{fips_hash}
use go_zkvm.Sha.Tagged.Preimage.{tagged_digest}
use go_zkvm.Journal.{Slice, ensure_initialized, update_proper_hasher}
use go_zkvm.Journal.Update.{nil_of_length}
use go_zkvm.Journal.State.{Represents, update-Represents}
use go_zkvm.Journal.Finalize.{finalize-Represents}
use go_zkvm.Guest.Platform.{Platform, IsLawful}
use go_zkvm.Guest.Monad.{Guest, returned, halted}
use go_zkvm.Guest.Api.{read, read_value, write, write_stderr, print, debug, cycle_count, commit}
use go_zkvm.Guest.Api.{commit_value, commit_bytes, halt}

module _ (P : Platform) (law : IsLawful P) where
  abbrev pub SameStreams : Guest P.Host → Guest P.Host → Type 0
  SameStreams g g' =
      (law.journal g'.host ≡ law.journal g.host)
      × (law.registered g'.host ≡ law.registered g.host)
      × (law.receipts g'.host ≡ law.receipts g.host)

  -- The package variables, the journal, the assumptions and the receipts stay as they were.
  abbrev pub IsQuiet : Guest P.Host → Guest P.Host → Type 0
  IsQuiet g g' = (g'.globals ≡ g.globals) × SameStreams g g'

  IsQuiet-refl : (g : Guest P.Host) → IsQuiet g g
  IsQuiet-refl g = (refl, (refl, refl, refl))

  pub read-IsQuiet :
      (buf : List ℕ) (g : Guest P.Host)
      → (r : List ℕ) × (g' : Guest P.Host) × (read P buf g ≡ returned r g') × IsQuiet g g'
  unfolding read
  read-IsQuiet buf g = elim (Bool-cases (ltb 0 (length buf))) [
    | inl more ↦
        let (r, h) = P.sys_read g.host 0 buf in
        (
          r,
          record g { host = h },
          rw more refl,
          (
            refl,
            (
              law.journal-read g.host 0 buf,
              law.registered-read g.host 0 buf,
              law.receipts-read g.host 0 buf,
            ),
          ),
        )
    | inr nothing ↦ (buf, g, rw nothing refl, IsQuiet-refl g)
  ]

  pub read_value-IsQuiet :
      (val : List ℕ) (g : Guest P.Host)
      → (r : List ℕ) × (g' : Guest P.Host) × (read_value P val g ≡ returned r g') × IsQuiet g g'
  unfolding read_value
  read_value-IsQuiet val g =
      let (r, h) = P.sys_read g.host 0 val in
      (
        r,
        record g { host = h },
        refl,
        (
          refl,
          (
            law.journal-read g.host 0 val,
            law.registered-read g.host 0 val,
            law.receipts-read g.host 0 val,
          ),
        ),
      )

  -- A value that the input holds is read whole, and the input goes on behind it.
  pub read_value-stdin :
      (val value rest : List ℕ) (g : Guest P.Host)
      → length val ≡ length value
      → law.stdin g.host ≡ value ++ rest
      → (g' : Guest P.Host) × (read_value P val g ≡ returned value g')
        × IsQuiet g g'
        × (law.stdin g'.host ≡ rest)
  unfolding read_value
  read_value-stdin val value rest g size input =
      let (taken, left) =
        law.read-stdin g.host val (omega (arith, ap length input, length-append value rest)) in
      (
        record g { host = (P.sys_read g.host 0 val).1 },
        ap (λ t. returned t (record g { host = (P.sys_read g.host 0 val).1 }))
            (taken ∙ ap (take (length val)) input ∙ take-append value rest (length val) size),
        (
          refl,
          (
            law.journal-read g.host 0 val,
            law.registered-read g.host 0 val,
            law.receipts-read g.host 0 val,
          ),
        ),
        left ∙ ap (drop (length val)) input ∙ drop-append value rest (length val) size,
      )

  pub write-IsQuiet :
      (buf : List ℕ) (g : Guest P.Host)
      → (g' : Guest P.Host) × (write P buf g ≡ returned tt g') × IsQuiet g g'
  unfolding write
  write-IsQuiet buf g = elim (Bool-cases (ltb 0 (length buf))) [
    | inl more ↦ (
      record g { host = P.sys_write g.host 1 buf },
      rw more refl,
      (
        refl,
        (
          law.journal-write g.host 1 buf,
          law.registered-write g.host 1 buf,
          law.receipts-write g.host 1 buf,
        ),
      ),
    )
    | inr nothing ↦ (g, rw nothing refl, IsQuiet-refl g)
  ]

  pub write_stderr-IsQuiet :
      (buf : List ℕ) (g : Guest P.Host)
      → (g' : Guest P.Host) × (write_stderr P buf g ≡ returned tt g') × IsQuiet g g'
  unfolding write_stderr
  write_stderr-IsQuiet buf g = elim (Bool-cases (ltb 0 (length buf))) [
    | inl more ↦ (
      record g { host = P.sys_write g.host 2 buf },
      rw more refl,
      (
        refl,
        (
          law.journal-write g.host 2 buf,
          law.registered-write g.host 2 buf,
          law.receipts-write g.host 2 buf,
        ),
      ),
    )
    | inr nothing ↦ (g, rw nothing refl, IsQuiet-refl g)
  ]

  pub print-IsQuiet :
      (text : String) (g : Guest P.Host)
      → (g' : Guest P.Host) × (print P text g ≡ returned tt g') × IsQuiet g g'
  unfolding print
  print-IsQuiet text g = write-IsQuiet (utf8 text) g

  pub debug-IsQuiet :
      (text : String) (g : Guest P.Host)
      → (g' : Guest P.Host) × (debug P text g ≡ returned tt g') × IsQuiet g g'
  unfolding debug
  debug-IsQuiet text g = write_stderr-IsQuiet (utf8 text) g

  pub cycle_count-IsQuiet :
      (g : Guest P.Host)
      → (r : ℕ) × (g' : Guest P.Host) × (cycle_count P g ≡ returned r g') × IsQuiet g g'
  unfolding cycle_count
  cycle_count-IsQuiet g =
      let (r, h) = P.sys_cycle_count g.host in
      (
        r,
        record g { host = h },
        refl,
        (refl, (law.journal-cycle g.host, law.registered-cycle g.host, law.receipts-cycle g.host)),
      )

  -- The bytes go to the journal and into the running hash, and nothing else changes.
  abbrev pub Commits : List ℕ → List ℕ → Slice → Guest P.Host → Guest P.Host → Type 0
  Commits message assumed s g g' =
      Represents P.sha g'.globals (message ++ s.bytes) assumed
      × (law.journal g'.host ≡ law.journal g.host ++ s.bytes)
      × (law.registered g'.host ≡ law.registered g.host)
      × (law.receipts g'.host ≡ law.receipts g.host)

  commit_bytes-Commits :
      (s : Slice) (g : Guest P.Host) (message assumed : List ℕ)
      → Represents P.sha g.globals message assumed
      → (g' : Guest P.Host) × (commit_bytes P s g ≡ returned tt g') × Commits message assumed s g g'
  unfolding commit_bytes
  commit_bytes-Commits s g message assumed r = (
    record {
      globals = update_proper_hasher P.sha g.globals s;
      host = P.sys_write g.host 3 s.bytes;
    },
    refl,
    (
      update-Represents P.sha g.globals message assumed s r,
      law.journal-write g.host 3 s.bytes,
      law.registered-write g.host 3 s.bytes,
      law.receipts-write g.host 3 s.bytes,
    ),
  )

  pub commit-Commits :
      (s : Slice) (g : Guest P.Host) (message assumed : List ℕ)
      → Represents P.sha g.globals message assumed
      → (g' : Guest P.Host) × (commit P s g ≡ returned tt g') × Commits message assumed s g g'
  unfolding commit
  commit-Commits s g message assumed r = elim (Bool-cases (ltb 0 (length s.bytes))) [
    | inl more ↦ rw more (commit_bytes-Commits s g message assumed r)
    | inr nothing ↦
        let gone : s.bytes ≡ [] =
          nil_of_length s.bytes (omega (arith, ltb-false 0 (length s.bytes) nothing)) in
        (
          g,
          rw nothing refl,
          (
            subst (λ t. Represents P.sha g.globals t assumed)
                (sym (append-nil message) ∙ ap (λ t. message ++ t) (sym gone)) r,
            sym (append-nil (law.journal g.host)) ∙ ap (λ t. law.journal g.host ++ t) (sym gone),
            refl,
            refl,
          ),
        )
  ]

  pub commit_value-Commits :
      (s : Slice) (g : Guest P.Host) (message assumed : List ℕ)
      → length s.bytes ≤ 2 ^ 30
      → Represents P.sha g.globals message assumed
      → (g' : Guest P.Host) × (commit_value P s g ≡ returned tt g') × Commits message assumed s g g'
  unfolding commit_value commit_bytes
  commit_value-Commits s g message assumed fits r =
      let whole : leb (length s.bytes) (2 ^ 30) ≡ true = ground arith in
      rw whole (commit_bytes-Commits s g message assumed r)

  -- `Halt` ends the run with the finalized digest, and writes to no stream.
  pub halt-eq :
      {A : Type 0} (code : ℕ) (g : Guest P.Host) (message assumed : List ℕ)
      → Represents P.sha g.globals message assumed
      → IsDigest assumed
      → length message < 2 ^ 29
      → halt P {A = A} code g
        ≡ halted code
            (tagged_digest P.sha "risc0.Output"
              (fips_hash P.sha sha256_init_state message ∷ assumed ∷ [])
              [])
            (record g { globals = ensure_initialized g.globals })
  unfolding halt
  halt-eq code g message assumed r ha short =
      rw (finalize-Represents P.sha law.sha-IsLawful g.globals message assumed r ha short)
