-- ===== src/Guest/Monad.antt =====
-- A guest's run: the package variables of zkvm and the rest of the machine are passed along. A call
-- returns, halts the guest (`sys_halt` does not return), is stopped by the host, or panics.
use go_zkvm.Base.{ℕ, List, Option, none, some}
use go_zkvm.Journal.{Globals}

pub record Guest (Host : Type 0) : Type 0 where
  pub globals : Globals
  pub host : Host

pub data Outcome (Host : Type 0) (A : Type 0) : Type 0 where
  returned : A → Guest Host → Outcome Host A
  -- The exit code, the output digest, and the machine at the end.
  halted : ℕ → List ℕ → Guest Host → Outcome Host A
  -- The host stopped the run inside a syscall.
  aborted : Guest Host → Outcome Host A
  panicked : Outcome Host A

abbrev pub M : Type 0 → Type 0 → Type 0
M Host A = Guest Host → Outcome Host A

module _ {Host : Type 0} where
  abbrev pub pure : {A : Type 0} → A → M Host A
  pure a g = returned a g

  abbrev pub then_run : {A B : Type 0} → Outcome Host A → (A → M Host B) → Outcome Host B
  then_run (returned a g) f = f a g
  then_run (halted code digest g) f = halted code digest g
  then_run (aborted g) f = aborted g
  then_run panicked f = panicked

  infixl 5 ◌>>=◌ ◌>>◌
  abbrev pub ◌>>=◌ : {A B : Type 0} → M Host A → (A → M Host B) → M Host B
  ◌>>=◌ m f g = then_run (m g) f

  abbrev pub ◌>>◌ : {B : Type 0} → M Host (Unit {0}) → M Host B → M Host B
  ◌>>◌ m k g = then_run (m g) (λ _. k)

  -- A step that may panic.
  abbrev pub lift : {A : Type 0} → Option A → M Host A
  lift none g = panicked
  lift (some a) g = returned a g

  abbrev pub get_globals : M Host Globals
  get_globals g = returned g.globals g

  abbrev pub put_globals : Globals → M Host (Unit {0})
  put_globals v g = returned tt (record g { globals = v })

  -- A syscall without a result.
  abbrev pub syscall : (Host → Host) → M Host (Unit {0})
  syscall f g = returned tt (record g { host = f g.host })

  -- A syscall without a result, in which the host may stop the run.
  abbrev pub after_syscall : Guest Host → Option Host → Outcome Host (Unit {0})
  after_syscall g none = aborted g
  after_syscall g (some h) = returned tt (record g { host = h })

  abbrev pub syscall_or_abort : (Host → Option Host) → M Host (Unit {0})
  syscall_or_abort f g = after_syscall g (f g.host)

  -- A syscall with a result.
  abbrev pub syscall_with : {A : Type 0} → (Host → A × Host) → M Host A
  syscall_with f g = let (a, h) = f g.host in returned a (record g { host = h })
