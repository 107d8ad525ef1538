-- ===== src/R0bf/Files.antt =====
-- The operating system that the two commands run on, and a command's run.
use go_zkvm.Base.{ℕ, ◌+◌, ◌-◌, ◌≤◌, ◌≡◌, ◌≢◌, String, Bool, true, false, ◌&&◌}
use go_zkvm.Base.{List, [], ◌∷◌, ◌++◌, length, take, drop, Option, none, some, leb, ◌==◌}
use go_zkvm.Base.{if◌then◌else◌, refl, ap, ◌∙◌, arith, le→leb, append_assoc, length-append}
use go_zkvm.Base.{take-append, drop-append}

-- A byte slice: its elements, and what stands in the backing array behind them up to the capacity.
pub record Bytes : Type 0 where
  pub elems : List ℕ
  pub spare : List ℕ

-- `s[low:high]`, which may reach into the capacity; `none` is a panic.
pub slice : Bytes → ℕ → ℕ → Option (List ℕ)
slice s low high =
    let whole = s.elems ++ s.spare in
    if leb low high && leb high (length whole)
    then some (take (high - low) (drop low whole))
    else none

-- `s[low:]`, which ends at the length.
pub slice_from : Bytes → ℕ → Option (List ℕ)
slice_from s low = if leb low (length s.elems) then some (drop low s.elems) else none

-- Equality of two byte strings.
abbrev pub same_bytes : List ℕ → List ℕ → Bool
same_bytes [] [] = true
same_bytes [] (b ∷ bs) = false
same_bytes (a ∷ as') [] = false
same_bytes (a ∷ as') (b ∷ bs) = (a == b) && same_bytes as' bs

-- The file operations. The Boolean says whether the call succeeded.
pub record Files : Type 1 where
  pub Fs : Type 0
  pub read_file : Fs → String → Option Bytes
  pub create : Fs → String → Fs × Bool
  -- A write through the handle that `create` gave for the path.
  pub append : Fs → String → List ℕ → Fs × Bool
  pub write_file : Fs → String → List ℕ → Fs × Bool

-- A command returns, exits early with a status, or panics.
pub data Result (Fs : Type 0) (A : Type 0) : Type 0 where
  returned : A → Fs → Result Fs A
  exited : ℕ → Fs → Result Fs A
  panicked : Result Fs A

abbrev pub Command : Type 0 → Type 0 → Type 0
Command Fs A = Fs → Result Fs A

module _ {Fs : Type 0} where
  abbrev pub then_run : {A B : Type 0} → Result Fs A → (A → Command Fs B) → Result Fs B
  then_run (returned a fs) f = f a fs
  then_run (exited status fs) f = exited status fs
  then_run panicked f = panicked

  infixl 5 ◌>>=◌ ◌>>◌
  abbrev pub ◌>>=◌ : {A B : Type 0} → Command Fs A → (A → Command Fs B) → Command Fs B
  ◌>>=◌ m f fs = then_run (m fs) f

  abbrev pub ◌>>◌ : {B : Type 0} → Command Fs (Unit {0}) → Command Fs B → Command Fs B
  ◌>>◌ m k fs = then_run (m fs) (λ _. k)

  -- `if bad { …; os.Exit(1) }`
  abbrev pub exit_if : Bool → Command Fs (Unit {0})
  exit_if true fs = exited 1 fs
  exit_if false fs = returned tt fs

  -- A step that may panic.
  abbrev pub lift : {A : Type 0} → Option A → Command Fs A
  lift none fs = panicked
  lift (some a) fs = returned a fs

  -- A read whose failure exits with status 1.
  abbrev pub or_exit : {A : Type 0} → Option A → Command Fs A
  or_exit none fs = exited 1 fs
  or_exit (some a) fs = returned a fs

  -- A file operation whose failure exits with status 1.
  abbrev pub attempt : (Fs → Fs × Bool) → Command Fs (Unit {0})
  attempt f fs = let (fs', ok) = f fs in if ok then returned tt fs' else exited 1 fs'

  abbrev pub current : Command Fs Fs
  current fs = returned fs fs

  abbrev pub exit : {A : Type 0} → ℕ → Command Fs A
  exit status fs = exited status fs

  -- Inversion of a chain of steps that returned.
  pub then_run-eq-returned :
      {A B : Type 0} (r : Result Fs A) (f : A → Command Fs B) {b : B} {end : Fs}
      → then_run r f ≡ returned b end
      → (a : A) × (fs : Fs) × (r ≡ returned a fs) × (f a fs ≡ returned b end)
  then_run-eq-returned (returned a fs) f h = (a, fs, refl, h)
  then_run-eq-returned (exited status fs) f h = cc
  then_run-eq-returned panicked f h = cc

  pub returned_inj : {A : Type 0} {a b : A} {x y : Fs} → returned a x ≡ returned b y → a ≡ b
  returned_inj h = cc h

  pub lift-eq-returned :
      {A : Type 0} (o : Option A) (fs : Fs) {a : A} {end : Fs}
      → lift o fs ≡ returned a end
      → (o ≡ some a) × (fs ≡ end)
  lift-eq-returned none fs h = cc
  lift-eq-returned (some x) fs h = ground arith

-- A slice inside the elements does not see what stands behind them.
pub slice_at :
    (s : Bytes) (a b c : List ℕ) (low high : ℕ)
    → s.elems ≡ a ++ (b ++ c)
    → low ≡ length a
    → high ≡ low + length b
    → slice s low high ≡ some b
unfolding slice
slice_at s a b c low high e el eh =
    rw (le→leb low high (omega arith), le→leb high (length (s.elems ++ s.spare)) room)
      (ap some (
        ap (λ t. take (high - low) (drop low t)) whole
        ∙ ap (take (high - low)) (drop-append a (b ++ (c ++ s.spare)) low el)
        ∙ take-append b (c ++ s.spare) (high - low) (omega arith)))
  where
    whole : s.elems ++ s.spare ≡ a ++ (b ++ (c ++ s.spare))
    whole =
        ap (λ t. t ++ s.spare) e
        ∙ append_assoc a (b ++ c) s.spare
        ∙ ap (λ t. a ++ t) (append_assoc b c s.spare)

    room : high ≤ length (s.elems ++ s.spare)
    room = omega (
      arith,
      ap length whole,
      length-append a (b ++ (c ++ s.spare)),
      length-append b (c ++ s.spare),
    )

pub slice_from_at :
    (s : Bytes) (a b : List ℕ) (low : ℕ)
    → s.elems ≡ a ++ b
    → low ≡ length a
    → slice_from s low ≡ some b
unfolding slice_from
slice_from_at s a b low e el =
    rw (le→leb low (length s.elems) (omega (arith, ap length e, length-append a b)))
      (ap some (ap (drop low) e ∙ drop-append a b low el))

-- What a slice that does not panic is.
pub slice-eq-some :
    (s : Bytes) (low high : ℕ) {b : List ℕ}
    → slice s low high ≡ some b
    → (b ≡ take (high - low) (drop low (s.elems ++ s.spare))) × (low ≤ high)
unfolding slice
slice-eq-some s low high h = ground arith

pub slice_from-eq-some :
    (s : Bytes) (low : ℕ) {b : List ℕ}
    → slice_from s low ≡ some b
    → (b ≡ drop low s.elems) × (low ≤ length s.elems)
unfolding slice_from
slice_from-eq-some s low h = ground arith

-- The file at a path has these bytes.
abbrev pub HasFile : (F : Files) → F.Fs → String → List ℕ → Type 0
HasFile F fs path bytes = (b : Bytes) × (F.read_file fs path ≡ some b) × (b.elems ≡ bytes)

-- A file system with room on which no operation fails, and files keep what is written. Two paths that are
-- different texts are taken to be different files: no links, and one spelling of each path.
pub record IsReliable (F : Files) : Type 0 where
  pub create-true : (fs : F.Fs) (p : String) → (F.create fs p).1 ≡ true
  pub append-true : (fs : F.Fs) (p : String) (d : List ℕ) → (F.append fs p d).1 ≡ true
  pub write-true : (fs : F.Fs) (p : String) (d : List ℕ) → (F.write_file fs p d).1 ≡ true
  pub create-HasFile : (fs : F.Fs) (p : String) → HasFile F (F.create fs p).0 p []
  pub append-HasFile :
      (fs : F.Fs) (p : String) (d bytes : List ℕ)
      → HasFile F fs p bytes
      → HasFile F (F.append fs p d).0 p (bytes ++ d)
  pub write-HasFile : (fs : F.Fs) (p : String) (d : List ℕ) → HasFile F (F.write_file fs p d).0 p d
  pub write-HasFile_ne :
      (fs : F.Fs) (p q : String) (d bytes : List ℕ)
      → p ≢ q
      → HasFile F fs q bytes
      → HasFile F (F.write_file fs p d).0 q bytes
