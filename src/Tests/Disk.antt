-- ===== src/Tests/Disk.antt =====
-- A file system small enough to compute with: a function from paths to the bytes of a file.
use go_zkvm.Base.{
  ℕ, ◌≡◌, ◌≢◌, refl, ap, ◌∙◌, arith, String, Bool, true, false, Bool-cases, inl, inr,
}
use go_zkvm.Base.{List, [], ◌∷◌, ◌++◌, Option, none, some, if◌then◌else◌}
use text.Mathlib.Text
use text.Mathlib.TextEquality.{eq_iff}
use go_zkvm.R0bf.Files.{Files, Bytes, HasFile, IsReliable}

abbrev pub Disk : Type 0
Disk = String → Option (List ℕ)

abbrev same_path : String → String → Bool
same_path p q = Text.◌==◌ p q

-- Each file is read into a slice with some room behind it.
abbrev as_slice : Option (List ℕ) → Option Bytes
as_slice none = none
as_slice (some b) = some (record { elems = b; spare = 0 ∷ 0 ∷ [] })

abbrev disk_put : Disk → String → List ℕ → Disk
disk_put fs p d q = if same_path p q then some d else fs q

abbrev or_empty : Option (List ℕ) → List ℕ
or_empty none = []
or_empty (some b) = b

abbrev pub disk_files : Files
disk_files = record {
  Fs = Disk;
  read_file = λ fs p. as_slice (fs p);
  create = λ fs p. (disk_put fs p [], true);
  append = λ fs p d. (disk_put fs p (or_empty (fs p) ++ d), true);
  write_file = λ fs p d. (disk_put fs p d, true);
}

same_path_refl : (p : String) → same_path p p ≡ true
same_path_refl p = (eq_iff p p).1 refl

same_path_ne : (p q : String) → p ≢ q → same_path p q ≡ false
same_path_ne p q ne = elim (Bool-cases (same_path p q)) [
  | inl same ↦ absurd (ne ((eq_iff p q).0 same))
  | inr other ↦ other
]

disk_put-HasFile : (fs : Disk) (p : String) (d : List ℕ) → HasFile disk_files (disk_put fs p d) p d
disk_put-HasFile fs p d =
    (_, ap (λ b. as_slice (if b then some d else fs p)) (same_path_refl p), refl)

-- The bytes of a file that is there.
or_empty-HasFile :
    (o : Option (List ℕ)) (b : Bytes) (bytes : List ℕ)
    → as_slice o ≡ some b
    → b.elems ≡ bytes
    → or_empty o ≡ bytes
or_empty-HasFile none b bytes e h = cc
or_empty-HasFile (some d) b bytes e h = ground arith

pub disk-IsReliable : IsReliable disk_files
disk-IsReliable = record {
  create-true = λ fs p. refl;
  append-true = λ fs p d. refl;
  write-true = λ fs p d. refl;
  create-HasFile = λ fs p. disk_put-HasFile fs p [];
  append-HasFile = λ fs p d bytes (b, e, h).
      (let (b', e', h') = disk_put-HasFile fs p (or_empty (fs p) ++ d) in
        (b', e', h' ∙ ap (λ t. t ++ d) (or_empty-HasFile (fs p) b bytes e h)));
  write-HasFile = disk_put-HasFile;
  write-HasFile_ne = λ fs p q d bytes ne (b, e, h).
      (b, ap (λ t. as_slice (if t then some d else fs q)) (same_path_ne p q ne) ∙ e, h);
}
