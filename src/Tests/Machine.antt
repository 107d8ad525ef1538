-- ===== src/Tests/Machine.antt =====
-- A machine small enough to compute with: a toy compression in place of SHA-256, and a host of lists.
use go_zkvm.Base.{ℕ, zero, suc, ◌+◌, ◌*◌, ◌%◌, ◌^◌, ◌<◌, ◌≡◌, refl, ap, ◌∙◌, arith}
use go_zkvm.Base.{List, [], ◌∷◌, ◌++◌, length, take, drop, All, ◌==◌, if◌then◌else◌}
use go_zkvm.Base.{Bool, true, false, ◌&&◌, ◌||◌, Option, none, some, ==_iff, Bool-cases, inl, inr}
use go_zkvm.Base.Bytes.{le_number}
use go_zkvm.Sha.Accelerator
use go_zkvm.Sha.Accelerator.{Accelerator, IsDigest, compress_blocks}
use go_zkvm.Guest.Platform
use go_zkvm.Guest.Platform.{Platform}

abbrev mix : ℕ → List ℕ → List ℕ
mix n [] = []
mix n (w ∷ ws) = (w * 5 + n) % 2 ^ 32 ∷ mix n ws

length-mix : (n : ℕ) (ws : List ℕ) → length (mix n ws) ≡ length ws
length-mix n [] = refl
length-mix n (w ∷ ws) = ap suc (length-mix n ws)

mix-All : (n : ℕ) (ws : List ℕ) → All (λ w. w < 2 ^ 32) (mix n ws)
mix-All n [] = tt
mix-All n (w ∷ ws) = (omega arith, mix-All n ws)

abbrev toy_compress : List ℕ → List ℕ → List ℕ → List ℕ
toy_compress state front back = mix (le_number front + 3 * le_number back) state

abbrev toy_buffer : List ℕ → List ℕ → ℕ → List ℕ
toy_buffer state bytes zero = state
toy_buffer state bytes (suc n) =
    toy_buffer (toy_compress state (take 32 bytes) (take 32 (drop 32 bytes))) (drop 64 bytes) n

abbrev pub toy : Accelerator
toy = record { compress = toy_compress; buffer = toy_buffer }

toy_buffer-compress_blocks :
    (state bytes : List ℕ) (count : ℕ)
    → toy_buffer state bytes count ≡ compress_blocks toy count state bytes
toy_buffer-compress_blocks state bytes zero = refl
toy_buffer-compress_blocks state bytes (suc n) =
    toy_buffer-compress_blocks (toy_compress state (take 32 bytes) (take 32 (drop 32 bytes)))
      (drop 64 bytes) n

pub toy-IsLawful : Accelerator.IsLawful toy
toy-IsLawful = record {
  buffer_lem = λ state bytes count _. toy_buffer-compress_blocks state bytes count;
  compress-IsDigest = λ state front back d. (
    length-mix (le_number front + 3 * le_number back) state ∙ d.0,
    mix-All (le_number front + 3 * le_number back) state,
  );
}

-- The private input, the journal, the assumptions, the other output, the cycles, and the claims that the
-- host has a receipt for, with their control roots.
pub record World : Type 0 where
  pub input : List ℕ
  pub public_output : List ℕ
  pub assumed : List (List ℕ × List ℕ)
  pub other_output : List ℕ
  pub cycles : ℕ
  pub proven : List (List ℕ × List ℕ)

abbrev world_read : World → ℕ → List ℕ → List ℕ × World
world_read h fd buf = (take (length buf) h.input, record h { input = drop (length buf) h.input })

abbrev world_write : World → ℕ → List ℕ → World
world_write h fd bytes = record h {
  public_output = if fd == 3 then h.public_output ++ bytes else h.public_output;
  other_output = if fd == 3 then h.other_output else h.other_output ++ bytes;
}

abbrev same_words : List ℕ → List ℕ → Bool
same_words [] [] = true
same_words [] (b ∷ bs) = false
same_words (a ∷ xs) [] = false
same_words (a ∷ xs) (b ∷ bs) = (a == b) && same_words xs bs

abbrev proves : List (List ℕ × List ℕ) → List ℕ → List ℕ → Bool
proves [] claim root = false
proves ((c, r) ∷ proven) claim root =
    (same_words c claim && same_words r root) || proves proven claim root

same_words_refl : (ws : List ℕ) → same_words ws ws ≡ true
same_words_refl [] = refl
same_words_refl (w ∷ ws) = rw ((==_iff w w).1 refl, same_words_refl ws) refl

pub proves_first :
    (c r : List ℕ) (proven : List (List ℕ × List ℕ)) → proves ((c, r) ∷ proven) c r ≡ true
proves_first c r proven = rw (same_words_refl c, same_words_refl r) refl

pub proves_later :
    (p : List ℕ × List ℕ) (c r : List ℕ) (proven : List (List ℕ × List ℕ))
    → proves proven c r ≡ true
    → proves (p ∷ proven) c r ≡ true
proves_later (d, q) c r proven has = elim (Bool-cases (same_words d c && same_words q r)) [
  | inl same ↦ rw same refl
  | inr other ↦ rw (other, has) refl
]

abbrev world_verify : World → List ℕ → List ℕ → Option World
world_verify h claim root =
    if proves h.proven claim root
    then some (record h { assumed = h.assumed ++ ((claim, root) ∷ []) })
    else none

abbrev pub machine : Platform
machine = record {
  Host = World;
  sys_read = world_read;
  sys_write = world_write;
  sys_verify_integrity = world_verify;
  sys_cycle_count = λ h. (h.cycles, record h { cycles = suc h.cycles });
  sha = toy;
}

abbrev pub machine-IsLawful : Platform.IsLawful machine
machine-IsLawful = record {
  stdin = λ h. h.input;
  journal = λ h. h.public_output;
  registered = λ h. h.assumed;
  receipts = λ h. proves h.proven;
  sha-IsLawful = toy-IsLawful;
  journal-write = λ h fd bytes. refl;
  journal-read = λ h fd b. refl;
  journal-cycle = λ h. refl;
  registered-write = λ h fd bytes. refl;
  registered-read = λ h fd b. refl;
  registered-cycle = λ h. refl;
  receipts-write = λ h fd bytes. refl;
  receipts-read = λ h fd b. refl;
  receipts-cycle = λ h. refl;
  verify-supplied = λ h c r has.
      (record h { assumed = h.assumed ++ ((c, r) ∷ []) }, rw has refl, refl, refl, refl);
  verify-missing = λ h c r gone. rw gone refl;
  read-stdin = λ h b room. (refl, refl);
  stdin-write = λ h fd bytes. refl;
}

-- A machine whose private input is the given bytes, and whose host has no receipt.
abbrev pub world : List ℕ → World
world input = record {
  input = input;
  public_output = [];
  assumed = [];
  other_output = [];
  cycles = 0;
  proven = [];
}
