-- ===== src/Journal.antt =====
-- zkvm/sha256_proper.go, the stateful part: the running journal hasher, its finalization, and the
-- assumptions list. The package variables are one record that every function takes and returns.
pub mod Absorb
pub mod Update
pub mod Stream
pub mod Rounds
pub mod State
pub mod Finalize
use go_zkvm.Base.{ℕ, zero, suc, ◌+◌, ◌-◌, ◌*◌, ◌/◌, ◌%◌, ◌^◌, bit_and, Bool, true, false, not}
use go_zkvm.Base.{List, [], ◌∷◌, length, take, drop, replicate, copy, copy_at}
use go_zkvm.Base.{Option, some, ◌>>=◌, ltb, leb, ◌==◌, if◌then◌else◌}
use go_zkvm.Sha.Accelerator.{Accelerator}
use go_zkvm.Sha.Padding.{block_size, pad_buffer}
use go_zkvm.Sha.Hash.{sha256_init_state}
use go_zkvm.Sha.Tagged.{tagged_struct, tagged_list_cons}

-- `ProperJournalHasher`
pub record Hasher : Type 0 where
  pub state : List ℕ
  pub buffer_data : List ℕ
  pub buffer_len : ℕ
  pub total_len : ℕ

-- `properHasher`, `properHasherInitialized` and `assumptionsDigestWords`.
pub record Globals : Type 0 where
  pub hasher : Hasher
  pub initialized : Bool
  pub assumptions : List ℕ

abbrev pub zero_digest : List ℕ
zero_digest = replicate 8 0

-- The package variables when the guest starts: Go's zero values.
abbrev pub start : Globals
start = record {
  hasher = record {
    state = zero_digest;
    buffer_data = replicate 64 0;
    buffer_len = 0;
    total_len = 0;
  };
  initialized = false;
  assumptions = zero_digest;
}

-- A byte slice with the address of its first element.
pub record Slice : Type 0 where
  pub addr : ℕ
  pub bytes : List ℕ

-- `data[n:]`
abbrev pub advance : ℕ → Slice → Slice
advance n data' = record { addr = data'.addr + n; bytes = drop n data'.bytes }

-- The bytes of the buffer array outlive a call; the other fields are set anew.
pub init_proper_hasher : Globals → Globals
init_proper_hasher g = record {
  hasher = record (g.hasher) { state = sha256_init_state; buffer_len = 0; total_len = 0 };
  initialized = true;
  assumptions = zero_digest;
}

pub ensure_initialized : Globals → Globals
ensure_initialized g = if g.initialized then g else init_proper_hasher g

module _ (acc : Accelerator) where
  pub process_block : Hasher → List ℕ → Hasher
  process_block h block =
      let aligned = take block_size block in
      record h { state = acc.compress h.state (take 32 aligned) (drop 32 aligned) }

  -- `need` at the top of step 1: what the buffer lacks, or all there is.
  abbrev pub need_bytes : Hasher → Slice → ℕ
  need_bytes h s =
      let need = block_size - h.buffer_len in
      if ltb (length s.bytes) need then length s.bytes else need

  -- The inner `if need > 0`.
  pub fill_buffer : ℕ → Hasher → Slice → Hasher × Slice
  fill_buffer need h s =
      if ltb 0 need
      then (
        record h {
          buffer_data = copy_at h.buffer_data h.buffer_len (take need s.bytes);
          buffer_len = h.buffer_len + need;
        },
        advance need s,
      )
      else (h, s)

  -- The inner `if properHasher.bufferLen == SHA256_BLOCK_SIZE`.
  pub flush_buffer : Hasher → Hasher
  flush_buffer h =
      if h.buffer_len == block_size
      then record (process_block h h.buffer_data) { buffer_len = 0 }
      else h

  -- Step 1 of `UpdateProperHasher`.
  pub top_up : Hasher → Slice → Hasher × Slice
  top_up h s =
      if ltb 0 h.buffer_len
      then (let (h', s') = fill_buffer (need_bytes h s) h s in (flush_buffer h', s'))
      else (h, s)

  -- The body of the loop of step 2, up to the advance of `data`.
  pub absorb_block : Hasher → Slice → Hasher
  absorb_block h s =
      let block = take block_size s.bytes in
      let copied = record h { buffer_data = copy h.buffer_data block } in
      if bit_and s.addr 3 == 0
      then process_block h block
      else process_block copied copied.buffer_data

  -- Step 2. Each round takes 64 bytes, so `length s.bytes` rounds are enough.
  pub full_blocks : ℕ → Hasher → Slice → Hasher × Slice
  full_blocks zero h s = (h, s)
  full_blocks (suc fuel) h s = elim (leb block_size (length s.bytes)) [
    | true ↦ full_blocks fuel (absorb_block h s) (advance block_size s)
    | false ↦ (h, s)
  ]

  -- Step 3.
  pub buffer_tail : Hasher → Slice → Hasher
  buffer_tail h s =
      if ltb 0 (length s.bytes)
      then record h { buffer_data = copy h.buffer_data s.bytes; buffer_len = length s.bytes }
      else h

  -- Steps 1 to 3.
  pub absorb : Hasher → Slice → Hasher
  absorb h s =
      let (h1, s1) = top_up h s in
      let (h2, s2) = full_blocks (length s1.bytes) h1 s1 in buffer_tail h2 s2

  pub update_proper_hasher : Globals → Slice → Globals
  update_proper_hasher g s =
      let g' = ensure_initialized g in
      let h = g'.hasher in
      record g' {
        hasher = absorb (record h { total_len = (h.total_len + length s.bytes) % 2 ^ 64 }) s;
      }

  -- The padding and the last compressions of `FinalizeProperHasher`. The hasher is only read.
  pub journal_digest : Hasher → Option (List ℕ)
  journal_digest h = do
    pad ← pad_buffer (take h.buffer_len h.buffer_data) (h.total_len * 8 % 2 ^ 64 % 2 ^ 32)
    let pad_words = length pad / 4
    some (if ltb 0 pad_words then acc.buffer h.state pad (pad_words / 16) else h.state)

  pub finalize_proper_hasher : Globals → Option (List ℕ × Globals)
  finalize_proper_hasher g = do
    let g' = ensure_initialized g
    digest ← journal_digest g'.hasher
    output ← tagged_struct acc "risc0.Output" (digest ∷ g'.assumptions ∷ [])
    some (output, g')

  pub add_assumption_digest : List ℕ → List ℕ → Globals → Option Globals
  add_assumption_digest claim_digest control_root g = do
    assumption ← tagged_struct acc "risc0.Assumption" (claim_digest ∷ control_root ∷ [])
    list ← tagged_list_cons acc "risc0.Assumptions" assumption g.assumptions
    some (record g { assumptions = list })
