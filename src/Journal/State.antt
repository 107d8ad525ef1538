-- ===== src/Journal/State.antt =====
-- The package variables as a whole: what they stand for, and that `UpdateProperHasher` and
-- `InitProperHasher` keep it.
use go_zkvm.Base.{ℕ, zero, suc, ◌+◌, ◌%◌, ◌^◌, ◌≡◌, refl, ◌∙◌, arith}
use go_zkvm.Base.{true}
use go_zkvm.Base.{List, [], ◌++◌, length, length-append, replicate}
use go_zkvm.Sha.Accelerator.{Accelerator}
use go_zkvm.Journal.{Hasher, Globals, Slice, absorb, zero_digest, start, advance, top_up}
use go_zkvm.Journal.{
  fill_buffer, flush_buffer, process_block, full_blocks, absorb_block, buffer_tail,
}
use go_zkvm.Journal.{update_proper_hasher, ensure_initialized, init_proper_hasher}
use go_zkvm.Journal.Absorb.{Holds}
use go_zkvm.Journal.Stream.{absorb-Holds}

-- The hasher has taken `message`, and `total_len` counts it as a uint64.
pub record Absorbed (acc : Accelerator) (h : Hasher) (message : List ℕ) : Type 0 where
  pub holds : Holds acc h message
  pub counted : h.total_len ≡ length message % 2 ^ 64

-- The variables stand for the committed bytes and the assumptions digest. Before the first use they
-- stand for no bytes and the empty list of assumptions, with the buffer array in place.
pub record Represents (acc : Accelerator) (g : Globals) (message assumed : List ℕ) : Type 0 where
  pub absorbed : Absorbed acc (ensure_initialized g).hasher message
  pub list : (ensure_initialized g).assumptions ≡ assumed

ensure-true : (g : Globals) → g.initialized ≡ true → ensure_initialized g ≡ g
unfolding ensure_initialized
ensure-true g e = rw e

pub ensure_initialized-initialized : (g : Globals) → (ensure_initialized g).initialized ≡ true
unfolding ensure_initialized init_proper_hasher
ensure_initialized-initialized g = ground arith

-- `InitProperHasher` on variables that are in use changes nothing.
pub ensure_idem : (g : Globals) → ensure_initialized (ensure_initialized g) ≡ ensure_initialized g
ensure_idem g = ensure-true (ensure_initialized g) (ensure_initialized-initialized g)

top_up-total_len :
    (acc : Accelerator) (h : Hasher) (s : Slice) → (top_up acc h s).0.total_len ≡ h.total_len
unfolding top_up fill_buffer flush_buffer process_block
top_up-total_len acc h s = ground arith

full_blocks-total_len :
    (acc : Accelerator) (fuel : ℕ) (h : Hasher) (s : Slice)
    → (full_blocks acc fuel h s).0.total_len ≡ h.total_len
unfolding full_blocks absorb_block process_block
full_blocks-total_len acc zero h s = refl
full_blocks-total_len acc (suc fuel) h s =
    ground (arith, full_blocks-total_len acc fuel (absorb_block acc h s) (advance 64 s))

buffer_tail-total_len :
    (acc : Accelerator) (h : Hasher) (s : Slice) → (buffer_tail acc h s).total_len ≡ h.total_len
unfolding buffer_tail
buffer_tail-total_len acc h s = ground arith

absorb-total_len :
    (acc : Accelerator) (h : Hasher) (s : Slice) → (absorb acc h s).total_len ≡ h.total_len
unfolding absorb
absorb-total_len acc h s =
    buffer_tail-total_len acc _ _
    ∙ full_blocks-total_len acc (length (top_up acc h s).1.bytes) (top_up acc h s).0
        (top_up acc h s).1
    ∙ top_up-total_len acc h s

Holds-counted :
    (acc : Accelerator) (h : Hasher) (message : List ℕ) (n : ℕ)
    → Holds acc h message
    → Holds acc (record h { total_len = n }) message
Holds-counted acc h message n inv = record {
  rounds = inv.rounds;
  full = inv.full;
  rest = inv.rest;
  junk = inv.junk;
  split = inv.split;
  whole = inv.whole;
  compressed = inv.compressed;
  buffered = inv.buffered;
  buffer_size = inv.buffer_size;
  rest_len = inv.rest_len;
  rest_fits = inv.rest_fits;
}

-- The hasher after the first assignment of `UpdateProperHasher`.
abbrev counting : Globals → Slice → Hasher
counting g s =
    let h = (ensure_initialized g).hasher in
    record h { total_len = (h.total_len + length s.bytes) % 2 ^ 64 }

-- Whatever the length, the address and the earlier calls, `UpdateProperHasher` adds exactly the bytes
-- of its argument to what the variables stand for, and leaves the assumptions alone.
pub update-Represents :
    (acc : Accelerator) (g : Globals) (message assumed : List ℕ) (s : Slice)
    → Represents acc g message assumed
    → Represents acc (update_proper_hasher acc g s) (message ++ s.bytes) assumed
unfolding update_proper_hasher
update-Represents acc g message assumed s r = record {
  absorbed = rw again (record {
    holds =
        absorb-Holds acc (counting g s) message s
          (Holds-counted acc (ensure_initialized g).hasher message _ r.absorbed.holds);
    counted =
        absorb-total_len acc (counting g s) s
        ∙ omega (arith, r.absorbed.counted, length-append message s.bytes);
  });
  list = rw again r.list;
}
  where
    again : ensure_initialized (update_proper_hasher acc g s) ≡ update_proper_hasher acc g s
    again = ensure-true (update_proper_hasher acc g s) (ensure_initialized-initialized g)

-- The zero values of the package variables stand for no committed bytes and no assumptions.
pub start-Represents : (acc : Accelerator) → Represents acc start [] zero_digest
unfolding ensure_initialized init_proper_hasher
start-Represents acc = record {
  absorbed = record {
    holds = record {
      rounds = 0;
      full = [];
      rest = [];
      junk = replicate 64 0;
      split = refl;
      whole = omega arith;
      compressed = refl;
      buffered = refl;
      buffer_size = omega arith;
      rest_len = refl;
      rest_fits = omega arith;
    };
    counted = omega arith;
  };
  list = refl;
}

-- A new assumptions digest on initialized variables.
pub assume-Represents :
    (acc : Accelerator) (g : Globals) (message assumed list : List ℕ)
    → Represents acc g message assumed
    → Represents acc (record (ensure_initialized g) { assumptions = list }) message list
assume-Represents acc g message assumed list r =
    let g' : Globals = record (ensure_initialized g) { assumptions = list } in
    let again : ensure_initialized g' ≡ g' = ensure-true g' (ensure_initialized-initialized g) in
    record { absorbed = rw again r.absorbed; list = rw again refl }
