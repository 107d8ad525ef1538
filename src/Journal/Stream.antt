-- ===== src/Journal/Stream.antt =====
-- `UpdateProperHasher` as a whole: the loop ends, and the hasher has taken all the bytes.
use go_zkvm.Base.{ℕ, zero, suc, ◌≤◌, ◌<◌, ◌≡◌, refl, sym, ap, ◌∙◌, arith}
use mathlib.Core.Path.{subst}
use go_zkvm.Base.{inl, inr, Bool-cases, ltb}
use go_zkvm.Base.{ltb→lt, ltb-false}
use go_zkvm.Base.{List, [], ◌++◌, append_assoc, append-nil, length, take, drop}
use go_zkvm.Base.{length-drop, take-append-drop, copy, copy_le}
use go_zkvm.Sha.Accelerator.{Accelerator}
use go_zkvm.Journal.{Hasher, Slice, advance, absorb_block, full_blocks, buffer_tail, absorb}
use go_zkvm.Journal.{top_up}
use go_zkvm.Journal.Absorb.{Holds, Holds-extend}
use go_zkvm.Journal.Update.{top_up-Topped, absorb_block-Holds, Holds-same, nil_of_length}

-- What step 2 leaves: whole blocks taken off the front, and less than one block of data.
abbrev Looped : Accelerator → List ℕ → List ℕ → Hasher × Slice → Type 0
Looped acc message bytes r =
    (taken : List ℕ) × (bytes ≡ taken ++ r.1.bytes)
    × Holds acc r.0 (message ++ taken)
    × (r.0.buffer_len ≡ 0)
    × (length r.1.bytes < 64)

pub full_blocks_stop :
    (acc : Accelerator) (fuel : ℕ) (h : Hasher) (s : Slice)
    → length s.bytes < 64
    → full_blocks acc fuel h s ≡ (h, s)
unfolding full_blocks
full_blocks_stop acc zero h s short = refl
full_blocks_stop acc (suc fuel) h s short = ground arith

pub full_blocks_step :
    (acc : Accelerator) (fuel : ℕ) (h : Hasher) (s : Slice)
    → 64 ≤ length s.bytes
    → full_blocks acc (suc fuel) h s ≡ full_blocks acc fuel (absorb_block acc h s) (advance 64 s)
unfolding full_blocks
full_blocks_step acc fuel h s enough = ground arith

-- Before a round that is not made nothing is taken.
stopped-Looped :
    (acc : Accelerator) (fuel : ℕ) (h : Hasher) (message : List ℕ) (s : Slice)
    → Holds acc h message
    → h.buffer_len ≡ 0
    → length s.bytes < 64
    → Looped acc message s.bytes (full_blocks acc fuel h s)
stopped-Looped acc fuel h message s inv empty short =
    rw (full_blocks_stop acc fuel h s short) ([], refl, Holds-same acc inv, empty, short)

-- With as much fuel as there are bytes the loop ends by its test.
full_blocks-Looped :
    (acc : Accelerator) (fuel : ℕ) (h : Hasher) (message : List ℕ) (s : Slice)
    → Holds acc h message
    → h.buffer_len ≡ 0
    → length s.bytes ≤ fuel
    → Looped acc message s.bytes (full_blocks acc fuel h s)
full_blocks-Looped acc zero h message s inv empty bound =
    stopped-Looped acc zero h message s inv empty (omega arith)
full_blocks-Looped acc (suc fuel) h message s inv empty bound =
    elim (Bool-cases (ltb (length s.bytes) 64)) [
      | inl short ↦ stopped-Looped acc (suc fuel) h message s inv empty (ltb→lt _ _ short)
      | inr long ↦
          let enough : 64 ≤ length s.bytes = ltb-false _ _ long in
          let (inv', empty') = absorb_block-Holds acc inv s empty enough in
          let (taken, split, inv'', empty'', short) =
            full_blocks-Looped acc fuel (absorb_block acc h s) (message ++ take 64 s.bytes)
              (advance 64 s) inv' empty' (omega (arith, length-drop 64 s.bytes)) in
          rw (full_blocks_step acc fuel h s enough) (
            take 64 s.bytes ++ taken,
            sym (take-append-drop 64 s.bytes)
                ∙ ap (λ t. take 64 s.bytes ++ t) split
                ∙ sym (append_assoc (take 64 s.bytes) taken _),
            subst (Holds acc (full_blocks acc fuel (absorb_block acc h s) (advance 64 s)).0)
                (append_assoc message (take 64 s.bytes) taken) inv'',
            empty'',
            short,
          )
    ]

buffer_tail_stop :
    (acc : Accelerator) (h : Hasher) (s : Slice) → s.bytes ≡ [] → buffer_tail acc h s ≡ h
unfolding buffer_tail
buffer_tail_stop acc h s e = rw e

-- Step 3 on an empty buffer takes what is left.
buffer_tail-Holds :
    (acc : Accelerator) (h : Hasher) (message : List ℕ) (s : Slice)
    → Holds acc h message
    → h.buffer_len ≡ 0
    → length s.bytes < 64
    → Holds acc (buffer_tail acc h s) (message ++ s.bytes)
unfolding buffer_tail
buffer_tail-Holds acc h message s inv empty short = elim (Bool-cases (ltb 0 (length s.bytes))) [
  | inl more ↦ rw more (
      Holds-extend acc inv _ s.bytes (drop (length s.bytes) inv.junk) (omega (arith, inv.rest_len))
        refl tail_buffer
        (omega (arith, inv.buffer_size, inv.rest_len, length-drop (length s.bytes) inv.junk))
        (omega (arith, inv.rest_len)))
  | inr nothing ↦
      let gone : s.bytes ≡ [] =
        nil_of_length s.bytes (omega (arith, ltb-false 0 (length s.bytes) nothing)) in
      rw nothing (subst (λ t. Holds acc h (message ++ t)) (sym gone) (Holds-same acc inv))
]
  where
    nothing : inv.rest ≡ []
    nothing = nil_of_length inv.rest (omega (arith, inv.rest_len))

    tail_buffer :
        copy h.buffer_data s.bytes ≡ (inv.rest ++ s.bytes) ++ drop (length s.bytes) inv.junk
    tail_buffer =
        ap (λ t. copy t s.bytes) inv.buffered
        ∙ ap (λ t. copy (t ++ inv.junk) s.bytes) nothing
        ∙ copy_le inv.junk s.bytes (omega (arith, inv.buffer_size, inv.rest_len))
        ∙ ap (λ t. (t ++ s.bytes) ++ drop (length s.bytes) inv.junk) (sym nothing)

-- Steps 1 to 3 take all the bytes.
pub absorb-Holds :
    (acc : Accelerator) (h : Hasher) (message : List ℕ) (s : Slice)
    → Holds acc h message
    → Holds acc (absorb acc h s) (message ++ s.bytes)
unfolding absorb
absorb-Holds acc h message s inv =
    let (h1, s1) = top_up acc h s in
    let (taken, split, inv1, state) = top_up-Topped acc inv s in
    elim state [
      | inl empty ↦
          let (taken', split', inv2, empty', short) =
            full_blocks-Looped acc (length s1.bytes) h1 (message ++ taken) s1 inv1 empty
              (omega arith) in
          let (h2, s2) = full_blocks acc (length s1.bytes) h1 s1 in
          subst (Holds acc (buffer_tail acc h2 s2))
            (append_assoc (message ++ taken) taken' s2.bytes
              ∙ ap (λ t. (message ++ taken) ++ t) (sym split')
              ∙ append_assoc message taken s1.bytes
              ∙ ap (λ t. message ++ t) (sym split))
            (buffer_tail-Holds acc h2 ((message ++ taken) ++ taken') s2 inv2 empty' short)
      | inr gone ↦
          rw
            (
              full_blocks_stop acc (length s1.bytes) h1 s1 (omega (arith, ap length gone)),
              buffer_tail_stop acc h1 s1 gone,
            )
            (subst (Holds acc h1)
              (ap (λ t. message ++ t)
                (sym (append-nil taken) ∙ ap (λ t. taken ++ t) (sym gone) ∙ sym split))
              inv1)
    ]
