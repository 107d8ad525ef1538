-- ===== src/Journal/Update.antt =====
-- `UpdateProperHasher` keeps the invariant of the hasher, whatever the sizes and the alignment.
mod Steps
use Steps.{top_up_skip, top_up_empty, top_up_part, top_up_full, partly, filled}
use go_zkvm.Base.{ℕ, zero, suc, ◌+◌, ◌-◌, ◌*◌, ◌≤◌, ◌<◌, ◌≡◌, refl, sym, ap, ◌∙◌, arith, bit_and}
use go_zkvm.Base.{◌⊎◌, inl, inr, Bool, true, false, Bool-cases, ltb, leb, ◌==◌, if◌then◌else◌}
use go_zkvm.Base.{ltb→lt, lt→ltb, ltb-false, ltb_of_le, leb→le, leb-false}
use go_zkvm.Base.{List, [], ◌∷◌, ◌++◌, append_assoc, append-nil, length, length-append, take, drop}
use go_zkvm.Base.{take_all, drop_all, length-take, length-drop, take-append-drop, copy, copy_le}
use go_zkvm.Base.{copy_at, copy_at-append, length-copy, ==_iff}
use go_zkvm.Sha.Accelerator.{Accelerator}
use go_zkvm.Journal.{Hasher, Slice, advance, process_block, top_up, absorb_block, full_blocks}
use go_zkvm.Journal.{buffer_tail, absorb}
use go_zkvm.Journal.Absorb.{Holds, Holds-complete, Holds-extend}

pub nil_of_length {ℓ} : {A : Type ℓ} (xs : List A) → length xs ≡ 0 → xs ≡ []
nil_of_length [] h = refl
nil_of_length (x ∷ xs) h = absurd (omega arith)

-- What step 1 leaves: it took some bytes off the front, and the buffer is empty or the data is.
abbrev pub Topped : Accelerator → List ℕ → List ℕ → Hasher × Slice → Type 0
Topped acc message bytes r =
    (taken : List ℕ) × (bytes ≡ taken ++ r.1.bytes)
    × Holds acc r.0 (message ++ taken)
    × ((r.0.buffer_len ≡ 0) ⊎ (r.1.bytes ≡ []))

module _ (acc : Accelerator) {h : Hasher} {message : List ℕ} (inv : Holds acc h message) where
  -- The buffer after `more` is copied behind the bytes that it holds.
  buffer-copy_at :
      (more : List ℕ)
      → length inv.rest + length more ≤ 64
      → copy_at h.buffer_data h.buffer_len more ≡ (inv.rest ++ more) ++ drop (length more) inv.junk
  buffer-copy_at more fits =
      ap (λ t. copy_at t h.buffer_len more) inv.buffered
      ∙ copy_at-append inv.rest inv.junk more h.buffer_len inv.rest_len
      ∙ ap (λ t. inv.rest ++ t) (copy_le inv.junk more (omega (arith, inv.buffer_size)))
      ∙ sym (append_assoc inv.rest more (drop (length more) inv.junk))

  pub Holds-same : Holds acc h (message ++ [])
  Holds-same =
      Holds-extend acc inv h [] inv.junk (omega (arith, inv.rest_fits)) refl
        (inv.buffered ∙ ap (λ t. t ++ inv.junk) (sym (append-nil inv.rest)))
        (omega (arith, inv.buffer_size)) (omega (arith, inv.rest_len))

  partly-Topped :
      (s : Slice)
      → h.buffer_len + length s.bytes < 64
      → Topped acc message s.bytes (partly acc h s, advance (length s.bytes) s)
  partly-Topped s fits = (
    s.bytes,
    sym (ap (λ t. s.bytes ++ t) gone ∙ append-nil s.bytes),
    Holds-extend acc inv (partly acc h s) s.bytes (drop (length s.bytes) inv.junk)
        (omega (arith, inv.rest_len)) refl
        (ap (λ t. copy_at h.buffer_data h.buffer_len t)
            (take_all (length s.bytes) s.bytes (omega arith))
          ∙ buffer-copy_at s.bytes (omega (arith, inv.rest_len)))
        (omega (arith, inv.buffer_size, inv.rest_len, length-drop (length s.bytes) inv.junk))
        (omega (arith, inv.rest_len)),
    inr gone,
  )
    where
      gone : drop (length s.bytes) s.bytes ≡ []
      gone = drop_all (length s.bytes) s.bytes (omega arith)

  filled-Topped :
      (s : Slice)
      → 64 ≤ h.buffer_len + length s.bytes
      → Topped acc message s.bytes (
        process_block acc (filled acc h s) (filled acc h s).buffer_data,
        advance (64 - h.buffer_len) s,
      )
  unfolding process_block
  filled-Topped s enough = (
    more,
    sym (take-append-drop (64 - h.buffer_len) s.bytes),
    Holds-complete acc inv _ more size state_eq
        (ap length buffer ∙ omega (arith, length-append inv.rest more, size)) refl,
    inl refl,
  )
    where
      more : List ℕ
      more = take (64 - h.buffer_len) s.bytes

      size : length inv.rest + length more ≡ 64
      size = omega (arith, inv.rest_len, inv.rest_fits, length-take (64 - h.buffer_len) s.bytes)

      buffer : copy_at h.buffer_data h.buffer_len more ≡ inv.rest ++ more
      buffer =
          buffer-copy_at more (omega (arith, size))
          ∙ ap (λ t. (inv.rest ++ more) ++ t)
              (drop_all (length more) inv.junk (omega (arith, size, inv.buffer_size)))
          ∙ append-nil (inv.rest ++ more)

      state_eq :
          (process_block acc (filled acc h s) (filled acc h s).buffer_data).state
          ≡ acc.compress h.state (take 32 (inv.rest ++ more)) (drop 32 (inv.rest ++ more))
      state_eq =
          ap (λ t. acc.compress h.state (take 32 (take 64 t)) (drop 32 (take 64 t))) buffer
          ∙ ap (λ t. acc.compress h.state (take 32 t) (drop 32 t))
              (take_all 64 (inv.rest ++ more) (omega (arith, length-append inv.rest more, size)))

  -- Step 1 takes bytes into the invariant.
  pub top_up-Topped : (s : Slice) → Topped acc message s.bytes (top_up acc h s)
  top_up-Topped s = elim (Bool-cases (ltb 0 h.buffer_len)) [
    | inl some_bytes ↦ elim (Bool-cases (ltb (h.buffer_len + length s.bytes) 64)) [
      | inl fits ↦ elim (Bool-cases (ltb 0 (length s.bytes))) [
        | inl more ↦
            rw (top_up_part acc h s (ltb→lt _ _ some_bytes) (ltb→lt _ _ more) (ltb→lt _ _ fits))
              (partly-Topped s (ltb→lt _ _ fits))
        | inr nothing ↦
            rw
              (top_up_empty acc h s (ltb→lt _ _ some_bytes) not_full
                (omega (arith, ltb-false 0 (length s.bytes) nothing)))
              (
                [],
                refl,
                Holds-same,
                inr (nil_of_length s.bytes (omega (arith, ltb-false 0 (length s.bytes) nothing))),
              )
      ]
      | inr enough ↦
          rw (top_up_full acc h s (ltb→lt _ _ some_bytes) not_full (ltb-false _ _ enough))
            (filled-Topped s (ltb-false _ _ enough))
    ]
    | inr empty ↦
        let e : h.buffer_len ≡ 0 = omega (arith, ltb-false 0 h.buffer_len empty) in
        rw (top_up_skip acc h s e) ([], refl, Holds-same, inl e)
  ]
    where
      not_full : h.buffer_len < 64
      not_full = omega (arith, inv.rest_len, inv.rest_fits)

  -- One whole block, copied through the buffer or not.
  pub absorb_block-Holds :
      (s : Slice)
      → h.buffer_len ≡ 0
      → 64 ≤ length s.bytes
      → Holds acc (absorb_block acc h s) (message ++ take 64 s.bytes)
        × ((absorb_block acc h s).buffer_len ≡ 0)
  unfolding absorb_block process_block
  absorb_block-Holds s empty enough = elim (Bool-cases (bit_and s.addr 3 == 0)) [
    | inl aligned ↦ rw aligned (
      Holds-complete acc inv _ block size (state_of block (take_all 64 block (omega (arith, full))))
          buffer empty,
      empty,
    )
    | inr unaligned ↦ rw unaligned (
      Holds-complete acc inv _ block size
          (state_of (copy h.buffer_data block)
            (ap (take 64) copied ∙ take_all 64 block (omega (arith, full))))
          (length-copy h.buffer_data block ∙ buffer) empty,
      empty,
    )
  ]
    where
      block : List ℕ
      block = take 64 s.bytes

      full : length block ≡ 64
      full = omega (arith, length-take 64 s.bytes)

      nothing : inv.rest ≡ []
      nothing = nil_of_length inv.rest (omega (arith, inv.rest_len))

      size : length inv.rest + length block ≡ 64
      size = omega (arith, full, inv.rest_len)

      buffer : length h.buffer_data ≡ 64
      buffer =
          ap length inv.buffered ∙ omega (arith, length-append inv.rest inv.junk, inv.buffer_size)

      copied : copy h.buffer_data block ≡ block
      copied =
          copy_le h.buffer_data block (omega (arith, full, buffer))
          ∙ ap (λ t. block ++ t)
              (drop_all (length block) h.buffer_data (omega (arith, full, buffer)))
          ∙ append-nil block

      state_of :
          (source : List ℕ)
          → take 64 source ≡ block
          → acc.compress h.state (take 32 (take 64 source)) (drop 32 (take 64 source))
            ≡ acc.compress h.state (take 32 (inv.rest ++ block)) (drop 32 (inv.rest ++ block))
      state_of source e =
          ap (λ t. acc.compress h.state (take 32 t) (drop 32 t)) e
          ∙ ap (λ t. acc.compress h.state (take 32 (t ++ block)) (drop 32 (t ++ block)))
              (sym nothing)
