-- ===== src/Journal/Absorb.antt =====
-- The invariant of the running hasher, and the two ways in which it takes more bytes.
use go_zkvm.Base.{ℕ, suc, ◌+◌, ◌*◌, ◌<◌, ◌≡◌, refl, sym, ap, ◌∙◌, arith}
use go_zkvm.Base.{List, [], ◌++◌, append_assoc, append-nil, length, length-append, take, drop}
use go_zkvm.Base.{take_all, length-drop}
use go_zkvm.Sha.Accelerator.{Accelerator, compress_blocks}
use go_zkvm.Sha.Hash.{sha256_init_state}
use go_zkvm.Sha.Hash.Blocks.{compress_blocks-add}
use go_zkvm.Journal.{Hasher}

-- The hasher has taken the bytes of `message`: the whole blocks are compressed into the state, and
-- what is left stands at the front of the buffer.
pub record Holds (acc : Accelerator) (h : Hasher) (message : List ℕ) : Type 0 where
  pub rounds : ℕ
  pub full : List ℕ
  pub rest : List ℕ
  pub junk : List ℕ
  pub split : message ≡ full ++ rest
  pub whole : length full ≡ 64 * rounds
  pub compressed : h.state ≡ compress_blocks acc rounds sha256_init_state full
  pub buffered : h.buffer_data ≡ rest ++ junk
  pub buffer_size : length rest + length junk ≡ 64
  pub rest_len : h.buffer_len ≡ length rest
  pub rest_fits : length rest < 64

module _ (acc : Accelerator) {h : Hasher} {message : List ℕ} (inv : Holds acc h message) where
  -- Bytes that complete the block.
  pub Holds-complete :
      (h' : Hasher) (more : List ℕ)
      → length inv.rest + length more ≡ 64
      → h'.state ≡ acc.compress h.state (take 32 (inv.rest ++ more)) (drop 32 (inv.rest ++ more))
      → length h'.buffer_data ≡ 64
      → h'.buffer_len ≡ 0
      → Holds acc h' (message ++ more)
  Holds-complete h' more size state buffer len = record {
    rounds = suc inv.rounds;
    full = inv.full ++ block;
    rest = [];
    junk = h'.buffer_data;
    split =
        ap (λ t. t ++ more) inv.split
        ∙ append_assoc inv.full inv.rest more
        ∙ sym (append-nil (inv.full ++ block));
    whole = omega (arith, inv.whole, length-append inv.full block, block_size);
    compressed =
        state
        ∙ ap (λ t. acc.compress t (take 32 block) (drop 32 block)) inv.compressed
        ∙ ap
            (acc.compress (compress_blocks acc inv.rounds sha256_init_state inv.full)
              (take 32 block))
            (sym (take_all 32 (drop 32 block) (omega (arith, length-drop 32 block, block_size))))
        ∙ sym (
            compress_blocks-add acc inv.rounds 1 (suc inv.rounds) sha256_init_state inv.full block
              (omega arith) inv.whole);
    buffered = refl;
    buffer_size = omega (arith, buffer);
    rest_len = len;
    rest_fits = omega arith;
  }
    where
      block : List ℕ
      block = inv.rest ++ more

      block_size : length block ≡ 64
      block_size = omega (arith, length-append inv.rest more, size)

  -- Bytes that fit the buffer and leave room.
  pub Holds-extend :
      (h' : Hasher) (more junk : List ℕ)
      → length inv.rest + length more < 64
      → h'.state ≡ h.state
      → h'.buffer_data ≡ (inv.rest ++ more) ++ junk
      → length inv.rest + length more + length junk ≡ 64
      → h'.buffer_len ≡ length inv.rest + length more
      → Holds acc h' (message ++ more)
  Holds-extend h' more junk fits state buffer size len = record {
    rounds = inv.rounds;
    full = inv.full;
    rest = inv.rest ++ more;
    junk = junk;
    split = ap (λ t. t ++ more) inv.split ∙ append_assoc inv.full inv.rest more;
    whole = inv.whole;
    compressed = state ∙ inv.compressed;
    buffered = buffer;
    buffer_size = omega (arith, length-append inv.rest more);
    rest_len = omega (arith, length-append inv.rest more);
    rest_fits = omega (arith, length-append inv.rest more);
  }
