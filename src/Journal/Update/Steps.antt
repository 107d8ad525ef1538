-- ===== src/Journal/Update/Steps.antt =====
-- Step 1 of `UpdateProperHasher` on each of its branches.
use go_zkvm.Base.{◌+◌, ◌-◌, ◌≤◌, ◌<◌, ◌≡◌, arith}
use go_zkvm.Base.{length, take}
use go_zkvm.Base.{copy_at}
use go_zkvm.Sha.Accelerator.{Accelerator}
use go_zkvm.Journal.{Hasher, Slice, advance, process_block, fill_buffer, flush_buffer}
use go_zkvm.Journal.{top_up}

module _ (acc : Accelerator) (h : Hasher) (s : Slice) where
  pub top_up_skip : h.buffer_len ≡ 0 → top_up acc h s ≡ (h, s)
  unfolding top_up
  top_up_skip e = ground arith

  pub top_up_empty :
      0 < h.buffer_len → h.buffer_len < 64 → length s.bytes ≡ 0 → top_up acc h s ≡ (h, s)
  unfolding top_up fill_buffer flush_buffer
  top_up_empty p q e = ground arith

  abbrev pub partly : Hasher
  partly = record h {
    buffer_data = copy_at h.buffer_data h.buffer_len (take (length s.bytes) s.bytes);
    buffer_len = h.buffer_len + length s.bytes;
  }

  pub top_up_part :
      0 < h.buffer_len
      → 0 < length s.bytes
      → h.buffer_len + length s.bytes < 64
      → top_up acc h s ≡ (partly, advance (length s.bytes) s)
  unfolding top_up fill_buffer flush_buffer
  top_up_part p q fits = ground arith

  abbrev pub filled : Hasher
  filled = record h {
    buffer_data = copy_at h.buffer_data h.buffer_len (take (64 - h.buffer_len) s.bytes);
    buffer_len = 0;
  }

  pub top_up_full :
      0 < h.buffer_len
      → h.buffer_len < 64
      → 64 ≤ h.buffer_len + length s.bytes
      → top_up acc h s
        ≡ (process_block acc filled filled.buffer_data, advance (64 - h.buffer_len) s)
  unfolding top_up fill_buffer flush_buffer process_block
  top_up_full p q fits = ground arith
