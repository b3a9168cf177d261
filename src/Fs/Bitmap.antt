-- ===== src/Fs/Bitmap.antt =====
-- balloc and bfree of project3_filesystem/fs.c on the free map.
use ele3021_os.Mlfq.Kernel.{scan}
pub mod Alloc
pub mod Free
use ele3021_os.Prelude.{
  zero, some, none, true, ◌-◌, ◌≡◌, not, ltb, ◌+◌, suc, ◌<◌, ◌%◌, update, Bool, if◌then◌else◌, ◌/◌,
  ℕ,
}
use ele3021_os.Outcome.{Cmd, gets, pure, halt, out_of_fuel, ◌>>=◌, ◌>>◌}
use ele3021_os.Fs.State.{FileSystem, Bytes, bsize, bpb, set_block, log_block}
use ele3021_os.Fs.Bits.{has_bit, with_bit, without_bit}

-- BBLOCK
abbrev pub bblock : FileSystem → ℕ → ℕ
bblock s b = b / bpb + s.bmapstart

abbrev pub zeros : Bytes
zeros i = 0

unfoldable pub bzero : ℕ → Cmd FileSystem Unit
bzero b = do set_block b zeros; log_block b

-- The bits of one block of the map that stand for blocks of the disk.
abbrev pub bits_left : FileSystem → ℕ → ℕ
bits_left s b = if ltb (s.size - b) bpb then s.size - b else bpb

-- `(data[bi/8] & m) == 0`
abbrev pub is_clear : Bytes → ℕ → Bool
is_clear d bi = not (has_bit (d (bi / 8)) (bi % 8))

abbrev pub mark_used : ℕ → ℕ → Cmd FileSystem Unit
mark_used m bi = do
  d ← gets (λ s. s.blocks m)
  set_block m (update d (bi / 8) (with_bit (d (bi / 8)) (bi % 8)))
  log_block m

-- The loop of balloc from `b` on.
unfoldable pub balloc_from : ℕ → ℕ → Cmd FileSystem ℕ
unfolding bzero
balloc_from zero b s = out_of_fuel
balloc_from (suc fuel) b s =
    let rest = balloc_from fuel (b + bpb) s in
    if ltb b s.size
    then elim (scan (bits_left s b) 0 (is_clear (s.blocks (bblock s b)))) [
      | none ↦ rest
      | some bi ↦ (do mark_used (bblock s b) bi; bzero (b + bi); pure (b + bi)) s
    ]
    else halt "balloc: out of blocks" s

-- One round for each block of the map, and one more.
unfoldable pub balloc : Cmd FileSystem ℕ
balloc s = balloc_from (s.size / bpb + 2) 0 s

unfoldable pub bfree : ℕ → Cmd FileSystem Unit
bfree b = do
  m ← gets (λ s. bblock s b)
  d ← gets (λ s. s.blocks m)
  let bi : ℕ = b % bpb
  if is_clear d bi
      then halt "freeing free block"
      else do set_block m (update d (bi / 8) (without_bit (d (bi / 8)) (bi % 8))); log_block m

-- Whether the map says that `b` is in use.
abbrev pub is_used : FileSystem → ℕ → Bool
is_used s b = not (is_clear (s.blocks (bblock s b)) (b % bpb))

-- Blocks are bytes, and the boot block and the blocks of the map are in use themselves.
pub record IsFormatted (s : FileSystem) : Type 0 where
  pub bytes : (b i : ℕ) → s.blocks b i < 256
  pub boot : is_used s 0 ≡ true
  pub maps : (b : ℕ) → b < s.size → (bblock s b < s.size) × (is_used s (bblock s b) ≡ true)
