-- ===== src/Bitmap.antt =====
-- The inode bitmap and the data bitmap: `allocBit`, `allocInodeBlock`, `allocDataBlock`, `freeBit`,
-- `freeInodeBlock`, `freeDataBlock` of src/fs/vsfs.cpp. Each entry of a map is one byte, and
-- `allocBit` takes an entry that is 0.
pub mod Alloc
pub mod Count
pub mod Free
use very_simple_file_system.Base.{ℕ, zero, suc, ◌+◌, [], ◌∷◌, ◌==◌, if◌then◌else◌}
use very_simple_file_system.Run.{Cmd, pure, ◌>>=◌, ◌>>◌}
use very_simple_file_system.Layout.{minus_one, imap_start, dmap_start, inum, dnum, add32}
use very_simple_file_system.Disk.{Disk, dread, dwrite, int_of}

-- The loop of `allocBit` with `n` rounds left, at the index `i`.
alloc_loop : ℕ → ℕ → ℕ → Cmd Disk ℕ
alloc_loop zero start i = pure minus_one
alloc_loop (suc n) start i = do
  buffer ← dread (start + i) 1
  if int_of buffer == 0
      then (do dwrite (start + i) (1 ∷ []); pure i)
      else alloc_loop n start (i + 1)

unfoldable pub alloc_bit : ℕ → ℕ → Cmd Disk ℕ
unfolding alloc_loop
alloc_bit start len = alloc_loop len start 0

unfoldable pub alloc_inode_block : Cmd Disk ℕ
alloc_inode_block = alloc_bit imap_start inum

unfoldable pub alloc_data_block : Cmd Disk ℕ
alloc_data_block = alloc_bit dmap_start dnum

-- The code stores 1, the value of an entry that is taken.
unfoldable pub free_bit : ℕ → ℕ → Cmd Disk (Unit {0})
free_bit start_address offset = dwrite (add32 start_address offset) (1 ∷ [])

unfoldable pub free_inode_block : ℕ → Cmd Disk (Unit {0})
free_inode_block i_id = free_bit imap_start i_id

unfoldable pub free_data_block : ℕ → Cmd Disk (Unit {0})
free_data_block d_id = free_bit dmap_start d_id
