-- ===== src/File.antt =====
-- The mapping layer of src/fs/vsfs.cpp: `calcDiskAddr`, `allocAddr_1`, `allocLevel1Block`,
-- `writeData`, `readData`. The inode that the C++ code changes through a pointer is returned.
-- File offsets and lengths are natural numbers; their sums do not wrap, since a file has less than
-- 4M bytes and a C++ sum that overflows is undefined.
pub mod Blocks
pub mod Spec
pub mod Bounds
pub mod Chunk
pub mod Write
pub mod Read
pub mod Stored
pub mod Extends
pub mod Indirect
pub mod Level1
pub mod Grow
pub mod Append
pub mod New
pub mod Isolation
pub mod Sound
pub mod RoundTrip
pub mod Longer
pub mod Terminate
use very_simple_file_system.Base.{
  ℕ, zero, suc, ◌+◌, ◌-◌, ◌*◌, ◌/◌, ◌%◌, List, [], ◌∷◌, ◌++◌, ◌==◌, ◌||◌, ◌^◌, ltb, leb,
  if◌then◌else◌, length, take, drop, min,
}
use very_simple_file_system.Run.{
  Cmd, ok, fault, uninitialised, negative, out_of_fuel, pure, fail, ◌>>=◌, ◌>>◌,
}
use very_simple_file_system.Layout.{
  minus_one, add32, dsize, sizeof_int, cap_0, cap_1, get_data_offset, get_block_inner_offset,
}
use very_simple_file_system.Disk.{Bytes, Disk, dread, dwrite, get_int_at, put_int_at}
use very_simple_file_system.Bitmap.{alloc_data_block}
use very_simple_file_system.Inode.{Inode}

-- From `cap_1` on, the code returns a variable that it never set.
unfoldable pub calc_disk_addr : Inode → ℕ → Cmd Disk ℕ
calc_disk_addr node f_offset =
    if ltb f_offset cap_0
    then pure (add32 node.addr_0 f_offset)
    else if ltb f_offset cap_1
    then (do
      let offset_1 = f_offset - cap_0
      block ← get_int_at (add32 node.addr_1 (offset_1 / cap_0 * sizeof_int))
      pure (add32 block (offset_1 % cap_0)))
    else fail uninitialised

unfoldable pub alloc_addr_1 : Inode → Cmd Disk Inode
alloc_addr_1 node = do d_id ← alloc_data_block; pure (record node { addr_1 = get_data_offset d_id })

-- The division rounds towards zero, so that the index is -1 only for a capacity of 0.
unfoldable pub alloc_level1_block : Inode → Cmd Disk (Unit {0})
alloc_level1_block node = do
  let level1_block_index =
      if node.capacity == 0 then minus_one else (node.capacity - 1 * dsize) / dsize
  d_id ← alloc_data_block
  put_int_at (add32 node.addr_1 (level1_block_index * sizeof_int)) (get_data_offset d_id)

-- `if (node->addr_1 == -1) allocAddr_1(node);`
unfoldable pub ensure_addr_1 : Inode → Cmd Disk Inode
ensure_addr_1 node = if node.addr_1 == minus_one then alloc_addr_1 node else pure node

-- The branch of `writeData` that adds a block.
unfoldable pub grow : Inode → Cmd Disk Inode
grow node = do
  node' ← ensure_addr_1 node
  alloc_level1_block node'
  pure (record node' { capacity = node'.capacity + dsize })

-- Each call, the recursive ones included, takes one unit of fuel. A negative capacity is a fault.
unfoldable pub write_data : ℕ → Inode → ℕ → Bytes → Cmd Disk Inode
write_data zero node f_offset source = fail out_of_fuel
write_data (suc fuel) node f_offset source =
    let inner = get_block_inner_offset f_offset in
    if leb (2 ^ 31) node.capacity
    then fail negative
    else if ltb f_offset node.capacity
    then (do
      disk_addr ← calc_disk_addr node f_offset
      if leb (inner + length source) dsize then (do dwrite disk_addr source; pure node) else (do
        dwrite disk_addr (take (dsize - inner) source)
        write_data fuel node (f_offset + (dsize - inner)) (drop (dsize - inner) source)))
    else (do node' ← grow node; write_data fuel node' f_offset source)

-- The bytes that `readData` stored in the buffer, which may be fewer than `len`. Nothing is read
-- from a file with a negative size. What it prints at the end is in `FileSystem.Content`.
unfoldable pub read_data : ℕ → Inode → ℕ → ℕ → Cmd Disk Bytes
read_data zero node f_offset len = fail out_of_fuel
read_data (suc fuel) node f_offset len =
    let inner = get_block_inner_offset f_offset in
    if leb node.size f_offset || leb (2 ^ 31) node.size then pure [] else (do
      disk_addr ← calc_disk_addr node f_offset
      if leb (inner + len) dsize then dread disk_addr (min len (node.size - f_offset)) else (do
        head ← dread disk_addr (dsize - inner)
        rest ← read_data fuel node (f_offset + (dsize - inner)) (len - (dsize - inner))
        pure (head ++ rest)))

-- Enough fuel: a call for each block to add and for each block to write.
abbrev pub write_fuel : ℕ → ℕ → ℕ
write_fuel f_offset len = 2 * ((f_offset + len) / dsize) + 4

abbrev pub read_fuel : ℕ → ℕ → ℕ
read_fuel f_offset len = (f_offset + len) / dsize + 2

unfoldable pub write_file : Inode → ℕ → Bytes → Cmd Disk Inode
write_file node f_offset source =
    write_data (write_fuel f_offset (length source)) node f_offset source

unfoldable pub read_file : Inode → ℕ → ℕ → Cmd Disk Bytes
read_file node f_offset len = read_data (read_fuel f_offset len) node f_offset len
