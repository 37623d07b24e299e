-- ===== src/FileSystem/Remove.antt =====
-- Removal: `freeFile`, `rmDirEntry`, `rm`, `rmdir` of src/fs/vsfs.cpp.
pub mod Free
pub mod Entry
pub mod Found
pub mod Rm
use very_simple_file_system.Base.{
  ℕ, zero, suc, ◌+◌, ◌-◌, ◌*◌, ◌/◌, ◌^◌, ◌++◌, true, false, ◌||◌, ◌==◌, leb, if◌then◌else◌, codes,
}
use very_simple_file_system.Run.{Cmd, uninitialised, pure, fail, ◌>>=◌, ◌>>◌}
use very_simple_file_system.Layout.{minus_one, add32, dsize, sizeof_int, get_data_id_by_offset}
use very_simple_file_system.Disk.{Bytes, Disk, int_bytes, get_int_at, put_int_at}
use very_simple_file_system.Bitmap.{free_data_block, free_inode_block}
use very_simple_file_system.Table.{text_eq}
use very_simple_file_system.Inode.{Inode, read_inode}
use very_simple_file_system.File.{write_file}
use very_simple_file_system.Directory.{get_size, read_entry, get_dir_file_num, check_dir_empty}
use very_simple_file_system.FileSystem.State.{Action, state, on_disk, say, endl, load_cwd_table}

-- The loop of `freeFile` over the addresses that it computes, from the round `i` on.
free_blocks : ℕ → ℕ → ℕ → Cmd Disk (Unit {0})
free_blocks zero level_1_addr i = pure tt
free_blocks (suc n) level_1_addr i = do
  free_data_block (get_data_id_by_offset (add32 level_1_addr (i * sizeof_int)))
  free_blocks n level_1_addr (i + 1)

-- The branches of `freeFile`: only `addr_0`, `addr_1` too, or `addr_2` too.
unfoldable pub free_data_blocks : Inode → Cmd Disk (Unit {0})
unfolding free_blocks
free_data_blocks node =
    if node.addr_1 == minus_one
    then free_data_block (get_data_id_by_offset node.addr_0)
    else if node.addr_2 == minus_one
    then (do
      level_1_addr ← get_int_at node.addr_1
      free_blocks (node.capacity / dsize - 1) level_1_addr 0)
    else pure tt

unfoldable pub free_file : ℕ → Cmd Disk (Unit {0})
free_file i_id = do node ← read_inode i_id; free_data_blocks node; free_inode_block i_id

-- The branch of `rmDirEntry` that removes the entry at `f_offset`.
unfoldable pub remove_entry : Inode → ℕ → ℕ → Action (Unit {0})
remove_entry dir f_offset en_id = do
  on_disk (write_file dir f_offset (int_bytes minus_one))
  f_cnt ← on_disk (get_int_at dir.addr_0)
  on_disk (put_int_at dir.addr_0 (add32 f_cnt minus_one))
  load_cwd_table
  on_disk (free_file en_id)

-- The branch of `rmDirEntry` for the entry with the name, at `f_offset`.
unfoldable pub remove_found : Inode → ℕ → ℕ → Inode → Action (Unit {0})
remove_found dir f_offset en_id entry_node = do
  refused ←
      (if entry_node.type == 1
        then (do empty ← on_disk (check_dir_empty entry_node); pure (if empty then false else true))
        else pure false)
  if refused
      then say (codes "directory must be empty." ++ endl)
      else remove_entry dir f_offset en_id

-- The loop of `rmDirEntry` with `n` rounds left.
unfoldable pub rm_loop : ℕ → Inode → Bytes → ℕ → Action (Unit {0})
rm_loop zero dir filename f_offset = pure tt
rm_loop (suc n) dir filename f_offset = do
  en ← on_disk (read_entry dir f_offset)
  entry_node ← on_disk (read_inode en.node_index)
  if text_eq en.name filename
      then remove_found dir f_offset en.node_index entry_node
      else rm_loop n dir filename (f_offset + get_size en)

-- The parameters `d_id` and `f_t` are not used. With no round of the loop the code deletes a pointer that
-- was never set.
unfoldable pub rm_dir_entry : ℕ → Bytes → ℕ → Action (Unit {0})
rm_dir_entry d_id filename f_t = do
  s ← state
  dir ← on_disk (read_inode s.cwd)
  file_cnt ← on_disk (get_dir_file_num dir)
  if file_cnt == 0 || leb (2 ^ 31) file_cnt
      then fail uninitialised
      else rm_loop file_cnt dir filename sizeof_int

unfoldable pub rm : Bytes → Action (Unit {0})
rm name = do s ← state; rm_dir_entry s.cwd name 1

unfoldable pub rmdir : Bytes → Action ℕ
rmdir name = do rm name; pure 0
