-- ===== src/Directory.antt =====
-- Directories of src/fs/vsfs.cpp: `DirEntry`, `readEntry`, `checkEntryExist`, `loadDirTable`, `loadCwdTable`,
-- `addEntryToDir`, `getDirFileNum`, `checkDirEmpty`.
-- A directory file holds its number of entries, an int, and then the entries, each the inode id,
-- the length of the name and the name. A deleted entry has the inode id -1.
pub mod Entries
pub mod Load
pub mod Saved
pub mod Counter
pub mod Add
pub mod Removed
pub mod Unique
pub mod Tree
pub mod Stream
pub mod Lookup
pub mod Reading
pub mod Terminate
use very_simple_file_system.Base.{
  ℕ, zero, suc, ◌+◌, ◌-◌, ◌^◌, ◌||◌, ◌&&◌, Bool, true, false, List, [], ◌∷◌, ◌==◌, ltb, leb,
  if◌then◌else◌, length,
}
use very_simple_file_system.Run.{
  Cmd, ok, fault, uninitialised, assertion, negative, out_of_fuel, pure, fail, ◌>>=◌, ◌>>◌,
}
use very_simple_file_system.Layout.{minus_one, add32, sizeof_int}
use very_simple_file_system.Disk.{Bytes, Disk, int_bytes, int_of, get_int_at, put_int_at}
use very_simple_file_system.Inode.{Inode, read_inode, write_inode}
use very_simple_file_system.File.{write_file, read_file}
use very_simple_file_system.Table.{Table, c_str, insert}

pub record DirEntry : Type 0 where
  pub node_index : ℕ
  pub nlen : ℕ
  pub name : Bytes

unfoldable pub get_size : DirEntry → ℕ
get_size en = sizeof_int + sizeof_int + en.nlen

-- A read into a new buffer that is then used whole: a byte that was not stored is uninitialised,
-- and `new char[len]` throws where `len` is negative.
unfoldable pub read_whole : Inode → ℕ → ℕ → Cmd Disk Bytes
read_whole node f_offset len = do
  if ltb len (2 ^ 31) then pure tt else fail negative
  buffer ← read_file node f_offset len
  if length buffer == len then pure buffer else fail uninitialised

unfoldable pub read_int : Inode → ℕ → Cmd Disk ℕ
read_int node f_offset = do buffer ← read_whole node f_offset sizeof_int; pure (int_of buffer)

unfoldable pub read_entry : Inode → ℕ → Cmd Disk DirEntry
read_entry dir f_offset = do
  node_index ← read_int dir f_offset
  nlen ← read_int dir (f_offset + sizeof_int)
  name ← read_whole dir (f_offset + sizeof_int + sizeof_int) nlen
  pure (record { node_index = node_index; nlen = nlen; name = c_str name })

unfoldable pub check_entry_exist : Inode → ℕ → Cmd Disk Bool
check_entry_exist dir offset = do
  node_id ← read_int dir offset
  pure (if node_id == minus_one then false else true)

-- The inner loop of `loadDirTable`: the first entry from `f_offset` on that is not deleted, and
-- the offset behind it. A round moves the offset on, and past the size a read is uninitialised, so
-- `dir->size` rounds are enough.
skip_deleted : ℕ → Inode → ℕ → Cmd Disk (ℕ × DirEntry)
skip_deleted zero dir f_offset = fail out_of_fuel
skip_deleted (suc fuel) dir f_offset = do
  en ← read_entry dir f_offset
  if en.node_index == minus_one
      then skip_deleted fuel dir (f_offset + get_size en)
      else pure (f_offset + get_size en, en)

load_entries : ℕ → Inode → ℕ → Table → Cmd Disk Table
unfolding skip_deleted
load_entries zero dir f_offset table = pure table
load_entries (suc n) dir f_offset table = do
  (f_offset', en) ← skip_deleted (dir.size + 1) dir f_offset
  load_entries n dir f_offset' (insert en.name en.node_index table)

-- With no round of the loop `delete[] en->name` reads a pointer that was never set. A negative
-- counter gives no round.
unfoldable pub load_dir_table : ℕ → Cmd Disk Table
unfolding load_entries
load_dir_table dir_id = do
  dir ← read_inode dir_id
  file_cnt ← get_int_at dir.addr_0
  if file_cnt == 0 || leb (2 ^ 31) file_cnt
      then fail uninitialised
      else load_entries file_cnt dir sizeof_int []

unfoldable pub add_entry_to_dir : ℕ → Bytes → ℕ → Cmd Disk (Unit {0})
add_entry_to_dir f_id filename dir = do
  dir₀ ← read_inode dir
  dir₁ ← write_file dir₀ dir₀.size (int_bytes f_id)
  let dir₂ : Inode = record dir₁ { size = dir₁.size + sizeof_int }
  dir₃ ← write_file dir₂ dir₂.size (int_bytes (length filename))
  let dir₄ : Inode = record dir₃ { size = dir₃.size + sizeof_int }
  dir₅ ← write_file dir₄ dir₄.size filename
  let dir₆ : Inode = record dir₅ { size = dir₅.size + length filename }
  write_inode dir dir₆
  f_cnt ← get_int_at dir₆.addr_0
  put_int_at dir₆.addr_0 (add32 f_cnt 1)

unfoldable pub get_dir_file_num : Inode → Cmd Disk ℕ
get_dir_file_num dir_node = get_int_at dir_node.addr_0

unfoldable pub check_dir_empty : Inode → Cmd Disk Bool
check_dir_empty dir_node = do
  if dir_node.type == 1 then pure tt else fail assertion
  file_num ← get_dir_file_num dir_node
  if leb 2 file_num && ltb file_num (2 ^ 31) then pure tt else fail assertion
  pure (if file_num == 2 then true else false)
