-- ===== src/FileSystem/Content.antt =====
-- The commands on the content of files and directories of src/fs/vsfs.cpp: `write`, `write_`,
-- `read`, `cat`, `ls`, `tree`, `import`, `export_`.
pub mod Write
pub mod Read
pub mod Reading
pub mod Export
pub mod Import
pub mod Transfer
use very_simple_file_system.Base.{
  ℕ, zero, suc, ◌+◌, ◌^◌, List, [], ◌∷◌, ◌++◌, Bool, true, false, ◌||◌, Option, none, some, ◌==◌,
  ltb, leb, if◌then◌else◌, codes, length, ◌-◌,
}
use very_simple_file_system.Run.{
  Run, Cmd, ok, fault, uninitialised, negative, out_of_fuel, pure, fail, ◌>>=◌, ◌>>◌,
}
use very_simple_file_system.Layout.{minus_one, add32, dsize, get_block_inner_offset}
use very_simple_file_system.Disk.{Bytes}
use very_simple_file_system.Table.{Table, text_eq, show_int, c_str, find}
use very_simple_file_system.Inode.{Inode, read_inode, write_inode}
use very_simple_file_system.File.{write_file, read_file, read_fuel}
use very_simple_file_system.Directory.{load_dir_table, read_whole}
use very_simple_file_system.FileSystem.State.{
  OpenFile, FileSystem, Action, Returned, state, on_disk, say, endl,
}
use very_simple_file_system.FileSystem.Descriptor.{fd_find, fd_set_offset, open_file, close}

-- `write_(fd, str, size)` with what `fd_map.find(fd)` gives; `str` holds the `size` bytes.
unfoldable pub write_descriptor : ℕ → Bytes → Option OpenFile → Action Returned
write_descriptor fd str none = do say (codes "unknown file descriptor\n"); pure (some minus_one)
write_descriptor fd str (some f) = do
  if ltb f.offset (2 ^ 31) then pure tt else fail negative
  node ← on_disk (read_inode f.i_id)
  node' ← on_disk (write_file node f.offset str)
  on_disk (
      write_inode f.i_id (
        if leb (f.offset + length str) node'.size
        then node'
        else record node' { size = f.offset + length str }))
  λ t. ok none (record t { fd_map = fd_set_offset fd (add32 f.offset (length str)) t.fd_map })

unfoldable pub write_ : ℕ → Bytes → Action Returned
unfolding write_descriptor
write_ fd str = do s ← state; write_descriptor fd str (fd_find fd s.fd_map)

unfoldable pub write : ℕ → Bytes → Action Returned
write fd str = do write_ fd (c_str str); pure none

-- Whether one of the calls of `readData` starts at the end of the file or behind it.
unfoldable pub reads_at_end : ℕ → Inode → ℕ → ℕ → Bool
reads_at_end zero node f_offset len = false
reads_at_end (suc fuel) node f_offset len =
    let inner = get_block_inner_offset f_offset in
    let later = reads_at_end fuel node (f_offset + (dsize - inner)) (len - (dsize - inner)) in
    if leb node.size f_offset || leb (2 ^ 31) node.size
    then true
    else if leb (inner + len) dsize
    then false
    else later

-- What that call prints; it is the last one.
unfoldable pub tell_end : Inode → ℕ → ℕ → Action (Unit {0})
tell_end node f_offset len =
    if reads_at_end (read_fuel f_offset len) node f_offset len
    then say (codes "file offset is greater than file size. read nothing." ++ endl)
    else pure tt

-- `std::cout << buffer` stops at a NUL; bytes that were not read are uninitialised.
unfoldable pub print_buffer : ℕ → Bytes → Action (Unit {0})
print_buffer len buffer =
    if length buffer == len || ltb (length (c_str buffer)) (length buffer)
    then say (c_str buffer ++ endl)
    else fail uninitialised

unfoldable pub read_descriptor : ℕ → ℕ → Option OpenFile → Action Returned
read_descriptor fd size none = do say (codes "unknown file descriptor\n"); pure (some minus_one)
read_descriptor fd size (some f) = do
  if ltb f.offset (2 ^ 31) then pure tt else fail negative
  if ltb size (2 ^ 31) then pure tt else fail negative
  node ← on_disk (read_inode f.i_id)
  tell_end node f.offset size
  buffer ← on_disk (read_file node f.offset size)
  print_buffer size buffer
  λ t. ok none (record t { fd_map = fd_set_offset fd (add32 f.offset size) t.fd_map })

unfoldable pub read : ℕ → ℕ → Action Returned
unfolding read_descriptor
read fd size = do s ← state; read_descriptor fd size (fd_find fd s.fd_map)

unfoldable pub cat_entry : Option ℕ → Action ℕ
cat_entry none = do say (codes "no such file.\n"); pure minus_one
cat_entry (some i_id) = do
  node ← on_disk (read_inode i_id)
  if node.size == 0 then say (codes "file size is 0" ++ endl) else pure tt
  tell_end node 0 node.size
  content ← on_disk (read_whole node 0 node.size)
  say (content ++ endl)
  pure 0

unfoldable pub cat : Bytes → Action ℕ
unfolding cat_entry
cat filename = do s ← state; cat_entry (find filename s.cwd_table)

-- The letter of the file's type; the code has none for other types.
unfoldable pub type_letter : ℕ → Action Bytes
type_letter type =
    if type == 0
    then pure (codes "-")
    else if type == 1
    then pure (codes "d")
    else fail uninitialised

unfoldable pub ls_entries : Table → Action (Unit {0})
ls_entries [] = pure tt
ls_entries ((file_name, i_id) ∷ rest) = do
  node ← on_disk (read_inode i_id)
  type ← type_letter node.type
  say (
      type
      ++ (9 ∷ file_name
          ++ (9 ∷ c_str node.date ++ (9 ∷ show_int node.size ++ (codes "Kb" ++ endl)))))
  ls_entries rest

unfoldable pub ls : Action Returned
ls = do s ← state; ls_entries s.cwd_table; pure none

abbrev pub indent : ℕ → Bytes
indent zero = []
indent (suc depth) = codes "|   " ++ indent depth

-- The loop of `tree_inner` over a directory's table; `inner` lists a directory one level down.
pub tree_entries : (ℕ → Action (Unit {0})) → ℕ → Table → Action (Unit {0})
tree_entries inner depth [] = pure tt
tree_entries inner depth ((file_name, i_id) ∷ rest) =
    if text_eq file_name (codes ".") || text_eq file_name (codes "..")
    then tree_entries inner depth rest
    else (do
      node ← on_disk (read_inode i_id)
      say (indent depth ++ (codes "|---" ++ (file_name ++ endl)))
      if node.type == 1 then inner i_id else pure tt
      tree_entries inner depth rest)

-- `fuel` bounds the depth, since a damaged directory may contain itself.
unfoldable pub tree_inner : ℕ → ℕ → ℕ → Action (Unit {0})
unfolding tree_entries
tree_inner zero dir depth = fail out_of_fuel
tree_inner (suc fuel) dir depth = do
  dir_table ← on_disk (load_dir_table dir)
  tree_entries (λ i_id. tree_inner fuel i_id (depth + 1)) depth dir_table

unfoldable pub tree : ℕ → Action (Unit {0})
tree fuel = do s ← state; tree_inner fuel s.cwd 0

-- The destination is opened before the source is looked for.
unfoldable pub import : Bytes → Bytes → Action (Unit {0})
import source dest = do
  fd ← open_file dest (codes "w")
  s ← state
  elim (s.host source) [
    | none ↦ say (codes "no such file named " ++ (source ++ (codes " in host file system" ++ endl)))
    | some buffer ↦ do
      say (codes "file size: " ++ show_int (length buffer))
      write_ fd buffer
      close fd
      pure tt
  ]

-- `std::ofstream ofs(dest)` empties the host's file; what is written there follows.
unfoldable pub host_write : Bytes → Bytes → Action (Unit {0})
host_write dest content s =
    ok tt (record s { host = λ path. if text_eq path dest then some content else s.host path })

unfoldable pub export : Bytes → Bytes → Action (Unit {0})
export source dest = do
  host_write dest []
  fd ← open_file source (codes "r")
  s ← state
  if fd == minus_one then say (codes "no such file.\n") else elim (fd_find fd s.fd_map) [
    | none ↦ fail uninitialised
    | some f ↦ do
      node ← on_disk (read_inode f.i_id)
      tell_end node 0 node.size
      content ← on_disk (read_whole node 0 node.size)
      host_write dest content
  ]
  close fd
  pure tt
