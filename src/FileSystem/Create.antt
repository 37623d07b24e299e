-- ===== src/FileSystem/Create.antt =====
-- New files and directories: `createFile`, `newDir`, `mkdir`, `mkfs` and the constructor of
-- src/fs/vsfs.cpp.
pub mod File
pub mod Dir
pub mod Mkfs
pub mod Mkdir
pub mod Back
use very_simple_file_system.Base.{ℕ, [], Option, none, some, ◌==◌, if◌then◌else◌, codes}
use very_simple_file_system.Run.{Run, ok, pure, ◌>>=◌, ◌>>◌}
use very_simple_file_system.Layout.{minus_one, sizeof_int, get_data_offset}
use very_simple_file_system.Disk.{Bytes, Disk, put_int_at, reset_disk, init_super}
use very_simple_file_system.Bitmap.{alloc_inode_block, alloc_data_block}
use very_simple_file_system.Inode.{new_inode, strcpy, read_inode, write_inode}
use very_simple_file_system.Directory.{add_entry_to_dir}
use very_simple_file_system.FileSystem.State.{
  FileSystem, Action, Returned, state, on_disk, say, path_parts, load_cwd_table, change_cwd_to, cd,
}

unfoldable pub create_file : Action ℕ
create_file = do
  i_id ← on_disk alloc_inode_block
  if i_id == minus_one
      then (do say (codes "fail to allocate inode, inode region full.\n"); pure minus_one)
      else (do
        d_id ← on_disk alloc_data_block
        if d_id == minus_one
            then (do say (codes "fail to allocate data block, disk full.\n"); pure minus_one)
            else (do
              s ← state
              on_disk (
                  write_inode i_id (record new_inode {
                    addr_0 = get_data_offset d_id;
                    date = strcpy new_inode.date s.now;
                  }))
              pure i_id))

unfoldable pub new_dir : Action ℕ
new_dir = do
  i_id ← create_file
  node ← on_disk (read_inode i_id)
  on_disk (write_inode i_id (record node { type = 1; size = sizeof_int }))
  on_disk (put_int_at node.addr_0 0)
  on_disk (add_entry_to_dir i_id (codes ".") i_id)
  s ← state
  on_disk (add_entry_to_dir s.cwd (codes "..") i_id)
  pure i_id

unfoldable pub mkdir : Bytes → Action Returned
mkdir name = do
  saved ← state
  (file_dir, file_name) ← path_parts name
  cd file_dir
  i_id ← new_dir
  if i_id == minus_one then pure (some minus_one) else (do
    s ← state
    on_disk (add_entry_to_dir i_id file_name s.cwd)
    load_cwd_table
    change_cwd_to saved.cwd
    pure none)

unfoldable pub mkfs : Action ℕ
mkfs = do
  on_disk reset_disk
  on_disk init_super
  λ s. ok tt (record s { cwd = 0 })
  root_node_id ← new_dir
  λ s. ok tt (record s { cwd = root_node_id })
  load_cwd_table
  pure root_node_id

-- The constructor, over the `vdisk` that it opens.
unfoldable pub new_file_system : Disk → Bytes → (Bytes → Option Bytes) → Run FileSystem (Unit {0})
new_file_system disk now host = load_cwd_table (record {
  disk = disk;
  cwd = 0;
  root = 0;
  cwd_table = [];
  fd_cnt = minus_one;
  fd_map = [];
  now = now;
  host = host;
  cout = [];
})
