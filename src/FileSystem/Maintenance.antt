-- ===== src/FileSystem/Maintenance.antt =====
-- The functions of src/fs/vsfs.cpp on the disk as a whole that no command calls: `printConfig`,
-- `resetImap`, `resetDmap`, `createVirtualDisk`.
use very_simple_file_system.Base.{ℕ, ◌-◌, ◌*◌, ◌/◌, ◌++◌, codes, replicate}
use very_simple_file_system.Run.{Cmd, ok, pure, ◌>>◌}
use very_simple_file_system.Layout.{
  disk_size, cap_0, cap_1, sizeof_int, imap_start, dmap_start, inode_start,
}
use very_simple_file_system.Disk.{Bytes, Disk, zero_loop}
use very_simple_file_system.Table.{show_int}
use very_simple_file_system.FileSystem.State.{Action, say, endl}
use very_simple_file_system.FileSystem.Content.{host_write}

-- `cap_0 / sizeof(int) * cap_1`
abbrev pub cap_2 : ℕ
cap_2 = cap_0 / sizeof_int * cap_1

abbrev rule : Bytes
rule = codes "---------------------------" ++ endl

unfoldable pub print_config : Action (Unit {0})
print_config = do
  say rule
  say (codes "disk size: " ++ (show_int disk_size ++ endl))
  say (codes "level 0 capacity: " ++ (show_int (cap_0 / 1024) ++ (codes "Kb" ++ endl)))
  say (codes "level 1 capacity: " ++ (show_int (cap_1 / 1024 / 1024) ++ (codes "Mb" ++ endl)))
  say (
      codes "level 2 capacity: " ++ (show_int (cap_2 / 1024 / 1024 / 1024) ++ (codes "Gb" ++ endl)))
  say rule

-- `disk.write("", 1)` writes a zero byte.
unfoldable pub reset_imap : Cmd Disk (Unit {0})
reset_imap d = ok tt (zero_loop (dmap_start - imap_start) imap_start d)

unfoldable pub reset_dmap : Cmd Disk (Unit {0})
reset_dmap d = ok tt (zero_loop (inode_start - dmap_start) dmap_start d)

-- The file of the host named `vdisk`, which an open file system does not see before it is opened
-- again.
unfoldable pub create_virtual_disk : Action ℕ
create_virtual_disk = do
  say (codes "creating virtual disk...\n")
  host_write (codes "vdisk") (replicate disk_size 0)
  pure 0
