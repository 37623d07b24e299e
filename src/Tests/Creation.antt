-- ===== src/Tests/Creation.antt =====
-- New files, directories and file systems, from an empty disk.
use very_simple_file_system.Base.{refl, [], none, codes}
use very_simple_file_system.Run.{Returns}
use very_simple_file_system.FileSystem.State.{FileSystem}
use very_simple_file_system.FileSystem.Create.{mkfs}
use very_simple_file_system.FileSystem.Create.Mkfs.{IsFormatted, mkfs-IsFormatted}

abbrev blank_system : FileSystem
blank_system = record {
  disk = λ a. 0;
  cwd = 0;
  root = 0;
  cwd_table = [];
  fd_cnt = 0;
  fd_map = [];
  now = codes "Sun Feb 28 19:37:28 2016";
  host = λ name. none;
  cout = [];
}

mkfs-IsFormatted_example : Returns (IsFormatted blank_system) (mkfs blank_system)
mkfs-IsFormatted_example = mkfs-IsFormatted blank_system refl
