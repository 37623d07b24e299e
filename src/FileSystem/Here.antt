-- ===== src/FileSystem/Here.antt =====
-- The working directory: what its table gives, and the ways to stay in it.
use very_simple_file_system.Base.{ℕ, ◌≡◌, refl, none, some, codes, ◌==◌, false}
use very_simple_file_system.Run.{ok}
use very_simple_file_system.Layout.{minus_one}
use very_simple_file_system.Disk.{Bytes}
use very_simple_file_system.Table.{Table, find}
use very_simple_file_system.Path.{tokens}
use very_simple_file_system.Directory.{load_dir_table}
use very_simple_file_system.FileSystem.State.{
  FileSystem, load_cwd_table, change_cwd_to, find_file_in_cur_dir, cd_words, enter_root, cd,
}

-- `cd .` loads the table of the working directory again.
pub cd_here :
    (s : FileSystem) (table : Table)
    → find_file_in_cur_dir (codes ".") s ≡ s.cwd
    → (s.cwd == minus_one) ≡ false
    → load_dir_table s.cwd s.disk ≡ ok table s.disk
    → cd (codes ".") s ≡ ok 0 (record s { cwd_table = table })
unfolding cd enter_root cd_words tokens change_cwd_to load_cwd_table
cd_here s table h ne l = rw (h, ne, l) refl

pub change_cwd_to_load :
    (dir : ℕ) (s : FileSystem) (table : Table)
    → load_dir_table dir s.disk ≡ ok table s.disk
    → change_cwd_to dir s ≡ ok tt (record s { cwd = dir; cwd_table = table })
unfolding change_cwd_to load_cwd_table
change_cwd_to_load dir s table l = rw l refl

pub not_found :
    (name : Bytes) (s : FileSystem)
    → find name s.cwd_table ≡ none
    → find_file_in_cur_dir name s ≡ minus_one
unfolding find_file_in_cur_dir
not_found name s h = rw (h, find_file_in_cur_dir) refl

pub found :
    (name : Bytes) (id : ℕ) (s : FileSystem)
    → find name s.cwd_table ≡ some id
    → find_file_in_cur_dir name s ≡ id
unfolding find_file_in_cur_dir
found name id s h = rw (h, find_file_in_cur_dir) refl
