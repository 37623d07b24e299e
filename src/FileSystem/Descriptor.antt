-- ===== src/FileSystem/Descriptor.antt =====
-- File descriptors: `registerFD`, `releaseFD`, `open`, `close`, `seek` of src/fs/vsfs.cpp.
pub mod Laws
pub mod Missing
pub mod Open
pub mod Kept
pub mod Finds
pub mod Existing
pub mod Failure
use very_simple_file_system.Base.{
  ℕ, ◌+◌, List, [], ◌∷◌, ◌++◌, Bool, true, false, ◌||◌, Option, none, some, ◌==◌, if◌then◌else◌,
  codes,
}
use very_simple_file_system.Run.{Run, Cmd, ok, fault, pure, fail, ◌>>=◌, ◌>>◌}
use very_simple_file_system.Layout.{minus_one, add32}
use very_simple_file_system.Disk.{Bytes}
use very_simple_file_system.Table.{text_eq, show_int}
use very_simple_file_system.Directory.{add_entry_to_dir}
use very_simple_file_system.FileSystem.State.{
  OpenFile, FileSystem, Action, Returned, state, on_disk, say, endl, path_parts, load_cwd_table,
  change_cwd_to, find_file_in_cur_dir, cd,
}
use very_simple_file_system.FileSystem.Create.{create_file}

-- `std::map<int, std::pair<int, int>>`
abbrev pub FdMap : Type 0
FdMap = List (ℕ × OpenFile)

unfoldable pub fd_find : ℕ → FdMap → Option OpenFile
fd_find fd [] = none
fd_find fd ((j, f) ∷ m) = if fd == j then some f else fd_find fd m

-- `insert` keeps the entry of a key that is there.
unfoldable pub fd_insert : ℕ → OpenFile → FdMap → FdMap
fd_insert fd f [] = (fd, f) ∷ []
fd_insert fd f ((j, g) ∷ m) = if fd == j then (j, g) ∷ m else (j, g) ∷ fd_insert fd f m

unfoldable pub fd_erase : ℕ → FdMap → FdMap
fd_erase fd [] = []
fd_erase fd ((j, g) ∷ m) = if fd == j then m else (j, g) ∷ fd_erase fd m

-- A store through an iterator of the map.
unfoldable pub fd_set_offset : ℕ → ℕ → FdMap → FdMap
fd_set_offset fd offset [] = []
fd_set_offset fd offset ((j, g) ∷ m) =
    if fd == j then (j, record g { offset = offset }) ∷ m else (j, g) ∷ fd_set_offset fd offset m

unfoldable pub register_fd : ℕ → Action ℕ
register_fd i_id s =
    let fd = add32 s.fd_cnt 1 in
    ok fd (record s {
      fd_cnt = fd;
      fd_map = fd_insert fd (record { i_id = i_id; offset = 0 }) s.fd_map;
    })

unfoldable pub release_fd : ℕ → Action Returned
release_fd fd = do
  s ← state
  elim (fd_find fd s.fd_map) [
    | none ↦ do say (codes "unknown file descriptor\n"); pure (some minus_one)
    | some f ↦ λ t. ok none (record t { fd_map = fd_erase fd t.fd_map })
  ]

-- The branches of `open` once the directory was entered; `some` is an early `return`.
unfoldable pub open_found : ℕ → Bytes → Action Returned
open_found f_id flag =
    if text_eq flag (codes "r") || text_eq flag (codes "w")
    then (do
      fd ← register_fd f_id
      say (codes "SUCCESS, fd = " ++ (show_int fd ++ endl))
      pure none)
    else (do say (codes "invalid flag\n"); pure (some minus_one))

unfoldable pub open_missing : Bytes → Bytes → Action Returned
open_missing file_name flag =
    if text_eq flag (codes "r")
    then (do say (codes "file not existed." ++ endl); pure (some minus_one))
    else if text_eq flag (codes "w")
    then (do
      f_id ← create_file
      s ← state
      on_disk (add_entry_to_dir f_id file_name s.cwd)
      load_cwd_table
      nfd ← register_fd f_id
      say (codes "SUCCESS, fd = " ++ (show_int nfd ++ endl))
      pure none)
    else (do say (codes "invalid flag\n"); pure (some minus_one))

-- The end of `open`: only here the working directory is set back.
unfoldable pub open_end : ℕ → Returned → Action ℕ
open_end saved_cwd (some code) = pure code
open_end saved_cwd none = do change_cwd_to saved_cwd; s ← state; pure s.fd_cnt

unfoldable pub open_file : Bytes → Bytes → Action ℕ
open_file file_path flag = do
  saved ← state
  (file_dir, file_name) ← path_parts file_path
  cd file_dir
  s ← state
  let f_id = find_file_in_cur_dir file_name s
  early ← (if f_id == minus_one then open_missing file_name flag else open_found f_id flag)
  open_end saved.cwd early

unfoldable pub close : ℕ → Action ℕ
close fd = do release_fd fd; pure 0

unfoldable pub seek : ℕ → ℕ → Action ℕ
seek fd offset = do
  s ← state
  elim (fd_find fd s.fd_map) [
    | none ↦ do say (codes "unknown file descriptor\n"); pure minus_one
    | some f ↦ λ t. ok 0 (record t { fd_map = fd_set_offset fd offset t.fd_map })
  ]
