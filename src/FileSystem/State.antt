-- ===== src/FileSystem/State.antt =====
-- The fields of `class VSFileSystem` of src/fs/vsfs.hpp, the working directory of src/fs/vsfs.cpp
-- (`findFileInCurDir`, `changeCwdTo`, `cd`), and what the program shares with its host.
use very_simple_file_system.Base.{
  ℕ, List, [], ◌∷◌, ◌++◌, Option, none, some, ◌==◌, if◌then◌else◌, codes,
}
use very_simple_file_system.Run.{Run, Cmd, ok, fault, uninitialised, pure, ◌>>=◌, ◌>>◌}
use very_simple_file_system.Layout.{minus_one}
use very_simple_file_system.Disk.{Bytes, Disk}
use very_simple_file_system.Table.{Table, find}
use very_simple_file_system.Directory.{load_dir_table}
use very_simple_file_system.Path.{slash, tokens, parse_path}

-- An open file: its inode id and the position in it.
pub record OpenFile : Type 0 where
  pub i_id : ℕ
  pub offset : ℕ

-- `now` is what `asctime` gives, `host` the files of the host, `cout` what was printed.
pub record FileSystem : Type 0 where
  pub disk : Disk
  pub cwd : ℕ
  pub root : ℕ
  pub cwd_table : Table
  pub fd_cnt : ℕ
  pub fd_map : List (ℕ × OpenFile)
  pub now : Bytes
  pub host : Bytes → Option Bytes
  pub cout : Bytes

-- A command, and what an `int` function returns: `none` where it ends without a `return`.
abbrev pub Action : Type 0 → Type 0
Action A = Cmd FileSystem A

abbrev pub Returned : Type 0
Returned = Option ℕ

abbrev pub state : Action FileSystem
state s = ok s s

-- A command on the disk.
abbrev pub disk_run : {A : Type 0} → FileSystem → Run Disk A → Run FileSystem A
disk_run s (ok a d) = ok a (record s { disk = d })
disk_run s (fault e) = fault e

abbrev pub on_disk : {A : Type 0} → Cmd Disk A → Action A
on_disk m s = disk_run s (m s.disk)

abbrev pub say : Bytes → Action (Unit {0})
say text s = ok tt (record s { cout = s.cout ++ text })

-- `std::endl`
abbrev pub endl : Bytes
endl = 10 ∷ []

-- `char*` results of `parsePath`, which is undefined where it returns nothing.
abbrev pub parts_or_fault : Option (Bytes × Bytes) → Action (Bytes × Bytes)
parts_or_fault none s = fault uninitialised
parts_or_fault (some p) s = ok p s

abbrev pub path_parts : Bytes → Action (Bytes × Bytes)
path_parts path = parts_or_fault (parse_path path)

unfoldable pub load_cwd_table : Action (Unit {0})
load_cwd_table = do
  s ← state
  table ← on_disk (load_dir_table s.cwd)
  λ t. ok tt (record t { cwd_table = table })

unfoldable pub change_cwd_to : ℕ → Action (Unit {0})
change_cwd_to dir_id = do λ s. ok tt (record s { cwd = dir_id }); load_cwd_table

unfoldable pub find_file_in_cur_dir : Bytes → FileSystem → ℕ
find_file_in_cur_dir filename s = elim (find filename s.cwd_table) [
  | none ↦ minus_one
  | some id ↦ id
]

-- The loop of `cd` over the words of the path.
unfoldable pub cd_words : List Bytes → Action ℕ
cd_words [] = pure 0
cd_words (pch ∷ rest) = do
  s ← state
  let file_id = find_file_in_cur_dir pch s
  if file_id == minus_one
      then (do say (codes "error: file " ++ (pch ++ (codes " not found." ++ endl))); pure minus_one)
      else (do change_cwd_to file_id; cd_words rest)

-- `if (dirname[0] == '/') changeCwdTo(root);`
unfoldable pub enter_root : Bytes → Action (Unit {0})
enter_root [] = pure tt
enter_root (c ∷ dirname) = do s ← state; if c == slash then change_cwd_to s.root else pure tt

unfoldable pub cd : Bytes → Action ℕ
cd dirname = do enter_root dirname; cd_words (tokens dirname)
