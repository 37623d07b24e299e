-- ===== src/FileSystem/Descriptor/Existing.antt =====
-- `open` of a plain name that the working directory has.
use very_simple_file_system.Directory.Entries.{EndsNamed}
use very_simple_file_system.Base.{
  ℕ, ◌<◌, ◌≡◌, ◌≢◌, refl, ap, sym, ◌∙◌, List, [], ◌++◌, none, some, false, true, ◌==◌, ◌||◌, arith,
  codes,
}
use very_simple_file_system.Run.{Returns, ok}
use very_simple_file_system.Layout.{minus_one, add32}
use very_simple_file_system.Disk.{Bytes}
use very_simple_file_system.Table.{find, text_eq, show_int}
use very_simple_file_system.Path.{parse_path}
use very_simple_file_system.Directory.{DirEntry, load_dir_table}
use very_simple_file_system.Directory.Load.{
  live_count, table_of, IsDirectory, load_dir_table-table_of,
}
use very_simple_file_system.FileSystem.State.{
  FileSystem, endl, change_cwd_to, find_file_in_cur_dir, cd,
}
use very_simple_file_system.FileSystem.Here.{cd_here, change_cwd_to_load, found}
use very_simple_file_system.FileSystem.Descriptor.{
  fd_find, register_fd, open_found, open_end, open_file,
}
use very_simple_file_system.FileSystem.Descriptor.Laws.{
  IsOpened, IsRegistered, SameElsewhere, register_fd-IsRegistered,
}

-- The name is in the table that `cd .` loads, under the inode `id`.
pub record HasName (name : Bytes) (es : List DirEntry) (s : FileSystem) (id : ℕ) : Type 0 where
  pub directory : IsDirectory s.cwd s.disk es
  pub entries_left : 0 < live_count es
  pub plain : parse_path name ≡ some (codes ".", name)
  pub here : find (codes ".") s.cwd_table ≡ some s.cwd
  pub there : find name (table_of es []) ≡ some id
  pub id_ne : id ≢ minus_one

-- A new descriptor is at the start of the inode `id`.
pub record IsReopened (id : ℕ) (es : List DirEntry) (s t : FileSystem) : Type 0 where
  pub next : t.fd_cnt ≡ add32 s.fd_cnt 1
  pub unused : fd_find t.fd_cnt s.fd_map ≡ none
  pub entry : fd_find t.fd_cnt t.fd_map ≡ some (record { i_id = id; offset = 0 })
  pub others : SameElsewhere t.fd_cnt s t
  pub opened : IsOpened t
  pub table : t.cwd_table ≡ table_of es []
  pub cout :
      EndsNamed es → t.cout ≡ s.cout ++ (codes "SUCCESS, fd = " ++ (show_int t.fd_cnt ++ endl))
  pub kept :
      record t { fd_cnt = s.fd_cnt; fd_map = s.fd_map; cwd_table = s.cwd_table; cout = s.cout } ≡ s

open_found_calls :
    (id : ℕ) (flag : Bytes) (s t : FileSystem) (fd : ℕ)
    → (text_eq flag (codes "r") || text_eq flag (codes "w")) ≡ true
    → register_fd id s ≡ ok fd t
    → open_found id flag s
      ≡ ok none (record t { cout = t.cout ++ (codes "SUCCESS, fd = " ++ (show_int fd ++ endl)) })
unfolding open_found
open_found_calls id flag s t fd f r = rw (f, r) refl

open_found_invalid :
    (id : ℕ) (flag : Bytes) (s : FileSystem)
    → (text_eq flag (codes "r") || text_eq flag (codes "w")) ≡ false
    → open_found id flag s
      ≡ ok (some minus_one) (record s { cout = s.cout ++ codes "invalid flag\n" })
unfolding open_found
open_found_invalid id flag s f = rw f refl

-- The calls of `open` one after the other.
open_file_calls :
    (name flag : Bytes) (s : FileSystem) (id : ℕ) (t1 t2 t3 : FileSystem)
    → parse_path name ≡ some (codes ".", name)
    → cd (codes ".") s ≡ ok 0 t1
    → find_file_in_cur_dir name t1 ≡ id
    → (id == minus_one) ≡ false
    → open_found id flag t1 ≡ ok none t2
    → change_cwd_to s.cwd t2 ≡ ok tt t3
    → open_file name flag s ≡ ok t3.fd_cnt t3
unfolding open_file open_end
open_file_calls name flag s id t1 t2 t3 p c f n o e = rw (p, c, f, n, o, e) refl

open_file_early :
    (name flag : Bytes) (s : FileSystem) (id code : ℕ) (t1 t2 : FileSystem)
    → parse_path name ≡ some (codes ".", name)
    → cd (codes ".") s ≡ ok 0 t1
    → find_file_in_cur_dir name t1 ≡ id
    → (id == minus_one) ≡ false
    → open_found id flag t1 ≡ ok (some code) t2
    → open_file name flag s ≡ ok code t2
unfolding open_file open_end
open_file_early name flag s id code t1 t2 p c f n o = rw (p, c, f, n, o) refl

module _ (name flag : Bytes) (es : List DirEntry) (s : FileSystem) (id : ℕ)
    (v : HasName name es s id) where
  abbrev loaded : FileSystem
  loaded = record s { cwd_table = table_of es [] }

  load : load_dir_table s.cwd s.disk ≡ ok (table_of es []) s.disk
  load = load_dir_table-table_of s.cwd s.disk es v.directory v.entries_left

  here_again : cd (codes ".") s ≡ ok 0 loaded
  here_again =
      cd_here s (table_of es []) (found (codes ".") s.cwd s v.here)
        (ground (arith, v.directory.id_lt)) load

  -- Where a plain name is in the table of the working directory under an inode id, the loaded
  -- table has `.` for the directory, its last entry has a name that is not empty, and the flag is
  -- neither `r` nor `w`, `open` returns -1 with a message, opens nothing, and changes only the loaded table and the output.
  pub open_file-invalid :
      EndsNamed es
      → (text_eq flag (codes "r") || text_eq flag (codes "w")) ≡ false
      → open_file name flag s
        ≡ ok minus_one (record loaded { cout = s.cout ++ codes "invalid flag\n" })
  open_file-invalid _ f =
      open_file_early name flag s id minus_one loaded _ v.plain here_again
        (found name id loaded v.there) (ground (arith, v.id_ne))
        (open_found_invalid id flag loaded f)

  module _ (fd : ℕ) (u : FileSystem) (r : IsRegistered id loaded fd u) where
    abbrev told : FileSystem
    told = record u {
      cwd = s.cwd;
      cwd_table = table_of es [];
      cout = u.cout ++ (codes "SUCCESS, fd = " ++ (show_int fd ++ endl));
    }

    reload : load_dir_table s.cwd u.disk ≡ ok (table_of es []) u.disk
    reload = let e : u.disk ≡ s.disk = ap (λ (x : FileSystem). x.disk) r.kept in rw e load

    told-IsReopened : IsReopened id es s told
    told-IsReopened = record {
      next = r.counter ∙ r.next;
      unused = ap (λ k. fd_find k s.fd_map) r.counter ∙ r.unused;
      entry = ap (λ k. fd_find k u.fd_map) r.counter ∙ r.entry;
      others = λ j ne. r.others j (λ e. ne (e ∙ sym r.counter));
      opened = r.opened;
      table = refl;
      cout = λ _.
          ap (λ k. u.cout ++ (codes "SUCCESS, fd = " ++ (show_int k ++ endl))) (sym r.counter)
          ∙ ap (λ o. o ++ (codes "SUCCESS, fd = " ++ (show_int u.fd_cnt ++ endl)))
              (ap (λ (x : FileSystem). x.cout) r.kept);
      kept =
          ap (λ (x : FileSystem). record x { cwd = s.cwd; cwd_table = s.cwd_table; cout = s.cout })
            r.kept;
    }

-- Where a plain name is in the table of the working directory under an inode id, the loaded table
-- has `.` for the directory, the flag is `r` or `w`, the next descriptor and all later ones are
-- unused and the counter does not reach -1: `open` ends without a fault and returns the next
-- descriptor, which was unused and is now at position 0 of that inode, whatever the flag. The
-- other descriptors are as before, the next one and all later ones are unused, the table of the
-- working directory is loaded, and nothing else changed but the output, so that the disk is the
-- same; where the name of the directory's last entry is not empty, what was printed is the message
-- with the descriptor.
pub open_file-IsReopened :
    (name flag : Bytes) (es : List DirEntry) (s : FileSystem) (id : ℕ)
    → HasName name es s id
    → (text_eq flag (codes "r") || text_eq flag (codes "w")) ≡ true
    → IsOpened s
    → add32 s.fd_cnt 1 < minus_one
    → Returns (λ fd t. (fd ≡ t.fd_cnt) × IsReopened id es s t) (open_file name flag s)
open_file-IsReopened name flag es s id v f o h =
    let l = loaded name flag es s id v in
    let (fd, u, run, r) = register_fd-IsRegistered id l o h in
    let t = told name flag es s id v fd u r in
    (
      t.fd_cnt,
      t,
      open_file_calls name flag s id l _ t v.plain (here_again name flag es s id v)
          (found name id l v.there) (ground (arith, v.id_ne))
          (open_found_calls id flag l u fd f run)
          (change_cwd_to_load s.cwd _ (table_of es []) (reload name flag es s id v fd u r)),
      (refl, told-IsReopened name flag es s id v fd u r),
    )
