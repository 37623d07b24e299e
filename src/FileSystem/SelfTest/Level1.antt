-- ===== src/FileSystem/SelfTest/Level1.antt =====
-- What `testLevel1` does, for any name, position and text: a file on a new file system gives back
-- what was written to it.
use very_simple_file_system.Base.{
  ℕ, ◌+◌, ◌/◌, ◌≤◌, ◌<◌, ◌≡◌, ◌≢◌, refl, ap, sym, subst, ◌∙◌, [], ◌++◌, none, some, arith, codes,
  length,
}
use very_simple_file_system.Run.{Returns, ok, ◌>>◌}
use very_simple_file_system.Layout.{minus_one, add32, dsize, cap_1, imap_start}
use very_simple_file_system.Disk.{Bytes}
use very_simple_file_system.Bitmap.Count.{free_blocks_of}
use very_simple_file_system.Inode.Codec.{inode_at}
use very_simple_file_system.File.Blocks.{blocks}
use very_simple_file_system.File.Extends.{grow_cost, grow_cost_le}
use very_simple_file_system.File.Append.{EnoughBlocks}
use very_simple_file_system.Table.{show_int, c_str, find, insert, text_lt, text_eq}
use very_simple_file_system.Path.{parse_path}
use very_simple_file_system.Directory.Load.{live_count, table_of}
use very_simple_file_system.Directory.Saved.{IsSavedDirectory}
use very_simple_file_system.FileSystem.State.{FileSystem, OpenFile, endl}
use very_simple_file_system.FileSystem.Create.{mkfs}
use very_simple_file_system.FileSystem.Create.Dir.{new_entries}
use very_simple_file_system.FileSystem.Create.Mkfs.{root_table, IsFormatted, mkfs-IsFormatted}
use very_simple_file_system.FileSystem.Descriptor.{fd_find, fd_set_offset, open_file, seek}
use very_simple_file_system.FileSystem.Descriptor.Laws.{IsFdMap, fd_find-set_offset}
use very_simple_file_system.FileSystem.Descriptor.Missing.{CanMake, IsNewlyOpened}
use very_simple_file_system.FileSystem.Descriptor.Open.{CanOpen, open_file-IsNewlyOpened}
use very_simple_file_system.FileSystem.Content.{write_, read}
use very_simple_file_system.FileSystem.Content.Read.{read-seek-write_}

-- A name, not empty and without a slash, that a new root directory does not have.
pub record IsPlain (name : Bytes) : Type 0 where
  pub text : c_str name ≡ name
  pub some_name : 0 < length name
  pub short : length name < 4000
  pub plain : parse_path name ≡ some (codes ".", name)
  pub missing : find name root_table ≡ none

-- A system that no file was opened on.
pub record IsStart (s : FileSystem) : Type 0 where
  pub date : length s.now ≡ 24
  pub fd_cnt : s.fd_cnt ≡ minus_one
  pub fd_map : s.fd_map ≡ []

root_entries : table_of (new_entries 0 0) [] ≡ root_table
unfolding table_of insert text_lt text_eq
root_entries = refl

dot_found : find (codes ".") root_table ≡ some 0
unfolding find text_eq
dot_found = refl

module _ (s : FileSystem) (v : IsStart s) (name : Bytes) (w : IsPlain name) (r : ℕ) (t : FileSystem)
    (y : IsFormatted s r t) where
  -- The root has few blocks, so most are free.
  many_free : 20000 < free_blocks_of t.disk
  many_free = omega (arith, y.budget, y.saved.stored.file.at_most)

  no_map : t.fd_map ≡ []
  no_map = ap (λ (u : FileSystem). u.fd_map) y.kept ∙ v.fd_map

  first_fd : t.fd_cnt ≡ minus_one
  first_fd = ap (λ (u : FileSystem). u.fd_cnt) y.kept ∙ v.fd_cnt

  root-CanMake : CanMake name (new_entries 0 0) t
  root-CanMake =
      let z : 0 ≡ t.cwd = sym y.cwd in
      record {
        directory = subst (λ k. IsSavedDirectory k t.disk (new_entries 0 0)) z y.saved;
        cwd_taken = subst (λ k. t.disk (imap_start + k) ≢ 0) z y.live.1;
        date = ap (λ (u : FileSystem). length u.now) y.kept ∙ v.date;
        inode = y.inode_left;
        text = w.text;
        small =
            subst (λ k. (inode_at k t.disk).size + 8 + length name < cap_1) z
              (omega (arith, y.size, w.short));
        blocks_left =
            subst
              (λ k.
                ((inode_at k t.disk).size + 8 + length name) / dsize
                  + grow_cost (inode_at k t.disk)
                  + 1
                ≤ free_blocks_of t.disk + blocks (inode_at k t.disk))
              z (omega (arith, y.size, w.short, y.budget));
        free_block = omega (arith, many_free);
        opened = subst (IsFdMap (add32 t.fd_cnt 1)) (sym no_map) tt;
        counter = omega (arith, first_fd);
      }

  pub root-CanOpen : CanOpen name (new_entries 0 0) t
  root-CanOpen = record {
    make = root-CanMake;
    plain = w.plain;
    here = ap (find (codes ".")) y.table ∙ dot_found ∙ ap some (sym y.cwd);
    missing = ap (find name) root_entries ∙ w.missing;
    entries_left = unfold live_count in omega arith;
  }

  module _ (i : ℕ) (u : FileSystem) (z : IsNewlyOpened name (new_entries 0 0) t i u) (off : ℕ)
      (str : Bytes) (pos : 0 < length str) (small : off + length str < cap_1) where
    abbrev moved_to : OpenFile
    moved_to = record { i_id = i; offset = off }

    -- The state after `seek`.
    abbrev there : FileSystem
    there = record u { fd_map = fd_set_offset 0 off u.fd_map }

    fd_zero : u.fd_cnt ≡ 0
    fd_zero = z.next ∙ ap (λ k. add32 k 1) first_fd

    pub known : fd_find 0 u.fd_map ≡ some (record { i_id = i; offset = 0 })
    known = ap (λ k. fd_find k u.fd_map) (sym fd_zero) ∙ z.entry

    sought : seek 0 off u ≡ ok 0 there
    unfolding seek
    sought = ground (arith, known)

    known_there : fd_find 0 there.fd_map ≡ some moved_to
    known_there = ground (arith, known, fd_find-set_offset 0 0 off u.fd_map)

    pub room : 10000 < free_blocks_of u.disk
    room = omega (
      arith,
      z.budget,
      many_free,
      grow_cost_le (inode_at t.cwd t.disk),
      z.directory.stored.file.at_most,
    )

    enough : EnoughBlocks (inode_at i u.disk) (off + length str) u.disk
    enough = omega (arith, room, small, grow_cost_le (inode_at i u.disk))

    printed :
        Returns
          (λ c e. e.cout ≡ u.cout ++ (c_str str ++ endl))
          ((seek 0 off >> (write_ 0 str >> (seek 0 off >> read 0 (length str)))) u)
    printed =
        let (c, e, run, p) =
          read-seek-write_ there 0 moved_to str known_there z.file pos small enough in
        (c, e, rw sought run, p)

    cout_there : u.cout ≡ s.cout ++ (codes "SUCCESS, fd = 0" ++ endl)
    unfolding show_int
    cout_there =
        z.cout w.some_name (omega arith)
        ∙ ap (λ k. t.cout ++ (codes "SUCCESS, fd = " ++ (show_int k ++ endl))) fd_zero
        ∙ ap (λ o. o ++ (codes "SUCCESS, fd = 0" ++ endl)) (ap (λ (q : FileSystem). q.cout) y.kept)

-- From every state whose date has 24 characters and that has no open descriptors and the counter
-- -1, whatever its disk holds, for a name that is not empty and has less than 4000 bytes, with no
-- NUL and no slash that is neither `.` nor `..` (IsPlain), and a text that is not empty and ends
-- below the largest file size: `mkfs`, `open` of the name with the flag `w`, `seek` of descriptor
-- 0 to any position, `write_` of the text, `seek` back and `read` of as many bytes all end without
-- a fault, and what they print is the message of `open` with descriptor 0 and then the text up to
-- its first NUL and a line end.
pub fresh_file-prints :
    (s : FileSystem) (name : Bytes) (off : ℕ) (str : Bytes)
    → IsStart s
    → IsPlain name
    → 0 < length str
    → off + length str < cap_1
    → Returns
        (λ c e. e.cout ≡ (s.cout ++ (codes "SUCCESS, fd = 0" ++ endl)) ++ (c_str str ++ endl))
        ((mkfs
            >> (open_file name (codes "w")
                >> (seek 0 off >> (write_ 0 str >> (seek 0 off >> read 0 (length str))))))
          s)
fresh_file-prints s name off str v w pos small =
    let (r, t, run1, y) = mkfs-IsFormatted s v.date in
    let (fd, u, run2, (e, (i, z))) =
      open_file-IsNewlyOpened name (new_entries 0 0) t (root-CanOpen s v name w r t y) in
    let (c, q, run3, p) = printed s v name w r t y i u z off str pos small in
    (
      c,
      q,
      rw (run1, run2) run3,
      p ∙ ap (λ o. o ++ (c_str str ++ endl)) (cout_there s v name w r t y i u z off str pos small),
    )
