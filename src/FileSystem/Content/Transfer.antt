-- ===== src/FileSystem/Content/Transfer.antt =====
-- A file of the host that `import` brings in, and `cat` and `export_` give out again.
use very_simple_file_system.Base.{
  ℕ, ◌<◌, ◌≡◌, refl, ap, sym, subst, ◌∙◌, List, [], ◌∷◌, ◌++◌, some, false, ◌==◌, codes, arith,
}
use very_simple_file_system.Run.{Returns, ◌>>◌}
use very_simple_file_system.Layout.{minus_one, add32}
use very_simple_file_system.Disk.{Bytes}
use very_simple_file_system.Inode.Codec.{inode_at}
use very_simple_file_system.File.Sound.{IsSound}
use very_simple_file_system.Table.{text_eq, find}
use very_simple_file_system.Table.Lookup.{text_eq_refl}
use very_simple_file_system.Directory.{DirEntry}
use very_simple_file_system.Directory.Add.{entry_of}
use very_simple_file_system.Directory.Load.{table_of}
use very_simple_file_system.Directory.Lookup.{first_live, find-first_live, first_live-last}
use very_simple_file_system.Directory.Saved.{IsSavedDirectory, live_count-last}
use very_simple_file_system.FileSystem.State.{FileSystem, endl}
use very_simple_file_system.FileSystem.Descriptor.{fd_find}
use very_simple_file_system.FileSystem.Descriptor.Existing.{HasName}
use very_simple_file_system.FileSystem.Content.{cat, import, export}
use very_simple_file_system.FileSystem.Content.Import.{CanImport, IsImported, import-IsImported}
use very_simple_file_system.FileSystem.Content.Export.{content_of, cat_lem, export-IsExported}

module _ (dest buffer : Bytes) (es : List DirEntry) (s : FileSystem)
    (can : CanImport dest buffer es s) (i : ℕ) (t : FileSystem)
    (y : IsImported dest buffer es s i t) where
  abbrev all : List DirEntry
  all = es ++ (entry_of i dest ∷ [])

  live_entry : (i == minus_one) ≡ false
  live_entry = ground (arith, y.live.0)

  -- The table finds the new name.
  there : find dest (table_of all []) ≡ some i
  there =
      find-first_live dest all
      ∙ first_live-last dest (entry_of i dest) es live_entry
      ∙ rw (sym (find-first_live dest es) ∙ can.opens.missing, text_eq_refl dest) refl

  still_here :
      first_live (codes ".") es ≡ some s.cwd → find (codes ".") (table_of all []) ≡ some s.cwd
  still_here h =
      find-first_live (codes ".") all
      ∙ first_live-last (codes ".") (entry_of i dest) es live_entry
      ∙ rw h refl

  same_cwd : t.cwd ≡ s.cwd
  same_cwd = ap (λ (u : FileSystem). u.cwd) y.kept

  dest-HasName : first_live (codes ".") es ≡ some s.cwd → HasName dest all t i
  dest-HasName h = record {
    directory = (subst (λ k. IsSavedDirectory k t.disk all) (sym same_cwd) y.directory).directory;
    entries_left =
        omega (arith, live_count-last (entry_of i dest) es (λ e. omega (arith, e, y.live.0)));
    plain = can.opens.plain;
    here = ap (find (codes ".")) y.table ∙ still_here h ∙ ap some (sym same_cwd);
    there = there;
    id_ne = λ e. omega (arith, e, y.live.0);
  }

  size_pos : 0 < (inode_at i t.disk).size
  size_pos = omega (arith, y.size, can.not_empty)

-- Where the disk is sound, the conditions of `open` of a new plain name for writing hold
-- (CanOpen), the host has the source with a text that is not empty and shorter than the largest
-- file size, the entry for the name fits into the directory's last block, and there are free data
-- blocks for the text and two more (CanImport): `import` and then `cat` of the name end without a
-- fault, `cat` returns 0, and the output ends with all the bytes of the text and a line end.
pub cat-import :
    (source dest buffer : Bytes) (es : List DirEntry) (s : FileSystem)
    → IsSound s.disk
    → CanImport dest buffer es s
    → s.host source ≡ some buffer
    → Returns
        (λ code t. (code ≡ 0) × ((before : Bytes) × (t.cout ≡ before ++ (buffer ++ endl))))
        ((import source dest >> cat dest) s)
cat-import source dest buffer es s v can given =
    let (a, t, run, (i, y)) = import-IsImported source dest buffer es s v can given in
    let shown =
      cat_lem dest t i (ap (find dest) y.table ∙ there dest buffer es s can i t y) y.file
        (size_pos dest buffer es s can i t y) in
    (
      0,
      record t { cout = t.cout ++ (content_of i t.disk ++ endl) },
      rw run shown,
      (refl, (t.cout, ap (λ bs. t.cout ++ (bs ++ endl)) y.content)),
    )

-- Where the disk is sound, the conditions of `open` of a new plain name for writing hold
-- (CanOpen), the host has the source with a text that is not empty and shorter than the largest
-- file size, the entry for the name fits into the directory's last block, and there are free data
-- blocks for the text and two more (CanImport), the first entry `.` of the working directory that
-- is not deleted is for itself, and the descriptor counter does not reach -1 twice: `import` of
-- the host's file under the name and then `export_` of the name end without a fault. Then the
-- host's file that was given to `export_` has the text of the source, every other file of the host
-- is as before, every descriptor is as before, and the working directory is the same.
pub export-import :
    (source dest out buffer : Bytes) (es : List DirEntry) (s : FileSystem)
    → IsSound s.disk
    → CanImport dest buffer es s
    → s.host source ≡ some buffer
    → first_live (codes ".") es ≡ some s.cwd
    → add32 (add32 s.fd_cnt 1) 1 < minus_one
    → Returns
        (λ _ t.
          (t.host out ≡ some buffer)
          × ((path : Bytes) → text_eq path out ≡ false → t.host path ≡ s.host path)
          × ((fd : ℕ) → fd_find fd t.fd_map ≡ fd_find fd s.fd_map)
          × (t.cwd ≡ s.cwd))
        ((import source dest >> export dest out) s)
export-import source dest out buffer es s v can given here counter =
    let (a, t, run, (i, y)) = import-IsImported source dest buffer es s v can given in
    let (b, u, last, z) =
      export-IsExported dest out (all dest buffer es s can i t y) t i
        (dest-HasName dest buffer es s can i t y here) y.file (size_pos dest buffer es s can i t y)
        y.opened (subst (λ k. add32 k 1 < minus_one) (sym y.next) counter) in
    (
      b,
      u,
      rw run last,
      (
        z.copy ∙ ap some y.content,
        (λ path ne. z.elsewhere path ne ∙ ap (λ (x : FileSystem). x.host path) y.kept),
        (λ fd. z.fds fd ∙ y.fds fd),
        ap (λ (x : FileSystem). x.cwd) z.kept ∙ same_cwd dest buffer es s can i t y,
      ),
    )
