-- ===== src/FileSystem/Invariant/Reach.antt =====
-- Every step keeps the invariant, and `mkfs` gives it.
use very_simple_file_system.Run.Keeps.{Keeps, Stays-run}
use very_simple_file_system.FileSystem.Content.Reading.{
  OnDisk, read-Keeps, cat-Keeps, ls-Keeps, tree-Keeps, cd-Keeps, seek-Keeps, close-Keeps,
}
use very_simple_file_system.Base.{
  ℕ, ◌≡◌, refl, ap, sym, subst, ◌∙◌, [], ◌++◌, none, some, codes, length, inl, inr, Option,
  Option-cases, some_eq, none-ne-some, Bool-cases, ◌==◌, if◌then◌else◌,
}
use very_simple_file_system.Run.{ok, Returns-run}
use very_simple_file_system.Layout.{minus_one, add32}
use very_simple_file_system.Disk.{Bytes, Disk}
use very_simple_file_system.File.Sound.{IsSound}
use very_simple_file_system.File.Sound.Change.{still-Live, same_inode, change-IsSound}
use very_simple_file_system.Directory.Tree.{IsTree, change-IsTree}
use very_simple_file_system.FileSystem.State.{FileSystem, OpenFile, Returned, Action, cd}
use very_simple_file_system.FileSystem.Create.{mkfs}
use very_simple_file_system.FileSystem.Create.Mkfs.{IsFormatted, mkfs-IsFormatted}
use very_simple_file_system.FileSystem.Descriptor.{
  FdMap, fd_set_offset, fd_erase, fd_find, close, seek, open_file,
}
use very_simple_file_system.FileSystem.Descriptor.Laws.{
  IsFdMap, IsOpened, moved, fd_find-set_offset, fd_find-erase, IsFdMap-set_offset, IsFdMap-erase,
}
use very_simple_file_system.FileSystem.Descriptor.Open.{open_file-IsNewlyOpened}
use very_simple_file_system.FileSystem.Create.{mkdir}
use very_simple_file_system.FileSystem.Create.Mkdir.{mkdir-IsDirMade}
use very_simple_file_system.FileSystem.Descriptor.Existing.{open_file-IsReopened}
use very_simple_file_system.FileSystem.Remove.{rm, rmdir}
use very_simple_file_system.FileSystem.Remove.Rm.{rm-IsRemoved}
use very_simple_file_system.FileSystem.Invariant.Entries.{
  imported-IsSystem, exported-IsSystem, Plain-elsewhere, Plain-kept, made-IsSystem,
  reopened-IsSystem, dir_made-IsSystem, removed-IsSystem,
}
use very_simple_file_system.FileSystem.Content.{write_, read, cat, ls, tree, import, export}
use very_simple_file_system.FileSystem.Content.Import.{import-IsImported}
use very_simple_file_system.FileSystem.Content.Export.{export-IsExported}
use very_simple_file_system.FileSystem.Content.Write.{IsWriteOf, write_-IsWriteOf}
use very_simple_file_system.FileSystem.Invariant.{
  IsSystem, Plain, CanWrite, Step, wrote, sought, closed, was_read, shown, listed, drawn, entered,
  made, reopened, dir_made, removed, dir_removed, imported, exported, formatted, Steps, stop, next,
}

moved_back :
    (offset : ℕ) (m : Option OpenFile) (g : OpenFile)
    → moved offset m ≡ some g
    → (f : OpenFile) × (m ≡ some f) × (f.i_id ≡ g.i_id)
moved_back offset none g e = absurd (none-ne-some g e)
moved_back offset (some f) g e =
    (f, refl, ap (λ (h : OpenFile). h.i_id) (some_eq (record f { offset = offset }) g e))

-- A write on a descriptor in use.
wrote-IsSystem :
    (s t : FileSystem) (fd : ℕ) (f : OpenFile) (str : Bytes)
    → IsSystem s
    → fd_find fd s.fd_map ≡ some f
    → IsWriteOf s fd f str t
    → IsSystem t
wrote-IsSystem s t fd f str v known w =
    let l = (v.plain fd f known).0 in
    let ne = (v.plain fd f known).1 in
    let keep =
      Plain-kept f.i_id s.disk t.disk (still-Live s.disk v.sound f.i_id l t.disk w.change)
        (same_inode s.disk v.sound f.i_id l t.disk w.change) w.type in
    record {
      tree =
          change-IsTree s.disk v.sound f.i_id l t.disk w.change v.tree
            (λ e. absurd (ne (sym w.type ∙ e)));
      sound = change-IsSound s.disk v.sound f.i_id l t.disk w.change;
      plain = Plain-elsewhere fd s t v w.others keep (λ g e.
          let q =
            some_eq (record f { offset = add32 f.offset (length str) }) g (sym w.position ∙ e) in
          subst (λ (h : OpenFile). Plain h.i_id t.disk) q (keep f.i_id (v.plain fd f known)));
      opened = w.opened v.opened;
    }

-- A write on a descriptor that is not in use.
refused-IsSystem :
    (s t : FileSystem) (r : Returned) (fd : ℕ) (str : Bytes)
    → IsSystem s
    → fd_find fd s.fd_map ≡ none
    → write_ fd str s ≡ ok r t
    → IsSystem t
unfolding write_
refused-IsSystem s t r fd str v gone run =
    let said = record s { cout = s.cout ++ codes "unknown file descriptor\n" } in
    let w : IsSystem said = record {
      sound = v.sound;
      tree = v.tree;
      plain = v.plain;
      opened = v.opened;
    } in
    Returns-run (λ _ u. IsSystem u) (write_ fd str s) r t (some minus_one, said, rw gone refl, w)
      run

write-IsSystem :
    (s t : FileSystem) (r : Returned) (fd : ℕ) (str : Bytes)
    → IsSystem s
    → CanWrite fd str s
    → write_ fd str s ≡ ok r t
    → IsSystem t
write-IsSystem s t r fd str v can run = elim (Option-cases (fd_find fd s.fd_map)) [
  | inl gone ↦ refused-IsSystem s t r fd str v gone run
  | inr (f, known) ↦
      let l = (v.plain fd f known).0 in
      let (small, enough) = can f known in
      wrote-IsSystem s t fd f str v known (
        Returns-run (λ r t. IsWriteOf s fd f str t) (write_ fd str s) r t
          (write_-IsWriteOf s fd f str known (v.sound.file f.i_id l) small enough) run)
]

-- Descriptors of plain files, none of them from the next one on.
abbrev AllPlain : Disk → ℕ → FdMap → Type 0
AllPlain d n m =
    ((fd : ℕ) (f : OpenFile) → fd_find fd m ≡ some f → Plain f.i_id d) × IsFdMap (add32 n 1) m

repositioned :
    (d : Disk) (n fd offset : ℕ) (m : FdMap)
    → AllPlain d n m
    → AllPlain d n (fd_set_offset fd offset m)
repositioned d n fd offset m (live, v) = (
  (λ j g e.
      let known = sym (fd_find-set_offset j fd offset m) ∙ e in
      elim (Bool-cases (j == fd)) [
        | inl q ↦
            let (f, at, i) =
              moved_back offset (fd_find fd m) g (
                ap (λ b. if b then moved offset (fd_find fd m) else fd_find j m) (sym q) ∙ known) in
            subst (λ k. Plain k d) i (live fd f at)
        | inr q ↦
            live j g
              (ap (λ b. if b then moved offset (fd_find fd m) else fd_find j m) (sym q) ∙ known)
      ]),
  IsFdMap-set_offset (add32 n 1) fd offset m v,
)

released : (d : Disk) (n fd : ℕ) (m : FdMap) → AllPlain d n m → AllPlain d n (fd_erase fd m)
released d n fd m (live, v) = (
  (λ j g e.
      let known = sym (fd_find-erase (add32 n 1) j fd m v) ∙ e in
      elim (Bool-cases (j == fd)) [
        | inl q ↦
            absurd (none-ne-some g (ap (λ b. if b then none else fd_find j m) (sym q) ∙ known))
        | inr q ↦ live j g (ap (λ b. if b then none else fd_find j m) (sym q) ∙ known)
      ]),
  IsFdMap-erase (add32 n 1) fd m v,
)

-- A command that keeps the disk and such descriptors keeps the invariant.
kept-IsSystem :
    {A : Type 0} (m : Action A) (s t : FileSystem) (r : A)
    → ((R : ℕ → FdMap → Type 0)
          (p : (n fd offset : ℕ) (m : FdMap) → R n m → R n (fd_set_offset fd offset m))
          (q : (n fd : ℕ) (m : FdMap) → R n m → R n (fd_erase fd m))
        → Keeps (OnDisk s.disk R p q) m)
    → IsSystem s
    → m s ≡ ok r t
    → IsSystem t
kept-IsSystem m s t r h v run =
    let (same, (live, opened)) =
      Stays-run (OnDisk s.disk (AllPlain s.disk) (repositioned s.disk) (released s.disk)) (m s) r t
        (h (AllPlain s.disk) (repositioned s.disk) (released s.disk) s (refl, (v.plain, v.opened)))
        run in
    record {
      sound = subst IsSound (sym same) v.sound;
      tree = subst IsTree (sym same) v.tree;
      plain = λ fd f known. subst (Plain f.i_id) (sym same) (live fd f known);
      opened = opened;
    }

formatted-IsSystem :
    (s t : FileSystem) (r : ℕ)
    → IsOpened s
    → ((fd : ℕ) → fd_find fd s.fd_map ≡ none)
    → IsFormatted s r t
    → IsSystem t
formatted-IsSystem s t r v free y =
    let same : t.fd_map ≡ s.fd_map = ap (λ (u : FileSystem). u.fd_map) y.kept in
    record {
      sound = y.sound;
      tree = y.tree;
      plain = λ fd f known.
          absurd (none-ne-some f (sym (free fd) ∙ ap (fd_find fd) (sym same) ∙ known));
      opened = subst IsOpened (sym y.kept) v;
    }

Step-IsSystem : (s t : FileSystem) → Step s t → IsSystem s → IsSystem t
Step-IsSystem s t (wrote {r = r} fd str can run) v = write-IsSystem s t r fd str v can run
Step-IsSystem s t (sought {r = r} fd offset run) v =
    kept-IsSystem (seek fd offset) s t r (λ R p q. seek-Keeps s.disk R p q fd offset) v run
Step-IsSystem s t (closed {r = r} fd run) v =
    kept-IsSystem (close fd) s t r (λ R p q. close-Keeps s.disk R p q fd) v run
Step-IsSystem s t (was_read {r = r} fd size run) v =
    kept-IsSystem (read fd size) s t r (λ R p q. read-Keeps s.disk R p q fd size) v run
Step-IsSystem s t (shown {r = r} filename run) v =
    kept-IsSystem (cat filename) s t r (λ R p q. cat-Keeps s.disk R p q filename) v run
Step-IsSystem s t (listed {r = r} run) v =
    kept-IsSystem (ls) s t r (λ R p q. ls-Keeps s.disk R p q) v run
Step-IsSystem s t (drawn {r = r} depth run) v =
    kept-IsSystem (tree depth) s t r (λ R p q. tree-Keeps s.disk R p q depth) v run
Step-IsSystem s t (entered {r = r} dirname run) v =
    kept-IsSystem (cd dirname) s t r (λ R p q. cd-Keeps s.disk R p q dirname) v run
Step-IsSystem s t (made {r = r} name es can run) v =
    let (q, w) =
      Returns-run _ (open_file name (codes "w") s) r t (open_file-IsNewlyOpened name es s can)
        run in
    made-IsSystem s t name es w.0 v can.make w.1
Step-IsSystem s t (reopened {r = r} name flag es id h f l c run) v =
    let (e, y) =
      Returns-run _ (open_file name flag s) r t
        (open_file-IsReopened name flag es s id h f v.opened c) run in
    reopened-IsSystem id es s t v l y
Step-IsSystem s t (dir_made {r = r} name es can run) v =
    let (q, w) = Returns-run _ (mkdir name s) r t (mkdir-IsDirMade name es s v.sound can) run in
    dir_made-IsSystem name es s w.0 t v w.1
Step-IsSystem s t (removed {r = r} name before e after f k left run) v =
    removed-IsSystem before e after s t v
      (Returns-run _ (rm name s) r t (rm-IsRemoved name before e after s v.sound f k left).0 run)
Step-IsSystem s t (dir_removed {r = r} name before e after f k left run) v =
    removed-IsSystem before e after s t v
      (Returns-run _ (rmdir name s) r t (rm-IsRemoved name before e after s v.sound f k left).1
        run).1
Step-IsSystem s t (imported {r = r} source dest buffer es can given run) v =
    let (i, y) =
      Returns-run _ (import source dest s) r t
        (import-IsImported source dest buffer es s v.sound can given) run in
    let m = can.opens.make in
    imported-IsSystem dest buffer es i s t v (m.directory.directory.id_lt, m.cwd_taken) y
Step-IsSystem s t (exported {r = r} source dest es id h l pos c run) v =
    exported-IsSystem dest _ es s t v (
      Returns-run _ (export source dest s) r t
        (export-IsExported source dest es s id h (v.sound.file id l) pos v.opened c) run)
Step-IsSystem s t (formatted {r = r} date free run) v =
    formatted-IsSystem s t r v.opened free
      (Returns-run _ (mkfs s) r t (mkfs-IsFormatted s date) run)

Steps-IsSystem : (s t : FileSystem) → Steps s t → IsSystem s → IsSystem t
Steps-IsSystem s t stop v = v
Steps-IsSystem s t (next {t = u} one rest) v = Steps-IsSystem u t rest (Step-IsSystem s u one v)

-- From a state whose date has 24 characters and that has no open descriptors, whatever its disk
-- holds, after `mkfs` and any number of the commands `write_`, `seek`, `close`, `read`, `cat`,
-- `ls`, `tree`, `cd`, `open` of a plain name (a new one for writing, or one that the directory has
-- under a taken inode that is not a directory), `import` of a file of the host under a new plain
-- name, `export_` of a file that is not empty, `mkdir` of a plain name, `rm` and `rmdir` of an
-- entry that they remove, and `mkfs` with no descriptor open, each one a run that ended (and where
-- it writes, with a text that ends below the largest file size and enough free blocks; where it
-- makes, opens or removes an entry, with what CanOpen, HasName, CanImport, CanMakeDir and IsFound
-- ask): every inode that is marked as taken holds a file whose inode fits its fields, whose blocks
-- are marked as taken and whose size is inside its capacity, no two such inodes share a block,
-- every such inode of the type of a directory is one on the disk, whose counter counts its entries
-- that are not deleted and whose such entries name taken inodes, every descriptor names a taken
-- inode that is not a directory, and the next descriptor and all later ones are unused.
pub reachable-IsSystem :
    (s t u : FileSystem) (r : ℕ)
    → length s.now ≡ 24
    → s.fd_map ≡ []
    → mkfs s ≡ ok r t
    → Steps t u
    → IsSystem u
unfolding fd_find
reachable-IsSystem s t u r date empty run more =
    let none_open : (fd : ℕ) → fd_find fd s.fd_map ≡ none = λ fd. ap (fd_find fd) empty in
    let opened : IsOpened s = subst (IsFdMap (add32 s.fd_cnt 1)) (sym empty) tt in
    Steps-IsSystem t u more (
      formatted-IsSystem s t r opened none_open
        (Returns-run _ (mkfs s) r t (mkfs-IsFormatted s date) run))
