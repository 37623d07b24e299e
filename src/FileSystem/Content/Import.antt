-- ===== src/FileSystem/Content/Import.antt =====
-- `import` of a file of the host, and its way back by `export_`.
use very_simple_file_system.Base.{
  ℕ, ◌+◌, ◌/◌, ◌≤◌, ◌<◌, ◌≡◌, ◌≢◌, refl, ap, sym, subst, ◌∙◌, List, [], ◌∷◌, ◌++◌, Option, none,
  some, codes, length, arith,
}
use very_simple_file_system.Run.{Returns, ok}
use very_simple_file_system.Layout.{add32, dsize, cap_1}
use very_simple_file_system.Disk.{Bytes, fetch}
use very_simple_file_system.Bitmap.Count.{free_blocks_of}
use very_simple_file_system.Inode.{Inode}
use very_simple_file_system.Inode.Codec.{inode_at}
use very_simple_file_system.File.Append.{EnoughBlocks}
use very_simple_file_system.File.Blocks.{file_bytes}
use very_simple_file_system.File.Extends.{grow_cost_le}
use very_simple_file_system.File.Sound.{Live, IsSound, IsOpenFile, IsSameFile, IsSameFile-trans}
use very_simple_file_system.File.Sound.Made.{made-ne}
use very_simple_file_system.File.Sound.Change.{change-IsSound, change-IsSameFile, still-Live}
use very_simple_file_system.Table.{show_int}
use very_simple_file_system.Directory.{DirEntry}
use very_simple_file_system.Directory.Add.{entry_of}
use very_simple_file_system.Directory.Tree.{IsTree, change-IsTree}
use very_simple_file_system.Directory.Load.{table_of}
use very_simple_file_system.Directory.Saved.{IsSavedDirectory, same-IsSavedDirectory}
use very_simple_file_system.FileSystem.State.{FileSystem, OpenFile, endl}
use very_simple_file_system.FileSystem.Descriptor.{fd_find, open_file, close}
use very_simple_file_system.FileSystem.Descriptor.Laws.{IsOpened, close_lem}
use very_simple_file_system.FileSystem.Descriptor.Missing.{CanMake, IsNewlyOpened}
use very_simple_file_system.FileSystem.Descriptor.Open.{CanOpen, open_file-IsNewlyOpened}
use very_simple_file_system.FileSystem.Descriptor.Kept.{
  Live-cwd, cwd_ne, keeps-Live, new-Live, opened-IsSound, keeps-IsSameFile, opened-IsTree,
  new_regular,
}
use very_simple_file_system.FileSystem.Content.{write_, import}
use very_simple_file_system.FileSystem.Content.Write.{IsWriteOf, write_-IsWriteOf}
use very_simple_file_system.FileSystem.Content.Read.{wanted-str}
use very_simple_file_system.FileSystem.Content.Export.{content_of, closed-fds}

-- The directory has room for the entry in its last block, and there are blocks for the text.
pub record CanImport (dest buffer : Bytes) (es : List DirEntry) (s : FileSystem) : Type 0 where
  pub opens : CanOpen dest es s
  pub not_empty : 0 < length buffer
  pub small : length buffer < cap_1
  pub entry_fits : (inode_at s.cwd s.disk).size + 8 + length dest < (inode_at s.cwd s.disk).capacity
  pub blocks_left : length buffer / dsize + 2 ≤ free_blocks_of s.disk

-- The new file `i` holds the text, and the descriptors are as before.
pub record IsImported (dest buffer : Bytes) (es : List DirEntry) (s : FileSystem) (i : ℕ)
    (t : FileSystem) : Type 0 where
  pub directory : IsSavedDirectory s.cwd t.disk (es ++ (entry_of i dest ∷ []))
  pub table : t.cwd_table ≡ table_of (es ++ (entry_of i dest ∷ [])) []
  pub live : Live i t.disk
  pub file : IsOpenFile t.disk i
  pub size : (inode_at i t.disk).size ≡ length buffer
  pub content : content_of i t.disk ≡ buffer
  pub sound : IsSound t.disk
  pub tree : IsTree s.disk → IsTree t.disk
  pub parent_type : (inode_at s.cwd t.disk).type ≡ (inode_at s.cwd s.disk).type
  pub lives : (j : ℕ) → Live j s.disk → Live j t.disk
  pub others : (j : ℕ) → Live j s.disk → s.cwd ≢ j → IsSameFile j s.disk t.disk
  pub fds : (j : ℕ) → fd_find j t.fd_map ≡ fd_find j s.fd_map
  pub opened : IsOpened t
  pub next : t.fd_cnt ≡ add32 s.fd_cnt 1
  pub kept :
      record t {
        disk = s.disk;
        cwd_table = s.cwd_table;
        fd_cnt = s.fd_cnt;
        fd_map = s.fd_map;
        cout = s.cout;
      }
      ≡ s

-- What `import` may change, as it is in `s`.
abbrev restored : FileSystem → FileSystem → FileSystem
restored s t = record t {
  disk = s.disk;
  cwd_table = s.cwd_table;
  fd_cnt = s.fd_cnt;
  fd_map = s.fd_map;
  cout = s.cout;
}

-- The state after `open` and the message with the length.
abbrev told : FileSystem → ℕ → FileSystem
told u n = record u { cout = u.cout ++ (codes "file size: " ++ show_int n) }

-- The calls of `import` one after the other.
import_calls :
    (source dest buffer : Bytes) (s u w t : FileSystem) (fd code : ℕ) (r : Option ℕ)
    → open_file dest (codes "w") s ≡ ok fd u
    → u.host source ≡ some buffer
    → write_ fd buffer (told u (length buffer)) ≡ ok r w
    → close fd w ≡ ok code t
    → import source dest s ≡ ok tt t
unfolding import
import_calls source dest buffer s u w t fd code r o h run c = rw (o, h, run, c) refl

module _ (source dest buffer : Bytes) (es : List DirEntry) (s : FileSystem) (v : IsSound s.disk)
    (can : CanImport dest buffer es s) (there : s.host source ≡ some buffer) (i : ℕ)
    (u : FileSystem) (y : IsNewlyOpened dest es s i u) where
  abbrev make : CanMake dest es s
  make = can.opens.make

  abbrev start : OpenFile
  start = record { i_id = i; offset = 0 }

  enough : EnoughBlocks (inode_at i u.disk) (0 + length buffer) u.disk
  enough = omega (
    arith,
    can.blocks_left,
    y.tight can.entry_fits,
    y.one_block,
    grow_cost_le (inode_at i u.disk),
  )

  module _ (w : FileSystem) (x : IsWriteOf (told u (length buffer)) u.fd_cnt start buffer w) where
    new : Live i u.disk
    new = new-Live s u dest es i v make y

    sound1 : IsSound u.disk
    sound1 = opened-IsSound s u dest es i v make y

    still : (j : ℕ) → Live j u.disk → i ≢ j → IsSameFile j u.disk w.disk
    still = change-IsSameFile u.disk sound1 i new w.disk x.change

    new_size : (inode_at i w.disk).size ≡ length buffer
    new_size = ground (arith, x.size, y.empty)

    all-IsSavedDirectory : IsSavedDirectory s.cwd w.disk (es ++ (entry_of i dest ∷ []))
    all-IsSavedDirectory =
        let home = keeps-Live s u dest es i v make y s.cwd (Live-cwd s u dest es i v make y) in
        same-IsSavedDirectory s.cwd (es ++ (entry_of i dest ∷ [])) u.disk w.disk y.directory
          (still s.cwd home (λ e. cwd_ne s u dest es i v make y (sym e)))

    old-IsSameFile : (j : ℕ) → Live j s.disk → s.cwd ≢ j → IsSameFile j s.disk w.disk
    old-IsSameFile j l ne =
        let m = keeps-IsSameFile s u dest es i v make y j l ne in
        IsSameFile-trans j s.disk u.disk w.disk m
          (still j m.live (λ e. made-ne s.disk v i y.middle y.made j l (sym e)))

    w-Live : (j : ℕ) → Live j s.disk → Live j w.disk
    w-Live j l =
        still-Live u.disk sound1 i new w.disk x.change j (keeps-Live s u dest es i v make y j l)

    cwd_type : (inode_at s.cwd w.disk).type ≡ (inode_at s.cwd s.disk).type
    cwd_type =
        let home = keeps-Live s u dest es i v make y s.cwd (Live-cwd s u dest es i v make y) in
        let same = still s.cwd home (λ e. cwd_ne s u dest es i v make y (sym e)) in
        ap (λ (n : Inode). n.type) same.inode ∙ y.parent_type

    w-IsTree : IsTree s.disk → IsTree w.disk
    w-IsTree tree =
        change-IsTree u.disk sound1 i new w.disk x.change
          (opened-IsTree s u dest es i v make y tree)
          (λ e. absurd (new_regular s u dest es i v make y (sym x.type ∙ e)))

    holds : content_of i w.disk ≡ buffer
    holds =
        ap (λ n. fetch 0 n (file_bytes (inode_at i w.disk) w.disk)) new_size
        ∙ wanted-str (told u (length buffer)) u.fd_cnt start buffer w x can.not_empty

    imported :
        (r : Option ℕ)
        → write_ u.fd_cnt buffer (told u (length buffer)) ≡ ok r w
        → open_file dest (codes "w") s ≡ ok u.fd_cnt u
        → Returns (λ _ t. IsImported dest buffer es s i t) (import source dest s)
    imported r run first =
        let (code, t, last, (c, gone, others, opened, kept)) =
          close_lem u.fd_cnt w (x.opened y.opened) in
        let same : t.disk ≡ w.disk = ap (λ (z : FileSystem). z.disk) kept in
        let back = sym same in
        (
          tt,
          t,
          import_calls source dest buffer s u w t u.fd_cnt code r first
              (ap (λ (z : FileSystem). z.host source) y.kept ∙ there) run last,
          record {
            directory =
                subst (λ d. IsSavedDirectory s.cwd d (es ++ (entry_of i dest ∷ []))) back
                  all-IsSavedDirectory;
            table =
                ap (λ (z : FileSystem). z.cwd_table) kept
                ∙ ap (λ (z : FileSystem). z.cwd_table) x.kept
                ∙ y.table;
            live = subst (Live i) back (still-Live u.disk sound1 i new w.disk x.change i new);
            file = subst (λ d. IsOpenFile d i) back x.change.file;
            size = ap (λ d. (inode_at i d).size) same ∙ new_size;
            content = ap (content_of i) same ∙ holds;
            sound = subst IsSound back (change-IsSound u.disk sound1 i new w.disk x.change);
            tree = λ tree. subst IsTree back (w-IsTree tree);
            parent_type = ap (λ d. (inode_at s.cwd d).type) same ∙ cwd_type;
            lives = λ j l. subst (Live j) back (w-Live j l);
            others = λ j l ne. subst (IsSameFile j s.disk) back (old-IsSameFile j l ne);
            fds =
                closed-fds u.fd_cnt s w t y.unused (λ j ne. x.others j ne ∙ y.others j ne) gone
                  others;
            opened = opened;
            next =
                ap (λ (z : FileSystem). z.fd_cnt) kept
                ∙ ap (λ (z : FileSystem). z.fd_cnt) x.kept
                ∙ y.next;
            kept = ap (restored s) kept ∙ ap (restored s) x.kept ∙ ap (restored s) y.kept;
          },
        )

-- Where the disk is sound, the conditions of `open` of a new plain name for writing hold
-- (CanOpen), the host has the source with a text that is not empty and shorter than the largest
-- file size, the entry for the name fits into the directory's last block, and there are free data
-- blocks for the text and two more (CanImport): `import` ends without a fault. Then the directory
-- has its entries and behind them one for some inode under the name, the table of these entries is
-- loaded, the inode is marked as taken and holds a file of which size and bytes are those of the
-- text, the disk is sound, every taken inode is still taken, every other file but the directory
-- has the same inode and the same bytes, the directory has the same type, where every directory on
-- the disk was one whose entries name taken inodes this is so after it, every descriptor is as
-- before, the next one and all later ones are unused, the descriptor counter is one more, and
-- nothing else but the output changed.
pub import-IsImported :
    (source dest buffer : Bytes) (es : List DirEntry) (s : FileSystem)
    → IsSound s.disk
    → CanImport dest buffer es s
    → s.host source ≡ some buffer
    → Returns (λ _ t. (i : ℕ) × IsImported dest buffer es s i t) (import source dest s)
import-IsImported source dest buffer es s v can there =
    let (fd, u, run, (e, (i, y))) = open_file-IsNewlyOpened dest es s can.opens in
    let (r, w, put, x) =
      write_-IsWriteOf (told u (length buffer)) u.fd_cnt (record { i_id = i; offset = 0 }) buffer
        y.entry y.file (omega (arith, can.small))
        (enough source dest buffer es s v can there i u y) in
    let (a, t, all, z) =
      imported source dest buffer es s v can there i u y w x r put (run ∙ ap (λ k. ok k u) e) in
    (a, t, all, (i, z))

import_missing_calls :
    (source dest : Bytes) (s u : FileSystem) (fd : ℕ)
    → open_file dest (codes "w") s ≡ ok fd u
    → u.host source ≡ none
    → import source dest s
      ≡ ok tt (record u {
        cout =
            u.cout
            ++ (codes "no such file named " ++ (source ++ (codes " in host file system" ++ endl)));
      })
unfolding import
import_missing_calls source dest s u fd o h = rw (o, h) refl

-- Under the conditions of `open` of a new plain name for writing (CanOpen), where the host does
-- not have the source: `import` ends without a fault, but the directory has its entries and behind
-- them one for some inode under the name, whose file has size 0, and the latest descriptor, which
-- was unused, is still open at position 0 of it.
pub import-missing :
    (source dest : Bytes) (es : List DirEntry) (s : FileSystem)
    → CanOpen dest es s
    → s.host source ≡ none
    → Returns
        (λ _ t.
          (i : ℕ) × IsSavedDirectory s.cwd t.disk (es ++ (entry_of i dest ∷ []))
          × ((inode_at i t.disk).size ≡ 0)
          × (fd_find t.fd_cnt s.fd_map ≡ none)
          × (fd_find t.fd_cnt t.fd_map ≡ some (record { i_id = i; offset = 0 })))
        (import source dest s)
import-missing source dest es s v gone =
    let (fd, u, run, (e, (i, y))) = open_file-IsNewlyOpened dest es s v in
    (
      tt,
      record u {
        cout =
            u.cout
            ++ (codes "no such file named " ++ (source ++ (codes " in host file system" ++ endl)));
      },
      import_missing_calls source dest s u fd run
          (ap (λ (z : FileSystem). z.host source) y.kept ∙ gone),
      (i, y.directory, y.empty, y.unused, y.entry),
    )
