-- ===== src/FileSystem/Content/Export.antt =====
-- `export_` of a file to the host, and `cat` of it.
use very_simple_file_system.FileSystem.Content.Read.{tell_end-inside}
use very_simple_file_system.Base.{
  ℕ, ◌^◌, ◌<◌, ◌≡◌, refl, ap, sym, ◌∙◌, List, [], ◌++◌, Option, none, some, false, ◌==◌,
  if◌then◌else◌, codes, arith,
}
use native.Mathlib.Decide.{ℕ_discrete}
use very_simple_file_system.Run.{Returns, ok}
use very_simple_file_system.Layout.{minus_one, add32}
use very_simple_file_system.Disk.{Bytes, Disk, fetch}
use very_simple_file_system.Disk.Bytes.{length-fetch}
use very_simple_file_system.Base.{lt→ltb}
use very_simple_file_system.Inode.{Inode, read_inode}
use very_simple_file_system.Inode.Codec.{inode_at, read_inode-ok}
use very_simple_file_system.File.Blocks.{file_bytes}
use very_simple_file_system.File.Read.{read_file-inside}
use very_simple_file_system.File.Sound.{IsOpenFile}
use very_simple_file_system.Table.{text_eq, find}
use very_simple_file_system.Table.Lookup.{text_eq_refl}
use very_simple_file_system.Directory.{DirEntry, read_whole}
use very_simple_file_system.Directory.Load.{table_of}
use very_simple_file_system.FileSystem.State.{FileSystem, OpenFile, endl}
use very_simple_file_system.FileSystem.Descriptor.{fd_find, open_file, close}
use very_simple_file_system.FileSystem.Descriptor.Laws.{IsOpened, SameElsewhere, close_lem}
use very_simple_file_system.FileSystem.Descriptor.Existing.{
  HasName, IsReopened, open_file-IsReopened,
}
use very_simple_file_system.FileSystem.Content.{cat, export, host_write, tell_end}

-- The bytes of a file up to its size.
abbrev pub content_of : ℕ → Disk → Bytes
content_of id d = fetch 0 (inode_at id d).size (file_bytes (inode_at id d) d)

-- The files of the host with this one.
abbrev pub host_with : Bytes → Bytes → (Bytes → Option Bytes) → Bytes → Option Bytes
host_with dest content host = λ path. if text_eq path dest then some content else host path

pub read_whole-content :
    (id : ℕ) (d : Disk)
    → IsOpenFile d id
    → 0 < (inode_at id d).size
    → read_whole (inode_at id d) 0 (inode_at id d).size d ≡ ok (content_of id d) d
unfolding read_whole
read_whole-content id d v pos =
    let node = inode_at id d in
    rw
      (
        lt→ltb node.size (2 ^ 31) (omega (arith, v.size_le, v.stored.file.at_most)),
        read_file-inside node d v.stored.file 0 node.size v.size_le pos (omega arith),
      )
      (ground (arith, length-fetch 0 node.size (file_bytes node d)))

tell_end-content :
    (id : ℕ) (d : Disk) (x : FileSystem)
    → IsOpenFile d id
    → 0 < (inode_at id d).size
    → tell_end (inode_at id d) 0 (inode_at id d).size x ≡ ok tt x
tell_end-content id d x v pos =
    tell_end-inside (inode_at id d) 0 (inode_at id d).size x
      (omega (arith, v.size_le, v.stored.file.at_most)) pos (omega arith)

-- A descriptor that was unused is opened and closed again.
pub closed-fds :
    (fd : ℕ) (s u t : FileSystem)
    → fd_find fd s.fd_map ≡ none
    → SameElsewhere fd s u
    → fd_find fd t.fd_map ≡ none
    → SameElsewhere fd u t
    → (j : ℕ) → fd_find j t.fd_map ≡ fd_find j s.fd_map
closed-fds fd s u t before first after second j = elim (ℕ_discrete j fd) [
  | yes e ↦
      ap (λ k. fd_find k t.fd_map) e ∙ after ∙ sym before ∙ ap (λ k. fd_find k s.fd_map) (sym e)
  | no ne ↦ second j ne ∙ first j ne
]

pub record IsExported (dest content : Bytes) (es : List DirEntry) (s t : FileSystem) : Type 0 where
  pub host : t.host ≡ host_with dest content (host_with dest [] s.host)
  pub copy : t.host dest ≡ some content
  pub elsewhere : (path : Bytes) → text_eq path dest ≡ false → t.host path ≡ s.host path
  pub fds : (j : ℕ) → fd_find j t.fd_map ≡ fd_find j s.fd_map
  pub opened : IsOpened t
  pub next : t.fd_cnt ≡ add32 s.fd_cnt 1
  pub table : t.cwd_table ≡ table_of es []
  pub kept :
      record t {
        host = s.host;
        cwd_table = s.cwd_table;
        fd_cnt = s.fd_cnt;
        fd_map = s.fd_map;
        cout = s.cout;
      }
      ≡ s

-- The calls of `export_` one after the other.
export_calls :
    (source dest content : Bytes) (s u t : FileSystem) (fd code : ℕ) (f : OpenFile) (node : Inode)
    → open_file source (codes "r") (record s { host = host_with dest [] s.host }) ≡ ok fd u
    → (fd == minus_one) ≡ false
    → fd_find fd u.fd_map ≡ some f
    → read_inode f.i_id u.disk ≡ ok node u.disk
    → tell_end node 0 node.size u ≡ ok tt u
    → read_whole node 0 node.size u.disk ≡ ok content u.disk
    → close fd (record u { host = host_with dest content u.host }) ≡ ok code t
    → export source dest s ≡ ok tt t
unfolding export host_write
export_calls source dest content s u t fd code f node o ne k i e r c =
    rw (o, ne, k, i, e, r, c) refl

module _ (source dest : Bytes) (es : List DirEntry) (s : FileSystem) (id : ℕ)
    (v : HasName source es s id) (file : IsOpenFile s.disk id)
    (pos : 0 < (inode_at id s.disk).size) where
  -- The host's file is empty when the source is opened.
  abbrev emptied : FileSystem
  emptied = record s { host = host_with dest [] s.host }

  emptied-HasName : HasName source es emptied id
  emptied-HasName = record {
    directory = v.directory;
    entries_left = v.entries_left;
    plain = v.plain;
    here = v.here;
    there = v.there;
    id_ne = v.id_ne;
  }

  module _ (u : FileSystem) (y : IsReopened id es emptied u)
      (counter : add32 s.fd_cnt 1 < minus_one)
      (run : open_file source (codes "r") emptied ≡ ok u.fd_cnt u) where
    abbrev content : Bytes
    content = content_of id s.disk

    same_disk : u.disk ≡ s.disk
    same_disk = ap (λ (x : FileSystem). x.disk) y.kept

    abbrev copied : FileSystem
    copied = record u { host = host_with dest content u.host }

    quiet_read :
        (x : FileSystem) → tell_end (inode_at id s.disk) 0 (inode_at id s.disk).size x ≡ ok tt x
    quiet_read x = tell_end-content id s.disk x file pos

    exported : Returns (λ _ t. IsExported dest content es s t) (export source dest s)
    exported =
        let (code, t, last, (c, gone, others, opened, kept)) = close_lem u.fd_cnt copied y.opened in
        let host : t.host ≡ host_with dest content (host_with dest [] s.host) =
          ap (λ (x : FileSystem). x.host) kept
          ∙ ap (λ (x : FileSystem). host_with dest content x.host) y.kept in
        (
          tt,
          t,
          export_calls source dest content s u t u.fd_cnt code (record { i_id = id; offset = 0 })
              (inode_at id s.disk) run (ground (arith, y.next, counter)) y.entry
              (rw same_disk (read_inode-ok id s.disk file.id_lt)) (quiet_read u)
              (rw same_disk (read_whole-content id s.disk file pos)) last,
          record {
            host = host;
            copy = ap (λ h. h dest) host ∙ rw (text_eq_refl dest) refl;
            elsewhere = λ path ne. ap (λ h. h path) host ∙ rw ne refl;
            fds = closed-fds u.fd_cnt s u t y.unused y.others gone others;
            opened = opened;
            next = ap (λ (x : FileSystem). x.fd_cnt) kept ∙ y.next;
            table = ap (λ (x : FileSystem). x.cwd_table) kept ∙ y.table;
            kept =
                ap
                  (λ (x : FileSystem). record x {
                    host = s.host;
                    cwd_table = s.cwd_table;
                    fd_cnt = s.fd_cnt;
                    fd_map = s.fd_map;
                    cout = s.cout;
                  })
                  kept
                ∙ ap (λ (x : FileSystem). record x { host = s.host; cout = s.cout }) y.kept;
          },
        )

-- Where a plain name is in the table of the working directory for a stored file that is not empty,
-- the loaded table has `.` for the directory, the next descriptor and all later ones are unused and
-- the counter does not reach -1: `export_` ends without a fault. Then the host's file has the bytes
-- of the file, the other files of the host and every descriptor are as before, the counter is one
-- more, the directory's table is loaded, and nothing else but the output changed.
pub export-IsExported :
    (source dest : Bytes) (es : List DirEntry) (s : FileSystem) (id : ℕ)
    → HasName source es s id
    → IsOpenFile s.disk id
    → 0 < (inode_at id s.disk).size
    → IsOpened s
    → add32 s.fd_cnt 1 < minus_one
    → Returns (λ _ t. IsExported dest (content_of id s.disk) es s t) (export source dest s)
export-IsExported source dest es s id v file pos opened counter =
    let (fd, u, run, (e, y)) =
      open_file-IsReopened source (codes "r") es (emptied source dest es s id v file pos) id
        (emptied-HasName source dest es s id v file pos) (unfold text_eq in refl) opened counter in
    exported source dest es s id v file pos u y counter (run ∙ ap (λ k. ok k u) e)

-- `cat` of a name that the loaded table has for a file that is not empty returns 0, prints all the
-- bytes of the file and a line end, and changes nothing but the output.
pub cat_lem :
    (name : Bytes) (s : FileSystem) (id : ℕ)
    → find name s.cwd_table ≡ some id
    → IsOpenFile s.disk id
    → 0 < (inode_at id s.disk).size
    → cat name s ≡ ok 0 (record s { cout = s.cout ++ (content_of id s.disk ++ endl) })
unfolding cat
cat_lem name s id there file pos =
    let some_bytes : ((inode_at id s.disk).size == 0) ≡ false = ground (arith, pos) in
    rw
      (
        there,
        read_inode-ok id s.disk file.id_lt,
        some_bytes,
        tell_end-content id s.disk s file pos,
        read_whole-content id s.disk file pos,
      )
      refl
