-- ===== src/FileSystem/Remove/Found.antt =====
-- The loop of `rmDirEntry`: how far it goes, and which branch it takes.
use very_simple_file_system.Base.{
  ℕ, zero, suc, ◌+◌, ◌<◌, ◌≤◌, ◌≡◌, refl, ◌⊎◌, inl, inr, List, [], ◌∷◌, ◌++◌, true, false, arith,
  length, length-append,
}
use very_simple_file_system.Run.{ok}
use very_simple_file_system.Layout.{minus_one, inum, get_inode_offset}
use very_simple_file_system.Disk.{Bytes, Disk, fetch}
use very_simple_file_system.Disk.Access.{dread-ok}
use very_simple_file_system.Inode.{Inode, sizeof_inode, decode, read_inode}
use very_simple_file_system.Inode.Codec.{inode_at, read_inode-ok}
use very_simple_file_system.File.Blocks.{IsFile}
use very_simple_file_system.Table.{text_eq}
use very_simple_file_system.Directory.{DirEntry, get_size}
use very_simple_file_system.Directory.Entries.{
  IsEntry, AllEntries, Holds, entries_bytes, entry_bytes, read_entry-Holds,
}
use very_simple_file_system.FileSystem.State.{FileSystem}
use very_simple_file_system.FileSystem.Remove.{rm_loop, remove_found}

-- The ids in a directory: of an inode, or -1 in a deleted entry.
abbrev pub IsId : ℕ → Type 0
IsId id = (id < inum) ⊎ (id ≡ minus_one)

-- Every entry has another name and an id that can be read.
abbrev pub OtherNames : Bytes → List DirEntry → Type 0
OtherNames name [] = Unit
OtherNames name (e ∷ es) = (text_eq e.name name ≡ false) × IsId e.node_index × OtherNames name es

read_deleted : (d : Disk) → (n : Inode) × (read_inode minus_one d ≡ ok n d)
unfolding read_inode get_inode_offset
read_deleted d = (
  decode (fetch (get_inode_offset minus_one) sizeof_inode d),
  rw (dread-ok (get_inode_offset minus_one) d sizeof_inode (omega arith)) refl,
)

-- An inode is read for every entry, also for a deleted one.
read_any : (id : ℕ) (d : Disk) → IsId id → (n : Inode) × (read_inode id d ≡ ok n d)
read_any id d (inl h) = (inode_at id d, read_inode-ok id d h)
read_any id d (inr e) = rw e (read_deleted d)

length-entry_bytes : (e : DirEntry) → IsEntry e → length (entry_bytes e) ≡ get_size e
unfolding entry_bytes get_size
length-entry_bytes e w = omega (arith, w.nlen_eq)

module _ (name : Bytes) (node : Inode) (s : FileSystem) (v : IsFile node s.disk)
    (h : node.size ≤ node.capacity) where
  -- The entry is found behind entries with other names, where there are rounds left.
  pub rm_loop-finds :
      (before : List DirEntry) (e : DirEntry) (after : List DirEntry) (n off : ℕ)
      → AllEntries (before ++ (e ∷ after))
      → Holds node s.disk off (before ++ (e ∷ after))
      → OtherNames name before
      → text_eq e.name name ≡ true
      → e.node_index < inum
      → length before < n
      → rm_loop n node name off s
        ≡ remove_found node
            (off + length (entries_bytes before))
            e.node_index
            (inode_at e.node_index s.disk)
            s
  unfolding rm_loop entries_bytes
  rm_loop-finds before e after zero off a k o q i l = absurd (omega arith)
  rm_loop-finds [] e after (suc n) off (w, a) k o q i l =
      let (run, _) = read_entry-Holds node s.disk v h off e after w k in
      let z : off + 0 ≡ off = omega arith in
      rw (run, read_inode-ok e.node_index s.disk i, q, z) refl
  rm_loop-finds (x ∷ before) e after (suc n) off (w, a) k (other, id, o) q i l =
      let (run, k') = read_entry-Holds node s.disk v h off x (before ++ (e ∷ after)) w k in
      let (m, run') = read_any x.node_index s.disk id in
      let len = length-append (entry_bytes x) (entries_bytes before) in
      let z : off + length (entry_bytes x ++ entries_bytes before)
          ≡ off + get_size x + length (entries_bytes before) =
        omega (arith, len, length-entry_bytes x w) in
      rw (run, run', other, z)
        (rm_loop-finds before e after n (off + get_size x) a k' o q i (omega arith))

  -- The loop ends with nothing done where its rounds come to other names only.
  pub rm_loop-misses :
      (seen rest : List DirEntry) (off : ℕ)
      → AllEntries (seen ++ rest)
      → Holds node s.disk off (seen ++ rest)
      → OtherNames name seen
      → rm_loop (length seen) node name off s ≡ ok tt s
  unfolding rm_loop
  rm_loop-misses [] rest off a k o = refl
  rm_loop-misses (x ∷ seen) rest off (w, a) k (other, id, o) =
      let (run, k') = read_entry-Holds node s.disk v h off x (seen ++ rest) w k in
      let (m, run') = read_any x.node_index s.disk id in
      rw (run, run', other) (rm_loop-misses seen rest (off + get_size x) a k' o)
