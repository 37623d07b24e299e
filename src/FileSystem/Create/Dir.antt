-- ===== src/FileSystem/Create/Dir.antt =====
-- `newDir` makes a directory that holds itself and its parent.
pub mod Empty
use very_simple_file_system.Base.{
  ℕ, ◌+◌, ◌≤◌, ◌<◌, ◌≡◌, ◌≢◌, refl, ◌==◌, if◌then◌else◌, ap, sym, subst, ◌∙◌, ◌⊎◌, List, [], ◌∷◌,
  inl, arith, length, codes,
}
use very_simple_file_system.Run.{Returns, ok}
use very_simple_file_system.Layout.{
  minus_one, dsize, inum, dnum, imap_start, dmap_start, inode_start, data_start, sizeof_int,
}
use very_simple_file_system.Disk.{Bytes, Disk, patch, fetch, int_bytes, int_at, put_int_at}
use very_simple_file_system.Disk.Access.{put_int_at-ok}
use very_simple_file_system.Disk.Bytes.{patch_outside, int_at-patch_self}
use very_simple_file_system.Bitmap.Alloc.{Taken}
use very_simple_file_system.Bitmap.Count.{free_blocks_of, free_inodes_of, count_congr}
use very_simple_file_system.Inode.{Inode, new_inode, read_inode, write_inode}
use very_simple_file_system.Inode.Codec.{
  IsInode, inode_at, read_inode-ok, stored, write_inode-ok, inode_at-stored_self,
  inode_at-stored_ne, stored_outside, inode_at_congr,
}
use very_simple_file_system.File.Blocks.{block_addr, IsBlock, IsFile}
use very_simple_file_system.File.Stored.{IsStored, KeepsMarks, mark, mark-lt}
use very_simple_file_system.File.New.{one_block-IsStored}
use very_simple_file_system.File.Append.{EnoughBlocks}
use very_simple_file_system.Directory.Tree.{IsTree, change-IsTree, made-IsTree}
use very_simple_file_system.Directory.{DirEntry, add_entry_to_dir}
use very_simple_file_system.Directory.Entries.{Holds, entries_bytes, entry_bytes}
use very_simple_file_system.Directory.Load.{live_count}
use very_simple_file_system.Directory.Saved.{IsSavedDirectory}
use very_simple_file_system.Directory.Counter.{IsEntryAdded, added-IsChange}
use very_simple_file_system.Directory.Add.{
  entry_of, entry_of-IsEntry, add_entry_to_dir-IsEntryAdded,
}
use very_simple_file_system.Table.{c_str}
use very_simple_file_system.FileSystem.State.{FileSystem}
use very_simple_file_system.FileSystem.Create.{create_file, new_dir}
use very_simple_file_system.FileSystem.Create.File.{
  empty_file, IsCreated, create_file-IsCreated, created-IsMade,
}
use very_simple_file_system.File.Sound.{Live, IsSound, IsChange, imap-IsForeign}
use very_simple_file_system.File.Blocks.{blocks}
use very_simple_file_system.File.Extends.{grow_cost}
use very_simple_file_system.File.Sound.Made.{IsMade, made-IsSound}
use very_simple_file_system.File.Sound.Inside.{IsChange-trans}
use very_simple_file_system.File.Sound.Change.{still-Live, change-IsSound}
use very_simple_file_system.FileSystem.Create.Dir.Empty.{
  empty_dir, made, empty_dir-IsInode, low, self, made-IsSavedDirectory, made_others, made_put,
  made_count, made-IsChange,
}

-- The calls of `newDir` one after the other.
new_dir_calls :
    (s : FileSystem) (i : ℕ) (t : FileSystem) (node : Inode) (d1 d2 d3 d4 : Disk)
    → create_file s ≡ ok i t
    → read_inode i t.disk ≡ ok node t.disk
    → write_inode i (record node { type = 1; size = sizeof_int }) t.disk ≡ ok tt d1
    → put_int_at node.addr_0 0 d1 ≡ ok tt d2
    → add_entry_to_dir i (codes ".") i d2 ≡ ok tt d3
    → add_entry_to_dir t.cwd (codes "..") i d3 ≡ ok tt d4
    → new_dir s ≡ ok i (record t { disk = d4 })
unfolding new_dir
new_dir_calls s i t node d1 d2 d3 d4 c r w p a b = rw (c, r, w, p, a, b) refl

-- The entries of a new directory.
abbrev pub new_entries : ℕ → ℕ → List DirEntry
new_entries i parent = entry_of i (codes ".") ∷ entry_of parent (codes "..") ∷ []

-- The new directory is `i`.
pub record IsNewDir (s : FileSystem) (i : ℕ) (t : FileSystem) : Type 0 where
  pub first : Taken imap_start 0 i s.disk
  pub saved : IsSavedDirectory i t.disk (new_entries i s.cwd)
  pub type : (inode_at i t.disk).type ≡ 1
  pub others : (j : ℕ) → j < inum → j ≢ i → inode_at j t.disk ≡ inode_at j s.disk
  pub marks : KeepsMarks s.disk t.disk
  pub sound : IsSound s.disk → IsSound t.disk × Live i t.disk
  pub tree : IsSound s.disk → IsTree s.disk → Live s.cwd t.disk → IsTree t.disk
  pub kept : record t { disk = s.disk } ≡ s
  pub size : (inode_at i t.disk).size ≡ 23
  pub budget :
      free_blocks_of t.disk + blocks (inode_at i t.disk) + 2
      ≡ free_blocks_of s.disk + grow_cost (inode_at i t.disk)
  pub imap : (j : ℕ) → j < inum → j ≢ i → t.disk (imap_start + j) ≡ s.disk (imap_start + j)
  pub one_block : (inode_at i t.disk).capacity ≡ dsize
  pub fewer : free_blocks_of t.disk + 1 ≡ free_blocks_of s.disk
  pub middle : Disk
  pub made : IsMade i s.disk middle
  pub changed : IsChange i middle t.disk

module _ (s : FileSystem) (i addr : ℕ) (t : FileSystem) (c : IsCreated s i addr t)
    (run : create_file s ≡ ok i t) (h : s.cwd < minus_one) (hb : 1 < free_blocks_of s.disk) where
  enough : EnoughBlocks (inode_at i (made i addr s.now t.disk)) 23 (made i addr s.now t.disk)
  enough =
      subst (λ n. EnoughBlocks n 23 (made i addr s.now t.disk)) (sym (self s i addr t c))
        (unfold empty_file new_inode in omega (arith, c.fewer, made_count s i addr t c))

  size_at : (inode_at i (made i addr s.now t.disk)).size ≡ 4
  size_at = ap (λ (n : Inode). n.size) (self s i addr t c)

  dot :
      Returns
        (λ _ d'. IsEntryAdded i (entry_of i (codes ".")) [] (made i addr s.now t.disk) d')
        (add_entry_to_dir i (codes ".") i (made i addr s.now t.disk))
  unfolding c_str
  dot =
      add_entry_to_dir-IsEntryAdded i (codes ".") i (made i addr s.now t.disk) []
        (made-IsSavedDirectory s i addr t c)
        (entry_of-IsEntry i (codes ".") (omega (arith, c.id_lt)) (omega arith) refl)
        (omega (arith, c.id_lt)) (omega (arith, size_at)) (omega (arith, size_at, enough))

  dots :
      (d3 : Disk)
      → IsEntryAdded i (entry_of i (codes ".")) [] (made i addr s.now t.disk) d3
      → Returns
          (λ _ d'. IsEntryAdded i (entry_of s.cwd (codes "..")) (entry_of i (codes ".") ∷ []) d3 d')
          (add_entry_to_dir s.cwd (codes "..") i d3)
  unfolding entry_bytes c_str
  dots d3 a =
      add_entry_to_dir-IsEntryAdded s.cwd (codes "..") i d3 (entry_of i (codes ".") ∷ []) a.saved
        (entry_of-IsEntry s.cwd (codes "..") (omega arith) (omega arith) refl) (omega arith)
        (omega (arith, size_at, a.size)) (omega (arith, size_at, a.size, enough, a.budget))

  budget :
      (d3 d4 : Disk)
      → IsEntryAdded i (entry_of i (codes ".")) [] (made i addr s.now t.disk) d3
      → IsEntryAdded i (entry_of s.cwd (codes "..")) (entry_of i (codes ".") ∷ []) d3 d4
      → free_blocks_of d4 + blocks (inode_at i d4) + 2
        ≡ free_blocks_of s.disk + grow_cost (inode_at i d4)
  budget d3 d4 a b =
      let one : blocks (inode_at i (made i addr s.now t.disk)) ≡ 1 =
        ap blocks (self s i addr t c) ∙ (unfold empty_file new_inode in refl) in
      let two : grow_cost (inode_at i (made i addr s.now t.disk)) ≡ 2 =
        ap grow_cost (self s i addr t c) ∙ (unfold empty_file new_inode in refl) in
      omega (arith, a.budget, b.budget, one, two, c.fewer, made_count s i addr t c)

  -- The entries fit into the one block.
  tight :
      (d3 d4 : Disk)
      → IsEntryAdded i (entry_of i (codes ".")) [] (made i addr s.now t.disk) d3
      → IsEntryAdded i (entry_of s.cwd (codes "..")) (entry_of i (codes ".") ∷ []) d3 d4
      → ((inode_at i d4).capacity ≡ dsize) × ((inode_at i d4).addr_1 ≡ minus_one)
  unfolding entry_bytes
  tight d3 d4 a b =
      let one : (inode_at i (made i addr s.now t.disk)).capacity ≡ dsize =
        ap (λ (n : Inode). n.capacity) (self s i addr t c)
        ∙ (unfold empty_file new_inode in refl) in
      let two : (inode_at i (made i addr s.now t.disk)).addr_1 ≡ minus_one =
        ap (λ (n : Inode). n.addr_1) (self s i addr t c) ∙ (unfold empty_file new_inode in refl) in
      let (p, q) = a.tight (omega (arith, size_at)) in
      let (p', q') = b.tight (omega (arith, size_at, a.size)) in (p' ∙ p ∙ one, q' ∙ q ∙ two)

  fewer :
      (d3 d4 : Disk)
      → IsEntryAdded i (entry_of i (codes ".")) [] (made i addr s.now t.disk) d3
      → IsEntryAdded i (entry_of s.cwd (codes "..")) (entry_of i (codes ".") ∷ []) d3 d4
      → free_blocks_of d4 + 1 ≡ free_blocks_of s.disk
  fewer d3 d4 a b =
      let (k, j) = tight d3 d4 a b in
      let cost : grow_cost (inode_at i d4) ≡ 2 =
        ap (λ (n : ℕ). 1 + (if n == minus_one then 1 else 0)) j in
      omega (arith, budget d3 d4 a b, k, cost)

  new_size :
      (d3 d4 : Disk)
      → IsEntryAdded i (entry_of i (codes ".")) [] (made i addr s.now t.disk) d3
      → IsEntryAdded i (entry_of s.cwd (codes "..")) (entry_of i (codes ".") ∷ []) d3 d4
      → (inode_at i d4).size ≡ 23
  unfolding entry_bytes
  new_size d3 d4 a b = omega (arith, size_at, a.size, b.size)

  -- An entry leaves the inode map as it is.
  added_imap :
      (d3 d4 : Disk)
      → IsEntryAdded i (entry_of i (codes ".")) [] (made i addr s.now t.disk) d3
      → IsEntryAdded i (entry_of s.cwd (codes "..")) (entry_of i (codes ".") ∷ []) d3 d4
      → (j : ℕ) → j < inum
      → d4 (imap_start + j) ≡ made i addr s.now t.disk (imap_start + j)
  added_imap d3 d4 a b j l =
      let d2 = made i addr s.now t.disk in
      let v2 = (made-IsSavedDirectory s i addr t c).stored in
      b.frame (imap_start + j) (inl (omega arith))
        (imap-IsForeign (inode_at i d3) d3 j a.saved.stored l)
      ∙ a.frame (imap_start + j) (inl (omega arith)) (imap-IsForeign (inode_at i d2) d2 j v2 l)

  made-Live : Live i (made i addr s.now t.disk)
  made-Live =
      (c.id_lt, rw (low s i addr t c (imap_start + i) (omega (arith, c.id_lt))) c.inode_taken)

  empty-IsSound : IsSound s.disk → IsSound (made i addr s.now t.disk)
  empty-IsSound v =
      change-IsSound t.disk (made-IsSound s.disk v i t.disk (created-IsMade s i addr t c)) i
        (c.id_lt, c.inode_taken) (made i addr s.now t.disk) (made-IsChange s i addr t c)

  new-IsSound :
      IsSound s.disk
      → (d3 d4 : Disk) → IsEntryAdded i (entry_of i (codes ".")) [] (made i addr s.now t.disk) d3
      → IsEntryAdded i (entry_of s.cwd (codes "..")) (entry_of i (codes ".") ∷ []) d3 d4
      → IsSound d4 × Live i d4
  new-IsSound v d3 d4 a b =
      let d2 = made i addr s.now t.disk in
      let w2 = empty-IsSound v in
      let x = added-IsChange i (entry_of i (codes ".")) [] d2 d3 a in
      let y =
        added-IsChange i (entry_of s.cwd (codes "..")) (entry_of i (codes ".") ∷ []) d3 d4 b in
      let w3 = change-IsSound d2 w2 i made-Live d3 x in
      let l3 = still-Live d2 w2 i made-Live d3 x i made-Live in
      (change-IsSound d3 w3 i l3 d4 y, still-Live d3 w3 i l3 d4 y i l3)

  new-IsChange :
      (d3 d4 : Disk)
      → IsEntryAdded i (entry_of i (codes ".")) [] (made i addr s.now t.disk) d3
      → IsEntryAdded i (entry_of s.cwd (codes "..")) (entry_of i (codes ".") ∷ []) d3 d4
      → IsChange i t.disk d4
  new-IsChange d3 d4 a b =
      let d2 = made i addr s.now t.disk in
      IsChange-trans i t.disk d2 d4 (made-IsChange s i addr t c) (
        IsChange-trans i d2 d3 d4 (added-IsChange i (entry_of i (codes ".")) [] d2 d3 a)
          (added-IsChange i (entry_of s.cwd (codes "..")) (entry_of i (codes ".") ∷ []) d3 d4 b))

  new-IsTree :
      IsSound s.disk
      → IsTree s.disk
      → (d3 d4 : Disk) → IsEntryAdded i (entry_of i (codes ".")) [] (made i addr s.now t.disk) d3
      → IsEntryAdded i (entry_of s.cwd (codes "..")) (entry_of i (codes ".") ∷ []) d3 d4
      → Live s.cwd d4
      → IsTree d4
  new-IsTree v tree d3 d4 a b parent =
      let m = created-IsMade s i addr t c in
      let w = made-IsSound s.disk v i t.disk m in
      let first =
        made-IsTree s.disk v i t.disk m tree (λ e. absurd (omega (arith, m.regular, e))) in
      let own = (new-IsSound v d3 d4 a b).1 in
      change-IsTree t.disk w i (c.id_lt, c.inode_taken) d4 (new-IsChange d3 d4 a b) first
        (λ _. (new_entries i s.cwd, b.saved, ((λ _. own), ((λ _. parent), tt))))

  finished :
      (d3 d4 : Disk)
      → IsEntryAdded i (entry_of i (codes ".")) [] (made i addr s.now t.disk) d3
      → add_entry_to_dir i (codes ".") i (made i addr s.now t.disk) ≡ ok tt d3
      → IsEntryAdded i (entry_of s.cwd (codes "..")) (entry_of i (codes ".") ∷ []) d3 d4
      → add_entry_to_dir s.cwd (codes "..") i d3 ≡ ok tt d4
      → Returns (IsNewDir s) (new_dir s)
  finished d3 d4 a run1 b run2 = (
    i,
    record t { disk = d4 },
    new_dir_calls s i t (empty_file addr s.now) (stored i (empty_dir addr s.now) t.disk)
        (made i addr s.now t.disk) d3 d4 run
        (read_inode-ok i t.disk c.id_lt ∙ ap (λ n. ok n t.disk) c.node)
        (write_inode-ok i (empty_dir addr s.now) t.disk c.id_lt (empty_dir-IsInode s i addr t c))
        (made_put s i addr t c) run1
        (ap (λ (u : FileSystem). add_entry_to_dir u.cwd (codes "..") i d3) c.kept ∙ run2),
    record {
      first = c.first;
      saved = b.saved;
      type = b.type ∙ a.type ∙ ap (λ (n : Inode). n.type) (self s i addr t c);
      others = λ j l ne.
          b.inodes j l ne ∙ a.inodes j l ne ∙ made_others s i addr t c j l ne ∙ c.others j l ne;
      marks = λ k l m ne.
          b.marks k l m (a.marks k l m (rw (low s i addr t c k (omega arith)) (c.marks k l m ne)));
      kept = c.kept;
      tree = λ v tree l. new-IsTree v tree d3 d4 a b l;
      size = new_size d3 d4 a b;
      budget = budget d3 d4 a b;
      one_block = (tight d3 d4 a b).0;
      fewer = fewer d3 d4 a b;
      middle = t.disk;
      made = created-IsMade s i addr t c;
      changed = new-IsChange d3 d4 a b;
      imap = λ j l ne.
          added_imap d3 d4 a b j l
          ∙ low s i addr t c (imap_start + j) (omega arith)
          ∙ c.imap j l ne;
      sound = λ v. new-IsSound v d3 d4 a b;
    },
  )

-- With a date of 24 characters, a working directory other than -1, a free inode and two free data
-- blocks, `newDir` ends without a fault and returns the first free inode, which is then a
-- directory on the disk with the entries `.` for itself and `..` for the working directory; its
-- size is 23; the other inodes and their entries of the inode map are unchanged, no data block
-- loses its mark, its file has one block, which was the free block that is gone, nothing but the
-- disk changes, and where every taken inode held a file of its own this is so after it, as it is
-- that every directory is one whose entries name taken inodes; the new inode is taken.
pub new_dir-IsNewDir :
    (s : FileSystem)
    → length s.now ≡ 24
    → s.cwd < minus_one
    → 0 < free_inodes_of s.disk
    → 1 < free_blocks_of s.disk
    → Returns (IsNewDir s) (new_dir s)
new_dir-IsNewDir s l h hi hb =
    let (i, t, run, (addr, c)) = create_file-IsCreated s l hi (omega arith) in
    let (u, d3, run1, a) = dot s i addr t c run h hb in
    let (u', d4, run2, b) = dots s i addr t c run h hb d3 a in
    finished s i addr t c run h hb d3 d4 a run1 b run2
