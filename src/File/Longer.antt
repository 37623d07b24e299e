-- ===== src/File/Longer.antt =====
-- `writeData` at the end of a file, with the size raised as `addEntryToDir` does, and several such
-- writes one behind the other.
use very_simple_file_system.Base.{
  ℕ, ◌+◌, ◌^◌, ◌≤◌, ◌<◌, ◌≡◌, ap, ap₂, sym, ◌∙◌, [], ◌∷◌, ◌++◌, inl, inr, arith, length,
  length-append,
}
use native.Mathlib.Decide.{ℕ_discrete}
use very_simple_file_system.Run.{Returns}
use very_simple_file_system.Layout.{cap_1, minus_one}
use very_simple_file_system.Disk.{Bytes, Disk, fetch, patch}
use very_simple_file_system.Disk.Bytes.{fetch_congr, fetch-patch_self, patch_outside}
use very_simple_file_system.Bitmap.Count.{free_blocks_of}
use very_simple_file_system.Inode.{Inode}
use very_simple_file_system.Inode.Codec.{IsInode}
use very_simple_file_system.File.{write_file}
use very_simple_file_system.File.Blocks.{blocks, file_bytes}
use very_simple_file_system.File.Stored.{IsStored, IsForeign, KeepsMarks}
use very_simple_file_system.File.Extends.{grow_cost}
use very_simple_file_system.File.Append.{EnoughBlocks, SameBlocks, write_file-IsAppended}
use very_simple_file_system.File.RoundTrip.{
  sized, file_bytes-sized, block_addr-sized, sized-IsStored,
}

-- The file got the bytes `src` at its end.
pub record IsLonger (node : Inode) (src : Bytes) (d : Disk) (node' : Inode) (d' : Disk)
    : Type 0 where
  pub others :
      node' ≡ record node { size = node'.size; addr_1 = node'.addr_1; capacity = node'.capacity }
  pub size : node'.size ≡ node.size + length src
  pub size_le : node'.size ≤ node'.capacity
  pub stored : IsStored node' d'
  pub old : (p : ℕ) → p < node.size → file_bytes node' d' p ≡ file_bytes node d p
  pub new : fetch node.size (length src) (file_bytes node' d') ≡ src
  pub frame : (a : ℕ) → IsForeign node d a → d' a ≡ d a
  pub foreign : (a : ℕ) → IsForeign node d a → IsForeign node' d' a
  pub marks : KeepsMarks d d'
  pub tight : node.size + length src < node.capacity → SameBlocks node node'
  pub budget :
      free_blocks_of d' + blocks node' + grow_cost node
      ≡ free_blocks_of d + blocks node + grow_cost node'

pub IsForeign-sized :
    (node : Inode) (s : ℕ) (d : Disk) (a : ℕ) → IsForeign node d a → IsForeign (sized node s) d a
IsForeign-sized node s d a h = record {
  not_map = h.not_map;
  taken = h.taken;
  not_indirect = h.not_indirect;
  outside = λ k l. rw (block_addr-sized node s d k) (h.outside k l);
}

-- Two ranges that follow each other.
pub fetch_join :
    (xs ys : Bytes) (a : ℕ) (f : Disk)
    → fetch a (length xs) f ≡ xs
    → fetch (a + length xs) (length ys) f ≡ ys
    → fetch a (length (xs ++ ys)) f ≡ xs ++ ys
unfolding fetch
fetch_join [] ys a f p q = ap (λ b. fetch b (length ys) f) (omega arith) ∙ q
fetch_join (x ∷ xs) ys a f p q =
    ap₂ (λ b l. b ∷ l) (ground arith)
      (fetch_join xs ys (a + 1) f (ground arith)
        (ap (λ b. fetch b (length ys) f) (omega arith) ∙ q))

pub write_file-IsLonger :
    (node : Inode) (src : Bytes) (d : Disk)
    → IsStored node d
    → node.size ≤ node.capacity
    → node.size + length src < cap_1
    → EnoughBlocks node (node.size + length src) d
    → Returns
        (λ n d'. IsLonger node src d (sized n (n.size + length src)) d')
        (write_file node node.size src d)
write_file-IsLonger node src d v s h en =
    let (n, d', run, y) = write_file-IsAppended node node.size src d v h en in
    let e : n.size ≡ node.size = ap (λ (m : Inode). m.size) y.others in
    let z = n.size + length src in
    (
      n,
      d',
      run,
      record {
        others = λ i. record (y.others i) { size = z };
        size = omega (arith, e);
        size_le = omega (arith, e, y.reaches);
        stored = sized-IsStored n z d' y.stored;
        old = λ p l.
            file_bytes-sized n z d' p
            ∙ y.bytes p (inl (omega arith))
            ∙ patch_outside node.size src _ p (inl l);
        new =
            fetch_congr node.size (length src) _ (patch node.size src (file_bytes node d)) (λ i l.
              file_bytes-sized n z d' (node.size + i)
              ∙ y.bytes (node.size + i) (inr (omega arith, omega arith)))
            ∙ fetch-patch_self node.size src _;
        frame = y.frame;
        foreign = λ a f. IsForeign-sized n z d' a (y.foreign a f);
        marks = y.marks;
        tight = y.tight;
        budget = y.budget;
      },
    )

-- What is enough for both parts is enough for the second.
pub IsLonger-EnoughBlocks :
    (node : Inode) (src : Bytes) (d : Disk) (m : Inode) (e : Disk) (end : ℕ)
    → IsLonger node src d m e
    → EnoughBlocks node end d
    → EnoughBlocks m end e
IsLonger-EnoughBlocks node src d m e end x h = omega (arith, x.budget)

pub IsLonger-trans :
    (node : Inode) (xs : Bytes) (d : Disk) (m : Inode) (e : Disk) (ys : Bytes) (k : Inode)
    (f : Disk)
    → IsLonger node xs d m e
    → IsLonger m ys e k f
    → IsLonger node (xs ++ ys) d k f
IsLonger-trans node xs d m e ys k f x y = record {
  others =
      y.others
      ∙ (λ i. record (x.others i) { size = k.size; addr_1 = k.addr_1; capacity = k.capacity });
  size = omega (arith, x.size, y.size, length-append xs ys);
  size_le = y.size_le;
  stored = y.stored;
  old = λ p l. y.old p (omega (arith, x.size)) ∙ x.old p l;
  new =
      fetch_join xs ys node.size _
        (fetch_congr node.size (length xs) _ _
            (λ i l. y.old (node.size + i) (omega (arith, x.size)))
          ∙ x.new)
        (ap (λ a. fetch a (length ys) (file_bytes k f)) (sym x.size) ∙ y.new);
  frame = λ a h. y.frame a (x.foreign a h) ∙ x.frame a h;
  foreign = λ a h. y.foreign a (x.foreign a h);
  marks = λ a l h ne. y.marks a l h (x.marks a l h ne);
  tight = λ h.
      let (c, i) = x.tight (omega (arith, length-append xs ys)) in
      let (c', i') = y.tight (omega (arith, length-append xs ys, x.size)) in (c' ∙ c, i' ∙ i);
  budget = omega (arith, x.budget, y.budget);
}

-- The inode of a file that got longer is one that the disk can hold.
pub IsLonger-IsInode :
    (node : Inode) (src : Bytes) (d : Disk) (node' : Inode) (d' : Disk)
    → IsInode node
    → IsLonger node src d node' d'
    → IsInode node'
IsLonger-IsInode node src d node' d' v y =
    let addr_1_lt : node'.addr_1 < 2 ^ 32 = elim (ℕ_discrete node'.addr_1 minus_one) [
      | yes e ↦ omega arith
      | no ne ↦ let b = y.stored.file.indirect ne in omega (arith, b.to)
    ] in
    record {
      type_lt = omega (arith, ap (λ (n : Inode). n.type) y.others, v.type_lt);
      size_lt = omega (arith, y.size_le, y.stored.file.at_most);
      capacity_lt = omega (arith, y.stored.file.at_most);
      addr_0_lt = omega (arith, ap (λ (n : Inode). n.addr_0) y.others, v.addr_0_lt);
      addr_1_lt = addr_1_lt;
      date_len = ap (λ (n : Inode). length n.date) y.others ∙ v.date_len;
      padding_len = ap (λ (n : Inode). length n.padding) y.others ∙ v.padding_len;
      addr_2_lt = omega (arith, ap (λ (n : Inode). n.addr_2) y.others, v.addr_2_lt);
      mode_lt = omega (arith, ap (λ (n : Inode). n.mode) y.others, v.mode_lt);
      uid_lt = omega (arith, ap (λ (n : Inode). n.uid) y.others, v.uid_lt);
      gid_lt = omega (arith, ap (λ (n : Inode). n.gid) y.others, v.gid_lt);
      times_len = ap (λ (n : Inode). length n.times) y.others ∙ v.times_len;
    }
