-- ===== src/File/Isolation.antt =====
-- A write to one file and the other files of the disk.
use very_simple_file_system.Base.{
  ℕ, zero, suc, ◌+◌, ◌*◌, ◌/◌, ◌%◌, ◌≤◌, ◌<◌, ◌≡◌, ◌≢◌, refl, ap, sym, ◌∙◌, inr, arith, length,
}
use very_simple_file_system.Run.{Returns}
use very_simple_file_system.Layout.{minus_one, dsize, cap_1, data_start}
use very_simple_file_system.Disk.{Bytes, Disk}
use very_simple_file_system.Inode.{Inode}
use very_simple_file_system.File.{write_file}
use very_simple_file_system.File.Blocks.{
  block_addr, blocks, IsBlock, file_addr, file_bytes, InBlock, blocks_disjoint, div-lt-blocks,
}
use very_simple_file_system.File.Spec.{SameTable, IsFile-table}
use very_simple_file_system.File.Stored.{
  IsStored, IsForeign, KeepsMarks, SameData, table_data, file_bytes_data, IsStored-data, mark,
  mark-lt, mark-InBlock,
}
use very_simple_file_system.File.Append.{EnoughBlocks, write_file-IsAppended}

-- A block that the file does not use.
pub record IsUnused (node : Inode) (d : Disk) (b : ℕ) : Type 0 where
  pub outside : (k : ℕ) → k < blocks node → b ≢ block_addr node d k
  pub not_indirect : node.addr_1 ≢ minus_one → b ≢ node.addr_1

-- The two files share no block.
pub record IsSeparate (node other : Inode) (d : Disk) : Type 0 where
  pub blocks_unused : (k : ℕ) → k < blocks other → IsUnused node d (block_addr other d k)
  pub indirect_unused : other.addr_1 ≢ minus_one → IsUnused node d other.addr_1

module _ (node : Inode) (d : Disk) (v : IsStored node d) where
  -- The bytes of a taken block that the file does not use are foreign to it.
  pub unused-IsForeign :
      (b a : ℕ) → IsBlock b → d (mark b) ≢ 0 → IsUnused node d b → InBlock a b → IsForeign node d a
  unused-IsForeign b a h m u i = record {
    not_map = inr (omega (arith, h.from));
    taken = λ _ _ e. m (ap d (sym (mark-InBlock a b h i)) ∙ e);
    not_indirect = λ n j.
        omega (arith, blocks_disjoint b node.addr_1 h (v.file.indirect n) (u.not_indirect n));
    outside = λ k l j.
        omega (arith, blocks_disjoint b (block_addr node d k) h (v.file.block k l) (u.outside k l));
  }

zero_end : (b : ℕ) → b ≡ b + 0
zero_end b = omega arith

module _ (node other : Inode) (d d' : Disk) (v : IsStored node d) (w : IsStored other d)
    (apart : IsSeparate node other d)
    (frame : (a : ℕ) → data_start ≤ a → IsForeign node d a → d' a ≡ d a) where
  other_at : (k a : ℕ) → k < blocks other → InBlock a (block_addr other d k) → d' a ≡ d a
  other_at k a h i = frame a (let b = w.file.block k h in omega (arith, b.from)) (
      unused-IsForeign node d v (block_addr other d k) a (w.file.block k h) (w.marked k h)
        (apart.blocks_unused k h) i)

  entry_at : other.addr_1 ≢ minus_one → (a : ℕ) → InBlock a other.addr_1 → d' a ≡ d a
  entry_at n a i = frame a (let b = w.file.indirect n in omega (arith, b.from)) (
      unused-IsForeign node d v other.addr_1 a (w.file.indirect n) (w.indirect_marked n)
        (apart.indirect_unused n) i)

  other-SameTable : SameTable other d d'
  unfolding block_addr
  other-SameTable zero h = refl
  other-SameTable (suc k) h =
      let n = w.file.has_indirect (omega (arith, w.file.whole)) in
      let b = other.addr_1 + 4 * k in
      let in_block : (i : ℕ) → i < 4 → InBlock (b + i) other.addr_1 =
        λ i l. (omega arith, omega (arith, w.file.at_most)) in
      omega (
        arith,
        ap d' (zero_end b)
            ∙ entry_at n (b + 0) (in_block 0 (omega arith))
            ∙ ap d (sym (zero_end b)),
        entry_at n (b + 1) (in_block 1 (omega arith)),
        entry_at n (b + 2) (in_block 2 (omega arith)),
        entry_at n (b + 3) (in_block 3 (omega arith)),
      )

  other_bytes : (p : ℕ) → p < other.capacity → file_bytes other d' p ≡ file_bytes other d p
  unfolding file_bytes
  other_bytes p h =
      let l = div-lt-blocks other d w.file p h in
      ap (λ k. d' (k + p % dsize)) (other-SameTable (p / dsize) l)
      ∙ other_at (p / dsize) (file_addr other d p) l (omega arith, omega arith)

-- What a write to one file means for another that shares no block with it.
pub record IsUntouched (other : Inode) (d d' : Disk) : Type 0 where
  pub table : SameTable other d d'
  pub bytes : (p : ℕ) → p < other.capacity → file_bytes other d' p ≡ file_bytes other d p
  pub stored : IsStored other d'

-- Where the data region and the marks are kept, every file is untouched.
pub data-IsUntouched :
    (other : Inode) (d d' : Disk)
    → IsStored other d
    → SameData d d'
    → KeepsMarks d d'
    → IsUntouched other d d'
data-IsUntouched other d d' v same marks = record {
  table = table_data other d d' v.file same;
  bytes = file_bytes_data other d d' v.file same;
  stored = IsStored-data other d d' v same marks;
}

pub other-IsUntouched :
    (node other : Inode) (d d' : Disk)
    → IsStored node d
    → IsStored other d
    → IsSeparate node other d
    → ((a : ℕ) → data_start ≤ a → IsForeign node d a → d' a ≡ d a)
    → KeepsMarks d d'
    → IsUntouched other d d'
other-IsUntouched node other d d' v w apart frame marks =
    let table = other-SameTable node other d d' v w apart frame in
    record {
      table = table;
      bytes = other_bytes node other d d' v w apart frame;
      stored = record {
        file = IsFile-table other d d' w.file table;
        marked = λ k h.
            let b = w.file.block k h in
            rw (table k h) (
              marks (mark (block_addr other d k)) (omega arith)
                (mark-lt (block_addr other d k) b.from (omega (arith, b.to))) (w.marked k h));
        indirect_marked = λ i.
            let b = w.file.indirect i in
            marks (mark other.addr_1) (omega arith)
              (mark-lt other.addr_1 b.from (omega (arith, b.to))) (w.indirect_marked i);
      };
    }

-- Where a file and another file are stored and separate, a text ends below the largest file size
-- and enough data blocks are free, `writeData` on the first file ends, and the other file is still
-- stored, with the same block addresses and the same bytes.
pub write_file-IsUntouched :
    (node other : Inode) (off : ℕ) (src : Bytes) (d : Disk)
    → IsStored node d
    → IsStored other d
    → IsSeparate node other d
    → off + length src < cap_1
    → EnoughBlocks node (off + length src) d
    → Returns (λ node' d'. IsUntouched other d d') (write_file node off src d)
write_file-IsUntouched node other off src d v w apart h en =
    let (node', d', run, y) = write_file-IsAppended node off src d v h en in
    (node', d', run, other-IsUntouched node other d d' v w apart (λ a l. y.frame a) y.marks)
