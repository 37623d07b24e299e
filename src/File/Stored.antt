-- ===== src/File/Stored.antt =====
-- Files whose blocks are taken in the data bitmap, and the step that takes one more block.
use very_simple_file_system.Base.{
  ℕ, zero, suc, ◌+◌, ◌-◌, ◌*◌, ◌/◌, ◌%◌, ◌≤◌, ◌<◌, ◌≡◌, ◌≢◌, refl, ap, sym, ◌∙◌, ◌⊎◌, [], ◌∷◌,
  arith, inr,
}
use very_simple_file_system.Layout.{
  minus_one, dsize, inode_start, data_start, data_end, dmap_start, dnum, get_data_offset,
}
use very_simple_file_system.Disk.{Disk}
use very_simple_file_system.Disk.Bytes.{patch_outside, patch_byte}
use very_simple_file_system.Bitmap.Count.{IsFresh}
use very_simple_file_system.Inode.{Inode}
use very_simple_file_system.File.Blocks.{
  block_addr, blocks, IsBlock, IsFile, file_addr, file_bytes, InBlock, div-lt-blocks,
}
use very_simple_file_system.File.Spec.{SameTable, Outside, IsFile-table}

-- The bitmap entry of the block that an address of the data region lies in.
abbrev pub mark : ℕ → ℕ
mark a = dmap_start + (a - data_start) / dsize

pub record IsStored (node : Inode) (d : Disk) : Type 0 where
  pub file : IsFile node d
  pub marked : (k : ℕ) → k < blocks node → d (mark (block_addr node d k)) ≢ 0
  pub indirect_marked : node.addr_1 ≢ minus_one → d (mark node.addr_1) ≢ 0

-- An address that no write to the file may touch: not an entry of the data bitmap, in no free
-- block, and neither in the indirect block nor in a block of the file.
pub record IsForeign (node : Inode) (d : Disk) (a : ℕ) : Type 0 where
  pub not_map : (a < dmap_start) ⊎ (dmap_start + dnum ≤ a)
  pub taken : data_start ≤ a → a < data_end → d (mark a) ≢ 0
  pub not_indirect : node.addr_1 ≢ minus_one → ¬ InBlock a node.addr_1
  pub outside : Outside node d a

-- No entry of the data bitmap becomes free.
abbrev pub KeepsMarks : Disk → Disk → Type 0
KeepsMarks d d' = (a : ℕ) → dmap_start ≤ a → a < dmap_start + dnum → d a ≢ 0 → d' a ≢ 0

abbrev pub SameData : Disk → Disk → Type 0
SameData d d' = (a : ℕ) → data_start ≤ a → d' a ≡ d a

-- The address of data block `r`.
abbrev pub new_addr : ℕ → ℕ
new_addr r = data_start + dsize * r

pub get_data_offset-eq : (r : ℕ) → r < dnum → get_data_offset r ≡ new_addr r
unfolding get_data_offset
get_data_offset-eq r h = omega arith

pub new_addr-IsBlock : (r : ℕ) → r < dnum → IsBlock (new_addr r)
new_addr-IsBlock r h = record { from = omega arith; to = omega arith; aligned = omega arith }

pub mark-new_addr : (r : ℕ) → mark (new_addr r) ≡ dmap_start + r
mark-new_addr r = omega arith

-- The bitmap entry of a data block is in the data bitmap, and all of the block has it.
pub mark-lt : (a : ℕ) → data_start ≤ a → a < data_end → mark a < dmap_start + dnum
mark-lt a h l = omega arith

pub mark-InBlock : (a b : ℕ) → IsBlock b → InBlock a b → mark a ≡ mark b
mark-InBlock a b h i = omega (arith, h.aligned)

module _ (node : Inode) (d d' : Disk) (v : IsFile node d) (same : SameData d d') where
  pub table_data : SameTable node d d'
  unfolding block_addr
  table_data zero h = refl
  table_data (suc k) h =
      let i = v.indirect (v.has_indirect (omega (arith, v.whole))) in
      let b = node.addr_1 + 4 * k in
      omega (
        arith,
        same b (omega (arith, i.from)),
        same (b + 1) (omega (arith, i.from)),
        same (b + 2) (omega (arith, i.from)),
        same (b + 3) (omega (arith, i.from)),
      )

  pub file_bytes_data : (p : ℕ) → p < node.capacity → file_bytes node d' p ≡ file_bytes node d p
  unfolding file_bytes
  file_bytes_data p h =
      let l = div-lt-blocks node d v p h in
      let b = v.block (p / dsize) l in
      ap (λ k. d' (k + p % dsize)) (table_data (p / dsize) l)
      ∙ same (file_addr node d p) (omega (arith, b.from))

-- What taking a fresh block does to the rest of the disk.
module _ (d : Disk) (r : ℕ) (d' : Disk) (f : IsFresh d r d') where
  pub fresh_at : (a : ℕ) → a ≢ dmap_start + r → d' a ≡ d a
  fresh_at a ne =
      ap (λ (e : Disk). e a) f.result ∙ patch_outside (dmap_start + r) (1 ∷ []) d a (omega arith)

  pub fresh-SameData : SameData d d'
  fresh-SameData a h = fresh_at a (omega (arith, f.below))

  pub fresh_mark : d' (dmap_start + r) ≡ 1
  fresh_mark = ap (λ (e : Disk). e (dmap_start + r)) f.result ∙ patch_byte (dmap_start + r) 1 d

  pub fresh-KeepsMarks : KeepsMarks d d'
  fresh-KeepsMarks a l h ne e =
      let q : a ≢ dmap_start + r = λ p. ne (ap d p ∙ f.was_free) in ne (sym (fresh_at a q) ∙ e)

  -- A block that was taken is not the fresh one.
  pub fresh_ne : (b : ℕ) → d (mark b) ≢ 0 → b ≢ new_addr r
  fresh_ne b h e = h (ap (λ (x : ℕ). d (mark x)) e ∙ ap d (mark-new_addr r) ∙ f.was_free)

  pub fresh_apart :
      (a : ℕ) → (data_start ≤ a → a < data_end → d (mark a) ≢ 0) → ¬ InBlock a (new_addr r)
  fresh_apart a h i =
      let b = new_addr-IsBlock r f.below in
      h (omega arith) (omega (arith, b.to))
        (ap d (mark-InBlock a (new_addr r) b i ∙ mark-new_addr r) ∙ f.was_free)

-- The file stays stored when the data region and the marks are kept.
pub IsStored-data :
    (node : Inode) (d d' : Disk)
    → IsStored node d
    → SameData d d'
    → KeepsMarks d d'
    → IsStored node d'
IsStored-data node d d' v same keep = record {
  file = IsFile-table node d d' v.file (table_data node d d' v.file same);
  marked = λ k h.
      let b = v.file.block k h in
      rw (table_data node d d' v.file same k h) (
        keep (mark (block_addr node d k)) (omega arith)
          (mark-lt (block_addr node d k) b.from (omega (arith, b.to))) (v.marked k h));
  indirect_marked = λ i.
      let b = v.file.indirect i in
      keep (mark node.addr_1) (omega arith) (mark-lt node.addr_1 b.from (omega (arith, b.to)))
        (v.indirect_marked i);
}

-- What is foreign stays so when the data region and the marks are kept.
pub IsForeign-data :
    (node : Inode) (d d' : Disk) (a : ℕ)
    → IsFile node d
    → SameData d d'
    → KeepsMarks d d'
    → IsForeign node d a
    → IsForeign node d' a
IsForeign-data node d d' a v same keep f = record {
  not_map = f.not_map;
  taken = λ l h. keep (mark a) (omega arith) (mark-lt a l h) (f.taken l h);
  not_indirect = f.not_indirect;
  outside = λ k l. rw (table_data node d d' v same k l) (f.outside k l);
}

-- Inodes lie outside every file.
pub inode-IsForeign :
    (node : Inode) (d : Disk) (a : ℕ)
    → IsStored node d
    → inode_start ≤ a
    → a < data_start
    → IsForeign node d a
inode-IsForeign node d a v l h = record {
  not_map = inr (omega arith);
  taken = λ m. absurd (omega arith);
  not_indirect = λ i j. let b = v.file.indirect i in omega (arith, b.from);
  outside = λ k m j. let b = v.file.block k m in omega (arith, b.from);
}
