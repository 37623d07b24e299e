-- ===== src/File/Level1.antt =====
-- The second step of growing a file: a new block, and its address in the indirect block
-- (`allocLevel1Block`).
use very_simple_file_system.Base.{
  ℕ, zero, suc, ◌+◌, ◌-◌, ◌*◌, ◌/◌, ◌%◌, ◌≤◌, ◌<◌, ◌≡◌, ◌≢◌, refl, ap, sym, subst, ◌∙◌, ◌⊎◌, inl,
  inr, arith, lt-cases,
}
use very_simple_file_system.Layout.{minus_one, dsize, cap_1, data_start, data_end, dmap_start, dnum}
use very_simple_file_system.Disk.{Disk, patch, int_bytes}
use very_simple_file_system.Disk.Bytes.{patch_outside, int_at-patch_self, int_at-patch_outside}
use very_simple_file_system.Bitmap.Count.{IsFresh, free_blocks_of, count_congr}
use very_simple_file_system.Inode.{Inode}
use very_simple_file_system.File.Blocks.{
  block_addr, blocks, IsBlock, file_addr, file_bytes, InBlock, div-lt-blocks, blocks_disjoint,
}
use very_simple_file_system.File.Stored.{
  IsStored, mark, new_addr, new_addr-IsBlock, mark-new_addr, mark-lt, fresh_at, fresh-SameData,
  fresh-KeepsMarks, fresh_mark, fresh_ne, fresh_apart, table_data,
}
use very_simple_file_system.File.Extends.{Extends}

-- The entry of the indirect block for the first block that the file does not have.
abbrev pub next_entry : Inode → ℕ
next_entry node = node.addr_1 + 4 * (blocks node - 1)

abbrev pub with_block : Inode → Inode
with_block node = record node { capacity = node.capacity + dsize }

abbrev pub linked : Inode → ℕ → Disk → Disk
linked node r d = patch (next_entry node) (int_bytes (new_addr r)) d

module _ (node : Inode) (d : Disk) (v : IsStored node d) (has : node.addr_1 ≢ minus_one)
    (room : node.capacity + dsize ≤ cap_1) (r : ℕ) (d' : Disk) (f : IsFresh d r d') where
  indirect : IsBlock node.addr_1
  indirect = v.file.indirect has

  pub entry_bounds : (node.addr_1 ≤ next_entry node) × (next_entry node + 4 ≤ node.addr_1 + dsize)
  entry_bounds = omega (arith, v.file.whole, v.file.at_least)

  linked_at : (a : ℕ) → ¬ InBlock a node.addr_1 → linked node r d' a ≡ d' a
  linked_at a h = elim (lt-cases a (next_entry node)) [
    | inl l ↦ patch_outside (next_entry node) (int_bytes (new_addr r)) d' a (inl l)
    | inr l ↦ elim (lt-cases a (next_entry node + 4)) [
      | inl m ↦ absurd (h (omega (arith, entry_bounds), omega (arith, entry_bounds)))
      | inr m ↦ patch_outside (next_entry node) (int_bytes (new_addr r)) d' a (inr m)
    ]
  ]

  linked_low : (a : ℕ) → a < data_start → linked node r d' a ≡ d' a
  linked_low a h = linked_at a λ i. omega (arith, indirect.from)

  old_blocks :
      (k : ℕ)
      → k < blocks node
      → block_addr (with_block node) (linked node r d') k ≡ block_addr node d k
  unfolding block_addr
  old_blocks zero h = refl
  old_blocks (suc k) h =
      int_at-patch_outside (node.addr_1 + 4 * k) (next_entry node) (int_bytes (new_addr r)) d'
        (omega arith)
      ∙ table_data node d d' v.file (fresh-SameData d r d' f) (suc k) h

  new_block :
      (k : ℕ) → k ≡ blocks node → block_addr (with_block node) (linked node r d') k ≡ new_addr r
  unfolding block_addr
  new_block zero e = absurd (omega (arith, v.file.whole, v.file.at_least))
  new_block (suc k) e =
      let q : 4 * k ≡ 4 * (blocks node - 1) = omega arith in
      rw q (int_at-patch_self (next_entry node) (new_addr r) d' (omega (arith, f.below)))

  split_block : (k : ℕ) → k < blocks (with_block node) → (k < blocks node) ⊎ (k ≡ blocks node)
  split_block k h = omega arith

  old_ne_new : (k : ℕ) → k < blocks node → block_addr node d k ≢ new_addr r
  old_ne_new k h = fresh_ne d r d' f (block_addr node d k) (v.marked k h)

  -- What holds of the old blocks and of the new one holds of each block of the longer file.
  each_block :
      (P : ℕ → Type 0)
      → ((k : ℕ) → k < blocks node → P (block_addr node d k))
      → P (new_addr r)
      → (k : ℕ) → k < blocks (with_block node)
      → P (block_addr (with_block node) (linked node r d') k)
  each_block P old new k h = elim (split_block k h) [
    | inl l ↦ subst P (sym (old_blocks k l)) (old k l)
    | inr e ↦ subst P (sym (new_block k e)) new
  ]

  blocks_apart :
      (j k : ℕ)
      → j < blocks (with_block node)
      → k < blocks (with_block node)
      → j ≢ k
      → block_addr (with_block node) (linked node r d') j
        ≢ block_addr (with_block node) (linked node r d') k
  blocks_apart j k hj hk ne = elim (split_block j hj) [
    | inl a ↦ elim (split_block k hk) [
      | inl b ↦ rw (old_blocks j a, old_blocks k b) (v.file.apart j k a b ne)
      | inr e ↦ rw (old_blocks j a, new_block k e) (old_ne_new j a)
    ]
    | inr e ↦ elim (split_block k hk) [
      | inl b ↦ rw (new_block j e, old_blocks k b) (λ q. old_ne_new k b (sym q))
      | inr e' ↦ absurd (ne (omega arith))
    ]
  ]

  keep_mark :
      (a : ℕ) → data_start ≤ a → a < data_end → d (mark a) ≢ 0 → linked node r d' (mark a) ≢ 0
  keep_mark a l h ne =
      rw (linked_low (mark a) (omega arith))
        (fresh-KeepsMarks d r d' f (mark a) (omega arith) (mark-lt a l h) ne)

  new_mark : linked node r d' (mark (new_addr r)) ≢ 0
  new_mark e = omega (
    arith,
    sym e
        ∙ ap (linked node r d') (mark-new_addr r)
        ∙ linked_low (dmap_start + r) (omega (arith, f.below))
        ∙ fresh_mark d r d' f,
  )

  linked-IsStored : IsStored (with_block node) (linked node r d')
  linked-IsStored = record {
    file = record {
      whole = omega (arith, v.file.whole);
      at_least = omega arith;
      at_most = room;
      block = each_block IsBlock v.file.block (new_addr-IsBlock r f.below);
      apart = blocks_apart;
      indirect = v.file.indirect;
      not_indirect = λ i.
          each_block (λ a. a ≢ node.addr_1) (v.file.not_indirect i)
            (λ e. fresh_ne d r d' f node.addr_1 (v.indirect_marked i) (sym e));
      has_indirect = λ _. has;
    };
    marked =
        each_block (λ a. linked node r d' (mark a) ≢ 0)
          (λ k h.
            let b = v.file.block k h in
            keep_mark (block_addr node d k) b.from (omega (arith, b.to)) (v.marked k h))
          new_mark;
    indirect_marked = λ i.
        let b = v.file.indirect i in
        keep_mark node.addr_1 b.from (omega (arith, b.to)) (v.indirect_marked i);
  }

  linked_bytes :
      (p : ℕ)
      → p < node.capacity
      → file_bytes (with_block node) (linked node r d') p ≡ file_bytes node d p
  unfolding file_bytes
  linked_bytes p h =
      let l = div-lt-blocks node d v.file p h in
      let b = v.file.block (p / dsize) l in
      let apart =
        blocks_disjoint (block_addr node d (p / dsize)) node.addr_1 b indirect
          (v.file.not_indirect has (p / dsize) l) in
      ap (λ k. linked node r d' (k + p % dsize)) (old_blocks (p / dsize) l)
      ∙ linked_at (file_addr node d p) (λ i. omega arith)
      ∙ fresh-SameData d r d' f (file_addr node d p) (omega (arith, b.from))

  pub linked-Extends : Extends node d (with_block node) (linked node r d')
  linked-Extends = record {
    others = refl;
    larger = omega arith;
    stored = linked-IsStored;
    bytes = linked_bytes;
    frame = λ a h.
        linked_at a (h.not_indirect has) ∙ fresh_at d r d' f a (omega (arith, f.below, h.not_map));
    foreign = λ a h. record {
      not_map = h.not_map;
      taken = λ l m. keep_mark a l m (h.taken l m);
      not_indirect = h.not_indirect;
      outside = each_block (λ b. ¬ InBlock a b) h.outside (fresh_apart d r d' f a h.taken);
    };
    marks = λ a l h ne. rw (linked_low a (omega arith)) (fresh-KeepsMarks d r d' f a l h ne);
  }

  -- The address that is stored is in no entry of the bitmap.
  pub linked-count : free_blocks_of (linked node r d') ≡ free_blocks_of d'
  linked-count = count_congr dnum dmap_start _ _ (λ a l h. linked_low a (omega arith))
