-- ===== src/File/Indirect.antt =====
-- The first step of growing a file: an indirect block, if it has none (`allocAddr_1`).
use very_simple_file_system.Base.{
  ℕ, zero, suc, ◌+◌, ◌/◌, ◌%◌, ◌≤◌, ◌<◌, ◌≡◌, ◌≢◌, refl, ap, sym, ◌∙◌, inl, inr, arith, ◌==◌,
  Bool-cases, lt-cases,
}
use very_simple_file_system.Run.{Returns}
use very_simple_file_system.Layout.{minus_one, dsize, data_start, data_end}
use very_simple_file_system.Disk.{Disk}
use very_simple_file_system.Bitmap.Count.{IsFresh, free_blocks_of, alloc_data_block-IsFresh}
use very_simple_file_system.Inode.{Inode}
use very_simple_file_system.File.{ensure_addr_1, alloc_addr_1}
use very_simple_file_system.File.Blocks.{
  block_addr, blocks, IsFile, file_addr, file_bytes, div-lt-blocks,
}
use very_simple_file_system.File.Stored.{
  IsStored, IsForeign, mark, new_addr, new_addr-IsBlock, get_data_offset-eq, mark-new_addr, mark-lt,
  fresh_at, fresh-SameData, fresh-KeepsMarks, fresh_mark, fresh_ne, fresh_apart,
}
use very_simple_file_system.File.Extends.{Extends, grow_cost}

pub record IsEnsured (node : Inode) (d : Disk) (node' : Inode) (d' : Disk) : Type 0 where
  pub extends : Extends node d node' d'
  pub capacity : node'.capacity ≡ node.capacity
  pub has : node'.addr_1 ≢ minus_one
  pub cost : free_blocks_of d' + grow_cost node ≡ free_blocks_of d + 1

module _ (node : Inode) (d : Disk) (v : IsStored node d) where
  -- Nothing to do.
  IsEnsured-already : node.addr_1 ≢ minus_one → IsEnsured node d node d
  IsEnsured-already h = record {
    extends = record {
      others = refl;
      larger = omega arith;
      stored = v;
      bytes = λ p l. refl;
      frame = λ a f. refl;
      foreign = λ a f. f;
      marks = λ a l m ne. ne;
    };
    capacity = refl;
    has = h;
    cost = ground arith;
  }

  module _ (none : node.addr_1 ≡ minus_one) (r : ℕ) (d' : Disk) (f : IsFresh d r d') where
    with_indirect : Inode
    with_indirect = record node { addr_1 = new_addr r }

    one_block : (k : ℕ) → k < blocks node → k ≡ 0
    one_block k h = elim (lt-cases dsize node.capacity) [
      | inl more ↦ absurd (v.file.has_indirect more none)
      | inr one ↦ omega arith
    ]

    same_block : (k : ℕ) → k < blocks node → block_addr with_indirect d' k ≡ block_addr node d k
    unfolding block_addr with_indirect
    same_block zero h = refl
    same_block (suc k) h = absurd (omega (arith, one_block (suc k) h))

    with_indirect-IsFile : IsFile with_indirect d'
    unfolding with_indirect
    with_indirect-IsFile = record {
      whole = v.file.whole;
      at_least = v.file.at_least;
      at_most = v.file.at_most;
      block = λ k h. rw (same_block k h) (v.file.block k h);
      apart = λ j k hj hk ne. rw (same_block j hj, same_block k hk) (v.file.apart j k hj hk ne);
      indirect = λ _. new_addr-IsBlock r f.below;
      not_indirect =
          λ _ k h. rw (same_block k h) (fresh_ne d r d' f (block_addr node d k) (v.marked k h));
      has_indirect = λ _. omega (arith, f.below);
    }

    keep_mark : (a : ℕ) → data_start ≤ a → a < data_end → d (mark a) ≢ 0 → d' (mark a) ≢ 0
    keep_mark a l h ne = fresh-KeepsMarks d r d' f (mark a) (omega arith) (mark-lt a l h) ne

    with_indirect-IsStored : IsStored with_indirect d'
    unfolding with_indirect
    with_indirect-IsStored = record {
      file = with_indirect-IsFile;
      marked = λ k h.
          let b = v.file.block k h in
          rw (same_block k h)
            (keep_mark (block_addr node d k) b.from (omega (arith, b.to)) (v.marked k h));
      indirect_marked = λ _ e. omega (arith, sym e ∙ ap d' (mark-new_addr r) ∙ fresh_mark d r d' f);
    }

    IsForeign-new : (a : ℕ) → IsForeign node d a → IsForeign with_indirect d' a
    unfolding with_indirect
    IsForeign-new a h = record {
      not_map = h.not_map;
      taken = λ l m. keep_mark a l m (h.taken l m);
      not_indirect = λ _. fresh_apart d r d' f a h.taken;
      outside = λ k l. rw (same_block k l) (h.outside k l);
    }

    bytes_new : (p : ℕ) → p < node.capacity → file_bytes with_indirect d' p ≡ file_bytes node d p
    unfolding file_bytes
    bytes_new p h =
        let l = div-lt-blocks node d v.file p h in
        let b = v.file.block (p / dsize) l in
        ap (λ k. d' (k + p % dsize)) (same_block (p / dsize) l)
        ∙ fresh-SameData d r d' f (file_addr node d p) (omega (arith, b.from))

    IsEnsured-new : IsEnsured node d with_indirect d'
    unfolding with_indirect
    IsEnsured-new = record {
      extends = record {
        others = refl;
        larger = omega arith;
        stored = with_indirect-IsStored;
        bytes = bytes_new;
        frame = λ a h. fresh_at d r d' f a (omega (arith, f.below, h.not_map));
        foreign = IsForeign-new;
        marks = fresh-KeepsMarks d r d' f;
      };
      capacity = refl;
      has = omega (arith, f.below);
      cost = ground (arith, f.fewer);
    }

  -- With a block to spare the file has an indirect block afterwards.
  pub ensure_addr_1-IsEnsured :
      grow_cost node ≤ free_blocks_of d → Returns (IsEnsured node d) (ensure_addr_1 node d)
  unfolding ensure_addr_1 alloc_addr_1
  ensure_addr_1-IsEnsured h = elim (Bool-cases (node.addr_1 == minus_one)) [
    | inr other ↦ rw other (node, d, refl, IsEnsured-already (ground arith))
    | inl missing ↦
        let (r, d', run, f) = alloc_data_block-IsFresh d (omega arith) in
        rw (missing, run, get_data_offset-eq r f.below)
          (_, d', refl, unfold with_indirect in IsEnsured-new (ground arith) r d' f)
  ]
