-- ===== src/File/New.antt =====
-- Files of one block, as `createFile` makes them.
use very_simple_file_system.Base.{ℕ, zero, suc, ◌<◌, ◌≡◌, ◌≢◌, arith}
use very_simple_file_system.Layout.{minus_one, dsize}
use very_simple_file_system.Disk.{Disk}
use very_simple_file_system.Inode.{Inode}
use very_simple_file_system.File.Blocks.{block_addr, blocks, IsBlock}
use very_simple_file_system.File.Stored.{IsStored, mark}

module _ (node : Inode) (d : Disk) (one : node.capacity ≡ dsize) where
  -- What holds of `addr_0` holds of each block.
  pub only_block :
      (P : ℕ → Type 0) → P node.addr_0 → (k : ℕ) → k < blocks node → P (block_addr node d k)
  unfolding block_addr
  only_block P p zero h = p
  only_block P p (suc k) h = absurd (omega arith)

  pub one_block-IsStored :
      node.addr_1 ≡ minus_one → IsBlock node.addr_0 → d (mark node.addr_0) ≢ 0 → IsStored node d
  one_block-IsStored none b m = record {
    file = record {
      whole = omega arith;
      at_least = omega arith;
      at_most = omega arith;
      block = only_block IsBlock b;
      apart = λ j k hj hk ne. absurd (ne (omega arith));
      indirect = λ i. absurd (i none);
      not_indirect = λ i. absurd (i none);
      has_indirect = λ h. absurd (omega arith);
    };
    marked = only_block (λ a. d (mark a) ≢ 0) m;
    indirect_marked = λ i. absurd (i none);
  }
