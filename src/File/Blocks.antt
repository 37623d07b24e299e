-- ===== src/File/Blocks.antt =====
-- The blocks of a file: where the inode and its indirect block say they are, and when they form a
-- well-formed file.
use very_simple_file_system.Base.{
  ℕ, zero, suc, ◌+◌, ◌-◌, ◌*◌, ◌/◌, ◌%◌, ◌^◌, ◌≤◌, ◌<◌, ◌≡◌, ◌≢◌, ◌⊎◌, inl, inr, arith, lt→ltb,
  le→not_ltb, lt-cases,
}
use very_simple_file_system.Run.{ok}
use very_simple_file_system.Layout.{minus_one, dsize, cap_0, cap_1, data_start, data_end}
use very_simple_file_system.Disk.{Disk, int_at}
use very_simple_file_system.Disk.Access.{get_int_at-ok}
use very_simple_file_system.Inode.{Inode}
use very_simple_file_system.File.{calc_disk_addr}

-- The address of block `k` of a file: `addr_0`, then the entries of the block at `addr_1`.
unfoldable pub block_addr : Inode → Disk → ℕ → ℕ
block_addr node d zero = node.addr_0
block_addr node d (suc k) = int_at (node.addr_1 + 4 * k) d

abbrev pub blocks : Inode → ℕ
blocks node = node.capacity / dsize

-- An address at which a data block starts.
pub record IsBlock (a : ℕ) : Type 0 where
  pub from : data_start ≤ a
  pub to : a + dsize ≤ data_end
  pub aligned : a % dsize ≡ 0

-- The blocks of the file are data blocks, no two the same, and none is the indirect block.
pub record IsFile (node : Inode) (d : Disk) : Type 0 where
  pub whole : node.capacity % dsize ≡ 0
  pub at_least : dsize ≤ node.capacity
  pub at_most : node.capacity ≤ cap_1
  pub block : (k : ℕ) → k < blocks node → IsBlock (block_addr node d k)
  pub apart :
      (j k : ℕ)
      → j < blocks node
      → k < blocks node
      → j ≢ k
      → block_addr node d j ≢ block_addr node d k
  pub indirect : node.addr_1 ≢ minus_one → IsBlock node.addr_1
  pub not_indirect :
      node.addr_1 ≢ minus_one → (k : ℕ) → k < blocks node → block_addr node d k ≢ node.addr_1
  pub has_indirect : dsize < node.capacity → node.addr_1 ≢ minus_one

-- The disk address of a byte of the file, and the file as a flat range of bytes.
abbrev pub file_addr : Inode → Disk → ℕ → ℕ
file_addr node d p = block_addr node d (p / dsize) + p % dsize

unfoldable pub file_bytes : Inode → Disk → Disk
file_bytes node d p = d (file_addr node d p)

-- `a` lies in the block that starts at `b`.
abbrev pub InBlock : ℕ → ℕ → Type 0
InBlock a b = (b ≤ a) × (a < b + dsize)

-- Outside a block is before it or behind any part of it.
pub not_InBlock : (a b n : ℕ) → n ≤ dsize → ¬ InBlock a b → (a < b) ⊎ (b + n ≤ a)
not_InBlock a b n h out = elim (lt-cases a b) [
  | inl l ↦ inl l
  | inr l ↦ elim (lt-cases a (b + dsize)) [
    | inl m ↦ absurd (out (l, m))
    | inr m ↦ inr (omega arith)
  ]
]

pub blocks_disjoint : (a b : ℕ) → IsBlock a → IsBlock b → a ≢ b → (a + dsize ≤ b) ⊎ (b + dsize ≤ a)
blocks_disjoint a b ha hb h = omega (arith, ha.aligned, hb.aligned)

module _ (node : Inode) (d : Disk) (v : IsFile node d) where
  pub div-lt-blocks : (p : ℕ) → p < node.capacity → p / dsize < blocks node
  div-lt-blocks p h = omega (arith, v.whole)

  -- For a file and an offset inside its capacity, `calcDiskAddr` gives the address of the block
  -- that the block table holds for the offset, plus the position inside the block, and leaves the
  -- disk as it is.
  pub calc_disk_addr-ok :
      (p : ℕ) → p < node.capacity → calc_disk_addr node p d ≡ ok (file_addr node d p) d
  unfolding calc_disk_addr block_addr
  calc_disk_addr-ok p h = elim (lt-cases p cap_0) [
    | inl s ↦
        let b = v.block 0 (omega (arith, v.whole, v.at_least)) in
        let z : p / dsize ≡ 0 = omega arith in
        let e : (node.addr_0 + p) % 2 ^ 32 ≡ node.addr_0 + p % dsize = omega (arith, b.to) in
        rw (lt→ltb p cap_0 s, z, e)
    | inr s ↦
        let k = (p - cap_0) / cap_0 in
        let z : p / dsize ≡ suc k = omega arith in
        let i = v.indirect (v.has_indirect (omega (arith, v.whole))) in
        let b = v.block (suc k) (omega (arith, v.whole)) in
        let e₁ : (node.addr_1 + k * 4) % 2 ^ 32 ≡ node.addr_1 + 4 * k =
          omega (arith, i.to, v.at_most) in
        let e₂ : (int_at (node.addr_1 + 4 * k) d + (p - cap_0) % cap_0) % 2 ^ 32
            ≡ int_at (node.addr_1 + 4 * k) d + p % dsize =
          omega (arith, b.to) in
        rw (
          le→not_ltb p cap_0 s,
          lt→ltb p cap_1 (omega (arith, v.at_most)),
          e₁,
          get_int_at-ok (node.addr_1 + 4 * k) d (omega (arith, i.to, v.at_most)),
          z,
          e₂,
        )
  ]
