-- ===== src/File/Bounds.antt =====
-- Where `calcDiskAddr` leads: into the data region, and to another byte for another position.
use very_simple_file_system.Base.{ℕ, ◌/◌, ◌≤◌, ◌<◌, ◌≡◌, ◌≢◌, ap, arith}
use native.Mathlib.Decide.{ℕ_discrete}
use very_simple_file_system.Run.{Returns}
use very_simple_file_system.Layout.{dsize, data_start, data_end}
use very_simple_file_system.Disk.{Disk}
use very_simple_file_system.Inode.{Inode}
use very_simple_file_system.File.{calc_disk_addr}
use very_simple_file_system.File.Blocks.{
  block_addr, IsFile, file_addr, blocks_disjoint, div-lt-blocks, calc_disk_addr-ok,
}

module _ (node : Inode) (d : Disk) (v : IsFile node d) where
  file_addr-ne :
      (p q : ℕ)
      → p < node.capacity
      → q < node.capacity
      → p ≢ q
      → file_addr node d p ≢ file_addr node d q
  file_addr-ne p q hp hq ne e =
      let kp = div-lt-blocks node d v p hp in
      let kq = div-lt-blocks node d v q hq in
      elim (ℕ_discrete (p / dsize) (q / dsize)) [
        | yes same ↦
            let block : block_addr node d (p / dsize) ≡ block_addr node d (q / dsize) =
              ap (block_addr node d) same in
            ne (omega (arith, block, e))
        | no other ↦ omega (
          arith,
          blocks_disjoint (block_addr node d (p / dsize)) (block_addr node d (q / dsize))
              (v.block (p / dsize) kp) (v.block (q / dsize) kq)
              (v.apart (p / dsize) (q / dsize) kp kq other),
          e,
        )
      ]

  -- For a file and two different offsets inside its capacity, `calcDiskAddr` gives for the first
  -- an address in the data region, and for the second, on the disk that this leaves, another
  -- address.
  pub calc_disk_addr-bounds :
      (p q : ℕ)
      → p < node.capacity
      → q < node.capacity
      → p ≢ q
      → Returns
          (λ a e.
            (data_start ≤ a) × (a < data_end) × Returns (λ b f. a ≢ b) (calc_disk_addr node q e))
          (calc_disk_addr node p d)
  calc_disk_addr-bounds p q hp hq ne =
      let b = v.block (p / dsize) (div-lt-blocks node d v p hp) in
      (
        file_addr node d p,
        d,
        calc_disk_addr-ok node d v p hp,
        (
          omega (arith, b.from),
          omega (arith, b.to),
          (file_addr node d q, d, calc_disk_addr-ok node d v q hq, file_addr-ne p q hp hq ne),
        ),
      )
