-- ===== src/File/Write.antt =====
-- `writeData` inside the capacity of the file: it ends, it changes neither the inode nor the block
-- table, and over the flat bytes of the file it is one write.
use very_simple_file_system.Base.{
  ℕ, zero, suc, ◌+◌, ◌-◌, ◌/◌, ◌%◌, ◌≤◌, ◌<◌, ◌≡◌, refl, inl, inr, arith, length, take, drop,
  length-take, length-drop, lt-cases, lt→ltb, le→leb, lt→not_leb, ◌^◌,
}
use very_simple_file_system.Run.{Returns}
use very_simple_file_system.Layout.{dsize, get_block_inner_offset}
use very_simple_file_system.Disk.{Bytes, Disk}
use very_simple_file_system.Disk.Access.{dwrite-ok}
use very_simple_file_system.Inode.{Inode}
use very_simple_file_system.File.{write_data, write_file, write_fuel}
use very_simple_file_system.File.Blocks.{IsFile, file_addr, calc_disk_addr-ok}
use very_simple_file_system.File.Spec.{IsWritten, IsWritten-then, IsFile-table}
use very_simple_file_system.File.Chunk.{chunk_of, chunk_end, chunk-IsWritten}

-- What `writeData` promises inside the capacity.
abbrev pub WrittenInside : Inode → ℕ → Bytes → Disk → Inode → Disk → Type 0
WrittenInside node off src d node' d' = (node' ≡ node) × IsWritten node off src d d'

module _ (node : Inode) where
  write_data-WrittenInside :
      (fuel off : ℕ) (src : Bytes) (d : Disk)
      → IsFile node d
      → off < node.capacity
      → off + length src ≤ node.capacity
      → (off + length src) / dsize < off / dsize + fuel
      → Returns (WrittenInside node off src d) (write_data fuel node off src d)
  unfolding write_data get_block_inner_offset
  write_data-WrittenInside zero off src d v h le f = absurd (omega arith)
  write_data-WrittenInside (suc fuel) off src d v h le f =
      rw
        (
          lt→not_leb (2 ^ 31) node.capacity (omega (arith, v.at_most)),
          lt→ltb off node.capacity h,
          calc_disk_addr-ok node d v off h,
        )
        (elim (lt-cases dsize (off % dsize + length src)) [
          | inr fits ↦
              rw
                (
                  le→leb (off % dsize + length src) dsize fits,
                  dwrite-ok (file_addr node d off) d src (chunk_end node d v off src h fits),
                )
                (
                  node,
                  chunk_of node d off src,
                  refl,
                  (refl, chunk-IsWritten node d v off src h fits),
                )
          | inl more ↦
              let n = dsize - off % dsize in
              let fits : off % dsize + length (take n src) ≤ dsize =
                omega (arith, length-take n src) in
              let w = chunk-IsWritten node d v off (take n src) h fits in
              let (node', d', run, (same, u)) =
                write_data-WrittenInside fuel (off + n) (drop n src) _
                  (IsFile-table node d _ v w.table) (omega arith) (omega (arith, length-drop n src))
                  (omega (arith, length-drop n src)) in
              rw
                (
                  lt→not_leb (off % dsize + length src) dsize more,
                  dwrite-ok (file_addr node d off) d (take n src)
                      (chunk_end node d v off (take n src) h fits),
                )
                (node', d', run, (same, IsWritten-then node off n src d _ d' (omega arith) w u))
        ])

  -- For a file and a text that ends inside its capacity, `writeData` ends without a fault and
  -- returns the inode unchanged; the file's bytes are the old ones with the text over them, and
  -- only bytes of the file changed.
  pub write_file-WrittenInside :
      (off : ℕ) (src : Bytes) (d : Disk)
      → IsFile node d
      → off < node.capacity
      → off + length src ≤ node.capacity
      → Returns (WrittenInside node off src d) (write_file node off src d)
  unfolding write_file
  write_file-WrittenInside off src d v h le =
      write_data-WrittenInside (write_fuel off (length src)) off src d v h le (omega arith)
