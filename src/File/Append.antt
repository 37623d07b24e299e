-- ===== src/File/Append.antt =====
-- `writeData` in general: it adds the blocks that it needs. With enough free blocks it ends, and
-- the file reads as before but for the bytes that were written.
use very_simple_file_system.Base.{
  ℕ, zero, suc, ◌+◌, ◌-◌, ◌/◌, ◌%◌, ◌≤◌, ◌<◌, ◌≡◌, ◌≢◌, refl, ◌∙◌, ◌⊎◌, inl, inr, arith, length,
  take, drop, length-take, length-drop, lt-cases, lt→ltb, le→leb, lt→not_leb, le→not_ltb, ◌^◌, leb,
  false,
}
use very_simple_file_system.Run.{Returns}
use very_simple_file_system.Layout.{
  dsize, cap_1, data_start, data_end, dmap_start, dnum, get_block_inner_offset,
}
use very_simple_file_system.Disk.{Bytes, Disk, patch}
use very_simple_file_system.Disk.Access.{dwrite-ok}
use very_simple_file_system.Bitmap.Count.{free_blocks_of, count_congr}
use very_simple_file_system.Inode.{Inode}
use very_simple_file_system.File.{write_data, write_file, write_fuel}
use very_simple_file_system.File.Blocks.{
  block_addr, blocks, file_addr, file_bytes, calc_disk_addr-ok,
}
use very_simple_file_system.File.Spec.{IsWritten, IsFile-table, patch_congr, patch_split}
use very_simple_file_system.File.Chunk.{chunk_of, chunk_end, chunk-IsWritten}
use very_simple_file_system.File.Stored.{mark, IsStored, IsForeign, KeepsMarks}
use very_simple_file_system.File.Extends.{Extends, SameOthers, SameOthers-trans, grow_cost}
use very_simple_file_system.File.Grow.{grow-IsGrown}

-- As many blocks, and the same index block.
abbrev pub SameBlocks : Inode → Inode → Type 0
SameBlocks node node' = (node'.capacity ≡ node.capacity) × (node'.addr_1 ≡ node.addr_1)

-- The bytes that are known after a write: the old ones, and those written.
abbrev pub Known : Inode → ℕ → ℕ → ℕ → Type 0
Known node off len p = (p < node.capacity) ⊎ ((off ≤ p) × (p < off + len))

pub record IsAppended (node : Inode) (off : ℕ) (src : Bytes) (d : Disk) (node' : Inode) (d' : Disk)
    : Type 0 where
  pub others : SameOthers node node'
  pub larger : node.capacity ≤ node'.capacity
  pub reaches : off + length src ≤ node'.capacity
  pub stored : IsStored node' d'
  pub bytes :
      (p : ℕ)
      → Known node off (length src) p
      → file_bytes node' d' p ≡ patch off src (file_bytes node d) p
  pub frame : (a : ℕ) → IsForeign node d a → d' a ≡ d a
  pub foreign : (a : ℕ) → IsForeign node d a → IsForeign node' d' a
  pub marks : KeepsMarks d d'
  pub tight : off + length src < node.capacity → SameBlocks node node'
  pub budget :
      free_blocks_of d' + blocks node' + grow_cost node
      ≡ free_blocks_of d + blocks node + grow_cost node'

-- Inside the range of a write the old content does not matter.
patch_any :
    (off : ℕ) (src : Bytes) (f g : Disk) (p : ℕ)
    → off ≤ p
    → p < off + length src
    → patch off src f p ≡ patch off src g p
unfolding patch
patch_any off src f g p l h = ground arith

-- A write after growing is a write.
grow-IsAppended :
    (node : Inode) (off : ℕ) (src : Bytes) (d : Disk) (n : Inode) (e : Disk) (node' : Inode)
    (d' : Disk)
    → node.capacity ≤ off
    → Extends node d n e
    → free_blocks_of e + blocks n + grow_cost node ≡ free_blocks_of d + blocks node + grow_cost n
    → IsAppended n off src e node' d'
    → IsAppended node off src d node' d'
grow-IsAppended node off src d n e node' d' l x b y = record {
  others = SameOthers-trans node n node' x.others y.others;
  larger = omega (arith, x.larger, y.larger);
  reaches = y.reaches;
  stored = y.stored;
  bytes = λ p h. elim h [
    | inl l ↦ y.bytes p (inl (omega (arith, x.larger))) ∙ patch_congr off src _ _ p (x.bytes p l)
    | inr (l, m) ↦ y.bytes p (inr (l, m)) ∙ patch_any off src _ _ p l m
  ];
  frame = λ a h. y.frame a (x.foreign a h) ∙ x.frame a h;
  foreign = λ a h. y.foreign a (x.foreign a h);
  marks = λ a l h ne. y.marks a l h (x.marks a l h ne);
  tight = λ h. absurd (omega arith);
  budget = omega (arith, b, y.budget);
}

-- A write inside the capacity leaves the bitmap alone, and keeps what was stored or foreign.
module _ (node : Inode) (off : ℕ) (bs : Bytes) (d d' : Disk) (v : IsStored node d)
    (w : IsWritten node off bs d d') where
  written_low : (a : ℕ) → a < data_start → d' a ≡ d a
  written_low a h = w.frame a λ k l i. let b = v.file.block k l in omega (arith, b.from)

  written_mark : (a : ℕ) → data_start ≤ a → a < data_end → d (mark a) ≢ 0 → d' (mark a) ≢ 0
  written_mark a l h ne = rw (written_low (mark a) (omega arith)) ne

  written-IsStored : IsStored node d'
  written-IsStored = record {
    file = IsFile-table node d d' v.file w.table;
    marked = λ k h.
        let b = v.file.block k h in
        rw (w.table k h)
          (written_mark (block_addr node d k) b.from (omega (arith, b.to)) (v.marked k h));
    indirect_marked = λ i.
        let b = v.file.indirect i in
        written_mark node.addr_1 b.from (omega (arith, b.to)) (v.indirect_marked i);
  }

  written-IsForeign : (a : ℕ) → IsForeign node d a → IsForeign node d' a
  written-IsForeign a h = record {
    not_map = h.not_map;
    taken = λ l m. written_mark a l m (h.taken l m);
    not_indirect = h.not_indirect;
    outside = λ k l. rw (w.table k l) (h.outside k l);
  }

  written-marks : KeepsMarks d d'
  written-marks a l h ne = rw (written_low a (omega arith)) ne

  written-count : free_blocks_of d' ≡ free_blocks_of d
  written-count = count_congr dnum dmap_start _ _ (λ a l h. written_low a (omega arith))

  -- The last part of a write.
  pub last-IsAppended : off + length bs ≤ node.capacity → IsAppended node off bs d node d'
  last-IsAppended h = record {
    others = refl;
    larger = omega arith;
    reaches = h;
    stored = written-IsStored;
    bytes = λ p k. w.bytes p (omega arith);
    frame = λ a f. w.frame a f.outside;
    foreign = written-IsForeign;
    marks = written-marks;
    tight = λ _. (refl, refl);
    budget = omega (arith, written-count);
  }

-- A part that ends with a block, and the rest of the write behind it.
part-IsAppended :
    (node : Inode) (off n : ℕ) (src : Bytes) (d e : Disk) (node' : Inode) (d' : Disk)
    → IsStored node d
    → n ≤ length src
    → off + n ≤ node.capacity
    → IsWritten node off (take n src) d e
    → IsAppended node (off + n) (drop n src) e node' d'
    → IsAppended node off src d node' d'
part-IsAppended node off n src d e node' d' v h le w y = record {
  others = y.others;
  larger = y.larger;
  reaches = omega (arith, y.reaches, length-drop n src);
  stored = y.stored;
  bytes = λ p k. elim (lt-cases p node.capacity) [
    | inl l ↦
        y.bytes p (inl l)
        ∙ patch_congr (off + n) (drop n src) _ _ p (w.bytes p l)
        ∙ patch_split off n src _ p h
    | inr l ↦
        y.bytes p (inr (omega arith, omega (arith, length-drop n src)))
        ∙ patch_any (off + n) (drop n src) _ (patch off (take n src) (file_bytes node d)) p
            (omega arith) (omega (arith, length-drop n src))
        ∙ patch_split off n src _ p h
  ];
  frame =
      λ a f. y.frame a (written-IsForeign node off (take n src) d e v w a f) ∙ w.frame a f.outside;
  foreign = λ a f. y.foreign a (written-IsForeign node off (take n src) d e v w a f);
  marks = λ a l m ne. y.marks a l m (written-marks node off (take n src) d e v w a l m ne);
  tight = λ l. y.tight (omega (arith, length-drop n src));
  budget = omega (arith, y.budget, written-count node off (take n src) d e v w);
}

-- The blocks that a write up to `end` may take, the indirect block included.
abbrev pub EnoughBlocks : Inode → ℕ → Disk → Type 0
EnoughBlocks node end d = end / dsize + grow_cost node ≤ free_blocks_of d + blocks node

-- The calls of `writeData`: one for each block to add, and one for each block to write.
abbrev pub rounds : Inode → ℕ → ℕ → ℕ
rounds node off end = (end / dsize + 1 - blocks node) + (end / dsize - off / dsize) + 1

write_data-IsAppended :
    (fuel : ℕ) (node : Inode) (off : ℕ) (src : Bytes) (d : Disk)
    → IsStored node d
    → off + length src < cap_1
    → EnoughBlocks node (off + length src) d
    → rounds node off (off + length src) ≤ fuel
    → Returns (IsAppended node off src d) (write_data fuel node off src d)
unfolding write_data get_block_inner_offset
write_data-IsAppended zero node off src d v h en f = absurd (omega arith)
write_data-IsAppended (suc fuel) node off src d v h en f =
    let not_negative : leb (2 ^ 31) node.capacity ≡ false =
      lt→not_leb (2 ^ 31) node.capacity (omega (arith, v.file.at_most)) in
    elim (lt-cases off node.capacity) [
      | inr beyond ↦
          let (n, e, run, g) = grow-IsGrown node d v (omega (arith, v.file.whole)) (omega arith) in
          let one : grow_cost n ≡ 1 = ground (arith, g.has) in
          let more : blocks n ≡ blocks node + 1 = omega (arith, g.capacity) in
          let (node', d', run', y) =
            write_data-IsAppended fuel n off src e g.extends.stored h (omega (arith, g.cost))
              (omega arith) in
          rw (not_negative, le→not_ltb off node.capacity beyond, run)
            (
              node',
              d',
              run',
              grow-IsAppended node off src d n e node' d' beyond g.extends (omega (arith, g.cost))
                  y,
            )
      | inl inside ↦
          rw
            (
              not_negative,
              lt→ltb off node.capacity inside,
              calc_disk_addr-ok node d v.file off inside,
            )
            (elim (lt-cases dsize (off % dsize + length src)) [
              | inr fits ↦
                  rw
                    (
                      le→leb (off % dsize + length src) dsize fits,
                      dwrite-ok (file_addr node d off) d src
                          (chunk_end node d v.file off src inside fits),
                    )
                    (
                      node,
                      chunk_of node d off src,
                      refl,
                      last-IsAppended node off src d _ v
                          (chunk-IsWritten node d v.file off src inside fits)
                          (omega (arith, v.file.whole)),
                    )
              | inl more ↦
                  let n = dsize - off % dsize in
                  let fits : off % dsize + length (take n src) ≤ dsize =
                    omega (arith, length-take n src) in
                  let w = chunk-IsWritten node d v.file off (take n src) inside fits in
                  let (node', d', run, y) =
                    write_data-IsAppended fuel node (off + n) (drop n src) _
                      (written-IsStored node off (take n src) d _ v w)
                      (omega (arith, length-drop n src))
                      (omega
                        (arith, length-drop n src, written-count node off (take n src) d _ v w))
                      (omega (arith, length-drop n src)) in
                  rw
                    (
                      lt→not_leb (off % dsize + length src) dsize more,
                      dwrite-ok (file_addr node d off) d (take n src)
                          (chunk_end node d v.file off (take n src) inside fits),
                    )
                    (
                      node',
                      d',
                      run,
                      part-IsAppended node off n src d _ node' d' v (omega arith)
                          (omega (arith, v.file.whole)) w y,
                    )
            ])
    ]

-- For a stored file, a text that ends below the largest file size and enough free data blocks,
-- `writeData` ends without a fault and within its fuel, whatever blocks it has to add. The new
-- inode differs only in capacity and `addr_1`, its capacity reaches the end of the text, the file
-- is stored again, its bytes are the old ones with the text over them (for every position inside
-- the old capacity or inside the text), the addresses that are foreign to the file keep their byte
-- and stay foreign, no data block loses its mark, and as many free blocks are gone as the file
-- got, its index block included.
pub write_file-IsAppended :
    (node : Inode) (off : ℕ) (src : Bytes) (d : Disk)
    → IsStored node d
    → off + length src < cap_1
    → EnoughBlocks node (off + length src) d
    → Returns (IsAppended node off src d) (write_file node off src d)
unfolding write_file
write_file-IsAppended node off src d v h en =
    write_data-IsAppended (write_fuel off (length src)) node off src d v h en (omega arith)
