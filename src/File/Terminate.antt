-- ===== src/File/Terminate.antt =====
-- `readData` and `writeData` stay within their fuel, whatever the inode and the disk hold.
use very_simple_file_system.Base.{
  ℕ, zero, suc, ◌+◌, ◌-◌, ◌/◌, ◌%◌, ◌≤◌, ◌<◌, ◌≡◌, ◌≢◌, refl, ap, ◌==◌, ◌||◌, ◌^◌, ltb, leb, length,
  length-append, length-drop, take, drop, min, arith, ◌++◌, [],
}
use very_simple_file_system.Run.{
  ok, fault, out_of_fuel, disk_range, uninitialised, negative, pure, fail,
}
use very_simple_file_system.Run.Ends.{Ends, Ends-ne, Ends-then, Ends-if, Ends-ite, Ends-weaken}
use very_simple_file_system.Layout.{
  minus_one, dsize, disk_size, cap_0, cap_1, sizeof_int, get_block_inner_offset, get_data_offset,
}
use very_simple_file_system.Disk.{
  Bytes, Disk, dread, dwrite, get_int_at, put_int_at, fetch, patch, int_bytes, int_of,
}
use very_simple_file_system.Disk.Bytes.{length-fetch}
use very_simple_file_system.Bitmap.{alloc_data_block}
use very_simple_file_system.Bitmap.Alloc.{alloc_data_block-Allocated}
use very_simple_file_system.Inode.{Inode}
use very_simple_file_system.File.{
  calc_disk_addr, alloc_addr_1, alloc_level1_block, ensure_addr_1, grow, write_data, read_data,
  write_file, read_file, write_fuel, read_fuel,
}

pub dread-Ends : (a len : ℕ) (d : Disk) → Ends (λ bs e. length bs ≡ len) (dread a len d)
unfolding dread
dread-Ends a len d =
    Ends-ite (λ bs e. length bs ≡ len) (leb (a + len) disk_size) (ok (fetch a len d) d)
      (fault disk_range) (length-fetch a len d) tt

dwrite-Ends : (a : ℕ) (bs : Bytes) (d : Disk) → Ends (λ _ e. Unit {0}) (dwrite a bs d)
unfolding dwrite
dwrite-Ends a bs d =
    Ends-ite (λ _ e. Unit {0}) (leb (a + length bs) disk_size) (ok tt (patch a bs d))
      (fault disk_range) tt tt

pub get_int_at-Ends : (a : ℕ) (d : Disk) → Ends (λ w e. Unit {0}) (get_int_at a d)
unfolding get_int_at
get_int_at-Ends a d =
    Ends-then (λ bs e. length bs ≡ sizeof_int) (λ w e. Unit {0}) (dread a sizeof_int d)
      (λ bs. pure (int_of bs)) (dread-Ends a sizeof_int d) (λ bs e h. tt)

put_int_at-Ends : (a w : ℕ) (d : Disk) → Ends (λ _ e. Unit {0}) (put_int_at a w d)
unfolding put_int_at
put_int_at-Ends a w d = dwrite-Ends a (int_bytes w) d

alloc_data_block-Ends : (d : Disk) → Ends (λ r e. Unit {0}) (alloc_data_block d)
alloc_data_block-Ends d = let (r, d', run, q) = alloc_data_block-Allocated d in rw run tt

calc_disk_addr-Ends :
    (node : Inode) (p : ℕ) (d : Disk) → Ends (λ a e. Unit {0}) (calc_disk_addr node p d)
unfolding calc_disk_addr
calc_disk_addr-Ends node p d =
    Ends-if (λ a e. Unit {0}) (ltb p cap_0) (pure _) _ d (λ _. tt)
      (λ _.
        Ends-if (λ a e. Unit {0}) (ltb p cap_1) _ (fail uninitialised) d
          (λ _.
            Ends-then (λ w e. Unit {0}) (λ a e. Unit {0}) (get_int_at _ d) (λ w. pure _)
              (get_int_at-Ends _ d) (λ w e h. tt))
          (λ _. tt))

ensure_addr_1-Ends :
    (node : Inode) (d : Disk) → Ends (λ n e. n.capacity ≡ node.capacity) (ensure_addr_1 node d)
unfolding ensure_addr_1 alloc_addr_1
ensure_addr_1-Ends node d =
    Ends-if (λ n e. n.capacity ≡ node.capacity) (node.addr_1 == minus_one) _ (pure node) d
      (λ _.
        Ends-then (λ r e. Unit {0}) (λ n e. n.capacity ≡ node.capacity) (alloc_data_block d)
          (λ r. pure (record node { addr_1 = get_data_offset r })) (alloc_data_block-Ends d)
          (λ r e h. refl))
      (λ _. refl)

alloc_level1_block-Ends :
    (node : Inode) (d : Disk) → Ends (λ _ e. Unit {0}) (alloc_level1_block node d)
unfolding alloc_level1_block
alloc_level1_block-Ends node d =
    Ends-then (λ r e. Unit {0}) (λ _ e. Unit {0}) (alloc_data_block d)
      (λ r. put_int_at _ (get_data_offset r)) (alloc_data_block-Ends d)
      (λ r e h. put_int_at-Ends _ (get_data_offset r) e)

grow-Ends :
    (node : Inode) (d : Disk) → Ends (λ n e. n.capacity ≡ node.capacity + dsize) (grow node d)
unfolding grow
grow-Ends node d =
    Ends-then (λ n e. n.capacity ≡ node.capacity) (λ n e. n.capacity ≡ node.capacity + dsize)
      (ensure_addr_1 node d) _ (ensure_addr_1-Ends node d)
      (λ n e h.
        Ends-then (λ _ e. Unit {0}) (λ n e. n.capacity ≡ node.capacity + dsize)
          (alloc_level1_block n e) (λ _. pure (record n { capacity = n.capacity + dsize }))
          (alloc_level1_block-Ends n e) (λ _ e' g. ap (λ c. c + dsize) h))

-- What `readData` has stored: all of it only where the file reaches that far.
abbrev pub IsPart : Inode → ℕ → ℕ → Bytes → Type 0
IsPart node off len bs = (length bs ≤ len) × (length bs ≡ len → 0 < len → off + len ≤ node.size)

-- Each call goes on in the next block.
read_data-Ends :
    (fuel : ℕ) (node : Inode) (off len : ℕ) (d : Disk)
    → (off % dsize + len) / dsize < fuel
    → Ends (λ bs e. IsPart node off len bs) (read_data fuel node off len d)
unfolding read_data get_block_inner_offset
read_data-Ends zero node off len d h = absurd (omega arith)
read_data-Ends (suc fuel) node off len d h =
    let P : Bytes → Disk → Type 0 = λ bs e. IsPart node off len bs in
    let n = dsize - off % dsize in
    Ends-if P (leb node.size off || leb (2 ^ 31) node.size) (pure []) _ d
      (λ _. (omega arith, λ e p. omega arith))
      (λ inside.
        Ends-then (λ a e. Unit {0}) P (calc_disk_addr node off d) _ (calc_disk_addr-Ends node off d)
          (λ a e _.
            Ends-if P (leb (off % dsize + len) dsize) (dread a (min len (node.size - off))) _ e
              (λ _.
                Ends-weaken (λ bs e. length bs ≡ min len (node.size - off)) P
                  (dread a (min len (node.size - off)) e)
                  (dread-Ends a (min len (node.size - off)) e)
                  (λ bs e' l. (omega arith, λ q p. ground arith)))
              (λ more.
                Ends-then (λ bs e. length bs ≡ n) P (dread a n e) _ (dread-Ends a n e)
                  (λ head e' l.
                    Ends-then (λ bs e. IsPart node (off + n) (len - n) bs) P
                      (read_data fuel node (off + n) (len - n) e') (λ rest. pure (head ++ rest))
                      (read_data-Ends fuel node (off + n) (len - n) e' (ground arith))
                      (λ rest e'' r.
                        let big : dsize < off % dsize + len = ground arith in
                        let total = length-append head rest in
                        (
                          omega (arith, total, r.0),
                          λ q p. omega (arith, r.1 (omega (arith, total)) (omega arith)),
                        ))))))

write_data-Ends :
    (fuel : ℕ) (node : Inode) (off : ℕ) (src : Bytes) (d : Disk)
    → ((off + length src) / dsize + 1 - node.capacity / dsize)
        + ((off + length src) / dsize - off / dsize)
      < fuel
    → Ends (λ n e. Unit {0}) (write_data fuel node off src d)
unfolding write_data get_block_inner_offset
write_data-Ends zero node off src d h = absurd (omega arith)
write_data-Ends (suc fuel) node off src d h =
    let P : Inode → Disk → Type 0 = λ n e. Unit {0} in
    let n = dsize - off % dsize in
    Ends-if P (leb (2 ^ 31) node.capacity) (fail negative) _ d (λ _. tt)
      (λ fits.
        Ends-if P (ltb off node.capacity) _ _ d
          (λ inside.
            Ends-then (λ a e. Unit {0}) P (calc_disk_addr node off d) _
              (calc_disk_addr-Ends node off d)
              (λ a e _.
                Ends-if P (leb (off % dsize + length src) dsize) _ _ e
                  (λ _.
                    Ends-then (λ _ e. Unit {0}) P (dwrite a src e) (λ _. pure node)
                      (dwrite-Ends a src e) (λ _ e' _. tt))
                  (λ more.
                    Ends-then (λ _ e. Unit {0}) P (dwrite a (take n src) e) _
                      (dwrite-Ends a (take n src) e)
                      (λ _ e' _.
                        write_data-Ends fuel node (off + n) (drop n src) e'
                          (ground (arith, length-drop n src))))))
          (λ beyond.
            Ends-then (λ m e. m.capacity ≡ node.capacity + dsize) P (grow node d) _
              (grow-Ends node d) (λ m e c. write_data-Ends fuel m off src e (ground arith))))

pub read_file-Ends :
    (node : Inode) (off len : ℕ) (d : Disk)
    → Ends (λ bs e. IsPart node off len bs) (read_file node off len d)
unfolding read_file
read_file-Ends node off len d = read_data-Ends (read_fuel off len) node off len d (omega arith)

write_file-Ends :
    (node : Inode) (off : ℕ) (src : Bytes) (d : Disk)
    → Ends (λ n e. Unit {0}) (write_file node off src d)
unfolding write_file
write_file-Ends node off src d =
    write_data-Ends (write_fuel off (length src)) node off src d (omega arith)

-- For every inode with a capacity that is not negative, and every offset, text and disk,
-- `writeData` does not come to the end of its fuel: it returns or stops at a fault of the code.
pub write_file-ne-out_of_fuel :
    (node : Inode) (off : ℕ) (src : Bytes) (d : Disk)
    → node.capacity < 2 ^ 31
    → write_file node off src d ≢ fault out_of_fuel
write_file-ne-out_of_fuel node off src d h =
    Ends-ne (λ n e. Unit {0}) (write_file node off src d) (write_file-Ends node off src d)

-- For every inode, offset, length and disk, `readData` does not come to the end of its fuel: it
-- returns or stops at a fault of the code.
pub read_file-ne-out_of_fuel :
    (node : Inode) (off len : ℕ) (d : Disk) → read_file node off len d ≢ fault out_of_fuel
read_file-ne-out_of_fuel node off len d =
    Ends-ne (λ bs e. IsPart node off len bs) (read_file node off len d)
      (read_file-Ends node off len d)
