-- ===== src/File/Read.antt =====
-- `readData`: inside the size of the file it reads the flat bytes of the file.
use very_simple_file_system.Base.{
  ℕ, zero, suc, ◌+◌, ◌-◌, ◌*◌, ◌/◌, ◌%◌, ◌≤◌, ◌<◌, ◌≡◌, refl, ap, ap₂, sym, ◌∙◌, inl, inr, arith,
  [], ◌∷◌, ◌++◌, min, lt-cases, leb, le→leb, lt→not_leb, if◌then◌else◌, ◌^◌,
}
use mathlib.Core.List.{append-nil}
use very_simple_file_system.Run.{ok}
use very_simple_file_system.Layout.{dsize, get_block_inner_offset, disk_size}
use very_simple_file_system.Disk.{Disk, fetch}
use very_simple_file_system.Disk.Access.{dread-ok}
use very_simple_file_system.Inode.{Inode}
use very_simple_file_system.File.{read_data, read_file, read_fuel}
use very_simple_file_system.File.Blocks.{
  block_addr, IsFile, file_addr, file_bytes, calc_disk_addr-ok, div-lt-blocks,
}

fetch-append : (a m n : ℕ) (d : Disk) → fetch a (m + n) d ≡ fetch a m d ++ fetch (a + m) n d
unfolding fetch
fetch-append a zero n d = ap₂ (λ x k. fetch x k d) (omega arith) (omega arith)
fetch-append a (suc m) n d =
    let e : suc m + n ≡ suc (m + n) = omega arith in
    let e' : a + suc m ≡ a + 1 + m = omega arith in
    rw (e, e') (ap (λ l. d a ∷ l) (fetch-append (a + 1) m n d))

-- Shifted reads: the same bytes at another place of another disk.
fetch_shift :
    (a b len : ℕ) (d e : Disk)
    → ((i : ℕ) → i < len → d (a + i) ≡ e (b + i))
    → fetch a len d ≡ fetch b len e
unfolding fetch
fetch_shift a b zero d e h = refl
fetch_shift a b (suc len) d e h =
    ap₂ (λ x l. x ∷ l) (ap d (omega arith) ∙ h 0 (omega arith) ∙ ap e (omega arith))
      (fetch_shift (a + 1) (b + 1) len d e
        (λ i l. ap d (omega arith) ∙ h (i + 1) (omega arith) ∙ ap e (omega arith)))

-- Where a read from `off` on, over `len` bytes, stops: at the end of the file where the last byte
-- asked for lies in the file's last block, and at the end of that block where more is asked for.
abbrev block_end : ℕ → ℕ
block_end size = (size + dsize - 1) / dsize * dsize

unfoldable pub read_stop : ℕ → ℕ → ℕ → ℕ
read_stop size off len =
    if leb (off + len) (block_end size) then min (off + len) size else block_end size

module _ (node : Inode) (d : Disk) (v : IsFile node d) where
  -- A read that stays in one block of the file.
  fetch_block :
      (off len : ℕ)
      → off % dsize + len ≤ dsize
      → fetch (file_addr node d off) len d ≡ fetch off len (file_bytes node d)
  unfolding file_bytes
  fetch_block off len h = fetch_shift (file_addr node d off) off len d (file_bytes node d) λ i l.
      let q : (off + i) / dsize ≡ off / dsize = omega arith in
      let e : file_addr node d off + i ≡ block_addr node d (off / dsize) + (off + i) % dsize =
        omega arith in
      ap d e ∙ ap (λ k. d (block_addr node d k + (off + i) % dsize)) (sym q)

  home_end :
      (off len : ℕ)
      → off < node.capacity
      → off % dsize + len ≤ dsize
      → file_addr node d off + len ≤ disk_size
  home_end off len h fits =
      let b = v.block (off / dsize) (div-lt-blocks node d v off h) in omega (arith, b.to)

  read_data_end :
      (fuel off len : ℕ) → 0 < fuel → node.size ≤ off → read_data fuel node off len d ≡ ok [] d
  unfolding read_data
  read_data_end zero off len f h = absurd (omega arith)
  read_data_end (suc fuel) off len f h = rw (le→leb node.size off h)

  join :
      (off n stop : ℕ)
      → off + n ≤ stop
      → off % dsize + n ≤ dsize
      → fetch (file_addr node d off) n d ++ fetch (off + n) (stop - (off + n)) (file_bytes node d)
        ≡ fetch off (stop - off) (file_bytes node d)
  join off n stop le fits =
      let k : n + (stop - (off + n)) ≡ stop - off = omega arith in
      ap (λ l. l ++ fetch (off + n) (stop - (off + n)) (file_bytes node d)) (fetch_block off n fits)
      ∙ sym (fetch-append off n (stop - (off + n)) (file_bytes node d))
      ∙ ap (λ c. fetch off c (file_bytes node d)) k

  -- From an offset below the size, `readData` reads the flat bytes of the file up to `read_stop`.
  read_data-fetch :
      (fuel off len : ℕ)
      → node.size ≤ node.capacity
      → off < node.size
      → (off + len) / dsize < off / dsize + fuel
      → read_data fuel node off len d
        ≡ ok (fetch off (read_stop node.size off len - off) (file_bytes node d)) d
  unfolding read_data get_block_inner_offset read_stop
  read_data-fetch zero off len s h f = absurd (omega arith)
  read_data-fetch (suc fuel) off len s h f =
      rw
        (
          lt→not_leb node.size off h,
          lt→not_leb (2 ^ 31) node.size (omega (arith, v.at_most, s)),
          calc_disk_addr-ok node d v off (omega arith),
        )
        (elim (lt-cases dsize (off % dsize + len)) [
          | inr fits ↦
              let c = min len (node.size - off) in
              let m : c ≡ read_stop node.size off len - off = ground arith in
              rw
                (
                  le→leb (off % dsize + len) dsize fits,
                  dread-ok (file_addr node d off) d c (home_end off c (omega arith) (omega arith)),
                )
                (ap (λ l. ok l d)
                  (fetch_block off c (omega arith) ∙ ap (λ k. fetch off k (file_bytes node d)) m))
          | inl more ↦
              let n = dsize - off % dsize in
              let fits : off % dsize + n ≤ dsize = omega arith in
              rw
                (
                  lt→not_leb (off % dsize + len) dsize more,
                  dread-ok (file_addr node d off) d n (home_end off n (omega arith) fits),
                )
                (elim (lt-cases (off + n) node.size) [
                  | inl inside ↦
                      let e : read_stop node.size (off + n) (len - n)
                          ≡ read_stop node.size off len =
                        ground arith in
                      rw (read_data-fetch fuel (off + n) (len - n) s inside (omega arith), e)
                        (ap (λ l. ok l d)
                          (join off n (read_stop node.size off len) (ground arith) fits))
                  | inr past ↦
                      let e : read_stop node.size off len ≡ off + n = ground arith in
                      rw (read_data_end fuel (off + n) (len - n) (omega arith) past, e)
                        (ap (λ l. ok l d)
                          (append-nil (fetch (file_addr node d off) n d)
                            ∙ fetch_block off n fits
                            ∙ ap (λ c. fetch off c (file_bytes node d)) (omega arith)))
                ])
        ])

  -- For a file with its size inside its capacity and an offset below the size, `readData` returns
  -- the bytes of the file from the offset to where the read stops, and leaves the disk as it is. A
  -- read inside the block of the offset stops at the size; one that crosses blocks copies whole
  -- each block that it goes on from, even past the size, and stops at the size in the block where
  -- it ends, or before the first block behind the size.
  pub read_file-fetch :
      (off len : ℕ)
      → node.size ≤ node.capacity
      → off < node.size
      → read_file node off len d
        ≡ ok (fetch off (read_stop node.size off len - off) (file_bytes node d)) d
  unfolding read_file
  read_file-fetch off len s h = read_data-fetch (read_fuel off len) off len s h (omega arith)

  -- What lies inside the size is read exactly.
  pub read_file-inside :
      (off len : ℕ)
      → node.size ≤ node.capacity
      → off < node.size
      → off + len ≤ node.size
      → read_file node off len d ≡ ok (fetch off len (file_bytes node d)) d
  unfolding read_stop
  read_file-inside off len s h le =
      let e : read_stop node.size off len - off ≡ len = ground arith in
      read_file-fetch off len s h ∙ ap (λ c. ok (fetch off c (file_bytes node d)) d) e

  -- At the end of the file, or behind it, nothing is read.
  pub read_file_end : (off len : ℕ) → node.size ≤ off → read_file node off len d ≡ ok [] d
  unfolding read_file
  read_file_end off len h = read_data_end (read_fuel off len) off len (omega arith) h
