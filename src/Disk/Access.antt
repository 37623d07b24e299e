-- ===== src/Disk/Access.antt =====
-- `dread`, `dwrite`, `getIntAt`, `putIntAt` and `resetDisk` where they do not fail.
use very_simple_file_system.Base.{
  ℕ, zero, suc, ◌+◌, ◌≤◌, ◌≡◌, ap, ◌∙◌, fun_ext, ◌&&◌, arith, ltb, leb, if◌then◌else◌, length,
  le→leb,
}
use very_simple_file_system.Run.{ok}
use very_simple_file_system.Layout.{disk_size}
use very_simple_file_system.Disk.{
  Bytes, Disk, patch, fetch, dread, dwrite, int_bytes, int_at, get_int_at, put_int_at, zero_loop,
  reset_disk,
}
use very_simple_file_system.Disk.Bytes.{int_at-fetch}

module _ (a : ℕ) (d : Disk) where
  pub dread-ok : (len : ℕ) → a + len ≤ disk_size → dread a len d ≡ ok (fetch a len d) d
  unfolding dread
  dread-ok len h = rw (le→leb (a + len) disk_size h)

  pub dwrite-ok : (bs : Bytes) → a + length bs ≤ disk_size → dwrite a bs d ≡ ok tt (patch a bs d)
  unfolding dwrite
  dwrite-ok bs h = rw (le→leb (a + length bs) disk_size h)

  pub get_int_at-ok : a + 4 ≤ disk_size → get_int_at a d ≡ ok (int_at a d) d
  unfolding get_int_at
  get_int_at-ok h = rw (dread-ok 4 h) (ap (λ w. ok w d) (int_at-fetch a d))

  pub put_int_at-ok :
      (w : ℕ) → a + 4 ≤ disk_size → put_int_at a w d ≡ ok tt (patch a (int_bytes w) d)
  unfolding put_int_at
  put_int_at-ok w h = dwrite-ok (int_bytes w) h

zero_loop_lem :
    (n p : ℕ) (d : Disk) (a : ℕ) → zero_loop n p d a ≡ (if leb p a && ltb a (p + n) then 0 else d a)
unfolding zero_loop patch
zero_loop_lem zero p d a = ground arith
zero_loop_lem (suc n) p d a = zero_loop_lem n (p + 1) _ a ∙ ground arith

-- The whole disk is zero after `resetDisk`.
pub reset_disk_lem : (d : Disk) → reset_disk d ≡ ok tt (λ a. if ltb a disk_size then 0 else d a)
unfolding reset_disk
reset_disk_lem d = ap (ok tt) (fun_ext λ a. zero_loop_lem disk_size 0 d a ∙ ground arith)
