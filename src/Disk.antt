-- ===== src/Disk.antt =====
-- The virtual disk of src/fs/vsfs.cpp: `dread`, `dwrite`, `getIntAt`, `putIntAt`, `resetDisk`,
-- `initSuper`. The file `vdisk` is a function from addresses to bytes.
pub mod Bytes
pub mod Access
use very_simple_file_system.Base.{
  ℕ, zero, suc, ◌+◌, ◌-◌, ◌*◌, ◌/◌, ◌%◌, ◌^◌, List, [], ◌∷◌, ◌&&◌, ltb, leb, if◌then◌else◌, length,
  get_or, codes,
}
use very_simple_file_system.Run.{Cmd, ok, fault, disk_range, pure, ◌>>=◌, ◌>>◌}
use very_simple_file_system.Layout.{disk_size, super_start, sizeof_int}

abbrev pub Bytes : Type 0
Bytes = List ℕ

abbrev pub Disk : Type 0
Disk = ℕ → ℕ

-- The disk after `source` was written at `dest`.
unfoldable pub patch : ℕ → Bytes → Disk → Disk
patch dest source d a =
    if leb dest a && ltb a (dest + length source) then get_or source (a - dest) 0 else d a

-- The `len` bytes from `a` on.
unfoldable pub fetch : ℕ → ℕ → Disk → Bytes
fetch a zero d = []
fetch a (suc len) d = d a ∷ fetch (a + 1) len d

unfoldable pub dwrite : ℕ → Bytes → Cmd Disk (Unit {0})
dwrite dest source d =
    if leb (dest + length source) disk_size then ok tt (patch dest source d) else fault disk_range

unfoldable pub dread : ℕ → ℕ → Cmd Disk Bytes
dread dest len d = if leb (dest + len) disk_size then ok (fetch dest len d) d else fault disk_range

-- The four bytes of an `int`, the lowest first.
abbrev pub int_bytes : ℕ → Bytes
int_bytes w = (w % 256) ∷ (w / 256 % 256) ∷ (w / 65536 % 256) ∷ (w / 16777216 % 256) ∷ []

abbrev pub int_of : Bytes → ℕ
int_of [] = 0
int_of (b ∷ bs) = b + 256 * int_of bs

abbrev pub int_at : ℕ → Disk → ℕ
int_at a d = int_of (d a ∷ d (a + 1) ∷ d (a + 2) ∷ d (a + 3) ∷ [])

unfoldable pub get_int_at : ℕ → Cmd Disk ℕ
get_int_at addr = do bs ← dread addr sizeof_int; pure (int_of bs)

unfoldable pub put_int_at : ℕ → ℕ → Cmd Disk (Unit {0})
put_int_at addr value = dwrite addr (int_bytes value)

-- `disk.write(&zero, 1)` in a loop, from the position `p` on.
unfoldable pub zero_loop : ℕ → ℕ → Disk → Disk
zero_loop zero p d = d
zero_loop (suc n) p d = zero_loop n (p + 1) (patch p (0 ∷ []) d)

unfoldable pub reset_disk : Cmd Disk (Unit {0})
unfolding zero_loop
reset_disk d = ok tt (zero_loop disk_size 0 d)

unfoldable pub init_super : Cmd Disk (Unit {0})
init_super = dwrite super_start (codes "Very Simple File System")
