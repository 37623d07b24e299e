-- ===== src/Layout.antt =====
-- The organisation of the disk: `calcGlobalOffset`, the constants of the constructor, and the
-- functions between ids and addresses of src/fs/vsfs.cpp.
-- An `int` that may be -1 is its 32-bit pattern, so -1 is `minus_one`; sums of addresses wrap.
use very_simple_file_system.Base.{ℕ, ◌+◌, ◌-◌, ◌*◌, ◌/◌, ◌%◌, ◌^◌, ltb, if◌then◌else◌}

abbrev pub minus_one : ℕ
minus_one = 2 ^ 32 - 1

abbrev pub add32 : ℕ → ℕ → ℕ
add32 a b = (a + b) % 2 ^ 32

abbrev pub isize : ℕ
isize = 256

abbrev pub dsize : ℕ
dsize = 4 * 1024

abbrev pub disk_size : ℕ
disk_size = 100 * 1024 * 1024

-- `sizeof(int)`, which is also `sizeof(Address)`.
abbrev pub sizeof_int : ℕ
sizeof_int = 4

abbrev pub cap_0 : ℕ
cap_0 = dsize

abbrev pub cap_1 : ℕ
cap_1 = cap_0 / sizeof_int * cap_0

abbrev pub super_start : ℕ
super_start = 0 * 2 ^ 10

abbrev pub imap_start : ℕ
imap_start = 256 * 2 ^ 10

abbrev pub dmap_start : ℕ
dmap_start = 512 * 2 ^ 10

abbrev pub inode_start : ℕ
inode_start = 1 * 2 ^ 20

abbrev pub data_start : ℕ
data_start = 5 * 2 ^ 20

abbrev pub data_end : ℕ
data_end = 100 * 2 ^ 20

abbrev pub inum : ℕ
inum = (data_start - inode_start) / isize

abbrev pub dnum : ℕ
dnum = (data_end - data_start) / dsize

unfoldable pub get_inode_offset : ℕ → ℕ
get_inode_offset id = add32 inode_start (isize * id)

unfoldable pub get_data_offset : ℕ → ℕ
get_data_offset id = add32 data_start (dsize * id)

-- `x / dsize` for an `int` given by its pattern: division rounds towards 0.
abbrev pub div_dsize : ℕ → ℕ
div_dsize x = if ltb x (2 ^ 31) then x / dsize else (2 ^ 32 - (2 ^ 32 - x) / dsize) % 2 ^ 32

unfoldable pub get_data_id_by_offset : ℕ → ℕ
get_data_id_by_offset offset = div_dsize ((offset + 2 ^ 32 - data_start) % 2 ^ 32)

unfoldable pub get_block_inner_offset : ℕ → ℕ
get_block_inner_offset offset = offset % dsize
