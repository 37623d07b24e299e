-- ===== src/Inode.antt =====
-- Inodes: `class Inode` of src/fs/vsfs.hpp, its constructor, its two stream operators, `readInode`
-- and `writeInode` of src/fs/vsfs.cpp.
-- The operators copy the object's memory. Its layout is that of x86-64: five ints, 25 bytes of
-- date, 3 of padding, four ints and three pointers, 88 bytes. The padding and the pointers are
-- never set or read by the program; a new inode has zeros there.
pub mod Codec
use very_simple_file_system.Base.{ℕ, ◌+◌, ◌++◌, [], ◌∷◌, length, take, drop, replicate, codes}
use very_simple_file_system.Run.{Cmd, pure, ◌>>=◌, ◌>>◌}
use very_simple_file_system.Layout.{minus_one, dsize, get_inode_offset}
use very_simple_file_system.Disk.{Bytes, Disk, dread, dwrite, int_bytes, int_of}

pub record Inode : Type 0 where
  pub type : ℕ
  pub size : ℕ
  pub capacity : ℕ
  pub addr_0 : ℕ
  pub addr_1 : ℕ
  pub date : Bytes
  pub padding : Bytes
  pub addr_2 : ℕ
  pub mode : ℕ
  pub uid : ℕ
  pub gid : ℕ
  pub times : Bytes

-- `strcpy(dest, src)` for a `src` that holds no NUL.
abbrev pub strcpy : Bytes → Bytes → Bytes
strcpy dest src = src ++ (0 ∷ drop (length src + 1) dest)

unfoldable pub new_inode : Inode
new_inode = record {
  type = 0;
  size = 0;
  capacity = dsize;
  addr_0 = minus_one;
  addr_1 = minus_one;
  date = strcpy (replicate 25 0) (codes "date unknown");
  padding = replicate 3 0;
  addr_2 = minus_one;
  mode = 664;
  uid = 0;
  gid = 0;
  times = replicate 24 0;
}

-- `sizeof(Inode)`
abbrev pub sizeof_inode : ℕ
sizeof_inode = 88

unfoldable pub encode : Inode → Bytes
encode n =
    int_bytes n.type
    ++ (int_bytes n.size
        ++ (int_bytes n.capacity
            ++ (int_bytes n.addr_0
                ++ (int_bytes n.addr_1
                    ++ (n.date
                        ++ (n.padding
                            ++ (int_bytes n.addr_2
                                ++ (int_bytes n.mode
                                    ++ (int_bytes n.uid ++ (int_bytes n.gid ++ n.times))))))))))

abbrev int_in : ℕ → Bytes → ℕ
int_in k bs = int_of (take 4 (drop k bs))

unfoldable pub decode : Bytes → Inode
decode bs = record {
  type = int_in 0 bs;
  size = int_in 4 bs;
  capacity = int_in 8 bs;
  addr_0 = int_in 12 bs;
  addr_1 = int_in 16 bs;
  date = take 25 (drop 20 bs);
  padding = take 3 (drop 45 bs);
  addr_2 = int_in 48 bs;
  mode = int_in 52 bs;
  uid = int_in 56 bs;
  gid = int_in 60 bs;
  times = take 24 (drop 64 bs);
}

unfoldable pub write_inode : ℕ → Inode → Cmd Disk (Unit {0})
write_inode i_id newnode = dwrite (get_inode_offset i_id) (encode newnode)

unfoldable pub read_inode : ℕ → Cmd Disk Inode
read_inode i_id = do node ← dread (get_inode_offset i_id) sizeof_inode; pure (decode node)
