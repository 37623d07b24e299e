-- ===== src/Tests/Disks.antt =====
-- Bitmaps, inodes, descriptors, paths and directories at concrete inputs.
pub mod Listing
use very_simple_file_system.Base.{
  ℕ, ◌+◌, ◌*◌, ◌<◌, ◌≤◌, ◌≡◌, ◌≢◌, refl, ◌&&◌, [], ◌∷◌, arith, leb, ltb, if◌then◌else◌, codes,
  length, ◌==◌, Option, some, none, replicate,
}
use very_simple_file_system.Run.{Returns, Run, ok, ◌>>=◌, ◌>>◌}
use very_simple_file_system.Layout.{minus_one, dsize, dmap_start, dnum, inum, inode_start, isize}
use very_simple_file_system.Disk.{Bytes, Disk}
use very_simple_file_system.Bitmap.{
  alloc_bit, alloc_data_block, alloc_inode_block, free_data_block, free_inode_block,
}
use very_simple_file_system.Bitmap.Alloc.{Allocated, alloc_bit-Allocated}
use very_simple_file_system.Bitmap.Free.{alloc_data_block-ne-free_data_block}
use very_simple_file_system.Inode.{Inode, new_inode, write_inode, read_inode}
use very_simple_file_system.Inode.Codec.{IsInode, inode_at, stored, read_inode-write_inode}
use very_simple_file_system.Path.{parse_path, tokens, slash_count, cut_at, format_relative_path}
use very_simple_file_system.Path.Parse.{IsLastCut, full_path, parse_path-IsLastCut}
use very_simple_file_system.FileSystem.State.{OpenFile, FileSystem}
use very_simple_file_system.FileSystem.Descriptor.{register_fd, close, seek, fd_find}
use very_simple_file_system.FileSystem.Descriptor.Laws.{
  IsOpened, IsRegistered, SameElsewhere, moved, register_fd-IsRegistered, close_lem, seek_lem,
}

blank : Disk
blank a = 0

fresh : Inode
unfolding new_inode
fresh = new_inode

fresh-IsInode : IsInode fresh
unfolding fresh
fresh-IsInode = omega arith

read_inode-write_inode_example :
    (write_inode 3 fresh >> read_inode 4) blank
    ≡ ok (if 4 == 3 then fresh else inode_at 4 blank) (stored 3 fresh blank)
read_inode-write_inode_example =
    read_inode-write_inode 3 fresh blank (omega arith) fresh-IsInode 4 (omega arith)

parse_path-IsLastCut_example :
    IsLastCut (full_path (codes "d1/d2/d3")) (parse_path (codes "d1/d2/d3"))
parse_path-IsLastCut_example = parse_path-IsLastCut (codes "d1/d2/d3")

parse_nested : parse_path (codes "d1/d2/d3") ≡ some (codes "d1/d2", codes "d3")
unfolding parse_path slash_count cut_at
parse_nested = refl

parse_plain : parse_path (codes "foo") ≡ some (codes ".", codes "foo")
unfolding parse_path slash_count cut_at format_relative_path
parse_plain = refl

words : tokens (codes "/usr//bin/") ≡ codes "usr" ∷ codes "bin" ∷ []
unfolding tokens
words = refl
