-- ===== src/Tests/Commands.antt =====
-- The commands on one open file.
use very_simple_file_system.Base.{◌+◌, ◌≡◌, refl, [], ◌∷◌, ◌++◌, arith, length, none}
use very_simple_file_system.Run.{Returns, ◌>>◌}
use very_simple_file_system.Layout.{dmap_start, dnum}
use very_simple_file_system.Disk.{Disk, patch}
use very_simple_file_system.Bitmap.Count.{free_count, free_count-prefix}
use very_simple_file_system.Inode.{encode}
use very_simple_file_system.Inode.Codec.{IsInode, inode_at, stored, inode_at-stored_self}
use very_simple_file_system.File.Stored.{IsStored, new_addr-IsBlock}
use very_simple_file_system.File.New.{one_block-IsStored}
use very_simple_file_system.File.Append.{EnoughBlocks}
use very_simple_file_system.Table.{c_str}
use very_simple_file_system.FileSystem.State.{OpenFile, FileSystem, endl}
use very_simple_file_system.FileSystem.Descriptor.{fd_find, seek}
use very_simple_file_system.FileSystem.Content.{write_, read}
use very_simple_file_system.File.Sound.{IsOpenFile}
use very_simple_file_system.FileSystem.Content.Write.{IsWriteOf, write_-IsWriteOf}
use very_simple_file_system.FileSystem.Content.Read.{read-seek-write_}
use very_simple_file_system.Tests.Files.{disk, foo, text}

foo-IsInode : IsInode foo
unfolding foo
foo-IsInode = omega arith

with_foo : Disk
with_foo = stored 0 foo disk

foo_at : inode_at 0 with_foo ≡ foo
unfolding with_foo
foo_at = inode_at-stored_self 0 foo disk (omega arith) foo-IsInode

foo-IsStored_there : IsStored foo with_foo
unfolding with_foo foo encode patch
foo-IsStored_there =
    one_block-IsStored foo with_foo refl refl (new_addr-IsBlock 0 (omega arith)) (omega arith)

abbrev opened : OpenFile
opened = record { i_id = 0; offset = 4090 }

system : FileSystem
system = record {
  disk = with_foo;
  cwd = 0;
  root = 0;
  cwd_table = [];
  fd_cnt = 1;
  fd_map = (0, opened) ∷ [];
  now = [];
  host = λ name. none;
  cout = [];
}

opened-IsOpenFile : IsOpenFile system.disk 0
unfolding system foo
opened-IsOpenFile = record {
  id_lt = omega arith;
  inode = rw foo_at foo-IsInode;
  stored = rw foo_at foo-IsStored_there;
  size_le = rw foo_at (omega arith);
}

first_six : free_count dmap_start 6 with_foo ≡ 4
unfolding free_count with_foo foo encode patch
first_six = refl

enough : EnoughBlocks (inode_at 0 with_foo) (4090 + length text) with_foo
unfolding foo
enough =
    rw foo_at (omega (arith, first_six, free_count-prefix 6 dnum dmap_start with_foo (omega arith)))

write_-IsWriteOf_example : Returns (λ r t. IsWriteOf system 0 opened text t) (write_ 0 text system)
write_-IsWriteOf_example =
    write_-IsWriteOf system 0 opened text (unfold system fd_find in refl) opened-IsOpenFile
      (omega arith) (unfold system in enough)

read-seek-write__example :
    Returns
      (λ r t. t.cout ≡ system.cout ++ (c_str text ++ endl))
      ((write_ 0 text >> (seek 0 4090 >> read 0 (length text))) system)
read-seek-write__example =
    read-seek-write_ system 0 opened text (unfold system fd_find in refl) opened-IsOpenFile
      (omega arith) (omega arith) (unfold system in enough)
