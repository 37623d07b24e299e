-- ===== src/Tests/Files.antt =====
-- The mapping layer at a small file whose write crosses into a second block.
use very_simple_file_system.Base.{
  ℕ, ◌+◌, ◌-◌, ◌<◌, ◌≤◌, ◌≡◌, ◌≢◌, refl, ◌&&◌, arith, leb, ltb, if◌then◌else◌, codes, length,
}
use very_simple_file_system.Run.{Returns, ok}
use very_simple_file_system.Layout.{data_start, data_end, dmap_start, dnum, cap_1}
use very_simple_file_system.Disk.{Bytes, Disk, fetch}
use very_simple_file_system.Bitmap.Count.{free_blocks_of, free_count, free_count-prefix}
use very_simple_file_system.Inode.{Inode, new_inode}
use very_simple_file_system.File.{write_file, read_file, calc_disk_addr}
use very_simple_file_system.File.Blocks.{file_bytes}
use very_simple_file_system.File.Bounds.{calc_disk_addr-bounds}
use very_simple_file_system.File.Stored.{IsStored, new_addr, new_addr-IsBlock}
use very_simple_file_system.File.New.{one_block-IsStored, only_block}
use very_simple_file_system.File.Append.{EnoughBlocks, IsAppended, write_file-IsAppended}
use very_simple_file_system.File.Isolation.{
  IsSeparate, IsUnused, IsUntouched, write_file-IsUntouched,
}
use very_simple_file_system.File.RoundTrip.{sized, size_after, read_file-write_file}
use very_simple_file_system.File.Read.{read_stop, read_file-fetch}

-- The data blocks 0 and 1 are taken, and everything else is zero.
abbrev pub disk : Disk
disk a = if leb dmap_start a && ltb a (dmap_start + 2) then 1 else 0

abbrev file_of : ℕ → Inode
unfolding new_inode
file_of r = record new_inode { addr_0 = new_addr r; size = 5 }

unfoldable pub foo : Inode
unfolding file_of
foo = file_of 0

bar : Inode
unfolding file_of
bar = file_of 1

abbrev pub text : Bytes
text = codes "0123456789"

foo-IsStored : IsStored foo disk
unfolding foo
foo-IsStored =
    one_block-IsStored foo disk refl refl (new_addr-IsBlock 0 (omega arith)) (omega arith)

bar-IsStored : IsStored bar disk
unfolding bar
bar-IsStored =
    one_block-IsStored bar disk refl refl (new_addr-IsBlock 1 (omega arith)) (omega arith)

first_six : free_count dmap_start 6 disk ≡ 4
unfolding free_count
first_six = refl

some_free : 4 ≤ free_blocks_of disk
some_free = omega (arith, first_six, free_count-prefix 6 dnum dmap_start disk (omega arith))

foo-bar-IsSeparate : IsSeparate foo bar disk
unfolding foo bar
foo-bar-IsSeparate = record {
  blocks_unused = only_block bar disk refl (IsUnused foo disk) (record {
    outside = only_block foo disk refl (λ a. new_addr 1 ≢ a) (omega arith);
    not_indirect = λ h. absurd (h refl);
  });
  indirect_unused = λ h. absurd (h refl);
}

fits : 4090 + length text < cap_1
fits = omega arith

enough : EnoughBlocks foo (4090 + length text) disk
unfolding foo
enough = omega (arith, some_free)

write_file-IsAppended_example :
    Returns (IsAppended foo 4090 text disk) (write_file foo 4090 text disk)
write_file-IsAppended_example = write_file-IsAppended foo 4090 text disk foo-IsStored fits enough

write_file-IsUntouched_example :
    Returns (λ node' d'. IsUntouched bar disk d') (write_file foo 4090 text disk)
write_file-IsUntouched_example =
    write_file-IsUntouched foo bar 4090 text disk foo-IsStored bar-IsStored foo-bar-IsSeparate fits
      enough

read_file-write_file_example :
    Returns
      (λ node' d'.
        read_file (sized node' (size_after node' (4090 + length text))) 4090 (length text) d'
        ≡ ok text d')
      (write_file foo 4090 text disk)
read_file-write_file_example =
    read_file-write_file foo 4090 text disk foo-IsStored (unfold foo in omega arith) (omega arith)
      fits enough

-- A read of 5000 bytes from a file of 5 bytes stops at the end of the block.
read_file-fetch_example :
    read_file foo 2 5000 disk
    ≡ ok (fetch 2 (read_stop foo.size 2 5000 - 2) (file_bytes foo disk)) disk
read_file-fetch_example =
    read_file-fetch foo disk foo-IsStored.file 2 5000 (unfold foo in omega arith)
      (unfold foo in omega arith)

read_stop_past : read_stop 5 2 5000 ≡ 4096
unfolding read_stop
read_stop_past = refl

calc_disk_addr-bounds_example :
    Returns
      (λ a e.
        (data_start ≤ a) × (a < data_end) × Returns (λ b f. a ≢ b) (calc_disk_addr foo 4095 e))
      (calc_disk_addr foo 0 disk)
calc_disk_addr-bounds_example =
    calc_disk_addr-bounds foo disk foo-IsStored.file 0 4095 (unfold foo in omega arith)
      (unfold foo in omega arith) (omega arith)
