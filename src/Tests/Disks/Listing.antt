-- ===== src/Tests/Disks/Listing.antt =====
-- A directory with a deleted entry.
use very_simple_file_system.FileSystem.State.{FileSystem, load_cwd_table}
use very_simple_file_system.FileSystem.Create.{new_file_system}
use very_simple_file_system.Remote.{Machine, fs_rpc_main}
use very_simple_file_system.Remote.Descriptors.{message_only, fs_rpc_main-message_only}
use very_simple_file_system.FileSystem.Descriptor.Missing.{CanMake}
use very_simple_file_system.Base.{none, ◌≤◌, ◌≡◌, refl, ◌++◌, List, [], ◌∷◌, arith, codes, length}
use very_simple_file_system.Run.{ok, pure, Returns}
use very_simple_file_system.Layout.{minus_one, imap_start, inum, dmap_start, inode_start, dnum}
use very_simple_file_system.Disk.{Bytes, Disk, patch, fetch, int_bytes}
use very_simple_file_system.Bitmap.Count.{free_blocks_of, free_count, free_count-prefix}
use very_simple_file_system.Inode.{new_inode, encode, decode}
use very_simple_file_system.Inode.Codec.{inode_at}
use very_simple_file_system.File.Blocks.{block_addr, file_bytes}
use very_simple_file_system.File.Stored.{IsStored, new_addr, new_addr-IsBlock}
use very_simple_file_system.File.New.{one_block-IsStored}
use very_simple_file_system.Table.{c_str, find, insert}
use very_simple_file_system.Directory.{DirEntry, load_dir_table, add_entry_to_dir}
use very_simple_file_system.Directory.Entries.{entry_bytes, entries_bytes}
use very_simple_file_system.Directory.Lookup.{first_live, load_dir_table-first_live}
use very_simple_file_system.Directory.Saved.{IsSavedDirectory}
use very_simple_file_system.Directory.Counter.{IsEntryAdded}
use very_simple_file_system.Directory.Add.{
  entry_of, entry_of-IsEntry, add_entry_to_dir-IsEntryAdded,
}
use very_simple_file_system.Directory.Load.{
  live_count, table_of, IsDirectory, load_dir_table-table_of,
}

abbrev pub sample : List DirEntry
sample =
    entry_of 0 (codes ".")
    ∷ entry_of 0 (codes "..")
    ∷ entry_of minus_one (codes "old")
    ∷ entry_of 1 (codes "foo")
    ∷ []

abbrev content : Bytes
unfolding entry_bytes entries_bytes
content = int_bytes 3 ++ entries_bytes sample

unfoldable pub directory : Disk
unfolding new_inode encode patch content
directory = patch (new_addr 0) content (
    patch inode_start
      (encode (record new_inode { type = 1; size = length content; addr_0 = new_addr 0 }))
      (patch dmap_start (1 ∷ []) (patch imap_start (1 ∷ []) (λ a. 0))))

directory-IsStored : IsStored (inode_at 0 directory) directory
unfolding directory inode_at decode fetch
directory-IsStored =
    one_block-IsStored (inode_at 0 directory) directory refl refl (new_addr-IsBlock 0 (omega arith))
      (omega arith)

pub directory-IsDirectory : IsDirectory 0 directory sample
unfolding directory inode_at decode fetch live_count block_addr file_bytes c_str
directory-IsDirectory =
    let v = directory-IsStored in
    record {
      id_lt = omega arith;
      file = v.file;
      size_le = omega arith;
      entries = (
        entry_of-IsEntry 0 (codes ".") (omega arith) (omega arith) refl,
        (
          entry_of-IsEntry 0 (codes "..") (omega arith) (omega arith) refl,
          (
            entry_of-IsEntry minus_one (codes "old") (omega arith) (omega arith) refl,
            (entry_of-IsEntry 1 (codes "foo") (omega arith) (omega arith) refl, tt),
          ),
        ),
      );
      holds = record { end = refl; bytes = refl };
      counter = refl;
    }

-- The table of the sample, in the order of the names.
sample_table : table_of sample [] ≡ (codes ".", 0) ∷ (codes "..", 0) ∷ (codes "foo", 1) ∷ []
unfolding table_of insert
sample_table = refl

pub directory-IsSavedDirectory : IsSavedDirectory 0 directory sample
unfolding directory inode_at decode fetch
directory-IsSavedDirectory = record {
  inode = omega arith;
  stored = directory-IsStored;
  directory = directory-IsDirectory;
}

first_three : free_count dmap_start 3 directory ≡ 2
unfolding free_count directory
first_three = refl

more_free : 2 ≤ free_blocks_of directory
more_free = omega (arith, first_three, free_count-prefix 3 dnum dmap_start directory (omega arith))

add_entry_to_dir-IsEntryAdded_example :
    Returns
      (λ _ d'. IsEntryAdded 0 (entry_of 2 (codes "new")) sample directory d')
      (add_entry_to_dir 2 (codes "new") 0 directory)
add_entry_to_dir-IsEntryAdded_example =
    add_entry_to_dir-IsEntryAdded 2 (codes "new") 0 directory sample directory-IsSavedDirectory
      (entry_of-IsEntry 2 (codes "new") (omega arith) (omega arith) (unfold c_str in refl))
      (omega arith) (unfold directory inode_at decode fetch in omega arith)
      (unfold directory inode_at decode fetch in omega (arith, more_free))

unfoldable pub system : FileSystem
system = record {
  disk = directory;
  cwd = 0;
  root = 0;
  cwd_table = [];
  fd_cnt = minus_one;
  fd_map = [];
  now = codes "Sun Feb 28 19:37:28 2016";
  host = λ name. none;
  cout = [];
}

first_inodes : free_count imap_start 2 directory ≡ 1
unfolding free_count directory
first_inodes = refl

system-CanMake : CanMake (codes "new") sample system
unfolding system
system-CanMake = record {
  directory = directory-IsSavedDirectory;
  cwd_taken = unfold directory in omega arith;
  date = refl;
  inode = omega (arith, first_inodes, free_count-prefix 2 inum imap_start directory (omega arith));
  text = unfold c_str in refl;
  small = unfold directory inode_at decode fetch in omega arith;
  blocks_left = unfold directory inode_at decode fetch in omega (arith, more_free);
  free_block = omega (arith, more_free);
  opened = tt;
  counter = omega arith;
}

-- A deleted entry is not found.
load_dir_table-first_live_example :
    Returns
      (λ t e. (find (codes "foo") t ≡ first_live (codes "foo") sample) × (e ≡ directory))
      (load_dir_table 0 directory)
load_dir_table-first_live_example =
    load_dir_table-first_live 0 directory sample (codes "foo") directory-IsDirectory
      (unfold live_count in omega arith)

unfoldable pub machine : Machine
machine = record {
  vdisk = directory;
  host = λ name. none;
  now = codes "Sun Feb 28 19:37:28 2016";
  shown = [];
}

-- The system that each process makes on this machine.
unfoldable pub made_there : FileSystem
unfolding machine
made_there = record {
  disk = machine.vdisk;
  cwd = 0;
  root = 0;
  cwd_table = table_of sample [];
  fd_cnt = minus_one;
  fd_map = [];
  now = machine.now;
  host = machine.host;
  cout = [];
}

made_run : new_file_system machine.vdisk machine.now machine.host ≡ ok tt made_there
unfolding machine made_there new_file_system load_cwd_table
made_run =
    rw
      (load_dir_table-table_of 0 directory sample directory-IsDirectory
        (unfold live_count in omega arith))
      refl

fs_rpc_main-message_only_example :
    (fs_rpc_main (λ op. pure tt) [] 5 (codes "read " ++ codes "0 10") machine
      ≡ ok tt (message_only machine))
    × (fs_rpc_main (λ op. pure tt) [] 5 (codes "seek " ++ codes "0 10") machine
        ≡ ok tt (message_only machine))
    × (fs_rpc_main (λ op. pure tt) [] 5 (codes "close " ++ codes "0 10") machine
        ≡ ok tt (message_only machine))
fs_rpc_main-message_only_example =
    fs_rpc_main-message_only (λ op. pure tt) [] 5 machine made_there (codes "0 10") made_run
