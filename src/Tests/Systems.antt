-- ===== src/Tests/Systems.antt =====
-- Whole runs: a new file system, a file on it, and what every step keeps.
use very_simple_file_system.Base.{
  ℕ, List, if◌then◌else◌, ◌+◌, ◌<◌, ◌≡◌, ◌≢◌, refl, ap, [], ◌∷◌, ◌++◌, none, some, Option, some_eq,
  sym, subst, ◌∙◌, arith, codes,
}
use very_simple_file_system.Run.{Returns, fault, out_of_fuel, ◌>>◌}
use very_simple_file_system.Run.Keeps.{Stays}
use very_simple_file_system.Layout.{minus_one, cap_1, imap_start}
use very_simple_file_system.Bitmap.Count.{free_blocks_of}
use very_simple_file_system.File.Append.{EnoughBlocks}
use very_simple_file_system.Disk.{Bytes, Disk}
use very_simple_file_system.Inode.{new_inode}
use very_simple_file_system.Inode.Codec.{inode_at}
use very_simple_file_system.File.{write_file, read_file}
use very_simple_file_system.File.Terminate.{write_file-ne-out_of_fuel, read_file-ne-out_of_fuel}
use very_simple_file_system.File.Sound.{Live}
use very_simple_file_system.File.Sound.Change.{still-Live}
use very_simple_file_system.File.Sound.Made.{made-Live, made-IsSound}
use very_simple_file_system.Directory.{load_dir_table}
use very_simple_file_system.Directory.Terminate.{load_dir_table-ne-out_of_fuel}
use very_simple_file_system.Table.{c_str, find, text_eq}
use very_simple_file_system.Path.{parse_path, slash_count, cut_at, format_relative_path}
use very_simple_file_system.FileSystem.State.{FileSystem, OpenFile, endl, cd}
use very_simple_file_system.FileSystem.Create.{mkfs}
use very_simple_file_system.FileSystem.Create.Dir.{new_entries}
use very_simple_file_system.FileSystem.Create.Mkfs.{IsFormatted, mkfs-IsFormatted}
use very_simple_file_system.FileSystem.Descriptor.{fd_find, open_file, seek, close}
use very_simple_file_system.FileSystem.Descriptor.Missing.{IsNewlyOpened}
use very_simple_file_system.FileSystem.Descriptor.Open.{CanOpen, open_file-IsNewlyOpened}
use very_simple_file_system.FileSystem.Content.{write_, read, cat, ls, tree}
use very_simple_file_system.FileSystem.Content.Reading.{keeps_disk}
use very_simple_file_system.FileSystem.SelfTest.Level1.{
  IsPlain, IsStart, fresh_file-prints, root-CanOpen, known, room,
}
use very_simple_file_system.File.Extends.{grow_cost_le}
use very_simple_file_system.FileSystem.Descriptor.Finds.{open_file-finds}
use very_simple_file_system.FileSystem.Session.{
  Op, put, go, get, Text, over, text_step, text_run, do_ops,
}
use very_simple_file_system.FileSystem.Session.Refines.{IsText, do_ops-IsText}
use very_simple_file_system.Table.Lookup.{or_else}
use very_simple_file_system.Directory.Lookup.{first_live}
use very_simple_file_system.FileSystem.Invariant.{IsSystem, CanWrite, next, stop, made}
use very_simple_file_system.FileSystem.Invariant.Reach.{reachable-IsSystem}
use very_simple_file_system.FileSystem.Invariant.Apart.{IsKept, write_-IsKept}

abbrev pub start : FileSystem
start = record {
  disk = λ a. 7;
  cwd = 0;
  root = 0;
  cwd_table = [];
  fd_cnt = minus_one;
  fd_map = [];
  now = codes "Sun Feb 28 19:37:28 2016";
  host = λ name. none;
  cout = [];
}

abbrev pub foo : Bytes
foo = codes "foo"

start-IsStart : IsStart start
start-IsStart = record { date = refl; fd_cnt = refl; fd_map = refl }

pub foo-IsPlain : IsPlain foo
foo-IsPlain = record {
  text = unfold c_str in refl;
  some_name = omega arith;
  short = omega arith;
  plain = unfold parse_path slash_count cut_at format_relative_path in refl;
  missing = unfold find text_eq in refl;
}

-- The run of `testLevel1`, on a disk that is full of other bytes.
fresh_file-prints_example :
    Returns
      (λ c e.
        e.cout
        ≡ (start.cout ++ (codes "SUCCESS, fd = 0" ++ endl)) ++ (c_str (codes "new block") ++ endl))
      ((mkfs
          >> (open_file foo (codes "w")
              >> (seek 0 5000 >> (write_ 0 (codes "new block") >> (seek 0 5000 >> read 0 9)))))
        start)
fresh_file-prints_example =
    fresh_file-prints start foo 5000 (codes "new block") start-IsStart foo-IsPlain (omega arith)
      (omega arith)

pub formatted : Returns (IsFormatted start) (mkfs start)
formatted = mkfs-IsFormatted start refl

pub root_open : CanOpen foo (new_entries 0 0) formatted.1
root_open = root-CanOpen start start-IsStart foo foo-IsPlain formatted.0 formatted.1 formatted.3

open_file-IsNewlyOpened_example :
    Returns
      (λ fd t. (fd ≡ t.fd_cnt) × ((j : ℕ) × IsNewlyOpened foo (new_entries 0 0) formatted.1 j t))
      (open_file foo (codes "w") formatted.1)
open_file-IsNewlyOpened_example =
    open_file-IsNewlyOpened foo (new_entries 0 0) formatted.1 root_open

opened :
    Returns
      (λ fd t. (fd ≡ t.fd_cnt) × ((j : ℕ) × IsNewlyOpened foo (new_entries 0 0) formatted.1 j t))
      (open_file foo (codes "w") formatted.1)
opened = open_file-IsNewlyOpened foo (new_entries 0 0) formatted.1 root_open

reachable-IsSystem_example : IsSystem opened.1
reachable-IsSystem_example =
    reachable-IsSystem start formatted.1 opened.1 formatted.0 refl refl formatted.2
      (next (made foo (new_entries 0 0) root_open opened.2) stop)

opened-IsSystem : IsSystem opened.1
opened-IsSystem =
    reachable-IsSystem start formatted.1 opened.1 formatted.0 refl refl formatted.2
      (next (made foo (new_entries 0 0) root_open opened.2) stop)

abbrev new_file : IsNewlyOpened foo (new_entries 0 0) formatted.1 opened.3.1.0 opened.1
new_file = opened.3.1.1

at_zero : fd_find 0 opened.1.fd_map ≡ some (record { i_id = opened.3.1.0; offset = 0 })
at_zero =
    known start start-IsStart foo foo-IsPlain formatted.0 formatted.1 formatted.3 opened.3.1.0
      opened.1 new_file 0 (codes "text") (omega arith) (omega arith)

room_left : 10000 < free_blocks_of opened.1.disk
room_left =
    room start start-IsStart foo foo-IsPlain formatted.0 formatted.1 formatted.3 opened.3.1.0
      opened.1 new_file 0 (codes "text") (omega arith) (omega arith)

-- What `fd_find` gives for 0 is this one.
only_one :
    (i : ℕ) (d : Disk) (f : OpenFile) (m : Option OpenFile)
    → m ≡ some (record { i_id = i; offset = 0 })
    → m ≡ some f
    → 10000 < free_blocks_of d
    → (f.offset + 4 < cap_1) × EnoughBlocks (inode_at f.i_id d) (f.offset + 4) d
only_one i d f m h k l =
    let e : record { i_id = i; offset = 0 } ≡ f = some_eq _ _ (sym h ∙ k) in
    let z : f.offset ≡ 0 = sym (ap (λ (g : OpenFile). g.offset) e) in
    (omega (arith, z), omega (arith, z, l, grow_cost_le (inode_at f.i_id d)))

can_write : CanWrite 0 (codes "text") opened.1
can_write f h =
    only_one opened.3.1.0 opened.1.disk f (fd_find 0 opened.1.fd_map) at_zero h room_left

-- The root directory is another file than the one that was made.
root_other : opened.3.1.0 ≢ 0
root_other e =
    formatted.3.live.1
      (ap (λ k. formatted.1.disk (imap_start + k)) (sym e) ∙ new_file.made.was_free)

root-Live : Live 0 opened.1.disk
root-Live =
    let v = formatted.3.sound in
    let m = new_file.made in
    let middle = made-IsSound formatted.1.disk v opened.3.1.0 new_file.middle m in
    let root = made-Live formatted.1.disk v opened.3.1.0 new_file.middle m 0 formatted.3.live in
    still-Live new_file.middle middle formatted.1.cwd
      (subst (λ k. Live k new_file.middle) (sym formatted.3.cwd) root) opened.1.disk
      new_file.entered 0 root

write_-IsKept_example : Returns (λ r t. IsKept 0 opened.1 t) (write_ 0 (codes "text") opened.1)
write_-IsKept_example =
    write_-IsKept opened.1 0 (record { i_id = opened.3.1.0; offset = 0 }) (codes "text") 0
      opened-IsSystem at_zero can_write root-Live root_other

write_file-ne-out_of_fuel_example :
    write_file new_inode 5000 (codes "text") (λ a. 255) ≢ fault out_of_fuel
write_file-ne-out_of_fuel_example =
    write_file-ne-out_of_fuel new_inode 5000 (codes "text") (λ a. 255)
      (unfold new_inode in omega arith)

read_file-ne-out_of_fuel_example : read_file new_inode 0 1000000 (λ a. 255) ≢ fault out_of_fuel
read_file-ne-out_of_fuel_example = read_file-ne-out_of_fuel new_inode 0 1000000 (λ a. 255)

load_dir_table-ne-out_of_fuel_example : load_dir_table 3 (λ a. 1) ≢ fault out_of_fuel
load_dir_table-ne-out_of_fuel_example = load_dir_table-ne-out_of_fuel 3 (λ a. 1)

keeps_disk_example :
    Stays (λ t. t.disk ≡ start.disk) (read 0 10 start)
    × Stays (λ t. t.disk ≡ start.disk) (cat foo start)
    × Stays (λ t. t.disk ≡ start.disk) (ls start)
    × Stays (λ t. t.disk ≡ start.disk) (tree 5 start)
    × Stays (λ t. t.disk ≡ start.disk) (cd foo start)
    × Stays (λ t. t.disk ≡ start.disk) (seek 0 20 start)
    × Stays (λ t. t.disk ≡ start.disk) (close 0 start)
keeps_disk_example = keeps_disk start 0 10 20 5 foo

-- A text is written, the descriptor is set to its second byte, and three bytes are read.
abbrev script : List Op
script = put (codes "hello") ∷ go 1 ∷ get 3 ∷ []

abbrev before : Text
before = record { content = []; position = 0; shown = opened.1.cout }

abbrev after : Text
after = record {
  content = codes "hello";
  position = 4;
  shown = opened.1.cout ++ (codes "ell" ++ endl);
}

script_run : text_run 5000 script before ≡ some after
unfolding text_run text_step over c_str
script_run = refl

opened-IsText : IsText 5000 0 opened.3.1.0 before opened.1
opened-IsText = record {
  known = at_zero;
  file = new_file.file;
  size = new_file.empty;
  bytes = λ p h. absurd (omega arith);
  room = omega (arith, room_left, grow_cost_le (inode_at opened.3.1.0 opened.1.disk));
  cout = refl;
}

do_ops-IsText_example :
    Returns (λ r t. IsText 5000 0 opened.3.1.0 after t) (do_ops 0 script opened.1)
do_ops-IsText_example =
    do_ops-IsText 5000 0 opened.3.1.0 script before after opened.1 (omega arith) opened-IsText
      script_run

open_file-finds_example :
    Returns
      (λ fd t.
        (i : ℕ) × (fd_find fd t.fd_map ≡ some (record { i_id = i; offset = 0 }))
        × (find (codes "..") t.cwd_table
            ≡ or_else
                (first_live (codes "..") (new_entries 0 0))
                (if text_eq (codes "..") foo then some i else none)))
      (open_file foo (codes "w") formatted.1)
open_file-finds_example = open_file-finds foo (codes "..") (new_entries 0 0) formatted.1 root_open
