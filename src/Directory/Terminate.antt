-- ===== src/Directory/Terminate.antt =====
-- The loops of `loadDirTable` end on every disk: an entry that was read moves the offset on, and
-- behind the size of the directory nothing is read.
use very_simple_file_system.Base.{
  ℕ, zero, suc, ◌+◌, ◌^◌, ◌≤◌, ◌<◌, ◌≡◌, ◌≢◌, ◌||◌, ◌==◌, ltb, leb, length, arith, [],
}
use very_simple_file_system.Run.{fault, out_of_fuel, uninitialised, negative, pure, fail}
use very_simple_file_system.Run.Ends.{Ends, Ends-ne, Ends-then, Ends-if}
use very_simple_file_system.Layout.{minus_one, sizeof_int, get_inode_offset}
use very_simple_file_system.Disk.{Bytes, Disk, int_of, get_int_at, dread}
use very_simple_file_system.Inode.{Inode, decode, read_inode, sizeof_inode}
use very_simple_file_system.File.{read_file}
use very_simple_file_system.File.Terminate.{IsPart, read_file-Ends, dread-Ends, get_int_at-Ends}
use very_simple_file_system.Table.{Table, insert, c_str}
use very_simple_file_system.Directory.{
  DirEntry, get_size, read_whole, read_int, read_entry, skip_deleted, load_entries, load_dir_table,
}

read_inode-Ends : (id : ℕ) (d : Disk) → Ends (λ n e. Unit {0}) (read_inode id d)
unfolding read_inode
read_inode-Ends id d =
    Ends-then (λ bs e. length bs ≡ sizeof_inode) (λ n e. Unit {0})
      (dread (get_inode_offset id) sizeof_inode d) (λ bs. pure (decode bs))
      (dread-Ends (get_inode_offset id) sizeof_inode d) (λ bs e _. tt)

read_whole-Ends :
    (node : Inode) (off len : ℕ) (d : Disk)
    → Ends (λ bs e. 0 < len → off + len ≤ node.size) (read_whole node off len d)
unfolding read_whole
read_whole-Ends node off len d =
    let Q : Bytes → Disk → Type 0 = λ bs e. 0 < len → off + len ≤ node.size in
    Ends-then (λ _ e. Unit {0}) Q _ _
      (Ends-if (λ _ e. Unit {0}) (ltb len (2 ^ 31)) (pure tt) (fail negative) d (λ _. tt) (λ _. tt))
      (λ _ e _.
        Ends-then (λ bs e. IsPart node off len bs) Q (read_file node off len e) _
          (read_file-Ends node off len e)
          (λ bs e' r.
            Ends-if Q (length bs == len) (pure bs) (fail uninitialised) e'
              (λ full p. r.1 (ground arith) p) (λ _. tt)))

read_int-Ends :
    (node : Inode) (off : ℕ) (d : Disk) → Ends (λ w e. off + 4 ≤ node.size) (read_int node off d)
unfolding read_int
read_int-Ends node off d =
    Ends-then (λ bs e. 0 < 4 → off + 4 ≤ node.size) (λ w e. off + 4 ≤ node.size)
      (read_whole node off 4 d) (λ bs. pure (int_of bs)) (read_whole-Ends node off 4 d)
      (λ bs e h. h (omega arith))

read_entry-Ends :
    (node : Inode) (off : ℕ) (d : Disk) → Ends (λ en e. off < node.size) (read_entry node off d)
unfolding read_entry
read_entry-Ends node off d =
    let Q : DirEntry → Disk → Type 0 = λ en e. off < node.size in
    Ends-then (λ w e. off + 4 ≤ node.size) Q (read_int node off d) _ (read_int-Ends node off d)
      (λ index e h.
        Ends-then (λ w e. off + 4 + 4 ≤ node.size) Q (read_int node (off + 4) e) _
          (read_int-Ends node (off + 4) e)
          (λ nlen e' _.
            Ends-then (λ bs e. 0 < nlen → off + 4 + 4 + nlen ≤ node.size) Q
              (read_whole node (off + 4 + 4) nlen e')
              (λ name. pure (record { node_index = index; nlen = nlen; name = c_str name }))
              (read_whole-Ends node (off + 4 + 4) nlen e') (λ name e'' _. omega arith)))

skip_deleted-Ends :
    (fuel : ℕ) (node : Inode) (off : ℕ) (d : Disk)
    → 0 < fuel
    → node.size < off + fuel
    → Ends (λ r e. Unit {0}) (skip_deleted fuel node off d)
unfolding skip_deleted get_size
skip_deleted-Ends zero node off d pos h = absurd (omega arith)
skip_deleted-Ends (suc fuel) node off d pos h =
    let Q : ℕ × DirEntry → Disk → Type 0 = λ r e. Unit {0} in
    Ends-then (λ en e. off < node.size) Q (read_entry node off d) _ (read_entry-Ends node off d)
      (λ en e l.
        Ends-if Q (en.node_index == minus_one) _ _ e
          (λ _. skip_deleted-Ends fuel node (off + get_size en) e (omega arith) (omega arith))
          (λ _. tt))

load_entries-Ends :
    (n : ℕ) (node : Inode) (off : ℕ) (table : Table) (d : Disk)
    → Ends (λ t e. Unit {0}) (load_entries n node off table d)
unfolding load_entries
load_entries-Ends zero node off table d = tt
load_entries-Ends (suc n) node off table d =
    Ends-then (λ r e. Unit {0}) (λ t e. Unit {0}) (skip_deleted (node.size + 1) node off d) _
      (skip_deleted-Ends (node.size + 1) node off d (omega arith) (omega arith))
      (λ r e _. load_entries-Ends n node r.0 (insert r.1.name r.1.node_index table) e)

-- For every inode id and disk, the scan of `loadDirTable` over deleted entries does not come to
-- the end of its fuel: `loadDirTable` returns or stops at a fault of the code.
pub load_dir_table-ne-out_of_fuel : (id : ℕ) (d : Disk) → load_dir_table id d ≢ fault out_of_fuel
unfolding load_dir_table
load_dir_table-ne-out_of_fuel id d =
    let Q : Table → Disk → Type 0 = λ t e. Unit {0} in
    Ends-ne Q (load_dir_table id d) (
      Ends-then (λ n e. Unit {0}) Q (read_inode id d) _ (read_inode-Ends id d)
        (λ dir e _.
          Ends-then (λ c e. Unit {0}) Q (get_int_at dir.addr_0 e) _ (get_int_at-Ends dir.addr_0 e)
            (λ c e' _.
              Ends-if Q (c == 0 || leb (2 ^ 31) c) (fail uninitialised) _ e' (λ _. tt)
                (λ _. load_entries-Ends c dir sizeof_int [] e'))))
