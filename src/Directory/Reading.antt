-- ===== src/Directory/Reading.antt =====
-- The functions that only read leave the disk as it is, whatever it holds.
use very_simple_file_system.Base.{
  ℕ, zero, suc, ◌+◌, ◌-◌, ◌^◌, ◌≡◌, [], ◌++◌, ◌==◌, ltb, leb, min, length, ◌||◌,
}
use very_simple_file_system.Run.{ok, fault, disk_range, uninitialised, negative, pure, fail}
use very_simple_file_system.Run.Keeps.{Keeps, Stays-if, Keeps-then, Keeps-if}
use very_simple_file_system.Layout.{minus_one, disk_size, cap_0, cap_1, get_inode_offset}
use very_simple_file_system.Disk.{Disk, fetch, dread, get_int_at, int_of}
use very_simple_file_system.Inode.{Inode, read_inode, decode}
use very_simple_file_system.File.{calc_disk_addr, read_data, read_file, read_fuel}
use very_simple_file_system.Table.{Table, insert}
use very_simple_file_system.Directory.{
  get_size, read_whole, read_int, read_entry, skip_deleted, load_entries, load_dir_table,
}

module _ (d : Disk) where
  -- It holds the same bytes as `d`.
  abbrev pub Same : Disk → Type 0
  Same e = e ≡ d

  dread-Keeps : (a len : ℕ) → Keeps Same (dread a len)
  unfolding dread
  dread-Keeps a len e p =
      Stays-if Same (leb (a + len) disk_size) (ok (fetch a len e) e) (fault disk_range) p tt

  get_int_at-Keeps : (a : ℕ) → Keeps Same (get_int_at a)
  unfolding get_int_at
  get_int_at-Keeps a =
      Keeps-then Same (dread a 4) (λ bs. pure (int_of bs)) (dread-Keeps a 4) (λ bs e p. p)

  pub read_inode-Keeps : (id : ℕ) → Keeps Same (read_inode id)
  unfolding read_inode
  read_inode-Keeps id =
      Keeps-then Same (dread (get_inode_offset id) 88) (λ bs. pure (decode bs))
        (dread-Keeps (get_inode_offset id) 88) (λ bs e p. p)

  calc_disk_addr-Keeps : (node : Inode) (p : ℕ) → Keeps Same (calc_disk_addr node p)
  unfolding calc_disk_addr
  calc_disk_addr-Keeps node p =
      Keeps-if Same (ltb p cap_0) (pure _) _ (λ e q. q)
        (Keeps-if Same (ltb p cap_1) _ (fail uninitialised)
          (Keeps-then Same (get_int_at _) (λ w. pure _) (get_int_at-Keeps _) (λ w e q. q))
          (λ e q. tt))

  read_data-Keeps :
      (fuel : ℕ) (node : Inode) (off len : ℕ) → Keeps Same (read_data fuel node off len)
  unfolding read_data
  read_data-Keeps zero node off len = λ e q. tt
  read_data-Keeps (suc fuel) node off len =
      Keeps-if Same (leb node.size off || leb (2 ^ 31) node.size) (pure []) _ (λ e q. q)
        (Keeps-then Same (calc_disk_addr node off) _ (calc_disk_addr-Keeps node off) (λ a.
          Keeps-if Same _ (dread a (min len (node.size - off))) _ (dread-Keeps a _) (
            Keeps-then Same (dread a _) _ (dread-Keeps a _) (λ head.
              Keeps-then Same (read_data fuel node _ _) (λ rest. pure (head ++ rest))
                (read_data-Keeps fuel node _ _) (λ rest e q. q)))))

  pub read_file-Keeps : (node : Inode) (off len : ℕ) → Keeps Same (read_file node off len)
  unfolding read_file
  read_file-Keeps node off len = read_data-Keeps (read_fuel off len) node off len

  pub read_whole-Keeps : (node : Inode) (off len : ℕ) → Keeps Same (read_whole node off len)
  unfolding read_whole
  read_whole-Keeps node off len =
      Keeps-then Same _ _
        (Keeps-if Same (ltb len (2 ^ 31)) (pure tt) (fail negative) (λ e q. q) (λ e q. tt))
        (λ _. Keeps-then Same (read_file node off len) _ (read_file-Keeps node off len) (λ bs.
          Keeps-if Same (length bs == len) (pure bs) (fail uninitialised) (λ e q. q) (λ e q. tt)))

  read_int-Keeps : (node : Inode) (off : ℕ) → Keeps Same (read_int node off)
  unfolding read_int
  read_int-Keeps node off =
      Keeps-then Same (read_whole node off 4) (λ bs. pure (int_of bs)) (read_whole-Keeps node off 4)
        (λ bs e q. q)

  read_entry-Keeps : (node : Inode) (off : ℕ) → Keeps Same (read_entry node off)
  unfolding read_entry
  read_entry-Keeps node off =
      Keeps-then Same (read_int node off) _ (read_int-Keeps node off) (λ index.
        Keeps-then Same (read_int node (off + 4)) _ (read_int-Keeps node (off + 4)) (λ nlen.
          Keeps-then Same (read_whole node (off + 4 + 4) nlen) _
            (read_whole-Keeps node (off + 4 + 4) nlen) (λ name e q. q)))

  skip_deleted-Keeps : (fuel : ℕ) (node : Inode) (off : ℕ) → Keeps Same (skip_deleted fuel node off)
  unfolding skip_deleted
  skip_deleted-Keeps zero node off = λ e q. tt
  skip_deleted-Keeps (suc fuel) node off =
      Keeps-then Same (read_entry node off) _ (read_entry-Keeps node off) (λ en.
        Keeps-if Same (en.node_index == minus_one) _ (pure (off + get_size en, en))
          (skip_deleted-Keeps fuel node (off + get_size en)) (λ e q. q))

  load_entries-Keeps :
      (n : ℕ) (node : Inode) (off : ℕ) (table : Table) → Keeps Same (load_entries n node off table)
  unfolding load_entries
  load_entries-Keeps zero node off table = λ e q. q
  load_entries-Keeps (suc n) node off table =
      Keeps-then Same (skip_deleted (node.size + 1) node off) _
        (skip_deleted-Keeps (node.size + 1) node off)
        (λ r. load_entries-Keeps n node r.0 (insert r.1.name r.1.node_index table))

  pub load_dir_table-Keeps : (id : ℕ) → Keeps Same (load_dir_table id)
  unfolding load_dir_table
  load_dir_table-Keeps id = Keeps-then Same (read_inode id) _ (read_inode-Keeps id) (λ dir.
      Keeps-then Same (get_int_at dir.addr_0) _ (get_int_at-Keeps dir.addr_0) (λ cnt.
        Keeps-if Same _ (fail uninitialised) (load_entries cnt dir 4 []) (λ e q. tt)
          (load_entries-Keeps cnt dir 4 [])))
