-- ===== src/FileSystem/Content/Reading.antt =====
-- The commands that show files and directories, and those on descriptors, never change the disk.
use very_simple_file_system.Base.{
  ℕ, zero, suc, ◌+◌, ◌^◌, ◌≡◌, refl, [], ◌∷◌, ◌++◌, ◌==◌, ltb, codes, Option, none, some, List,
}
use very_simple_file_system.Run.{Run, Cmd, ok, fault, uninitialised, negative, pure, fail, ◌>>◌}
use very_simple_file_system.Run.Keeps.{
  Stays, Stays-weaken, Keeps, Keeps-then, Keeps-if, Keeps-option,
}
use very_simple_file_system.Layout.{minus_one, add32}
use very_simple_file_system.Disk.{Bytes, Disk}
use very_simple_file_system.Inode.{read_inode, Inode}
use very_simple_file_system.File.{read_file, read_fuel}
use very_simple_file_system.Table.{Table, find}
use very_simple_file_system.Path.{slash, tokens}
use very_simple_file_system.Directory.{load_dir_table, read_whole}
use very_simple_file_system.Directory.Reading.{
  Same, read_inode-Keeps, read_file-Keeps, read_whole-Keeps, load_dir_table-Keeps,
}
use very_simple_file_system.FileSystem.State.{
  FileSystem, OpenFile, Action, disk_run, on_disk, say, endl, load_cwd_table, change_cwd_to,
  find_file_in_cur_dir, cd_words, enter_root, cd,
}
use very_simple_file_system.FileSystem.Descriptor.{
  FdMap, fd_erase, fd_set_offset, fd_find, close, release_fd, seek,
}
use very_simple_file_system.FileSystem.Content.{
  print_buffer, read_descriptor, read, cat_entry, cat, type_letter, ls_entries, ls, tree_entries,
  tree_inner, tree, tell_end, reads_at_end,
}

-- The disk `d`, and descriptors with `R`, which no new position and no `close` breaks.
module _ (d : Disk) (R : ℕ → FdMap → Type 0)
    (repositioned : (n fd offset : ℕ) (m : FdMap) → R n m → R n (fd_set_offset fd offset m))
    (released : (n fd : ℕ) (m : FdMap) → R n m → R n (fd_erase fd m)) where
  abbrev pub OnDisk : FileSystem → Type 0
  OnDisk t = (t.disk ≡ d) × R t.fd_cnt t.fd_map

  disk_run-Stays :
      {A : Type 0} (s : FileSystem) (r : Run Disk A)
      → R s.fd_cnt s.fd_map
      → Stays (Same d) r
      → Stays OnDisk (disk_run s r)
  disk_run-Stays s (ok a e) m h = (h, m)
  disk_run-Stays s (fault e) m h = tt

  on_disk-Keeps : {A : Type 0} (m : Cmd Disk A) → Keeps (Same d) m → Keeps OnDisk (on_disk m)
  on_disk-Keeps m h s p = disk_run-Stays s (m s.disk) p.1 (h s.disk p.0)

  print_buffer-Keeps : (len : ℕ) (buffer : Bytes) → Keeps OnDisk (print_buffer len buffer)
  unfolding print_buffer
  print_buffer-Keeps len buffer =
      Keeps-if OnDisk _ (say _) (fail uninitialised) (λ e q. q) (λ e q. tt)

  tell_end-Keeps : (node : Inode) (off len : ℕ) → Keeps OnDisk (tell_end node off len)
  unfolding tell_end
  tell_end-Keeps node off len =
      Keeps-if OnDisk (reads_at_end (read_fuel off len) node off len) (say _) (pure tt) (λ e q. q)
        (λ e q. q)

  read_descriptor-Keeps :
      (fd size : ℕ) (o : Option OpenFile) → Keeps OnDisk (read_descriptor fd size o)
  unfolding read_descriptor
  read_descriptor-Keeps fd size none = λ e q. q
  read_descriptor-Keeps fd size (some f) =
      Keeps-then OnDisk _ _
        (Keeps-if OnDisk (ltb f.offset (2 ^ 31)) (pure tt) (fail negative) (λ e q. q) (λ e q. tt))
        (λ _.
          Keeps-then OnDisk _ _
            (Keeps-if OnDisk (ltb size (2 ^ 31)) (pure tt) (fail negative) (λ e q. q) (λ e q. tt))
            (λ _.
              Keeps-then OnDisk _ _ (on_disk-Keeps (read_inode f.i_id) (read_inode-Keeps d f.i_id))
                (λ node.
                  Keeps-then OnDisk (tell_end node f.offset size) _
                    (tell_end-Keeps node f.offset size)
                    (λ _.
                      Keeps-then OnDisk _ _
                        (on_disk-Keeps (read_file node f.offset size)
                          (read_file-Keeps d node f.offset size))
                        (λ buffer.
                          Keeps-then OnDisk (print_buffer size buffer) _
                            (print_buffer-Keeps size buffer)
                            (λ _ e q. (
                              q.0,
                              repositioned e.fd_cnt fd (add32 f.offset size) e.fd_map q.1,
                            )))))))

  pub read-Keeps : (fd size : ℕ) → Keeps OnDisk (read fd size)
  unfolding read
  read-Keeps fd size s = read_descriptor-Keeps fd size (fd_find fd s.fd_map) s

  cat_entry-Keeps : (o : Option ℕ) → Keeps OnDisk (cat_entry o)
  unfolding cat_entry
  cat_entry-Keeps none = λ e q. q
  cat_entry-Keeps (some i_id) =
      Keeps-then OnDisk _ _ (on_disk-Keeps (read_inode i_id) (read_inode-Keeps d i_id)) (λ node.
        Keeps-then OnDisk _ _
          (Keeps-if OnDisk (node.size == 0) (say _) (pure tt) (λ e q. q) (λ e q. q))
          (λ _.
            Keeps-then OnDisk (tell_end node 0 node.size) _ (tell_end-Keeps node 0 node.size) (λ _.
              Keeps-then OnDisk _ _
                (on_disk-Keeps (read_whole node 0 node.size) (read_whole-Keeps d node 0 node.size))
                (λ content e q. q))))

  pub cat-Keeps : (filename : Bytes) → Keeps OnDisk (cat filename)
  unfolding cat
  cat-Keeps filename s = cat_entry-Keeps (find filename s.cwd_table) s

  type_letter-Keeps : (type : ℕ) → Keeps OnDisk (type_letter type)
  unfolding type_letter
  type_letter-Keeps type =
      Keeps-if OnDisk (type == 0) (pure _) _ (λ e q. q)
        (Keeps-if OnDisk (type == 1) (pure _) (fail uninitialised) (λ e q. q) (λ e q. tt))

  ls_entries-Keeps : (table : Table) → Keeps OnDisk (ls_entries table)
  unfolding ls_entries
  ls_entries-Keeps [] = λ e q. q
  ls_entries-Keeps ((name, i_id) ∷ rest) =
      Keeps-then OnDisk _ _ (on_disk-Keeps (read_inode i_id) (read_inode-Keeps d i_id)) (λ node.
        Keeps-then OnDisk (type_letter node.type) _ (type_letter-Keeps node.type)
          (λ type. Keeps-then OnDisk (say _) _ (λ e q. q) (λ _. ls_entries-Keeps rest)))

  pub ls-Keeps : Keeps OnDisk ls
  unfolding ls
  ls-Keeps s =
      Keeps-then OnDisk (ls_entries s.cwd_table) _ (ls_entries-Keeps s.cwd_table) (λ _ e q. q) s

  tree_entries-Keeps :
      (inner : ℕ → Action (Unit {0})) (depth : ℕ) (table : Table)
      → ((i : ℕ) → Keeps OnDisk (inner i))
      → Keeps OnDisk (tree_entries inner depth table)
  unfolding tree_entries
  tree_entries-Keeps inner depth [] h = λ e q. q
  tree_entries-Keeps inner depth ((name, i_id) ∷ rest) h =
      Keeps-if OnDisk _ (tree_entries inner depth rest) _ (tree_entries-Keeps inner depth rest h) (
        Keeps-then OnDisk _ _ (on_disk-Keeps (read_inode i_id) (read_inode-Keeps d i_id)) (λ node.
          Keeps-then OnDisk (say _) _ (λ e q. q)
            (λ _.
              Keeps-then OnDisk _ _
                (Keeps-if OnDisk (node.type == 1) (inner i_id) (pure tt) (h i_id) (λ e q. q))
                (λ _. tree_entries-Keeps inner depth rest h))))

  tree_inner-Keeps : (fuel dir depth : ℕ) → Keeps OnDisk (tree_inner fuel dir depth)
  unfolding tree_inner
  tree_inner-Keeps zero dir depth = λ e q. tt
  tree_inner-Keeps (suc fuel) dir depth =
      Keeps-then OnDisk _ _ (on_disk-Keeps (load_dir_table dir) (load_dir_table-Keeps d dir))
        (λ table.
          tree_entries-Keeps (λ i. tree_inner fuel i (depth + 1)) depth table
            (λ i. tree_inner-Keeps fuel i (depth + 1)))

  pub tree-Keeps : (fuel : ℕ) → Keeps OnDisk (tree fuel)
  unfolding tree
  tree-Keeps fuel s = tree_inner-Keeps fuel s.cwd 0 s

  load_cwd_table-Keeps : Keeps OnDisk load_cwd_table
  unfolding load_cwd_table
  load_cwd_table-Keeps s =
      Keeps-then OnDisk _ _ (on_disk-Keeps (load_dir_table s.cwd) (load_dir_table-Keeps d s.cwd))
        (λ table e q. q) s

  change_cwd_to-Keeps : (id : ℕ) → Keeps OnDisk (change_cwd_to id)
  unfolding change_cwd_to
  change_cwd_to-Keeps id s = load_cwd_table-Keeps (record s { cwd = id })

  cd_words-Keeps : (words : List Bytes) → Keeps OnDisk (cd_words words)
  unfolding cd_words
  cd_words-Keeps [] = λ e q. q
  cd_words-Keeps (w ∷ words) = λ s.
      Keeps-if OnDisk (find_file_in_cur_dir w s == minus_one)
        (do say (codes "error: file " ++ (w ++ (codes " not found." ++ endl))); pure minus_one) _
        (λ e q. q)
        (Keeps-then OnDisk (change_cwd_to (find_file_in_cur_dir w s)) _
          (change_cwd_to-Keeps (find_file_in_cur_dir w s)) (λ _. cd_words-Keeps words))
        s

  enter_root-Keeps : (dirname : Bytes) → Keeps OnDisk (enter_root dirname)
  unfolding enter_root
  enter_root-Keeps [] = λ e q. q
  enter_root-Keeps (c ∷ dirname) = λ s.
      Keeps-if OnDisk (c == slash) (change_cwd_to s.root) (pure tt) (change_cwd_to-Keeps s.root)
        (λ e q. q) s

  pub cd-Keeps : (dirname : Bytes) → Keeps OnDisk (cd dirname)
  unfolding cd
  cd-Keeps dirname =
      Keeps-then OnDisk (enter_root dirname) _ (enter_root-Keeps dirname)
        (λ _. cd_words-Keeps (tokens dirname))

  pub seek-Keeps : (fd offset : ℕ) → Keeps OnDisk (seek fd offset)
  unfolding seek
  seek-Keeps fd offset s =
      Keeps-option OnDisk (fd_find fd s.fd_map) _ _ (λ e q. q)
        (λ f e q. (q.0, repositioned e.fd_cnt fd offset e.fd_map q.1)) s

  pub close-Keeps : (fd : ℕ) → Keeps OnDisk (close fd)
  unfolding close release_fd
  close-Keeps fd =
      Keeps-then OnDisk (release_fd fd) _
        (λ s.
          Keeps-option OnDisk (fd_find fd s.fd_map) _ _ (λ e q. q)
            (λ f e q. (q.0, released e.fd_cnt fd e.fd_map q.1)) s)
        (λ _ e q. q)

-- With no demand on the descriptors.
module _ (s : FileSystem) where
  same :
      {A : Type 0} (m : Action A)
      → Keeps (OnDisk s.disk (λ n m. Unit {0}) (λ n fd o m q. q) (λ n fd m q. q)) m
      → Stays (λ t. t.disk ≡ s.disk) (m s)
  same m h =
      Stays-weaken (OnDisk s.disk (λ n m. Unit {0}) (λ n fd o m q. q) (λ n fd m q. q))
        (λ t. t.disk ≡ s.disk) (m s) (h s (refl, tt)) (λ t q. q.0)

  -- From every state, whatever its disk holds, `read`, `cat`, `ls`, `tree` to any depth, `cd`,
  -- `seek` and `close` leave the disk as it is, where they end.
  pub keeps_disk :
      (fd size offset depth : ℕ) (path : Bytes)
      → Stays (λ t. t.disk ≡ s.disk) (read fd size s)
        × Stays (λ t. t.disk ≡ s.disk) (cat path s)
        × Stays (λ t. t.disk ≡ s.disk) (ls s)
        × Stays (λ t. t.disk ≡ s.disk) (tree depth s)
        × Stays (λ t. t.disk ≡ s.disk) (cd path s)
        × Stays (λ t. t.disk ≡ s.disk) (seek fd offset s)
        × Stays (λ t. t.disk ≡ s.disk) (close fd s)
  keeps_disk fd size offset depth path = (
    same (read fd size) (read-Keeps s.disk _ _ _ fd size),
    same (cat path) (cat-Keeps s.disk _ _ _ path),
    same ls (ls-Keeps s.disk _ _ _),
    same (tree depth) (tree-Keeps s.disk _ _ _ depth),
    same (cd path) (cd-Keeps s.disk _ _ _ path),
    same (seek fd offset) (seek-Keeps s.disk _ _ _ fd offset),
    same (close fd) (close-Keeps s.disk _ _ _ fd),
  )
