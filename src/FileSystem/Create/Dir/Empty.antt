-- ===== src/FileSystem/Create/Dir/Empty.antt =====
-- A directory with no entries, as `newDir` makes it of a new file.
use very_simple_file_system.Base.{ℕ, ◌≤◌, ◌<◌, ◌≡◌, ◌≢◌, refl, sym, subst, ◌∙◌, ◌⊎◌, [], inl, arith}
use very_simple_file_system.Run.{ok}
use very_simple_file_system.Layout.{inum, dnum, dmap_start, inode_start, data_start}
use very_simple_file_system.Disk.{Bytes, Disk, patch, fetch, int_bytes, int_at, put_int_at}
use very_simple_file_system.Disk.Access.{put_int_at-ok}
use very_simple_file_system.Disk.Bytes.{patch_outside, int_at-patch_self}
use very_simple_file_system.Bitmap.Count.{free_blocks_of, count_congr}
use very_simple_file_system.Inode.{Inode, new_inode}
use very_simple_file_system.Inode.Codec.{
  IsInode, inode_at, stored, inode_at-stored_self, inode_at-stored_ne, stored_outside,
  inode_at_congr,
}
use very_simple_file_system.File.Blocks.{block_addr, IsBlock, IsFile, InBlock, not_InBlock}
use very_simple_file_system.File.Stored.{IsStored, IsForeign, mark, mark-lt}
use very_simple_file_system.File.New.{only_block, one_block-IsStored}
use very_simple_file_system.Directory.Entries.{Holds, entries_bytes}
use very_simple_file_system.Directory.Load.{live_count}
use very_simple_file_system.Directory.Saved.{IsSavedDirectory}
use very_simple_file_system.FileSystem.State.{FileSystem}
use very_simple_file_system.FileSystem.Create.File.{empty_file, IsCreated}
use very_simple_file_system.File.Sound.{IsChange}

-- The inode of a directory with no entries.
abbrev pub empty_dir : ℕ → Bytes → Inode
empty_dir addr now = record (empty_file addr now) { type = 1; size = 4 }

-- The disk with it, and with a counter of 0.
abbrev pub made : ℕ → ℕ → Bytes → Disk → Disk
made i addr now d = patch addr (int_bytes 0) (stored i (empty_dir addr now) d)

module _ (s : FileSystem) (i addr : ℕ) (t : FileSystem) (c : IsCreated s i addr t) where
  pub empty_dir-IsInode : IsInode (empty_dir addr s.now)
  empty_dir-IsInode = record {
    type_lt = omega arith;
    size_lt = omega arith;
    capacity_lt = c.inode.capacity_lt;
    addr_0_lt = c.inode.addr_0_lt;
    addr_1_lt = c.inode.addr_1_lt;
    date_len = c.inode.date_len;
    padding_len = c.inode.padding_len;
    addr_2_lt = c.inode.addr_2_lt;
    mode_lt = c.inode.mode_lt;
    uid_lt = c.inode.uid_lt;
    gid_lt = c.inode.gid_lt;
    times_len = c.inode.times_len;
  }

  after :
      (a : ℕ)
      → (a < inode_start) ⊎ (data_start ≤ a)
      → stored i (empty_dir addr s.now) t.disk a ≡ t.disk a
  after = stored_outside i (empty_dir addr s.now) t.disk c.id_lt empty_dir-IsInode

  home : IsBlock addr
  unfolding block_addr empty_file
  home = c.file.file.block 0 (omega (arith, c.file.file.at_least))

  pub low : (a : ℕ) → a < inode_start → made i addr s.now t.disk a ≡ t.disk a
  low a h =
      patch_outside addr (int_bytes 0) (stored i (empty_dir addr s.now) t.disk) a
        (inl (omega (arith, home.from)))
      ∙ after a (inl h)

  home_mark : t.disk (mark addr) ≢ 0
  unfolding block_addr empty_file
  home_mark = c.file.marked 0 (omega (arith, c.file.file.at_least))

  pub self : inode_at i (made i addr s.now t.disk) ≡ empty_dir addr s.now
  self =
      inode_at_congr i (made i addr s.now t.disk) (stored i (empty_dir addr s.now) t.disk) c.id_lt
        (λ a l h.
          patch_outside addr (int_bytes 0) (stored i (empty_dir addr s.now) t.disk) a
            (inl (omega (arith, home.from))))
      ∙ inode_at-stored_self i (empty_dir addr s.now) t.disk c.id_lt empty_dir-IsInode

  made-IsStored : IsStored (empty_dir addr s.now) (made i addr s.now t.disk)
  unfolding empty_file new_inode
  made-IsStored =
      one_block-IsStored (empty_dir addr s.now) (made i addr s.now t.disk) refl refl home (
        rw (low (mark addr) (omega (arith, mark-lt addr home.from (omega (arith, home.to)))))
          home_mark)

  pub made-IsSavedDirectory : IsSavedDirectory i (made i addr s.now t.disk) []
  unfolding live_count entries_bytes fetch empty_file
  made-IsSavedDirectory =
      let d = made i addr s.now t.disk in
      let e : empty_dir addr s.now ≡ inode_at i d = sym self in
      record {
        inode = subst IsInode e empty_dir-IsInode;
        stored = subst (λ n. IsStored n d) e made-IsStored;
        directory = record {
          id_lt = c.id_lt;
          file = subst (λ n. IsFile n d) e made-IsStored.file;
          size_le = subst (λ (n : Inode). n.size ≤ n.capacity) e (unfold new_inode in omega arith);
          entries = tt;
          holds = subst (λ n. Holds n d 4 []) e (record { end = refl; bytes = refl });
          counter =
              subst (λ (n : Inode). int_at n.addr_0 d ≡ 0) e
                (int_at-patch_self addr 0 (stored i (empty_dir addr s.now) t.disk) (omega arith));
        };
      }

  pub made_others :
      (j : ℕ) → j < inum → j ≢ i → inode_at j (made i addr s.now t.disk) ≡ inode_at j t.disk
  made_others j h ne =
      inode_at_congr j (made i addr s.now t.disk) (stored i (empty_dir addr s.now) t.disk) h
        (λ a l k.
          patch_outside addr (int_bytes 0) (stored i (empty_dir addr s.now) t.disk) a
            (inl (omega (arith, home.from))))
      ∙ inode_at-stored_ne i (empty_dir addr s.now) t.disk c.id_lt empty_dir-IsInode j ne

  pub made_put :
      put_int_at (empty_file addr s.now).addr_0 0 (stored i (empty_dir addr s.now) t.disk)
      ≡ ok tt (made i addr s.now t.disk)
  unfolding empty_file
  made_put = put_int_at-ok addr (stored i (empty_dir addr s.now) t.disk) 0 (omega (arith, home.to))

  pub made_count : free_blocks_of (made i addr s.now t.disk) ≡ free_blocks_of t.disk
  made_count =
      count_congr dnum dmap_start (made i addr s.now t.disk) t.disk (λ a h k. low a (omega arith))

  home_apart : (a : ℕ) → IsForeign (inode_at i t.disk) t.disk a → ¬ InBlock a addr
  unfolding block_addr empty_file
  home_apart a f =
      (subst (λ n. IsForeign n t.disk a) c.node f).outside 0 (omega (arith, c.file.file.at_least))

  made-IsForeign :
      (a : ℕ)
      → IsForeign (inode_at i t.disk) t.disk a
      → IsForeign (empty_dir addr s.now) (made i addr s.now t.disk) a
  unfolding empty_file new_inode
  made-IsForeign a f = record {
    not_map = f.not_map;
    taken = λ l h. rw (low (mark a) (omega arith)) (f.taken l h);
    not_indirect = λ n. absurd (n refl);
    outside =
        only_block (empty_dir addr s.now) (made i addr s.now t.disk) refl (λ b. ¬ InBlock a b)
          (home_apart a f);
  }

  -- For the disk, the file of the new inode has changed.
  pub made-IsChange : IsChange i t.disk (made i addr s.now t.disk)
  made-IsChange = record {
    file = record {
      id_lt = c.id_lt;
      inode = made-IsSavedDirectory.inode;
      stored = made-IsSavedDirectory.stored;
      size_le = made-IsSavedDirectory.directory.size_le;
    };
    inodes = made_others;
    frame = λ a o f.
        patch_outside addr (int_bytes 0) (stored i (empty_dir addr s.now) t.disk) a
          (not_InBlock a addr 4 (omega arith) (home_apart a f))
        ∙ after a o;
    foreign = λ a _ f.
        subst (λ n. IsForeign n (made i addr s.now t.disk) a) (sym self) (made-IsForeign a f);
    marks = λ a l h ne. rw (low a (omega arith)) ne;
  }
