-- ===== src/File/Sound/Change.antt =====
-- A command that changes one file keeps a disk sound, and leaves the other files alone.
use very_simple_file_system.Base.{ℕ, ◌+◌, ◌≤◌, ◌<◌, ◌≡◌, ◌≢◌, sym, subst, ◌∙◌, inl, inr, arith}
use very_simple_file_system.Layout.{inum, imap_start, data_start}
use very_simple_file_system.Disk.{Disk}
use very_simple_file_system.Inode.{Inode}
use very_simple_file_system.Inode.Codec.{IsInode, inode_at}
use very_simple_file_system.File.Blocks.{block_addr}
use very_simple_file_system.File.Stored.{IsStored, IsForeign}
use very_simple_file_system.File.Isolation.{
  IsUnused, IsSeparate, IsUntouched, unused-IsForeign, other-IsUntouched,
}
use very_simple_file_system.File.Sound.{
  IsOpenFile, Live, IsSound, IsChange, IsSameFile, IsSeparate-table, IsSound-by, imap-IsForeign,
}

module _ (d : Disk) (v : IsSound d) (i : ℕ) (live : Live i d) (d' : Disk)
    (c : IsChange i d d') where
  same_imap : (j : ℕ) → j < inum → d' (imap_start + j) ≡ d (imap_start + j)
  same_imap j h =
      c.frame (imap_start + j) (inl (omega arith))
        (imap-IsForeign (inode_at i d) d j (v.file i live).stored h)

  pub was-Live : (j : ℕ) → Live j d' → Live j d
  was-Live j (h, ne) = (h, (λ e. ne (same_imap j h ∙ e)))

  pub still-Live : (j : ℕ) → Live j d → Live j d'
  still-Live j (h, ne) = (h, (λ e. ne (sym (same_imap j h) ∙ e)))

  -- Every other file is as it was.
  pub others-IsUntouched : (j : ℕ) → Live j d → i ≢ j → IsUntouched (inode_at j d) d d'
  others-IsUntouched j l ne =
      other-IsUntouched (inode_at i d) (inode_at j d) d d' (v.file i live).stored
        (v.file j l).stored (v.apart i j live l ne) (λ a h. c.frame a (inr h)) c.marks

  pub same_inode : (j : ℕ) → Live j d → i ≢ j → inode_at j d' ≡ inode_at j d
  same_inode j l ne = c.inodes j l.0 (λ e. ne (sym e))

  pub change-IsSameFile : (j : ℕ) → Live j d → i ≢ j → IsSameFile j d d'
  change-IsSameFile j l ne = record {
    live = still-Live j l;
    inode = same_inode j l ne;
    content = others-IsUntouched j l ne;
  }

  -- A block that was in use elsewhere is not in the changed file.
  kept-IsUnused :
      (b : ℕ) → data_start ≤ b → IsForeign (inode_at i d) d b → IsUnused (inode_at i d') d' b
  kept-IsUnused b h f =
      let g = c.foreign b (inr h) f in
      record {
        outside = λ k l e. g.outside k l (omega (arith, e), omega (arith, e));
        not_indirect = λ n e. g.not_indirect n (omega (arith, e), omega (arith, e));
      }

  changed-IsSeparate : (j : ℕ) → Live j d → i ≢ j → IsSeparate (inode_at i d') (inode_at j d) d'
  changed-IsSeparate j l ne =
      let w = (v.file j l).stored in
      let s = v.apart i j live l ne in
      let own = unused-IsForeign (inode_at i d) d (v.file i live).stored in
      let y = others-IsUntouched j l ne in
      record {
        blocks_unused = λ k h.
            let b = w.file.block k h in
            rw (y.table k h) (
              kept-IsUnused (block_addr (inode_at j d) d k) b.from (
                own (block_addr (inode_at j d) d k) (block_addr (inode_at j d) d k) b (w.marked k h)
                  (s.blocks_unused k h) (omega arith, omega arith)));
        indirect_unused = λ n.
            let b = w.file.indirect n in
            kept-IsUnused (inode_at j d).addr_1 b.from (
              own (inode_at j d).addr_1 (inode_at j d).addr_1 b (w.indirect_marked n)
                (s.indirect_unused n) (omega arith, omega arith));
      }

  other-IsOpenFile : (j : ℕ) → Live j d → i ≢ j → IsOpenFile d' j
  other-IsOpenFile j l ne =
      let w = v.file j l in
      let e = sym (same_inode j l ne) in
      record {
        id_lt = w.id_lt;
        inode = subst IsInode e w.inode;
        stored = subst (λ n. IsStored n d') e (others-IsUntouched j l ne).stored;
        size_le = subst (λ (n : Inode). n.size ≤ n.capacity) e w.size_le;
      }

  others-IsSeparate :
      (j k : ℕ)
      → Live j d
      → Live k d
      → i ≢ j
      → i ≢ k
      → j ≢ k
      → IsSeparate (inode_at j d') (inode_at k d') d'
  others-IsSeparate j k lj lk nj nk ne =
      subst (λ n. IsSeparate n (inode_at k d') d') (sym (same_inode j lj nj))
        (subst (λ n. IsSeparate (inode_at j d) n d') (sym (same_inode k lk nk))
          (IsSeparate-table (inode_at j d) (inode_at k d) d d' (others-IsUntouched j lj nj).table
            (others-IsUntouched k lk nk).table (v.apart j k lj lk ne)))

  from-IsSeparate : (j : ℕ) → Live j d → i ≢ j → IsSeparate (inode_at i d') (inode_at j d') d'
  from-IsSeparate j l ne =
      subst (λ n. IsSeparate (inode_at i d') n d') (sym (same_inode j l ne))
        (changed-IsSeparate j l ne)

  pub change-IsSound : IsSound d'
  change-IsSound =
      IsSound-by i d' c.file (λ j l. other-IsOpenFile j (was-Live j l))
        (λ j l. from-IsSeparate j (was-Live j l))
        (λ j k lj lk. others-IsSeparate j k (was-Live j lj) (was-Live k lk))
