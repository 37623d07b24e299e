-- ===== src/File/Sound/Made.antt =====
-- A new file on a sound disk.
use very_simple_file_system.Base.{ℕ, ◌+◌, ◌≤◌, ◌<◌, ◌≡◌, ◌≢◌, ap, sym, subst, ◌∙◌}
use very_simple_file_system.Layout.{minus_one, dsize, inum, imap_start}
use very_simple_file_system.Disk.{Disk}
use very_simple_file_system.Inode.{Inode}
use very_simple_file_system.Inode.Codec.{IsInode, inode_at}
use very_simple_file_system.File.Blocks.{block_addr}
use very_simple_file_system.File.Spec.{SameTable}
use very_simple_file_system.File.Stored.{
  IsStored, KeepsMarks, SameData, mark, IsStored-data, table_data,
}
use very_simple_file_system.File.New.{only_block}
use very_simple_file_system.File.Isolation.{IsUnused, IsSeparate, data-IsUntouched}
use very_simple_file_system.File.Sound.{
  IsOpenFile, Live, IsSound, IsSameFile, IsSeparate-table, IsSound-by,
}

-- A new file on a disk: it has an inode and one block that were free.
pub record IsMade (i : ℕ) (d d' : Disk) : Type 0 where
  pub file : IsOpenFile d' i
  pub taken : d' (imap_start + i) ≢ 0
  pub was_free : d (imap_start + i) ≡ 0
  pub block_free : d (mark (inode_at i d').addr_0) ≡ 0
  pub one_block : (inode_at i d').capacity ≡ dsize
  pub regular : (inode_at i d').type ≡ 0
  pub no_index : (inode_at i d').addr_1 ≡ minus_one
  pub imap : (j : ℕ) → j < inum → j ≢ i → d' (imap_start + j) ≡ d (imap_start + j)
  pub inodes : (j : ℕ) → j < inum → j ≢ i → inode_at j d' ≡ inode_at j d
  pub same_data : SameData d d'
  pub marks : KeepsMarks d d'

module _ (d : Disk) (v : IsSound d) (i : ℕ) (d' : Disk) (c : IsMade i d d') where
  pub older : (j : ℕ) → Live j d' → i ≢ j → Live j d
  older j (h, ne) n = (h, (λ e. ne (c.imap j h (λ q. n (sym q)) ∙ e)))

  pub made-Live : (j : ℕ) → Live j d → Live j d'
  made-Live j (h, ne) =
      (h, (λ e. ne (sym (c.imap j h (λ q. ne (ap (λ k. d (imap_start + k)) q ∙ c.was_free))) ∙ e)))

  same_old : (j : ℕ) → Live j d → i ≢ j → inode_at j d ≡ inode_at j d'
  same_old j l ne = sym (c.inodes j l.0 (λ e. ne (sym e)))

  old_table : (j : ℕ) → Live j d → SameTable (inode_at j d) d d'
  old_table j l = table_data (inode_at j d) d d' (v.file j l).stored.file c.same_data

  pub made-IsSameFile : (j : ℕ) → Live j d → i ≢ j → IsSameFile j d d'
  made-IsSameFile j l ne =
      let w = (v.file j l).stored in
      record {
        live = made-Live j l;
        inode = sym (same_old j l ne);
        content = data-IsUntouched (inode_at j d) d d' w c.same_data c.marks;
      }

  -- The new file is none of those that were there.
  pub made-ne : (j : ℕ) → Live j d → j ≢ i
  made-ne j (h, ne) e = ne (ap (λ k. d (imap_start + k)) e ∙ c.was_free)

  old-IsOpenFile : (j : ℕ) → Live j d → i ≢ j → IsOpenFile d' j
  old-IsOpenFile j l ne =
      let w = v.file j l in
      let e = same_old j l ne in
      record {
        id_lt = w.id_lt;
        inode = subst IsInode e w.inode;
        stored =
            subst (λ n. IsStored n d') e
              (IsStored-data (inode_at j d) d d' w.stored c.same_data c.marks);
        size_le = subst (λ (n : Inode). n.size ≤ n.capacity) e w.size_le;
      }

  olds-IsSeparate :
      (j k : ℕ)
      → Live j d
      → Live k d
      → i ≢ j
      → i ≢ k
      → j ≢ k
      → IsSeparate (inode_at j d') (inode_at k d') d'
  olds-IsSeparate j k lj lk nj nk ne =
      subst (λ n. IsSeparate n (inode_at k d') d') (same_old j lj nj)
        (subst (λ n. IsSeparate (inode_at j d) n d') (same_old k lk nk)
          (IsSeparate-table (inode_at j d) (inode_at k d) d d' (old_table j lj) (old_table k lk)
            (v.apart j k lj lk ne)))

  -- A block that was taken is not the one of the new file.
  taken-IsUnused : (b : ℕ) → d (mark b) ≢ 0 → IsUnused (inode_at i d') d' b
  taken-IsUnused b m = record {
    outside =
        only_block (inode_at i d') d' c.one_block (λ a. b ≢ a)
          (λ e. m (ap (λ a. d (mark a)) e ∙ c.block_free));
    not_indirect = λ n e. n c.no_index;
  }

  new-IsSeparate : (j : ℕ) → Live j d → i ≢ j → IsSeparate (inode_at i d') (inode_at j d') d'
  new-IsSeparate j l ne =
      let w = (v.file j l).stored in
      subst (λ n. IsSeparate (inode_at i d') n d') (same_old j l ne)
        (record {
          blocks_unused = λ k h.
              rw (old_table j l k h)
                (taken-IsUnused (block_addr (inode_at j d) d k) (w.marked k h));
          indirect_unused = λ n. taken-IsUnused (inode_at j d).addr_1 (w.indirect_marked n);
        })

  pub made-IsSound : IsSound d'
  made-IsSound =
      IsSound-by i d' c.file (λ j l n. old-IsOpenFile j (older j l n) n)
        (λ j l n. new-IsSeparate j (older j l n) n)
        (λ j k lj lk nj nk. olds-IsSeparate j k (older j lj nj) (older k lk nk) nj nk)
