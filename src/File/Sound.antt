-- ===== src/File/Sound.antt =====
-- All files of a disk at once: every inode that is marked as taken holds a file, and no two of them
-- share a block.
pub mod Change
pub mod Made
pub mod Marked
pub mod Inside
use very_simple_file_system.Base.{
  ℕ, ◌+◌, ◌≤◌, ◌<◌, ◌≡◌, ◌≢◌, refl, ap, sym, subst, ◌∙◌, ◌⊎◌, inl, inr, arith,
}
use native.Mathlib.Decide.{ℕ_discrete}
use very_simple_file_system.Layout.{
  minus_one, dsize, inum, imap_start, dmap_start, inode_start, data_start,
}
use very_simple_file_system.Disk.{Disk}
use very_simple_file_system.Inode.{Inode}
use very_simple_file_system.Inode.Codec.{IsInode, inode_at}
use very_simple_file_system.File.Blocks.{block_addr, blocks, file_bytes}
use very_simple_file_system.File.Spec.{SameTable}
use very_simple_file_system.File.Stored.{
  IsStored, IsForeign, KeepsMarks, SameData, mark, IsStored-data, table_data,
}
use very_simple_file_system.File.New.{only_block}
use very_simple_file_system.File.Isolation.{
  IsUnused, IsSeparate, IsUntouched, unused-IsForeign, other-IsUntouched,
}

-- The inode of a file that is stored.
pub record IsOpenFile (d : Disk) (i_id : ℕ) : Type 0 where
  pub id_lt : i_id < inum
  pub inode : IsInode (inode_at i_id d)
  pub stored : IsStored (inode_at i_id d) d
  pub size_le : (inode_at i_id d).size ≤ (inode_at i_id d).capacity

-- An inode that is marked as taken.
abbrev pub Live : ℕ → Disk → Type 0
Live i d = (i < inum) × (d (imap_start + i) ≢ 0)

pub record IsSound (d : Disk) : Type 0 where
  pub file : (i : ℕ) → Live i d → IsOpenFile d i
  pub apart : (i j : ℕ) → Live i d → Live j d → i ≢ j → IsSeparate (inode_at i d) (inode_at j d) d

-- Outside the inodes.
abbrev pub NoInode : ℕ → Type 0
NoInode a = (a < inode_start) ⊎ (data_start ≤ a)

-- What a command does that changes the file `i` only.
pub record IsChange (i : ℕ) (d d' : Disk) : Type 0 where
  pub file : IsOpenFile d' i
  pub inodes : (j : ℕ) → j < inum → j ≢ i → inode_at j d' ≡ inode_at j d
  pub frame : (a : ℕ) → NoInode a → IsForeign (inode_at i d) d a → d' a ≡ d a
  pub foreign : (a : ℕ) → NoInode a → IsForeign (inode_at i d) d a → IsForeign (inode_at i d') d' a
  pub marks : KeepsMarks d d'

-- A file that is the same on both disks.
pub record IsSameFile (j : ℕ) (d d' : Disk) : Type 0 where
  pub live : Live j d'
  pub inode : inode_at j d' ≡ inode_at j d
  pub content : IsUntouched (inode_at j d) d d'

pub IsSameFile-trans :
    (j : ℕ) (d e f : Disk) → IsSameFile j d e → IsSameFile j e f → IsSameFile j d f
IsSameFile-trans j d e f x y =
    let z = subst (λ n. IsUntouched n e f) x.inode y.content in
    record {
      live = y.live;
      inode = y.inode ∙ x.inode;
      content = record {
        table = λ k h. z.table k h ∙ x.content.table k h;
        bytes = λ p h. z.bytes p h ∙ x.content.bytes p h;
        stored = z.stored;
      };
    }

-- The entries of the inode map are foreign to every file.
pub imap-IsForeign :
    (node : Inode) (d : Disk) (i : ℕ)
    → IsStored node d
    → i < inum
    → IsForeign node d (imap_start + i)
imap-IsForeign node d i v h = record {
  not_map = inl (omega arith);
  taken = λ m. absurd (omega arith);
  not_indirect = λ n j. let b = v.file.indirect n in omega (arith, b.from);
  outside = λ k m j. let b = v.file.block k m in omega (arith, b.from);
}

pub IsSeparate-sym :
    (node other : Inode) (d : Disk) → IsSeparate node other d → IsSeparate other node d
IsSeparate-sym node other d s = record {
  blocks_unused = λ k h. record {
    outside = λ j l e. (s.blocks_unused j l).outside k h (sym e);
    not_indirect = λ n e. (s.indirect_unused n).outside k h (sym e);
  };
  indirect_unused = λ n. record {
    outside = λ j l e. (s.blocks_unused j l).not_indirect n (sym e);
    not_indirect = λ m e. (s.indirect_unused m).not_indirect n (sym e);
  };
}

IsUnused-table :
    (node : Inode) (d d' : Disk) (b : ℕ)
    → SameTable node d d'
    → IsUnused node d b
    → IsUnused node d' b
IsUnused-table node d d' b t u = record {
  outside = λ k h. rw (t k h) (u.outside k h);
  not_indirect = u.not_indirect;
}

pub IsSeparate-table :
    (node other : Inode) (d d' : Disk)
    → SameTable node d d'
    → SameTable other d d'
    → IsSeparate node other d
    → IsSeparate node other d'
IsSeparate-table node other d d' t u s = record {
  blocks_unused =
      λ k h. IsUnused-table node d d' (block_addr other d' k) t (rw (u k h) (s.blocks_unused k h));
  indirect_unused = λ n. IsUnused-table node d d' other.addr_1 t (s.indirect_unused n);
}

-- A disk is sound if its file `i` is, the others are, and no two share a block.
pub IsSound-by :
    (i : ℕ) (d : Disk)
    → IsOpenFile d i
    → ((j : ℕ) → Live j d → i ≢ j → IsOpenFile d j)
    → ((j : ℕ) → Live j d → i ≢ j → IsSeparate (inode_at i d) (inode_at j d) d)
    → ((j k : ℕ)
        → Live j d
        → Live k d
        → i ≢ j
        → i ≢ k
        → j ≢ k
        → IsSeparate (inode_at j d) (inode_at k d) d)
    → IsSound d
IsSound-by i d file files first rest = record {
  file =
      λ j l. elim (ℕ_discrete i j) [ yes e ↦ subst (IsOpenFile d) e file | no ne ↦ files j l ne ];
  apart = λ j k lj lk ne. elim (ℕ_discrete i j) [
    | yes e ↦
        subst (λ m. IsSeparate (inode_at m d) (inode_at k d) d) e (first k lk (λ q. ne (sym e ∙ q)))
    | no nj ↦ elim (ℕ_discrete i k) [
      | yes e ↦
          subst (λ m. IsSeparate (inode_at j d) (inode_at m d) d) e
            (IsSeparate-sym (inode_at i d) (inode_at j d) d (first j lj nj))
      | no nk ↦ rest j k lj lk nj nk ne
    ]
  ];
}
