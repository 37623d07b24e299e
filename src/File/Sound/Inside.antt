-- ===== src/File/Sound/Inside.antt =====
-- Changes of one file: several in a row, and a write inside its blocks.
use very_simple_file_system.Base.{ℕ, ◌+◌, ◌≤◌, ◌<◌, ◌≡◌, sym, subst, ◌∙◌, arith, length}
use very_simple_file_system.Layout.{inum}
use very_simple_file_system.Disk.{Bytes, Disk}
use very_simple_file_system.Bitmap.Count.{free_blocks_of}
use very_simple_file_system.Inode.{Inode}
use very_simple_file_system.Inode.Codec.{IsInode, inode_at, inode_at_congr}
use very_simple_file_system.File.Spec.{IsWritten}
use very_simple_file_system.File.Stored.{IsStored, IsForeign, inode-IsForeign}
use very_simple_file_system.File.Append.{IsAppended, last-IsAppended}
use very_simple_file_system.File.Sound.{IsOpenFile, IsChange}

pub IsChange-trans : (i : ℕ) (d e f : Disk) → IsChange i d e → IsChange i e f → IsChange i d f
IsChange-trans i d e f x y = record {
  file = y.file;
  inodes = λ j h ne. y.inodes j h ne ∙ x.inodes j h ne;
  frame = λ a o h. y.frame a o (x.foreign a o h) ∙ x.frame a o h;
  foreign = λ a o h. y.foreign a o (x.foreign a o h);
  marks = λ a l h ne. y.marks a l h (x.marks a l h ne);
}

-- A write to the file `i` inside its capacity.
module _ (i : ℕ) (off : ℕ) (bs : Bytes) (d d' : Disk) (v : IsOpenFile d i)
    (w : IsWritten (inode_at i d) off bs d d') (h : off + length bs ≤ (inode_at i d).capacity) where
  abbrev inside : IsAppended (inode_at i d) off bs d (inode_at i d) d'
  inside = last-IsAppended (inode_at i d) off bs d d' v.stored w h

  pub inside_inodes : (j : ℕ) → j < inum → inode_at j d' ≡ inode_at j d
  inside_inodes j l =
      inode_at_congr j d' d l
        (λ a m k. inside.frame a (inode-IsForeign (inode_at i d) d a v.stored m k))

  pub inside_count : free_blocks_of d' ≡ free_blocks_of d
  inside_count = omega (arith, inside.budget)

  pub inside-IsChange : IsChange i d d'
  inside-IsChange =
      let e = sym (inside_inodes i v.id_lt) in
      record {
        file = record {
          id_lt = v.id_lt;
          inode = subst IsInode e v.inode;
          stored = subst (λ n. IsStored n d') e inside.stored;
          size_le = subst (λ (n : Inode). n.size ≤ n.capacity) e v.size_le;
        };
        inodes = λ j l ne. inside_inodes j l;
        frame = λ a o f. inside.frame a f;
        foreign = λ a o f. subst (λ n. IsForeign n d' a) e (inside.foreign a f);
        marks = inside.marks;
      }
