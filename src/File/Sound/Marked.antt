-- ===== src/File/Sound/Marked.antt =====
-- Disks that differ only in how an entry of the two maps says that it is taken.
use very_simple_file_system.Base.{
  ℕ, ◌+◌, ◌≤◌, ◌<◌, ◌≡◌, ◌≢◌, refl, ap, sym, subst, ◌∙◌, [], ◌∷◌, arith,
}
use native.Mathlib.Decide.{ℕ_discrete}
use very_simple_file_system.Layout.{inum, dnum, imap_start, dmap_start, inode_start}
use very_simple_file_system.Disk.{Disk, patch}
use very_simple_file_system.Disk.Bytes.{patch_outside, patch_byte}
use very_simple_file_system.Bitmap.Count.{free_blocks_of, free_inodes_of, count_taken}
use very_simple_file_system.Inode.{Inode}
use very_simple_file_system.Inode.Codec.{IsInode, inode_at, inode_at_congr}
use very_simple_file_system.File.Stored.{IsStored, KeepsMarks, SameData, IsStored-data, table_data}
use very_simple_file_system.File.Isolation.{IsSeparate, data-IsUntouched}
use very_simple_file_system.File.Sound.{IsOpenFile, Live, IsSound, IsSameFile, IsSeparate-table}

-- Below the inodes what was free is free and what was taken is taken; the rest is the same.
pub record IsMarked (d d' : Disk) : Type 0 where
  pub rest : (a : ℕ) → inode_start ≤ a → d' a ≡ d a
  pub free : (a : ℕ) → d a ≡ 0 → d' a ≡ 0
  pub taken : (a : ℕ) → d a ≢ 0 → d' a ≢ 0

pub IsMarked-refl : (d : Disk) → IsMarked d d
IsMarked-refl d = record { rest = λ a h. refl; free = λ a e. e; taken = λ a ne. ne }

pub IsMarked-trans : (d e f : Disk) → IsMarked d e → IsMarked e f → IsMarked d f
IsMarked-trans d e f x y = record {
  rest = λ a h. y.rest a h ∙ x.rest a h;
  free = λ a z. y.free a (x.free a z);
  taken = λ a ne. y.taken a (x.taken a ne);
}

-- An entry that is taken is marked as taken once more.
pub mark-IsMarked : (b : ℕ) (d : Disk) → b < inode_start → d b ≢ 0 → IsMarked d (patch b (1 ∷ []) d)
mark-IsMarked b d h ne =
    let other : (a : ℕ) → a ≢ b → patch b (1 ∷ []) d a ≡ d a =
      λ a n. patch_outside b (1 ∷ []) d a (omega arith) in
    record {
      rest = λ a l. other a (omega arith);
      free = λ a z. other a (λ e. ne (ap d (sym e) ∙ z)) ∙ z;
      taken = λ a m. elim (ℕ_discrete a b) [
        | yes e ↦ rw (ap (patch b (1 ∷ []) d) e ∙ patch_byte b 1 d) (omega arith)
        | no n ↦ rw (other a n) m
      ];
    }

module _ (d d' : Disk) (m : IsMarked d d') where
  pub marked-data : SameData d d'
  marked-data a h = m.rest a (omega arith)

  pub marked-marks : KeepsMarks d d'
  marked-marks a l h = m.taken a

  pub marked_inode : (j : ℕ) → j < inum → inode_at j d' ≡ inode_at j d
  marked_inode j h = inode_at_congr j d' d h (λ a l k. m.rest a l)

  -- No entry of a map becomes free.
  pub marked_counts :
      (free_blocks_of d' ≡ free_blocks_of d) × (free_inodes_of d' ≡ free_inodes_of d)
  marked_counts = (
    count_taken dnum dmap_start d d' m.free m.taken,
    count_taken inum imap_start d d' m.free m.taken,
  )

  pub marked-Live : (j : ℕ) → Live j d → Live j d'
  marked-Live j (h, ne) = (h, m.taken (imap_start + j) ne)

  pub marked-IsSameFile : (v : IsSound d) (j : ℕ) → Live j d → IsSameFile j d d'
  marked-IsSameFile v j l = record {
    live = marked-Live j l;
    inode = marked_inode j l.0;
    content = data-IsUntouched (inode_at j d) d d' (v.file j l).stored marked-data marked-marks;
  }

  pub marked_back : (j : ℕ) → Live j d' → Live j d
  marked_back j (h, ne) = (h, (λ e. ne (m.free (imap_start + j) e)))

  marked_same : (j : ℕ) → Live j d → inode_at j d ≡ inode_at j d'
  marked_same j l = sym (marked_inode j l.0)

  module _ (v : IsSound d) where
    marked-IsOpenFile : (j : ℕ) → Live j d → IsOpenFile d' j
    marked-IsOpenFile j l =
        let w = v.file j l in
        let e = marked_same j l in
        record {
          id_lt = w.id_lt;
          inode = subst IsInode e w.inode;
          stored =
              subst (λ n. IsStored n d') e
                (IsStored-data (inode_at j d) d d' w.stored marked-data marked-marks);
          size_le = subst (λ (n : Inode). n.size ≤ n.capacity) e w.size_le;
        }

    -- A sound disk stays sound.
    pub marked-IsSound : IsSound d'
    marked-IsSound = record {
      file = λ j l. marked-IsOpenFile j (marked_back j l);
      apart = λ j k lj lk ne.
          let mj = marked_back j lj in
          let mk = marked_back k lk in
          let tj = table_data (inode_at j d) d d' (v.file j mj).stored.file marked-data in
          let tk = table_data (inode_at k d) d d' (v.file k mk).stored.file marked-data in
          subst (λ n. IsSeparate n (inode_at k d') d') (marked_same j mj)
            (subst (λ n. IsSeparate (inode_at j d) n d') (marked_same k mk)
              (IsSeparate-table (inode_at j d) (inode_at k d) d d' tj tk (v.apart j k mj mk ne)));
    }
