-- ===== src/File/Spec.antt =====
-- The contract of a write inside the blocks of a file: over the flat bytes of the file it is
-- one `patch`, and it changes nothing else on the disk.
use very_simple_file_system.Base.{
  ℕ, ◌+◌, ◌-◌, ◌≤◌, ◌<◌, ◌≡◌, ap, ◌∙◌, inl, inr, arith, length, take, drop, get_or, length-take,
  length-drop, get_or-take, get_or-drop, lt-cases,
}
use very_simple_file_system.Disk.{Bytes, Disk, patch}
use very_simple_file_system.Inode.{Inode}
use very_simple_file_system.File.Blocks.{block_addr, blocks, IsFile, file_bytes, InBlock}

-- The block table of the file is the same on both disks.
abbrev pub SameTable : Inode → Disk → Disk → Type 0
SameTable node d d' = (k : ℕ) → k < blocks node → block_addr node d' k ≡ block_addr node d k

abbrev pub Outside : Inode → Disk → ℕ → Type 0
Outside node d a = (k : ℕ) → k < blocks node → ¬ InBlock a (block_addr node d k)

pub record IsWritten (node : Inode) (off : ℕ) (src : Bytes) (d d' : Disk) : Type 0 where
  pub table : SameTable node d d'
  pub bytes :
      (p : ℕ) → p < node.capacity → file_bytes node d' p ≡ patch off src (file_bytes node d) p
  pub frame : (a : ℕ) → Outside node d a → d' a ≡ d a

pub IsFile-table :
    (node : Inode) (d d' : Disk) → IsFile node d → SameTable node d d' → IsFile node d'
IsFile-table node d d' v same = record {
  whole = v.whole;
  at_least = v.at_least;
  at_most = v.at_most;
  block = λ k h. rw (same k h) (v.block k h);
  apart = λ j k hj hk ne. rw (same j hj, same k hk) (v.apart j k hj hk ne);
  indirect = v.indirect;
  not_indirect = λ i k h. rw (same k h) (v.not_indirect i k h);
  has_indirect = v.has_indirect;
}

pub patch_congr :
    (off : ℕ) (src : Bytes) (f g : Disk) (p : ℕ) → f p ≡ g p → patch off src f p ≡ patch off src g p
unfolding patch
patch_congr off src f g p h = ground arith

-- Two writes one behind the other are one write.
pub patch_split :
    (off n : ℕ) (src : Bytes) (f : Disk) (p : ℕ)
    → n ≤ length src
    → patch (off + n) (drop n src) (patch off (take n src) f) p ≡ patch off src f p
unfolding patch
patch_split off n src f p h = elim (lt-cases p (off + n)) [
  | inl l ↦ ground (arith, length-take n src, length-drop n src, get_or-take n src (p - off) 0)
  | inr l ↦
      let e : n + (p - (off + n)) ≡ p - off = omega arith in
      ground (
        arith,
        length-take n src,
        length-drop n src,
        get_or-drop n src (p - (off + n)) 0,
        ap (λ k. get_or src k 0) e,
      )
]

-- A write of two parts, the second behind the first.
pub IsWritten-then :
    (node : Inode) (off n : ℕ) (src : Bytes) (d d₁ d₂ : Disk)
    → n ≤ length src
    → IsWritten node off (take n src) d d₁
    → IsWritten node (off + n) (drop n src) d₁ d₂
    → IsWritten node off src d d₂
IsWritten-then node off n src d d₁ d₂ h w₁ w₂ = record {
  table = λ k l. w₂.table k l ∙ w₁.table k l;
  bytes = λ p l.
      w₂.bytes p l
      ∙ patch_congr (off + n) (drop n src) _ _ p (w₁.bytes p l)
      ∙ patch_split off n src _ p h;
  frame = λ a o. w₂.frame a (λ k l. rw (w₁.table k l) (o k l)) ∙ w₁.frame a o;
}
