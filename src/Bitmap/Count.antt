-- ===== src/Bitmap/Count.antt =====
-- The number of free entries of a bitmap, and what `allocBit` does to it.
use very_simple_file_system.Base.{
  ℕ, zero, suc, ◌+◌, ◌-◌, ◌≤◌, ◌<◌, ◌≡◌, ◌≢◌, refl, ◌∙◌, ap, ap₂, inl, inr, [], ◌∷◌, arith, ◌==◌,
  if◌then◌else◌,
}
use native.Mathlib.Decide.{ℕ_discrete}
use very_simple_file_system.Run.{Returns}
use very_simple_file_system.Layout.{dmap_start, dnum, imap_start, inum}
use very_simple_file_system.Disk.{Disk, patch}
use very_simple_file_system.Disk.Bytes.{patch_outside, patch_byte}
use very_simple_file_system.Bitmap.{alloc_data_block, alloc_inode_block}
use very_simple_file_system.Bitmap.Alloc.{
  Allocated, IsFirstFree, alloc_data_block-Allocated, alloc_inode_block-Allocated,
}

abbrev free_entry : ℕ → Disk → ℕ
free_entry a d = if d a == 0 then 1 else 0

-- How many of the `n` entries from `start` on are free.
unfoldable pub free_count : ℕ → ℕ → Disk → ℕ
free_count start zero d = 0
free_count start (suc n) d = free_entry start d + free_count (start + 1) n d

Taken-count :
    (n start : ℕ) (d : Disk)
    → ((a : ℕ) → start ≤ a → a < start + n → d a ≢ 0)
    → free_count start n d ≡ 0
unfolding free_count
Taken-count zero start d h = refl
Taken-count (suc n) start d h =
    let rest = Taken-count n (start + 1) d (λ a l m. h a (omega arith) (omega arith)) in
    let here : d start ≢ 0 = h start (omega arith) (omega arith) in ground arith

pub count_congr :
    (n start : ℕ) (d e : Disk)
    → ((a : ℕ) → start ≤ a → a < start + n → d a ≡ e a)
    → free_count start n d ≡ free_count start n e
unfolding free_count
count_congr zero start d e h = refl
count_congr (suc n) start d e h =
    ap₂ (λ (x y : ℕ). (if x == 0 then 1 else 0) + y) (h start (omega arith) (omega arith))
      (count_congr n (start + 1) d e (λ a l m. h a (omega arith) (omega arith)))

-- Only what is free counts.
pub count_taken :
    (n start : ℕ) (d e : Disk)
    → ((a : ℕ) → d a ≡ 0 → e a ≡ 0)
    → ((a : ℕ) → d a ≢ 0 → e a ≢ 0)
    → free_count start n e ≡ free_count start n d
unfolding free_count
count_taken zero start d e f t = refl
count_taken (suc n) start d e f t =
    ground (arith, f start, t start, count_taken n (start + 1) d e f t)

-- Taking a free entry leaves one less.
count-patch :
    (n start a : ℕ) (d : Disk)
    → start ≤ a
    → a < start + n
    → d a ≡ 0
    → free_count start n (patch a (1 ∷ []) d) + 1 ≡ free_count start n d
unfolding free_count
count-patch zero start a d l h e = absurd (omega arith)
count-patch (suc n) start a d l h e = elim (ℕ_discrete start a) [
  | yes q ↦
      let rest =
        count_congr n (start + 1) (patch a (1 ∷ []) d) d
          (λ b m _. patch_outside a (1 ∷ []) d b (omega arith)) in
      let here : d start ≡ 0 = ap d q ∙ e in
      let new : patch a (1 ∷ []) d start ≡ 1 = ap (patch a (1 ∷ []) d) q ∙ patch_byte a 1 d in
      rw (rest, here, new) (omega arith)
  | no ne ↦
      let rest = count-patch n (start + 1) a d (omega arith) (omega arith) e in
      let here : patch a (1 ∷ []) d start ≡ d start =
        patch_outside a (1 ∷ []) d start (omega arith) in
      rw here (omega (arith, rest))
]

-- The data blocks that are free.
abbrev pub free_blocks_of : Disk → ℕ
free_blocks_of d = free_count dmap_start dnum d

-- `allocDataBlock` where there is a free block.
pub record IsFresh (d : Disk) (r : ℕ) (d' : Disk) : Type 0 where
  pub below : r < dnum
  pub was_free : d (dmap_start + r) ≡ 0
  pub result : d' ≡ patch (dmap_start + r) (1 ∷ []) d
  pub fewer : free_blocks_of d' + 1 ≡ free_blocks_of d

Allocated-IsFresh :
    (d : Disk) (r : ℕ) (d' : Disk)
    → 0 < free_blocks_of d
    → Allocated dmap_start 0 dnum d r d'
    → IsFresh d r d'
Allocated-IsFresh d r d' h (inl f) = record {
  below = f.below;
  was_free = f.was_free;
  result = f.result;
  fewer =
      ap (λ e. free_blocks_of e + 1) f.result
      ∙ count-patch dnum dmap_start (dmap_start + r) d (omega arith) (omega (arith, f.below))
          f.was_free;
}
Allocated-IsFresh d r d' h (inr f) =
    let z : free_blocks_of d ≡ 0 = Taken-count dnum dmap_start d λ a l m e.
      let q : dmap_start + (a - dmap_start) ≡ a = omega arith in
      f.taken (a - dmap_start) (omega arith) (omega arith) (ap d q ∙ e) in
    absurd (omega arith)

-- With a free block `allocDataBlock` succeeds and takes it.
pub alloc_data_block-IsFresh :
    (d : Disk) → 0 < free_blocks_of d → Returns (IsFresh d) (alloc_data_block d)
alloc_data_block-IsFresh d h =
    let (r, d', run, q) = alloc_data_block-Allocated d in (r, d', run, Allocated-IsFresh d r d' h q)

-- The entries counted in a part of the map are counted in all of it.
pub free_count-prefix :
    (m n start : ℕ) (d : Disk) → m ≤ n → free_count start m d ≤ free_count start n d
unfolding free_count
free_count-prefix zero n start d h = omega arith
free_count-prefix (suc m) zero start d h = absurd (omega arith)
free_count-prefix (suc m) (suc n) start d h =
    omega (arith, free_count-prefix m n (start + 1) d (omega arith))

-- A map of zeros is all free.
pub free_count-zeros :
    (n start : ℕ) (d : Disk)
    → ((a : ℕ) → start ≤ a → a < start + n → d a ≡ 0)
    → free_count start n d ≡ n
unfolding free_count
free_count-zeros zero start d h = refl
free_count-zeros (suc n) start d h =
    rw
      (
        h start (omega arith) (omega arith),
        free_count-zeros n (start + 1) d (λ a l m. h a (omega arith) (omega arith)),
      )
      (omega arith)

-- A map with a free entry has a first one.
Allocated-IsFirstFree :
    (start n : ℕ) (d : Disk) (r : ℕ) (d' : Disk)
    → 0 < free_count start n d
    → Allocated start 0 n d r d'
    → IsFirstFree start 0 n d r d'
Allocated-IsFirstFree start n d r d' h (inl f) = f
Allocated-IsFirstFree start n d r d' h (inr f) =
    let z : free_count start n d ≡ 0 = Taken-count n start d λ a l m e.
      let q : start + (a - start) ≡ a = omega arith in
      f.taken (a - start) (omega arith) (omega arith) (ap d q ∙ e) in
    absurd (omega arith)

-- The inodes that are free.
abbrev pub free_inodes_of : Disk → ℕ
free_inodes_of d = free_count imap_start inum d

pub alloc_inode_block-IsFirstFree :
    (d : Disk)
    → 0 < free_inodes_of d
    → Returns (IsFirstFree imap_start 0 inum d) (alloc_inode_block d)
alloc_inode_block-IsFirstFree d h =
    let (r, d', run, q) = alloc_inode_block-Allocated d in
    (r, d', run, Allocated-IsFirstFree imap_start inum d r d' h q)
