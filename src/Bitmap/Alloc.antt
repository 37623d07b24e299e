-- ===== src/Bitmap/Alloc.antt =====
-- `allocBit` takes the first free entry, or reports that there is none.
use very_simple_file_system.Base.{
  ℕ, zero, suc, ◌+◌, ◌*◌, ◌≤◌, ◌<◌, ◌≡◌, ◌≢◌, refl, ◌∙◌, subst, ◌⊎◌, inl, inr, [], ◌∷◌, arith, ◌==◌,
  Bool-cases,
}
use very_simple_file_system.Run.{Returns, ok}
use very_simple_file_system.Layout.{minus_one, disk_size, dmap_start, imap_start, inum, dnum}
use very_simple_file_system.Disk.{Disk, dread, patch, fetch}
use very_simple_file_system.Disk.Access.{dread-ok, dwrite-ok}
use very_simple_file_system.Bitmap.{alloc_loop, alloc_bit, alloc_data_block, alloc_inode_block}

-- No entry from `i` up to `n` is free.
abbrev pub Taken : ℕ → ℕ → ℕ → Disk → Type 0
Taken start i n d = (j : ℕ) → i ≤ j → j < n → d (start + j) ≢ 0

-- `r` is the first free entry of the range, and it is now taken.
pub record IsFirstFree (start i n : ℕ) (d : Disk) (r : ℕ) (d' : Disk) : Type 0 where
  pub above : i ≤ r
  pub below : r < n
  pub was_free : d (start + r) ≡ 0
  pub first : Taken start i r d
  pub result : d' ≡ patch (start + r) (1 ∷ []) d

-- There is no free entry: the result is -1 and nothing is written.
pub record IsFull (start i n : ℕ) (d : Disk) (r : ℕ) (d' : Disk) : Type 0 where
  pub taken : Taken start i n d
  pub result : r ≡ minus_one
  pub same : d' ≡ d

abbrev pub Allocated : ℕ → ℕ → ℕ → Disk → ℕ → Disk → Type 0
Allocated start i n d r d' = IsFirstFree start i n d r d' ⊎ IsFull start i n d r d'

Allocated-next :
    (start i n : ℕ) (d : Disk) (r : ℕ) (d' : Disk)
    → d (start + i) ≢ 0
    → Allocated start (i + 1) n d r d'
    → Allocated start i n d r d'
Allocated-next start i n d r d' h (inl f) = inl (record {
  above = omega (arith, f.above);
  below = f.below;
  was_free = f.was_free;
  first = λ j l m e. ground (arith, h, f.first j);
  result = f.result;
})
Allocated-next start i n d r d' h (inr f) =
    inr
      (record { taken = λ j l m e. ground (arith, h, f.taken j); result = f.result; same = f.same })

alloc_loop-Allocated :
    (n start i : ℕ) (d : Disk)
    → start + (i + n) ≤ disk_size
    → Returns (Allocated start i (i + n) d) (alloc_loop n start i d)
unfolding alloc_loop
alloc_loop-Allocated zero start i d h = (
  minus_one,
  d,
  refl,
  inr (record { taken = λ j l m. absurd (omega arith); result = refl; same = refl }),
)
alloc_loop-Allocated (suc n) start i d h =
    let read : dread (start + i) 1 d ≡ ok (d (start + i) ∷ []) d =
      dread-ok (start + i) d 1 (omega arith) ∙ unfold fetch in refl in
    rw read (elim (Bool-cases (d (start + i) + 256 * 0 == 0)) [
      | inl e ↦
          rw (e, dwrite-ok (start + i) d (1 ∷ []) (omega arith))
            (
              i,
              patch (start + i) (1 ∷ []) d,
              refl,
              inl (record {
                above = omega arith;
                below = omega arith;
                was_free = ground arith;
                first = λ j l m. absurd (omega arith);
                result = refl;
              }),
            )
      | inr e ↦
          let (r, d', run, q) = alloc_loop-Allocated n start (i + 1) d (omega arith) in
          rw e (
            r,
            d',
            run,
            Allocated-next start i (i + suc n) d r d' (ground arith)
                (subst (λ k. Allocated start (i + 1) k d r d') (omega arith) q),
          )
    ])

-- Where the map lies on the disk, `allocBit` ends. Either it returns the first free id and marks
-- just this one, or all ids were taken, it returns -1 and changes nothing.
pub alloc_bit-Allocated :
    (start len : ℕ) (d : Disk)
    → start + len ≤ disk_size
    → Returns (Allocated start 0 len d) (alloc_bit start len d)
unfolding alloc_bit
alloc_bit-Allocated start len d h =
    let (r, d', run, q) = alloc_loop-Allocated len start 0 d (omega arith) in
    (r, d', run, subst (λ k. Allocated start 0 k d r d') (omega arith) q)

pub alloc_data_block-Allocated :
    (d : Disk) → Returns (Allocated dmap_start 0 dnum d) (alloc_data_block d)
unfolding alloc_data_block
alloc_data_block-Allocated d = alloc_bit-Allocated dmap_start dnum d (omega arith)

pub alloc_inode_block-Allocated :
    (d : Disk) → Returns (Allocated imap_start 0 inum d) (alloc_inode_block d)
unfolding alloc_inode_block
alloc_inode_block-Allocated d = alloc_bit-Allocated imap_start inum d (omega arith)
