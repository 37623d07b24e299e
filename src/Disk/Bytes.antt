-- ===== src/Disk/Bytes.antt =====
-- What writes and reads of byte ranges do to one another.
use very_simple_file_system.Base.{
  ℕ, zero, suc, ◌+◌, ◌-◌, ◌^◌, ◌≤◌, ◌<◌, ◌≡◌, refl, ap, ap₂, sym, ◌∙◌, ◌⊎◌, [], ◌∷◌, arith, length,
  get_or,
}
use very_simple_file_system.Disk.{Bytes, Disk, patch, fetch, int_bytes, int_of, int_at}

pub length-fetch : (a len : ℕ) (d : Disk) → length (fetch a len d) ≡ len
unfolding fetch
length-fetch a zero d = refl
length-fetch a (suc len) d = ap suc (length-fetch (a + 1) len d)

pub patch_outside :
    (dest : ℕ) (bs : Bytes) (d : Disk) (a : ℕ)
    → (a < dest) ⊎ (dest + length bs ≤ a)
    → patch dest bs d a ≡ d a
unfolding patch
patch_outside dest bs d a h = ground arith

patch_inside :
    (dest : ℕ) (bs : Bytes) (d : Disk) (i : ℕ)
    → i < length bs
    → patch dest bs d (dest + i) ≡ get_or bs i 0
unfolding patch
patch_inside dest bs d i h =
    let e : dest + i - dest ≡ i = omega arith in ground (arith, ap (λ k. get_or bs k 0) e)

-- Two disks that agree on a range give the same bytes.
pub fetch_congr :
    (a len : ℕ) (d e : Disk)
    → ((i : ℕ) → i < len → d (a + i) ≡ e (a + i))
    → fetch a len d ≡ fetch a len e
unfolding fetch
fetch_congr a zero d e h = refl
fetch_congr a (suc len) d e h =
    ap₂ (λ x xs. x ∷ xs) (ground (arith, h 0))
      (fetch_congr (a + 1) len d e (λ i l. ground (arith, h (i + 1))))

pub fetch-patch_outside :
    (a len dest : ℕ) (bs : Bytes) (d : Disk)
    → (a + len ≤ dest) ⊎ (dest + length bs ≤ a)
    → fetch a len (patch dest bs d) ≡ fetch a len d
fetch-patch_outside a len dest bs d h =
    fetch_congr a len _ _ (λ i l. patch_outside dest bs d (a + i) (omega arith))

pub fetch-eq_get_or :
    (a : ℕ) (bs : Bytes) (d : Disk)
    → ((i : ℕ) → i < length bs → d (a + i) ≡ get_or bs i 0)
    → fetch a (length bs) d ≡ bs
unfolding fetch
fetch-eq_get_or a [] d h = refl
fetch-eq_get_or a (b ∷ bs) d h =
    ap₂ (λ x xs. x ∷ xs) (ground (arith, h 0))
      (fetch-eq_get_or (a + 1) bs d (λ i l. ground (arith, h (suc i))))

-- What was written is read back.
pub fetch-patch_self : (a : ℕ) (bs : Bytes) (d : Disk) → fetch a (length bs) (patch a bs d) ≡ bs
fetch-patch_self a bs d = fetch-eq_get_or a bs _ (λ i l. patch_inside a bs d i l)

pub int_of-int_bytes : (w : ℕ) → w < 2 ^ 32 → int_of (int_bytes w) ≡ w
int_of-int_bytes w h = omega arith

pub int_at-fetch : (a : ℕ) (d : Disk) → int_of (fetch a 4 d) ≡ int_at a d
unfolding fetch
int_at-fetch a d = ground arith

pub int_at-patch_self : (a w : ℕ) (d : Disk) → w < 2 ^ 32 → int_at a (patch a (int_bytes w) d) ≡ w
int_at-patch_self a w d h =
    sym (int_at-fetch a _) ∙ ap int_of (fetch-patch_self a (int_bytes w) d) ∙ int_of-int_bytes w h

pub int_at-patch_outside :
    (a dest : ℕ) (bs : Bytes) (d : Disk)
    → (a + 4 ≤ dest) ⊎ (dest + length bs ≤ a)
    → int_at a (patch dest bs d) ≡ int_at a d
int_at-patch_outside a dest bs d h =
    sym (int_at-fetch a _) ∙ ap int_of (fetch-patch_outside a 4 dest bs d h) ∙ int_at-fetch a d

int_at-lt : (a : ℕ) (d : Disk) → ((i : ℕ) → d i < 256) → int_at a d < 2 ^ 32
int_at-lt a d h = omega (arith, h a, h (a + 1), h (a + 2), h (a + 3))

pub patch_byte : (a b : ℕ) (d : Disk) → patch a (b ∷ []) d a ≡ b
unfolding patch
patch_byte a b d = let e : a - a ≡ 0 = omega arith in rw e (ground arith)
