-- ===== src/Inode/Codec.antt =====
-- Inodes on the disk: what `writeInode` stores `readInode` reads, and other inodes stay.
use very_simple_file_system.Base.{
  ℕ, zero, suc, ◌+◌, ◌*◌, ◌^◌, ◌≤◌, ◌<◌, ◌≡◌, ◌≢◌, refl, sym, ap, ◌∙◌, ◌⊎◌, inl, inr, ◌++◌, [], ◌∷◌,
  List, arith, length, take, drop, length-append, take-append, take_all, ◌==◌, if◌then◌else◌,
  Bool-cases, ==_iff,
}
use very_simple_file_system.Run.{ok, ◌>>◌}
use very_simple_file_system.Layout.{inum, inode_start, data_start, isize, get_inode_offset}
use very_simple_file_system.Disk.{Bytes, Disk, patch, fetch, int_bytes, int_of}
use very_simple_file_system.Disk.Bytes.{
  int_of-int_bytes, fetch-patch_self, fetch-patch_outside, patch_outside, fetch_congr,
}
use very_simple_file_system.Disk.Access.{dread-ok, dwrite-ok}
use very_simple_file_system.Inode.{Inode, encode, decode, sizeof_inode, write_inode, read_inode}

-- The fields fit the C++ object.
pub record IsInode (n : Inode) : Type 0 where
  pub type_lt : n.type < 2 ^ 32
  pub size_lt : n.size < 2 ^ 32
  pub capacity_lt : n.capacity < 2 ^ 32
  pub addr_0_lt : n.addr_0 < 2 ^ 32
  pub addr_1_lt : n.addr_1 < 2 ^ 32
  pub date_len : length n.date ≡ 25
  pub padding_len : length n.padding ≡ 3
  pub addr_2_lt : n.addr_2 < 2 ^ 32
  pub mode_lt : n.mode < 2 ^ 32
  pub uid_lt : n.uid < 2 ^ 32
  pub gid_lt : n.gid < 2 ^ 32
  pub times_len : length n.times ≡ 24

take_left {ℓ} : {A : Type ℓ} (xs ys : List A) (n : ℕ) → length xs ≡ n → take n (xs ++ ys) ≡ xs
take_left xs ys n e = rw (← e) (take-append xs ys)

drop_left {ℓ} :
    {A : Type ℓ} (xs ys : List A) (n k : ℕ) → length xs ≡ n → drop (n + k) (xs ++ ys) ≡ drop k ys
drop_left [] ys n k e = ap (λ m. drop m ys) (omega arith)
drop_left (x ∷ xs) ys zero k e = absurd (omega arith)
drop_left (x ∷ xs) ys (suc n) k e =
    let s : suc n + k ≡ suc (n + k) = omega arith in rw s (drop_left xs ys n k (omega arith))

-- The parts of an encoded inode from the padding on, and from `addr_2` on.
abbrev owner_part : Inode → Bytes
owner_part n =
    int_bytes n.addr_2 ++ (int_bytes n.mode ++ (int_bytes n.uid ++ (int_bytes n.gid ++ n.times)))

abbrev padded_part : Inode → Bytes
padded_part n = n.padding ++ owner_part n

length-encode : (n : Inode) → IsInode n → length (encode n) ≡ sizeof_inode
unfolding encode
length-encode n v =
    omega (arith, length-append n.date (padded_part n), length-append n.padding (owner_part n))

module _ (n : Inode) (v : IsInode n) where
  drop-date : (k : ℕ) → drop (25 + k) (n.date ++ padded_part n) ≡ drop k (padded_part n)
  drop-date k = drop_left n.date (padded_part n) 25 k v.date_len

  drop-padding : (k : ℕ) → drop (3 + k) (padded_part n) ≡ drop k (owner_part n)
  drop-padding k = drop_left n.padding (owner_part n) 3 k v.padding_len

  drop-owner : (k : ℕ) → drop (25 + (3 + k)) (n.date ++ padded_part n) ≡ drop k (owner_part n)
  drop-owner k = drop-date (3 + k) ∙ drop-padding k

  int_owner :
      (k w : ℕ)
      → w < 2 ^ 32
      → take 4 (drop k (owner_part n)) ≡ int_bytes w
      → int_of (take 4 (drop (25 + (3 + k)) (n.date ++ padded_part n))) ≡ w
  int_owner k w h e = rw (drop-owner k, e) (int_of-int_bytes w h)

  -- Reading back the bytes of an inode gives every field of it.
  decode-encode : decode (encode n) ≡ n
  unfolding encode decode
  decode-encode i = record {
    type = int_of-int_bytes n.type v.type_lt i;
    size = int_of-int_bytes n.size v.size_lt i;
    capacity = int_of-int_bytes n.capacity v.capacity_lt i;
    addr_0 = int_of-int_bytes n.addr_0 v.addr_0_lt i;
    addr_1 = int_of-int_bytes n.addr_1 v.addr_1_lt i;
    date = take_left n.date (padded_part n) 25 v.date_len i;
    padding = (ap (take 3) (drop-date 0) ∙ take_left n.padding (owner_part n) 3 v.padding_len) i;
    addr_2 = int_owner 0 n.addr_2 v.addr_2_lt refl i;
    mode = int_owner 4 n.mode v.mode_lt refl i;
    uid = int_owner 8 n.uid v.uid_lt refl i;
    gid = int_owner 12 n.gid v.gid_lt refl i;
    times = (ap (take 24) (drop-owner 16) ∙ take_all n.times 24 (omega (arith, v.times_len))) i;
  }

get_inode_offset-eq : (id : ℕ) → id < inum → get_inode_offset id ≡ inode_start + isize * id
unfolding get_inode_offset
get_inode_offset-eq id h = omega arith

-- The inode that a disk holds under an id.
unfoldable pub inode_at : ℕ → Disk → Inode
inode_at id d = decode (fetch (inode_start + isize * id) sizeof_inode d)

pub read_inode-ok : (id : ℕ) (d : Disk) → id < inum → read_inode id d ≡ ok (inode_at id d) d
unfolding read_inode inode_at
read_inode-ok id d h =
    rw (get_inode_offset-eq id h, dread-ok (inode_start + isize * id) d sizeof_inode (omega arith))

-- A write outside the bytes of an inode leaves it as it is.
inode_at-patch_outside :
    (id dest : ℕ) (bs : Bytes) (d : Disk)
    → (inode_start + isize * id + sizeof_inode ≤ dest)
      ⊎ (dest + length bs ≤ inode_start + isize * id)
    → inode_at id (patch dest bs d) ≡ inode_at id d
unfolding inode_at
inode_at-patch_outside id dest bs d h =
    ap decode (fetch-patch_outside (inode_start + isize * id) sizeof_inode dest bs d h)

-- The disk after `writeInode`.
abbrev pub stored : ℕ → Inode → Disk → Disk
stored id n d = patch (inode_start + isize * id) (encode n) d

module _ (id : ℕ) (n : Inode) (d : Disk) (h : id < inum) (v : IsInode n) where
  pub write_inode-ok : write_inode id n d ≡ ok tt (stored id n d)
  unfolding write_inode
  write_inode-ok =
      rw (get_inode_offset-eq id h)
        (dwrite-ok (inode_start + isize * id) d (encode n) (omega (arith, length-encode n v)))

  pub inode_at-stored_self : inode_at id (stored id n d) ≡ n
  unfolding inode_at
  inode_at-stored_self =
      ap (λ k. decode (fetch (inode_start + isize * id) k (stored id n d)))
        (sym (length-encode n v))
      ∙ ap decode (fetch-patch_self (inode_start + isize * id) (encode n) d)
      ∙ decode-encode n v

  -- Only the inode region changes.
  pub stored_outside : (a : ℕ) → (a < inode_start) ⊎ (data_start ≤ a) → stored id n d a ≡ d a
  stored_outside a k =
      patch_outside (inode_start + isize * id) (encode n) d a (omega (arith, length-encode n v))

  pub inode_at-stored_ne : (j : ℕ) → j ≢ id → inode_at j (stored id n d) ≡ inode_at j d
  inode_at-stored_ne j k =
      inode_at-patch_outside j (inode_start + isize * id) (encode n) d
        (omega (arith, length-encode n v))

  -- For an id in range and an inode whose fields fit their width, `writeInode` followed by
  -- `readInode` of any id in range gives that inode at the id that was written and the inode that
  -- was there before at every other id.
  pub read_inode-write_inode :
      (j : ℕ)
      → j < inum
      → (write_inode id n >> read_inode j) d
        ≡ ok (if j == id then n else inode_at j d) (stored id n d)
  read_inode-write_inode j k =
      rw (write_inode-ok, read_inode-ok j (stored id n d) k)
        (elim (Bool-cases (j == id)) [
          | inl e ↦
              let q : j ≡ id = (==_iff j id).0 e in
              rw (e, q) (ap (λ m. ok m (stored id n d)) inode_at-stored_self)
          | inr e ↦ rw (e, inode_at-stored_ne j (ground arith))
        ])

-- Disks that agree on the inode region hold the same inodes.
pub inode_at_congr :
    (id : ℕ) (d e : Disk)
    → id < inum
    → ((a : ℕ) → inode_start ≤ a → a < data_start → d a ≡ e a)
    → inode_at id d ≡ inode_at id e
unfolding inode_at
inode_at_congr id d e h same = ap decode (
    fetch_congr (inode_start + isize * id) sizeof_inode d e
      (λ i l. same (inode_start + isize * id + i) (omega arith) (omega arith)))
