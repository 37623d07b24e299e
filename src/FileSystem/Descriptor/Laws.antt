-- ===== src/FileSystem/Descriptor/Laws.antt =====
-- The map of file descriptors, and what `registerFD`, `close` and `seek` do to it.
use very_simple_file_system.Base.{
  ℕ, ◌+◌, ◌≤◌, ◌<◌, ◌≡◌, ◌≢◌, refl, ap, [], ◌∷◌, ◌++◌, Option, some, none, arith, ◌==◌,
  if◌then◌else◌, Bool-cases, Option-cases, inl, inr, codes,
}
use very_simple_file_system.Run.{Returns}
use very_simple_file_system.Layout.{minus_one, add32}
use very_simple_file_system.FileSystem.State.{OpenFile, FileSystem}
use very_simple_file_system.FileSystem.Descriptor.{
  FdMap, fd_find, fd_insert, fd_erase, fd_set_offset, register_fd, release_fd, close, seek,
}

abbrev kept_or : OpenFile → Option OpenFile → Option OpenFile
kept_or f none = some f
kept_or f (some g) = some g

abbrev pub moved : ℕ → Option OpenFile → Option OpenFile
moved offset none = none
moved offset (some g) = some (record g { offset = offset })

fd_find-insert :
    (j fd : ℕ) (f : OpenFile) (m : FdMap)
    → fd_find j (fd_insert fd f m) ≡ (if j == fd then kept_or f (fd_find fd m) else fd_find j m)
unfolding fd_find fd_insert
fd_find-insert j fd f [] = ground arith
fd_find-insert j fd f ((k, g) ∷ m) = ground (arith, fd_find-insert j fd f m)

pub fd_find-set_offset :
    (j fd offset : ℕ) (m : FdMap)
    → fd_find j (fd_set_offset fd offset m)
      ≡ (if j == fd then moved offset (fd_find fd m) else fd_find j m)
unfolding fd_find fd_set_offset
fd_find-set_offset j fd offset [] = ground arith
fd_find-set_offset j fd offset ((k, g) ∷ m) = ground (arith, fd_find-set_offset j fd offset m)

-- Every descriptor has one entry, and all are below `n`.
abbrev pub IsFdMap : ℕ → FdMap → Type 0
IsFdMap n [] = Unit
IsFdMap n ((k, g) ∷ m) = (k < n) × (fd_find k m ≡ none) × IsFdMap n m

pub fd_find-erase :
    (n j fd : ℕ) (m : FdMap)
    → IsFdMap n m
    → fd_find j (fd_erase fd m) ≡ (if j == fd then none else fd_find j m)
unfolding fd_find fd_erase
fd_find-erase n j fd [] v = ground arith
fd_find-erase n j fd ((k, g) ∷ m) v = ground (arith, fd_find-erase n j fd m, ap (λ x. fd_find x m))

fd_find-below : (n fd : ℕ) (m : FdMap) → IsFdMap n m → n ≤ fd → fd_find fd m ≡ none
unfolding fd_find
fd_find-below n fd [] v h = refl
fd_find-below n fd ((k, g) ∷ m) v h = ground (arith, fd_find-below n fd m)

IsFdMap-weaken : (n k : ℕ) (m : FdMap) → n ≤ k → IsFdMap n m → IsFdMap k m
IsFdMap-weaken n k [] h v = tt
IsFdMap-weaken n k ((j, g) ∷ m) h (a, b, c) = (omega arith, b, IsFdMap-weaken n k m h c)

IsFdMap-insert :
    (n fd : ℕ) (f : OpenFile) (m : FdMap) → IsFdMap n m → fd < n → IsFdMap n (fd_insert fd f m)
unfolding fd_find fd_insert
IsFdMap-insert n fd f [] v h = (h, refl, tt)
IsFdMap-insert n fd f ((k, g) ∷ m) (a, b, c) h = elim (Bool-cases (fd == k)) [
  | inl same ↦ rw same (a, b, c)
  | inr other ↦ rw other (a, ground (arith, fd_find-insert k fd f m), IsFdMap-insert n fd f m c h)
]

pub IsFdMap-erase : (n fd : ℕ) (m : FdMap) → IsFdMap n m → IsFdMap n (fd_erase fd m)
unfolding fd_find fd_erase
IsFdMap-erase n fd [] v = tt
IsFdMap-erase n fd ((k, g) ∷ m) (a, b, c) = elim (Bool-cases (fd == k)) [
  | inl same ↦ rw same c
  | inr other ↦ rw other (a, ground (arith, fd_find-erase n k fd m c), IsFdMap-erase n fd m c)
]

pub IsFdMap-set_offset :
    (n fd offset : ℕ) (m : FdMap) → IsFdMap n m → IsFdMap n (fd_set_offset fd offset m)
unfolding fd_find fd_set_offset
IsFdMap-set_offset n fd offset [] v = tt
IsFdMap-set_offset n fd offset ((k, g) ∷ m) (a, b, c) = elim (Bool-cases (fd == k)) [
  | inl same ↦ rw same (a, b, c)
  | inr other ↦
      rw other
        (a, ground (arith, fd_find-set_offset k fd offset m), IsFdMap-set_offset n fd offset m c)
]

-- The invariant of the open files: the next descriptor, and every later one, is not in use.
abbrev pub IsOpened : FileSystem → Type 0
IsOpened s = IsFdMap (add32 s.fd_cnt 1) s.fd_map

abbrev pub SameElsewhere : ℕ → FileSystem → FileSystem → Type 0
SameElsewhere fd s t = (j : ℕ) → j ≢ fd → fd_find j t.fd_map ≡ fd_find j s.fd_map

-- A new descriptor for the inode, at its start.
pub record IsRegistered (i_id : ℕ) (s : FileSystem) (fd : ℕ) (t : FileSystem) : Type 0 where
  pub counter : t.fd_cnt ≡ fd
  pub next : fd ≡ add32 s.fd_cnt 1
  pub unused : fd_find fd s.fd_map ≡ none
  pub entry : fd_find fd t.fd_map ≡ some (record { i_id = i_id; offset = 0 })
  pub others : SameElsewhere fd s t
  pub opened : IsOpened t
  pub kept : record t { fd_cnt = s.fd_cnt; fd_map = s.fd_map } ≡ s

-- Where the next descriptor and all later ones are unused and the counter does not reach -1,
-- `registerFD` returns the next descriptor, which was unused, binds it to the inode at position 0,
-- leaves all others as they were and every field other than counter and descriptors unchanged, and
-- again the next descriptor and all later ones are unused.
pub register_fd-IsRegistered :
    (i_id : ℕ) (s : FileSystem)
    → IsOpened s
    → add32 s.fd_cnt 1 < minus_one
    → Returns (IsRegistered i_id s) (register_fd i_id s)
unfolding register_fd
register_fd-IsRegistered i_id s v h =
    let fd = add32 s.fd_cnt 1 in
    let f : OpenFile = record { i_id = i_id; offset = 0 } in
    let fresh = fd_find-below fd fd s.fd_map v (omega arith) in
    let next : add32 fd 1 ≡ fd + 1 = omega arith in
    (
      fd,
      _,
      refl,
      record {
        counter = refl;
        next = refl;
        unused = fresh;
        entry = ground (arith, fd_find-insert fd fd f s.fd_map);
        others = λ j ne. ground (arith, fd_find-insert j fd f s.fd_map);
        kept = refl;
        opened = rw next (
            IsFdMap-insert (fd + 1) fd f s.fd_map
              (IsFdMap-weaken fd (fd + 1) s.fd_map (omega arith) v) (omega arith));
      },
    )

-- Where the next descriptor and all later ones are unused, `close` of any number returns 0, the
-- number is then unused, the other descriptors are as before, the next descriptor and all later
-- ones are still unused, and nothing but descriptors and output changed.
pub close_lem :
    (fd : ℕ) (s : FileSystem)
    → IsOpened s
    → Returns
        (λ code t.
          (code ≡ 0)
          × (fd_find fd t.fd_map ≡ none)
          × SameElsewhere fd s t
          × IsOpened t
          × (record t { fd_map = s.fd_map; cout = s.cout } ≡ s))
        (close fd s)
unfolding close release_fd
close_lem fd s v = elim (Option-cases (fd_find fd s.fd_map)) [
  | inl gone ↦ (
    0,
    record s { cout = s.cout ++ codes "unknown file descriptor\n" },
    ground arith,
    (refl, gone, (λ j ne. refl), v, refl),
  )
  | inr (f, known) ↦
      let n = add32 s.fd_cnt 1 in
      (
        0,
        record s { fd_map = fd_erase fd s.fd_map },
        ground arith,
        (
          refl,
          ground (arith, fd_find-erase n fd fd s.fd_map),
          (λ j ne. ground (arith, fd_find-erase n j fd s.fd_map)),
          IsFdMap-erase n fd s.fd_map v,
          refl,
        ),
      )
]

-- Where the next descriptor and all later ones are unused, `seek` returns -1 for an unknown
-- descriptor and 0 for a known one, whose position it sets to the offset, and it leaves the other
-- descriptors as they were, the next one and all later ones unused, and all but descriptors and
-- output unchanged.
pub seek_lem :
    (fd offset : ℕ) (s : FileSystem)
    → IsOpened s
    → Returns
        (λ code t.
          (code ≡ elim (fd_find fd s.fd_map) [ none ↦ minus_one | some f ↦ 0 ])
          × (fd_find fd t.fd_map ≡ moved offset (fd_find fd s.fd_map))
          × SameElsewhere fd s t
          × IsOpened t
          × (record t { fd_map = s.fd_map; cout = s.cout } ≡ s))
        (seek fd offset s)
unfolding seek
seek_lem fd offset s v = elim (Option-cases (fd_find fd s.fd_map)) [
  | inl gone ↦ (
    minus_one,
    record s { cout = s.cout ++ codes "unknown file descriptor\n" },
    ground arith,
    (ground arith, ground arith, (λ j ne. refl), v, refl),
  )
  | inr (f, known) ↦ (
    0,
    record s { fd_map = fd_set_offset fd offset s.fd_map },
    ground arith,
    (
      ground arith,
      ground (arith, fd_find-set_offset fd fd offset s.fd_map),
      (λ j ne. ground (arith, fd_find-set_offset j fd offset s.fd_map)),
      IsFdMap-set_offset (add32 s.fd_cnt 1) fd offset s.fd_map v,
      refl,
    ),
  )
]
