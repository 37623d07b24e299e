-- ===== src/Directory/Removed.antt =====
-- A directory in which one entry is marked as deleted and the counter is one less.
use very_simple_file_system.Base.{
  append_assoc, ℕ, ◌+◌, ◌≤◌, ◌<◌, ◌≡◌, ◌≢◌, refl, ap, sym, subst, ◌∙◌, List, [], ◌∷◌, ◌++◌, inl,
  inr, arith, length, length-append,
}
use very_simple_file_system.Run.{Returns, ok}
use very_simple_file_system.Layout.{minus_one, add32}
use very_simple_file_system.Disk.{
  Bytes, Disk, patch, fetch, int_bytes, int_at, int_of, get_int_at, put_int_at,
}
use very_simple_file_system.Disk.Access.{get_int_at-ok, put_int_at-ok}
use very_simple_file_system.Disk.Bytes.{
  fetch_congr, fetch-patch_self, fetch-patch_outside, int_at-patch_self, patch_outside,
}
use very_simple_file_system.Bitmap.Count.{free_blocks_of}
use very_simple_file_system.Inode.{Inode}
use very_simple_file_system.Inode.Codec.{inode_at}
use very_simple_file_system.File.{write_file}
use very_simple_file_system.File.Blocks.{block_addr, IsBlock, IsFile, file_addr, file_bytes}
use very_simple_file_system.File.Chunk.{chunk-IsWritten}
use very_simple_file_system.File.Spec.{IsWritten, IsFile-table}
use very_simple_file_system.File.Write.{WrittenInside, write_file-WrittenInside}
use very_simple_file_system.File.Longer.{fetch_join}
use very_simple_file_system.File.Sound.{IsOpenFile, IsChange}
use very_simple_file_system.File.Sound.Inside.{
  IsChange-trans, inside_inodes, inside_count, inside-IsChange,
}
use very_simple_file_system.Directory.{DirEntry}
use very_simple_file_system.Directory.Entries.{
  AllEntries, Holds, entries_bytes, entry_bytes, fetch_parts,
}
use very_simple_file_system.Directory.Load.{live_count, live_count-lt}
use very_simple_file_system.Directory.Saved.{IsSavedDirectory, counter-fetch}

-- The entry as it is marked.
abbrev pub gone : DirEntry → DirEntry
gone e = record e { node_index = minus_one }

-- Lists of entries in two parts.
pub entries_bytes-append :
    (xs ys : List DirEntry) → entries_bytes (xs ++ ys) ≡ entries_bytes xs ++ entries_bytes ys
unfolding entries_bytes
entries_bytes-append [] ys = refl
entries_bytes-append (x ∷ xs) ys =
    ap (λ l. entry_bytes x ++ l) (entries_bytes-append xs ys)
    ∙ sym (append_assoc (entry_bytes x) (entries_bytes xs) (entries_bytes ys))

pub live_count-append :
    (xs ys : List DirEntry) → live_count (xs ++ ys) ≡ live_count xs + live_count ys
unfolding live_count
live_count-append [] ys = omega arith
live_count-append (x ∷ xs) ys = omega (arith, live_count-append xs ys)

pub AllEntries-gone :
    (xs : List DirEntry) (e : DirEntry) (ys : List DirEntry)
    → AllEntries (xs ++ (e ∷ ys))
    → AllEntries (xs ++ (gone e ∷ ys))
AllEntries-gone [] e ys (w, a) =
    (record { index_lt = omega arith; nlen_eq = w.nlen_eq; nlen_lt = w.nlen_lt; text = w.text }, a)
AllEntries-gone (x ∷ xs) e ys (w, a) = (w, AllEntries-gone xs e ys a)

-- A write over the middle of three parts.
fetch-patch_middle :
    (xs ys new zs : Bytes) (a : ℕ) (f : Disk)
    → length new ≡ length ys
    → fetch a (length (xs ++ (ys ++ zs))) f ≡ xs ++ (ys ++ zs)
    → fetch a (length (xs ++ (new ++ zs))) (patch (a + length xs) new f) ≡ xs ++ (new ++ zs)
fetch-patch_middle xs ys new zs a f l h =
    let (p, q) = fetch_parts xs (ys ++ zs) a f h in
    let (_, r) = fetch_parts ys zs (a + length xs) f q in
    let b = a + length xs in
    fetch_join xs (new ++ zs) a (patch b new f)
      (fetch-patch_outside a (length xs) b new f (inl (omega arith)) ∙ p)
      (fetch_join new zs b (patch b new f) (fetch-patch_self b new f) (
        fetch-patch_outside (b + length new) (length zs) b new f (inr (omega arith))
        ∙ ap (λ k. fetch (b + k) (length zs) f) l
        ∙ r))

-- The bytes of an entry behind its inode id.
abbrev tail_bytes : DirEntry → Bytes
tail_bytes e = int_bytes e.nlen ++ e.name

entries_bytes-middle :
    (xs : List DirEntry) (e : DirEntry) (ys : List DirEntry)
    → entries_bytes (xs ++ (e ∷ ys))
      ≡ entries_bytes xs ++ (int_bytes e.node_index ++ (tail_bytes e ++ entries_bytes ys))
unfolding entries_bytes entry_bytes
entries_bytes-middle xs e ys =
    entries_bytes-append xs (e ∷ ys)
    ∙ ap (λ l. entries_bytes xs ++ l)
        (append_assoc (int_bytes e.node_index) (tail_bytes e) (entries_bytes ys))

-- Where the bytes of the entries stand, a write of -1 over the id of one marks it.
fetch-gone :
    (xs : List DirEntry) (e : DirEntry) (ys : List DirEntry) (a : ℕ) (f : Disk)
    → fetch a (length (entries_bytes (xs ++ (e ∷ ys)))) f ≡ entries_bytes (xs ++ (e ∷ ys))
    → fetch a
        (length (entries_bytes (xs ++ (gone e ∷ ys))))
        (patch (a + length (entries_bytes xs)) (int_bytes minus_one) f)
      ≡ entries_bytes (xs ++ (gone e ∷ ys))
fetch-gone xs e ys a f h = rw (entries_bytes-middle xs (gone e) ys) (
    fetch-patch_middle (entries_bytes xs) (int_bytes e.node_index) (int_bytes minus_one)
      (tail_bytes e ++ entries_bytes ys) a f refl
      (ap (λ l. fetch a (length l) f) (sym (entries_bytes-middle xs e ys))
        ∙ h
        ∙ entries_bytes-middle xs e ys))

length-gone :
    (xs : List DirEntry) (e : DirEntry) (ys : List DirEntry)
    → length (entries_bytes (xs ++ (gone e ∷ ys))) ≡ length (entries_bytes (xs ++ (e ∷ ys)))
length-gone xs e ys = omega (
  arith,
  ap length (entries_bytes-middle xs e ys),
  ap length (entries_bytes-middle xs (gone e) ys),
  length-append (entries_bytes xs) (int_bytes e.node_index ++ (tail_bytes e ++ entries_bytes ys)),
  length-append (entries_bytes xs) (int_bytes minus_one ++ (tail_bytes e ++ entries_bytes ys)),
)

-- What the removal of the entry `e` has done to the disk.
pub record IsEntryGone (id : ℕ) (before : List DirEntry) (e : DirEntry) (after : List DirEntry)
    (d d' : Disk) : Type 0 where
  pub saved : IsSavedDirectory id d' (before ++ (gone e ∷ after))
  pub change : IsChange id d d'
  pub node : inode_at id d' ≡ inode_at id d
  pub count : free_blocks_of d' ≡ free_blocks_of d

pub saved-IsOpenFile :
    (id : ℕ) (d : Disk) (es : List DirEntry) → IsSavedDirectory id d es → IsOpenFile d id
saved-IsOpenFile id d es v = record {
  id_lt = v.directory.id_lt;
  inode = v.inode;
  stored = v.stored;
  size_le = v.directory.size_le;
}

module _ (id : ℕ) (before : List DirEntry) (e : DirEntry) (after : List DirEntry) (d : Disk)
    (v : IsSavedDirectory id d (before ++ (e ∷ after))) where
  abbrev node : Inode
  node = inode_at id d

  -- Where the entry starts in the file.
  abbrev pub entry_at : ℕ
  entry_at = 4 + length (entries_bytes before)

  entry_fits : entry_at + 4 ≤ node.capacity
  entry_fits = omega (
    arith,
    v.directory.holds.end,
    v.directory.size_le,
    ap length (entries_bytes-middle before e after),
    length-append (entries_bytes before)
        (int_bytes e.node_index ++ (tail_bytes e ++ entries_bytes after)),
  )

  -- The id is written.
  pub id_written :
      Returns
        (WrittenInside node entry_at (int_bytes minus_one) d)
        (write_file node entry_at (int_bytes minus_one) d)
  id_written =
      write_file-WrittenInside node entry_at (int_bytes minus_one) d v.stored.file
        (omega (arith, entry_fits)) entry_fits

  first : IsBlock node.addr_0
  first = unfold block_addr in v.stored.file.block 0 (omega (arith, v.stored.file.at_least))

  module _ (d1 : Disk) (w : IsWritten node entry_at (int_bytes minus_one) d d1) where
    file1 : IsFile node d1
    file1 = IsFile-table node d d1 v.stored.file w.table

    node1 : inode_at id d1 ≡ node
    node1 =
        inside_inodes id entry_at (int_bytes minus_one) d d1
          (saved-IsOpenFile id d (before ++ (e ∷ after)) v) w entry_fits id v.directory.id_lt

    -- The counter is before the entry.
    counter1 : int_at node.addr_0 d1 ≡ live_count (before ++ (e ∷ after))
    counter1 =
        counter-fetch node d1
        ∙ ap int_of (
            fetch_congr 0 4 _ _ (λ i l.
              w.bytes (0 + i) (omega (arith, entry_fits))
              ∙ patch_outside entry_at (int_bytes minus_one) (file_bytes node d) (0 + i)
                  (inl (omega arith))))
        ∙ sym (counter-fetch node d)
        ∙ v.directory.counter

    pub get_counter : get_int_at node.addr_0 d1 ≡ ok (live_count (before ++ (e ∷ after))) d1
    get_counter =
        get_int_at-ok node.addr_0 d1 (omega (arith, first.to)) ∙ ap (λ k. ok k d1) counter1

    abbrev pub counted : ℕ → Disk
    counted c = patch node.addr_0 (int_bytes c) d1

    counted-IsWritten : (c : ℕ) → IsWritten node 0 (int_bytes c) d1 (counted c)
    counted-IsWritten c =
        let b = v.stored.file.at_least in
        let at : file_addr node d1 0 ≡ node.addr_0 = unfold block_addr in omega arith in
        subst (IsWritten node 0 (int_bytes c) d1) (ap (λ a. patch a (int_bytes c) d1) at)
          (chunk-IsWritten node d1 file1 0 (int_bytes c) (omega arith) (omega arith))

    -- Behind the counter only the id of the entry is new.
    counted_bytes :
        (c p : ℕ)
        → 4 ≤ p
        → p < node.capacity
        → file_bytes node (counted c) p ≡ patch entry_at (int_bytes minus_one) (file_bytes node d) p
    counted_bytes c p l h =
        (counted-IsWritten c).bytes p h
        ∙ patch_outside 0 (int_bytes c) (file_bytes node d1) p (inr (omega arith))
        ∙ w.bytes p h

    counted-Holds : (c : ℕ) → Holds node (counted c) 4 (before ++ (gone e ∷ after))
    counted-Holds c =
        let n = length-gone before e after in
        let z = v.directory.holds.end in
        record {
          end = omega (arith, n, z);
          bytes =
              fetch_congr 4 (length (entries_bytes (before ++ (gone e ∷ after)))) _ _ (λ i l.
                counted_bytes c (4 + i) (omega arith) (omega (arith, n, z, v.directory.size_le)))
              ∙ fetch-gone before e after 4 (file_bytes node d) v.directory.holds.bytes;
        }

    module _ (live : e.node_index ≢ minus_one) where
      abbrev rest_count : ℕ
      rest_count = live_count (before ++ (gone e ∷ after))

      one_less : live_count (before ++ (e ∷ after)) ≡ rest_count + 1
      unfolding live_count
      one_less =
          let x = live_count-append before (e ∷ after) in
          let y = live_count-append before (gone e ∷ after) in ground arith

      abbrev pub removed : Disk
      removed = counted rest_count

      pub put_counter :
          put_int_at node.addr_0 (add32 (live_count (before ++ (e ∷ after))) minus_one) d1
          ≡ ok tt removed
      put_counter =
          let small = live_count-lt id d (before ++ (e ∷ after)) v.directory in
          let c : add32 (live_count (before ++ (e ∷ after))) minus_one ≡ rest_count =
            omega (arith, one_less) in
          ap (λ k. put_int_at node.addr_0 k d1) c
          ∙ put_int_at-ok node.addr_0 d1 rest_count (omega (arith, first.to))

      change1 : IsChange id d d1
      change1 =
          inside-IsChange id entry_at (int_bytes minus_one) d d1
            (saved-IsOpenFile id d (before ++ (e ∷ after)) v) w entry_fits

      fits0 : 4 ≤ (inode_at id d1).capacity
      fits0 = rw node1 (omega (arith, v.stored.file.at_least))

      written0 : IsWritten (inode_at id d1) 0 (int_bytes rest_count) d1 removed
      written0 = rw node1 (counted-IsWritten rest_count)

      same_node : inode_at id removed ≡ node
      same_node =
          inside_inodes id 0 (int_bytes rest_count) d1 removed change1.file written0 fits0 id
            v.directory.id_lt
          ∙ node1

      change2 : IsChange id d1 removed
      change2 = inside-IsChange id 0 (int_bytes rest_count) d1 removed change1.file written0 fits0

      removed-IsSavedDirectory : IsSavedDirectory id removed (before ++ (gone e ∷ after))
      removed-IsSavedDirectory =
          let s = sym same_node in
          let small = live_count-lt id d (before ++ (e ∷ after)) v.directory in
          record {
            inode = change2.file.inode;
            stored = change2.file.stored;
            directory = record {
              id_lt = v.directory.id_lt;
              file = change2.file.stored.file;
              size_le = change2.file.size_le;
              entries = AllEntries-gone before e after v.directory.entries;
              holds =
                  subst (λ n. Holds n removed 4 (before ++ (gone e ∷ after))) s
                    (counted-Holds rest_count);
              counter =
                  subst (λ (n : Inode). int_at n.addr_0 removed ≡ rest_count) s
                    (int_at-patch_self node.addr_0 rest_count d1 (omega (arith, one_less)));
            };
          }

      pub removed-IsEntryGone : IsEntryGone id before e after d removed
      removed-IsEntryGone = record {
        saved = removed-IsSavedDirectory;
        change = IsChange-trans id d d1 removed change1 change2;
        node = same_node;
        count =
            inside_count id 0 (int_bytes rest_count) d1 removed change1.file written0 fits0
            ∙ inside_count id entry_at (int_bytes minus_one) d d1
                (saved-IsOpenFile id d (before ++ (e ∷ after)) v) w entry_fits;
      }
