-- ===== src/Directory/Counter.antt =====
-- The end of `addEntryToDir`: the inode and the counter are stored.
use very_simple_file_system.Base.{
  ℕ, ◌+◌, ◌%◌, ◌^◌, ◌≤◌, ◌<◌, ◌≡◌, ◌≢◌, ap, sym, subst, ◌∙◌, ◌⊎◌, List, [], ◌∷◌, ◌++◌, inl, inr,
  arith, length, length-append,
}
use very_simple_file_system.Run.{ok}
use very_simple_file_system.Layout.{
  minus_one, add32, dsize, inum, inode_start, data_start, dmap_start, dnum,
}
use very_simple_file_system.Disk.{
  Disk, patch, fetch, int_bytes, int_at, int_of, get_int_at, put_int_at,
}
use very_simple_file_system.Disk.Access.{get_int_at-ok, put_int_at-ok}
use very_simple_file_system.Disk.Bytes.{fetch_congr, int_at-patch_self, patch_outside}
use very_simple_file_system.Bitmap.Count.{free_blocks_of, count_congr}
use very_simple_file_system.File.Extends.{grow_cost}
use very_simple_file_system.Inode.{Inode}
use very_simple_file_system.Inode.Codec.{
  IsInode, inode_at, stored, inode_at-stored_self, inode_at-stored_ne, stored_outside,
  inode_at_congr,
}
use very_simple_file_system.File.Blocks.{
  block_addr, blocks, IsBlock, IsFile, InBlock, not_InBlock, file_addr, file_bytes,
}
use very_simple_file_system.File.Chunk.{chunk_of, chunk-IsWritten}
use very_simple_file_system.File.Stored.{
  IsStored, IsForeign, KeepsMarks, IsStored-data, IsForeign-data, file_bytes_data, inode-IsForeign,
}
use very_simple_file_system.File.Append.{SameBlocks, IsAppended, last-IsAppended}
use very_simple_file_system.File.Longer.{IsLonger, IsLonger-IsInode, fetch_join}
use very_simple_file_system.File.Sound.{IsChange}
use very_simple_file_system.Directory.{DirEntry}
use very_simple_file_system.Directory.Entries.{IsEntry, Holds, entries_bytes, entry_bytes}
use very_simple_file_system.Directory.Load.{live_count, live_count-lt}
use very_simple_file_system.Directory.Saved.{
  IsSavedDirectory, counter-fetch, entries_bytes-last, AllEntries-last, live_count-last,
}

-- What `addEntryToDir` has done to the disk.
pub record IsEntryAdded (id : ℕ) (e : DirEntry) (es : List DirEntry) (d d' : Disk) : Type 0 where
  pub saved : IsSavedDirectory id d' (es ++ (e ∷ []))
  pub first_block : (inode_at id d').addr_0 ≡ (inode_at id d).addr_0
  pub type : (inode_at id d').type ≡ (inode_at id d).type
  pub inodes : (j : ℕ) → j < inum → j ≢ id → inode_at j d' ≡ inode_at j d
  pub frame :
      (a : ℕ) → (a < inode_start) ⊎ (data_start ≤ a) → IsForeign (inode_at id d) d a → d' a ≡ d a
  pub foreign :
      (a : ℕ)
      → (a < inode_start) ⊎ (data_start ≤ a)
      → IsForeign (inode_at id d) d a
      → IsForeign (inode_at id d') d' a
  pub marks : KeepsMarks d d'
  pub size : (inode_at id d').size ≡ (inode_at id d).size + length (entry_bytes e)
  pub tight :
      (inode_at id d).size + length (entry_bytes e) < (inode_at id d).capacity
      → SameBlocks (inode_at id d) (inode_at id d')
  pub budget :
      free_blocks_of d' + blocks (inode_at id d') + grow_cost (inode_at id d)
      ≡ free_blocks_of d + blocks (inode_at id d) + grow_cost (inode_at id d')

-- The disk after the inode `m` and then the counter `w` were stored.
abbrev counted : ℕ → Inode → Disk → ℕ → Disk
counted id m d w = patch m.addr_0 (int_bytes w) (stored id m d)

-- The end of `addEntryToDir`, once the file of the directory holds the entry.
module _ (id : ℕ) (e : DirEntry) (es : List DirEntry) (d : Disk) (m : Inode) (f : Disk)
    (v : IsSavedDirectory id d es) (w : IsEntry e)
    (x : IsLonger (inode_at id d) (entry_bytes e) d m f) (live : e.node_index ≢ minus_one) where
  pub m-IsInode : IsInode m
  m-IsInode = IsLonger-IsInode (inode_at id d) (entry_bytes e) d m f v.inode x

  after : (a : ℕ) → (a < inode_start) ⊎ (data_start ≤ a) → stored id m f a ≡ f a
  after = stored_outside id m f v.directory.id_lt m-IsInode

  after-KeepsMarks : KeepsMarks f (stored id m f)
  after-KeepsMarks a l h ne = rw (after a (inl (omega arith))) ne

  kept-IsStored : IsStored m (stored id m f)
  kept-IsStored =
      IsStored-data m f (stored id m f) x.stored (λ a h. after a (inr h)) after-KeepsMarks

  kept_bytes : (p : ℕ) → p < m.size → file_bytes m (stored id m f) p ≡ file_bytes m f p
  kept_bytes p h =
      file_bytes_data m f (stored id m f) x.stored.file (λ a h. after a (inr h)) p
        (omega (arith, x.size_le))

  first : IsBlock m.addr_0
  first = unfold block_addr in x.stored.file.block 0 (omega (arith, x.stored.file.at_least))

  -- The counter as it was.
  old_counter : int_at m.addr_0 (stored id m f) ≡ live_count es
  old_counter =
      counter-fetch m (stored id m f)
      ∙ ap int_of (
          fetch_congr 0 4 _ _ (λ i l.
            kept_bytes (0 + i) (omega (arith, x.size, v.directory.holds.end))
            ∙ x.old (0 + i) (omega (arith, v.directory.holds.end))))
      ∙ sym (counter-fetch (inode_at id d) d)
      ∙ v.directory.counter

  -- The new counter is a write to the file.
  counted-IsAppended : (c : ℕ) → IsAppended m 0 (int_bytes c) (stored id m f) m (counted id m f c)
  counted-IsAppended c =
      let b = x.stored.file.at_least in
      let l : 0 < m.capacity = omega arith in
      let k : 0 % dsize + length (int_bytes c) ≤ dsize = omega arith in
      let y =
        last-IsAppended m 0 (int_bytes c) (stored id m f)
          (chunk_of m (stored id m f) 0 (int_bytes c)) kept-IsStored
          (chunk-IsWritten m (stored id m f) kept-IsStored.file 0 (int_bytes c) l k)
          (omega arith) in
      let at : file_addr m (stored id m f) 0 ≡ m.addr_0 = unfold block_addr in omega arith in
      subst (IsAppended m 0 (int_bytes c) (stored id m f) m)
        (ap (λ a. patch a (int_bytes c) (stored id m f)) at) y

  pub get_counter : get_int_at m.addr_0 (stored id m f) ≡ ok (live_count es) (stored id m f)
  get_counter =
      get_int_at-ok m.addr_0 (stored id m f) (omega (arith, first.to))
      ∙ ap (λ k. ok k (stored id m f)) old_counter

  pub put_counter :
      put_int_at m.addr_0 (add32 (live_count es) 1) (stored id m f)
      ≡ ok tt (counted id m f (live_count es + 1))
  put_counter =
      let c : (live_count es + 1) % 2 ^ 32 ≡ live_count es + 1 =
        omega (arith, live_count-lt id d es v.directory) in
      ap (λ k. put_int_at m.addr_0 k (stored id m f)) c
      ∙ put_int_at-ok m.addr_0 (stored id m f) (live_count es + 1) (omega (arith, first.to))

  self : (c : ℕ) → inode_at id (counted id m f c) ≡ m
  self c =
      inode_at_congr id (counted id m f c) (stored id m f) v.directory.id_lt (λ a l h.
        patch_outside m.addr_0 (int_bytes c) (stored id m f) a (inl (omega (arith, first.from))))
      ∙ inode_at-stored_self id m f v.directory.id_lt m-IsInode

  -- Behind the counter the file holds what was appended to it.
  later : (c p : ℕ) → 4 ≤ p → p < m.size → file_bytes m (counted id m f c) p ≡ file_bytes m f p
  later c p l h =
      (counted-IsAppended c).bytes p (inl (omega (arith, x.size_le)))
      ∙ patch_outside 0 (int_bytes c) (file_bytes m (stored id m f)) p (inr (omega arith))
      ∙ kept_bytes p h

  Holds-last : (c : ℕ) → Holds m (counted id m f c) 4 (es ++ (e ∷ []))
  Holds-last c =
      let n = v.directory.holds.end in
      record {
        end =
            rw (entries_bytes-last e es)
              (omega (arith, length-append (entries_bytes es) (entry_bytes e), x.size, n));
        bytes = rw (entries_bytes-last e es) (
            fetch_join (entries_bytes es) (entry_bytes e) 4 _
              (fetch_congr 4 (length (entries_bytes es)) _ _ (λ i l.
                  later c (4 + i) (omega arith) (omega (arith, x.size))
                  ∙ x.old (4 + i) (omega arith))
                ∙ v.directory.holds.bytes)
              (ap (λ a. fetch a (length (entry_bytes e)) (file_bytes m (counted id m f c))) n
                ∙ fetch_congr (inode_at id d).size (length (entry_bytes e)) _ _ (λ i l.
                  later c ((inode_at id d).size + i) (omega arith) (omega (arith, x.size)))
                ∙ x.new));
      }

  abbrev pub last : Disk
  last = counted id m f (live_count es + 1)

  last-IsSavedDirectory : IsSavedDirectory id last (es ++ (e ∷ []))
  last-IsSavedDirectory =
      let c = live_count es + 1 in
      let s : m ≡ inode_at id last = sym (self c) in
      let y = counted-IsAppended c in
      let count : int_at m.addr_0 last ≡ live_count (es ++ (e ∷ [])) =
        int_at-patch_self m.addr_0 c (stored id m f)
          (omega (arith, live_count-lt id d es v.directory))
        ∙ sym (live_count-last e es live) in
      record {
        inode = subst IsInode s m-IsInode;
        stored = subst (λ n. IsStored n last) s y.stored;
        directory = record {
          id_lt = v.directory.id_lt;
          file = subst (λ n. IsFile n last) s y.stored.file;
          size_le = subst (λ (n : Inode). n.size ≤ n.capacity) s x.size_le;
          entries = AllEntries-last e es v.directory.entries w;
          holds = subst (λ n. Holds n last 4 (es ++ (e ∷ []))) s (Holds-last c);
          counter =
              subst (λ (n : Inode). int_at n.addr_0 last ≡ live_count (es ++ (e ∷ []))) s count;
        };
      }

  pub last-IsEntryAdded : IsEntryAdded id e es d last
  last-IsEntryAdded =
      let c = live_count es + 1 in
      record {
        saved = last-IsSavedDirectory;
        first_block = ap (λ (n : Inode). n.addr_0) (self c ∙ x.others);
        type = ap (λ (n : Inode). n.type) (self c ∙ x.others);
        inodes = λ j h ne.
            inode_at_congr j last (stored id m f) h (λ a l k.
              patch_outside m.addr_0 (int_bytes c) (stored id m f) a
                (inl (omega (arith, first.from))))
            ∙ inode_at-stored_ne id m f v.directory.id_lt m-IsInode j ne
            ∙ inode_at_congr j f d h
                (λ a l k. x.frame a (inode-IsForeign (inode_at id d) d a v.stored l k));
        frame = λ a h k.
            let out : ¬ InBlock a (inode_at id d).addr_0 =
              unfold block_addr in
              k.outside 0 (omega (arith, v.stored.file.whole, v.stored.file.at_least)) in
            let same : m.addr_0 ≡ (inode_at id d).addr_0 = ap (λ (n : Inode). n.addr_0) x.others in
            let apart : (a < m.addr_0) ⊎ (m.addr_0 + 4 ≤ a) =
              not_InBlock a m.addr_0 4 (omega arith)
                (λ q. out (omega (arith, same, q.0), omega (arith, same, q.1))) in
            patch_outside m.addr_0 (int_bytes c) (stored id m f) a apart ∙ after a h ∙ x.frame a k;
        foreign = λ a _ k.
            subst (λ n. IsForeign n last a) (sym (self c))
              ((counted-IsAppended c).foreign a (
                IsForeign-data m f (stored id m f) a x.stored.file (λ b h. after b (inr h))
                  after-KeepsMarks (x.foreign a k)));
        size = ap (λ (n : Inode). n.size) (self c) ∙ x.size;
        tight = λ h. rw (self c) (x.tight h);
        budget =
            let same : free_blocks_of (stored id m f) ≡ free_blocks_of f =
              count_congr dnum dmap_start (stored id m f) f
                (λ a l h. after a (inl (omega arith))) in
            rw (self c) (omega (arith, x.budget, same, (counted-IsAppended c).budget));
        marks = λ a l h ne.
            let same : last a ≡ f a =
              patch_outside m.addr_0 (int_bytes c) (stored id m f) a
                (inl (omega (arith, first.from)))
              ∙ after a (inl (omega arith)) in
            rw same (x.marks a l h ne);
      }

-- The entry is a change of the directory's file only.
pub added-IsChange :
    (id : ℕ) (e : DirEntry) (es : List DirEntry) (d d' : Disk)
    → IsEntryAdded id e es d d'
    → IsChange id d d'
added-IsChange id e es d d' a = record {
  file = record {
    id_lt = a.saved.directory.id_lt;
    inode = a.saved.inode;
    stored = a.saved.stored;
    size_le = a.saved.directory.size_le;
  };
  inodes = a.inodes;
  frame = a.frame;
  foreign = a.foreign;
  marks = a.marks;
}
