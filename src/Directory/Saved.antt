-- ===== src/Directory/Saved.antt =====
-- A directory on the disk, its counter, and lists of entries with one more at the end.
use very_simple_file_system.Base.{
  append-nil, append_assoc, ℕ, ◌+◌, ◌<◌, ◌≤◌, ◌≡◌, ◌≢◌, ap, sym, subst, ◌∙◌, List, [], ◌∷◌, ◌++◌,
  arith, length,
}
use very_simple_file_system.Layout.{minus_one}
use very_simple_file_system.Disk.{Disk, fetch, int_at, int_of}
use very_simple_file_system.Disk.Bytes.{fetch_congr}
use very_simple_file_system.Inode.{Inode}
use very_simple_file_system.Inode.Codec.{IsInode, inode_at}
use very_simple_file_system.File.Blocks.{block_addr, file_bytes, IsFile}
use very_simple_file_system.File.Stored.{IsStored, SameData, KeepsMarks}
use very_simple_file_system.File.Isolation.{IsUntouched, data-IsUntouched}
use very_simple_file_system.File.Sound.{IsSameFile}
use very_simple_file_system.Directory.{DirEntry}
use very_simple_file_system.Directory.Entries.{
  IsEntry, AllEntries, Holds, entries_bytes, entry_bytes,
}
use very_simple_file_system.Directory.Load.{live_count, IsDirectory}

-- A directory whose inode is on the disk and whose blocks are taken.
pub record IsSavedDirectory (id : ℕ) (d : Disk) (es : List DirEntry) : Type 0 where
  pub inode : IsInode (inode_at id d)
  pub stored : IsStored (inode_at id d) d
  pub directory : IsDirectory id d es

-- The counter of a directory is the first four bytes of its file.
pub counter-fetch :
    (node : Inode) (d : Disk) → int_at node.addr_0 d ≡ int_of (fetch 0 4 (file_bytes node d))
unfolding fetch file_bytes block_addr
counter-fetch node d = ground arith

-- One more entry at the end.
module _ (e : DirEntry) where
  pub entries_bytes-last :
      (es : List DirEntry) → entries_bytes (es ++ (e ∷ [])) ≡ entries_bytes es ++ entry_bytes e
  unfolding entries_bytes
  entries_bytes-last [] = append-nil (entry_bytes e)
  entries_bytes-last (x ∷ es) =
      ap (λ l. entry_bytes x ++ l) (entries_bytes-last es)
      ∙ sym (append_assoc (entry_bytes x) (entries_bytes es) (entry_bytes e))

  pub AllEntries-last :
      (es : List DirEntry) → AllEntries es → IsEntry e → AllEntries (es ++ (e ∷ []))
  AllEntries-last [] a w = (w, tt)
  AllEntries-last (x ∷ es) (v, a) w = (v, AllEntries-last es a w)

  pub live_count-last :
      (es : List DirEntry)
      → e.node_index ≢ minus_one
      → live_count (es ++ (e ∷ [])) ≡ live_count es + 1
  unfolding live_count
  live_count-last [] ne = ground arith
  live_count-last (x ∷ es) ne = omega (arith, live_count-last es ne)

-- A directory stays what it is where its inode and its file are the same.
module _ (id : ℕ) (es : List DirEntry) (d d' : Disk) (v : IsSavedDirectory id d es)
    (same_node : inode_at id d' ≡ inode_at id d) (y : IsUntouched (inode_at id d) d d') where
  kept_bytes :
      (p : ℕ)
      → p < (inode_at id d).size
      → file_bytes (inode_at id d) d' p ≡ file_bytes (inode_at id d) d p
  kept_bytes p h = y.bytes p (omega (arith, v.directory.size_le))

  kept-Holds : Holds (inode_at id d) d' 4 es
  kept-Holds = record {
    end = v.directory.holds.end;
    bytes =
        fetch_congr 4 (length (entries_bytes es)) _ _
          (λ i l. kept_bytes (4 + i) (omega (arith, v.directory.holds.end)))
        ∙ v.directory.holds.bytes;
  }

  kept_counter : int_at (inode_at id d).addr_0 d' ≡ live_count es
  kept_counter =
      counter-fetch (inode_at id d) d'
      ∙ ap int_of
          (fetch_congr 0 4 _ _ (λ i l. kept_bytes (0 + i) (omega (arith, v.directory.holds.end))))
      ∙ sym (counter-fetch (inode_at id d) d)
      ∙ v.directory.counter

  pub untouched-IsSavedDirectory : IsSavedDirectory id d' es
  untouched-IsSavedDirectory =
      let e : inode_at id d ≡ inode_at id d' = sym same_node in
      record {
        inode = subst IsInode e v.inode;
        stored = subst (λ n. IsStored n d') e y.stored;
        directory = record {
          id_lt = v.directory.id_lt;
          file = subst (λ n. IsFile n d') e y.stored.file;
          size_le = subst (λ (n : Inode). n.size ≤ n.capacity) e v.directory.size_le;
          entries = v.directory.entries;
          holds = subst (λ n. Holds n d' 4 es) e kept-Holds;
          counter = subst (λ (n : Inode). int_at n.addr_0 d' ≡ live_count es) e kept_counter;
        };
      }

-- So where its inode, the data region and the marks are kept.
pub kept-IsSavedDirectory :
    (id : ℕ) (es : List DirEntry) (d d' : Disk)
    → IsSavedDirectory id d es
    → inode_at id d' ≡ inode_at id d
    → SameData d d'
    → KeepsMarks d d'
    → IsSavedDirectory id d' es
kept-IsSavedDirectory id es d d' v same_node same marks =
    untouched-IsSavedDirectory id es d d' v same_node
      (data-IsUntouched (inode_at id d) d d' v.stored same marks)

pub same-IsSavedDirectory :
    (id : ℕ) (es : List DirEntry) (d d' : Disk)
    → IsSavedDirectory id d es
    → IsSameFile id d d'
    → IsSavedDirectory id d' es
same-IsSavedDirectory id es d d' v y = untouched-IsSavedDirectory id es d d' v y.inode y.content
