-- ===== src/Directory/Add.antt =====
-- `addEntryToDir` appends one entry to a directory.
use very_simple_file_system.Base.{ℕ, ◌+◌, ◌^◌, ◌≤◌, ◌<◌, ◌≡◌, ◌≢◌, refl, List, arith, length}
use very_simple_file_system.Run.{Returns, ok}
use very_simple_file_system.Layout.{minus_one, add32, cap_1}
use very_simple_file_system.Disk.{Bytes, Disk, int_bytes, get_int_at, put_int_at}
use very_simple_file_system.Inode.{Inode, read_inode, write_inode}
use very_simple_file_system.Inode.Codec.{inode_at, read_inode-ok, stored, write_inode-ok}
use very_simple_file_system.File.{write_file}
use very_simple_file_system.File.Stored.{IsStored}
use very_simple_file_system.File.Append.{EnoughBlocks}
use very_simple_file_system.File.RoundTrip.{sized}
use very_simple_file_system.File.Longer.{
  IsLonger, write_file-IsLonger, IsLonger-EnoughBlocks, IsLonger-trans,
}
use very_simple_file_system.Table.{c_str}
use very_simple_file_system.Directory.{DirEntry, add_entry_to_dir}
use very_simple_file_system.Directory.Entries.{IsEntry, entry_bytes}
use very_simple_file_system.Directory.Load.{live_count}
use very_simple_file_system.Directory.Saved.{IsSavedDirectory}
use very_simple_file_system.Directory.Counter.{
  IsEntryAdded, m-IsInode, get_counter, put_counter, last, last-IsEntryAdded,
}

-- The entry that `addEntryToDir` writes.
abbrev pub entry_of : ℕ → Bytes → DirEntry
entry_of f_id filename = record { node_index = f_id; nlen = length filename; name = filename }

pub entry_of-IsEntry :
    (i : ℕ) (name : Bytes)
    → i < 2 ^ 32
    → length name < 2 ^ 31
    → c_str name ≡ name
    → IsEntry (entry_of i name)
entry_of-IsEntry i name h l e = record { index_lt = h; nlen_eq = refl; nlen_lt = l; text = e }

-- The calls of `addEntryToDir` one after the other.
add_entry_to_dir_calls :
    (f_id : ℕ) (filename : Bytes) (id : ℕ) (d : Disk) (node n1 n2 n3 : Inode)
    (d1 d2 d3 d4 d5 : Disk) (c : ℕ)
    → read_inode id d ≡ ok node d
    → write_file node node.size (int_bytes f_id) d ≡ ok n1 d1
    → write_file (sized n1 (n1.size + 4)) (n1.size + 4) (int_bytes (length filename)) d1 ≡ ok n2 d2
    → write_file (sized n2 (n2.size + 4)) (n2.size + 4) filename d2 ≡ ok n3 d3
    → write_inode id (sized n3 (n3.size + length filename)) d3 ≡ ok tt d4
    → get_int_at n3.addr_0 d4 ≡ ok c d4
    → put_int_at n3.addr_0 (add32 c 1) d4 ≡ ok tt d5
    → add_entry_to_dir f_id filename id d ≡ ok tt d5
unfolding add_entry_to_dir
add_entry_to_dir_calls f_id filename id d node n1 n2 n3 d1 d2 d3 d4 d5 c r w1 w2 w3 s g p =
    rw (r, w1, w2, w3, s, g, p) refl

-- The three writes of an entry at the end of the file `node`.
record IsEntryWritten (f_id : ℕ) (filename : Bytes) (node n1 n2 n3 : Inode) (d d1 d2 d3 : Disk)
    : Type 0 where
  run1 : write_file node node.size (int_bytes f_id) d ≡ ok n1 d1
  run2 :
      write_file (sized n1 (n1.size + 4)) (n1.size + 4) (int_bytes (length filename)) d1 ≡ ok n2 d2
  run3 : write_file (sized n2 (n2.size + 4)) (n2.size + 4) filename d2 ≡ ok n3 d3
  longer :
      IsLonger node
        (entry_bytes (entry_of f_id filename))
        d
        (sized n3 (n3.size + length filename))
        d3

writes-IsEntryWritten :
    (f_id : ℕ) (filename : Bytes) (node : Inode) (d : Disk)
    → IsStored node d
    → node.size ≤ node.capacity
    → node.size + 8 + length filename < cap_1
    → EnoughBlocks node (node.size + 8 + length filename) d
    → (n1 n2 n3 : Inode) × (d1 d2 d3 : Disk) × IsEntryWritten f_id filename node n1 n2 n3 d d1 d2 d3
unfolding entry_bytes
writes-IsEntryWritten f_id filename node d v s small en =
    let (n1, d1, run1, x1) =
      write_file-IsLonger node (int_bytes f_id) d v s (omega arith) (omega arith) in
    let m1 = sized n1 (n1.size + 4) in
    let en1 = IsLonger-EnoughBlocks node (int_bytes f_id) d m1 d1 _ x1 en in
    let (n2, d2, run2, x2) =
      write_file-IsLonger m1 (int_bytes (length filename)) d1 x1.stored x1.size_le
        (omega (arith, x1.size)) (omega (arith, x1.size, en1)) in
    let m2 = sized n2 (n2.size + 4) in
    let en2 = IsLonger-EnoughBlocks m1 (int_bytes (length filename)) d1 m2 d2 _ x2 en1 in
    let (n3, d3, run3, x3) =
      write_file-IsLonger m2 filename d2 x2.stored x2.size_le (omega (arith, x1.size, x2.size))
        (omega (arith, x1.size, x2.size, en2)) in
    let m3 = sized n3 (n3.size + length filename) in
    (
      n1,
      n2,
      n3,
      d1,
      d2,
      d3,
      record {
        run1 = run1;
        run2 = run2;
        run3 = run3;
        longer =
            IsLonger-trans node (int_bytes f_id) d m1 d1 _ m3 d3 x1
              (IsLonger-trans m1 (int_bytes (length filename)) d1 m2 d2 filename m3 d3 x2 x3);
      },
    )

-- The end of the command after them.
ended :
    (f_id : ℕ) (filename : Bytes) (id : ℕ) (d : Disk) (es : List DirEntry)
    → IsSavedDirectory id d es
    → IsEntry (entry_of f_id filename)
    → f_id ≢ minus_one
    → (n1 n2 n3 : Inode) (d1 d2 d3 : Disk)
    → IsEntryWritten f_id filename (inode_at id d) n1 n2 n3 d d1 d2 d3
    → Returns
        (λ _ d'. IsEntryAdded id (entry_of f_id filename) es d d')
        (add_entry_to_dir f_id filename id d)
ended f_id filename id d es v w live n1 n2 n3 d1 d2 d3 y =
    let m = sized n3 (n3.size + length filename) in
    let e = entry_of f_id filename in
    (
      tt,
      last id e es d m d3 v w y.longer live,
      add_entry_to_dir_calls f_id filename id d (inode_at id d) n1 n2 n3 d1 d2 d3 (stored id m d3)
          (last id e es d m d3 v w y.longer live) (live_count es)
          (read_inode-ok id d v.directory.id_lt) y.run1 y.run2 y.run3
          (write_inode-ok id m d3 v.directory.id_lt (m-IsInode id e es d m d3 v w y.longer live))
          (get_counter id e es d m d3 v w y.longer live)
          (put_counter id e es d m d3 v w y.longer live),
      last-IsEntryAdded id e es d m d3 v w y.longer live,
    )

-- For a directory whose inode is on the disk and whose blocks are taken, a name of less than 2^31
-- bytes with no NUL, an id other than -1, a resulting size below the largest file size and enough
-- free data blocks, `addEntryToDir` ends without a fault. Then the inode is such a directory with
-- the same entries and the new one behind them; its type and first block are the same, its size
-- grew by the entry, every other inode is unchanged, addresses foreign to the directory keep their
-- byte outside the inode region and stay foreign, no data block loses its mark, and as many free
-- blocks are gone as the directory got.
pub add_entry_to_dir-IsEntryAdded :
    (f_id : ℕ) (filename : Bytes) (id : ℕ) (d : Disk) (es : List DirEntry)
    → IsSavedDirectory id d es
    → IsEntry (entry_of f_id filename)
    → f_id ≢ minus_one
    → (inode_at id d).size + 8 + length filename < cap_1
    → EnoughBlocks (inode_at id d) ((inode_at id d).size + 8 + length filename) d
    → Returns
        (λ _ d'. IsEntryAdded id (entry_of f_id filename) es d d')
        (add_entry_to_dir f_id filename id d)
add_entry_to_dir-IsEntryAdded f_id filename id d es v w live small en =
    let (n1, n2, n3, d1, d2, d3, y) =
      writes-IsEntryWritten f_id filename (inode_at id d) d v.stored v.directory.size_le small en in
    ended f_id filename id d es v w live n1 n2 n3 d1 d2 d3 y
