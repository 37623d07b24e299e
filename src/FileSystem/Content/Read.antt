-- ===== src/FileSystem/Content/Read.antt =====
-- `read` on an open file, and what it prints after `write_` and `seek`.
use very_simple_file_system.Inode.{Inode}
use very_simple_file_system.File.{read_fuel}
use very_simple_file_system.Base.{
  ℕ, ◌+◌, ◌^◌, ◌≤◌, ◌<◌, ◌≡◌, ap, ◌∙◌, ◌++◌, some, none, inr, arith, length, lt→ltb, lt→not_leb,
  lt-cases, le→leb, inl, false, ◌%◌, ◌-◌, zero, suc, refl,
}
use very_simple_file_system.Run.{Returns, ok, ◌>>◌}
use very_simple_file_system.Layout.{add32, cap_1, dsize, get_block_inner_offset}
use very_simple_file_system.Disk.{Bytes, fetch, patch}
use very_simple_file_system.Disk.Bytes.{length-fetch, fetch_congr, fetch-patch_self}
use very_simple_file_system.Table.{c_str}
use very_simple_file_system.Inode.Codec.{inode_at, read_inode-ok}
use very_simple_file_system.File.Blocks.{file_bytes}
use very_simple_file_system.File.Read.{read_file-inside}
use very_simple_file_system.File.Append.{EnoughBlocks}
use very_simple_file_system.FileSystem.State.{OpenFile, FileSystem, endl}
use very_simple_file_system.FileSystem.Descriptor.{fd_find, fd_set_offset, seek}
use very_simple_file_system.FileSystem.Descriptor.Laws.{fd_find-set_offset}
use very_simple_file_system.FileSystem.Content.{write_, read, print_buffer, reads_at_end, tell_end}
use very_simple_file_system.File.Sound.{IsOpenFile}
use very_simple_file_system.FileSystem.Content.Write.{IsWriteOf, write_-IsWriteOf}

-- A full buffer is printed up to its first NUL.
print_buffer_full :
    (len : ℕ) (buffer : Bytes) (s : FileSystem)
    → length buffer ≡ len
    → print_buffer len buffer s ≡ ok tt (record s { cout = s.cout ++ (c_str buffer ++ endl) })
unfolding print_buffer
print_buffer_full len buffer s h = ground arith

-- A read inside the size prints no message.
reads_at_end-inside :
    (fuel : ℕ) (node : Inode) (off len : ℕ)
    → node.size < 2 ^ 31
    → off < node.size
    → off + len ≤ node.size
    → reads_at_end fuel node off len ≡ false
unfolding reads_at_end get_block_inner_offset
reads_at_end-inside zero node off len l h e = refl
reads_at_end-inside (suc fuel) node off len l h e =
    rw (lt→not_leb node.size off h, lt→not_leb (2 ^ 31) node.size l)
      (elim (lt-cases dsize (off % dsize + len)) [
        | inr fits ↦ rw (le→leb (off % dsize + len) dsize fits) refl
        | inl more ↦ rw (lt→not_leb (off % dsize + len) dsize more) (
            reads_at_end-inside fuel node (off + (dsize - off % dsize))
              (len - (dsize - off % dsize)) l (omega arith) (omega arith))
      ])

pub tell_end-inside :
    (node : Inode) (off len : ℕ) (s : FileSystem)
    → node.size < 2 ^ 31
    → off < node.size
    → off + len ≤ node.size
    → tell_end node off len s ≡ ok tt s
unfolding tell_end
tell_end-inside node off len s l h e =
    rw (reads_at_end-inside (read_fuel off len) node off len l h e) refl

-- The bytes of an open file that a read is about.
abbrev pub wanted : FileSystem → OpenFile → ℕ → Bytes
wanted s f len = fetch f.offset len (file_bytes (inode_at f.i_id s.disk) s.disk)

module _ (s : FileSystem) (fd : ℕ) (f : OpenFile) (len : ℕ) (known : fd_find fd s.fd_map ≡ some f)
    (v : IsOpenFile s.disk f.i_id) (start : f.offset < (inode_at f.i_id s.disk).size)
    (inside : f.offset + len ≤ (inode_at f.i_id s.disk).size) where
  -- A read inside the size prints these bytes, moves the position behind them, and changes nothing
  -- else.
  pub read_inside :
      read fd len s
      ≡ ok none (record s {
        cout = s.cout ++ (c_str (wanted s f len) ++ endl);
        fd_map = fd_set_offset fd (add32 f.offset len) s.fd_map;
      })
  unfolding read
  read_inside =
      let node = inode_at f.i_id s.disk in
      let off_lt : f.offset < 2 ^ 31 = omega (arith, v.stored.file.at_most, v.size_le) in
      let len_lt : len < 2 ^ 31 = omega (arith, v.stored.file.at_most, v.size_le) in
      rw (
        known,
        lt→ltb f.offset (2 ^ 31) off_lt,
        lt→ltb len (2 ^ 31) len_lt,
        read_inode-ok f.i_id s.disk v.id_lt,
        tell_end-inside node f.offset len s (omega (arith, v.stored.file.at_most, v.size_le)) start
            inside,
        read_file-inside node s.disk v.stored.file f.offset len v.size_le start inside,
        print_buffer_full len (wanted s f len) s (length-fetch f.offset len _),
      )

-- The state after `seek` back to where the write began.
abbrev back : ℕ → OpenFile → FileSystem → FileSystem
back fd f t = record t { fd_map = fd_set_offset fd f.offset t.fd_map }

module _ (s : FileSystem) (fd : ℕ) (f : OpenFile) (str : Bytes) (t : FileSystem)
    (w : IsWriteOf s fd f str t) where
  seek-back : seek fd f.offset t ≡ ok 0 (back fd f t)
  unfolding seek
  seek-back = ground (arith, w.position)

  back-IsOpenFile : IsOpenFile (back fd f t).disk f.i_id
  back-IsOpenFile = w.change.file

  fd_find-back : fd_find fd (back fd f t).fd_map ≡ some f
  fd_find-back = ground (arith, w.position, fd_find-set_offset fd fd f.offset t.fd_map)

  -- The text lies inside the new size.
  reaches : f.offset + length str ≤ (inode_at f.i_id t.disk).size
  reaches = ground (arith, w.size)

  pub wanted-str :
      0 < length str
      → fetch f.offset (length str) (file_bytes (inode_at f.i_id t.disk) t.disk) ≡ str
  wanted-str pos =
      fetch_congr f.offset (length str) _
        (patch f.offset str (file_bytes (inode_at f.i_id s.disk) s.disk))
        (λ i l. w.content (f.offset + i) (inr (omega arith, omega arith)))
      ∙ fetch-patch_self f.offset str _

-- For a descriptor of an open file (its inode readable, its blocks marked as taken, its size
-- inside its capacity), a text that is not empty, that ends below the largest file size, and
-- enough free data blocks: `write_` of the text, `seek` back to the old position and `read` of as
-- many bytes end without a fault, and print the text up to its first NUL and a line end behind
-- what was printed before.
pub read-seek-write_ :
    (s : FileSystem) (fd : ℕ) (f : OpenFile) (str : Bytes)
    → fd_find fd s.fd_map ≡ some f
    → IsOpenFile s.disk f.i_id
    → 0 < length str
    → f.offset + length str < cap_1
    → EnoughBlocks (inode_at f.i_id s.disk) (f.offset + length str) s.disk
    → Returns
        (λ r t. t.cout ≡ s.cout ++ (c_str str ++ endl))
        ((write_ fd str >> (seek fd f.offset >> read fd (length str))) s)
read-seek-write_ s fd f str known v pos small enough =
    let (r, t, run, w) = write_-IsWriteOf s fd f str known v small enough in
    let bytes = wanted-str s fd f str t w pos in
    let shown =
      read_inside (back fd f t) fd f (length str) (fd_find-back s fd f str t w)
        (back-IsOpenFile s fd f str t w) (omega (arith, reaches s fd f str t w))
        (reaches s fd f str t w) in
    (
      none,
      record t {
        cout = t.cout ++ (c_str (wanted (back fd f t) f (length str)) ++ endl);
        fd_map = fd_set_offset fd (add32 f.offset (length str)) (back fd f t).fd_map;
      },
      rw (run, seek-back s fd f str t w) shown,
      rw bytes (ap (λ (u : FileSystem). u.cout ++ (c_str str ++ endl)) w.kept),
    )
