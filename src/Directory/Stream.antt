-- ===== src/Directory/Stream.antt =====
-- The stream operators of `DirEntry` of src/fs/vsfs.cpp. The disk has one position for both; it is
-- passed and returned.
pub mod RoundTrip
use very_simple_file_system.Base.{
  ℕ, ◌+◌, ◌^◌, [], ◌∷◌, ◌++◌, ◌==◌, ltb, leb, if◌then◌else◌, length, take,
}
use very_simple_file_system.Run.{Cmd, uninitialised, negative, pure, fail, ◌>>=◌, ◌>>◌}
use very_simple_file_system.Layout.{minus_one, sizeof_int}
use very_simple_file_system.Disk.{Disk, dwrite, dread, int_bytes, int_of}
use very_simple_file_system.Table.{c_str}
use very_simple_file_system.Directory.{DirEntry}

-- `fs << en` at the position `p`: the NUL of the name may be written, and what lies behind it is
-- not the name's.
unfoldable pub put_entry : DirEntry → ℕ → Cmd Disk ℕ
put_entry en p = do
  dwrite p (int_bytes en.node_index)
  dwrite (p + sizeof_int) (int_bytes en.nlen)
  if leb en.nlen (length en.name + 1) then pure tt else fail uninitialised
  dwrite (p + sizeof_int + sizeof_int) (take en.nlen (en.name ++ (0 ∷ [])))
  pure (p + sizeof_int + sizeof_int + en.nlen)

-- `fs >> en` at the position `p`. The name of a deleted entry is skipped, and `en` keeps the old one.
unfoldable pub get_entry : DirEntry → ℕ → Cmd Disk (ℕ × DirEntry)
get_entry en p = do
  index ← dread p sizeof_int
  len ← dread (p + sizeof_int) sizeof_int
  let node_index = int_of index
  let nlen = int_of len
  let end = p + sizeof_int + sizeof_int + nlen
  if node_index == minus_one
      then pure (end, record en { node_index = node_index; nlen = nlen })
      else (do
        if ltb nlen (2 ^ 31) then pure tt else fail negative
        name ← dread (p + sizeof_int + sizeof_int) nlen
        pure (end, record { node_index = node_index; nlen = nlen; name = c_str name }))
