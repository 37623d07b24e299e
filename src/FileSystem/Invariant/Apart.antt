-- ===== src/FileSystem/Invariant/Apart.antt =====
-- In a system that keeps the invariant, a write through one descriptor leaves every other file alone.
use very_simple_file_system.Base.{ℕ, ◌≡◌, ◌≢◌, some}
use very_simple_file_system.Run.{Returns}
use very_simple_file_system.Disk.{Bytes}
use very_simple_file_system.Inode.Codec.{inode_at}
use very_simple_file_system.File.Isolation.{IsUntouched}
use very_simple_file_system.File.Sound.{Live}
use very_simple_file_system.File.Sound.Change.{still-Live, others-IsUntouched, same_inode}
use very_simple_file_system.FileSystem.State.{FileSystem, OpenFile}
use very_simple_file_system.FileSystem.Descriptor.{fd_find}
use very_simple_file_system.FileSystem.Content.{write_}
use very_simple_file_system.FileSystem.Content.Write.{write_-IsWriteOf}
use very_simple_file_system.FileSystem.Invariant.{IsSystem, CanWrite}

-- The file `j` is the same in both states.
pub record IsKept (j : ℕ) (s t : FileSystem) : Type 0 where
  pub live : Live j t.disk
  pub inode : inode_at j t.disk ≡ inode_at j s.disk
  pub content : IsUntouched (inode_at j s.disk) s.disk t.disk

-- In a system that keeps the invariant, `write_` on a descriptor in use of a text that ends below
-- the largest file size, with enough free blocks, ends without a fault, and every other inode that
-- is marked as taken is still so, is the same inode, and has the same block addresses, the same
-- bytes and is stored as before.
pub write_-IsKept :
    (s : FileSystem) (fd : ℕ) (f : OpenFile) (str : Bytes) (j : ℕ)
    → IsSystem s
    → fd_find fd s.fd_map ≡ some f
    → CanWrite fd str s
    → Live j s.disk
    → f.i_id ≢ j
    → Returns (λ r t. IsKept j s t) (write_ fd str s)
write_-IsKept s fd f str j v known can m ne =
    let l = (v.plain fd f known).0 in
    let (small, enough) = can f known in
    let (r, t, run, w) = write_-IsWriteOf s fd f str known (v.sound.file f.i_id l) small enough in
    (
      r,
      t,
      run,
      record {
        live = still-Live s.disk v.sound f.i_id l t.disk w.change j m;
        inode = same_inode s.disk v.sound f.i_id l t.disk w.change j m ne;
        content = others-IsUntouched s.disk v.sound f.i_id l t.disk w.change j m ne;
      },
    )
