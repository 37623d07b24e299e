-- ===== src/Tests/Transfers.antt =====
-- A file of the host that is brought in, shown, and given back.
use very_simple_file_system.Base.{
  ℕ, ◌+◌, ◌<◌, ◌≡◌, refl, ap, sym, subst, [], ◌∷◌, ◌++◌, some, none, false, if◌then◌else◌, codes,
  arith,
}
use very_simple_file_system.Run.{Returns, ◌>>◌}
use very_simple_file_system.Layout.{minus_one}
use very_simple_file_system.Disk.{Bytes}
use very_simple_file_system.Inode.Codec.{inode_at}
use very_simple_file_system.Table.{text_eq}
use very_simple_file_system.Directory.Lookup.{first_live}
use very_simple_file_system.FileSystem.State.{FileSystem, endl}
use very_simple_file_system.FileSystem.Create.{mkfs}
use very_simple_file_system.FileSystem.Create.Dir.{new_entries}
use very_simple_file_system.FileSystem.Create.Mkfs.{IsFormatted, mkfs-IsFormatted}
use very_simple_file_system.FileSystem.Descriptor.{fd_find}
use very_simple_file_system.FileSystem.Content.{cat, import, export}
use very_simple_file_system.FileSystem.Content.Import.{
  CanImport, IsImported, import-IsImported, import-missing,
}
use very_simple_file_system.Directory.Add.{entry_of}
use very_simple_file_system.Directory.Saved.{IsSavedDirectory}
use very_simple_file_system.FileSystem.Content.Transfer.{cat-import, export-import}
use very_simple_file_system.FileSystem.SelfTest.Level1.{IsStart, root-CanOpen}
use very_simple_file_system.Tests.Systems.{start, foo, foo-IsPlain}

-- The host has the file `h`.
abbrev given : FileSystem
given = record start {
  host = λ path. if text_eq path (codes "h") then some (codes "text") else none;
}

given-IsStart : IsStart given
given-IsStart = record { date = refl; fd_cnt = refl; fd_map = refl }

fresh : Returns (IsFormatted given) (mkfs given)
fresh = mkfs-IsFormatted given refl

abbrev root : FileSystem
root = fresh.1

root-CanImport : CanImport foo (codes "text") (new_entries 0 0) root
root-CanImport =
    let y = fresh.3 in
    record {
      opens = root-CanOpen given given-IsStart foo foo-IsPlain fresh.0 fresh.1 y;
      not_empty = omega arith;
      small = omega arith;
      entry_fits =
          subst (λ k. (inode_at k root.disk).size + 8 + 3 < (inode_at k root.disk).capacity)
            (sym y.cwd) (omega (arith, y.size, y.saved.stored.file.at_least));
      blocks_left = omega (arith, y.budget, y.saved.stored.file.at_most);
    }

host_has : root.host (codes "h") ≡ some (codes "text")
unfolding text_eq
host_has = ap (λ (u : FileSystem). u.host (codes "h")) fresh.3.kept

first_fd : root.fd_cnt ≡ minus_one
first_fd = ap (λ (u : FileSystem). u.fd_cnt) fresh.3.kept

dot : first_live (codes ".") (new_entries 0 0) ≡ some root.cwd
unfolding first_live text_eq
dot = ap some (sym fresh.3.cwd)

import-IsImported_example :
    Returns
      (λ _ t. (i : ℕ) × IsImported foo (codes "text") (new_entries 0 0) root i t)
      (import (codes "h") foo root)
import-IsImported_example =
    import-IsImported (codes "h") foo (codes "text") (new_entries 0 0) root fresh.3.sound
      root-CanImport host_has

cat-import_example :
    Returns
      (λ code t. (code ≡ 0) × ((before : Bytes) × (t.cout ≡ before ++ (codes "text" ++ endl))))
      ((import (codes "h") foo >> cat foo) root)
cat-import_example =
    cat-import (codes "h") foo (codes "text") (new_entries 0 0) root fresh.3.sound root-CanImport
      host_has

export-import_example :
    Returns
      (λ _ t.
        (t.host (codes "out") ≡ some (codes "text"))
        × ((path : Bytes) → text_eq path (codes "out") ≡ false → t.host path ≡ root.host path)
        × ((fd : ℕ) → fd_find fd t.fd_map ≡ fd_find fd root.fd_map)
        × (t.cwd ≡ root.cwd))
      ((import (codes "h") foo >> export foo (codes "out")) root)
export-import_example =
    export-import (codes "h") foo (codes "out") (codes "text") (new_entries 0 0) root fresh.3.sound
      root-CanImport host_has dot (omega (arith, first_fd))

import-missing_example :
    Returns
      (λ _ t.
        (i : ℕ) × IsSavedDirectory root.cwd t.disk (new_entries 0 0 ++ (entry_of i foo ∷ []))
        × ((inode_at i t.disk).size ≡ 0)
        × (fd_find t.fd_cnt root.fd_map ≡ none)
        × (fd_find t.fd_cnt t.fd_map ≡ some (record { i_id = i; offset = 0 })))
      (import (codes "g") foo root)
unfolding text_eq
import-missing_example =
    import-missing (codes "g") foo (new_entries 0 0) root root-CanImport.opens
      (ap (λ (u : FileSystem). u.host (codes "g")) fresh.3.kept)
