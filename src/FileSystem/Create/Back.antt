-- ===== src/FileSystem/Create/Back.antt =====
-- `mkdir` makes a directory that `cd` enters and leaves again.
use very_simple_file_system.Directory.Entries.{EndsNamed-last}
use very_simple_file_system.Base.{
  ℕ, ◌<◌, ◌≡◌, refl, ap, sym, subst, ◌∙◌, List, [], ◌∷◌, ◌++◌, append-nil, none, some, codes, arith,
  length,
}
use very_simple_file_system.Run.{Returns, ok}
use very_simple_file_system.Disk.{Bytes}
use very_simple_file_system.Path.{slash_count}
use very_simple_file_system.Path.Words.{path_of}
use very_simple_file_system.Table.{text_eq}
use very_simple_file_system.Table.Lookup.{text_eq_refl}
use very_simple_file_system.File.Sound.{IsSound}
use very_simple_file_system.Directory.{DirEntry}
use very_simple_file_system.Directory.Add.{entry_of}
use very_simple_file_system.Directory.Load.{live_count, table_of}
use very_simple_file_system.Directory.Saved.{IsSavedDirectory, live_count-last}
use very_simple_file_system.Directory.Lookup.{first_live, first_live-last}
use very_simple_file_system.FileSystem.State.{FileSystem, cd}
use very_simple_file_system.FileSystem.Walk.{Walk, arrived, into, from_cwd, at_dir, cd-walks}
use very_simple_file_system.FileSystem.Create.{mkdir}
use very_simple_file_system.FileSystem.Create.Dir.{new_entries}
use very_simple_file_system.FileSystem.Create.Mkdir.{CanMakeDir, IsDirMade, mkdir-IsDirMade}

module _ (name : Bytes) (es : List DirEntry) (s : FileSystem) (v : CanMakeDir name es s) (i : ℕ)
    (t : FileSystem) (y : IsDirMade name es s i t) where
  abbrev all : List DirEntry
  all = es ++ (entry_of i name ∷ [])

  same_cwd : t.cwd ≡ s.cwd
  same_cwd = ap (λ (u : FileSystem). u.cwd) y.kept

  named : first_live name es ≡ none → first_live name all ≡ some i
  named fresh =
      first_live-last name (entry_of i name) es (ground (arith, y.taken.0))
      ∙ rw (fresh, text_eq_refl name) refl

  parent : first_live (codes "..") (new_entries i s.cwd) ≡ some s.cwd
  unfolding first_live text_eq
  parent = ground (arith, y.taken.0, v.cwd_taken.0)

  two : live_count (new_entries i s.cwd) ≡ 2
  unfolding live_count
  two = ground (arith, y.taken.0, v.cwd_taken.0)

  some_left : 0 < live_count all
  some_left = omega (arith, live_count-last (entry_of i name) es (omega (arith, y.taken.0)))

  pub inside : first_live name es ≡ none → Walk t.disk t.cwd all (name ∷ []) i (new_entries i s.cwd)
  inside fresh = into (named fresh) y.child (omega (arith, two)) (omega arith) arrived

  outside :
      0 < length name
      → first_live name es ≡ none
      → Walk t.disk t.cwd all (name ∷ codes ".." ∷ []) s.cwd all
  outside pos fresh =
      into (named fresh) y.child (omega (arith, two)) (omega arith)
        (into parent y.directory some_left (EndsNamed-last es (entry_of i name) pos) arrived)

  back : at_dir s.cwd all t ≡ t
  back =
      ap (λ c. record t { cwd = c; cwd_table = table_of all [] }) (sym same_cwd)
      ∙ ap (λ m. record t { cwd_table = m }) (sym y.table)

  entered :
      0 < length name
      → slash_count name ≡ 0
      → first_live name es ≡ none
      → (cd name t ≡ ok 0 (at_dir i (new_entries i s.cwd) t))
        × (cd (name ++ codes "/..") t ≡ ok 0 t)
  unfolding path_of
  entered pos plain fresh = (
    subst (λ p. cd p t ≡ ok 0 (at_dir i (new_entries i s.cwd) t)) (append-nil name)
        (cd-walks t.cwd i all (new_entries i s.cwd) (name ∷ []) (name ++ []) t (from_cwd y.table)
          (pos, plain, tt) (inside fresh)),
    cd-walks t.cwd s.cwd all all (name ∷ codes ".." ∷ []) (name ++ codes "/..") t (from_cwd y.table)
          (pos, plain, (omega arith, unfold slash_count in refl, tt)) (outside pos fresh)
        ∙ ap (ok 0) back,
  )

-- Under the conditions of `mkdir` of a plain name on a sound disk (CanMakeDir), for a name that is
-- not empty, has no slash and that no entry of the working directory has but deleted ones: `mkdir`
-- ends without a fault. After it some inode is a directory with the entries `.` for itself and
-- `..` for the old working directory, `cd` of the name returns 0 and changes the working directory
-- to it and the table to that of these entries and nothing else, and `cd` of the name with `/..`
-- behind it returns 0 and changes nothing at all.
pub cd-mkdir :
    (name : Bytes) (es : List DirEntry) (s : FileSystem)
    → IsSound s.disk
    → CanMakeDir name es s
    → 0 < length name
    → slash_count name ≡ 0
    → first_live name es ≡ none
    → Returns
        (λ _ t.
          (i : ℕ) × IsSavedDirectory i t.disk (new_entries i s.cwd)
          × (cd name t ≡ ok 0 (at_dir i (new_entries i s.cwd) t))
          × (cd (name ++ codes "/..") t ≡ ok 0 t))
        (mkdir name s)
cd-mkdir name es s w v pos plain fresh =
    let (r, t, e, (q, (i, y))) = mkdir-IsDirMade name es s w v in
    let (enter, leave) = entered name es s v i t y pos plain fresh in
    (r, t, e, (i, y.child, enter, leave))
