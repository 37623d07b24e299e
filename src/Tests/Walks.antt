-- ===== src/Tests/Walks.antt =====
-- Paths that `cd` follows, to their end and to a word that is not there.
use very_simple_file_system.FileSystem.Descriptor.Failure.{open_file-strands}
use very_simple_file_system.FileSystem.Descriptor.{open_file}
use very_simple_file_system.Base.{
  ℕ, ◌<◌, ◌≡◌, refl, ap, sym, subst, [], ◌∷◌, ◌++◌, codes, arith, none,
}
use very_simple_file_system.Run.{Returns, ok}
use very_simple_file_system.Layout.{minus_one}
use very_simple_file_system.Table.{text_eq}
use very_simple_file_system.Path.{slash_count, parse_path, cut_at}
use very_simple_file_system.Path.Words.{path_of}
use very_simple_file_system.Directory.Add.{entry_of}
use very_simple_file_system.Directory.Load.{live_count}
use very_simple_file_system.Directory.Lookup.{first_live}
use very_simple_file_system.Directory.Saved.{IsSavedDirectory}
use very_simple_file_system.FileSystem.State.{FileSystem, cd, endl}
use very_simple_file_system.FileSystem.Walk.{
  Walk, arrived, into, Departs, from_root, from_cwd, at_dir, cd-walks, cd-stops,
}
use very_simple_file_system.FileSystem.Create.{mkdir}
use very_simple_file_system.FileSystem.Create.Dir.{new_entries}
use very_simple_file_system.FileSystem.Create.Back.{inside, cd-mkdir}
use very_simple_file_system.Tests.Systems.{foo, formatted}
use very_simple_file_system.Tests.Removal.{root, root-CanMakeDir, after, child, made}

root_is : root.root ≡ 0
root_is = ap (λ (u : FileSystem). u.root) formatted.3.kept

two : 0 < live_count (new_entries 0 0)
unfolding live_count
two = omega arith

departs : Departs root 0 (new_entries 0 0) (codes "." ∷ codes ".." ∷ []) (codes "/./..")
unfolding path_of
departs =
    subst (λ k. Departs root k (new_entries 0 0) (codes "." ∷ codes ".." ∷ []) (codes "/./.."))
      root_is
      (from_root
        (subst (λ k. IsSavedDirectory k root.disk (new_entries 0 0)) (sym root_is)
          formatted.3.saved)
        two (omega arith))

walk : Walk root.disk 0 (new_entries 0 0) (codes "." ∷ codes ".." ∷ []) 0 (new_entries 0 0)
unfolding first_live text_eq
walk =
    into refl formatted.3.saved two (omega arith)
      (into refl formatted.3.saved two (omega arith) arrived)

cd-walks_example : cd (codes "/./..") root ≡ ok 0 (at_dir 0 (new_entries 0 0) root)
cd-walks_example =
    cd-walks 0 0 (new_entries 0 0) (new_entries 0 0) (codes "." ∷ codes ".." ∷ []) (codes "/./..")
      root departs
      (omega arith, unfold slash_count in refl, (omega arith, unfold slash_count in refl, tt)) walk

not_there : first_live foo (new_entries 0 0) ≡ none
unfolding first_live text_eq
not_there = refl

no_bar : first_live (codes "bar") (new_entries child root.cwd) ≡ none
unfolding first_live text_eq
no_bar = ground (arith, made.taken.0, root-CanMakeDir.cwd_taken.0)

-- The new directory is entered, and the next word is not in it.
cd-stops_example :
    cd (codes "foo/bar/x") after
    ≡ ok minus_one (record (at_dir child (new_entries child root.cwd) after) {
      cout = after.cout ++ (codes "error: file " ++ (codes "bar" ++ (codes " not found." ++ endl)));
    })
unfolding path_of
cd-stops_example =
    cd-stops after.cwd child (new_entries 0 0 ++ (entry_of child foo ∷ []))
      (new_entries child root.cwd) (foo ∷ []) (codes "bar") (codes "x" ∷ []) (codes "foo/bar/x")
      after (from_cwd made.table)
      (
        omega arith,
        unfold slash_count in refl,
        (omega arith, unfold slash_count in refl, (omega arith, unfold slash_count in refl, tt)),
      )
      (inside foo (new_entries 0 0) root root-CanMakeDir child after made not_there) no_bar

cd-mkdir_example :
    Returns
      (λ _ t.
        (i : ℕ) × IsSavedDirectory i t.disk (new_entries i root.cwd)
        × (cd foo t ≡ ok 0 (at_dir i (new_entries i root.cwd) t))
        × (cd (foo ++ codes "/..") t ≡ ok 0 t))
      (mkdir foo root)
cd-mkdir_example =
    cd-mkdir foo (new_entries 0 0) root formatted.3.sound root-CanMakeDir (omega arith)
      (unfold slash_count in refl) not_there

-- A file that is not there, behind a path of directories.
open_file-strands_example :
    open_file (codes "/./../x") (codes "r") root
    ≡ ok minus_one (record (at_dir 0 (new_entries 0 0) root) {
      cout = root.cout ++ (codes "file not existed." ++ endl);
    })
open_file-strands_example =
    open_file-strands 0 0 (new_entries 0 0) (new_entries 0 0) (codes "." ∷ codes ".." ∷ [])
      (codes "/./../x") (codes "/./..") (codes "x") root
      (unfold parse_path slash_count cut_at in refl) departs
      (omega arith, unfold slash_count in refl, (omega arith, unfold slash_count in refl, tt)) walk
      (unfold first_live text_eq in refl)
