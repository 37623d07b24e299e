-- ===== src/Tests/Removal.antt =====
-- Directories that are made, removed and not removed, and files that are opened again.
use very_simple_file_system.Base.{
  ℕ, ◌<◌, ◌≡◌, refl, ap, [], ◌∷◌, ◌++◌, none, inl, inr, sym, subst, ◌∙◌, arith, codes,
}
use very_simple_file_system.Run.{Returns, ok}
use very_simple_file_system.Layout.{minus_one}
use very_simple_file_system.Disk.{int_at}
use very_simple_file_system.Bitmap.Count.{free_blocks_of, free_inodes_of}
use very_simple_file_system.Inode.Codec.{inode_at}
use very_simple_file_system.File.Sound.{Live, IsSound}
use very_simple_file_system.File.Sound.Marked.{IsMarked}
use very_simple_file_system.Table.{find, insert, text_eq}
use very_simple_file_system.Path.{parse_path, slash_count, cut_at, format_relative_path}
use very_simple_file_system.Directory.Add.{entry_of}
use very_simple_file_system.Directory.Load.{live_count, table_of}
use very_simple_file_system.Directory.Lookup.{first_live}
use very_simple_file_system.Directory.Removed.{gone}
use very_simple_file_system.Directory.Saved.{IsSavedDirectory}
use very_simple_file_system.FileSystem.State.{FileSystem}
use very_simple_file_system.FileSystem.Create.{mkdir}
use very_simple_file_system.FileSystem.Create.Dir.{new_entries}
use very_simple_file_system.FileSystem.Create.Mkdir.{CanMakeDir, IsDirMade, mkdir-IsDirMade}
use very_simple_file_system.FileSystem.Descriptor.{open_file}
use very_simple_file_system.FileSystem.Descriptor.Existing.{
  HasName, IsReopened, open_file-IsReopened,
}
use very_simple_file_system.FileSystem.Remove.{free_file, rm, rmdir}
use very_simple_file_system.FileSystem.Remove.Free.{free_file-frees_nothing}
use very_simple_file_system.FileSystem.Remove.Entry.{IsRemoved}
use very_simple_file_system.FileSystem.Remove.Rm.{
  IsFound, Removable, not_empty, rm-IsRemoved, rm-finds, rm-misses, rm-refuses,
}
use very_simple_file_system.Tests.Systems.{foo, formatted, root_open}
use very_simple_file_system.Tests.Disks.Listing.{
  sample, directory-IsDirectory, directory-IsSavedDirectory, system, made_there,
}

abbrev pub root : FileSystem
root = formatted.1

pub root-CanMakeDir : CanMakeDir foo (new_entries 0 0) root
root-CanMakeDir =
    let m = root_open.make in
    record {
      cwd_taken = subst (λ k. Live k root.disk) (sym formatted.3.cwd) formatted.3.live;
      directory = m.directory;
      date = m.date;
      inode = m.inode;
      two_blocks = omega (arith, formatted.3.budget, formatted.3.saved.stored.file.at_most);
      text = m.text;
      small = m.small;
      blocks_left = m.blocks_left;
      plain = root_open.plain;
      here = root_open.here;
      entries_left = root_open.entries_left;
    }

mkdir-IsDirMade_example :
    Returns
      (λ r t. (r ≡ none) × ((i : ℕ) × IsDirMade foo (new_entries 0 0) root i t))
      (mkdir foo root)
mkdir-IsDirMade_example =
    mkdir-IsDirMade foo (new_entries 0 0) root formatted.3.sound root-CanMakeDir

pub made_dir :
    Returns
      (λ r t. (r ≡ none) × ((i : ℕ) × IsDirMade foo (new_entries 0 0) root i t))
      (mkdir foo root)
made_dir = mkdir-IsDirMade foo (new_entries 0 0) root formatted.3.sound root-CanMakeDir

-- The state after it, the new inode, and what is known of them.
abbrev pub after : FileSystem
after = made_dir.1

abbrev pub child : ℕ
child = made_dir.3.1.0

abbrev pub made : IsDirMade foo (new_entries 0 0) root child after
made = made_dir.3.1.1

same_cwd : root.cwd ≡ after.cwd
same_cwd = sym (ap (λ (u : FileSystem). u.cwd) made.kept)

cwd-Live : Live after.cwd after.disk
cwd-Live = subst (λ k. Live k after.disk) same_cwd (made.live root.cwd root-CanMakeDir.cwd_taken)

saved : IsSavedDirectory after.cwd after.disk (new_entries 0 0 ++ (entry_of child foo ∷ []))
saved =
    subst (λ k. IsSavedDirectory k after.disk (new_entries 0 0 ++ (entry_of child foo ∷ [])))
      same_cwd made.directory

child_ne : (child ≡ minus_one) → ⊥
child_ne e = omega (arith, made.taken.0)

three : live_count (new_entries 0 0 ++ (entry_of child foo ∷ [])) ≡ 3
unfolding live_count
three = ground (arith, child_ne)

child-IsFound : IsFound foo (new_entries 0 0) (entry_of child foo) [] after
child-IsFound = record {
  cwd = cwd-Live;
  directory = saved;
  live = made.taken;
  others = unfold text_eq in (refl, inl (omega arith), (refl, inl (omega arith), tt));
  named = unfold text_eq in refl;
  reached = omega (arith, three);
}

two : live_count (new_entries child root.cwd) ≡ 2
unfolding live_count
two = ground (arith, child_ne, formatted.3.cwd)

root_type : (inode_at 0 after.disk).type ≡ 1
root_type =
    ap (λ k. (inode_at k after.disk).type) (sym formatted.3.cwd)
    ∙ made.parent_type
    ∙ ap (λ k. (inode_at k root.disk).type) formatted.3.cwd
    ∙ formatted.3.type

child-Removable : Removable (entry_of child foo) after
child-Removable = inr (made.type, made.child.directory.counter ∙ two)

others_left : 0 < live_count (new_entries 0 0 ++ (gone (entry_of child foo) ∷ []))
unfolding live_count
others_left = omega arith

rm-IsRemoved_example :
    Returns (λ _ t. IsRemoved (new_entries 0 0) (entry_of child foo) [] after t) (rm foo after)
    × Returns
        (λ code t. (code ≡ 0) × IsRemoved (new_entries 0 0) (entry_of child foo) [] after t)
        (rmdir foo after)
rm-IsRemoved_example =
    rm-IsRemoved foo (new_entries 0 0) (entry_of child foo) [] after made.sound child-IsFound
      child-Removable others_left

rm-finds_example :
    Returns (λ _ t. find foo t.cwd_table ≡ first_live foo (new_entries 0 0 ++ [])) (rm foo after)
rm-finds_example =
    rm-finds foo foo (new_entries 0 0) (entry_of child foo) [] after made.sound child-IsFound
      child-Removable others_left

free_file-frees_nothing_example :
    Returns
      (λ _ d'.
        IsMarked after.disk d'
        × Live child d'
        × (free_blocks_of d' ≡ free_blocks_of after.disk)
        × (free_inodes_of d' ≡ free_inodes_of after.disk)
        × IsSound d')
      (free_file child after.disk)
free_file-frees_nothing_example = free_file-frees_nothing child after.disk made.sound made.taken

-- The root directory is the target of its own first entry.
root-IsFound :
    IsFound
      (codes ".")
      []
      (entry_of 0 (codes "."))
      (entry_of 0 (codes "..") ∷ entry_of child foo ∷ [])
      after
root-IsFound = record {
  cwd = cwd-Live;
  directory = saved;
  live = subst (λ k. Live k after.disk) (sym same_cwd ∙ formatted.3.cwd) cwd-Live;
  others = tt;
  named = unfold text_eq in refl;
  reached = omega (arith, three);
}

root_counter : int_at (inode_at 0 after.disk).addr_0 after.disk ≡ 3
root_counter =
    ap (λ k. int_at (inode_at k after.disk).addr_0 after.disk) (sym formatted.3.cwd)
    ∙ made.directory.directory.counter
    ∙ three

rm-refuses_example :
    (rm (codes ".") after ≡ ok tt (not_empty after))
    × (rmdir (codes ".") after ≡ ok 0 (not_empty after))
rm-refuses_example =
    rm-refuses (codes ".") [] (entry_of 0 (codes "."))
      (entry_of 0 (codes "..") ∷ entry_of child foo ∷ []) after made.sound root-IsFound
      (omega arith) root_type (omega (arith, root_counter)) (omega (arith, root_counter))

-- The file `foo` stands behind a deleted entry and is not reached.
rm-misses_example : (rm foo system ≡ ok tt system) × (rmdir foo system ≡ ok 0 system)
unfolding system
rm-misses_example =
    rm-misses foo
      (entry_of 0 (codes ".") ∷ entry_of 0 (codes "..") ∷ entry_of minus_one (codes "old") ∷ [])
      (entry_of 1 foo ∷ []) system directory-IsSavedDirectory (unfold live_count in refl)
      (omega arith)
      (unfold text_eq in (refl, inl (omega arith), (refl, inl (omega arith), (refl, inr refl, tt))))
      (omega arith)

foo-HasName : HasName foo sample made_there 1
unfolding made_there insert
foo-HasName = record {
  directory = directory-IsDirectory;
  entries_left = unfold live_count in omega arith;
  plain = unfold parse_path slash_count cut_at format_relative_path in refl;
  here = unfold table_of find text_eq in refl;
  there = unfold table_of find text_eq in refl;
  id_ne = omega arith;
}

open_file-IsReopened_example :
    Returns
      (λ fd t. (fd ≡ t.fd_cnt) × IsReopened 1 sample made_there t)
      (open_file foo (codes "w") made_there)
open_file-IsReopened_example =
    open_file-IsReopened foo (codes "w") sample made_there 1 foo-HasName (unfold text_eq in refl)
      (unfold made_there in tt) (unfold made_there in omega arith)
