-- ===== src/Directory/Tree.antt =====
-- The directories of a disk: every taken inode of the type of a directory is one, and its entries
-- that are not deleted name taken inodes.
use very_simple_file_system.Base.{ℕ, ◌≡◌, ◌≢◌, refl, ap, sym, subst, ◌∙◌, List, [], ◌∷◌, ◌++◌}
use native.Mathlib.Decide.{ℕ_discrete}
use very_simple_file_system.Layout.{minus_one}
use very_simple_file_system.Disk.{Disk}
use very_simple_file_system.Inode.{Inode}
use very_simple_file_system.Inode.Codec.{inode_at}
use very_simple_file_system.File.Sound.{Live, IsSound, IsChange, IsSameFile}
use very_simple_file_system.File.Sound.Change.{was-Live, still-Live, change-IsSameFile}
use very_simple_file_system.File.Sound.Made.{IsMade, older, made-Live, made-IsSameFile}
use very_simple_file_system.File.Sound.Marked.{
  IsMarked, marked_back, marked-Live, marked-IsSameFile,
}
use very_simple_file_system.Directory.{DirEntry}
use very_simple_file_system.Directory.Saved.{IsSavedDirectory, same-IsSavedDirectory}
use very_simple_file_system.Directory.Removed.{gone}
use very_simple_file_system.Directory.Unique.{IsSavedDirectory-unique}

-- Every entry that is not deleted names a taken inode.
abbrev pub NamesLive : Disk → List DirEntry → Type 0
NamesLive d [] = Unit
NamesLive d (e ∷ es) = (e.node_index ≢ minus_one → Live e.node_index d) × NamesLive d es

pub NamesLive-keep :
    (d d' : Disk) (es : List DirEntry)
    → ((j : ℕ) → Live j d → Live j d')
    → NamesLive d es
    → NamesLive d' es
NamesLive-keep d d' [] keep n = tt
NamesLive-keep d d' (e ∷ es) keep (l, n) =
    ((λ ne. keep e.node_index (l ne)), NamesLive-keep d d' es keep n)

pub NamesLive-last :
    (d : Disk) (es : List DirEntry) (e : DirEntry)
    → NamesLive d es
    → Live e.node_index d
    → NamesLive d (es ++ (e ∷ []))
NamesLive-last d [] e n l = ((λ _. l), tt)
NamesLive-last d (x ∷ es) e (m, n) l = (m, NamesLive-last d es e n l)

pub NamesLive-gone :
    (d : Disk) (before : List DirEntry) (e : DirEntry) (after : List DirEntry)
    → NamesLive d (before ++ (e ∷ after))
    → NamesLive d (before ++ (gone e ∷ after))
NamesLive-gone d [] e after (l, n) = ((λ ne. absurd (ne refl)), n)
NamesLive-gone d (x ∷ before) e after (l, n) = (l, NamesLive-gone d before e after n)

-- The inode is a directory of such entries.
abbrev pub DirAt : ℕ → Disk → Type 0
DirAt i d = (es : List DirEntry) × IsSavedDirectory i d es × NamesLive d es

pub record IsTree (d : Disk) : Type 0 where
  pub at : (i : ℕ) → Live i d → (inode_at i d).type ≡ 1 → DirAt i d

-- A directory that is the same, on a disk where every taken inode stays taken.
same-DirAt :
    (i : ℕ) (d d' : Disk)
    → IsTree d
    → ((j : ℕ) → Live j d → Live j d')
    → Live i d
    → IsSameFile i d d'
    → (inode_at i d').type ≡ 1
    → DirAt i d'
same-DirAt i d d' t keep l y e =
    let (es, v, n) = t.at i l (ap (λ (m : Inode). m.type) (sym y.inode) ∙ e) in
    (es, same-IsSavedDirectory i es d d' v y, NamesLive-keep d d' es keep n)

-- A change of one file, a new file, and marks of what was taken.
pub change-IsTree :
    (d : Disk) (v : IsSound d) (i : ℕ) (live : Live i d) (d' : Disk) (c : IsChange i d d')
    → IsTree d
    → ((inode_at i d').type ≡ 1 → DirAt i d')
    → IsTree d'
change-IsTree d v i live d' c t own = record {
  at = λ j l e. elim (ℕ_discrete i j) [
    | yes q ↦ subst (λ k. DirAt k d') q (own (ap (λ k. (inode_at k d').type) q ∙ e))
    | no ne ↦
        let m = was-Live d v i live d' c j l in
        same-DirAt j d d' t (still-Live d v i live d' c) m
          (change-IsSameFile d v i live d' c j m ne) e
  ];
}

pub made-IsTree :
    (d : Disk) (v : IsSound d) (i : ℕ) (d' : Disk) (c : IsMade i d d')
    → IsTree d
    → ((inode_at i d').type ≡ 1 → DirAt i d')
    → IsTree d'
made-IsTree d v i d' c t own = record {
  at = λ j l e. elim (ℕ_discrete i j) [
    | yes q ↦ subst (λ k. DirAt k d') q (own (ap (λ k. (inode_at k d').type) q ∙ e))
    | no ne ↦
        let m = older d v i d' c j l ne in
        same-DirAt j d d' t (made-Live d v i d' c) m (made-IsSameFile d v i d' c j m ne) e
  ];
}

pub marked-IsTree : (d d' : Disk) → IsSound d → IsMarked d d' → IsTree d → IsTree d'
marked-IsTree d d' v m t = record {
  at = λ j l e.
      let k = marked_back d d' m j l in
      same-DirAt j d d' t (marked-Live d d' m) k (marked-IsSameFile d d' m v j k) e;
}

-- The entries of a directory that is known name taken inodes.
pub names_of :
    (i : ℕ) (d : Disk) (es : List DirEntry)
    → IsTree d
    → Live i d
    → (inode_at i d).type ≡ 1
    → IsSavedDirectory i d es
    → NamesLive d es
names_of i d es t l e v =
    let (es', w, n) = t.at i l e in subst (NamesLive d) (IsSavedDirectory-unique i d es' es w v) n
