-- ===== src/FileSystem/Invariant/Entries.antt =====
-- The steps that make, open and remove entries of a directory keep the invariant.
use very_simple_file_system.Base.{ℕ, ◌≡◌, ap, sym, subst, ◌∙◌, List, some, some_eq}
use native.Mathlib.Decide.{ℕ_discrete}
use very_simple_file_system.Disk.{Bytes}
use very_simple_file_system.Base.{◌≢◌}
use very_simple_file_system.Disk.{Disk}
use very_simple_file_system.Inode.{Inode}
use very_simple_file_system.Inode.Codec.{inode_at}
use very_simple_file_system.File.Sound.{Live, IsSound}
use very_simple_file_system.Directory.Tree.{IsTree}
use very_simple_file_system.FileSystem.Descriptor.Kept.{
  keeps-Live, new-Live, opened-IsSound, keeps-IsSameFile, new_regular, opened-IsTree,
}
use very_simple_file_system.FileSystem.Descriptor.Missing.{CanMake, IsNewlyOpened}
use very_simple_file_system.Directory.{DirEntry}
use very_simple_file_system.FileSystem.State.{FileSystem, OpenFile}
use very_simple_file_system.FileSystem.Create.Mkdir.{IsDirMade}
use very_simple_file_system.FileSystem.Descriptor.{fd_find}
use very_simple_file_system.FileSystem.Descriptor.Laws.{IsOpened, SameElsewhere}
use very_simple_file_system.FileSystem.Descriptor.Existing.{IsReopened}
use very_simple_file_system.FileSystem.Remove.Entry.{IsRemoved}
use very_simple_file_system.FileSystem.Content.Import.{IsImported}
use very_simple_file_system.FileSystem.Content.Export.{IsExported}
use very_simple_file_system.FileSystem.Invariant.{IsSystem, Plain}

-- The descriptors of `t` name files that those of `s` name, and `fd` at most is another one.
pub Plain-elsewhere :
    (fd : ℕ) (s t : FileSystem)
    → IsSystem s
    → SameElsewhere fd s t
    → ((j : ℕ) → Plain j s.disk → Plain j t.disk)
    → ((f : OpenFile) → fd_find fd t.fd_map ≡ some f → Plain f.i_id t.disk)
    → (j : ℕ) (f : OpenFile) → fd_find j t.fd_map ≡ some f
    → Plain f.i_id t.disk
Plain-elsewhere fd s t v others keep at j f known = elim (ℕ_discrete j fd) [
  | yes e ↦ at f (ap (λ k. fd_find k t.fd_map) (sym e) ∙ known)
  | no ne ↦ keep f.i_id (v.plain j f (sym (others j ne) ∙ known))
]

-- Where every file but one is the same, and this one keeps its type, plain files stay so.
pub Plain-kept :
    (i : ℕ) (d d' : Disk)
    → ((j : ℕ) → Live j d → Live j d')
    → ((j : ℕ) → Live j d → i ≢ j → inode_at j d' ≡ inode_at j d)
    → (inode_at i d').type ≡ (inode_at i d).type
    → (j : ℕ) → Plain j d
    → Plain j d'
Plain-kept i d d' keep others same j (l, ne) = (
  keep j l,
  elim (ℕ_discrete i j) [
    | yes q ↦
        subst (λ k. (inode_at k d').type ≢ 1) q
          (λ e. ne (ap (λ k. (inode_at k d).type) (sym q) ∙ sym same ∙ e))
    | no n ↦ λ e. ne (ap (λ (m : Inode). m.type) (sym (others j l n)) ∙ e)
  ],
)

-- The disk changed and the descriptors did not.
same_fds-IsSystem :
    (s t : FileSystem)
    → IsSystem s
    → IsSound t.disk
    → IsTree t.disk
    → ((j : ℕ) → Plain j s.disk → Plain j t.disk)
    → IsOpened t
    → ((j : ℕ) → fd_find j t.fd_map ≡ fd_find j s.fd_map)
    → IsSystem t
same_fds-IsSystem s t v sound tree keep opened same = record {
  sound = sound;
  tree = tree;
  plain = λ fd f known. keep f.i_id (v.plain fd f (sym (same fd) ∙ known));
  opened = opened;
}

pub dir_made-IsSystem :
    (name : Bytes) (es : List DirEntry) (s : FileSystem) (i : ℕ) (t : FileSystem)
    → IsSystem s
    → IsDirMade name es s i t
    → IsSystem t
dir_made-IsSystem name es s i t v y =
    same_fds-IsSystem s t v y.sound (y.tree v.tree)
      (Plain-kept s.cwd s.disk t.disk y.live (λ j l ne. (y.others j l ne).inode) y.parent_type)
      (subst IsOpened (sym y.kept) v.opened)
      (λ fd. ap (λ (u : FileSystem). fd_find fd u.fd_map) y.kept)

pub removed-IsSystem :
    (before : List DirEntry) (e : DirEntry) (after : List DirEntry) (s t : FileSystem)
    → IsSystem s
    → IsRemoved before e after s t
    → IsSystem t
removed-IsSystem before e after s t v y =
    same_fds-IsSystem s t v y.sound (y.tree v.tree)
      (Plain-kept s.cwd s.disk t.disk y.live (λ j l ne. (y.others j l ne).inode)
        (ap (λ (n : Inode). n.type) y.same_cwd))
      (subst IsOpened (sym y.kept) v.opened)
      (λ fd. ap (λ (u : FileSystem). fd_find fd u.fd_map) y.kept)

pub reopened-IsSystem :
    (id : ℕ) (es : List DirEntry) (s t : FileSystem)
    → IsSystem s
    → Plain id s.disk
    → IsReopened id es s t
    → IsSystem t
reopened-IsSystem id es s t v l y =
    let same : t.disk ≡ s.disk = ap (λ (u : FileSystem). u.disk) y.kept in
    let keep : (j : ℕ) → Plain j s.disk → Plain j t.disk = λ j m. subst (Plain j) (sym same) m in
    record {
      sound = subst IsSound (sym same) v.sound;
      tree = subst IsTree (sym same) v.tree;
      plain = Plain-elsewhere t.fd_cnt s t v y.others keep (λ g e.
          let q = some_eq (record { i_id = id; offset = 0 }) g (sym y.entry ∙ e) in
          subst (λ (h : OpenFile). Plain h.i_id t.disk) q (keep id l));
      opened = y.opened;
    }

pub imported-IsSystem :
    (dest buffer : Bytes) (es : List DirEntry) (i : ℕ) (s t : FileSystem)
    → IsSystem s
    → Live s.cwd s.disk
    → IsImported dest buffer es s i t
    → IsSystem t
imported-IsSystem dest buffer es i s t v home y =
    same_fds-IsSystem s t v y.sound (y.tree v.tree)
      (Plain-kept s.cwd s.disk t.disk y.lives (λ j l ne. (y.others j l ne).inode) y.parent_type)
      y.opened y.fds

pub exported-IsSystem :
    (dest content : Bytes) (es : List DirEntry) (s t : FileSystem)
    → IsSystem s
    → IsExported dest content es s t
    → IsSystem t
exported-IsSystem dest content es s t v y =
    let same : s.disk ≡ t.disk = sym (ap (λ (u : FileSystem). u.disk) y.kept) in
    same_fds-IsSystem s t v (subst IsSound same v.sound) (subst IsTree same v.tree)
      (λ j l. subst (Plain j) same l) y.opened y.fds

-- A new file in the working directory.
module _ (s t : FileSystem) (name : Bytes) (es : List DirEntry) (i : ℕ) (v : IsSystem s)
    (can : CanMake name es s) (y : IsNewlyOpened name es s i t) where
  abbrev kept_live : (j : ℕ) → Live j s.disk → Live j t.disk
  kept_live = keeps-Live s t name es i v.sound can y

  same_others : (j : ℕ) → Live j s.disk → s.cwd ≢ j → inode_at j t.disk ≡ inode_at j s.disk
  same_others j l ne = (keeps-IsSameFile s t name es i v.sound can y j l ne).inode

  new-Plain : Plain i t.disk
  new-Plain = (new-Live s t name es i v.sound can y, new_regular s t name es i v.sound can y)

  pub made-IsSystem : IsSystem t
  made-IsSystem = record {
    sound = opened-IsSound s t name es i v.sound can y;
    tree = opened-IsTree s t name es i v.sound can y v.tree;
    plain =
        Plain-elsewhere t.fd_cnt s t v y.others
          (Plain-kept s.cwd s.disk t.disk kept_live same_others y.parent_type)
          (λ g e.
            let q = some_eq (record { i_id = i; offset = 0 }) g (sym y.entry ∙ e) in
            subst (λ (h : OpenFile). Plain h.i_id t.disk) q new-Plain);
    opened = y.opened;
  }
