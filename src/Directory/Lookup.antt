-- ===== src/Directory/Lookup.antt =====
-- A loaded directory finds for each name the first entry that is not deleted.
use very_simple_file_system.Base.{
  ℕ, ◌<◌, ◌≡◌, refl, ap, ◌∙◌, List, [], ◌∷◌, ◌++◌, Bool, true, false, Option, none, some, ◌==◌,
  if◌then◌else◌, arith, Bool-cases, inl, inr,
}
use very_simple_file_system.Run.{Returns}
use very_simple_file_system.Layout.{minus_one}
use very_simple_file_system.Disk.{Bytes, Disk}
use very_simple_file_system.Table.{Table, text_eq, find, insert}
use very_simple_file_system.Table.Lookup.{IsSorted, insert-IsSorted, or_else, find-insert}
use very_simple_file_system.Directory.{DirEntry, load_dir_table}
use very_simple_file_system.Directory.Removed.{gone}
use very_simple_file_system.Directory.Load.{
  live_count, table_of, IsDirectory, load_dir_table-table_of,
}

-- The inode of the first entry under the name that is not deleted.
unfoldable pub first_live : Bytes → List DirEntry → Option ℕ
first_live name [] = none
first_live name (e ∷ es) =
    if e.node_index == minus_one
    then first_live name es
    else if text_eq name e.name
    then some e.node_index
    else first_live name es

table_of-IsSorted : (es : List DirEntry) (t : Table) → IsSorted t → IsSorted (table_of es t)
unfolding table_of
table_of-IsSorted [] t s = s
table_of-IsSorted (e ∷ es) t s = elim (Bool-cases (e.node_index == minus_one)) [
  | inl gone ↦ rw gone (table_of-IsSorted es t s)
  | inr live ↦ rw live (
      table_of-IsSorted es (insert e.name e.node_index t) (insert-IsSorted e.name e.node_index t s))
]

or_else-if :
    (b : Bool) (v : ℕ) (x y : Option ℕ)
    → or_else (if b then or_else x (some v) else x) y ≡ or_else x (if b then some v else y)
or_else-if true v none y = refl
or_else-if true v (some w) y = refl
or_else-if false v x y = refl

find-table_of :
    (name : Bytes) (es : List DirEntry) (t : Table)
    → IsSorted t
    → find name (table_of es t) ≡ or_else (find name t) (first_live name es)
unfolding table_of first_live
find-table_of name [] t s = ground arith
find-table_of name (e ∷ es) t s = elim (Bool-cases (e.node_index == minus_one)) [
  | inl gone ↦ rw gone (find-table_of name es t s)
  | inr live ↦
      let u = insert e.name e.node_index t in
      let step = find-insert name e.name e.node_index t s in
      let rest = find-table_of name es u (insert-IsSorted e.name e.node_index t s) in
      rw live (
        rest
        ∙ ap (λ o. or_else o (first_live name es)) step
        ∙ or_else-if (text_eq name e.name) e.node_index (find name t) (first_live name es))
]

-- The table of a directory finds what the entries say.
pub find-first_live :
    (name : Bytes) (es : List DirEntry) → find name (table_of es []) ≡ first_live name es
unfolding find
find-first_live name es = find-table_of name es [] tt

-- One more live entry counts where no entry before it has the name.
pub first_live-last :
    (name : Bytes) (e : DirEntry) (es : List DirEntry)
    → (e.node_index == minus_one) ≡ false
    → first_live name (es ++ (e ∷ []))
      ≡ or_else (first_live name es) (if text_eq name e.name then some e.node_index else none)
unfolding first_live
first_live-last name e [] live = rw live refl
first_live-last name e (x ∷ es) live = elim (Bool-cases (x.node_index == minus_one)) [
  | inl gone ↦ rw gone (first_live-last name e es live)
  | inr here ↦ elim (Bool-cases (text_eq name x.name)) [
    | inl hit ↦ rw (here, hit) refl
    | inr miss ↦ rw (here, miss) (first_live-last name e es live)
  ]
]

-- An entry that is marked as deleted does not count.
pub first_live-gone :
    (other : Bytes) (before : List DirEntry) (e : DirEntry) (after : List DirEntry)
    → first_live other (before ++ (gone e ∷ after)) ≡ first_live other (before ++ after)
unfolding first_live
first_live-gone other [] e after = refl
first_live-gone other (x ∷ before) e after =
    ap
      (λ o.
        if x.node_index == minus_one
        then o
        else if text_eq other x.name
        then some x.node_index
        else o)
      (first_live-gone other before e after)

-- Where an inode's file holds a directory, with at least one and fewer than 2^31 entries that are
-- not deleted, `loadDirTable` returns a table in which every name is found as in a scan of the
-- entries for the first one with the name that is not deleted, and leaves the disk as it is.
pub load_dir_table-first_live :
    (id : ℕ) (d : Disk) (es : List DirEntry) (name : Bytes)
    → IsDirectory id d es
    → 0 < live_count es
    → Returns (λ t e. (find name t ≡ first_live name es) × (e ≡ d)) (load_dir_table id d)
load_dir_table-first_live id d es name v pos =
    (table_of es [], d, load_dir_table-table_of id d es v pos, (find-first_live name es, refl))
