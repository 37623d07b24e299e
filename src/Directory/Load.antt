-- ===== src/Directory/Load.antt =====
-- `loadDirTable` lists the entries of a directory that are not deleted.
use very_simple_file_system.Base.{
  ℕ, zero, suc, ◌+◌, ◌^◌, ◌≤◌, ◌<◌, ◌≡◌, refl, ap, sym, List, [], ◌∷◌, arith, length, length-append,
  leb, ◌==◌, if◌then◌else◌, Bool-cases, inl, inr, false, ◌||◌,
}
use very_simple_file_system.Run.{ok}
use very_simple_file_system.Layout.{minus_one, inum}
use very_simple_file_system.Disk.{Disk, int_at}
use very_simple_file_system.Disk.Access.{get_int_at-ok}
use very_simple_file_system.Inode.{Inode}
use very_simple_file_system.Inode.Codec.{inode_at, read_inode-ok}
use very_simple_file_system.File.Blocks.{block_addr, IsBlock, IsFile}
use very_simple_file_system.Table.{Table, insert}
use very_simple_file_system.Directory.{
  DirEntry, get_size, skip_deleted, load_entries, load_dir_table,
}
use very_simple_file_system.Directory.Entries.{
  AllEntries, Holds, entries_bytes, entry_bytes, read_entry-Holds,
}

-- The number of entries that are not deleted, and the table of them.
unfoldable pub live_count : List DirEntry → ℕ
live_count [] = 0
live_count (e ∷ es) = (if e.node_index == minus_one then 0 else 1) + live_count es

unfoldable pub table_of : List DirEntry → Table → Table
table_of [] table = table
table_of (e ∷ es) table =
    table_of es (if e.node_index == minus_one then table else insert e.name e.node_index table)

-- The first live entry, what follows it, and what is left to list.
record IsNext (node : Inode) (d : Disk) (es : List DirEntry) (m off : ℕ) (e : DirEntry)
    (rest : List DirEntry) : Type 0 where
  holds : Holds node d off rest
  entries : AllEntries rest
  count : live_count rest ≡ m
  table : (t : Table) → table_of es t ≡ table_of rest (insert e.name e.node_index t)

table_none : (es : List DirEntry) (t : Table) → live_count es ≡ 0 → table_of es t ≡ t
unfolding live_count table_of
table_none [] t c = refl
table_none (e ∷ es) t c = elim (Bool-cases (e.node_index == minus_one)) [
  | inl gone ↦ rw gone (table_none es t (ground arith))
  | inr live ↦ absurd (ground arith)
]

live_count-le : (es : List DirEntry) → live_count es ≤ length es
unfolding live_count
live_count-le [] = omega arith
live_count-le (e ∷ es) = ground (arith, live_count-le es)

length-le : (es : List DirEntry) → length es ≤ length (entries_bytes es)
unfolding entries_bytes entry_bytes
length-le [] = omega arith
length-le (e ∷ es) = omega (arith, length-le es, length-append e.name (entries_bytes es))

module _ (node : Inode) (d : Disk) (v : IsFile node d) (s : node.size ≤ node.capacity) where
  skip_deleted-IsNext :
      (es : List DirEntry) (fuel m off : ℕ)
      → AllEntries es
      → Holds node d off es
      → live_count es ≡ suc m
      → length es ≤ fuel
      → (off' : ℕ) × (e : DirEntry) × (rest : List DirEntry) × (skip_deleted fuel node off d
          ≡ ok (off', e) d)
        × IsNext node d es m off' e rest
  unfolding skip_deleted live_count table_of
  skip_deleted-IsNext [] fuel m off a h c f = absurd (omega arith)
  skip_deleted-IsNext (e ∷ es) zero m off a h c f = absurd (omega arith)
  skip_deleted-IsNext (e ∷ es) (suc fuel) m off (w, a) h c f =
      let (run, h') = read_entry-Holds node d v s off e es w h in
      elim (Bool-cases (e.node_index == minus_one)) [
        | inr live ↦ (
          off + get_size e,
          e,
          es,
          rw (run, live),
          record { holds = h'; entries = a; count = ground arith; table = λ t. rw live },
        )
        | inl gone ↦
            let (off', e', rest, run', u) =
              skip_deleted-IsNext es fuel m (off + get_size e) a h' (ground arith) (omega arith) in
            (
              off',
              e',
              rest,
              rw (run, gone) run',
              record {
                holds = u.holds;
                entries = u.entries;
                count = u.count;
                table = λ t. rw gone (u.table t);
              },
            )
      ]

  load_entries-table_of :
      (m off : ℕ) (es : List DirEntry) (t : Table)
      → AllEntries es
      → Holds node d off es
      → live_count es ≡ m
      → load_entries m node off t d ≡ ok (table_of es t) d
  unfolding load_entries
  load_entries-table_of zero off es t a h c = ap (λ l. ok l d) (sym (table_none es t c))
  load_entries-table_of (suc m) off es t a h c =
      let (off', e, rest, run, u) =
        skip_deleted-IsNext es (node.size + 1) m off a h c (omega (arith, length-le es, h.end)) in
      rw (run, u.table t)
        (load_entries-table_of m off' rest (insert e.name e.node_index t) u.entries u.holds u.count)

-- The inode `id` is a directory with the entries `es`, and its counter counts the live ones.
pub record IsDirectory (id : ℕ) (d : Disk) (es : List DirEntry) : Type 0 where
  pub id_lt : id < inum
  pub file : IsFile (inode_at id d) d
  pub size_le : (inode_at id d).size ≤ (inode_at id d).capacity
  pub entries : AllEntries es
  pub holds : Holds (inode_at id d) d 4 es
  pub counter : int_at (inode_at id d).addr_0 d ≡ live_count es

pub live_count-lt :
    (id : ℕ) (d : Disk) (es : List DirEntry) → IsDirectory id d es → live_count es < 2 ^ 31
live_count-lt id d es v =
    omega (arith, live_count-le es, length-le es, v.holds.end, v.size_le, v.file.at_most)

-- Where an inode's file holds a directory, with at least one and fewer than 2^31 entries that are
-- not deleted, `loadDirTable` returns the table of the entries that are not deleted, the first one
-- where a name occurs twice, and leaves the disk as it is.
pub load_dir_table-table_of :
    (id : ℕ) (d : Disk) (es : List DirEntry)
    → IsDirectory id d es
    → 0 < live_count es
    → load_dir_table id d ≡ ok (table_of es []) d
unfolding load_dir_table
load_dir_table-table_of id d es v pos =
    let node = inode_at id d in
    let b : IsBlock node.addr_0 =
      unfold block_addr in v.file.block 0 (omega (arith, v.file.at_least)) in
    let small = live_count-lt id d es v in
    let test : (live_count es == 0 || leb (2 ^ 31) (live_count es)) ≡ false = ground arith in
    rw
      (
        read_inode-ok id d v.id_lt,
        get_int_at-ok node.addr_0 d (omega (arith, b.to)),
        v.counter,
        test,
      )
      (load_entries-table_of node d v.file v.size_le (live_count es) 4 es [] v.entries v.holds refl)
