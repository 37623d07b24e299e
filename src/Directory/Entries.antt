-- ===== src/Directory/Entries.antt =====
-- The content of a directory as a list of entries, and `readEntry` on it.
use very_simple_file_system.Base.{
  ℕ, ◌+◌, ◌^◌, ◌≤◌, ◌<◌, ◌≡◌, refl, ap, ap₂, sym, ◌∙◌, List, [], ◌∷◌, ◌++◌, arith, length,
  length-append, lt→ltb, lt-cases, inl, inr,
}
use very_simple_file_system.Run.{ok}
use very_simple_file_system.Disk.{Bytes, Disk, fetch, int_bytes}
use very_simple_file_system.Disk.Bytes.{length-fetch, int_of-int_bytes}
use very_simple_file_system.Inode.{Inode}
use very_simple_file_system.File.Blocks.{IsFile, file_bytes}
use very_simple_file_system.File.Read.{read_file-inside, read_file_end}
use very_simple_file_system.Table.{c_str}
use very_simple_file_system.Directory.{DirEntry, get_size, read_whole, read_int, read_entry}

-- The bytes of an entry, and of a sequence of them.
unfoldable pub entry_bytes : DirEntry → Bytes
entry_bytes e = int_bytes e.node_index ++ (int_bytes e.nlen ++ e.name)

unfoldable pub entries_bytes : List DirEntry → Bytes
entries_bytes [] = []
entries_bytes (e ∷ es) = entry_bytes e ++ entries_bytes es

-- An entry as `addEntryToDir` writes it.
pub record IsEntry (e : DirEntry) : Type 0 where
  pub index_lt : e.node_index < 2 ^ 32
  pub nlen_eq : e.nlen ≡ length e.name
  pub nlen_lt : e.nlen < 2 ^ 31
  pub text : c_str e.name ≡ e.name

abbrev pub AllEntries : List DirEntry → Type 0
AllEntries [] = Unit
AllEntries (e ∷ es) = IsEntry e × AllEntries es

-- The last entry has a name. Behind an entry with an empty name at the end of a directory,
-- `readEntry` reads the name at the end of the file, and `readData` prints a message.
abbrev pub EndsNamed : List DirEntry → Type 0
EndsNamed [] = Unit
EndsNamed (e ∷ []) = 0 < length e.name
EndsNamed (e ∷ f ∷ es) = EndsNamed (f ∷ es)

pub EndsNamed-last :
    (es : List DirEntry) (e : DirEntry) → 0 < length e.name → EndsNamed (es ++ (e ∷ []))
EndsNamed-last [] e h = h
EndsNamed-last (x ∷ []) e h = h
EndsNamed-last (x ∷ y ∷ es) e h = EndsNamed-last (y ∷ es) e h

-- From `off` up to the size the file holds the entries.
pub record Holds (node : Inode) (d : Disk) (off : ℕ) (es : List DirEntry) : Type 0 where
  pub end : off + length (entries_bytes es) ≡ node.size
  pub bytes : fetch off (length (entries_bytes es)) (file_bytes node d) ≡ entries_bytes es

-- A read of two parts.
pub fetch_parts :
    (xs ys : Bytes) (off : ℕ) (f : Disk)
    → fetch off (length (xs ++ ys)) f ≡ xs ++ ys
    → (fetch off (length xs) f ≡ xs) × (fetch (off + length xs) (length ys) f ≡ ys)
unfolding fetch
fetch_parts [] ys off f h = (refl, ap (λ a. fetch a (length ys) f) (omega arith) ∙ h)
fetch_parts (x ∷ xs) ys off f h =
    let (p, q) = fetch_parts xs ys (off + 1) f (ground arith) in
    (ap₂ (λ b l. b ∷ l) (ground arith) p, ap (λ a. fetch a (length ys) f) (omega arith) ∙ q)

module _ (node : Inode) (d : Disk) (v : IsFile node d) (s : node.size ≤ node.capacity) where
  read_whole-ok :
      (off len : ℕ)
      → off + len ≤ node.size
      → len < 2 ^ 31
      → read_whole node off len d ≡ ok (fetch off len (file_bytes node d)) d
  unfolding read_whole
  read_whole-ok off len le l = elim (lt-cases off node.size) [
    | inl h ↦
        rw (lt→ltb len (2 ^ 31) l, read_file-inside node d v off len s h le, length-fetch)
          (ground arith)
    | inr h ↦
        let z : len ≡ 0 = omega arith in
        rw (z, read_file_end node d v off 0 h) (unfold fetch in refl)
  ]

  read_int-ok :
      (off w : ℕ)
      → off + 4 ≤ node.size
      → fetch off 4 (file_bytes node d) ≡ int_bytes w
      → w < 2 ^ 32
      → read_int node off d ≡ ok w d
  unfolding read_int
  read_int-ok off w le e l =
      rw (read_whole-ok off 4 le (omega arith), e) (ap (λ k. ok k d) (int_of-int_bytes w l))

  -- `readEntry` where an entry starts.
  pub read_entry-Holds :
      (off : ℕ) (e : DirEntry) (es : List DirEntry)
      → IsEntry e
      → Holds node d off (e ∷ es)
      → (read_entry node off d ≡ ok e d) × Holds node d (off + get_size e) es
  unfolding read_entry entry_bytes entries_bytes get_size
  read_entry-Holds off e es w h =
      let (p, rest) =
        fetch_parts (entry_bytes e) (entries_bytes es) off (file_bytes node d) h.bytes in
      let (p₁, p₂₃) =
        fetch_parts (int_bytes e.node_index) (int_bytes e.nlen ++ e.name) off (file_bytes node d)
          p in
      let (p₂, p₃) = fetch_parts (int_bytes e.nlen) e.name (off + 4) (file_bytes node d) p₂₃ in
      let n : length (entry_bytes e) ≡ 4 + 4 + e.nlen = omega (arith, w.nlen_eq) in
      let name : fetch (off + 4 + 4) e.nlen (file_bytes node d) ≡ e.name =
        ap (λ k. fetch (off + 4 + 4) k (file_bytes node d)) w.nlen_eq ∙ p₃ in
      let total = length-append (entry_bytes e) (entries_bytes es) in
      (
        rw
            (
              read_int-ok off e.node_index (omega (arith, h.end)) p₁ w.index_lt,
              read_int-ok (off + 4) e.nlen (omega (arith, h.end)) p₂ (omega (arith, w.nlen_lt)),
              read_whole-ok (off + 4 + 4) e.nlen (omega (arith, h.end)) w.nlen_lt,
              name,
            )
            (ap (λ n. ok (record e { name = n }) d) w.text),
        record {
          end = omega (arith, h.end);
          bytes =
              ap (λ k. fetch (off + k) (length (entries_bytes es)) (file_bytes node d)) (sym n)
              ∙ rest;
        },
      )

-- Where the last entry has a name, `readEntry` reads each name before the end of the file.
EndsNamed-inside :
    (node : Inode) (d : Disk) (off : ℕ) (e : DirEntry) (es : List DirEntry)
    → AllEntries (e ∷ es)
    → Holds node d off (e ∷ es)
    → EndsNamed (e ∷ es)
    → off + 8 < node.size
unfolding entry_bytes entries_bytes
EndsNamed-inside node d off e [] a h n = omega (arith, h.end, n, length-append (entry_bytes e) [])
EndsNamed-inside node d off e (f ∷ es) a h n = omega (
  arith,
  h.end,
  length-append (entry_bytes e) (entries_bytes (f ∷ es)),
  length-append (entry_bytes f) (entries_bytes es),
)
