-- ===== src/Directory/Unique.antt =====
-- The bytes of a directory determine its entries.
use very_simple_file_system.Base.{
  ℕ, ◌^◌, ◌<◌, ◌≡◌, ◌≢◌, refl, ap, sym, ◌∙◌, List, [], ◌∷◌, ◌++◌, arith, length,
}
use very_simple_file_system.Disk.{Bytes, Disk, int_bytes, int_of, fetch}
use very_simple_file_system.Disk.Bytes.{int_of-int_bytes}
use very_simple_file_system.Inode.Codec.{inode_at}
use very_simple_file_system.File.Blocks.{file_bytes}
use very_simple_file_system.Directory.{DirEntry}
use very_simple_file_system.Directory.Entries.{IsEntry, AllEntries, entries_bytes, entry_bytes}
use very_simple_file_system.Directory.Saved.{IsSavedDirectory}

same_parts :
    (xs xs' ys ys' : Bytes)
    → length xs ≡ length xs'
    → xs ++ ys ≡ xs' ++ ys'
    → (xs ≡ xs') × (ys ≡ ys')
same_parts [] [] ys ys' l e = (refl, e)
same_parts [] (x ∷ xs') ys ys' l e = absurd (omega arith)
same_parts (x ∷ xs) [] ys ys' l e = absurd (omega arith)
same_parts (x ∷ xs) (x' ∷ xs') ys ys' l e =
    let q : xs ++ ys ≡ xs' ++ ys' = cc in
    let h : x ≡ x' = cc in
    let (p, r) = same_parts xs xs' ys ys' (omega arith) q in ((λ i. h i ∷ p i), r)

same_int : (w v : ℕ) → w < 2 ^ 32 → v < 2 ^ 32 → int_bytes w ≡ int_bytes v → w ≡ v
same_int w v h k e = sym (int_of-int_bytes w h) ∙ ap int_of e ∙ int_of-int_bytes v k

same_entry :
    (e e' : DirEntry) (xs ys : Bytes)
    → IsEntry e
    → IsEntry e'
    → entry_bytes e ++ xs ≡ entry_bytes e' ++ ys
    → (e ≡ e') × (xs ≡ ys)
unfolding entry_bytes
same_entry e e' xs ys v w h =
    let (p, q) =
      same_parts (int_bytes e.node_index) (int_bytes e'.node_index)
        (int_bytes e.nlen ++ (e.name ++ xs)) (int_bytes e'.nlen ++ (e'.name ++ ys)) refl h in
    let (r, s) =
      same_parts (int_bytes e.nlen) (int_bytes e'.nlen) (e.name ++ xs) (e'.name ++ ys) refl q in
    let i = same_int e.node_index e'.node_index v.index_lt w.index_lt p in
    let n = same_int e.nlen e'.nlen (omega (arith, v.nlen_lt)) (omega (arith, w.nlen_lt)) r in
    let (t, z) = same_parts e.name e'.name xs ys (sym v.nlen_eq ∙ n ∙ w.nlen_eq) s in
    ((λ k. record { node_index = i k; nlen = n k; name = t k }), z)

no_entry : (e : DirEntry) (xs : Bytes) → [] ≢ entry_bytes e ++ xs
unfolding entry_bytes
no_entry e xs h = cc

same_entries :
    (es es' : List DirEntry)
    → AllEntries es
    → AllEntries es'
    → entries_bytes es ≡ entries_bytes es'
    → es ≡ es'
unfolding entries_bytes
same_entries [] [] a b h = refl
same_entries [] (e ∷ es) a b h = absurd (no_entry e (entries_bytes es) h)
same_entries (e ∷ es) [] a b h = absurd (no_entry e (entries_bytes es) (sym h))
same_entries (e ∷ es) (e' ∷ es') (v, a) (w, b) h =
    let (p, q) = same_entry e e' (entries_bytes es) (entries_bytes es') v w h in
    let r = same_entries es es' a b q in (λ i. p i ∷ r i)

-- A directory has one list of entries.
pub IsSavedDirectory-unique :
    (id : ℕ) (d : Disk) (es es' : List DirEntry)
    → IsSavedDirectory id d es
    → IsSavedDirectory id d es'
    → es ≡ es'
IsSavedDirectory-unique id d es es' v w =
    let x = v.directory.holds in
    let y = w.directory.holds in
    let n : length (entries_bytes es) ≡ length (entries_bytes es') = omega (arith, x.end, y.end) in
    same_entries es es' v.directory.entries w.directory.entries
      (sym x.bytes ∙ ap (λ k. fetch 4 k (file_bytes (inode_at id d) d)) n ∙ y.bytes)
