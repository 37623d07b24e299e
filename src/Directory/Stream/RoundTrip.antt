-- ===== src/Directory/Stream/RoundTrip.antt =====
-- An entry that was written through the stream operators is read back.
use very_simple_file_system.Base.{
  ℕ, ◌+◌, ◌≤◌, ◌<◌, ◌^◌, ◌≡◌, refl, ap, ◌∙◌, [], ◌∷◌, ◌++◌, inl, inr, ◌==◌, if◌then◌else◌, length,
  take, take-append, Bool-cases, arith, le→leb, lt→ltb,
}
use very_simple_file_system.Run.{Returns, ok}
use very_simple_file_system.Layout.{minus_one, disk_size}
use very_simple_file_system.Disk.{Bytes, Disk, patch, fetch, int_bytes, int_of, dread}
use very_simple_file_system.Disk.Access.{dread-ok, dwrite-ok}
use very_simple_file_system.Disk.Bytes.{fetch-patch_self, fetch-patch_outside, int_of-int_bytes}
use very_simple_file_system.Table.{c_str}
use very_simple_file_system.Directory.{DirEntry}
use very_simple_file_system.Directory.Entries.{IsEntry}
use very_simple_file_system.Directory.Stream.{put_entry, get_entry}

-- What is read into `old`: all of the entry, or all but the name where it is deleted.
abbrev pub read_over : DirEntry → DirEntry → DirEntry
read_over e old =
    if e.node_index == minus_one then record old { node_index = e.node_index; nlen = e.nlen } else e

-- The disk with the entry at `p`.
abbrev with_entry : DirEntry → ℕ → Disk → Disk
with_entry e p d =
    patch (p + 4 + 4) e.name (patch (p + 4) (int_bytes e.nlen) (patch p (int_bytes e.node_index) d))

-- The calls of `>>` one after the other.
get_entry_calls :
    (old : DirEntry) (p : ℕ) (f : Disk) (i n : ℕ) (b1 b2 name : Bytes)
    → dread p 4 f ≡ ok b1 f
    → int_of b1 ≡ i
    → dread (p + 4) 4 f ≡ ok b2 f
    → int_of b2 ≡ n
    → dread (p + 4 + 4) n f ≡ ok name f
    → n < 2 ^ 31
    → get_entry old p f
      ≡ ok
          (
            p + 4 + 4 + n,
            if i == minus_one
                then record old { node_index = i; nlen = n }
                else record { node_index = i; nlen = n; name = c_str name },
          )
          f
unfolding get_entry
get_entry_calls old p f i n b1 b2 name r1 e1 r2 e2 r3 small = elim (Bool-cases (i == minus_one)) [
  | inl gone ↦ rw (r1, r2, e1, e2, gone) refl
  | inr live ↦ rw (r1, r2, e1, e2, live, lt→ltb n (2 ^ 31) small, r3) refl
]

module _ (e : DirEntry) (p : ℕ) (d : Disk) (v : IsEntry e) (fits : p + 8 + e.nlen ≤ disk_size) where
  written_name : take e.nlen (e.name ++ (0 ∷ [])) ≡ e.name
  written_name = ap (λ n. take n (e.name ++ (0 ∷ []))) v.nlen_eq ∙ take-append e.name (0 ∷ [])

  put_entry-ok : put_entry e p d ≡ ok (p + 4 + 4 + e.nlen) (with_entry e p d)
  unfolding put_entry
  put_entry-ok =
      rw
        (
          dwrite-ok p d (int_bytes e.node_index) (omega arith),
          dwrite-ok (p + 4) (patch p (int_bytes e.node_index) d) (int_bytes e.nlen) (omega arith),
          le→leb e.nlen (length e.name + 1) (omega (arith, v.nlen_eq)),
          written_name,
          dwrite-ok (p + 4 + 4)
              (patch (p + 4) (int_bytes e.nlen) (patch p (int_bytes e.node_index) d)) e.name
              (omega (arith, v.nlen_eq)),
        )
        refl

  first : fetch p 4 (with_entry e p d) ≡ int_bytes e.node_index
  first =
      fetch-patch_outside p 4 (p + 4 + 4) e.name _ (inl (omega arith))
      ∙ fetch-patch_outside p 4 (p + 4) (int_bytes e.nlen) _ (inl (omega arith))
      ∙ fetch-patch_self p (int_bytes e.node_index) d

  second : fetch (p + 4) 4 (with_entry e p d) ≡ int_bytes e.nlen
  second =
      fetch-patch_outside (p + 4) 4 (p + 4 + 4) e.name _ (inl (omega arith))
      ∙ fetch-patch_self (p + 4) (int_bytes e.nlen) _

  third : fetch (p + 4 + 4) e.nlen (with_entry e p d) ≡ e.name
  third =
      ap (λ n. fetch (p + 4 + 4) n (with_entry e p d)) v.nlen_eq
      ∙ fetch-patch_self (p + 4 + 4) e.name _

  get_entry-ok :
      (old : DirEntry)
      → get_entry old p (with_entry e p d)
        ≡ ok (p + 4 + 4 + e.nlen, read_over e old) (with_entry e p d)
  get_entry-ok old =
      let f = with_entry e p d in
      get_entry_calls old p f e.node_index e.nlen (int_bytes e.node_index) (int_bytes e.nlen) e.name
        (dread-ok p f 4 (omega arith) ∙ ap (λ b. ok b f) first)
        (int_of-int_bytes e.node_index v.index_lt)
        (dread-ok (p + 4) f 4 (omega arith) ∙ ap (λ b. ok b f) second)
        (int_of-int_bytes e.nlen (omega (arith, v.nlen_lt)))
        (dread-ok (p + 4 + 4) f e.nlen (omega arith) ∙ ap (λ b. ok b f) third) v.nlen_lt
      ∙ ap
          (λ name.
            ok
              (
                p + 4 + 4 + e.nlen,
                if e.node_index == minus_one
                    then record old { node_index = e.node_index; nlen = e.nlen }
                    else record e { name = name },
              )
              f)
          v.text

-- For an entry whose length is that of its name, which has no NUL, and which fits on the disk at a
-- position, the output operator ends behind the entry, and the input operator there ends at the
-- same position and gives the entry; of a deleted one it keeps the name that was read into.
pub get_entry-put_entry :
    (e old : DirEntry) (p : ℕ) (d : Disk)
    → IsEntry e
    → p + 8 + e.nlen ≤ disk_size
    → Returns
        (λ next f. (next ≡ p + 8 + e.nlen) × (get_entry old p f ≡ ok (next, read_over e old) f))
        (put_entry e p d)
get_entry-put_entry e old p d v fits = (
  p + 4 + 4 + e.nlen,
  with_entry e p d,
  put_entry-ok e p d v fits,
  (omega arith, get_entry-ok e p d v fits old),
)
