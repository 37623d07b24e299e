-- ===== src/Path/Parse.antt =====
-- `parsePath` cuts a path at its last slash.
use very_simple_file_system.Base.{
  ℕ, ◌+◌, ◌<◌, ◌≡◌, refl, ap, sym, [], ◌∷◌, ◌++◌, Option, some, arith, ◌==◌, if◌then◌else◌,
  Bool-cases, ==_iff, inl, inr,
}
use very_simple_file_system.Disk.{Bytes}
use very_simple_file_system.Path.{
  slash, slash_count, cut_at, prepend, parse_path, format_relative_path,
}

-- `r` is a cut of `path` at its last slash.
abbrev pub IsLastCut : Bytes → Option (Bytes × Bytes) → Type 0
IsLastCut path r =
    (dir : Bytes) × (name : Bytes) × (r ≡ some (dir, name))
    × (slash_count name ≡ 0)
    × (dir ++ (slash ∷ name) ≡ path)

prepend-IsLastCut :
    (c : ℕ) (path : Bytes) (r : Option (Bytes × Bytes))
    → IsLastCut path r
    → IsLastCut (c ∷ path) (prepend c r)
prepend-IsLastCut c path r (dir, name, e, n, j) =
    (c ∷ dir, name, ap (prepend c) e, n, ap (λ l. c ∷ l) j)

cut_at-IsLastCut :
    (slash_cnt seen : ℕ) (path : Bytes)
    → slash_cnt ≡ seen + slash_count path
    → 0 < slash_count path
    → IsLastCut path (cut_at slash_cnt seen path)
unfolding cut_at slash_count
cut_at-IsLastCut slash_cnt seen [] e h = absurd (omega arith)
cut_at-IsLastCut slash_cnt seen (c ∷ path) e h = elim (Bool-cases (c == slash)) [
  | inr other ↦ rw other (
      prepend-IsLastCut c path _
        (cut_at-IsLastCut slash_cnt seen path (ground arith) (ground arith)))
  | inl hit ↦ elim (Bool-cases (seen + 1 == slash_cnt)) [
    | inl last ↦
        rw (hit, last)
          ([], path, refl, ground arith, ap (λ b. b ∷ path) (sym ((==_iff c slash).0 hit)))
    | inr more ↦
        rw (hit, more)
          (prepend-IsLastCut c path _
            (cut_at-IsLastCut slash_cnt (seen + 1) path (ground arith) (ground arith)))
  ]
]

-- The path that is cut: one with no slash is first taken as relative to ".".
abbrev pub full_path : Bytes → Bytes
full_path path = if slash_count path == 0 then format_relative_path path else path

-- For every path, `parsePath` gives two parts, and the second holds no slash; joined with a slash
-- they are the path, or the path behind `./` where it holds no slash.
pub parse_path-IsLastCut : (path : Bytes) → IsLastCut (full_path path) (parse_path path)
unfolding parse_path
parse_path-IsLastCut path = elim (Bool-cases (slash_count path == 0)) [
  | inl none_found ↦
      let one : slash_count (format_relative_path path) ≡ 1 =
        unfold slash_count format_relative_path in ground arith in
      rw none_found (cut_at-IsLastCut 1 0 (format_relative_path path) (omega arith) (omega arith))
  | inr found ↦ rw found (cut_at-IsLastCut (slash_count path) 0 path (omega arith) (ground arith))
]

-- A name directly under the root: the directory part is empty.
parse_path-root :
    (name : Bytes) → slash_count name ≡ 0 → parse_path (slash ∷ name) ≡ some ([], name)
unfolding parse_path slash_count cut_at
parse_path-root name h = ground arith
