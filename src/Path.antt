-- ===== src/Path.antt =====
-- Paths of src/fs/vsfs.cpp: `formatRelativePath`, `parsePath`, `concatString`, and the words that
-- `strtok` finds.
pub mod Parse
pub mod Words
use very_simple_file_system.Base.{
  ℕ, zero, suc, ◌+◌, List, [], ◌∷◌, ◌++◌, Option, none, some, ◌==◌, if◌then◌else◌, codes,
}
use very_simple_file_system.Disk.{Bytes}

abbrev pub slash : ℕ
slash = b'/'

unfoldable pub format_relative_path : Bytes → Bytes
format_relative_path path = codes "./" ++ path

unfoldable pub concat_string : Bytes → Bytes → Bytes
concat_string a b = a ++ b

-- The first pass of `parsePath`.
unfoldable pub slash_count : Bytes → ℕ
slash_count [] = 0
slash_count (c ∷ path) = (if c == slash then 1 else 0) + slash_count path

abbrev prepend : ℕ → Option (Bytes × Bytes) → Option (Bytes × Bytes)
prepend c none = none
prepend c (some (dir, name)) = some (c ∷ dir, name)

-- The second pass, with `slash_p` slashes seen: the text is cut at the slash number `slash_cnt`.
-- `none` is the end of the function without a result.
unfoldable pub cut_at : ℕ → ℕ → Bytes → Option (Bytes × Bytes)
cut_at slash_cnt slash_p [] = none
cut_at slash_cnt slash_p (c ∷ path) =
    let inside = prepend c (cut_at slash_cnt (slash_p + 1) path) in
    let plain = prepend c (cut_at slash_cnt slash_p path) in
    if c == slash then (if slash_p + 1 == slash_cnt then some ([], path) else inside) else plain

-- The directory part and the file name.
unfoldable pub parse_path : Bytes → Option (Bytes × Bytes)
parse_path file_path =
    if slash_count file_path == 0
    then cut_at 1 0 (format_relative_path file_path)
    else cut_at (slash_count file_path) 0 file_path

-- The words of a path in order, as `strtok(path, "/")` and `strtok(NULL, "/")` find them. `word` is the word
-- that was begun.
abbrev end_word : Bytes → List Bytes → List Bytes
end_word [] words = words
end_word (c ∷ word) words = (c ∷ word) ∷ words

unfoldable pub tokens_from : Bytes → Bytes → List Bytes
tokens_from word [] = end_word word []
tokens_from word (c ∷ path) =
    let ended = end_word word (tokens_from [] path) in
    let longer = tokens_from (word ++ c ∷ []) path in if c == slash then ended else longer

unfoldable pub tokens : Bytes → List Bytes
unfolding tokens_from
tokens path = tokens_from [] path
