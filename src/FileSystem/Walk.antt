-- ===== src/FileSystem/Walk.antt =====
-- `cd` follows a path: from the root or from the working directory, word by word.
use very_simple_file_system.Directory.Entries.{EndsNamed}
use very_simple_file_system.Base.{
  append-nil, ℕ, ◌<◌, ◌≡◌, refl, ap, sym, ◌∙◌, List, [], ◌∷◌, ◌++◌, false, none, some, codes, arith,
  ◌==◌,
}
use very_simple_file_system.Run.{ok}
use very_simple_file_system.Layout.{minus_one}
use very_simple_file_system.Disk.{Bytes, Disk}
use very_simple_file_system.Path.{slash, slash_count}
use very_simple_file_system.Path.Words.{AllWords, path_of, tokens-path_of, tokens-behind}
use very_simple_file_system.Directory.{DirEntry}
use very_simple_file_system.Directory.Load.{live_count, table_of, load_dir_table-table_of}
use very_simple_file_system.Directory.Saved.{IsSavedDirectory}
use very_simple_file_system.Directory.Lookup.{first_live, find-first_live}
use very_simple_file_system.FileSystem.State.{
  FileSystem, endl, change_cwd_to, find_file_in_cur_dir, cd_words, enter_root, cd,
}
use very_simple_file_system.FileSystem.Here.{change_cwd_to_load, found, not_found}

-- The words lead from the directory `i` with the entries `es` to the directory `k` with the
-- entries `fs`, each word to the first entry that has it and is not deleted. The directories that
-- are loaded on the way end with an entry that has a name, so that loading prints nothing.
pub data Walk (d : Disk) : ℕ → List DirEntry → List Bytes → ℕ → List DirEntry → Type 0 where
  arrived : {i : ℕ} {es : List DirEntry} → Walk d i es [] i es
  into :
      {i j k : ℕ} {es fs gs : List DirEntry} {w : Bytes} {words : List Bytes}
      → first_live w es ≡ some j
      → IsSavedDirectory j d fs
      → 0 < live_count fs
      → EndsNamed fs
      → Walk d j fs words k gs
      → Walk d i es (w ∷ words) k gs

-- The directory where the walk of a path starts, and the words of the path.
pub data Departs (s : FileSystem) : ℕ → List DirEntry → List Bytes → Bytes → Type 0 where
  from_root :
      {es : List DirEntry} {w : Bytes} {words : List Bytes}
      → IsSavedDirectory s.root s.disk es
      → 0 < live_count es
      → EndsNamed es
      → Departs s s.root es (w ∷ words) (path_of (w ∷ words))
  from_cwd :
      {es : List DirEntry} {w : Bytes} {words : List Bytes}
      → s.cwd_table ≡ table_of es []
      → Departs s s.cwd es (w ∷ words) (w ++ path_of words)

-- The state with this working directory.
abbrev pub at_dir : ℕ → List DirEntry → FileSystem → FileSystem
at_dir i es s = record s { cwd = i; cwd_table = table_of es [] }

cd_words_into :
    (w : Bytes) (words : List Bytes) (j : ℕ) (s t : FileSystem)
    → find_file_in_cur_dir w s ≡ j
    → (j == minus_one) ≡ false
    → change_cwd_to j s ≡ ok tt t
    → cd_words (w ∷ words) s ≡ cd_words words t
unfolding cd_words
cd_words_into w words j s t h ne c = rw (h, ne, c) refl

cd_words-walks :
    (s : FileSystem) (i k : ℕ) (es gs : List DirEntry) (words rest : List Bytes)
    → Walk s.disk i es words k gs
    → cd_words (words ++ rest) (at_dir i es s) ≡ cd_words rest (at_dir k gs s)
cd_words-walks s i k es gs words rest arrived = refl
cd_words-walks s i k es gs (w ∷ words) rest (into {j = j} {fs = fs} here v pos _ more) =
    cd_words_into w (words ++ rest) j (at_dir i es s) (at_dir j fs s)
      (found w j (at_dir i es s) (find-first_live w es ∙ here)) (ground (arith, v.directory.id_lt))
      (change_cwd_to_load j (at_dir i es s) (table_of fs [])
        (load_dir_table-table_of j s.disk fs v.directory pos))
    ∙ cd_words-walks s j k fs gs words rest more

cd_from_root :
    (w : Bytes) (words : List Bytes) (es : List DirEntry) (s : FileSystem)
    → AllWords (w ∷ words)
    → change_cwd_to s.root s ≡ ok tt (at_dir s.root es s)
    → cd (path_of (w ∷ words)) s ≡ cd_words (w ∷ words) (at_dir s.root es s)
unfolding cd enter_root path_of
cd_from_root w words es s v c =
    rw c (ap (λ l. cd_words l (at_dir s.root es s)) (tokens-path_of (w ∷ words) v))

cd_from_cwd :
    (w : Bytes) (words : List Bytes) (s : FileSystem)
    → AllWords (w ∷ words)
    → cd (w ++ path_of words) s ≡ cd_words (w ∷ words) s
unfolding cd enter_root slash_count
cd_from_cwd [] words s v = absurd (omega (arith, v.0))
cd_from_cwd (c ∷ w) words s v =
    let other : (c == slash) ≡ false = let (pos, plain, more) = v in ground (arith, plain) in
    rw other (ap (λ l. cd_words l s) (tokens-behind (c ∷ w) words v))

-- `cd` goes over the words of the path from where the path departs.
cd-Departs :
    (i : ℕ) (es : List DirEntry) (words : List Bytes) (path : Bytes) (s : FileSystem)
    → Departs s i es words path
    → AllWords words
    → cd path s ≡ cd_words words (at_dir i es s)
cd-Departs i es [] path s p h = elim p [ ]
cd-Departs i es (w ∷ words) path s (from_root v pos _) h = cd_from_root w words es s h (
    change_cwd_to_load s.root s (table_of es [])
      (load_dir_table-table_of s.root s.disk es v.directory pos))
cd-Departs i es (w ∷ words) path s (from_cwd loaded) h =
    cd_from_cwd w words s h ∙ ap (λ t. cd_words (w ∷ words) (record s { cwd_table = t })) loaded

-- For a path of words that are not empty and have no slash, from the root where the path begins
-- with a slash, the root is a directory on the disk that has an entry that is not deleted and ends
-- with an entry with a name that is not empty, and else from the working directory where its table
-- is loaded (Departs): if each word is the name of an entry of the directory before it, the first
-- one with the name that is not deleted, and this entry is for such a directory too (Walk), then
-- `cd` of the path returns 0, the working directory is the last of these directories, its table is
-- loaded, and nothing else changed.
pub cd-walks :
    (i k : ℕ) (es gs : List DirEntry) (words : List Bytes) (path : Bytes) (s : FileSystem)
    → Departs s i es words path
    → AllWords words
    → Walk s.disk i es words k gs
    → cd path s ≡ ok 0 (at_dir k gs s)
unfolding cd_words
cd-walks i k es gs words path s p h walk =
    cd-Departs i es words path s p h
    ∙ ap (λ l. cd_words l (at_dir i es s)) (sym (append-nil words))
    ∙ cd_words-walks s i k es gs words [] walk

-- For a path as in the walk of `cd`, from the same starts (Departs): if the words lead to a
-- directory (Walk), and the next word is not the name of an entry there that is not deleted,
-- whatever comes after it, then `cd` of the path returns -1 and prints that the word was not
-- found; the working directory is the one that the words before it lead to, and not the old one,
-- its table is loaded, and nothing else changed.
pub cd-stops :
    (i k : ℕ) (es gs : List DirEntry) (words : List Bytes) (w : Bytes) (rest : List Bytes)
    (path : Bytes) (s : FileSystem)
    → Departs s i es (words ++ (w ∷ rest)) path
    → AllWords (words ++ (w ∷ rest))
    → Walk s.disk i es words k gs
    → first_live w gs ≡ none
    → cd path s
      ≡ ok minus_one (record (at_dir k gs s) {
        cout = s.cout ++ (codes "error: file " ++ (w ++ (codes " not found." ++ endl)));
      })
unfolding cd_words
cd-stops i k es gs words w rest path s p h walk gone =
    let miss : find_file_in_cur_dir w (at_dir k gs s) ≡ minus_one =
      not_found w (at_dir k gs s) (find-first_live w gs ∙ gone) in
    cd-Departs i es (words ++ (w ∷ rest)) path s p h
    ∙ cd_words-walks s i k es gs words (w ∷ rest) walk
    ∙ rw miss refl
