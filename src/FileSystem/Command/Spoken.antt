-- ===== src/FileSystem/Command/Spoken.antt =====
-- The lines of the command line that `parseCmd` takes apart, and the commands that they stand for.
use very_simple_file_system.Base.{
  ℕ, ◌-◌, ◌<◌, ◌^◌, ◌≡◌, ◌≢◌, refl, [], ◌∷◌, ◌++◌, false, codes, ◌==◌, arith, inl, inr, lt-cases,
  lt→ltb, le→not_ltb, zero, suc, length, length-append, ◌≤◌, ◌/◌, ◌%◌, ◌+◌,
}
use very_simple_file_system.Run.{pure, ◌>>◌}
use very_simple_file_system.Disk.{Bytes}
use very_simple_file_system.Table.{show_int, digits_of, text_eq}
use very_simple_file_system.FileSystem.State.{FileSystem, Action, cd}
use very_simple_file_system.FileSystem.Create.{mkdir, mkfs}
use very_simple_file_system.FileSystem.Descriptor.{open_file, close, seek}
use very_simple_file_system.FileSystem.Content.{read, cat, ls, tree, import, export}
use very_simple_file_system.FileSystem.Remove.{rm, rmdir}
use very_simple_file_system.FileSystem.Command.{
  space, max_len, word_within, split_line, get_word, parse_cmd, word_command, run_line,
}
use very_simple_file_system.FileSystem.Command.Numbers.{
  AllDigits, digits_of-AllDigits, atoi-show_int,
}

pub data Spoken : Type 0 where
  mkfs_line : Spoken
  ls_line : Spoken
  tree_line : Spoken
  mkdir_line : Bytes → Spoken
  rmdir_line : Bytes → Spoken
  cat_line : Bytes → Spoken
  rm_line : Bytes → Spoken
  cd_line : Bytes → Spoken
  open_line : Bytes → Bytes → Spoken
  import_line : Bytes → Bytes → Spoken
  export_line : Bytes → Bytes → Spoken
  close_line : ℕ → Spoken
  seek_line : ℕ → ℕ → Spoken
  read_line : ℕ → ℕ → Spoken

-- What the user types: the command's name and its words and numbers, a space between them.
unfoldable pub line_of : Spoken → Bytes
line_of mkfs_line = codes "mkfs"
line_of ls_line = codes "ls"
line_of tree_line = codes "tree"
line_of (mkdir_line w) = codes "mkdir " ++ w
line_of (rmdir_line w) = codes "rmdir " ++ w
line_of (cat_line w) = codes "cat " ++ w
line_of (rm_line w) = codes "rm " ++ w
line_of (cd_line w) = codes "cd " ++ w
line_of (open_line f g) = codes "open " ++ (f ++ (space ∷ g))
line_of (import_line f g) = codes "import " ++ (f ++ (space ∷ g))
line_of (export_line f g) = codes "export " ++ (f ++ (space ∷ g))
line_of (close_line n) = codes "close " ++ show_int n
line_of (seek_line n m) = codes "seek " ++ (show_int n ++ (space ∷ show_int m))
line_of (read_line n m) = codes "read " ++ (show_int n ++ (space ∷ show_int m))

-- What is meant by it.
unfoldable pub meaning : ℕ → Spoken → Action (Unit {0})
meaning depth mkfs_line = do mkfs; pure tt
meaning depth ls_line = do ls; pure tt
meaning depth tree_line = tree depth
meaning depth (mkdir_line w) = do mkdir w; pure tt
meaning depth (rmdir_line w) = do rmdir w; pure tt
meaning depth (cat_line w) = do cat w; pure tt
meaning depth (rm_line w) = rm w
meaning depth (cd_line w) = do cd w; pure tt
meaning depth (open_line f g) = do open_file f g; pure tt
meaning depth (import_line f g) = import f g
meaning depth (export_line f g) = export f g
meaning depth (close_line n) = do close n; pure tt
meaning depth (seek_line n m) = do seek n m; pure tt
meaning depth (read_line n m) = do read n m; pure tt

abbrev NoSpace : Bytes → Type 0
NoSpace [] = Unit
NoSpace (c ∷ w) = (c ≢ space) × NoSpace w

-- A word that `getline` takes as a whole.
abbrev IsWord : Bytes → Type 0
IsWord w = NoSpace w × (length w < max_len)

-- Words without a space, and numbers that are patterns of an `int`.
abbrev pub IsSpoken : Spoken → Type 0
IsSpoken (mkdir_line w) = IsWord w
IsSpoken (rmdir_line w) = IsWord w
IsSpoken (cat_line w) = IsWord w
IsSpoken (rm_line w) = IsWord w
IsSpoken (cd_line w) = IsWord w
IsSpoken (open_line f g) = IsWord f × IsWord g
IsSpoken (import_line f g) = IsWord f × IsWord g
IsSpoken (export_line f g) = IsWord f × IsWord g
IsSpoken (close_line n) = n < 2 ^ 32
IsSpoken (seek_line n m) = (n < 2 ^ 32) × (m < 2 ^ 32)
IsSpoken (read_line n m) = (n < 2 ^ 32) × (m < 2 ^ 32)
IsSpoken _ = Unit

within_end : (room : ℕ) (w : Bytes) → NoSpace w → length w ≤ room → word_within room w ≡ (w, [])
unfolding word_within
within_end zero [] h l = refl
within_end (suc room) [] h l = refl
within_end zero (c ∷ w) h l = absurd (omega (arith, l))
within_end (suc room) (c ∷ w) (ne, h) l =
    let other : (c == space) ≡ false = ground arith in
    rw (other, within_end room w h (omega (arith, l))) refl

within-space :
    (room : ℕ) (w rest : Bytes)
    → NoSpace w
    → length w ≤ room
    → word_within room (w ++ (space ∷ rest)) ≡ (w, rest)
unfolding word_within
within-space zero [] rest h l = refl
within-space (suc room) [] rest h l = refl
within-space zero (c ∷ w) rest h l = absurd (omega (arith, l))
within-space (suc room) (c ∷ w) rest (ne, h) l =
    let other : (c == space) ≡ false = ground arith in
    rw (other, within-space room w rest h (omega (arith, l))) refl

get_word_end : (w : Bytes) → IsWord w → get_word w ≡ (w, [])
unfolding get_word
get_word_end w (h, l) = within_end (max_len - 1) w h (omega (arith, l))

get_word-space : (w rest : Bytes) → IsWord w → get_word (w ++ (space ∷ rest)) ≡ (w, rest)
unfolding get_word
get_word-space w rest (h, l) = within-space (max_len - 1) w rest h (omega (arith, l))

digits-NoSpace : (text : Bytes) → AllDigits text → NoSpace text
digits-NoSpace [] a = tt
digits-NoSpace (c ∷ text) (p, q, a) = ((λ e. omega (arith, e, p)), digits-NoSpace text a)

show_int-NoSpace : (n : ℕ) → NoSpace (show_int n)
unfolding show_int
show_int-NoSpace n = elim (lt-cases n (2 ^ 31)) [
  | inl small ↦
      rw (lt→ltb n (2 ^ 31) small) (digits-NoSpace (digits_of 10 n) (digits_of-AllDigits 10 n))
  | inr large ↦
      rw (le→not_ltb n (2 ^ 31) large)
        ((λ e. omega (arith, e)), digits-NoSpace _ (digits_of-AllDigits 10 (2 ^ 32 - n)))
]

digits_of-short : (fuel n : ℕ) → length (digits_of fuel n) ≤ fuel
unfolding digits_of
digits_of-short zero n = omega arith
digits_of-short (suc fuel) n = elim (lt-cases n 10) [
  | inl small ↦ rw (lt→ltb n 10 small) (omega arith)
  | inr large ↦
      let front = digits_of-short fuel (n / 10) in
      let whole = length-append (digits_of fuel (n / 10)) ((n % 10 + b'0') ∷ []) in
      rw (le→not_ltb n 10 large) (omega (arith, front, whole))
]

show_int-short : (n : ℕ) → length (show_int n) ≤ 11
unfolding show_int
show_int-short n = elim (lt-cases n (2 ^ 31)) [
  | inl small ↦ rw (lt→ltb n (2 ^ 31) small) (omega (arith, digits_of-short 10 n))
  | inr large ↦ rw (le→not_ltb n (2 ^ 31) large) (omega (arith, digits_of-short 10 (2 ^ 32 - n)))
]

show_int-IsWord : (n : ℕ) → IsWord (show_int n)
show_int-IsWord n = (show_int-NoSpace n, omega (arith, show_int-short n))

module _ (exec : Bytes → Action (Unit {0})) (fresh : Bytes) (depth : ℕ) where
  -- For every line that names one of the commands mkfs, ls, tree, mkdir, rmdir, cat, rm, cd, open,
  -- import, export, close, seek and read, with words that have no space in them and less than 1024
  -- bytes (MAX_LEN) and numbers that are 32-bit patterns of an `int`, printed in decimal, negative
  -- ones with their sign, and with one space before each: from every state the run of the line is
  -- the run of that command on these words and numbers, whatever `exec` does, a new buffer holds
  -- and the depth of `tree` is.
  pub run_line-line_of :
      (c : Spoken) (s : FileSystem)
      → IsSpoken c
      → run_line exec fresh depth (line_of c) s ≡ meaning depth c s
  unfolding run_line parse_cmd word_command split_line text_eq line_of meaning
  run_line-line_of mkfs_line s h = refl
  run_line-line_of ls_line s h = refl
  run_line-line_of tree_line s h = refl
  run_line-line_of (mkdir_line w) s h = rw (get_word_end w h) refl
  run_line-line_of (rmdir_line w) s h = rw (get_word_end w h) refl
  run_line-line_of (cat_line w) s h = rw (get_word_end w h) refl
  run_line-line_of (rm_line w) s h = rw (get_word_end w h) refl
  run_line-line_of (cd_line w) s h = rw (get_word_end w h) refl
  run_line-line_of (open_line f g) s (hf, hg) = rw (get_word-space f g hf, get_word_end g hg) refl
  run_line-line_of (import_line f g) s (hf, hg) = rw (get_word-space f g hf, get_word_end g hg) refl
  run_line-line_of (export_line f g) s (hf, hg) = rw (get_word-space f g hf, get_word_end g hg) refl
  run_line-line_of (close_line n) s h =
      rw (get_word_end (show_int n) (show_int-IsWord n), atoi-show_int n h) refl
  run_line-line_of (seek_line n m) s (hn, hm) =
      rw
        (
          get_word-space (show_int n) (show_int m) (show_int-IsWord n),
          get_word_end (show_int m) (show_int-IsWord m),
          atoi-show_int n hn,
          atoi-show_int m hm,
        )
        refl
  run_line-line_of (read_line n m) s (hn, hm) =
      rw
        (
          get_word-space (show_int n) (show_int m) (show_int-IsWord n),
          get_word_end (show_int m) (show_int-IsWord m),
          atoi-show_int n hn,
          atoi-show_int m hm,
        )
        refl
