-- ===== src/FileSystem/Command.antt =====
-- The command line of src/fs/vsfs.cpp: `parseCmd`, `prompt`, `rpc`, and the parts of a
-- `std::stringstream` that they use. A quoted text runs past its buffer in the code from MAX_LEN bytes
-- on; here it is shorter.
pub mod Numbers
pub mod Spoken
use very_simple_file_system.Base.{
  ℕ, zero, suc, ◌+◌, ◌-◌, ◌*◌, ◌%◌, ◌^◌, List, [], ◌∷◌, ◌++◌, Bool, true, ◌&&◌, Option, none, some,
  ◌==◌, ltb, leb, if◌then◌else◌, codes, length, drop,
}
use very_simple_file_system.Run.{Run, ok, fault, uninitialised, pure, fail, ◌>>=◌, ◌>>◌}
use very_simple_file_system.Layout.{minus_one}
use very_simple_file_system.Disk.{Bytes}
use very_simple_file_system.Table.{text_eq, c_str}
use very_simple_file_system.Path.{concat_string}
use very_simple_file_system.FileSystem.State.{FileSystem, Action, say, endl, cd}
use very_simple_file_system.FileSystem.Create.{mkdir, mkfs}
use very_simple_file_system.FileSystem.Descriptor.{open_file, close, seek}
use very_simple_file_system.FileSystem.Content.{write_, read, cat, ls, tree, import, export}
use very_simple_file_system.FileSystem.Remove.{rm, rmdir}

abbrev pub max_len : ℕ
max_len = 1024

abbrev pub space : ℕ
space = b' '

-- `strchr` with a space: what is before the first one and what is behind it.
unfoldable pub split_line : Bytes → Bytes × Bytes
split_line [] = ([], [])
split_line (c ∷ text) =
    let (op, rest) = split_line text in if c == space then ([], text) else (c ∷ op, rest)

-- A `getline` up to a space into a buffer that takes `room` more bytes. Where they do not suffice,
-- the stream fails, and every later `getline` on it gives an empty word, as at its end.
unfoldable pub word_within : ℕ → Bytes → Bytes × Bytes
word_within room [] = ([], [])
word_within zero (c ∷ text) = if c == space then ([], text) else ([], [])
word_within (suc room) (c ∷ text) =
    let (word, rest) = word_within room text in if c == space then ([], text) else (c ∷ word, rest)

-- `getline(word, MAX_LEN, ' ')`: the word up to the next space, and what follows the space.
unfoldable pub get_word : Bytes → Bytes × Bytes
unfolding word_within
get_word text = word_within (max_len - 1) text

abbrev pub is_digit : ℕ → Bool
is_digit c = leb b'0' c && leb c b'9'

unfoldable pub digits_value : ℕ → Bytes → ℕ
digits_value acc [] = acc
digits_value acc (c ∷ text) =
    let longer = digits_value (acc * 10 + (c - b'0')) text in if is_digit c then longer else acc

-- `atoi` on a text with no leading white space, as words have none; a value out of the range of `int` is undefined
-- there and wraps here.
unfoldable pub atoi : Bytes → ℕ
unfolding digits_value
atoi [] = 0
atoi (c ∷ text) =
    if c == b'-'
    then (2 ^ 32 - digits_value 0 text % 2 ^ 32) % 2 ^ 32
    else if c == b'+'
    then digits_value 0 text % 2 ^ 32
    else digits_value 0 (c ∷ text) % 2 ^ 32

abbrev stored_byte : ℕ → Bytes × Bool → Bytes × Bool
stored_byte b (bytes, closed) = (b ∷ bytes, closed)

abbrev head_or : Bytes → ℕ → ℕ
head_or [] b = b
head_or (x ∷ xs) b = x

-- The loop of `write` over a quoted text, with the last character read: what the buffer holds from here on, and
-- whether that character is a quote at the end. `fresh` is the rest of the new buffer. An escape
-- other than `\n` leaves its byte of the buffer as it was, and no NUL is stored behind the last
-- byte, so the old content of the buffer follows.
unfoldable pub quoted : ℕ → Bytes → Bytes → Bytes × Bool
quoted last [] fresh = (fresh, last == b'"')
quoted last (c ∷ []) fresh = (fresh, c == b'"')
quoted last (c ∷ e ∷ text) fresh =
    let plain = stored_byte c (quoted c (e ∷ text) (drop 1 fresh)) in
    let escaped =
      stored_byte (if e == b'n' then 10 else head_or fresh 0) (quoted e text (drop 1 fresh)) in
    if c == b'"' then (fresh, true) else if c == b'\\' then escaped else plain

-- The `write` command behind its descriptor: `none` is an unmatched quote. With no text `c` is
-- never set.
unfoldable pub write_content : Bytes → Bytes → Action (Option Bytes)
write_content [] fresh = fail uninitialised
write_content (c ∷ text) fresh =
    if c == b'"'
    then (let (bytes, closed) = quoted c text fresh in
        if closed then pure (some (c_str bytes)) else pure none)
    else pure (some (c_str (c ∷ (get_word text).0)))

-- The end of `rpc`: the output of the command, and what was printed before it.
abbrev rpc_end : Bytes → Run FileSystem (Unit {0}) → Run FileSystem Bytes
rpc_end before (ok a t) = ok t.cout (record t { cout = before })
rpc_end before (fault e) = fault e

-- What the program asks of its host beside files: `exec` runs a binary of the host. `fresh` is the
-- content of a new buffer, and `depth` bounds the depth of a listing by `tree`.
module _ (exec : Bytes → Action (Unit {0})) (fresh : Bytes) (depth : ℕ) where
  write_command : Bytes → Action (Unit {0})
  write_command rest = do
    content ← write_content (get_word rest).1 fresh
    elim content [
      | none ↦ say (codes "quote not match" ++ endl)
      | some str ↦ do write_ (atoi (get_word rest).0) str; pure tt
    ]

  run_binary : Bytes → Action (Unit {0})
  run_binary op = do
    fd ← open_file op (codes "r")
    if fd == minus_one
        then say (codes "no such file named " ++ (op ++ endl))
        else (do close fd; export op op; exec (concat_string (codes "./") op))

  -- The commands that take words; `rest` is the line behind the command.
  unfoldable pub word_command : Bytes → Bytes → Action (Unit {0})
  unfolding write_command run_binary
  word_command op rest =
      let (first, after) = get_word rest in
      let (second, last) = get_word after in
      if text_eq op (codes "cd")
      then (do cd first; pure tt)
      else if text_eq op (codes "open")
      then (do open_file first second; pure tt)
      else if text_eq op (codes "import")
      then import first second
      else if text_eq op (codes "export")
      then export first second
      else if text_eq op (codes "close")
      then (do close (atoi first); pure tt)
      else if text_eq op (codes "seek")
      then (do seek (atoi first) (atoi second); pure tt)
      else if text_eq op (codes "read")
      then (do read (atoi first) (atoi second); pure tt)
      else if text_eq op (codes "write")
      then write_command rest
      else run_binary op

  unfoldable pub parse_cmd : Bytes → Bytes → Action (Unit {0})
  unfolding word_command
  parse_cmd [] rest = pure tt
  parse_cmd (c ∷ op') rest =
      let op = c ∷ op' in
      let first = (get_word rest).0 in
      if text_eq op (codes "mkfs")
      then (do mkfs; pure tt)
      else if text_eq op (codes "ls")
      then (do ls; pure tt)
      else if text_eq op (codes "tree")
      then tree depth
      else if text_eq op (codes "mkdir")
      then (do mkdir first; pure tt)
      else if text_eq op (codes "rmdir")
      then (do rmdir first; pure tt)
      else if text_eq op (codes "cat")
      then (do cat first; pure tt)
      else if text_eq op (codes "rm")
      then rm first
      else word_command op rest

  -- A line is cut at its first space.
  unfoldable pub run_line : Bytes → Action (Unit {0})
  unfolding parse_cmd
  run_line line = let (op, rest) = split_line line in parse_cmd op rest

  -- The lines that the user types; a line that is too long ends the loop.
  pub prompt_lines : List Bytes → Action (Unit {0})
  unfolding run_line
  prompt_lines [] = say (codes "$ ")
  prompt_lines (line ∷ lines) = do
    say (codes "$ ")
    if ltb (length line) max_len then (do run_line line; prompt_lines lines) else pure tt

  pub prompt : List Bytes → Action (Unit {0})
  unfolding prompt_lines
  prompt lines = do
    say (codes "Welcome to VS file system, type mkfs and hit enter to begin!" ++ endl)
    prompt_lines lines

  -- `rpc` runs its first argument with the output sent to the file `tmp`: the output is given here.
  unfoldable pub rpc : Bytes → FileSystem → Run FileSystem Bytes
  unfolding run_line
  rpc arg s = rpc_end s.cout (run_line arg (record s { cout = [] }))
