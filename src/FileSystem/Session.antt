-- ===== src/FileSystem/Session.antt =====
-- An abstract file: a text, a position in it, and what was printed. The commands `write_`, `seek`
-- and `read` on one descriptor do to the system what they do to the abstract file.
pub mod Over
pub mod Refines
use very_simple_file_system.Base.{
  ℕ, ◌+◌, ◌-◌, ◌≤◌, ◌<◌, ◌≡◌, refl, ap, sym, ◌∙◌, List, [], ◌∷◌, ◌++◌, Option, some, none, ◌&&◌,
  ltb, leb, if◌then◌else◌, length, take, drop, get_or, arith,
}
use very_simple_file_system.Run.{Returns, Cmd, pure, ◌>>=◌, ◌>>◌}
use very_simple_file_system.Disk.{Bytes}
use very_simple_file_system.Table.{c_str}
use very_simple_file_system.FileSystem.State.{FileSystem, OpenFile, Action, endl}
use very_simple_file_system.FileSystem.Descriptor.{seek}
use very_simple_file_system.FileSystem.Content.{write_, read}

pub data Op : Type 0 where
  put : Bytes → Op
  go : ℕ → Op
  get : ℕ → Op

pub record Text : Type 0 where
  pub content : Bytes
  pub position : ℕ
  pub shown : Bytes

-- The text with `str` over it from `at` on, which may make it longer.
unfoldable pub over : ℕ → Bytes → Bytes → Bytes
over at str content = take at content ++ (str ++ drop (at + length str) content)

-- A write begins inside the text or at its end and ends before `limit`; a read stays inside.
unfoldable pub text_step : ℕ → Op → Text → Option Text
text_step limit (put str) a =
    if leb a.position (length a.content) && ltb (a.position + length str) limit
    then some
        (record a { content = over a.position str a.content; position = a.position + length str })
    else none
text_step limit (go to) a = some (record a { position = to })
text_step limit (get n) a =
    if ltb a.position (length a.content) && leb (a.position + n) (length a.content)
    then some (record a {
      position = a.position + n;
      shown = a.shown ++ (c_str (take n (drop a.position a.content)) ++ endl);
    })
    else none

unfoldable pub text_run : ℕ → List Op → Text → Option Text
unfolding text_step
text_run limit [] a = some a
text_run limit (op ∷ ops) a = elim (text_step limit op a) [
  | none ↦ none
  | some b ↦ text_run limit ops b
]

-- The same as commands on the descriptor `fd`.
abbrev pub do_op : ℕ → Op → Action (Unit {0})
do_op fd (put str) = do write_ fd str; pure tt
do_op fd (go to) = do seek fd to; pure tt
do_op fd (get n) = do read fd n; pure tt

unfoldable pub do_ops : ℕ → List Op → Action (Unit {0})
do_ops fd [] = pure tt
do_ops fd (op ∷ ops) = do do_op fd op; do_ops fd ops
