-- ===== src/Remote.antt =====
-- The remote shell: the program `fs_rpc` (`main` of src/fs/vsfs_rpc.cpp), the service of
-- src/rpc/shell_server.c that runs it for each request, and the loop of src/rpc/shell_client.c.
pub mod Descriptors
use very_simple_file_system.Base.{
  ℕ, List, [], ◌∷◌, ◌++◌, ◌==◌, ltb, if◌then◌else◌, Option, some, none, codes, length,
}
use very_simple_file_system.Run.{
  Run, Cmd, ok, fault, uninitialised, pure, fail, and_then, ◌>>=◌, ◌>>◌,
}
use very_simple_file_system.Disk.{Bytes, Disk}
use very_simple_file_system.Table.{c_str, text_eq}
use very_simple_file_system.FileSystem.State.{FileSystem, Action}
use very_simple_file_system.FileSystem.Create.{new_file_system}
use very_simple_file_system.FileSystem.Command.{rpc, run_line, max_len}

-- What the server's machine keeps between two requests: the file `vdisk`, the other files, and
-- what the clock shows. `shown` is what the client's terminal got.
pub record Machine : Type 0 where
  pub vdisk : Disk
  pub host : Bytes → Option Bytes
  pub now : Bytes
  pub shown : Bytes

-- The process `fs_rpc` has ended, and its output stands in the file `tmp`.
abbrev pub with_output : Machine → Run FileSystem Bytes → Run Machine (Unit {0})
with_output m (ok out t) = ok tt (record m {
  vdisk = t.disk;
  host = λ path. if text_eq path (codes "tmp") then some out else t.host path;
})
with_output m (fault e) = fault e

abbrev before : ℕ → Option Bytes → Option Bytes
before c none = none
before c (some out) = some (c ∷ out)

-- `printf(text)`: a `%` that no second one follows takes an argument that is not there.
unfoldable pub printf_text : Bytes → Option Bytes
printf_text [] = some []
printf_text (c ∷ []) = if c == b'%' then none else some (c ∷ [])
printf_text (c ∷ e ∷ text) =
    let plain = before c (printf_text (e ∷ text)) in
    let escaped = before c (printf_text text) in
    if c == b'%' then (if e == b'%' then escaped else none) else plain

abbrev printed : Option Bytes → Cmd Machine Bytes
printed none m = fault uninitialised
printed (some text) m = ok text m

-- `exec` runs a binary of the host, `fresh` is the content of new memory, and `depth` bounds a
-- listing by `tree`.
module _ (exec : Bytes → Action (Unit {0})) (fresh : Bytes) (depth : ℕ) where
  -- `prompt` of the copy writes neither a greeting nor a mark before a line.
  unfoldable pub silent_prompt : List Bytes → Action (Unit {0})
  silent_prompt [] = pure tt
  silent_prompt (line ∷ lines) =
      if ltb (length line) max_len
      then (do run_line exec fresh depth line; silent_prompt lines)
      else pure tt

  -- `main` of the copy: a new file system runs the one argument.
  unfoldable pub fs_rpc_main : Bytes → Cmd Machine (Unit {0})
  fs_rpc_main arg m =
      with_output m
        (and_then (new_file_system m.vdisk m.now m.host) (λ _. rpc exec fresh depth arg))

  -- The child runs `./fs_rpc cmd`; the parent waits for it.
  unfoldable pub execfs : Bytes → Cmd Machine (Unit {0})
  execfs cmd = fs_rpc_main cmd

  -- The buffer has the bytes of `tmp` and no NUL behind them: new memory follows.
  unfoldable pub read_result : Cmd Machine (Option Bytes)
  read_result m = elim (m.host (codes "tmp")) [
    | none ↦ ok none m
    | some content ↦ ok (some (content ++ fresh)) m
  ]

  -- `printf(buffer)` on the server, and the reply, which is read up to its NUL. A null pointer is
  -- not to be printed.
  unfoldable pub reply_of : Option Bytes → Cmd Machine Bytes
  reply_of none = fail uninitialised
  reply_of (some buffer) = do printed (printf_text (c_str buffer)); pure (c_str buffer)

  unfoldable pub printmessage : Bytes → Cmd Machine Bytes
  printmessage cmd = do execfs cmd; buffer ← read_result; reply_of buffer

  abbrev pub show : Bytes → Cmd Machine (Unit {0})
  show text m = ok tt (record m { shown = m.shown ++ text })

  -- The client's loop over the lines that are typed. `gets` writes past its buffer where a line is
  -- too long. A call that fails (`none` of `call`) leaves a message of the library on the log.
  module _ (call : Bytes → Cmd Machine (Option Bytes)) where
    abbrev answered : Option Bytes → Cmd Machine (Unit {0})
    answered none = pure tt
    answered (some text) = do out ← printed (printf_text text); show out

    unfoldable pub client_loop : List Bytes → Cmd Machine (Unit {0})
    client_loop [] = show (codes "client$ ")
    client_loop (cmd ∷ lines) = do
      show (codes "client$ ")
      if ltb (length cmd) max_len then pure tt else fail uninitialised
      result ← call cmd
      answered result
      client_loop lines
