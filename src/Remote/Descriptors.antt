-- ===== src/Remote/Descriptors.antt =====
-- A remote request never finds a descriptor: each one is a new process.
use very_simple_file_system.Base.{
  ℕ, ◌≡◌, refl, ap, ap₂, [], ◌++◌, none, some, if◌then◌else◌, codes, arith,
}
use very_simple_file_system.Run.{Run, ok, fault, and_then}
use very_simple_file_system.Run.Keeps.{Stays, Stays-run}
use very_simple_file_system.Layout.{minus_one}
use very_simple_file_system.Disk.{Bytes, Disk}
use very_simple_file_system.Table.{Table, text_eq}
use very_simple_file_system.Directory.{load_dir_table}
use very_simple_file_system.Directory.Reading.{load_dir_table-Keeps}
use very_simple_file_system.FileSystem.State.{FileSystem, Action, disk_run, load_cwd_table}
use very_simple_file_system.FileSystem.Create.{new_file_system}
use very_simple_file_system.FileSystem.Descriptor.{fd_find, release_fd, close, seek}
use very_simple_file_system.FileSystem.Content.{read}
use very_simple_file_system.FileSystem.Command.{
  get_word, split_line, atoi, word_command, parse_cmd, run_line, rpc,
}
use very_simple_file_system.Remote.{Machine, fs_rpc_main}

abbrev unknown : Bytes
unknown = codes "unknown file descriptor\n"

-- A system that the constructor made for the machine.
abbrev IsNewFor : Machine → FileSystem → Type 0
IsNewFor m s = (s.disk ≡ m.vdisk) × (s.host ≡ m.host) × (s.fd_map ≡ [])

loaded :
    (m : Machine) (s : FileSystem) (r : Run Disk Table)
    → IsNewFor m s
    → Stays (λ e. e ≡ m.vdisk) r
    → Stays
        (IsNewFor m)
        (and_then (disk_run s r) (λ table t. ok tt (record t { cwd_table = table })))
loaded m s (ok table e) (d, h, f) k = (k, h, f)
loaded m s (fault e) v k = tt

new-IsNewFor :
    (m : Machine) (s : FileSystem) → new_file_system m.vdisk m.now m.host ≡ ok tt s → IsNewFor m s
unfolding new_file_system load_cwd_table
new-IsNewFor m s run =
    Stays-run (IsNewFor m) (new_file_system m.vdisk m.now m.host) tt s
      (loaded m _ (load_dir_table 0 m.vdisk) (refl, refl, refl)
        (load_dir_table-Keeps m.vdisk 0 m.vdisk refl))
      run

-- The commands on a descriptor that is not in use.
abbrev refused : FileSystem → FileSystem
refused s = record s { cout = s.cout ++ unknown }

module _ (fd : ℕ) (s : FileSystem) (gone : fd_find fd s.fd_map ≡ none) where
  read-refused : (n : ℕ) → read fd n s ≡ ok (some minus_one) (refused s)
  unfolding read
  read-refused n = rw gone refl

  seek-refused : (to : ℕ) → seek fd to s ≡ ok minus_one (refused s)
  unfolding seek
  seek-refused to = ground (arith, gone)

  close-refused : close fd s ≡ ok 0 (refused s)
  unfolding close release_fd
  close-refused = ground (arith, gone)

-- The machine after a process that printed this message only.
abbrev pub message_only : Machine → Machine
message_only m = record m {
  host = λ path. if text_eq path (codes "tmp") then some unknown else m.host path;
}

module _ (exec : Bytes → Action (Unit {0})) (fresh : Bytes) (depth : ℕ) where
  read_line :
      (rest : Bytes) (s : FileSystem)
      → s.fd_map ≡ []
      → run_line exec fresh depth (codes "read " ++ rest) s ≡ ok tt (refused s)
  unfolding run_line parse_cmd word_command text_eq split_line fd_find
  read_line rest s h =
      rw
        (read-refused (atoi (get_word rest).0) s (ap (fd_find (atoi (get_word rest).0)) h)
          (atoi (get_word (get_word rest).1).0))
        refl

  seek_line :
      (rest : Bytes) (s : FileSystem)
      → s.fd_map ≡ []
      → run_line exec fresh depth (codes "seek " ++ rest) s ≡ ok tt (refused s)
  unfolding run_line parse_cmd word_command text_eq split_line fd_find
  seek_line rest s h =
      rw
        (seek-refused (atoi (get_word rest).0) s (ap (fd_find (atoi (get_word rest).0)) h)
          (atoi (get_word (get_word rest).1).0))
        refl

  close_line :
      (rest : Bytes) (s : FileSystem)
      → s.fd_map ≡ []
      → run_line exec fresh depth (codes "close " ++ rest) s ≡ ok tt (refused s)
  unfolding run_line parse_cmd word_command text_eq split_line fd_find
  close_line rest s h =
      rw (close-refused (atoi (get_word rest).0) s (ap (fd_find (atoi (get_word rest).0)) h)) refl

  process :
      (m : Machine) (s : FileSystem) (arg : Bytes)
      → new_file_system m.vdisk m.now m.host ≡ ok tt s
      → run_line exec fresh depth arg (record s { cout = [] })
        ≡ ok tt (refused (record s { cout = [] }))
      → fs_rpc_main exec fresh depth arg m ≡ ok tt (message_only m)
  unfolding fs_rpc_main rpc
  process m s arg new run =
      let (d, h, f) = new-IsNewFor m s new in
      rw (new, run)
        (ap₂
          (λ disk host. ok tt (record m {
            vdisk = disk;
            host = λ path. if text_eq path (codes "tmp") then some unknown else host path;
          }))
          d h)

  -- Where the constructor makes a file system on the machine's disk, a remote request with the
  -- command `read`, `seek` or `close` and any arguments ends without a fault, its output is the
  -- message for an unknown file descriptor, and nothing else on the machine changes.
  pub fs_rpc_main-message_only :
      (m : Machine) (s : FileSystem) (rest : Bytes)
      → new_file_system m.vdisk m.now m.host ≡ ok tt s
      → (fs_rpc_main exec fresh depth (codes "read " ++ rest) m ≡ ok tt (message_only m))
        × (fs_rpc_main exec fresh depth (codes "seek " ++ rest) m ≡ ok tt (message_only m))
        × (fs_rpc_main exec fresh depth (codes "close " ++ rest) m ≡ ok tt (message_only m))
  fs_rpc_main-message_only m s rest new =
      let none_open = (new-IsNewFor m s new).2 in
      (
        process m s (codes "read " ++ rest) new (read_line rest (record s { cout = [] }) none_open),
        process m s (codes "seek " ++ rest) new (seek_line rest (record s { cout = [] }) none_open),
        process m s (codes "close " ++ rest) new
            (close_line rest (record s { cout = [] }) none_open),
      )
