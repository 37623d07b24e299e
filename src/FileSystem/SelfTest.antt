-- ===== src/FileSystem/SelfTest.antt =====
-- The test functions and `main` of src/fs/vsfs.cpp. Each makes a file system on the disk that
-- `vdisk` holds.
pub mod Level1
use very_simple_file_system.Base.{ℕ, List, Option, codes}
use very_simple_file_system.Run.{Run, pure, and_then, ◌>>◌}
use very_simple_file_system.Disk.{Bytes, Disk}
use very_simple_file_system.FileSystem.State.{FileSystem, Action, cd}
use very_simple_file_system.FileSystem.Create.{mkfs, mkdir, new_file_system}
use very_simple_file_system.FileSystem.Descriptor.{open_file, close, seek}
use very_simple_file_system.FileSystem.Content.{write, write_, read, cat, ls, tree, import, export}
use very_simple_file_system.FileSystem.Remove.{rmdir}
use very_simple_file_system.FileSystem.Command.{prompt}

module _ (vdisk : Disk) (now : Bytes) (host : Bytes → Option Bytes) where
  abbrev pub with_new : Action (Unit {0}) → Run FileSystem (Unit {0})
  with_new body = and_then (new_file_system vdisk now host) (λ _. body)

  unfoldable pub test_read_write : Run FileSystem (Unit {0})
  test_read_write = with_new (do
    mkfs
    open_file (codes "foo") (codes "w")
    open_file (codes "bar") (codes "w")
    write 0 (codes "good restraut!")
    cat (codes "foo")
    close 0
    ls
    mkdir (codes "new foo")
    ls
    rmdir (codes "new foo")
    ls
    pure tt)

  unfoldable pub testrm : Run FileSystem (Unit {0})
  testrm = with_new (do open_file (codes "foo") (codes "w"); pure tt)

  unfoldable pub testcd : ℕ → Run FileSystem (Unit {0})
  testcd depth = with_new (do
    open_file (codes "file1") (codes "w")
    mkdir (codes "dir1")
    mkdir (codes "dir2")
    ls
    cd (codes "dir1")
    open_file (codes "f1") (codes "w")
    cd (codes "..")
    open_file (codes "f2") (codes "w")
    cd (codes "dir2")
    ls
    mkdir (codes "dir3")
    cd (codes "/")
    tree depth)

  -- The body of `testLevel1`, from `mkfs` on.
  abbrev pub level_1_body : Action (Unit {0})
  level_1_body = do
    mkfs
    open_file (codes "foo") (codes "w")
    seek 0 5000
    write_ 0 (codes "new block")
    seek 0 5000
    read 0 9
    pure tt

  unfoldable pub test_level_1 : Run FileSystem (Unit {0})
  test_level_1 = with_new level_1_body

  unfoldable pub testopen : Run FileSystem (Unit {0})
  testopen = with_new (do open_file (codes "foo") (codes "w"); pure tt)

  unfoldable pub testexport : Run FileSystem (Unit {0})
  testexport =
      with_new
        (do mkfs; import (codes "hello") (codes "hello1"); export (codes "hello1") (codes "hello1"))

  module _ (exec : Bytes → Action (Unit {0})) (fresh : Bytes) (depth : ℕ) (lines : List Bytes) where
    unfoldable pub test_prompt : Run FileSystem (Unit {0})
    test_prompt = with_new (prompt exec fresh depth lines)

    unfoldable pub main : Run FileSystem (Unit {0})
    main = test_prompt
