-- ===== src/Lib.antt =====
-- Verification of the Very Simple File System (src/fs/vsfs.cpp and src/fs/vsfs.hpp): a file system
-- inside one file of the host, `vdisk`, with a command line.
--
-- Parts of the program, from the bottom up.
--   Base       lists, options, Boolean tests and the lemmas that all parts share
--   Run        results of commands: a value and a new state, or a fault; Ends: runs within their fuel;
--              Keeps: commands that keep a property of the state
--   Layout     the constants of the constructor and of calcGlobalOffset: super block, inode map at
--              256K, data map at 512K, inodes of 256 bytes from 1M, data blocks of 4K from 5M, end at
--              100M; getInodeOffset, getDataOffset, getDataIdByOffset, getBlockInnerOffset
--   Disk       vdisk as a map from addresses to bytes; dread, dwrite, getIntAt, putIntAt, resetDisk,
--              initSuper
--   Bitmap     allocBit, allocInodeBlock, allocDataBlock, freeBit, freeInodeBlock, freeDataBlock
--   Inode      class Inode, its stream operators, readInode, writeInode
--   File       the mapping layer: calcDiskAddr, allocAddr_1, allocLevel1Block, writeData, readData.
--              A file has its first block at addr_0 and the others behind the index block at addr_1.
--   Table      C strings and the table from names to inode ids that a directory is loaded into
--   Directory  DirEntry, readEntry, loadDirTable, addEntryToDir, checkDirEmpty. A directory is a file
--              that holds its number of entries and then the entries.
--   Path       formatRelativePath, parsePath, strtok
--   FileSystem the class VSFileSystem. State: its fields and the working directory (cd); Walk: where
--              cd leads. Create: createFile, newDir, mkdir, mkfs, the constructor. Descriptor:
--              registerFD, releaseFD, open, close, seek. Content: write_, write, read, cat, ls, tree,
--              import, export_; Transfer: files that go in and out. Remove: freeFile, rmDirEntry, rm,
--              rmdir. Command: parseCmd, prompt, rpc. Maintenance: printConfig, resetImap, resetDmap,
--              createVirtualDisk. SelfTest: the test functions and main.
--   Remote     main and prompt of src/fs/vsfs_rpc.cpp, execfs, readResult and printmessage_1_svc of
--              src/rpc/shell_server.c, the loop of src/rpc/shell_client.c
--   Invariant  (in FileSystem) steps of the whole system and what they keep
--   Session    (in FileSystem) an abstract file that the commands on one descriptor are compared with
--   Tests      runs at concrete inputs
-- The commands of FileSystem call the directory layer, which calls the mapping layer, which takes
-- blocks from the bitmaps; all of them share the one disk. A command is a function from a state to
-- its result; functions that change an inode through a pointer return the changed inode.
--
-- Numbers. An int that may be -1 (ids, addresses, counters on the disk) is its 32-bit pattern, and
-- sums of addresses wrap. File offsets and lengths are natural numbers; an offset or a length that is
-- negative in the code is a fault, as are a write to a file with a negative capacity, a read or write
-- outside the 100M of the disk, an assertion that fails, and the use of a variable or buffer that was
-- not set. A function with no return statement on a path returns an indeterminate value; there the
-- result is an option.
--
-- Fuel. writeData and readData call themselves for the next block: the fuel counts the calls, with
-- one call for each block in the range and each block to add (write_fuel, read_fuel). The scan over
-- deleted entries gets one round for each byte of the directory. The depth of tree is a parameter.
--
-- The inode's image on the disk is that of x86-64: 88 bytes, the padding and the pointers zero in a
-- new inode. Files of the host are a map from names to contents. The time that asctime gives is a
-- field of the state. What exec does and what a new buffer holds are parameters of the command line.
--
-- Messages of readData. A read that starts at the end of a file or behind it prints a message on cout.
-- It is modelled apart from the bytes that are read (reads_at_end, tell_end), in read, cat and
-- export_. Where an entry of a directory is read, a read at the end returns only for an empty name,
-- of the last entry, as `mkdir` without a name makes one; there the message is not modelled. A result
-- says exactly what is printed only where no directory that is read ends so: EndsNamed is the
-- condition that the last entry has a name, and EndsNamed-inside in Directory/Entries shows that then
-- no name is read at the end.
--
-- Not modelled: the log on cerr and in the file log; the message of readData where a directory that
-- ends with an empty name is read, and the one of allocAddr_1 without a free block; the choice of
-- another input stream; that a host file named vdisk is the disk itself; strlen in write_, of which
-- the result is not used; a quoted text of MAX_LEN bytes or more, which runs past its buffer;
-- execBinary beyond its call; loadDisk, execCmd and incrementDirFileCnt, which nothing calls; and the
-- stubs of src/rpc that rpcgen makes. The file src/fs/vsfs_rpc.cpp is a copy of vsfs.cpp but for
-- prompt and main, which are modelled from it.
--
-- Notions of the results. A file (IsFile) has a capacity of whole blocks up to the largest file size,
-- and its blocks and its index block are distinct blocks of the data region. A stored file (IsStored)
-- has them marked as taken. An address is foreign to a file (IsForeign) if it is neither in a block of
-- the file, nor in a free block, nor in the data map. Enough free data blocks (EnoughBlocks) are as
-- many as the file lacks up to the end of the write, and one for the index block of a file that has
-- none, also where the write adds no block. A disk is sound (IsSound) if every inode that is marked as
-- taken holds a file that is stored and no two of them share a block. The directories of a disk are a
-- tree of names (IsTree) if every taken inode of type 1 is a stored directory, with the counter that
-- its entries ask for, and every entry of it that is not deleted names a taken inode; cycles are not
-- excluded (`.` is one). A system keeps the invariant (IsSystem) if its disk is sound and its
-- directories are such a tree, its descriptors name taken inodes that are not directories, and the
-- next descriptor and all later ones are unused. Words lead from one directory to another (Walk) as
-- the entries that are not deleted say. A file is the same on two disks (IsSameFile) if its inode is
-- taken on the second and has the same fields, and its blocks, bytes and marks are kept. An entry is
-- found by `rm` (IsFound) if the directory is stored, the entry is of a taken inode and the first one
-- with the name, the entries before it have ids that can be read, and fewer entries stand before it
-- than the directory has entries that are not deleted.
pub mod Base
pub mod Run
pub mod Layout
pub mod Disk
pub mod Bitmap
pub mod Inode
pub mod File
pub mod Table
pub mod Directory
pub mod Path
pub mod FileSystem
pub mod Remote
pub mod Tests
