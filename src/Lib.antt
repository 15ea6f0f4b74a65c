-- ===== src/Lib.antt =====
-- YFS: a file system over an extent server and a caching lock server. A verification library for the
-- C++ sources at the root of the repository.
--
-- The parts, from the kernel down to the disk. fuse.cc turns a request of the kernel into calls of
-- yfs_client. yfs_client.cc takes a lock from the lock service, reads and writes whole files through
-- the extent client, and keeps a directory as the text `name/number/...`. extent_client.cc caches the
-- content and the attributes of files; a file belongs to the client that got it last, and
-- extent_server.cc calls the owner to flush it before another client gets it. The server keeps files
-- in inode_manager.cc: inodes and data blocks over a bitmap, on a disk of 512-byte blocks in memory.
-- lock_server_cache.cc gives a lock to one client at a time, tells its holder to give it back when
-- others wait, and tells one waiting client to try again.
--
-- Which file models what:
--   Directory             yfs_client.cc: class yfs_client::directory (directory, find, getdir, addent,
--                         delent, tostring) and finddir; Decimal has operator<< and operator>> on an
--                         unsigned long long, Text the format of the text, Laws and Names are about the
--                         operations on it
--   Handle                handle.cc and handle.h: handle and handle_mgr; Invariant, Removal and Safety
--                         are about each operation, Runs about sequences of them
--   LockServer            lock_server.cc: acquire, release and stat; Runs is about sequences of calls,
--                         Answers about when a call returns
--   LockServerCache       lock_server_cache.cc: acquire, release, stat; Invariant is about one entry,
--                         Runs about histories of requests, Owner about the client that an entry
--                         names, Handover and Queues about the waiting clients and the next owner
--   LockClientCache       lock_client_cache.cc: acquire, blockUntilGot, release, revoke_handler and
--                         retry_handler; Local is about the steps of acquire, Actions about all
--   LockProtocol          lock_server_cache.cc with its lock_client_cache.cc clients and the calls
--                         between them; Exclusion is about who holds the lock
--   Disk, BlockManager    inode_manager.cc and inode_manager.h: disk, block_manager; Bits and Bitmap
--                         are about the bitmap, Alloc and Free about the two operations, Spare
--                         about the free blocks that alloc_block finds
--   InodeManager          inode_manager.cc: inode_manager; Layout is struct inode as bytes, Inodes
--                         is about get_inode and put_inode, Files has the operations on files; Direct,
--                         Progress, Writing, Shrinking, Closing, Reading, Stored and RoundTrip are
--                         about files of direct blocks, Store and Serving about a disk of several
--                         files, Fields and Creation about alloc_inode, Removal about free_inode
--   Extent                extent_server.cc and extent_client.cc: Handlers has the operations of both;
--                         Protocol has the operators of extent_protocol.h on attributes;
--                         Coherence has the content of a file as the clients see it, the steps of the
--                         handlers, the operations, and histories of calls; InodeStorage puts the
--                         inode manager under the server
--   YfsClient             yfs_client.cc: Paths has n2i and filename, Content is what setattr, read and
--                         write do to the bytes, with Laws and Memory about it, Operations the
--                         operations, Locks the locks that they take, Directories the operations
--                         against the list of entries of a directory, Transfer `read` and `write`
--                         against the content of a file; ExtentClient puts the extent client under the
--                         operations
--   Fuse                  fuse.cc: Handlers has the functions with the reply that each sends, Existing
--                         the replies for a name that is there or is not, Listing the pages of a
--                         directory's listing, Sharing histories of `read` and `write` requests of
--                         several clients, OnDisk such histories down to the disk
--   Base                  Boolean tests, lists, bytes and results that the others share
--   Examples              tests on concrete inputs
--
-- How code becomes definitions. A machine integer is a natural number, with the wrap-around written
-- where the code can reach it. std::string and char buffers are lists of numbers below 256. An object
-- with state is a record, and a method is a function from the state to a result and a state; `none`
-- stands for a failed assertion, an uncaught exception, exit, or behaviour that C++ leaves undefined.
-- A value that the code reads before it is set is a parameter (junk, garbage). The inode manager's
-- clock is a parameter too.
--
-- Interfaces. The operations of yfs_client and of fuse.cc take the extent client as a record of
-- operations, ExtentService, and the theorems about them take its laws, ExtentLaws: for the extents in
-- service a call succeeds, and what is put and fits is read back. The extent server takes the inode
-- manager as a record, Storage, and the theorems about coherence its laws, StorageLaws, for the ids in
-- service and the writes that fit. YfsClient.ExtentClient fills ExtentLaws from the extent client's
-- handlers and StorageLaws, and Extent.InodeStorage fills StorageLaws from the inode manager: on a disk
-- with files of at most 100 blocks, a number of blocks is kept for each, and a write fits that ends
-- within them. Neither record has a law for `create` or `remove`.
--
-- Bounds and fuel. The constructor of directory and finddir run on the length of the text and one
-- more: each round takes a byte, and the round trip of the directory text shows that the fuel is
-- enough there. The loops of inode_manager run on the number of blocks of the file and one more; a
-- chain of inodes on 2^31 / 51200 + 2 inodes, which the theorem about the end of free_inode shows to
-- be enough. The loop of alloc_block runs on the number of blocks that it looks through.
--
-- Not modelled: main of fuse.cc and the callbacks of libfuse; the RPC library (rpc, of which only
-- headers and an archive are in the repository); lock_client.cc, which only forwards calls to it;
-- the programs, demonstrations and tests. In the histories of read and write requests each request
-- runs to its end before the next one begins, which is what the lock of the inode is for. A call of
-- a client by the extent server runs to its end before anything else happens, so calls that
-- interleave inside a handler are outside the model. LockServer, LockClientCache and LockProtocol
-- are about one lock id, whose entry no other id touches. A thread of the caching lock client is
-- woken by a signal only: pthread_cond_wait may also return without one, and then a queued thread
-- takes a lock that another one holds. A thread of the lock server may be woken at any time. In
-- lock_server_cache.cc the client to be revoked is read from the entry after the mutex is released;
-- the model reads it before. handle::safebind is one step, so a delete_handle during its bind is
-- outside the model.
pub mod Base
pub mod Directory
pub mod Handle
pub mod LockServer
pub mod LockServerCache
pub mod LockClientCache
pub mod LockProtocol
pub mod Disk
pub mod BlockManager
pub mod InodeManager
pub mod Extent
pub mod YfsClient
pub mod Fuse
pub mod Examples
