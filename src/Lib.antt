-- ===== src/Lib.antt =====
-- A verification library for scubed3, a steganographic block device.
--
-- The base device is cut into macroblocks. An open device owns some of them. The juggler
-- (src/juggler.c) says which macroblock is written next and schedules when it will be written
-- again, with numbers from /dev/urandom (src/random.c).
--
-- Binio: the readers and writers of src/binio.c over lists of bytes.
-- Bitmap: src/bitmap.c over lists of 32-bit words; Bits has the laws of binary digits.
-- Random: src/random.c over the list of words still to be read.
-- Blockio.Info: blockio_info_t of src/blockio.h. Blockio.Index: the index block of a macroblock as
-- src/blockio.c writes and scans it, with SHA-256 as a parameter; Blockio.Layout has the laws of runs
-- of bytes that do not touch. Juggler: src/juggler.c over the array of these.
-- Scubed: src/scubed3.c over both, with what it uses of src/blockio.c. State is the device, Output
-- the filling, writing out and selection of macroblocks, Request the reads and writes. A volume
-- holds, for each mesoblock, what Contents.content says; Contents.Consistent is the invariant of
-- its tables. The cipher is a parameter of which decryption undoes encryption. Transfer is do_req,
-- over the flat address space of the device.
-- Init is the replay of the macroblocks when a device is opened, and its enlargement.
-- Cipher: the modes of src/cipher_cbc.c and src/cipher_null.c, and src/cipher.c, over a memory in
-- which the buffers are places; the block cipher of libgcrypt is a parameter. Modes fills the
-- parameter of Scubed with them. Name is the parsing in cipher_init.
-- Dllarr: src/dllarr.c, the list that is an array too, with pointers as numbers. Linked says which
-- elements a list has; Sequence and Emptied say what the operations do to them.
-- Hashtbl: src/hashtbl.c as one thread sees it; the locks of the data of elements are state, and
-- taking one twice is a failure.
-- Util: unbase16 of src/util.c.
-- Entries: the table of open partitions of src/fuse_io.h, with one base device for all of them. The
-- freer of an entry writes what was not written and gives the macroblocks and the identifier back.
-- Fuse: the file operations of src/fuse_io.c on it. Sessions says how partitions are open, as the
-- kernel knows it; Serving is a request after the other, from the kernel or over the control socket,
-- and which of them the kernel makes.
-- Control: src/control.c. Reply is what is sent, over a socket that takes as many bytes as it likes;
-- Receive is the loop over what a connection brings; Call cuts a line into words and finds the
-- command; Commands, Aux and Report are the commands. Print has the conversions of the C library that
-- they use.
--
-- The loop of copy_old_block_to_current has as many rounds as the block has indices, and these are
-- enough. do_write takes fuel for the selection of a new macroblock only, which it does not come
-- to, since it unlocks a mutex that it does not hold first. The loop of do_req over whole
-- mesoblocks has size / mesoblk_size rounds, those of the modes one for each block. The loops of
-- Dllarr over the elements have fuel for each element and the end.
--
-- A line has max_argc words at most, and a call of split_words for each. send_all has a call of
-- send for each round. `digits` gets as many rounds as a number of its width has digits.
--
-- Not modelled: threads and signals, the log, the memory that is freed with a partition, readdir
-- and the start of FUSE, the commands open, create, resize, help and p, and the set-up of the
-- control socket.
pub mod Base
pub mod Binio
pub mod Bitmap
pub mod Bits
pub mod Blockio
pub mod Cipher
pub mod Control
pub mod Dllarr
pub mod Entries
pub mod Fuse
pub mod Hashtbl
pub mod Juggler
pub mod Random
pub mod Scubed
pub mod Util
