-- ===== src/Lib.antt =====
-- reiser4progs, the utilities of the Reiser4 file system: the parts that keep the state of a file
-- system on disk and that can be stated without the objects of the plugin framework.
--
-- The parts and their files. libreiser4/bitmap.c (Bitmap) keeps a bit array with the number of
-- its set bits. plugin/alloc/alloc40 (Alloc), the block allocator, keeps such a bitmap in bitmap
-- blocks on the device, each with an Adler checksum from libaux/aux.c (Aux), and hands out runs
-- of blocks. libaux/aux.c also has the binary search that nodes and directories use, and packs
-- the characters of a name into the fields of a key. The key plugins (Key: plugin/key/key_common,
-- key_large and key_short) build the keys by which the tree orders its items, compare them, and
-- keep short names of files in them; they take the plugins of plugin/hash and plugin/fibre as
-- parameters. plugin/oid/oid40 (Oid) hands out object ids from two counters in the super block.
-- plugin/node/node40 (Node) keeps the items of the tree in a block, finds them by their keys, and
-- moves them within a node and to its neighbour.
--
-- A C structure is a record with the fields of the structure. A function that changes the
-- structure behind its pointer returns the new record, in front of it what the C function
-- returns; the names are those of the source, without the prefix of their file
-- (reiser4_bitmap_mark_region is Bitmap.mark_region, alloc40_occupy is Alloc.occupy,
-- key_large_compfull is Key.Large.compfull). Words of 64, 32, 16 and 8 bits are natural numbers
-- whose wrap-around is written out. An aal_calloc is a Boolean parameter: whether it succeeds.
--
-- libaal, a library of its own that the repository does not hold, is an interface (Aal): bit
-- arrays with the laws of their documented behaviour inside the array, streams, and block devices
-- that may fail. Aal/Reference.antt has bit arrays that satisfy the laws; the tests of each part
-- run on them.
--
-- Fuel. The binary search needs at most as many rounds as there are elements, and the last test.
-- The Adler loop takes a chunk each round, so the number of bytes is enough. The packing of a
-- bitmap needs a round for each run of blocks, and one for an empty first run: two rounds more
-- than there are blocks. The unpacking reads eight bytes a round, and tells the end of its fuel
-- from the other ends of its loop. The loop over the bitmap blocks moves on by at least one block
-- a round.
--
-- Nodes. A block is the fields of its header, an array of item headers and a function of bytes by
-- offset (Node.antt); Node/Space.antt makes and takes room, Node/Modify.antt changes items,
-- Node/Shift.antt and Node/Unite.antt move them to a neighbour, Node/Lookup.antt searches. Their
-- specification is the list of items (Node/Contents.antt). A body that runs over into the item
-- headers is outside this model. The item plugins are interfaces (ItemPlugs and ShiftPlugs); what
-- the code relies on is a hypothesis. WritesBody and ShiftsUnits are about the one call that
-- node40 makes: its bytes outside the bodies stay. IsConfined and KeepsPlace are about a method
-- that takes units away, on every item: it writes into the body only and leaves the position and
-- the length of the place alone. The loop of node40_predict takes a whole item of the source in
-- each round; it is recursion on the items that are left.
--
-- Not modelled: messages to the user, assertions, which a build without debugging leaves out,
-- memory that is freed, and the parts of the repository beyond these files: node41, items,
-- objects, journal, format, tree, repair and the programs.
pub mod Prelude
pub mod Aal
pub mod Bitmap
pub mod Aux
pub mod Alloc
pub mod Key
pub mod Oid
pub mod Node
