-- ===== src/Lib.antt =====
-- march is a compiler for a concatenative language, written in C: source text becomes tokens, the
-- compiler types each word on a compile-time stack and appends cells and blobs, blobs go to a
-- database under the hash of their content, and the loader links them back into cells that the
-- assembly machine runs. A persistent map is offered to the programs. This library models the parts
-- that are logic.
--
-- Prelude (Tests, Lists, Reverse, Bits): native numbers, Boolean tests, Option as a monad, lists
--   measured by native numbers, bitwise operations one digit at a time.
-- Types: src/types.h, the numbers of the types and the sizes.
-- Cells (Coding, Buffer): src/cells.h and the first half of src/cells.c, the tagged 64-bit cells.
-- Blob (Buffer, Codec, Decoding): the second half of src/cells.c, the byte buffer of a blob with
--   its encoders and decode_tag_ex.
-- Hamt (Bitmap, Dense, Place, Write, Insert, Update, Delete): src/hamt.c and src/hamt.h. hamt_set
--   is set, hamt_get is get, hamt_remove is remove. A node is its bitmap, count and slots; a map
--   that is none is the null pointer. The abstract map is `lookup` of Hamt/Place.
-- Dictionary (Chains, Best, Find, Score, Parse): src/dictionary.c and src/dictionary.h.
-- Refgraph (Alloc): src/refgraph.c and its types of src/types.h.
-- Tokens (Next, Strings): src/tokens.c and src/tokens.h. A file is the list of its bytes.
-- Database (Store): of src/database.c the storing and loading of blobs, signatures and literals; a
--   table of src/schema.sql is the list of its rows.
-- Primitives (Texts, Table, Registered): src/primitives.c, the registrations; Compiler/Register
--   adds the immediate words.
-- Compiler: src/compiler.h and src/compiler.c, on Tokens, Database, Dictionary, Cells, Blob and
--   Refgraph. Typing, Signature, Accept, Mutable: apply_signature. Words, Agree: drop to rot.
--   Slots, Specialize: the slots and the cache of specializations. Liveness:
--   emit_free_for_dead_nodes. Emit, Quotations, Arrays, Branches: literals, the brackets, array
--   literals, the code of if and times. Compile, Handlers, Word: quotations in a context and as
--   values, if and times, compile_word and word_compile_with_context; compile_token is one token.
--   Define (Ends): definitions and files. Mirror (Bytes, Emit, Literals, Arrays, Offsets, Branches,
--   Loops, Until, Quotations, Pending, Handlers, Words, Token, Stored, Room, Registered): the cells
--   and the blob that are written side by side.
-- Loader (Cache, Link): of src/loader.c the cache of CIDs, loader_link_cid and loader_link_code. It
--   decodes what Blob encodes and makes the cells of Cells.
-- The modules called Examples hold the tests and the theorems at concrete inputs.
--
-- Machine integers are native numbers with the wrap-around written out: a cell, an int64_t and an
-- address are bit patterns below 2 ^ 64. A C string is the list of its bytes. An operation that
-- changes a struct takes it and returns it. Output to the terminal is left out, and allocation is
-- taken to succeed. `none` as a result stands for what C leaves undefined, for a loop that does not
-- end, or, where a comment says so, for the null pointer. In two places a comment says what stands
-- for it instead: a cell buffer keeps the number of bytes that it asked for, which the theorems
-- compare with its cells, and slot_index shifts by the low five digits of a place.
--
-- Fuel: the bitmap's loop has its 32 digits; hamt_get, hamt_set and hamt_remove have 13 levels,
-- which are the chunks of 5 digits of a 64-bit hash, and the theorems show that a valid map and
-- keys of different hashes never need more. Doubling a capacity takes at most 65 tests for a buffer
-- and 33 for a table. The loop of loader_link_code has as much fuel as the blob has bytes, since a
-- pass reads at least two. The depth of loader_link_cid and of mark_node is a parameter.
-- token_stream_next has more fuel than the file has bytes, and so have the loops over a file's
-- tokens, since a token takes at least one byte. compile_token has fuel for the depth of the calls,
-- since a word that calls itself is compiled without end; materializing quotations has fuel for
-- their number.
--
-- Parameters: the address of a primitive's routine, in Primitives; the database as a function from
-- a CID to a blob, the table of primitives, and the address of the n-th allocated object, in
-- Loader; SHA-256, and whether SQLite carries out an insertion, in Database and Compiler. The
-- theorems that need it suppose that a hash has 32 bytes.
--
-- Not modelled: the primitives' routines, which are assembly; of the database the names of words
-- and the older functions; the runner, the command line, debugging, freeing of memory, the assembly
-- kernel, and the copy of another project's trie under src/hamt.
pub mod Prelude
pub mod Cells
pub mod Blob
pub mod Types
pub mod Dictionary
pub mod Refgraph
pub mod Hamt
pub mod Primitives
pub mod Compiler
pub mod Tokens
pub mod Database
pub mod Loader
