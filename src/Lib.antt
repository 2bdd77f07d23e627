-- ===== src/Lib.antt =====
-- DistillerFS: a FUSE file system that passes each operation on to a directory and counts, for each
-- path, how often which operations were made on it. The program is src/distillerfs.c with its string
-- hash src/utils.c.
--
-- A run of the code is a function from a state to a value and a new state, or `none`: a fault, which
-- stands for undefined behaviour of the C code (a read or a write through a block that is not live, a
-- second `free`, an element that was never assigned, a count past `INT_MAX`, a lock by the thread
-- that holds it) and for a failed `assert`. The state is an argument of each definition. The loops of
-- src/distillerfs.c and src/utils.c are bounded by an array, a table or a list; those of the hash table
-- run on fuel, of which the theorems on it give enough.
--
-- The parts, from the bottom:
-- - Prelude: shared names, byte strings, bit masks, and `Run`, the type of such functions.
-- - Ops: `enum FUSE_OPS` with `op_names`, `symbols`, the `FLAG_` bits and the two filter states.
-- - Filter: `filter_desc_t`, `is_excluded`, `is_included`; Filter.Prefix has their specification.
-- - Khash: the interface of the calls of src/khash.h, with their documented laws. Hash:
--   src/utils.c over it; Laws and Map are about it as a finite map.
-- - Khash.Table: `kh_text_t`, which src/utils.h makes of src/khash.h by `KHASH_MAP_INIT_STR`,
--   with the flags of its buckets in Flags. Probe and Positions are about the order of the tries
--   for a key; Shape is the invariant, with `kh_get` on it (Lookup); Insert, Occupy and Put are
--   `kh_put` in a table with room, Delete is `kh_del`; Rehash with Settle, Outcomes and Loop is
--   the kick-out process of `kh_resize`, Resize its result, Growth the choice of the new size, and
--   Insertion `kh_put` as a whole. Room has what a lookup finds, Removal `kh_del` of that, and
--   Instance is the table behind the interface Khash. The rest of the program is about any table
--   behind that interface, and the tests run on this one.
-- - Memory: `malloc`, `strdup` and `free` of the program with the blocks that live at addresses: those
--   of the log, the strings of the handlers, and what `main` allocates for itself and never frees. What
--   the libraries allocate, such as the arrays of khash and the strings that toml.c returns, is not
--   in it.
-- - Logger: the globals, `should_log`, `getRelativePath` and `Store_In_Hash`. The log as the reader
--   sees it is a map from paths to a count and a mask (`view`); Invariant, Accounts, Growth and Frames
--   keep the memory sound, Events and Store refine that map, Ready is the state between operations.
--   Threads is a step relation for threads that call Store_In_Hash at the same time: Order has that
--   events commute, Measures and Effects what a step does, Safety the invariant, Schedules where the
--   steps lead, and Progress that they go on.
-- - Posix: the system calls as a parameter: functions of a state of the file system that return a
--   value or an error number. No law is asked of them.
-- - Handlers: the FUSE operations `loggedFS_getattr` to `loggedFS_removexattr`; Handlers.Pairs
--   has those on two paths, `readdir` and `write`. Calls has the shape of their theorems, `Ends`:
--   no fault, the result, the file system and `errno`, the log, and the strings that are still
--   borrowed. Operations has `init_fuse_oper` and the calls through its table; Reference is a
--   description of each call without memory, hash or mutex, by the file system that it leaves, the
--   events that it offers to the log, and the strings that it loses; Kept, Sequences and Runs
--   relate the calls, one and many, to it. That FUSE calls a member with any arguments, one call
--   after another, is all that is assumed of it.
-- - Toml: the interface of src/toml.h as a parameter. Toml.Tree: the functions of src/toml.c that read
--   a parsed table, an instance of it; Strings and Keys are about them. Config: `parse_config`, with what its
--   words mean in Words, and Config.Literal both together.
-- - Args: `processArgs` on the results of `getopt`. Print: `Print_Hash` and `Free_Hash`.
--   Startup: `main`; Ending has its two ends, Main the whole of it, and Refusal a run that a
--   configuration stops. Print.Masks has what a mask and a legend say, and Print.Contents reads
--   the printed lines as a log.
-- - Tests: a small file system and a small configuration, and the theorems at concrete inputs.
--
-- Bounds: a count is a C `int`, and an event that would raise it past 2147483647 is a fault;
-- `Ready` says for how many more events there is room. Masks stay below `2 ^ 26`. The size given
-- to `readlink` is a `size_t` and wraps at `2 ^ 64`. `read`, `write` and the extended attributes
-- keep a length in an `int`, in two's complement (`int_of`); the length of `readlink`, which is
-- not returned, is taken to be below `2 ^ 31`. A file handle becomes an `int` too: its bits are
-- a number below `2 ^ 32`. A `khint_t` wraps at `2 ^ 32`; a table has at most `2 ^ 31` buckets,
-- of which 77 in 100 may be occupied, computed in integers. A loop over `n` buckets is given `2
-- * n` rounds, twice what the tries need, and the kick-out process `n + 1`, one for each old
-- bucket and one for the element in hand.
--
-- The interface Khash has a capacity, 2 ^ 29 keys for `kh_text_t`: past it, a table could come to need
-- more than `2 ^ 31` buckets.
--
-- Taken for granted: allocation succeeds; a successful `free`, `malloc` or log does not change
-- `errno`; a directory stream is a finite list; keys stand for the strings that they point to;
-- the file of the log can be opened; each handler runs to its end before the next one starts. In
-- Logger.Threads, where threads are interleaved, what follows `Hash_Find` up to the release is
-- one step, and the strings that handlers have borrowed stay as they are.
--
-- Not modelled: `usage` and the messages on the standard error stream, the scanner and the parser of
-- src/toml.c with its strings in double quotes, `kh_destroy` and `kh_clear`, which are other projects'
-- code, FUSE itself, and postprocess/process_log.lua, which reads the printed log.
mod Prelude
pub mod Ops
pub mod Filter
pub mod Khash
pub mod Hash
pub mod Memory
pub mod Logger
pub mod Posix
pub mod Handlers
pub mod Toml
pub mod Config
pub mod Args
pub mod Print
pub mod Startup
mod Tests
