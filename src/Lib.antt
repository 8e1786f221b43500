-- ===== src/Lib.antt =====
-- Star 9, modelled: its paths, errors and file modes, the 9P codec, the 9P server, the bindings of
-- the namespace, the metadata cache, the descriptors and numbers of tasks, and the words of rc.
--
-- Star 9 is a runtime in the manner of Plan 9: file systems behind one trait, a namespace that
-- binds them, tasks that use it, and 9P to export and to mount it. A client's frame comes in as
-- bytes; the codec reads a request, the server runs its handler on the file system that it exports,
-- with a table of fids as its only state, and the codec writes the response, or the error number.
-- The cache stands between a slow file system and its users, and answers what it was told before.
-- A task has a namespace and a table of descriptors, and is found by its number or its alias.
-- All paths on the way are kept in the form that crates/star9-core calls valid. The user's language is
-- rc: a script is cut into tokens, and its words are expanded to lists of texts, with the variables of a
-- session, the output of commands, and the files that a pattern matches.
--
-- The files, and what they model:
--   Core/Error: `ErrorKind`, `Error` and `Result` of crates/star9-core/src/lib.rs. A `Result` chain
--   by `?` is a do block.
--   Core/Path: `clean_path`, `valid_path`, `base_name`, `parent_path` and `relative_under` of the
--   same file. Core/Path/* hold the laws.
--   Core/Mode: `FileMode`, `Metadata`, `DirEntry` and `OpenFlags` of the same file.
--   Core/Context: `FsContext` of the same file.
--   Fs: the traits `FileSystem` and `FileHandle` of crates/star9-fs/src/lib.rs, as a record that the
--   server takes as a parameter: a type of states, and operations that return a result and the next
--   state. Nothing is assumed of them. Fs/Backend is the trait as the cache calls it.
--   P9/Wire, P9/Decoder, P9/Types, P9/Frame, P9/Msg: `put_u16` and its kin, `Decoder`, `Qid` and
--   the other structures, `encode_frame` and `decode_frame` of crates/star9-protocol/src/p9.rs.
--   P9/Request, P9/Response: the messages, with `encode_request`, `decode_request`,
--   `encode_response` and `decode_response` of the same file.
--   P9/Attr: `qid_from_meta`, `attr_for`, the conversions of modes, flags and error numbers, and the
--   functions that join paths.
--   P9/Xattr: `XattrWriteState`. P9/Dirents: `encode_dirents`.
--   P9/Server: `NinePServer`. State has `ServerState` and the steps of handlers; Walk has `attach`,
--   `walk`, `lopen`, `lcreate`, `clunk` and `remove`; Io has `getattr`, `setattr`, `xattrwalk`,
--   `xattrcreate` and `read`; Names has the handlers from `write` on; Handle has `handle` and
--   `handle_frame`. Keeps, Safe, Effects and Others hold the laws.
--   Vfs: `Namespace` of crates/star9-vfs/src/lib.rs. Map is its `BTreeMap`; Bindings has `bind`, the
--   unbinding operations, `matching_targets` and `target_path`; Route has `route_write`. Systems is the
--   bound file systems, Entries has `synthesize_entries`, Lookup `open` and `stat`, and Writes the
--   operations that change a file system. Laws, Matching and Found hold the laws.
--   MetaCache: `MetaCacheFs` of crates/star9-fs/src/metacache.rs over any inner file system. Keys has
--   the table, the file itself the entries and their times, Ops the reads and the refreshes, Changes
--   the calls that drop entries, Handle the open file, Run a sequence of calls and refreshes. The
--   other files hold the laws: Steady says what reads ask of the inner file system, Coherent
--   what an entry of the cache promises.
--   Task/Fds: `FdTable` of crates/star9-task/src/lib.rs; Below, Reach and Renumber hold its laws.
--   Task/State, Task/Registry: `TaskState`, and `TaskFs` with the tasks that it makes, by address.
--   Runs is the stores that it comes to; Numbered, Numbers, Root and Fields hold the laws.
--   Rc: crates/star9-rc/src/lib.rs. Chars has its errors and positions; Scan is `read_word` and what it
--   calls, Operators `find_closing_bracket`, `parse_pipe_spec` and `parse_redirect`, Lex is `lex`. Glob is
--   `pattern_match`. Ast is the tree of a script, Parse the steps of `Parser` on single tokens, Simple
--   `parse_simple`, and Parser the rest of it. Values has the functions on lists of texts, Vars `lookup_var` and
--   `read_variable_expansion`, Globbing `glob` and `expand_glob_or_literal`, Words `expand_words` and
--   what it calls. Status is `RcStatus`, and Environment the values of one variable as they are in the environment. Taken,
--   Took, Passed, Tokens and Lexed hold the laws of the lexer; Nested, Steps, Parts, Sequences, Commands
--   and Parsed those of the parser, Glob/Matches and Glob/Decides those of the
--   patterns, and Quoting, Concat, Carets and Ends those of the expansion.
--   Base: names of the library, Boolean tests, lists and bytes over the native numbers, Decimal,
--   the digits of a number, and Table, an association list in place of `HashMap`.
--   Tests: runs at concrete inputs.
--
-- Conventions. Text is the list of its bytes in UTF-8, which is what goes over the wire and what the
-- path functions compare. A `usize` has 64 bits. Numbers are natural numbers; a theorem that needs
-- the range of a machine type says so, and what wraps or saturates in the source does so here. A
-- handler is a function of the server's state, with the file system's state in it, to a result and
-- the next state, so that an early return keeps what was changed before it. The locks of the server
-- are not modelled: the requests of one server run one after the other. Loops are recursions on the
-- list that the source iterates over, so that no fuel is needed and every definition returns; only
-- `root`, which follows the parents of a task, counts its steps: a parent is made before its
-- children, so the address of the task bounds them.
-- In Rc a text is the list of its characters, and a position counts characters, as in the source. The
-- loops of the lexer, of the expansion and of the patterns that do not go on by one character at a time
-- have as many steps as there are characters, and one more. One that had no step left would give
-- `out_of_fuel`, or no match. A step takes a character at least, so this does not happen. Commands in
-- commands may be nested as deep as there are tokens. What runs a command, what lists a directory, what
-- the current directory is and how a token is printed in an error are parameters.
-- The instants of the cache's clock are arguments of its calls, as numbers. A refresh that a
-- lookup starts stands in a list until it runs; it runs as a whole, between two calls. MetaCache/Steady
-- asks of the inner file system that reads change nothing, and that their context matters in whether links
-- are followed only; what is said of changes holds over any. A number of 32 bits that is counted up wraps
-- as in a release build.
-- Panics are not modelled: an allocation always succeeds, and a time has no upper bound. Times
-- before 1970, which the source reports as 0, do not occur.
--
-- Not modelled: `decode_dirents`, the 9P client, the asynchronous server and the transports; the
-- file systems of crates/star9-fs, but for the cache, and of the cache the calls that only pass
-- through, and calls and refreshes that overlap; of the namespace what prints its bindings; of
-- tasks the files that show them, `reopen_fds_from`, the
-- typed setters and what the driver `auto` does; of rc the markers of here documents, the evaluator with
-- its jobs and redirections, the environment with its names and functions, and how
-- functions are printed; the runtime and the shell. The browser's and the command
-- line's parts are glue over libraries that are not in the repository.
pub mod Base
pub mod Core
pub mod Fs
pub mod P9
pub mod Vfs
pub mod MetaCache
pub mod Task
pub mod Rc
pub mod Tests
