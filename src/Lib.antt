-- ===== src/Lib.antt =====
-- KuiBaDB, a PostgreSQL-compatible server in Rust: the core that this library models.
--
-- The program. A client connects; `postgres_main` (src/lib.rs) reads its startup message, sends the
-- greeting and the configuration variables that are to be reported, and then answers one message
-- per round of a loop. The messages of the wire protocol are read and serialized in
-- src/protocol.rs, over the byte writers of src/utils/ser.rs and the errors of src/utils/err.rs.
-- The configuration variables (src/guc.rs) have tables that the build generates from
-- src/guc/gucdef.yaml; the file kuiba.conf is loaded into them, its values read by src/common.rs
-- and common.rs.
--
-- The loop of this commit does not look at what a query says: it answers every query that is UTF-8
-- by the tag HELLOWORLD and an idle ready message. README.md shows sessions with rows, errors and
-- transaction prompts, which this code does not have; the module that would read and analyze a
-- query, src/parser, is not part of the crate.
--
-- The files.
--   Base                shared: lists of bytes, tests, integers, texts, association lists, and
--                       `Outcome`, which is what a fallible function does (Ok, Err or panic)
--   Utils/Ser, Utils/Err  src/utils/ser.rs and src/utils/err.rs
--   Oids                src/oids.rs, `OptOid`
--   Protocol            src/protocol.rs: Errcodes (src/protocol/errcodes.rs), Message (the messages
--                       sent), Serialize (`Message::serialize`), Read (`read_message`,
--                       `read_startup_message`), Startup (`CancelRequest`, `SSLRequest`,
--                       `StartupMessage`, `Query`)
--   Common              src/common.rs and common.rs
--   Guc                 src/guc.rs: assignments; Show (`show`), Gucdef (the tables of gucdef.yaml and
--                       the hooks), Load (`load`), Apply (what SET may assign)
--   Urings              src/lib.rs, `Urings`: the rings that the connections share
--   AsyncIo             src/io.rs: the poll functions of `Stream`
--   Session             src/lib.rs: the connection (`Sock`), `on_error`, the reports of variables;
--                       Serve (`do_postgres_main`, `postgres_main`), with Serve/Greeting and
--                       Serve/Conversation for a client that keeps to the protocol
--   Process             src/lib.rs (`init`, `GlobalState`) and src/bin/kuiba/main.rs
--   Sql                 src/parser: Syntax (src/parser/syn.rs), Parse (src/parser.rs), Grammar (the
--                       tokens and productions of src/parser/sql.lalrpop), Descent (a recursive
--                       descent to compare them with, with
--                       its own operators and actions in Descent/Actions), Analyze (src/parser/sem.rs: literals, Hash,
--                       and Transform, which is `kb_analyze` and what it calls)
--   Build               build.rs: `load_gucs`, `to_camel_case`; Format (`format_gucs`, `gen_gucdef`)
-- A module below one of these is about its behaviour, and the modules Tests hold concrete runs.
--
-- The state. A connection is a record: the bytes that the client sends before the connection ends
-- and the error of a read past them, the bytes handed to the buffered stream, the serialization
-- buffer, and how the coming flushes end. A step takes it and returns a result with the
-- connection after it. An assignment of a variable works on the values and on the process's log
-- filter. A text is the list of its UTF-8 bytes, and a machine integer a number or an integer
-- with its wrap-around written out.
--
-- Parameters: the byte order of the machine, floating point (`Float`), whether tracing accepts a
-- new filter (`reload`), the text of a UTF-8 error, the order in which the map of names is
-- iterated, the ring of the crate kbio (`Kbio`) and the function that starts one, the tokens of a
-- query, the lock modes (`Modes`), the catalogue, values and digests that the analysis asks for
-- (`Backend`), and, for the build, what Unicode says of a character (`CharCase`) and which texts
-- are Rust tokens (`lexes`); for the start of the process, whether the directory is there, the
-- runtime can be built and the port bound, and what accept returns.
--
-- Fuel. The loop over startup parameters has one unit more than the message has bytes, and takes a
-- byte each round at least; running out is a panic of the model. The loop of a session has one
-- unit more than the input has bytes, and each round that goes on has read a message, which is a
-- byte at least. The recursive descent has one unit more than there are tokens behind the place,
-- and each nested operand and each round of a list takes a token. A task that polls a stream has
-- some number of polls, and so has the operation that it is compared with.
--
-- Not modelled: logging, the buffered stream between src/io.rs and the session (its flush results
-- are given, and a write that fills the buffer is taken to go through), the lexer and the parser
-- that lalrpop generates from src/parser/sql.lalrpop (the tokens of a query are given, with their
-- places), what build.rs copies and the layout of the text that it writes, and the command line.
-- The crate does not include src/parser, and the parts of it that use modules outside of the
-- repository take them as parameters.
pub mod Base
pub mod Utils
pub mod Oids
pub mod Protocol
pub mod Common
pub mod Guc
pub mod Urings
pub mod AsyncIo
pub mod Session
pub mod Process
pub mod Sql
pub mod Build
