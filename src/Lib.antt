-- ===== src/Lib.antt =====
-- Sippet, a SIP library for Elixir: the parser, the C++ code under c_src/ that turns the text of a message
-- into a map of its start line and its headers; and the transactions, the state machines under
-- lib/sippet/transactions/ that send messages again until they are answered.
--
-- How the program works. `Parse` of c_src/parser.cc joins folded lines (`AssembleRawHeaders`), parses
-- the first line as a status line or a request line, and then goes through the header lines with a
-- `HeadersIterator`. `ParseHeader` looks the name up in the tables that `on_load` makes of
-- c_src/header_list.h, calls the function listed there for the values, and `Parse` adds the result to
-- the map of the headers. The functions for the values cut them with a `ValuesIterator` and read each
-- one with a `Tokenizer`. The iterators stand on `StringTokenizerT`.
--
-- Which file models what, from the bottom up:
--   Base: numbers and their tests, byte strings, signed integers, results (a term that is an atom is an
--     error), and the loops over an iterator's `GetNext`.
--   Ascii, Trim, Unquote, Number, HostPort: the functions of c_src/utils.cc of these names (`IsLWS`,
--     `IsToken`, `ToLowerASCII`; `TrimLWS`; `Unquote`, `StrictUnquote`; `StringToInt`;
--     `ParseHostAndPort`).
--   StringTokenizer: `QuickGetNext`, `FullGetNext` and `AdvanceOne` of c_src/string_tokenizer.h, with no
--     option set, as functions of the text ahead. StringTokenizer/Machine: the class
--     `StringTokenizerT` with its members, its options and `Reset`.
--   Iterators, Iterators/Headers, Iterators/Parameters: the iterators of c_src/utils.cc as functions of
--     the text ahead. Iterators/Classes, Iterators/Classes/Generic, Iterators/Classes/Lines: the
--     classes of c_src/utils.h with their members.
--   Tokenizer: the moves of c_src/tokenizer.h.
--   Value: the terms that the parser makes, and the parameters `Runtime`.
--   HeaderList: c_src/header_list.h, c_src/method_list.h and c_src/protocol_list.h.
--   StartLine: `ParseVersion`, `ParseStatusLine` and `ParseRequestLine` of c_src/parser.cc.
--   Field, Field/Params, Field/Contact, Field/Via: the functions of c_src/parser.cc that take a
--     tokenizer (`ParseToken`, `ParseTypeSubtype`, `ParseParameters`, `ParseAuthParams`,
--     `ParseComment`, `ParseUri`, `ParseContact`, `ParseVia`, `ParseWarning`).
--   Format, Format/Single: the functions of c_src/parser.cc that c_src/header_list.h names.
--   Message, Message/Assemble, Message/Header: `AssembleRawHeaders`, `ParseHeader` and `Parse`.
--   Message/Write: the text of a message that is written from its parts, for `Parse` to read back.
--   Nif: `parse_wrapper` and `on_load` of c_src/parser.cc, with the maps `g_parsers` and `g_aliases`.
--   Transaction: `gen_statem` as the transactions use it. Transaction/Message, Transaction/Timers: what
--     they use of lib/sippet/message.ex, and lib/sippet/timers.ex.
--   Transaction/Client/Invite, Transaction/Client/NonInvite, Transaction/Server/Invite,
--     Transaction/Server/NonInvite: the files of lib/sippet/transactions/ of these names, with
--     Transaction/Client and Transaction/Server for what two of them share.
--   Transaction/Key, Transaction/Router: the keys of transactions, and what lib/sippet/router.ex does
--     with a message that it has parsed: it goes to a transaction, starts one, or goes to the core.
--     Transaction/Router/Received: its `update_via`, which says in the topmost Via where a request is from.
--     Transaction/Validate: `validate` of lib/sippet/message.ex. Transaction/Router/Handle: a request from
--     its `update_via` through `validate` to `receive_transport_message`.
--   The other files hold what is proved of the file that they are below. Tests holds runs.
--
-- How the code and the model correspond. A character is a natural number, and a text a list of them.
-- A pair of C++ iterators is the text between them, so the state of a tokenizer or an iterator is the
-- text ahead of it, and a move returns that text. Where the code reads the character at the end of a
-- text, `peek` gives 0: there stands a line break, a NUL or the character that ended the value, and the
-- tests that the code makes there fail on all of them. An `ERL_NIF_TERM` is a `Value`, or the name of an
-- atom in `err`; the exception that `enif_make_double` makes of a number that is not finite is `err raised`,
-- which `nif_reply` raises. `Parse` looks headers up in c_src/header_list.h by `find_parser` and `find_alias`, which
-- are proved to answer like the maps that `on_load` fills. The map of the headers is an association list
-- in which `put_header` replaces the entry of the name, if there is one. An `int` is an integer within
-- bounds that the theorems state.
--
-- A transaction is a function from its state, an event and its data to what it sends and what the callback
-- returns, one clause for each clause of the source. A `Process` is a state, its data and the state
-- timeout that is pending; `step` gives it mail or the end of that timeout, as the manual of `gen_statem`
-- says: a new state is entered by its enter call and cancels the timeout. The mail of `send_after` may
-- come at any time. `raises` stands for an exception, which ends the process: `run` stops there, and
-- `supervised_run` goes on with what the supervisor, which starts it again, makes of it. The headers of a
-- message are the parser's values, with a URI as its text.
--
-- Fuel. The loops `while (it.GetNext())`, the loops inside `GetNext`, and the loop of
-- `AssembleRawHeaders` run on `rounds s` rounds, one more than the text is long. Each round takes at
-- least one character, which is proved for the iterators as part of what they yield, and for
-- `AssembleRawHeaders` by its equality with a description that has no fuel; Message/Rounds says that
-- more rounds make no difference. Time in the transactions is counted by the timeouts that end, and
-- that a number of them is enough is part of the theorems.
--
-- Not modelled. The virtual machine's table of atoms, `std::stod` and the date functions of NSPR (the copy
-- in c_src/prtime.cc) are the fields of `Runtime`, of which nothing is assumed but where a theorem says
-- that the table holds the atoms of `on_load`. Left out are the error `no_memory`, the macro
-- `ERL_NIF_INIT`, the members of c_src/string_piece.h that the parser does not call (the file is a copy of
-- another project's), and of the Elixir code under lib/ the sockets, the 400 that answers malformed
-- requests, the sharded mode, the authentication, and what the core does when it is called. The supervisor
-- is OTP's: a run of a server transaction takes what it makes of an exception as a parameter, and that it
-- starts a client transaction again is left out. `Sippet` has what the registry answers and
-- `String.to_integer`; nothing is assumed of them but what a theorem states.
pub mod Ascii
pub mod Base
pub mod Field
pub mod Format
pub mod HeaderList
pub mod HostPort
pub mod Iterators
pub mod Message
pub mod Nif
pub mod Number
pub mod StartLine
pub mod StringTokenizer
pub mod Tests
pub mod Tokenizer
pub mod Transaction
pub mod Trim
pub mod Unquote
pub mod Value
