-- ===== src/Lib.antt =====
-- libSieve: a library that runs mail filter scripts (RFC 3028) for a client, which hands it a record of
-- callbacks.
--
-- The parts of the program and how they interact
--   The client allocates a context, registers callbacks and asks for a script to be run. The script is
--   asked of the client and parsed to a tree of commands, and the evaluator walks it. Its tests ask the
--   client for headers, the size and the envelope, and compare what they get by the comparators; its
--   actions check which actions were taken before and call the client. All these calls go through one
--   record, the current call: `callback_begin` opens it, the setters leave named values there for the
--   client's function, which leaves its answers there in turn, the getters read them, and
--   `callback_end` closes it. Headers are parsed once and kept in a hash table, from which the
--   library's own function for `getheader` answers.
--
-- The files
--   Prelude       the names all files share: numbers, lists, options and their lemmas, by its children.
--   Libc          the functions of the C library that the sources call on characters and strings.
--   Run           what a call comes to, a value or a fault, and the status codes (sieve2_error.h).
--   Comparator    src/sv_parser/comparator.c. Octet has `octet_matches_`, Casemap and Numeric the
--                 comparators of the two collations and Lookup the choice of one by its name and the
--                 tag, with the part of src/sv_parser/sieve.y that builds tags. Glob says what a
--                 pattern means; Matching, Stopping, Contains, Order, Decimal, Escape and Tags have the
--                 proofs.
--   Tree          src/sv_interface/tree.c. Stringlist has the lists of strings and the arrays that are
--                 made from them, Chararray the proof.
--   Message       src/sv_interface/message2.c. Cache has the hash table, how it is filled, and lookup;
--                 Release its release, with its proof; Lookup, Filling and HighBytes the other proofs.
--   Context       src/sv_interface/context2.c and context2.h. Values has the current call, its getters
--                 and setters; State the context, the record of callbacks and `libsieve_callback_do`;
--                 Brackets and Exchange the proofs on calls and on values.
--   Callbacks     src/sv_interface/callbacks2.c. Actions has `libsieve_do_reject` and its siblings and
--                 the reports of errors, Queries the questions to the client, both by the calls of
--                 Brackets, and Trace `libsieve_do_debug_trace`. Frame, Fills and Total have what a
--                 call changes, Compatible which actions exclude which, Answers, Questions and
--                 Cached what the questions come to.
--   Outside       what the evaluator uses and no source file holds: the client, the generated parser of
--                 addresses and the matcher of regular expressions.
--   Address       src/sv_interface/message.c and src/sv_parser/addr.y. Parse has the code round the
--                 parser of addresses, Parts the parts of an address.
--   Script        src/sv_interface/script.c. Syntax has the tree of a script (src/sv_interface/tree.h).
--                 Matching has the loops of `static_evaltest` over headers and addresses, and Evaltest
--                 the tests; Flags has what `static_evaltest` and `libsieve_eval` do with flags,
--                 Refusal and Vacation the vacation command, and Eval the commands. Release has the
--                 release of a tree (src/sv_interface/tree.c). Meaning and Plan say what tests and
--                 scripts mean for a message that is known. Flagging has the proofs on flags,
--                 Comparing, Decided, Steady and Planned those that the evaluator does what a script
--                 means, Harmless, Effects, Quiet and Compatible those on what it leaves alone, and
--                 Handle that on the handle of a vacation.
--   Grammar       src/sv_parser/sieve.y. Forms has the productions that a parse reduces, Checked what
--                 an action comes to. Tags has the tags of tests and of `notify`, Verify the checks on
--                 strings, Tests and Commands the actions that build the tree, Require the require
--                 command with `static_check_reqs`, and Vtags the tags of a vacation command. Trees,
--                 Induction, Matches and Started carry what holds of the parts over to whole trees and
--                 scripts. Kinds, Typed, Safe and Simple have the proofs on what the comparators, the
--                 evaluator and the table of headers rely on, Released that on the release,
--                 Required, Asked, Allowed, Features, Granted, Permitted and Missing those on what a
--                 script may use, Names that on the names of headers, and Handles that on the handle
--                 that a vacation command gets.
--   Util          src/sv_util/util.c. Buffers has the strings and arrays that grow and the test for
--                 atoms, Numbers `libsieve_strtonum`; Growth, Joining and Reading have the proofs.
--   Interface     src/sv_interface/script2.c. Register has `sieve2_callbacks` and
--                 `sieve2_listextensions`, Registered the proofs. Parsers has the code round the
--                 generated parsers of scripts and headers (src/sv_parser/sieve.y and header.y), and
--                 Execute has `sieve2_validate` and `sieve2_execute`. Statuses, Headers, Executed,
--                 Composed and Reported have the proofs.
--   Tests         runs on small inputs, and the theorems at inputs that meet their hypotheses.
--
-- How the code is modelled
--   A function that reads or changes the context takes it as an argument and gives it back. A string is
--   the list of its bytes without the NUL; a string that may be null is an `Option`. `Run` is the
--   result of code that C can leave undefined: a fault is a read or write out of bounds, through a null
--   pointer or of freed memory. A list of strings has a constructor for the pointer to a freed node.
--   The client's functions are a parameter: from the address called, the values of the call and the
--   client's own state they give the calls of setters they make and the state they leave. They reach
--   the context in no other way. The matcher of regular expressions and the token numbers of the
--   generated parser are parameters as well, with the numbers of the tokens as a hypothesis. So are the
--   generated parsers where they are called: the parser of scripts gives a tree and the errors that it
--   reports, that of headers the names and bodies that its actions enter, that of addresses the list of
--   addresses. A marker in a list of addresses is the list that is left. The array of a header's bodies
--   is a list; where the vacation command writes to it, and it is the table's own, the table is written
--   to. The result of the evaluator is a natural number, since no command makes it negative. The
--   actions of the grammar of scripts are functions on a tree of the productions that a parse reduces,
--   in the order of the reductions; an action that gives up ends the parse, with its message, and what
--   the parser reduces after its recovery is such a tree again, with the production of an error.
--   `libsieve_regcomp` is a parameter. Whether the macro `ENABLE_REGEX` is defined is one, too; nothing
--   in the repository defines it. `atoi` gives what the GNU C library gives, a `long` that is cut to an
--   `int`.
--
-- Bounds and fuel
--   The wildcard matcher takes a character of the pattern in each round, so fuel above its length is
--   enough; the search for a substring starts at each character of the text and costs at most a round
--   for each character of the pattern and one more. The two loops over the hash table have a round for
--   each of its places. Numbers are natural numbers where the code has `size_t` and `int` that stay
--   small: lengths of strings, counts, sizes of buffers. `char` is signed.
--
-- Not modelled
--   Allocation does not fail, and nothing is thrown. The calls of `libsieve_do_debug_trace`, which
--   other functions make, are left out. The names of values are freed by `callback_end` and dangle
--   until the next call begins; the model keeps their text, since no getter is called in between. The
--   parsers and scanners are generated. The recovery of the parser of scripts from an error is not
--   modelled beyond the productions of errors. The release of a tree is modelled and its calls are left
--   out of validation and execution, where nothing reads the tree behind it. Not modelled are the
--   allocation and release of contexts, addresses and markers, MD5, the exceptions and the copy of the
--   GNU C library's regular expressions.
pub mod Prelude
pub mod Libc
pub mod Comparator
pub mod Run
pub mod Context
pub mod Tree
pub mod Message
pub mod Callbacks
pub mod Outside
pub mod Address
pub mod Script
pub mod Grammar
pub mod Util
pub mod Interface
pub mod Tests
