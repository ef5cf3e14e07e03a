-- ===== src/Lib.antt =====
-- cadaver is a command-line WebDAV client. The library models its own code, under src/ of the
-- repository, and checks it.
--
-- Lines come from the prompt or from the rc file. `execute_command` (src/cadaver.c) has a line
-- split into words by `parse_command` and `gettoken` (src/cmdline.c), finds the command in the
-- tables of src/commands.c and calls its function. The functions turn the words into paths on the
-- server (`uri_resolve_native` and its kin), ask the server what stands there (`getrestype`,
-- `fetch_resource_list`) and send the requests.
--
-- `main` (src/cadaver.c) sets the options, reads the arguments, runs the rc file and then the lines
-- that are typed, until one quits or the input ends, and closes the connection.
--
-- Common: numbers, lists and C strings. A string is the list of its bytes without the NUL.
-- Tokenizer: `gettoken`. The states are those of the source; `pos` is the length of `buf`. BUFSIZ
--   is an argument. Bounds and RoundTrip hold the proofs.
-- Commands: the command tables and `get_command`; the help texts are left out.
-- CommandLine: `parse_command` and `execute_command`. The expansion of patterns by lib/glob is an
--   argument. The loop over the words runs on fuel, one more than the length of the line, which is
--   enough since each word takes at least one byte off the line. What a call of a command does is
--   left to the modules of the commands: here a call is a value. Help has `help` and `echo`.
-- Start: `main` with `parse_args`, `set_proxy` and `init_rcfile`, over any record of functions
--   that stand for the commands. What getopt_long returns, the files and the lines that readline
--   returns are values; the loop over the rc file runs on fuel, one more than the bytes of the file,
--   which is enough since each `fgets` takes a byte at least. Script joins the rc file and the typed
--   lines, Ends is on faults and the fuel, Simulation compares two programs, and Sessions has the
--   program on the session's heap and on places, with surroundings that may differ for each
--   operation.
-- Globbing: the directory functions of src/cmdline.c that lib/glob calls for remote paths. The
--   loop that reads a directory is lib/glob's; it runs on fuel, one more than the members.
-- BaseName: `base_name` of lib/basename.c.
-- Listing: `results`, `compare_resource` and what `fetch_resource_list` collects (src/ls.c), and
--   `execute_ls` in Display; Elements has `ls_startelm`. The values that neon reads from the
--   response are the fields of a record.
-- Neon: what the path code uses of neon, as a record of functions with their documented laws.
-- Resolve: `getrestype` (src/utils.c) and the path functions of src/commands.c. The server is a
--   function from paths to answers, which does not change while one command resolves its arguments;
--   `none` stands for a read through NULL.
-- Conversion: `run_iconv` of src/commands.c with its buffer and descriptors; iconv is a record.
-- CopyMove: `do_copymove`, the copies, the moves and `execute_rename`; a result is the list of the
--   requests in order.
--
-- Session: `close_connection` and `set_path` (src/cadaver.c) and `execute_cd` (src/commands.c).
--   The two path strings of the session lie on a heap, so that a double free is visible; Directory
--   compares `cd` on the heap with `cd` on paths.
-- Connection: `open_connection` and `setup_ssl` (src/cadaver.c) on that session. The calls that
--   set the neon session up are a list; what neon and the network answer are records. Places has the
--   session without its heap, Runs the sequences of `open`, `close` and `cd`, each with the server
--   that it finds. An address that was freed is not given out again.
-- Credentials: `supply_creds`, its two callers and `cert_verify` (src/cadaver.c), and the login
--   that the netrc file gives. neon calls for credentials until a call fails or the server is
--   content; that loop runs on fuel, and four calls are enough.
-- Options: the table of src/options.c with `set`, `unset` and the accessors, and `init_options`;
--   Display has what is shown of it. A mask is the function of its bits, and neon's debug constants
--   and `ne_token` are arguments.
-- Search: the parser of search conditions in src/search.c, in the C locale. Fuel bounds the depth
--   of the parentheses and the turns of the loops; one more than the length of the string is enough.
--   A write past the end of a word buffer is an outcome of its own. Words is the lexer, Grammar the
--   parser, Trees the abstract syntax of what it writes.
-- SearchRequest: the whole `search` command, from its words over the body of the request to the
--   display; the server is a function from requests to answers. Layout has the body as a tree.
-- SearchResponse: the handlers of the response in src/search.c and `display_results`. A document is
--   a list of starts, texts and ends; neon's XML parser keeps the states of the open elements and
--   calls no handler for what stands in an element that `start_element` declines. Documents has the
--   responses and what they describe.
-- Progress: `output` and `notifier` (src/cadaver.c), the state machine behind the progress
--   display, and in Bar the progress bar with the time of its last update. The length of the bar,
--   which is computed in floating point, is an argument.
-- Edit: `execute_edit` of src/edit.c as the list of its requests and file operations. The answers
--   of the server, the system, the editor and the user are a record; the loop of uploads runs over
--   the list of attempts, and an edit whose attempts do not end the loop has no result.
-- Transfers: `get`, `resumeget`, `mget`, `put`, `mput`, `mkcol`, `cat` and `less` of
--   src/commands.c. The local files are a function from names to what stands there, the server a
--   record of functions on a state of its own, and `readline` takes the next answer of a list.
-- Properties: `propset`, `propdel`, `propget`, `propnames` and `chexec` of src/commands.c on a
--   server that is a record of functions.
-- Messages: `format_time` of src/utils.c, and which line `out_result` of src/commands.c shows for
--   a result.
-- Local: `lcd`, `lpwd`, `lls` and `head` of src/commands.c.
-- Versioning: the commands of src/version.c. Requests has what they send, History the reports of
--   the server and what the handlers, called as those of SearchResponse, make of them.
-- Completion: the completion of names in src/cadaver.c, with `command_generator` and
--   `native_path_from_uri` of src/commands.c. The calls that readline makes for one word run on
--   fuel, one more than the resources of the listing. Fresh has the age of the cache.
-- Locks: `lock`, `unlock`, `discover`, `steal`, `showlocks`, `rm` and `rmcol` of src/commands.c.
--   The store of locks is neon's: a record of its functions, with the law that a removal of a lock
--   that was found makes the store smaller. The loop of `remove_locks` runs on fuel, one more than
--   the number of locks.
--
-- Not modelled: the texts of messages and the columns of tables, `about`, `pwd` and
-- `logout`, which only show or call what neon has, the history of readline, the network and the
-- XML parser (neon), and the libraries under lib/ that are copies of other projects (expat, glob,
-- getopt, snprintf, strftime, netrc and the like). Memory is modelled only where a property is
-- about it.
pub mod BaseName
pub mod CommandLine
pub mod Commands
pub mod Common
pub mod Completion
pub mod Connection
pub mod Conversion
pub mod CopyMove
pub mod Credentials
pub mod Edit
pub mod Globbing
pub mod Listing
pub mod Local
pub mod Locks
pub mod Messages
pub mod Neon
pub mod Options
pub mod Progress
pub mod Properties
pub mod Resolve
pub mod Search
pub mod SearchRequest
pub mod SearchResponse
pub mod Session
pub mod Start
pub mod Tokenizer
pub mod Transfers
pub mod Versioning
