-- ===== src/Lib.antt =====
-- ArTerm is an SSH client with a terminal emulator. This library models the emulator, which is the
-- code of src/terminal without a user interface, the queue of file transfers and the store of hosts.
--
-- The host's bytes go through the parser (VtParser), which turns them into calls of its handler.
-- The emulator (src/terminal/Terminal.cpp) looks up the columns of a printed
-- character (characterWidth) and changes the grid (Screen), whose cells carry attributes (Cell).
--
-- - VtParser: src/terminal/VtParser.hpp, src/terminal/VtParser.cpp. The record `VtParser` has the
--   fields of the class, `Event` has one constructor for each call of `VtHandler`, and `advance`
--   takes a parser and a byte to a parser and the calls it makes, in order. VtParser/Machine.antt
--   has one function for each state (`in_ground` is `case State::Ground`), and `parse`. A byte is
--   a number, below 256 where a theorem needs it. Its children are named for what they prove:
--   Invariant and Safety (well-formedness), Runs, Numbers, Csi, Osc, Utf8, Recovery, Discipline.
-- - Cell, Cell/Flag: src/terminal/Cell.hpp. The bit mask of flags is a record of Booleans.
-- - Screen: src/terminal/Screen.hpp, src/terminal/Screen.cpp. The record `Screen` has the fields
--   of the class, and each member function is a function of the same name, in Scroll, Edit, Tabs,
--   Write, Resize and Screen.antt itself. The cells of a line are read and
--   written by index in `write_character` and in Terminal's `combine`, which give `none` outside
--   the line; a `std::fill`
--   outside it makes the line longer, which Valid excludes; another access to a vector gives a
--   default out of range. Valid has the invariant and the
--   proofs that each operation keeps it; Ops has the operations as one type of requests and the
--   screens they reach; Regions, History, Height, RoundTrip and Stops say what the operations do.
-- - Terminal: src/terminal/Terminal.hpp, src/terminal/Terminal.cpp. Modes has the state, the saved
--   cursors, the buffers and the resets, SetMode the modes, Sgr the rendition codes, Print the
--   handlers `print`, `execute` and `escDispatch`, Csi `csiDispatch` and the reports, Osc
--   `oscDispatch`, Receive the emulator with its parser, `receive` and `resize`, and Sessions the
--   public members as one type of actions; a signal is a value in a list, and `m_active` a flag.
--   Rendition, Valid, Handlers, Dispatch, Title, Stream, Reports and Buffers have the
--   proofs.
-- - KeyEncoder: src/terminal/KeyEncoder.hpp, src/terminal/KeyEncoder.cpp. `encode` is cut into the
--   tables of its first switch and what follows; Paste has `encodePaste`, Reading reads keys back.
-- - Mouse: the mouse reports of src/terminal/TerminalWidget.cpp, on the cell that the pointer is on.
-- - Transfers: src/files/TransferManager.hpp, src/files/TransferManager.cpp, and the request counter
--   of src/session/RemoteFileService.cpp. An operation gives the new state and its effects in
--   order, which are the calls of the service and the signals. Slots has what the service calls,
--   Cancel the cancelling and clearing. Actions has all operations as one
--   type and the queues they reach, Paths the remote paths; Valid, Clearing, Running and
--   Progress the proofs.
-- - Hosts: src/ssh/SshTypes.hpp, src/ssh/SshTypes.cpp (Auth, Permissions) and
--   src/model/HostStore.cpp: Json has the profile as an object, Store the list and its operations,
--   Import the reading of an SSH configuration; Secrets, Saving, Lookup, Known and Repeat
--   have the proofs.
-- - CharWidth: src/terminal/CharWidth.cpp, with both tables.
-- - Prelude: lists, ranges of a list and integers over the native numbers.
-- - Tests: the theorems at concrete inputs.
--
-- Bounds. Counts, rows and columns are unbounded numbers: an `int` of the source that a caller
-- passes is an integer. The sum in `eraseCharacters` is checked for overflow, and the theorems on
-- all operations say for which arguments no sum leaves the range of `int`; elsewhere an overflow is
-- not modelled. `m_utf8CodePoint` is 32 bits wide and wraps, the revisions 64. The binary search is on fuel, one round for each entry
-- of the table, which is enough since each round makes the part that is searched shorter; so is
-- the loop of `applySgr`, one round for each parameter, since each round goes on by one parameter
-- or more. The number of a request and of a job wrap at 64 bits, a port at 16. `chop_slashes` has
-- the length of the path as fuel, and takes one character off in each round. All other loops are by recursion on a list or a count.
--
-- Not modelled: the memory that a container reserves; the address that `line` returns, which the
-- model reads and writes back at once; `m_dirty` of Terminal, which nothing reads; of the transfer
-- queue the texts for its table, the speed and the clock; of the host store the files and the
-- order of the groups; ColorScheme; the secret and known-host stores; the SSH sessions and
-- transfers, which are calls of a library; the user interface, and of the
-- terminal widget all but the mouse reports. What Qt
-- does to texts, JSON and keychains is a parameter, with the laws that a theorem names.
pub mod Prelude
pub mod VtParser
pub mod Cell
pub mod Screen
pub mod CharWidth
pub mod Terminal
pub mod KeyEncoder
pub mod Mouse
pub mod Transfers
pub mod Hosts
pub mod Tests
