-- ===== src/Lib.antt =====
-- A verification library of godbg, a source level debugger for Go programs on Linux and amd64.
--
-- The program reads the debugged file's `.debug_frame`, `.debug_line` and `.debug_info` sections into
-- tables (bininfo.go, frame.go, cfa.go), keeps a table of breakpoints whose first bytes it replaces by
-- 0xCC in the traced process (breakpoint.go), and obeys the commands of a prompt (prompt.go), which
-- look up places in those tables, read and write the process through ptrace (register.go) and print
-- source lines (list.go).
--
-- Parts and files, with the paths of the sources from the root of the repository:
-- - Common, Common.*: bytes, 64-bit words, lists, and `Result`, the outcome of code that returns an
--   error or panics, with one constructor of `Error` for each error of the program.
-- - Buffer, Leb: `bytes.Buffer` as a list of bytes, and DecodeULEB128 and DecodeSLEB128 of frame.go.
-- - Dwarf: what debug/dwarf, debug/elf and compress/zlib answer, as records.
-- - Analysis: ParseLineAndInfoSection of bininfo.go. Analysis.Spec is what debug information lists, the
--   order of its entries, and the tables that say the same, with Analysis.Spec.Fields for what the
--   attributes of one entry say.
-- - Sections: analyze, openInfoSection, openLineSection and ParseFrameSection of bininfo.go.
-- - Frame: parseFrameInformation of frame.go and the loop of ParseFrameSection of bininfo.go.
--   Frame.Print is the layout of the standard, for the round trips.
-- - Cfa: the interpreter of call frame instructions of cfa.go. Cfa.Instructions is the instruction set
--   of the standard, with its encoding and its meaning.
-- - Unwind: findFrameInformation of bininfo.go.
-- - Bi: the tables of bininfo.go and its lookups, findFunctionIncludePc, fileLineToPcForBreakPoint and
--   pcTofileLine. A Go map is an association list, so that the order in which it is gone over is a
--   parameter of each statement. That order is one for all the lookups of a run, where Go chooses it
--   again for each `range`: two lookups of one pc differ there if several rows are equally near to it.
-- - Info, Target, Output: the breakpoint's record, the global `target` as a state that is passed on,
--   and what is printed as a list of messages in that state. `Os` is the operating system: ptrace,
--   wait4, kill and files are functions on an abstract `World`, which the theorems do not know but for
--   the laws that they name.
-- - Breakpoint: breakpoint.go. Breakpoint.Memory has the laws of ptrace and the invariant `IsPatched`,
--   which ties the table to the memory; Breakpoint.Loose is the same while breakpoints are taken out.
-- - Listing: list.go.
-- - Location: parseLoc and locToPc of bininfo.go.
-- - Asm, Disassemble: getSingleMemInst of bininfo.go, and disassemble.go; the decoder is a parameter.
-- - Prompt: `executor` of prompt.go, the dispatch of a line over the commands, with l, q and h.
-- - Executor, Step, Next, Trace, Restart, Print: its commands b, bc, bl, c, s, n, bt, r and p, and
--   runexec of preparations.go; what a command prints is a message, without its format.
-- - Session: the lines that `executor` is given one after the other, as a relation between states, and
--   the invariant of the table and the memory over all commands.
-- - Complete: `complete` of prompt.go.
-- - Start: main.go and preparations.go, from the arguments to the end of the prompt. A session of the
--   prompt is a parameter there, and Start.Safe joins it to Session.
-- - Auxv: entryPointFromAuxvAMD64 of prompt.go.
-- - Tests: the definitions on concrete inputs, a machine that meets the laws, and each theorem at an
--   input where its hypotheses hold.
--
-- Bounds: a uint64 is a natural number modulo 2^64 and an int is a signed 64-bit number. The loops that
-- read a buffer run on fuel, one more than the length of the buffer, and each round takes a byte, so
-- that the fuel is enough; so do the loop over the lines of a listing and the one over the memory of a
-- disassembly. The loops of `step` and `next` run as long as the process stays on its line, and the
-- loop of `bt` as long as the chain of frame pointers, so that their fuel is an argument, and a run out
-- of fuel has no result; Step.Stays has what such a run of `step` has done.
--
-- Not modelled: debug/elf, debug/dwarf, compress/zlib, the decoder of golang.org/x/arch/x86, go-prompt,
-- the go tool and the operating system, which are parameters; the format of what is printed; the help
-- of the program and the options of the prompt; and the log, which has no influence on the rest.
pub mod Analysis
pub mod Asm
pub mod Auxv
pub mod Bi
pub mod Breakpoint
pub mod Buffer
pub mod Cfa
pub mod Common
pub mod Complete
pub mod Disassemble
pub mod Dwarf
pub mod Executor
pub mod Frame
pub mod Info
pub mod Leb
pub mod Listing
pub mod Location
pub mod Next
pub mod Output
pub mod Print
pub mod Prompt
pub mod Restart
pub mod Sections
pub mod Session
pub mod Start
pub mod Step
pub mod Target
pub mod Tests
pub mod Trace
pub mod Unwind
