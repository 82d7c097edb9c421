-- ===== src/Lib.antt =====
-- A verification library of mimixbox, a single binary of many Unix commands written in Go.
--
-- The program is a set of applets below internal/applets, each a Command with a Run method that
-- parses its options (with the pflag library), reads operands or standard input, and writes to
-- standard output and standard error. The applets share helpers (internal/command,
-- internal/textproc) and do not call one another. Each modelled applet has a module:
--
-- Prelude: lists and texts as bytes over the native numbers, Boolean tests, results.
-- Golang: what the applets use of Go's standard library: UTF-8 (unicode/utf8), `int` of 64 bits,
--   strconv, strings.
-- Tr: internal/applets/textutils/tr/tr.go. Sets is expandSet and its helpers, Processor is the
--   processor (newProcessor, process, translateCell, squeezeEmit) and streamTransform with
--   completeRuneLen, Command is Run behind the option parser with validate.
-- Cut: internal/applets/shellutils/cut/cut.go. Ranges is the LIST (parseRanges, parseRange,
--   parsePos, mergeRanges, selected), Lines is the cut of a line and of an input (keepPos, cutLine,
--   cutBytes, cutRunes, cutFields, splitOn, cutReader), Command is selectMode, buildOptions and run.
-- Uucode: internal/applets/textutils/uucode/uucode.go. Encode is writeUU, writeUULine and
--   writeBase64, Decode is decode, headerName and decodeUULine, Command is runUuencode and
--   runUudecode.
-- Textproc: internal/textproc/textproc.go, which cat, tac, nl, head, tail and wc share. Counts is
--   CountReader and Count.Add, Records is Reverse, HeadRecords, TailRecords, HeadBytes and TailBytes,
--   Numbering is Numberer with WriteTo.
-- Expr: internal/applets/shellutils/expr/expr.go. Operators is what each operator does with its
--   operands, Parser is the recursive descent, eval and Run.
-- Diff: internal/applets/editors/diff. Lines is readLines and diffLines, Normal and Unified are
--   format.go (collectHunks and writeNormal; groupUnified, unifiedRange and writeUnified), Command is
--   Run behind the option parser.
-- Patch: internal/applets/editors/patch. Parse is parseUnified, parseHunk, parseHunkHeader and
--   parseRange, Apply is reverseHunks and applyHunks, Command is Run with pickName and applyFile. What
--   diff writes is what patch reads, and the two meet in Parse/RoundTrip, Apply/Diffed and
--   Command/Diffed.
-- Chmod: internal/applets/shellutils/chmod/chmod.go. Modes is applyMode, applyClause, permMask and
--   octal; a mode is a Boolean for each of its twelve permission bits, and a number for the others.
-- Textutils: Fold is internal/applets/textutils/fold/fold.go, Uniq is
--   internal/applets/shellutils/uniq/uniq.go, Comm is internal/applets/textutils/comm/comm.go.
--
-- A string or byte slice is a list of bytes, a rune slice a list of code points. Errors are
-- constructors of an error type for each applet, in place of the message on standard error. A
-- reader is the bytes that it gives, in tr the list of its reads. expandSet of tr runs on as many
-- rounds as the operand has runes, and each round consumes at least one.
-- completeRuneLen looks back over at most four bytes, as in the source.
-- Loops that read an input run on as many rounds as it has bytes, since each reads one at least.
-- The evaluator of expr runs on a depth of parentheses, one more than there are tokens.
-- Folding a line runs on as many rounds as it has bytes, since each round cuts off one at least.
-- Package regexp (in expr and nl), unicode.IsPrint (in wc), strings.EqualFold (in diff and uniq) and
-- the texts of the errors that strconv and the system give are parameters, and so is the number of
-- strings that the runtime can allocate (in tail).
-- Numbers that the source holds in an `int` are native numbers with their bound stated; where a
-- sum may wrap around (mergeRanges of cut) the model says what the wrapped value does.
--
-- Not modelled: the option parsers, the file system (reading, opening and writing a file are
-- parameters), write errors but those of patch, the limit of 1 GiB on a line, the walk of chmod over
-- the files, and the other applets.
mod Prelude
pub mod Golang
pub mod Tr
pub mod Cut
pub mod Uucode
pub mod Textproc
pub mod Expr
pub mod Diff
pub mod Patch
pub mod Textutils
pub mod Chmod
