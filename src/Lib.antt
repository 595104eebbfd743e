-- ===== src/Lib.antt =====
-- epochfill fills a SQLite database with one wallet's transactions of one epoch, read from the
-- Old Faithful archive by ranged requests. This library models the parts of it that decide what
-- is written, and proves what they promise. Its client is a run: a slot's block is read from a
-- region of the archive (Car, Block), each of its transactions becomes a row or is passed over
-- (Extract, Landing), and the rows of a slot are written with its mark in one transaction
-- (Store).
--
-- Car: `walkSections` of backfill/block.go. `walk_sections` is the loop with its position as an
--   argument; `with_length`, `with_cid` and `visit_section` are the body from each test on. The
--   variables that the callback captures are a state `S`; its error ends the walk. A slice
--   expression out of range is the outcome `panicked`. The fuel is one round more than the region
--   has bytes, which is enough, since every round reads a byte. go-cid's decoder is a parameter.
-- Block: `parseRegion`, `decodeMeta` and `leaderFromRewards` of backfill/block.go. `visit_node`
--   is the callback, `assemble` what follows the walk. `Block.Ipld` is the record of what is
--   called of go-cid and yellowstone-faithful, with an equality of CIDs. An archive is content
--   addressed: the theorems take a function from CIDs to bytes, with which the region agrees.
--   `Car.Cut` and `Block.Truncated` are about a region that ends inside a section.
-- Landing: landing/landing.go and landing/tips.go. `row` binds `Args` to the columns of
--   `InsertSQL`, as `Insert` does; `schema` gives each column's type. `Landing.Open` is `OpenDB`,
--   as far as the columns of the table go.
-- Extract: backfill/extract.go, and `collect` of backfill/run.go. `Extract.Chain` is the record
--   of what is read of solana-go, ipldbindcode and confirmed_block. `Wsol` is `wsolProfit`,
--   `Balance` is `walletDelta`, `tipPaid` and `subFloor`, `Programs` is `resolveKeys`,
--   `containsKey` and `programSet`, `Build` is `BuildLanding`, `applyPosition` and `collect`.
-- Store: backfill/store.go. The tables are lists in the order of insertion, and `Store.Table`
--   has a function for each statement. `faults n` says whether the n-th statement of a call fails;
--   a call with a transaction that does not reach its `Commit`, or whose `Commit` fails, leaves
--   the database as it was, as SQLite documents. `SeedSlots` has as much fuel as it has slots and
--   one round more; its batches hold 500. `Store.History` has every sequence of calls on a new
--   database. `Store.SigSet` forgets the order of the rows and their columns: a quotient of the
--   landing table by the set of its signatures. `Store.Path` is `DBPath`.
-- Fetch: `ReadRange` of backfill/oldfaithful.go, over an HTTP server as a parameter.
--   `Block.Reader` is `ReadBlock` and `anchor` of backfill/block.go, over the index lookups as
--   parameters; the rounds of `anchor_loop` are `maxSkipBack`, the loop's own bound.
-- Parts: backfill/parts.go, and in `Parts.Steps` the download of backfill/oldfaithful.go as
--   steps on the sidecar in memory, the sidecar on disk and the data file, with crashes at any
--   point.
-- Download: `DownloadResumable` and `runChunks` of backfill/oldfaithful.go, with the phase of
--   each chunk, the dispatcher, the workers and the channel of errors, in any interleaving.
-- Gsfa: backfill/gsfa.go: `ensureExtracted`, `findIndexDir`, `extractTarZstd`, `writeFile` and
--   `safeJoin` on the regular files of the disk; a call may fail or be killed at any entry. The
--   entries are what the tar reader yields. `Gsfa.Unpack` is the copy of one entry as `writeFile`
--   makes it, with `copyBufSize` and the timers of backfill/unpack.go: the loop of `io.CopyBuffer`
--   over the pieces that are read, so it needs no fuel. `Gsfa.Tarball` is `extractTarZstd` with
--   these copies in it, and `Gsfa.Extract` the same with each file written at once. `Gsfa.Cleanup`
--   is `OpenGsfa` and `Cleanup`. `Go.Filepath` is `Clean` and `Join` of `path/filepath`.
-- Progress: backfill/progress.go, with what is printed as a list of frames and lines, and
--   whether 100 ms have passed as an argument. `Progress.Units` is `humanBytes` of
--   backfill/index.go, whose loop ends by its own test before its 4 rounds do.
-- Signatures: backfill/sigs.go, over the RPC node as a parameter, and `distinctSlots` of
--   backfill/run.go. The fuel of `page_loop` is the number of requests; a history of n references
--   needs no more than n + 1 of them.
-- Run: `discover` of backfill/run.go, and runs as sequences of `discover` and `WriteSlot`.
--   `Run.Process` is `process`: the phase of each slot, the feeder, the workers and the writer.
--   `Run.Rows` is what a worker makes of a slot, `ReadBlock` and then `collect`, so that
--   `Run.EndToEnd` goes from the archive to the table, and `Run.Sound` back; `Run.Exact`,
--   `Run.Union` and `Run.Refines` are about the table as a set. `Run.Discovery` is
--   `discoverSlots`, `Run.Signals` is `interruptContext` and `setLogLevel` of main.go.
--   `Run.Lifecycle` is `Run` whole, over the results of the calls it makes, and the exit codes of
--   main.go. The files of the index directory, named by their paths, are in it, as `Run.Disk` has
--   them: what the downloads leave, with their sidecars, the tarball and the files of the address
--   index, and what is removed, the deferred `Cleanup` of `discoverSlots` included. `Run.Owned`
--   says which paths these are.
-- Client: `NewClient`, the URLs, `RootCID` and `Size` of backfill/oldfaithful.go, and how `Run`
--   sizes the client.
-- Go: 64-bit words as numbers below 2 ^ 64 with their wrap-around written out (an `int64` is its
--   bit pattern), maps as association lists, strings as lists of bytes, `encoding/binary`,
--   `strings`, `sort` and `strconv`, as far as they are used. A `uint64` is printed in at most 20
--   rounds, one for each digit.
-- Common: shared names, lists, tests, equality and tallies. Examples: archives, transactions and
--   databases on which the theorems are used.
--
-- Floating point is not modelled: `position_pct` is the fraction that the division rounds. Left
-- out are the readers of the index files, which are yellowstone-faithful's, the rates and the
-- times left that the bar, the log and the copy print, and the parsing of flags.
pub mod Common
pub mod Go
pub mod Fetch
pub mod Parts
pub mod Download
pub mod Gsfa
pub mod Progress
pub mod Client
pub mod Car
pub mod Block
pub mod Landing
pub mod Store
pub mod Extract
pub mod Signatures
pub mod Run
pub mod Examples
