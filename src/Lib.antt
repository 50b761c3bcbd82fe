-- ===== src/Lib.antt =====
-- git-spdx finds licence changes across the history of a Git repository. `git-spdx scan` matches every
-- blob; `git-spdx log` walks the history once, spools the changes, matches the blobs and replays the
-- spool to count what changed. This library models the Go program at the repository's root.
--
-- Parts and files:
--   Common      Go's own types as the program uses them: byte strings, maps, errors, counting.
--   Stream      `bufio`, `io.ReadFull` and the varints of `encoding/binary` over a byte stream that
--               ends in `io.EOF` or in an I/O error.
--   Text        White space of `strings.TrimSpace` and `strings.Fields` on UTF-8 bytes.
--   Change      history.go: `change`, `pathGroup`, `recordLegalChange`.
--   GitLog      history.go: `readChanges` and `walkChanges` on the output of `git log --raw -z`.
--   Spool       history_spool.go: `write`, `ready`, `replay`, `spoolLogHistory`.
--   Oid, Index  main.go: `parseOID`, `index.get`, `index.put`, `lookup`, `equalExprs`.
--   Log         history.go: `historyTotals.record`, the visitor of `logCmd`, and `logCmd` itself, which
--               puts `Spool`, `Scan`, the replay and `Tables` together. Log/Due says once more, without
--               the code's own tests, which changes are due and what they count for.
--   Names       gogit_history_stream.go: the tests of legal directory and file names.
--   Tree        gogit_history_stream.go: `collectLegalTreeRaw`, `legalTreeWriter.Write` and the
--               collector, a recursion over raw trees, in memory or from a buffered reader.
--   Links       gogit_history_stream.go: `readCommitTreeAndParents`, `commitLinksWriter.Write`.
--   Open        gogit_history.go: `openGoGit`, `isShallowGoGit`; gogit_tuning.go: `configureGoGit`.
--   Walk        gogit_history_stream.go: `visitCommitTrees` and the serial part of `legalBlobsGoGit`,
--               which put `Links` and `Tree` together.
--   Collect     gogit_history_stream.go: `collectLegalTreesParallel` as a step relation of the walk
--               and its workers, and `collectLegalTreeRaw` as a stack of tasks between two uses of
--               the shared collector. Which blobs are legal is told without a collector, for the
--               serial and the parallel collection. `legalBlobsGoGit` with one worker puts `Open`,
--               `Refs` and `Walk` together.
--   Scan        main.go: `matchBlob`, `feedBlobsGoGitSerial` and the counters of `scanBlobsWithLegal`.
--               Each job and each skip is one event; workers may finish in any order.
--   Feeders     gogit_tuning.go: `feedBlobsGoGitParallelObjectInfos` and `…Objects` as a step
--               relation of the enumeration and its workers; a run is an interleaving.
--   CatFile     main.go: `listBlobs`, `catFile.read` and the loop of a reader of `feedBlobsCatFile`,
--               on what `git cat-file` writes.
--   CatFeed     main.go: `feedBlobsCatFile` as a step relation of `listBlobs` and the readers, with the
--               channel between them, the errors and the cancellation.
--   History     gogit_history_stream.go: `visitCommitNodeChanges`, the cache of trees, and the loop
--               with one worker; `visitHistoryStreamParallel` as a step relation of the function
--               that visits in order and its workers. `commitSubject` of gogit_history.go.
--   Tables      main.go: `printExprCounts`, and history.go: `printMonthly`, as lists of rows.
--   Options     main.go: `validateOptions` and `repositoryArgument`.
--   Refs        gogit_history.go: `commitAtReference` and `historyRoots`; the set-up of
--               `walkChangesGoGitStream` in gogit_history_stream.go, which puts `History` behind them.
--   Tests       runs on a small history.
--
-- A Go string or byte slice is a list of byte values, a map an association list, a pair of a value and
-- an error a `Result` (or the state with an `Option Error` where a callback has changed state). A
-- callback `visit` is a function on a state of any type. A run-time panic is the error `panicked`.
-- A mutable object is a record that its operations return anew.
--
-- Loops over a stream take fuel: one round more than the bytes that are left, since every round takes
-- a byte at least. The walk over commits takes a round for each root and each parent, peeling a tag
-- one for each tag and two more; the fuel of a tree bounds its depth. `out_of_fuel` is the answer of a
-- loop without fuel and no Go error.
--
-- The steps of the feeders, of the parallel walk and of the parallel collection need no fuel. The
-- entries of a tree that a task lists have as many rounds as the tree has bytes, and one more.
--
-- Parameters: `is_legal_path` is `licenses.IsLegalPath`; `Device` says what the operating system
-- answers to the spool's writes; `Library` is what go-git answers about hashes and objects, `Trees`
-- what it answers about the trees of commits and their differences, `StoredBlob` and `FoundBlob` what
-- its iterators give; `matcher` is the licence matcher; the process `git` is the stream that it
-- writes and its two errors, and `serve` what `git cat-file --batch` writes for an object; the writer
-- of CSV rows is two functions on its state; `Clone` is what the environment, the file system and
-- go-git answer when a repository is opened; `Surroundings` gathers what `logCmd` is given.
--
-- Not modelled: processes, files, profiles, the command line library, the insides of go-git and of the
-- matcher; `configureGoGitZlib` and its provider, `human` and the padding of printed numbers;
-- the methods of `historyRootNode`, which only go-git calls; an object buffer whose sum with the batch
-- is beyond the largest `int`.
pub mod Common
pub mod Stream
pub mod Change
pub mod Text
pub mod GitLog
pub mod Spool
pub mod Oid
pub mod Index
pub mod Log
pub mod Names
pub mod Tree
pub mod Links
pub mod Open
pub mod Walk
pub mod Scan
pub mod Collect
pub mod Feeders
pub mod History
pub mod CatFile
pub mod CatFeed
pub mod Tables
pub mod Refs
pub mod Options
pub mod Tests
