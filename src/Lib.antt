-- ===== src/Lib.antt =====
-- The storage header of packages/shared/pkg/storage/header, which says for each block of a
-- sandbox's memory or disk file in which build's data file it is stored; the connection limiter of
-- packages/shared/pkg/connlimit; the resizable semaphore, the set-once values and the rollback of
-- updates of packages/shared/pkg/utils; the caches of chunks and of whole objects in front of an
-- object store of packages/shared/pkg/storage, and its upload in parts; the policy of a
-- sandbox: the manifest of internal/manifest, the file system overlay of internal/fuse and the
-- egress firewall of internal/network; the channel of internal/services/process that many readers
-- share, with the lookup and the input of a process; and the keys, names and hosts of
-- packages/shared/pkg, and its synchronization of a pool with a source.
--
-- The parts and how they interact. `CreateMapping` turns the bitset of the blocks that a snapshot
-- changed into mappings, `MergeMappings` lays them over the mappings of the header before, and
-- `NormalizeMappings` joins neighbours of one build; `ToDiffHeader` runs the three, gives the
-- result to `NewHeader`, which indexes it for `GetShiftedMapping`, and to `ValidateMappings`.
-- `Serialize` and `DeserializeBytes` carry a header between a builder and a reader. The connection
-- limiter, the semaphore, the set-once values and the updates stand alone; callers share the first
-- three between goroutines. The cached object answers from files of chunks or asks the inner
-- object, and leaves the writing of what it read to the background. The overlay asks the manifest
-- store at each lookup and listing, and the firewall builds its chain from the manifest's network
-- entries. A process's output goes through a multiplexed channel to every client that is connected
-- to it; a request names a sandbox by its headers or its host, and the test of
-- its identifier is that of the names.
--
-- Which file models which part, with paths under packages/shared/pkg, and under
-- packages/shared/pkg/storage/header for the header, where they do not begin with internal:
--   Header/Block: block.go. Header/Mapping: `BuildMap`, and what a list of mappings means (`locate`:
--     where a byte is stored).
--   Header/Create, Header/Merge, Header/Normalize: `CreateMapping`, `MergeMappings` and
--     `NormalizeMappings` of mapping.go, each with its lemmas in child modules.
--   Header/Validate: inspect.go. Header/Cover: a cover of the file without a gap, in whole blocks.
--   Header/Lookup: header.go and the metadata of serialization.go. Header/Diff: metadata.go and
--     diff.go. Header/Serialize: serialization.go.
--   Header/Bitset: the interface of the bitset library, with the documented behaviour of what the
--     code calls; Header/BoolBits implements it by a list of bits.
--   Limiter: connlimit/limiter.go. SetOnce: utils/set_once.go.
--   Semaphore: utils/resizable_semaphore.go. Rollback: utils/apply_all_or_none.go.
--   Storage/Cache: storage/storage_cache_seekable.go, with isCompleteRead and the deletion of
--     storage/storage_cache.go, and utils/move.go. Contract says what an answer may be; Reads are the
--     calls, Blocks the blocks of a stored file, Moves and Runs any order of both; Short is about a
--     buffer that is shorter than a chunk.
--   Storage/Blob: storage/storage_cache_blob.go with storage/lock/atomic_file.go.
--   Storage/Upload: storage/gcp_multipart.go, with the number of parts in float64
--     (Rounding), what a part reads (Chunks), where it stands (Places) and the parts put together
--     (Assembly).
--   Policy/Manifest: internal/manifest/manifest.go. Policy/Glob: its patterns.
--   Policy/Overlay: internal/fuse/fuse.go, with what is visible (Visible), the virtual files (Files)
--     and the listing (Names and Listing).
--   Policy/Firewall: internal/network/firewall.go, with the laws of `iptables` (Chain), `Apply`
--     (Rebuild) and `Setup` (Install).
--   Process/Multiplex: internal/services/process/handler/multiplex.go, with what a consumer sees
--     (Views, Heard, Whole), a send that waits (Stall), and the close of all (Once, Open, Exit).
--   Process/Handler: the selection and the input of a process in internal/services/process, with
--     tags (Select) and the stdin (Stdin).
--   Synchronization: synchronization/synchronization.go, with the laws of the store (Laws), any
--     schedule of goroutines (Schedules) and a round (Rounds).
--   Identifiers/Keys: keys/key.go, with what a mask shows (Mask) and keys that are made (Verify).
--   Identifiers/Names: id/id.go, with what cleaning leaves alone (Clean), the names (Parse) and
--     the tags (Tags).
--   Identifiers/Hosts: proxy/host.go, with what it accepts (Accepts).
--   Prelude: tests and lists over native numbers, 64-bit words, results, little-endian bytes,
--     strings as bytes (Text), and decimal numbers (Decimal).
--
-- Numbers. A uint64 is a number below 2 ^ 64, and an int64 the pattern that its conversion to uint64
-- gives; every operation wraps as Go's does (Prelude/Words). A UUID is the number of its 16 bytes,
-- little-endian, so the nil UUID is 0. A byte is a number below 256.
--
-- State. The header's functions take and return values. The limiter, the semaphore and the
-- set-once value are state machines: a state holds what is shared and where each goroutine's call
-- stands, a move is one atomic access or one section under a lock, and a run is any list of moves.
-- The multiplexed channel is one more: a move is a step of its goroutine, or of a caller at its
-- lock. The caches' states hold their files and the tasks left to the background, which run when a
-- move says so. The firewall's commands are actions on a kernel that is a parameter, with laws
-- that its manual gives. The goroutines of an upload store their parts in any order, which is a
-- list of part numbers. How a copy, a `Close` or a link of the disk ends is a constructor for each
-- outcome.
--
-- Fuel. `MergeMappings` runs on as many rounds as the two lists have mappings, the loop over the set
-- bits on one round more than the bitset is long, the loop of `DeserializeBytes` on a round for every
-- byte, and that over the blocks of a file on as many rounds as it has bytes; running out is a value
-- of its own (`none` or `stuck`), and the theorems on these loops exclude it. The scale of a quotient in
-- float64 has fuel for 128 doublings, more than the quotient of two int64s takes. A compare-and-swap
-- loop has no fuel: its failed swap is a move back to the load.
--
-- Not modelled: the start, the output and the end of a process; strings beyond ASCII in names;
-- telemetry and logs; the text of the header's errors; reading a header from a storage blob; the
-- printing functions of inspect.go; the mount, the attributes and the file handles of the overlay;
-- requests, credentials and retries of an upload; a reader in the middle of the copy of a block;
-- and the parts of the repository that the components of the development do not name. The bitset
-- library, `filepath.Match`, the real file system below the overlay, the command `iptables`, the
-- resolver, the server of an upload, the store of a synchronization and `uuid.Parse` are
-- parameters, and what the disk and the inner object do in a call of a cache, how a write to a
-- process ends, and the hash and the random bytes of a key are arguments.
pub mod Prelude
pub mod Header
pub mod Identifiers
pub mod Limiter
pub mod Policy
pub mod Process
pub mod Rollback
pub mod Semaphore
pub mod SetOnce
pub mod Storage
pub mod Synchronization
