-- ===== src/Lib.antt =====
-- llm-wiki-bff, the backend of a wiki that is compiled from raw files by a pipeline: a model of its
-- core logic, with the theorems that make it correct.
--
-- The program. A worker (cmd/olw_worker) compiles a project's raw files into wiki pages and
-- publishes them as an immutable generation: objects below .lwc/publish/generations/ and a manifest
-- that names them. The BFF (cmd/bff, internal/handler) reads a project through the manifest, decides
-- by quotas whether a pipeline may run, and answers searches and queries over the pages.
--
-- The files.
--   Core: shared names; Core/Int is Go's int64 with wrapped sums, Core/Text is a Go string as bytes
--     with the functions of package strings, Core/Dict a map keyed by strings, Core/Clock time.Time
--     as nanoseconds since the zero time, Core/Split facts on splitting,
--     Core/Scan strings.Index and strings.ReplaceAll, Core/Runes the runes and the fields of a
--     text, Core/Sort sort.SliceStable.
--   Json: what json.Decoder hands to the streaming decoders: the document as a tree that is read
--     from the left, with marks where reading fails.
--   Generation: internal/generation/manifest.go and decode.go. Paths (GenerationOwned, safePath),
--     Validate (Manifest.Validate, ObjectPath, NewFile), Find (Manifest.File over sort.Search),
--     Decode (Decode and what json.Marshal writes), Bounded (the Decode... functions of decode.go).
--   Quota: internal/pipelinequota/quota.go (Evaluate); Quota/Store is internal/firestore/quota.go
--     (ReserveQuota, RefundQuota); their theorems are in Reserve and Day.
--   Sources: the rows of internal/storage/storage.go and the digests of internal/annotation.
--     SourceStatus is internal/sourcestatus/status.go, RawStatus internal/rawstatus/rawstatus.go,
--     StateDb internal/rawstatus/sqlite.go, Lifecycle internal/sourcelifecycle/lifecycle.go
--     (Calculate), with its theorems in Pages, Totals, Covers and Receipts.
--   CloudRun: the executions of the pipeline as internal/handler/v1/endpoints.go reads them, and
--     their scan in internal/handler/v1/pipeline_quota.go.
--   Gate: the rest of internal/handler/v1/pipeline_quota.go, and the locks of
--     internal/firestore/client.go. It uses the quota through the record
--     QuotaStore, which Gate/Decide fills with Quota/Store.
--   Lease: cmd/olw_worker/lease_liveness.go and the release of cmd/olw_worker/cloud_publish.go with
--     RetryGenerationCleanup of internal/storage/storage.go; Lease/Probe is
--     cmd/olw_worker/cloud_execution_probe.go. The object store is the record ObjectStore over a
--     state of its own.
--   Publish: publishCloudGenerationWithFiles and confirmManifestCommit of
--     cmd/olw_worker/cloud_publish.go, with theorems in Commit and Complete (over the uploads of
--     Stored). Publish/Receipts is mergeCloudReceipts with its merges and what it calls of
--     internal/annotation, with theorems in Merged and Kept. The object store is the record Bucket.
--   Citations: internal/search/citation_authority.go. Its theorems are in Issued and Quiet, with the
--     loop of Resolve in Loop.
--   Search: internal/search/search.go. Lines and Meta read meta/index.md, with a theorem in Listed;
--     the theorems on Search are in Rank (order) and Total (results and snippets).
--   Quality: NormalizeOptions, qualifyCandidate and Select of internal/queryquality/core.go, with
--     theorems in Qualify and Select/Exact.
--   RateLimit: internal/middleware/rate_limit.go as steps of requests, which read the time before
--     they lock, and of the clean-up, with theorems in History, Window and Recovery.
--   Wiki: internal/wikiindex/identity.go and preserveConceptLifecycle of
--     internal/wikiindex/wikiindex.go, with theorems in Kept over Claims. Wiki/Build is the concepts of
--     BuildIDMap, with theorems in Pages; Wiki/Redirects is
--     planSyntoIDRedirects, with theorems in Planned over Added.
--   Cache: Search of internal/cache/cache.go in the entries of a project, with theorems in Sample
--     (the weighted draws) and Found. Cache/Projects is the map of projects around it, with theorems
--     in Isolated.
--
-- Bounds and fuel. The loop of sort.Search takes as much fuel as there are rows, and each round
-- shortens the range. The loop of Resolve takes one more than the length of the answer, since
-- each round takes off an opening bracket. mergeCloudReceipts makes at most three attempts, as
-- the code does. A Duration has less than 2^28 minutes, so the rounding of its float64 looks at
-- 28 binades. Decimal printing takes 20 digits, one more than an int64 has.
--
-- Not modelled. SHA-256 and time.Parse are functions of a Host, since the Go runtime implements
-- them, and strings.ToUpper and the decoding of a FileStatus by its tags are parameters too.
-- What Cloud Run, SQLite and Firestore answer is given to the operations. A listing of
-- executions has finitely many pages. Firestore's precision of timestamps is a parameter, and so
-- are the object store, the JSON of the lease and of the receipts, the files of a worker's
-- workspace, strings.ToLower, utf8.ValidString, net/url, the normal form NFKC without
-- punctuation, the letters and digits of Unicode, the draws of math/rand, MD5, what
-- encoding/json writes for invalid UTF-8, the identifier in a page's YAML, and the entry in a
-- line of JSON. A selection is told whether one of its looks at the context finds it done.
-- Memory is there for what is allocated below the bound of make. Times before the year 1 do not
-- occur. Logging, HTTP, Cloud Storage and the calls of language models are outside the model.
pub mod Cache
pub mod Citations
pub mod CloudRun
pub mod Core
pub mod Gate
pub mod Json
pub mod Lease
pub mod Publish
pub mod Quality
pub mod RateLimit
pub mod Quota
pub mod Search
pub mod Wiki
pub mod Sources
pub mod Generation
