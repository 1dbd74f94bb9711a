-- ===== src/Lib.antt =====
-- Verification of the lolstats pipeline: what is fetched from Riot's API and when, how a payload
-- reaches the archive, and when a build may be published.
--
-- The worker (internal/crawl) claims rows of the fetch queue (internal/store), asks Riot's API through
-- the breaker and the limiter (internal/riot), appends the payload to the archive (internal/raw),
-- records the match, flushes the archive, and closes the row; a failure sends the row back or retires
-- it. The nightly build (internal/aggregate) reads the archive and passes its gates or stops.
--
-- internal/riot/breaker.go is Riot.Breaker: `Breaker` is the struct, each method a function that takes
-- the instant its clock reads. `allow` runs over the turns of its loop.
--
-- internal/riot/limiter.go is Riot.Limiter: the token buckets, `reserve`, `observe` and `penalize`. The
-- tokens are float64 in Go; here they are exact, scaled by the period of their bucket, so nothing
-- is said of the last bits of a token.
--
-- internal/riot/client.go is Riot.Client: Riot.Client.Perform has `do`, called `perform` there, and all
-- that it calls. A call threads the breaker and the limiter through its attempts; what an attempt gets
-- from the network, the contexts, the clocks and the random numbers is a `Round`, and a call takes one
-- for each number of an attempt. The headers of a response arrive there as read.
--
-- internal/riot/headers.go is Riot.Headers, on lists of bytes: `parse_windows`, `parse_counts` and
-- `parse_retry_after`, with what they use of strings and strconv.
--
-- internal/store/queue.go, and the queue's part of maintain.go, is Store: Store.Row has the rows of
-- `fetch_queue` (sql/migrations), Store.Enqueue `EnqueueMatches`, Store.Claim `ClaimJobsOfKind`, and
-- Store.Close the ways in which a claim ends and rows come back.
--
-- internal/store/frontier.go is Store.Frontier: the rows of `crawl_frontier`, and a function for each
-- statement on them, the ranking of maintain.go included.
--
-- internal/raw/writer.go is Raw: Raw.Part is `partWriter`, Raw.Writer the `Writer` over the parts of
-- every directory. A row is named by its id; whether the file system and the encoder succeed is an
-- input of each call. Raw.Directory is `partWriter` once more, over the entries of its directory: the
-- number that `open` picks, the stale parts that it removes, and the rename of `finalize`.
--
-- internal/crawl/worker.go is Crawl: Crawl.Failure has `classify`, the delays and the handlers of a
-- failed row, Crawl.Worker `drainQueue` and the jobs, those of timeline.go included. The state is the
-- queue, the ids of the `matches` table and the writer; the client, the clock, the context, the random
-- numbers and the success of each statement are inputs of each job. A statement that fails changes
-- nothing.
--
-- Crawl.Walk has `walkFrontier` and `Step`, Crawl.Loop the loop of `Run` over its rounds, with
-- `shutdown`, `pause` and `recoverClaims`, and the deadline of internal/riot/expiry.go.
--
-- internal/aggregate/gate.go is Aggregate.Gate: the counts are numbers, the floor on the share of cells
-- an exact fraction, the rounded product of the rejected rate an argument, an error the list of the
-- sentinels that are joined in it.
--
-- internal/aggregate/cells.go and tier.go are Aggregate.Cells: `compute_cells` makes the tier list from
-- the tallies, with exact rates in ten-thousandths; Aggregate.Cells.Builds has the matchups and the
-- builds.
--
-- internal/aggregate/publish.go is Aggregate.Publish: `publish` is `Publish` over a disk whose paths
-- hold a directory or a file, each with one value for its content; the directories that `os.MkdirAll`
-- makes in the live tree are kept beside it. The two loops are `swap_all`, the
-- trash is its slots, and each artifact has the outcomes of the calls made for it.
--
-- Durations and instants are int64 nanoseconds: a doubling wraps around as in Go, and the theorems on
-- backoffs bound their inputs by 2^61 or 2^62 ns (73 and 146 years). Every loop is by recursion on its
-- list or its count; the chunks of `EnqueueMatches` and the printed digits take a number as fuel, and
-- a comment there says why it is enough. The loop of `Run` is over the rounds that are looked at.
--
-- Not modelled: SQL text and the database, JSON and Parquet encoding, HTTP, logging and metrics; the
-- client's URLs and endpoints, the scheduled jobs around the worker, and the aggregation in SQL.
mod Prelude
pub mod Riot
pub mod Store
pub mod Raw
pub mod Crawl
pub mod Aggregate
