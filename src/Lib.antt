-- ===== src/Lib.antt =====
-- Verification of promeproxy, a proxy in front of several Prometheus servers, written in Go.
--
-- The program. The storage layer hands samples to remote storages and answers queries from a local and
-- several remote storages. retrieval finds the targets, and web/api/v1 serves the API; cmd/main.go puts
-- the parts together and applies a new configuration to each. The models follow the code:
--   Model, Floats         types of prometheus/common/model, and float64 as a parameter
--   Metric.Matcher        the fields of LabelMatcher of Prometheus, as storage/remote and storage/fanin use it
--   Storage               storage/storage.go: SampleAppender and Fanout
--   Remote.Ewma           storage/remote/ewma.go: tick, incr, rate
--   Remote.Queue.Backoff  storage/remote/queue_manager.go: sendSamples, sendSamplesWithBackoff
--   Remote.Queue.Shard    the same file: runShard, one step for each case of its select
--   Remote.Queue.Shards   the same file: newShards, enqueue; Order has reshard as a step relation over the
--                         facts of Channels
--   Remote.Queue.Manager  the same file: Append, calculateDesiredShards
--   Remote.Queue.Lifecycle  the same file: Start, Stop, updateShardsLoop, reshardLoop, reshard, as turns
--   Remote.Queue.Metrics  the same file: the collectors that init registers
--   Remote.Client         storage/remote/client.go: NewClient, Store, Read, matrixFromProto; Matchers has
--                         labelMatchersToProto
--   Remote.Read           storage/remote/read.go: Reader and querier
--   Remote.Write          storage/remote/write.go: Writer
--   Remote.Pipeline       Writer.Append and QueueManager.Append, one after another; Turns has the calls of
--                         Append as turns of Remote.Queue.Lifecycle
--   Remote.Iterator       storage/remote/iterator.go, over sort.Search (Common.Search)
--   Fanin.Merge           storage/fanin/fanin.go: mergeSamples
--   Fanin.Iterator        the same file: mergeIterator
--   Fanin.Query           the same file: query, mergeIterators; Race has its goroutines in turns
--   Fanin.Close           the same file: querier.Close
--   Fanin.Remotes         the same file: Queryable.Querier, QueryRange, QueryInstant, over the queriers of
--                         storage/remote/read.go and its MatrixToIterators; Streams has the iterators
--   Retrieval.Scrape      retrieval/scrape.go: scrapePool
--   Retrieval.Manager     retrieval/targetmanager.go: TargetManager; Reload and Stop have its calls
--   Retrieval.Target      retrieval/target.go: Target, populateLabels, targetsFromGroup
--   Retrieval.Targets     retrieval/target.go: String, hash, LastError, LastScrape, Health, and Targets
--   Retrieval.Appenders   retrieval/target.go: the sample appenders
--   Labels                label sets as the maps that they are: what the appenders, the queue manager and the
--                         reader do to them
--   Web.Api               web/api/v1/api.go: query, queryRange, labelValues, dropSeries; Servers has the servers
--                         that are asked, from the target manager's targets
--   Web.Proxy             the same file: proxyReq and its goroutines
--   Web.Handlers          the same file: series, targets, alertmanagers, and web/api/v1/types.go
--   Web.Reply             the same file: instr, respond, respondError
--   Web.Hash, Web.Times   web/api/v1/api.go: sum64, getTargets, parseTime, parseDuration; Web.Times.Points has
--                         the points of queryRange for the times that are read
--   Web.Handler           web/web.go: ApplyConfig, New with its routes, Run, quit, reload; Routes and Serving have
--                         what the routes are
--   Cmd.Config            cmd/config.go: parse, parsePrometheusURL
--   Cmd.Usage             cmd/config.go: the groups of flags in the usage text, and its wrapped lines
--   Cmd.Unused            cmd/config.go: unusedFlag, registerUnusedFlags
--   Cmd.Sets              cmd/config.go: stringset
--   Cmd.Reload            cmd/main.go: reloadConfig
--   Cmd.Components        cmd/main.go: the components that are reloaded
--   Cmd.Main              cmd/main.go: Main; Events has what a running command does
--   Utils                 utils/httputil.go: the HTTP client with a deadline
-- The laws of a module stand in its child Laws or beside its definitions, and runs of the laws at
-- concrete inputs in Tests.
--
-- State is passed explicitly: an operation takes a record and returns the changed one, `Option` or a sum
-- holds errors, and `none` stands for a panic where the code can panic. Go's maps are association lists,
-- whose order is the order of one iteration; theorems speak of lookups, or say what the order decides.
-- What the code does with objects of libraries (queue managers that start and stop, target sets that run)
-- is a log of calls. Concurrency is a sequence of steps: Remote.Queue.Shards.Order for producers, shards
-- and resharding, Fanin.Query.Race for the goroutines of a query, and the events that arrive during a
-- tick in Remote.Ewma; Remote.Queue.Lifecycle puts the loops, Stop and the shards of a queue manager
-- together as turns, which refine the steps of Remote.Queue.Shards.Order. Cmd.Main takes the signals and
-- requests to a running command as a list of events. Web.Proxy has the unlocked appends of a request to
-- the servers as turns of a schedule.
--
-- Bounds. Timestamps are integers, taken to stay in the range of int64 under the arithmetic in storage;
-- the range of a query is computed in wrapping int64 arithmetic; counters are numbers taken not to
-- overflow. The loop of sends in runShard has the pending samples as fuel, each send taking at least one
-- off if MaxSamplesPerSend is positive; the loop of sort.Search has the length as fuel, which each round
-- makes smaller; the loop of removeDuplicate runs once for each value.
--
-- Parameters: fingerprints and hashes of metrics, relabelling, the texts of matchers, sort.Sort, the network,
-- float64, HTTP, protocol buffers, snappy, JSON, the parsing of numbers, dates and URLs, the query
-- engine, the address checks, the discovery library and the local storage.
--
-- Not modelled: storage/metric, an unchanged copy of a package of Prometheus that nothing imports; negative
-- numbers of shards, with which newShards panics; int overflow of the deleted series; the template of the usage text and the texts of errors; the log; exprTest of
-- web/api/v1/api.go, which only logs, and what comments there disable, with the types of JSON for
-- it; generated code, and vendored code.
pub mod Common
pub mod Model
pub mod Labels
pub mod Floats
pub mod Metric
pub mod Storage
pub mod Remote
pub mod Fanin
pub mod Retrieval
pub mod Utils
pub mod Web
pub mod Cmd
mod Tests
