-- ===== src/Lib.antt =====
-- Request logging of an OpenResty gateway: the listener that takes the gateway's log frames and
-- keeps the files (bodylog-listener-go), and the exporter that turns them, the gateway's status and
-- the cluster's state into Prometheus metrics (bodylog-exporter-go).
--
-- How the parts interact. The gateway's lua/bodylog.lua sends a frame for each request over TCP; the
-- listener's readFrame and handleConn cut the stream into frames, whose rows it writes to daily files.
-- The listener's prune deletes old files. The exporter's tailer follows the daily file by its offset
-- and hands each row to observe, which labels it with the route and the service that the resolver
-- has for the backend's address. The resolver rebuilds that mapping from the ModelRoutes and the
-- EndpointSlices of the API server and gives the poller its targets; the poller turns the status
-- pages of openresty into gauges and counters.
--
-- Base: names of the libraries that are passed on, Boolean tests, lists over native numbers, texts
-- as lists of bytes, 64-bit words and maps as association lists.
--
-- Listener.Frame: readFrame, rawFrame and handleConn of bodylog-listener-go/main.go on a stream of
-- bytes, and the encoder of lua/bodylog.lua. handle_conn takes a bound on the number of frames as
-- fuel; more than the number of bytes is enough, since a frame has at least five bytes.
-- Listener.Retention: pruneCandidates and prune of bodylog-listener-go/retention.go; Listener.Files
-- has the directories. The clock, statfs and the success of os.Remove are the fields of World.
--
-- Listener.Housekeep: housekeep, rotateDetails, tarGzDir, verifyTarGz and gzipFile of
-- bodylog-listener-go/main.go. A directory is a map from names; what the system calls, tar, gzip and
-- DuckDB answer are the fields of Tools.
-- Listener.Bucket: one minute bucket of the aggregator in bodylog-listener-go/main.go: what ingest
-- counts, the deltas that flushClosedMinutes writes, and bucket.add, with which reload merges lines.
-- Listener.Aggregator: ingest, flushClosedMinutes and reload on the aggregator's maps. Pointers are
-- addresses in a heap, since active, archive and archiveIdx share buckets.
-- Listener.Entry: what ingest reads of an entry in bodylog-listener-go/main.go: parseEntryMinute,
-- normalizePeer, extractUsage and extractStream with its regular expression. An entry is decoded JSON;
-- float64 and time.Parse are parameters.
-- Listener.Api: bodylog-listener-go/httpapi.go, and sqlStr and readDetailsJSON of main.go. authOK and
-- the cursors are in Api itself, summaryHandler and mergeBucketsByPeer in Api.Summary; Api.Metrics has
-- metricsHandler, its parameters and SQL in Query and its rows in Page; Window has the statements that
-- a client of next_cursor, in Walk, has the database answer, and what the database answers. base64, the
-- packages time and strconv, and DuckDB are parameters; an error of rows.Columns or rows.Scan counts as
-- one of the query. The fuel of the walk bounds the pages: one more than the rows is enough.
--
-- Exporter.PdRoles: pdRoles and its counts (bodylog-exporter-go/pd_roles.go). Counts are 64-bit
-- patterns with wrap-around.
-- Exporter.Names, Owners and Resolver: bodylog-exporter-go/route_endpoints.go: routeName,
-- openrestyBase, backendIP and others in Names; desiredForPod and getOwnerObj in Owners, where the
-- walk has the source's own bound of five objects; listModelRoutes and podIPsForService in
-- Resolver.Routes, build in Resolver.Build, refresh, Lookup and serviceFor in Resolver.Refresh. What
-- the API server answers is a parameter.
-- Exporter.Metrics: observe and promptBucket of bodylog-exporter-go/metrics.go. A row's updates are
-- a list; Floats is the interface to float64.
-- Exporter.Tail: tail.go, recovery.go and checkpoint.go of bodylog-exporter-go. Lines has readFrom,
-- handleLine and persist, Follow the rounds of tailLoop, Run the start and recoverViaHTTP. What the
-- file system and the HTTP service give is a parameter, and so is the JSON decoder; the rows that
-- observe is called with are kept in order.
-- Exporter.Poller: pollOnce of bodylog-exporter-go/openresty_poll.go. The numbers of rejected
-- requests are whole; a gauge's value is any type.
--
-- Not modelled: logging; JSON, HTTP, TCP and the file system themselves; goroutines and locks, whose
-- parts run one after another here; the daily files of the aggregator; the assembly of records from
-- frames, and their hourly files; the programs' entry points; and the gateway's Lua engine.
pub mod Base
pub mod Listener
pub mod Exporter
