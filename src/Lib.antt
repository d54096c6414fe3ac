-- ===== src/Lib.antt =====
-- A model of the telemetry stack's message path, in Go: the streamer (services/streamer), which
-- publishes the rows of a CSV file through the queue client (internal/shared); the proxy in front of
-- the brokers (services/msg_queue_proxy), with the consistent hash ring that it routes by
-- (internal/consistent_hash); the broker (services/msg_queue); and the collector
-- (services/collector), which reads the messages through the same client and writes them to InfluxDB
-- (internal/influx). A post goes to the proxy; the proxy picks the broker of its topic and partition
-- on the ring, or a healthy one, and forwards the request; the broker queues the message, streams it
-- to consumers, and keeps it in flight until it is acknowledged or its visibility timeout has
-- passed. The records are served by services/api. The HTTP interfaces are guarded by
-- internal/security.
--
-- Files, with the code that they model:
--   MsgQueue/Message      Message of services/msg_queue/main.go, and encoding/json on it
--   MsgQueue/Partition    Partition and its methods: newPartition, persist, loadFromFile, enqueue,
--                         monitorPending, fetchAndTrack, ack, Close
--   MsgQueue/Broker       Broker, NewBroker, getPartition, createPartitionIfNotExists, topicsHandler,
--                         healthHandler
--   MsgQueue/Http         requests and responses; MsgQueue/Handlers: produceHandler, consumeHandler,
--                         ackHandler
--   MsgQueue/Routes       the paths of main's mux; MsgQueue/Service: its server
--   MsgQueue/Settings     getQueueSize, and the broker that main makes of the environment (TOPICS,
--                         BROKER_INDEX, BROKER_COUNT); MsgQueue/Ids: genID
--   ConsistentHash        internal/consistent_hash/consistent_hash.go, every function
--   Proxy                 SmartProxy of services/msg_queue_proxy/main.go: discoverBrokers,
--                         initConsistentHash, getBrokerForTopicPartition, recordRequest,
--                         checkBrokerHealth; Proxy/Requests: its handlers and forwardRequest;
--                         Proxy/Routes and Proxy/Service: the mux of Start with its handlers;
--                         Proxy/Startup: loadConfig, Start, healthCheckLoop; Proxy/Stats:
--                         statusHandler and statsHandler; Proxy/Metered: recordRequest and
--                         checkBrokerHealth with their metrics
--   HttpQueue             HTTPMessageQueue of internal/shared/http_message_queue.go: the partition of a
--                         publish, Publish, ackMessage, and the scan of a stream in
--                         consumeFromPartition; HttpQueue/Lines: bufio.ScanLines;
--                         HttpQueue/Subscribing: Subscribe, consumeFromPartition, GetTopics
--   RedisQueue            RedisStreamQueue of internal/shared/redis_stream_queue.go
--   Config                config/config.go; Services: which queue the collector and the streamer use,
--                         and which database the collector
--   Metrics/Utf8          utf8.ValidString, for the label values that the Prometheus client takes
--   ServeMux              the http.ServeMux of net/http, for patterns that are paths
--   Url                   the queries of net/url; Url/Wire: the URLs that a request can carry
--   Pipeline              a publish through proxy and broker, a row from the broker to the database,
--                         and from there to a client;
--                         Pipeline/Broken: a connection to the broker that breaks;
--                         Pipeline/Dispatch: the requests at the muxes of proxy and broker
--   Security              internal/security/auth.go, every function
--   Streamer              StreamCSV of services/streamer/stream_csv.go; Streamer/Metered: with its
--                         metrics
--   Collector             the message handler of services/collector/main.go
--   Influx                internal/telemetry/telemetry.go, and the points, rows and queries of
--                         internal/influx/influx.go; Influx/Client: InfluxWriter and its methods;
--                         Influx/Stored: what the database keeps
--   Api                   the two GPU handlers of services/api/main.go; Api/Service: its main, with
--                         the routes behind the API key's middleware
--   Metrics               internal/metrics/metrics.go; Metrics/Middleware: HTTPMiddleware;
--                         Metrics/Collecting: the collector's handler with its metrics
--   Strconv               strconv.Atoi and the %d of fmt
--   Prelude               Go strings, ints and maps, and the tests on numbers
--   Tests                 concrete inputs
-- The files below a component's folder hold its proofs.
--
-- State. A function of the model takes the state that a method changes through its receiver, and
-- returns it with the result. What a method does between taking its lock (or passing its select) and
-- giving it back is one step, and the calls of several goroutines are a sequence of such steps. What
-- comes from outside is an argument: the time, the choice of a select, the order of a range over a
-- map, the errors of the operating system, the answers of the network. A panic is a value of the
-- model: `none`, or a constructor of its own.
--
-- Parameters. encoding/json is the record Codec (a message that is plain, that is valid UTF-8, comes
-- back from its own line) and the record Bodies; crypto/sha512 is the record Sha512 (bytes are below
-- 256); the proxy's network is the record Network, the client's a function. The collector's formats
-- (encoding/json on arrays of strings, ParseFloat, time.Parse) are the record Formats. The
-- client library of InfluxDB, with the database, is the record InfluxDb; what it keeps and finds is
-- the record Flux, and the row in which it gives a point back is described by IsRowOf. The handler of
-- a stream, the
-- database of the collector and the queue of the streamer are functions on a state of their own. The
-- Redis client is the record RedisClient, the Prometheus client the record Prometheus, and float64
-- the record Float64. The environment is a function from names to values, which are empty if they
-- are not set.
--
-- Numbers. An int is a signed number over ℕ; Atoi refuses what does not fit 64 bits. The counters of
-- the proxy are bit patterns modulo 2^64. The hash is a uint32. Times are natural numbers.
--
-- Loops. sort.Search runs on fuel, with the length as fuel, which is enough (ConsistentHash/Search).
-- The print of a number n runs on fuel n + 1, which is enough (Strconv/RoundTrip). Every other loop
-- is a recursion on the list or the number that the Go loop runs over. A stream to a consumer is
-- followed over a finite list of polls, the streamer's endless loop over a number of passes, a
-- consumer's over a finite list of attempts, the Redis client's over a list of replies, and the health
-- checks over a list of ticks.
--
-- Simplified. strings.TrimSpace trims the ASCII white space only. A write to the log that fails
-- leaves no part of a line. fetchAndTrack takes the message from the channel and inserts it into
-- the pending map in one step. Logging and delays are left out, and so are the calls of
-- internal/metrics in the broker; Streamer has those of StreamCSV in a file of their own. The handlers of the proxy are modelled less the
-- metrics of recordRequest, which Proxy/Metered adds. The path of a request to the API service is
-- the decoded one, by which ServeMux goes in Go before 1.22 (go.mod says 1.18); those of the requests
-- to the proxy and the brokers are read as they stand. Pipeline follows a publish from handler to
-- handler, and the muxes between them are in Pipeline/Dispatch. The steps of Proxy/Running are
-- those of the handlers; a request whose metrics panic has counted itself before. The allocation of
-- a slice panics at a negative size only. Before Start the ring of the proxy is
-- a nil pointer in the code and an empty ring here; nothing reads it then.
--
-- Not modelled. The listeners and the signals (wiring); the times and the rendering of the answers
-- of the health, status and statistics handlers; services/api/docs (generated);
-- internal/testutils (test helpers); vendor (third-party code).
pub mod Prelude
pub mod Strconv
pub mod Url
pub mod Config
pub mod ServeMux
pub mod Metrics
pub mod MsgQueue
pub mod ConsistentHash
pub mod Proxy
pub mod HttpQueue
pub mod RedisQueue
pub mod Services
pub mod Security
pub mod Influx
pub mod Collector
pub mod Streamer
pub mod Api
pub mod Pipeline
pub mod Tests
