-- ===== src/Lib.antt =====
-- L7rp is an HTTP reverse proxy and load balancer. A request passes a listener (internal/listener),
-- which rejects what may smuggle another request; the router (internal/router), which picks a route
-- by host, path and headers; the route's middleware (internal/middleware), of which the rate limiter
-- may answer 429, the retrier buffers the response of each attempt, the header transform rewrites
-- headers and the compression encodes bodies; and the proxy (internal/upstream), which asks the
-- pool's selector (internal/lb) for an upstream, sends the request there and tells the upstream's
-- breaker how it went. Beside it a TCP proxy (internal/l4) uses the same pools of selectors and
-- breakers for connections. A selector picks among the upstreams whose
-- health flag is set, whose circuit breaker is not open and that the attempt does not exclude. All
-- of it is built by cmd/l7rp from a configuration that internal/config validates, and rebuilt on a
-- reload, with the state of the upstreams kept. A monitor (internal/health) probes the upstreams and
-- sets their health flags.
--
-- Files and the code they are about:
--   Base                      Go's strings, slices, int64 and float64, and helpers of the proofs
--   Http                      the headers of net/http that the program reads
--   Lb.Breaker                internal/lb/circuit.go: State, Record, Reserve, RemainingOpen
--   Lb.Upstream               internal/lb/upstream.go
--   Lb.Selector               internal/lb/selector.go: eligibleSet, and the contract of the selectors
--   Lb.RoundRobin             internal/lb/roundrobin.go
--   Lb.LeastConnections       internal/lb/leastconnections.go
--   Lb.PowerOfTwo             internal/lb/p2c.go
--   Lb.WeightedRoundRobin     internal/lb/weighted.go
--   Lb.ConsistentHash         internal/lb/consistenthash.go: the ring, Pick
--   Middleware.ClientIp       internal/middleware: clientIP, clientIPWithTrust, bucketKey
--   Middleware.RateLimit      internal/middleware/ratelimit.go
--   Middleware.Retry          internal/middleware/retry.go: ServeHTTP, serveSequential, serveHedged
--   Middleware.Headers        internal/middleware/headers.go
--   Middleware.Compress       internal/middleware/compress.go
--   Upstream.Proxy            internal/upstream/proxy.go: ServeHTTP
--   Upstream.Response         internal/upstream/proxy.go: buildUpstreamRequest, copyResponse
--   Upstream.WebSocket        internal/upstream/websocket.go, up to the session
--   L4                        internal/l4/proxy.go, and buildTCPPool of cmd/l7rp/main.go
--   Router                    internal/router/router.go: NewRouter behind its validation, Match
--   Router.Validation         internal/router/router.go: validate, and NewRouter whole
--   Config                    internal/config/config.go: the schema
--   Config.Validate           internal/config/config.go: Validate
--   Config.Manager            internal/config/config.go: Load, Manager
--   Listener.Smuggling        internal/listener/smuggling.go
--   Listener.Tls              internal/listener/tls.go
--   Health                    internal/health/monitor.go: probe results and passive scores
--   Runtime.Settings          cmd/l7rp/main.go: buildSelector, buildMiddleware and the settings
--   Runtime.Chain             cmd/l7rp/main.go, internal/middleware: the response writers of a chain
--   Runtime.Upstreams         cmd/l7rp/main.go: buildUpstreamsReusing
--   Runtime.Pools             cmd/l7rp/main.go: buildPool, buildRoutes
--   Runtime.Listeners         cmd/l7rp/main.go: diffListeners, apply, the end of serve
--   Runtime.Reload            cmd/l7rp/main.go: reloadConfig
-- A file has its theorems in the modules below it, and examples in a module Examples.
--
-- How state is modelled: a struct is a record, a method takes the record and returns the new one
-- with its result, and a mutex or an atomic is left out, since each operation runs alone. Instants
-- are arguments in nanoseconds, one for each call that reads the clock; the breakers of one Pick
-- read one instant. Where requests share upstreams, a handler is cut where it waits, and its parts
-- are steps on the pool that interleave in any order; recordResult of the monitor is cut where it
-- unlocks. A pointer to an upstream is its id. A string is a list of bytes.
--
-- Bounds: no function takes fuel, since every loop of the code runs over a list or counts down what
-- is left. A counter or score of type uint64 wraps, and so do the current weights of
-- Lb.WeightedRoundRobin, which are int64; another int64 count does not, where its theorem says
-- which bound it keeps. Configured numbers may be negative until they are validated. A float64 is a
-- record of operations (Base.Floats), and so are the tokens of the limiter; a theorem that needs
-- laws of them names these as a hypothesis, which real float64 satisfies. to_lower is that of
-- ASCII.
--
-- Parameters: the random generators, which yield numbers in the range they are asked for; the YAML
-- decoder; the ring positions of keys and of virtual nodes; the handlers behind the retrier, a
-- function of an attempt's info and body; the transport, told by what it returns; url.Parse, the
-- loading of certificates, the opening of listeners and reflect.DeepEqual; the floats.
--
-- Not modelled: sockets, TLS sessions, HTTP/3 and the HTTP transport; goroutines but for the orders of
-- steps named above; metrics, traces and logs; the texts of errors; what encoders make of their
-- bytes; the session of an upgraded connection; panic recovery, request ids and deadlines; flags,
-- signals and the first start; the accept loop of the TCP proxy.
pub mod Base
pub mod Http
pub mod Lb
pub mod Middleware
pub mod Router
pub mod Config
pub mod Listener
pub mod Health
pub mod Upstream
pub mod Runtime
pub mod L4
