-- ===== src/Lib.antt =====
-- Verification of mcp-multiplexer, a Go library that connects to several MCP servers and offers their
-- tools through one CallTool.
--
-- The parts, and where they are modelled
--   * transform.go, the argument transformers and the field map: Transform.antt. JSON values are
--     Json.antt; Transform/Names is one key, Transform/Keys and Camel are snakeToCamelKeys and
--     applyFieldMap, Transform/Arrays is joinStringArrays, Transform/Resources is
--     singularizeResourceType.
--   * validate.go, the placeholder check and the schema check: Validate.antt, Validate/Placeholders.
--   * tool.go: Tool.antt; Tool/Memory.antt is Clone with the memory that results share, Cells what of
--     it a result owns, Copied what a copy leaves, Separation that copy and original share nothing.
--     config.go: Config.antt. options.go, hooks.go, metrics.go, logger.go:
--     Options.antt, in which each With function is a constructor of Setting.
--   * cache.go: Cache/Lru.antt is lruCache with its list, its index and its elements' identities;
--     Cache/Lru/Valid is its invariant, Methods the outcomes of Get and Set, Refinement its
--     specification, History and Survival what sequences of calls give; Cache/Keys is isCacheable,
--     canonicalJSON and defaultCacheKey; the values in a context are Context.antt.
--   * multiplexer.go: Mux.antt is the state (serverEntry, Multiplexer), Mux/Queries its read-only
--     methods, Mux/Order the order of their results, Mux/Listed ToolsForServers beside a reference,
--     Mux/KindGroups KindGroups, Fetch.antt fetchTools,
--     New.antt what New refuses, New/Connect connect and the rest of New, New/Connect/Opened
--     and New/Connect/Registration which servers it registers, New/Connect/Calls calls on the result.
--     from_sessions.go and Close:
--     New/Sessions. filter.go: View.antt, View/Laws.
--   * toolrefresh.go: Fetch.antt, one refresh of an entry that nothing else writes. healthcheck.go:
--     Health.antt, the backoff and the probe.
--   * Lifecycle.antt is one server over time: reconnectServer, runSupervisor, runToolRefresh with
--     applyToolRefresh, and Close, each as a step relation with a program counter, over the fields of
--     the entry that they share. A step is one access of the shared state under its lock, or one call
--     of the session; a System interleaves the goroutines in any order, with changes of the server's
--     tool list and notifications in between. Lifecycle/Invariant is their invariant; Promises,
--     Progress, Shutdown and Races are about all runs, or some. Reconnect.antt is reconnectServer and
--     a round of runSupervisor as functions, with connect, the probe, the callbacks and the log lines;
--     Reconnect/Refinement and Reconnect/Goroutines hold these functions, and applyToolRefresh,
--     against the steps.
--   * transport.go: Transport.antt, what the transports are built with; its round trippers, with
--     auth/auth.go: Auth.antt, Auth/Laws.
--   * policy/policy.go: Policy.antt, with Policy/Guards on what a guard in the BeforeCall chain stops;
--     RateLimit is Policy/RateLimit, its buckets Policy/RateLimit/Laws.
--   * eino/eino.go: Eino.antt, Eino/Laws. log/sloglog/slog.go, log/zaplog/zap.go, kvToFields of
--     transport.go and internal/testutil/capturelog/logger.go: Log.antt, Log/Laws.
--   * internal/testutil/mcptest/server.go: TestServer.antt is what a ToolSpec becomes,
--     TestServer/Running the life of the server, TestServer/Laws what the multiplexer sees of it,
--     TestServer/Adapters its transports (server_inmem.go, server_http.go) and the tool of
--     internal/testutil/dockertarget. The programs under examples: Examples.antt is
--     the hooks of redact and policy, Examples/Programs their main functions and that of basic.
--   * caller.go: Caller/Run.antt is the state that a call threads and its small steps (runAfterCall,
--     fireRejected, safeRecordCall, activeCache, toolTTL), Caller/Results is buildResult,
--     Caller/Call the first half of CallTool with its rejections, Caller/Dispatch the second half
--     (BeforeCall chain, cache, upstream call, ResultTransform chain, cache store). A stage ends in a
--     call of the next, as the code does. Caller/Tally counts what the steps add to the trace, and
--     Caller/Accounting and Caller/Paths follow the count through all stages. Caller/Observed and
--     Caller/Agreement follow what the AfterCall hooks are given, Caller/Sent and Caller/Arguments
--     which request goes out, Caller/Accepted and Caller/Rejections which error comes back,
--     Caller/Cached what a call leaves for the next.
--   * CallTool by several goroutines: Caller/Stages.antt cuts it, from the BeforeCall chain on, into
--     steps between which others may run, one for each hook before the end, each access of the cache
--     and each request; Stages/Ends counts the steps, Stages/Alone, Stages/Entered and Stages/Whole
--     hold the steps against CallTool. Caller/Concurrent.antt interleaves the steps of any number of calls, whose
--     targets may be any, with changes of the outside world; Concurrent/Origin is what is known of a
--     call at each place, Held of the cache, Served the invariant, Isolation and Transformed what it
--     gives.
--
-- How they interact: a caller's CallTool finds the entry of the server and its tool, checks and
-- transforms the arguments with validate.go and transform.go under the server's configuration, runs
-- the hooks of the options, reads and writes the cache under the key of the call, and asks the
-- session. New connects the servers, and starts a reconnection for each that failed, a refresh
-- goroutine for each, and the supervisor; these goroutines and Close meet in the server's entry.
--
-- What is outside. Host.antt lists what the code takes from elsewhere, as functions: the clock,
-- encoding/json, the sessions of the MCP SDK, the JSON Schema validator, time.ParseDuration, the
-- Unicode tables. `W` is the state of the outside world, which the clock, the sessions, every hook and
-- every callback but two may read and change; a CustomTransformer and a KeyFunc, which compute new
-- arguments and a key, are taken as functions of what they are given. `E` is the type of foreign errors. A panic that the code
-- recovers in a callback shows as the world that the callback left. The client of the MCP SDK
-- (New/Connect's Dialer), its server (TestServer's Sdk and
-- Wire), float64 (Policy/RateLimit's Float) and
-- fmt.Sprint are parameters too.
--
-- Conventions. Texts are lists of bytes. A map is an association list in the order in which a range
-- visits it, and statements say where that order matters; the map of the arguments may also be nil
-- (GoMap of Json.antt), as it is for the arguments `null`, and is then written as null. Times are nanoseconds over the natural
-- numbers, durations are integers. An error is the value that its message shows (Errors.antt). All
-- recursion is on lists and values, and the loops that wait (the supervisor, the refresh, the
-- reconnection) are step relations, in which a timer, a probe and a connection may end either way. As
-- a function, the loop of reconnectServer recurses on `rounds`, the number of times that its timer
-- fires before the context is cancelled, which may be any.
--
-- Not modelled: effects of a CustomTransformer or a KeyFunc, panics of hooks (the code does not recover them), hooks that change a result after it
-- was returned or handed to them (a ResultTransform hook gives its result back), the fields of the log
-- lines that the library writes. Calls that run at once share a snapshot of the servers only through
-- their targets; the hooks at the end of a call are one step. In Lifecycle one server stands alone, a
-- connection with its list of tools is one step, Close is called once, and a reconnection has no
-- callbacks and log lines, which Reconnect has. The transports of the SDK and the
-- vendored modules are other projects.
mod Base
pub mod Json
pub mod Transform
pub mod Validate
pub mod Tool
pub mod Context
pub mod Errors
pub mod Host
pub mod Config
pub mod Options
pub mod Cache
pub mod Mux
pub mod Fetch
pub mod Health
pub mod Lifecycle
pub mod Reconnect
pub mod Transport
pub mod New
pub mod Auth
pub mod Caller
pub mod View
pub mod Policy
pub mod Eino
pub mod Examples
pub mod TestServer
pub mod Log
mod Tests
