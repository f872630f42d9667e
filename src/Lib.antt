-- ===== src/Lib.antt =====
-- scd keeps the resources of an Xray proxy in step with subscription files: it reads the candidates of
-- a source, ranks them, keeps a set of active ones in slots, and adds, removes and replaces the
-- outbounds, inbounds and routing rules that belong to them through Xray's API.
--
-- Files and the code they are about, with paths from the repository's root:
--   Country: internal/scd/country/country.go. FromLabel, FromISO2; the table of countries.
--   LabelFilter: internal/common/labelfilter/labelfilter.go. Match, Empty; an expression is its
--     matching function.
--   Selection: internal/scd/selection/selection.go. Filter, Rank, Pick.
--   Selection/Quarantine, Selection/Decide: internal/scd/selection/decide.go. The selection state,
--     Replacement, and Decide as its two loops over the slots. Decide's client is the sync of a
--     source, which applies the actions with the operations of Apply.
--   Xray: internal/scd/xrayapi/client.go. Xray is a parameter: a server with a state of any type, whose
--     calls may fail and change the state. Every call is recorded in order.
--   Config: internal/scd/config/types.go, the fields that are read. Its children are rules.go: Issues (the
--     reports), Sources (checkSources, checkTargetSources), Cycles (findCycles, dependencies),
--     Dependencies (checkDependencies, checkCycles), Cross (checkCrossDependencies) and Rules (the rest,
--     and checkRules). What the rules accept is what Apply relies on: the namespaces of a target's
--     sources are disjoint.
--   Memory: internal/scd/state/state.go and wait.go. The targets with their sources and tunnels;
--     Memory/Tunnels has the replacement of topologies and tunnels, Memory/Store the targets by key,
--     Memory/Balancers the selection of a balancer.
--   Balancer: internal/scd/balancer. selection.go, and the record of a poll of tick.go (Balancer/Tick).
--   Vless: internal/common/vless/parse.go, the skip of a line.
--   Outbound: ForTarget of internal/scd/outbound; the outbounds themselves are built for and by a library
--     of Xray, so Build, WithTag and ToProto are a parameter.
--   Manifest: internal/scd/manifest. Build over lines that stand behind the parser and the normalizer,
--     whose answers are arguments; ApplyFilters and the filter of candidates.
--   Topology: internal/scd/topology/topology.go. The tunnels of a source: ports, tags, outbounds.
--   Apply: internal/scd/apply. Reports (report.go) and namespaces (namespace.go). Apply/Cap is cap.go,
--     Apply/Outbounds outbounds.go with its rollback, Apply/Tunnels inbounds.go and routing.go, which
--     have the same loops over different calls, Apply/Orphans RemoveOrphans, Apply/Slots tunnel.go,
--     Apply/Plan plan.go, which runs them for a source. Apply/Steps has the steps that may fail.
--   State: internal/scd/state/xray.go. The issues of a target as a state machine: State/Episodes runs
--     NoteXray over any calls, State/Losses the marks of lost sources over any events.
--   Monitor: internal/scd/monitor/repair.go and tunnels.go. Monitor/Calls has the calls to Xray of a repair
--     and of a rejoin, Monitor/Repair and Monitor/Rejoin both on the target, Monitor/Probe the probe with its
--     retries, Monitor/Check what checkTunnel records. What a repair relies on in Xray is a named
--     hypothesis (Monitor/Single), which the three lists meet (Monitor/Plain).
--     Monitor/Series runs the monitor of a tunnel over any events, Monitor/Runs repairs and rejoins over any
--     calls that fail, Monitor/Recovery a failed check and the next one.
--   Waits: internal/scd/state/wait.go and applyWaits of internal/scd/monitor/wait.go, for one source of a
--     target whose API answers; the health that was found is an argument.
--   Models of Xray: the properties of calls and of reports hold for any server. What is left in Xray is
--     stated for a list of outbounds (Apply/Outbounds/Plain) or three lists (Apply/Slots/Three), where a
--     removal drops a tag, an addition appends, and any additions may be refused.
--   Sort: the stable sort of the standard library's slices package.
--   Prelude: Boolean tests, lists, maps and strings. Tests: runs at concrete inputs.
--
-- Numbers. An int of the code that is never negative is a natural number, and a time is a number of
-- nanoseconds or milliseconds. A float64 is any type with the operations that the code uses. A key of
-- 32 bytes is a number. The loops are recursions on lists or on the number of attempts, but for the two
-- searches of rules.go, which take fuel: a visit of findCycles marks a node, and a step of dependencies
-- sees one, so that the number of nodes is enough, as is proved.
--
-- Not modelled: files, HTTP, gRPC, JSON and YAML, clocks (a reading of the clock is an argument), the
-- concurrency of the daemon, whose callers hold the lock of the target, and the text of errors.
pub mod Apply
pub mod Balancer
pub mod Config
pub mod Country
pub mod LabelFilter
pub mod Manifest
pub mod Memory
pub mod Monitor
pub mod Outbound
pub mod Prelude
pub mod Selection
pub mod Sort
pub mod State
pub mod Tests
pub mod Topology
pub mod Vless
pub mod Waits
pub mod Xray
