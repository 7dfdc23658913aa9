-- ===== src/Lib.antt =====
-- The verification library of v2rayE, a proxy client whose service (backend-go/internal/service/native)
-- keeps profiles and subscriptions, runs a proxy core, and routes traffic through a TUN device.
--
-- The parts and how they meet. A subscription is fetched and parsed into profiles (sub_parse.go); the
-- service keeps them, with the one that is selected (service.go); the selected profile is run by the
-- core, over a WebSocket (embedded_ws.go) or a Shadowsocks stream (embedded_outbound.go) among others;
-- in the TUN mode, policy rules lead all traffic to the device, except that of the server and of the
-- local networks, which a reconciler compares with what is installed (service.go).
--
-- Base: numbers, lists, Go's int, and Go's strings as lists of bytes, with `strings` and `strconv` as far
--   as the program calls them; letters and spaces are those of ASCII. Child modules: Tests (Boolean
--   tests), Lists, Loop, Int, Text.
-- Wire: what is sent. Wire.WebSocket is embedded_ws.go without the HTTP upgrade: a connection is a record
--   of the bytes to come, the bytes sent, the writes that still succeed and the random bytes at hand.
--   Wire.Shadowsocks is the AEAD stream of embedded_outbound.go; the cipher is a parameter that seals and
--   opens. Wire.Socks has the SOCKS address and the VLESS header of embedded_outbound.go and the
--   handshake of embedded_core.go. Wire.Bytes, Wire.BitOr and Wire.BigEndian are their common ground.
-- Tun: the policy routing of service.go. Tun.Rules reads lines of `ip rule show`, Tun.Bypass builds the set
--   of destinations (`netip` and the resolver are a parameter), Tun.Drift compares it with what is
--   installed, Tun.Install runs the commands, each of which the kernel, a parameter, accepts or refuses.
-- Domain: the records of domain/types.go.
-- Sub: sub_parse.go. Sub.Uri has the helpers and the parameter for Go's libraries, Sub.Parse and
--   Sub.Content the parsers; Sub.Profiles and Sub.Lines what they make.
-- Service: the operations on profiles (Service.Profiles), the import of a URI (Service.Import) and the
--   operations on subscriptions (Service.Subscriptions) over a store whose saves may fail
--   (Service.Store). Service.Steps takes the operations on profiles as steps of the store.
--   Service.AutoUpdate is the loop that updates subscriptions by itself; times are nanoseconds.
-- Logs: log_stream.go. Logs.Broker has the buffer, the subscribers and their channels; what an operation
--   does under its lock is one step, each send and close behind the lock is one more, so that all
--   interleavings are sequences of events. Logs.Line reads lines of the core's log. Logs.Recent compares the
--   buffer with a log without a bound, Logs.Registered has the invariant of the channels, Logs.Replay
--   what a new subscriber finds.
-- Core: the life of the core in service.go. Core.State is the state that the lock of the service protects,
--   with a record of what the calls outside answer in one operation (Core.State.World); Core.Start starts,
--   stops and restarts, Core.Watchdog checks each second and restarts after a delay; a goroutine that
--   sleeps is an entry of the state. Core.Config reads the configuration. In these an operation that holds the
--   lock of the lifecycle is one step. Core.Sections takes a start in its critical sections, between which
--   the watchdog and status queries may come in; its child modules have what holds of all interleavings, and
--   that the one step of Core.Start is the sections alone. Core.Backoff, Core.GivesUp, Core.Degraded and
--   Core.Status have the other proofs, Core.Invariant the state at rest, Core.Claimed what the flag of a
--   start changes.
-- Routing: the rules that config_gen.go generates for the core, and the test of a target against them in
--   routing_test_tool.go. Routing.Rules generates, Routing.Match matches one rule, Routing.Scan runs the
--   test in its two passes; Go's `net`, the geo data and the resolver are a parameter
--   (Routing.Match.Net). Routing.First, Routing.Local and Routing.Ports have the proofs.
-- Storage: how storage/store.go brings a configuration into its normal form when it is loaded or saved
--   (Storage.Config); a configuration is a function from keys to values. Storage.Modes has the proofs on
--   the mode of the TUN device, which the service reads from the same map (Core.Config).
--
-- Bounds and fuel. `readFrame` calls itself after a ping or a pong; its fuel is enough when it is more than
-- the number of bytes to come, since each frame takes at least two. The loops of the two writers have
-- as fuel the length of what is written, and each round takes at least one byte. Lengths that the
-- peer announces keep their 64 bits; a buffer of more than 2^48 bytes is what Go refuses to make.
-- The decimal writer has one step more than the number, which has fewer digits.
--
-- Not modelled: most texts of errors; network and file I/O; the core itself, whose start and exit are
-- answers (the operations on profiles record their restart of it as a call); the files
-- and the JSON of the storage, whose saves succeed or fail; the HTTP interface, the terminal interface and the
-- launcher, which call the service; the generation of the core's configuration but for
-- its routing rules, and the statistics.
pub mod Base
pub mod Wire
pub mod Tun
pub mod Domain
pub mod Sub
pub mod Service
pub mod Logs
pub mod Core
pub mod Routing
pub mod Storage
