-- ===== src/Lib.antt =====
-- Verification library of point-c, a set of Caddy modules that carry traffic through WireGuard networks
-- in user space.
--
-- The program's parts. pkg/wg/wgapi holds the text protocol of wireguard-go: a list of key=value pairs
-- is printed by `IPC.WGConfig` and read by `IPCGet.Value`. pkg/wg/wgapi/wgconfig builds such lists for a
-- client and a server. pkg/wg makes an interface of options (`New`), hands it the configuration, and
-- closes it. module/networks/wg makes networks of an interface for the Caddy app in point-c.go, which
-- finds them by name. listener.go listens on one of them, and stub-listener.go on none.
-- merge-listener-wrapper.go merges several listeners into one, whose connections come through the
-- channel of pkg/channel-listener. forward.go listens on ports and forwards to a
-- network. pkg/configvalues parses the values of all configurations, and module/internal/unmarshaler.go
-- resumes an app's configuration from a Caddyfile.
--
-- The modules and the code that they model:
-- Base, Strconv, Hex: what the code uses of Go's language and library: bytes, maps, errors (`GoError`,
--   `Result` with a panic), `bytes.Cut`; strconv's ParseUint, ParseInt, Itoa; encoding/hex.
-- Wgapi.Key, Wgapi.Addr, Wgapi.Value: pkg/wg/wgapi/internal/key/keys.go, the structs of package net,
--   and internal/value/values.go. A type parameter is a value here (`KeyName`, `KeyType`).
-- Wgapi.Api: the named types, defaults and subnets of pkg/wg/wgapi/api.go, and keys.go.
-- Wgapi.Scanner: internal/parser/scanner.go, in the loop of bufio.Scanner.
-- Wgapi.Parser, Wgapi.Typing: internal/parser/parsers.go and the table `parsers` of parser.go; the types
--   that api.go gives the keys.
-- Wgapi.Ipc: `IPC.WGConfig` of api.go, and `IPCGet.Value` of parser.go on bytes that are all at hand;
--   Wgapi.Get: `IPCGet` with its buffer, which `Value` reads through a scanner that reads ahead;
--   Wgapi.Faults: inputs on which they fail.
-- Wgconfig: pkg/wg/wgapi/wgconfig, its client, server and generated pair.
-- Wg.Options, Wg.Connection: options.go and connection.go of pkg/wg; Wg.Connection.Concurrent is `Close`
--   called by several goroutines.
-- Wg.Netstack: netstack.go of pkg/wg. The module itself has `Read` and `Write` on their buffers; Setup is
--   `NewNetstack`; Lifecycle has the goroutines of `Close`, `WriteNotify` and `Read` that share a device;
--   Dial has the requests that `Net` and `Dialer` make of the network stack.
-- Wglog: async.go, multi.go, noop.go and slog.go of pkg/wg/wglog, and the logger of Wgevents among them.
-- Wgevents: the logger of pkg/wg/wglog/wgevents that makes events of log calls. Its generated switch has
--   one case of the same form for each event; here the cases are lists of events, with tables of their
--   formats and argument types, and of their texts, levels and field names (Slog), in parts of up to 150
--   lines of the generated file.
-- EventsGenerate: pkg/wg/wglog/wgevents/internal/events-generate/main.go, between the decoder of YAML and
--   the templates.
-- WgNetworks: server.go, client.go and wgkey.go of module/networks/wg; Nets has the networks and dialers.
-- Configvalues: values.go, types.go and unmarshaller.go of pkg/configvalues.
-- Caddyfile: what Caddy's dispenser yields: one entry for each directive and each line of its block.
-- Unmarshaler: module/internal/unmarshaler.go, over an interface that Pointc.Append fills.
-- Pointc: point-c.go; Pointc.Net is the interface `Net`, which WgNetworks.Nets fills and which Listener
--   and Forward.Handler use. ChannelListener: pkg/channel-listener. MultiWrapper:
--   merge-listener-wrapper.go. Listener: listener.go, and from the networks of a client through the app to
--   the request (Tunnel). StubListener: stub-listener.go.
-- Forward: forward.go, its port pairs (PortPair), the app (App), and `forwardListener` with `tcpCopy`
--   (Handler).
-- Examples: the theorems at concrete inputs.
--
-- How code becomes a definition. A method that changes its receiver returns the new record. An error
-- beside a value is a pair with an `Option GoError`; errors are compared by their format and arguments,
-- and `errors.Join` is `join`. A type assertion or an index that panics gives `panic`. Goroutines are
-- lists of threads, each at a point of its code (`ChannelListener.Thread`, `Wg.Netstack.Lifecycle.Task`),
-- and a step of the system is one atomic operation of one of them (`Step`, `Reach`). Functions of other
-- packages are parameters: `AddrText` (package net), `TextTools` and `PairTools` (Caddy's replacer, gjson,
-- strconv.Quote), `AddrTools`, `LoadModule`, and `Wg.Connection.Env` (wireguard-go). The laws that
-- `AddrText` states: what `ParseCIDR` returns, and a single address with a full mask, is a network whose
-- text is short, on one line, and read back; `ResolveUDPAddr` returns an IP address of one of its sizes
-- and a 16-bit port, and the text of such an address without a zone is read back. What is read back is
-- the same network or address in the form that the parser prefers: an IPv4 network in 4 bytes
-- (`short_net`), an IPv4 address in 16 (`long_addr`).
--
-- Bounds and fuel. `value` runs its loop on fuel one greater than the length of its input; each round
-- takes at least one byte from the input, so the fuel is enough, and Wgapi.Ipc.Total shows that it always
-- ends. `get_value` runs the same rounds, and `scan_next` in each of them on fuel one greater
-- than the number of reads that can follow, each of which takes a byte or finds the end (`weight`).
-- Lines are limited by bufio.MaxScanTokenSize, as the scanner's are. Unsigned numbers of w bits are
-- natural numbers below 2^w; `to_int` is Go's conversion to a 64-bit int, which wraps.
--
-- Not modelled: the network stack (gVisor) and wireguard-go, which are parameters; the panic of a network
-- whose device is nil because its `Provision` has not succeeded; the bytes that io.Copy
-- moves between two connections, since package io does that; the JSON methods of the networks, which call
-- encoding/json; the templates of the generator; the registration of the modules with Caddy; and the
-- helpers of the tests.
pub mod Base
pub mod Strconv
pub mod Hex
pub mod Wgapi
pub mod Configvalues
pub mod Caddyfile
pub mod Unmarshaler
pub mod ChannelListener
pub mod MultiWrapper
pub mod Pointc
pub mod Forward
pub mod Listener
pub mod StubListener
pub mod WgNetworks
pub mod Wgevents
pub mod Wglog
pub mod EventsGenerate
pub mod Wgconfig
pub mod Wg
pub mod Examples
