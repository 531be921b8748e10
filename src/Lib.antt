-- ===== src/Lib.antt =====
-- A model of the playit agent: the messages that the agent and the tunnel servers exchange, the
-- control session, and the channel over which the packets of the tunnels come and go.
--
-- The agent keeps a control connection to a tunnel server, over which it registers (with a signed
-- message), asks for a UDP channel and is told of new clients. UDP packets of the tunnels travel
-- over the channel, each with a footer that tells to which flow it belongs. Every flow is a client with
-- a socket of its own towards the local service, whose address the lookup of origins gives, and what
-- the service answers goes back over the channel. A tunnel may put a PROXY protocol header in front of
-- a client's traffic.
--
-- Which file models which part of the repository:
--   Io                packages/agent_proto and packages/agent_core read and write through `io::Read`
--                     and `io::Write`; here a write is the bytes and the count that it reports, a read
--                     takes the bytes that are left, and a panic is a third outcome beside `Ok` and
--                     `Err`. Io.RoundTrip says what it means that a reader takes back what was written.
--   Wire              the crates `byteorder` and `message_encoding`, which are not in the repository:
--                     a parameter of every definition, with the documented laws `WireLaws`.
--                     Wire.BigEndian fills the parameter, for the examples.
--   Proto.Session     packages/agent_proto/src/lib.rs
--   Proto.Rpc         packages/agent_proto/src/rpc.rs and raw_slice.rs
--   Proto.Mtu         packages/agent_proto/src/control_messages.rs, `write_mtu_pattern` and
--                     `read_and_verify_mtu_pattern`
--   Proto.Register    packages/agent_proto/src/control_messages.rs, `AgentRegister` and
--                     `AgentRegisterV1`; for Proto.Register.Signature the HMAC of hmac.rs is a
--                     parameter with the laws `HmacLaws`
--   Proto.Request     packages/agent_proto/src/control_messages.rs, `ControlRequest` and its parts
--   Proto.Response    packages/agent_proto/src/control_messages.rs, `ControlResponse` and its parts
--   Proto.Feed        packages/agent_proto/src/control_feed.rs
--   Proto.Flow        packages/agent_proto/src/udp_proto.rs
--   Udp.Packets       packages/agent_core/src/network/udp/packets.rs, one packet
--   Udp.Channel       packages/agent_core/src/network/udp/udp_channel.rs: the handlers of the send task
--                     and the receive task; Udp.Channel.Session runs them, one event at a time and in
--                     any interleaving, as the relation `Step`
--   Control           packages/agent_core/src/agent_control/established_control.rs, and receiving,
--                     setting up and resetting of connected_control.rs; Control.Authenticate its
--                     attempts to register, on streams of what arrives and of which sends fail
--   Control.Maintained  packages/agent_core/src/agent_control/maintained_control.rs; Update is the
--                     round of the session, with what the clock says, what arrives and what fails as
--                     its argument, and Runs takes the operations in any order
--   Control.Selector  packages/agent_core/src/agent_control/address_selector.rs, on streams of what
--                     arrives and of which sends fail
--   Origin            packages/agent_core/src/network/origin_lookup.rs; DNS is a parameter
--   Slab              the crate `slab`, which is not in the repository: a parameter with the laws
--                     `SlabLaws`. Slab.Lists fills it, for the examples.
--   Stats             packages/agent_core/src/stats.rs
--   Udp.Clients       packages/agent_core/src/network/udp/udp_clients.rs: the state, and in
--                     Udp.Clients.Steps the three operations; Udp.Clients.Runs takes them one at a
--                     time and in any order, as the UDP task of playit_agent.rs does. Of
--                     udp_receiver.rs beside it, whether a task is found to have ended and whether the
--                     wait for its end is over in time are parameters
--   Lan               packages/agent_core/src/network/lan_address.rs and utils/shuffle.rs; what the
--                     system lets be bound and connected is a parameter
--   Tcp.Pipe          packages/agent_core/src/network/tcp/tcp_pipe.rs: the loop of a pipe, on what
--                     its turns come to
--   Tcp.Clients       packages/agent_core/src/network/tcp/tcp_clients.rs and tcp_client.rs: the
--                     worker's events and the task that claims a client, on what its awaited calls
--                     come to; Tcp.Clients.Runs takes events and tasks in any order
--   Proxy             packages/agent_core/src/network/proxy_protocol.rs; how the standard
--                     library prints addresses and numbers is a parameter
--   Examples          the theorems at concrete values
--
-- A type's `write_to` is `write_…` and its `read_from` is `read_…`. Structs are records and enums are
-- data types with the names of the source. An unsigned integer is a natural number; that it is in
-- the range of its type is a condition of the theorems (`InWidth`, `Valid…`). Bit operations on a u64
-- are written with division and remainder.
--
-- Bounds: the loop that checks an MTU message of `len` bytes takes chunks of at most 128 bytes; the
-- model gives it `len + 1` rounds, which suffices since each round but the last advances.
-- The attempts to register are five rounds of at most five messages, a round of the maintained
-- session waits for at most thirty, and an address is pinged at most three times, as in the source.
--
-- Not modelled: the size constants of the encodings, the counters of errors, the pool of packet
-- buffers, tokio's channels and timers but for the order of events, the
-- rest of packages/agent_core, and the packages around it (the HTTP client, the service, the
-- command line, the Windows tools), which are mostly glue to the operating system.
pub mod Common
pub mod Io
pub mod Wire
pub mod Proto
pub mod Udp
pub mod Proxy
pub mod Control
pub mod Stats
pub mod Origin
pub mod Slab
pub mod Lan
pub mod Tcp
mod Examples
