-- ===== src/Lib.antt =====
-- The crates upgrade2webrtc, which makes a WebRTC connection of a byte stream, and webrtc-tunnel, a
-- program that carries UDP and TCP ports over such a connection.
--
-- The parts, and how they interact. A client and a server first share a byte stream, TCP or TLS
-- over TCP. Over it they exchange length-prefixed messages (Transport): the client's offer, the
-- server's answer, and the ICE candidates that each side's peer connection gathers (Signaling). The
-- server runs one task per connection (Server), the client one call of `upgrade` (Client); both end
-- with a peer connection and its data channels (Channels). Where the byte stream is TLS, both sides
-- build their configuration from certificate files (Tls). The tunnel's client opens a data channel
-- for each address or connection on a local port, with the port as its protocol, and the tunnel's
-- server connects such a data channel to the port that its configuration allows (Tunnel).
--
-- Which file models which part:
-- Transport.antt: upgrade2webrtc/src/transport.rs. `StreamTransport` is the stream and the receive
--   buffer; `send_obj`, `recv_obj` and `flush` are the methods of these names. The stream is the
--   list of the answers that its `read`s are going to give, and the bytes written. The children
--   state the format (Frame), receiving (Receive, Delivery), sending (Send), and both ends together
--   (RoundTrip). Session is what a log of calls does to a transport, with the calls of `recv_obj`
--   that a `select!` gives up; Pairs relates the sessions at the two ends.
-- Channels.antt and Signaling.antt: upgrade2webrtc/src/lib.rs.
-- Server.antt: upgrade2webrtc/src/server.rs, the task in `UpgradeWebRTCServer::run`; `serve_offer`
--   is one round of its loop, `negotiate` and `exchange` the two halves of the round.
--   Server/Run.antt is the loop of `run` itself, Server/Closing.antt the `ServerHandle`s that ask
--   it to end, and Server/Handover.antt the callbacks of `on_data_channel`.
-- Client.antt: upgrade2webrtc/src/client.rs, `UpgradeWebRTCClient::upgrade` in the order of the
--   source: `create_channels`, `make_offer`, `await_answer`, `accept_answer`, `exchange`.
-- Handshake.antt: both ends together, from the log of an `upgrade` and that of a round. Its
--   children hold the exchange of candidates as a step relation over two sides and two queues
--   (Protocol), its invariant (Flow), whether it ends (Progress), what becomes of it when the
--   client sets its callback too late (Late), which candidates are sent (Gathering), and that the
--   loops of Client.antt and Server.antt take its turns (Turns). Wire has the types at which each
--   side calls `send_obj` and `recv_obj`, and Bytes puts the handshake on two transports;
--   ClientOrder and ServerOrder hold in which order each side sends and receives, Signals and Ways
--   what follows for the values that arrive.
-- Identity.antt: upgrade2webrtc/src/transport.rs, `get_id` through the layers of a stream.
-- Listeners.antt: upgrade2webrtc/src/server.rs and transport.rs, `accept` of listeners and of TLS.
-- Builders.antt: upgrade2webrtc/src/server.rs and client.rs, `new`, `add_tls`,
--   `add_tls_from_config`, and the functions that bind or connect.
-- Tls.antt: upgrade2webrtc/src/tls.rs, `new_tls_acceptor` and `new_tls_connector`. Tls/Trust.antt
--   is about both ends: where it needs that files keep what is written to them, it says so
--   (`KeepsFiles`). Tls/Restart.antt is about a server that is started a second time on its own
--   files.
-- Display.antt: the `Display` of the errors of upgrade2webrtc/src/server.rs, client.rs and tls.rs.
-- Tunnel.antt: webrtc-tunnel/src/main.rs, the channels of a configuration. Tunnel/Udp.antt is the
--   UDP task of webrtc-tunnel/src/client.rs, Tunnel/Pump.antt the loops that hand a message on,
--   Tunnel/Open.antt how a data channel is opened, Tunnel/Tcp.antt the TCP task,
--   Tunnel/Forward.antt the tasks of single data channels, and Tunnel/Command.antt `client_command`
--   around them, with Tunnel/Command/Wrapper.antt for the clones of `PeerWrapper`.
--   Tunnel/Sockets.antt is `on_success` of webrtc-tunnel/src/server.rs, call by call, and
--   Tunnel/Serve.antt the table of allowed channels and a summary of it; Tunnel/Journey.antt puts
--   the UDP listener, the task of a data channel and the server behind one another;
--   Tunnel/ServerCommand.antt is `server_command`, and Tunnel/Main.antt the `main` that runs one of
--   the two commands.
-- Common.antt: lists over the native numbers, results, and code that logs what it calls (Effects).
--
-- How calls of other code are modelled. What the webrtc, rustls, rcgen and tokio crates answer is
-- the field of a record (`World`): a function of all the calls that were made before. A call and
-- its answer go to a log, the newest first, and the theorems speak of that log. bitcode is a
-- parameter (`Codec`), of which only the round trip is assumed, and only where a theorem says so.
-- The bounded channel of tokio over which the server hands data channels on, or is asked to close,
-- is a parameter too (`MpscChannel`), of which it is assumed that what is sent comes out in the
-- same order, and where a theorem says so that it refuses only when it is full (`Bounded`).
--
-- What the client's peer connection gathers is a parameter as well (`Gatherer`), and the callback of
-- `on_ice_candidate` is called with what is gathered once it is set, not with what came before.
--
-- Schedules and fuel. A `select!` takes its branches in the order of a list; where the list ends
-- the code still waits, which is an outcome of its own (`waiting`, or `pending` of `recv_obj`). So
-- does the client's loop for the answer after as many messages as come in. The loops of Pump run on
-- fuel, where running out of it is an outcome (`running`); one round for each byte of the message,
-- and one for the test that ends the loop, are enough. The two queues of Handshake/Protocol.antt
-- are unbounded; Late bounds what is on its way in them.
--
-- Not modelled: the parsing of the command line and of configuration files, logging, and `Debug`:
-- they hand data to other crates or to the operating system.
pub mod Common
pub mod Transport
pub mod Signaling
pub mod Channels
pub mod Identity
pub mod Display
pub mod Tls
pub mod Listeners
pub mod Builders
pub mod Server
pub mod Client
pub mod Handshake
pub mod Tunnel
