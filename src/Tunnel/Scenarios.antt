-- ===== src/Tunnel/Scenarios.antt =====
-- The client of the tunnel on concrete inputs, and the theorems at these inputs.
use Prim.Native.String.{String}
use mangle_webrtc.Common.{
  ℕ, ◌⊎◌, ◌≡◌, ◌≢◌, refl, true, false, none, some, List, [], ◌∷◌, length, ok, err, arith,
}
use mangle_webrtc.Channels.{RtcDataChannelInit}
use mangle_webrtc.Transport.Receive.{concat}
use mangle_webrtc.Common.Effects.{pure}
use mangle_webrtc.Tunnel.Main.{client, main}
use mangle_webrtc.Tunnel.{udp, udp_channel, tcp_channel, local_socket, tcp}
use mangle_webrtc.Tunnel.Open.{begin_task, listen_udp, todo}
use mangle_webrtc.Tunnel.Forward.{
  waiting, UdpWake, from_listener, from_webrtc, TcpWake, read, message, udp_task, tcp_task,
}
use mangle_webrtc.Tunnel.Carry.{udp_task-carries, tcp_task-carries_nothing}
use mangle_webrtc.Tunnel.Tcp.{Accepted, accept_loop, indices, Ascending, accept_loop-Ascending}
use mangle_webrtc.Tunnel.Command
use mangle_webrtc.Tunnel.Command.Release.{Released, client_command-Released}
use mangle_webrtc.Tunnel.Command.Secured.{AllSecured, client_command-AllSecured}
use mangle_webrtc.Tunnel.Serve.{get, allowed_channels}
use mangle_webrtc.Tunnel.Access.{last_with}
use mangle_webrtc.Tunnel.ServerCommand.{
  ServerConfig, tcp_stream, RunsPlain, RunsSecured, server_command, server_command-secured,
}
use mangle_webrtc.Listeners.{TransportServer, tcp_listener, tls_server}
use mangle_webrtc.Tls
use mangle_webrtc.Tls.Tests
use mangle_webrtc.Tunnel.Tests.{by_two, by_two-Progress}

-- A listener is bound to the remapped port.
begins :
    (begin_task (udp_channel 80 (some 8080) (some udp)) ≡ listen_udp 8080 udp)
    × (begin_task (local_socket "a" none none) ≡ todo)
unfolding begin_task
begins = (refl, refl)

abbrev wakes : List (UdpWake ℕ)
wakes =
    from_listener (some (1 ∷ 2 ∷ 3 ∷ []))
    ∷ from_webrtc (some (9 ∷ [], ok tt))
    ∷ from_listener (some (4 ∷ []))
    ∷ []

udp_task-carries_example :
    let (ending, c) = udp_task by_two wakes (record { to_webrtc = []; to_local = [] }) in
    (ending ≡ waiting) × (concat c.to_webrtc ≡ 1 ∷ 2 ∷ 3 ∷ 4 ∷ []) × (c.to_local ≡ (9 ∷ []) ∷ [])
udp_task-carries_example = udp_task-carries by_two by_two-Progress wakes tt

abbrev tcp_wakes : List (TcpWake ℕ)
tcp_wakes = message (some (9 ∷ [], ok tt)) ∷ read (ok (1 ∷ 2 ∷ [])) ∷ []

tcp_task-carries_nothing_example :
    concat (tcp_task by_two 7 tcp_wakes (record { to_webrtc = []; to_local = [] })).1.to_webrtc ≡ []
tcp_task-carries_nothing_example = tcp_task-carries_nothing by_two (λ parts. refl) 7 tcp_wakes

-- Three connections; the data channel of the second does not open, and another task takes two indices
-- before the third.
abbrev connections : List (Accepted ℕ)
connections =
    record { taken = 0; accepted = ok tt; created = ok tt; opened = true }
    ∷ record { taken = 0; accepted = ok tt; created = ok tt; opened = false }
    ∷ record { taken = 2; accepted = ok tt; created = ok tt; opened = true }
    ∷ []

numbers : indices (accept_loop 5 connections) ≡ 5 ∷ 6 ∷ 9 ∷ []
unfolding accept_loop
numbers = refl

accept_loop-Ascending_example : Ascending 5 (indices (accept_loop 5 connections))
accept_loop-Ascending_example = accept_loop-Ascending 5 connections (omega arith)

abbrev plain : Command.Externals
plain = record { Error = ℕ; ServerName = String; DataChannel = ℕ }

abbrev config : Command.ClientConfig
config = record {
  use_tls = true;
  root_cert_path = some "root.pem";
  domain_name = some "localhost";
  channels = tcp_channel 80 none (some tcp) ∷ udp_channel 53 none (some udp) ∷ [];
}

-- One channel for each configuration.
abbrev handles : List (String × RtcDataChannelInit) → List (String × ℕ)
handles [] = []
handles ((label, init) ∷ configs) = (label, 3) ∷ handles configs

length-handles :
    (configs : List (String × RtcDataChannelInit)) → length (handles configs) ≡ length configs
length-handles [] = refl
length-handles ((label, init) ∷ configs) = omega (arith, length-handles configs)

abbrev works : Command.World plain
works = record {
  read_config = λ path h. ok config;
  connect = λ stream h. ok tt;
  server_name = λ domain h. ok domain;
  add_tls = λ name root h. ok tt;
  upgrade = λ configs h. ok (handles configs);
  close_channel = λ c h. ok tt;
}

-- The future of ctrl-c fails, and then a task ends with an error.
abbrev fails : List (Command.Wake plain)
fails = Command.ctrl_c (err 4) ∷ Command.joined (err 5) ∷ []

abbrev stream : Command.ClientStreamType
stream = Command.tcp_stream "host:80"

ends :
    (Command.client_command works stream "client.toml" fails []).0
    ≡ err (Command.failed (Command.other 5))
unfolding Command.client_command Command.connect_stream Command.start_tls Command.use_channels
    Command.pop_channel Command.serve_channels Command.spawn_tasks Command.await_end
ends = refl

client_command-Released_example :
    Released (Command.client_command works stream "client.toml" fails [])
client_command-Released_example =
    client_command-Released works (λ configs h channels e. ground (arith, length-handles configs))
      stream "client.toml" fails

client_command-AllSecured_example :
    AllSecured (some "root.pem") (Command.client_command works stream "client.toml" fails []).1
client_command-AllSecured_example =
    client_command-AllSecured works stream "client.toml" config fails refl refl

abbrev stops : List (Command.Wake plain)
stops = Command.ctrl_c (ok tt) ∷ []

stopped : (Command.client_command works stream "client.toml" stops []).0 ≡ ok tt
unfolding Command.client_command Command.connect_stream Command.start_tls Command.use_channels
    Command.pop_channel Command.serve_channels Command.spawn_tasks Command.await_end
stopped = refl

abbrev served : ServerConfig
served = record {
  root_cert_chain_path = Tls.Tests.config.root_cert_chain_path;
  parent_key_path = Tls.Tests.config.parent_key_path;
  subject_alt_names = Tls.Tests.config.subject_alt_names;
  create_if_missing = true;
  channels = config.channels;
}

abbrev port_name : ℕ → String
port_name n = "80"

abbrev over_tls : TransportServer (List ℕ)
over_tls = tls_server tcp_listener (4 ∷ 3 ∷ [])

runs :
    (server_command {E = ℕ} Tls.Tests.bare port_name
      (tcp_stream "host:80")
      (ok served)
      (ok tt)
      []).0
    ≡ ok (over_tls, allowed_channels port_name config.channels)
unfolding server_command Tls.new_tls_acceptor Tls.parent_cert Tls.create_parent Tls.sign_server
runs = refl

server_command-secured_example :
    let log =
      (server_command {E = ℕ} Tls.Tests.bare port_name
        (tcp_stream "host:80")
        (ok served)
        (ok tt)
        []).1 in
    (((served.root_cert_chain_path ≡ "")
        × RunsPlain Tls.Tests.bare (tcp_stream "host:80") over_tls log)
      ⊎ ((served.root_cert_chain_path ≢ "")
          × RunsSecured Tls.Tests.bare (tcp_stream "host:80") served over_tls log))
    × ((k : String)
        → get k (allowed_channels port_name config.channels)
          ≡ last_with port_name k config.channels)
server_command-secured_example =
    server_command-secured {E = ℕ} Tls.Tests.bare port_name (tcp_stream "host:80") served (ok tt)
      over_tls (allowed_channels port_name config.channels) runs

-- Without its log the program runs neither command.
no_log :
    main works (λ stream_type path. pure tt) (err 7) (client stream "client.toml") stops []
    ≡ (err (Command.failed (Command.other 7)), [])
unfolding main
no_log = refl

client_stops :
    (main works (λ stream_type path. pure tt) (ok tt) (client stream "client.toml") stops []).0
    ≡ ok tt
unfolding main
client_stops = stopped
