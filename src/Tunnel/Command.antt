-- ===== src/Tunnel/Command.antt =====
-- webrtc-tunnel/src/client.rs: `client_command`, around the tasks of the listeners. What it calls is
-- logged, the newest call first.
pub mod Outcome
pub mod Release
pub mod Secured
pub mod Wrapper
use Prim.Native.String.{String}
use mangle_webrtc.Common.{
  ℕ, zero, suc, Bool, true, false, Option, none, some, List, [], ◌∷◌, length, if◌then◌else◌, Result,
  ok, err,
}
use mangle_webrtc.Common.Effects.{Eff, ◌>>=◌, ◌>>◌, pure, stop, emit, ask}
use mangle_webrtc.Channels.{RtcDataChannelInit, tcp_data_channel}
use mangle_webrtc.Tunnel.{Channel}

pub record ClientConfig : Type 0 where
  pub use_tls : Bool
  pub root_cert_path : Option String
  pub domain_name : Option String
  pub channels : List Channel

pub data ClientStreamType : Type 0 where
  tcp_stream : String → ClientStreamType
  local_socket_stream : String → ClientStreamType

-- The errors of the libraries, server names, and handles of data channels.
pub record Externals : Type 1 where
  pub Error : Type 0
  pub ServerName : Type 0
  pub DataChannel : Type 0

-- `anyhow::Error`: the command's own messages, and what others return.
pub data CommandError (x : Externals) : Type 0 where
  no_channels : CommandError x
  missing_domain_name : CommandError x
  other : x.Error → CommandError x

-- What the loop at the end wakes up for: the answer of the future of ctrl-c, or a task that ended.
pub data Wake (x : Externals) : Type 0 where
  ctrl_c : Result x.Error (Unit {0}) → Wake x
  joined : Result x.Error (Unit {0}) → Wake x

-- `drop_tasks` is the end of the `JoinSet`, which aborts the tasks that are still in it, and awaits
-- none; `drop_peer` is the end of the command's own clone of `Arc<PeerWrapper>`. Each task has another
-- clone, and the last one that ends drops the `PeerWrapper`, which spawns a task that closes the peer
-- connection: when that happens is not for the command to know, and not in this log.
pub data Event (x : Externals) : Type 0 where
  read_config : String → Result x.Error ClientConfig → Event x
  connect : ClientStreamType → Result x.Error (Unit {0}) → Event x
  server_name : String → Result x.Error x.ServerName → Event x
  add_tls : x.ServerName → Option String → Result x.Error (Unit {0}) → Event x
  upgrade :
      List (String × RtcDataChannelInit) → Result x.Error (List (String × x.DataChannel)) → Event x
  close_channel : x.DataChannel → Result x.Error (Unit {0}) → Event x
  spawn : Channel → Event x
  abort_all : Event x
  close_peer : Event x
  drop_end_sender : Event x
  join_all : Event x
  drop_tasks : Event x
  drop_peer : Event x

-- The answers of what the command calls, from all the calls before. `read_config` reads the file and
-- parses it.
pub record World (x : Externals) : Type 0 where
  pub read_config : String → List (Event x) → Result x.Error ClientConfig
  pub connect : ClientStreamType → List (Event x) → Result x.Error (Unit {0})
  pub server_name : String → List (Event x) → Result x.Error x.ServerName
  pub add_tls : x.ServerName → Option String → List (Event x) → Result x.Error (Unit {0})
  pub upgrade :
      List (String × RtcDataChannelInit)
      → List (Event x)
      → Result x.Error (List (String × x.DataChannel))
  pub close_channel : x.DataChannel → List (Event x) → Result x.Error (Unit {0})

-- The command returns an error, an `unwrap` panics, or the command still waits.
pub data Exit (x : Externals) : Type 0 where
  failed : CommandError x → Exit x
  panicked : Exit x
  waiting : Exit x

abbrev pub Command : Externals → Type 0 → Type 0
Command x A = Eff (Event x) (Exit x) A

module _ {x : Externals} where
  abbrev pub try_any : {A : Type 0} → Result x.Error A → Command x A
  try_any (ok a) = pure a
  try_any (err e) = stop (failed (other e))

  -- `domain_name.ok_or(…)?`.
  abbrev pub some_domain : Option String → Command x String
  some_domain none = stop (failed missing_domain_name)
  some_domain (some domain) = pure domain

  -- `Vec::pop`, and then `unwrap`.
  unfoldable pub pop_channel : List (String × x.DataChannel) → Command x (String × x.DataChannel)
  pop_channel [] = stop panicked
  pop_channel (c ∷ []) = pure c
  pop_channel (c ∷ d ∷ channels) = pop_channel (d ∷ channels)

  unfoldable pub spawn_tasks : List Channel → Command x (Unit {0})
  spawn_tasks [] = pure tt
  spawn_tasks (channel ∷ channels) = do emit (spawn channel); spawn_tasks channels

  -- The loop over `select!` at the end, over what wakes it. `armed` says that the future of ctrl-c was
  -- not replaced by one that is never ready; `tasks` is how many tasks are in the `JoinSet`, where an
  -- empty one makes `join_next` answer `None`.
  unfoldable pub await_end : Bool → ℕ → List (Wake x) → Command x (Unit {0})
  await_end armed tasks [] = stop waiting
  await_end true tasks (ctrl_c (ok u) ∷ wakes) = pure tt
  await_end true tasks (ctrl_c (err e) ∷ wakes) = await_end false tasks wakes
  await_end false tasks (ctrl_c answer ∷ wakes) = await_end false tasks wakes
  await_end armed zero (joined result ∷ wakes) = stop panicked
  await_end armed (suc tasks) (joined result ∷ wakes) = try_any result

  -- The locals of the command end where it returns or panics, the last one first: `end_sender`, unless
  -- it was dropped before, `tasks`, and `peer`.
  abbrev pub with_peer : Command x (Unit {0}) → Command x (Unit {0})
  with_peer m h =
      let (r, k) = m h in
      elim r [
        | ok u ↦ (ok u, drop_peer ∷ drop_tasks ∷ k)
        | err waiting ↦ (err waiting, k)
        | err e ↦ (err e, drop_peer ∷ drop_tasks ∷ drop_end_sender ∷ k)
      ]

abbrev pub init_channels : List (String × RtcDataChannelInit)
init_channels = ("init", tcp_data_channel) ∷ []

module _ {x : Externals} (w : World x) where
  unfoldable pub start_tls : ClientConfig → Command x (Unit {0})
  start_tls config = do
    domain ← some_domain config.domain_name
    parsed ← ask (w.server_name domain) (server_name domain)
    name ← try_any parsed
    secured ← ask (w.add_tls name config.root_cert_path) (add_tls name config.root_cert_path)
    try_any secured

  -- The two kinds of streams are connected and upgraded in the same way.
  unfoldable pub connect_stream :
      ClientStreamType → ClientConfig → Command x (List (String × x.DataChannel))
  connect_stream stream_type config = do
    connected ← ask (w.connect stream_type) (connect stream_type)
    try_any connected
    if config.use_tls then start_tls config else pure tt
    upgraded ← ask (w.upgrade init_channels) (upgrade init_channels)
    try_any upgraded

  -- The command from the peer connection on.
  unfoldable pub serve_channels : List Channel → List (Wake x) → Command x (Unit {0})
  serve_channels channels wakes = do
    spawn_tasks channels
    await_end true (length channels) wakes
    emit abort_all
    emit close_peer
    emit drop_end_sender
    emit join_all

  unfoldable pub check_channels : List Channel → Command x (Unit {0})
  check_channels [] = stop (failed no_channels)
  check_channels (channel ∷ channels) = pure tt

  -- The command from the connection on: the channel "init" is closed, and the others are opened by
  -- the tasks.
  unfoldable pub use_channels :
      List Channel → List (Wake x) → List (String × x.DataChannel) → Command x (Unit {0})
  use_channels configured wakes channels = do
    init_channel ← pop_channel channels
    closed ← ask (w.close_channel init_channel.1) (close_channel init_channel.1)
    try_any closed
    with_peer (serve_channels configured wakes)

  unfoldable pub client_command : ClientStreamType → String → List (Wake x) → Command x (Unit {0})
  unfolding check_channels
  client_command stream_type config_path wakes = do
    read ← ask (w.read_config config_path) (read_config config_path)
    config ← try_any read
    check_channels config.channels
    channels ← connect_stream stream_type config
    use_channels config.channels wakes channels
