-- ===== src/Tunnel/Main.antt =====
-- webrtc-tunnel/src/main.rs: `main`, behind the parsing of the command line.
use Prim.Native.String.{String}
use mangle_webrtc.Common.{List, Result}
use mangle_webrtc.Common.Effects.{◌>>◌}
use mangle_webrtc.Tunnel.Command.{
  ClientStreamType, Externals, World, Wake, Command, try_any, client_command,
}
use mangle_webrtc.Tunnel.ServerCommand.{ServerStreamType}

-- `Command`, the argument of the command line, with the path of the configuration file.
pub data Subcommand : Type 0 where
  client : ClientStreamType → String → Subcommand
  server : ServerStreamType → String → Subcommand

module _ {x : Externals} (w : World x)
    (run_server : ServerStreamType → String → Command x (Unit {0})) where
  -- `applied` is what the set-up of the log answers. `run_server` is the command of the server, whose
  -- calls are not those of the client.
  unfoldable pub main :
      Result x.Error (Unit {0}) → Subcommand → List (Wake x) → Command x (Unit {0})
  main applied (client stream_type config_path) wakes = do
    try_any applied
    client_command w stream_type config_path wakes
  main applied (server stream_type config_path) wakes = do
    try_any applied
    run_server stream_type config_path
