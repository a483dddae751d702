-- ===== src/Tunnel/Serve.antt =====
-- webrtc-tunnel/src/server.rs: the channels that a server allows, and in short what it does with the
-- data channels of a client, of which `Sockets` has the single calls. `to_string` of a port is a
-- parameter.
use Prim.Native.String.{String}
use text.Mathlib.Text.{◌==◌ as str_eq}
use mangle_webrtc.Common.{ℕ, Option, none, some, List, [], ◌∷◌, if◌then◌else◌, Result, ok, err}
use mangle_webrtc.Tunnel.{Channel, udp_channel, tcp_channel, local_socket, unwrap_or}

-- A hash map as an association list: `insert` puts a new value in the place of an old one.
module _ {V : Type 0} where
  unfoldable pub get : String → List (String × V) → Option V
  get k [] = none
  get k ((j, v) ∷ entries) = if str_eq j k then some v else get k entries

  unfoldable pub insert : String → V → List (String × V) → List (String × V)
  insert k v [] = (k, v) ∷ []
  insert k v ((j, w) ∷ entries) =
      if str_eq j k then (k, v) ∷ entries else (j, w) ∷ insert k v entries

-- What one data channel leads to. A panic ends the whole task of the connection.
pub data Served (E : Type 0) : Type 0 where
  closed : Served E
  ignored : Served E
  to_client : ℕ → List ℕ → Served E
  to_socket : ℕ → List ℕ → Served E
  failed : Served E

-- A data channel of the client, with the answers of the calls that it leads to: whether a socket is
-- connected to the port, which branch of the `select!` is taken and with what, and whether the bytes
-- are handed on. `none` for a message means that the channel of messages is closed.
pub data Turn (E : Type 0) : Type 0 where
  from_socket : Result E (List ℕ) → Turn E
  from_client : Option (List ℕ) → Turn E

pub record Opened (E : Type 0) : Type 0 where
  pub protocol : String
  pub connected : Result E (Unit {0})
  pub turn : Turn E
  pub handed_on : Result E (Unit {0})

module _ (to_string : ℕ → String) where
  abbrev pub key : Channel → String
  key (udp_channel port remap quality) = to_string (unwrap_or remap port)
  key (tcp_channel port remap quality) = to_string (unwrap_or remap port)
  key (local_socket addr remap quality) = unwrap_or remap addr

  -- The loop that fills `allowed_channels`.
  unfoldable pub allow : List (String × Channel) → List Channel → List (String × Channel)
  allow allowed [] = allowed
  allow allowed (channel ∷ channels) = allow (insert (key channel) channel allowed) channels

  unfoldable pub allowed_channels : List Channel → List (String × Channel)
  unfolding allow
  allowed_channels channels = allow [] channels

module _ {E : Type 0} where
  hand_on : Opened E → Served E → Served E
  hand_on d served = elim d.handed_on [ ok u ↦ served | err e ↦ failed ]

  -- The one `select!` of a data channel, between the socket and the client.
  take_turn : ℕ → Opened E → Turn E → Served E
  unfolding hand_on
  take_turn port d (from_socket (err e)) = failed
  take_turn port d (from_socket (ok bytes)) = hand_on d (to_client port bytes)
  take_turn port d (from_client none) = failed
  take_turn port d (from_client (some bytes)) = hand_on d (to_socket port bytes)

  connect : ℕ → Opened E → Served E
  unfolding take_turn
  connect port d = elim d.connected [ ok u ↦ take_turn port d d.turn | err e ↦ failed ]

  unfoldable pub serve_channel : List (String × Channel) → Opened E → Served E
  unfolding connect
  serve_channel allowed d = elim (get d.protocol allowed) [
    | none ↦ closed
    | some (udp_channel port remap quality) ↦ connect port d
    | some (tcp_channel port remap quality) ↦ connect port d
    | some (local_socket addr remap quality) ↦ ignored
  ]

  -- A panic leaves the loop.
  abbrev pub unless_failed : Served E → List (Served E) → List (Served E)
  unless_failed failed rest = []
  unless_failed _ rest = rest

  -- The loop of `on_success` over the data channels that open, until there are no more.
  unfoldable pub on_success : List (String × Channel) → List (Opened E) → List (Served E)
  unfolding serve_channel
  on_success allowed [] = []
  on_success allowed (d ∷ opened) =
      let served = serve_channel allowed d in
      served ∷ unless_failed served (on_success allowed opened)
