-- ===== src/Tunnel/Access.antt =====
-- Which ports a client can reach through a server.
use Prim.Native.String.{String}
use text.Mathlib.Text.{◌==◌ as str_eq}
use text.Mathlib.TextEquality.{eq_iff}
use mangle_webrtc.Common.{
  ℕ, ◌≡◌, refl, Option, none, some, Option-cases, inl, inr, List, [], ◌∷◌, if◌then◌else◌, arith,
}
use mangle_webrtc.Tunnel.{Channel, udp_channel, tcp_channel, local_socket}
use mangle_webrtc.Tunnel.Serve.{
  get, insert, key, allow, allowed_channels, to_socket, Opened, serve_channel,
}

get-insert :
    {V : Type 0} (k j : String) (v : V) (entries : List (String × V))
    → get k (insert j v entries) ≡ (if str_eq j k then some v else get k entries)
unfolding get insert
get-insert k j v [] = refl
get-insert k j v ((i, w) ∷ entries) =
    ground (arith, eq_iff j k, eq_iff i j, eq_iff i k, get-insert k j v entries)

-- The port on the server's machine that a channel leads to.
abbrev pub target : Channel → Option ℕ
target (udp_channel port remap quality) = some port
target (tcp_channel port remap quality) = some port
target (local_socket addr remap quality) = none

module _ (to_string : ℕ → String) where
  -- The last channel of a configuration whose key is `k`.
  abbrev pub last_with : String → List Channel → Option Channel
  last_with k [] = none
  last_with k (channel ∷ channels) = elim (last_with k channels) [
    | some c ↦ some c
    | none ↦ if str_eq (key to_string channel) k then some channel else none
  ]

  allow_lem :
      (k : String) (channels : List Channel) (allowed : List (String × Channel))
      → get k (allow to_string allowed channels)
        ≡ (elim (last_with k channels) [ some c ↦ some c | none ↦ get k allowed ])
  unfolding allow
  allow_lem k [] allowed = refl
  allow_lem k (channel ∷ channels) allowed = ground (
    arith,
    allow_lem k channels (insert (key to_string channel) channel allowed),
    get-insert k (key to_string channel) channel allowed,
  )

  -- The table of allowed channels holds, under each key, the last channel that is configured for it:
  -- its remapped port or address, or its own where there is none.
  pub get-allowed_channels :
      (k : String) (channels : List Channel)
      → get k (allowed_channels to_string channels) ≡ last_with k channels
  unfolding allowed_channels get
  get-allowed_channels k channels = ground (arith, allow_lem k channels [])

  module _ {E : Type 0} (channels : List Channel) (d : Opened E) where
    -- Bytes of a client reach a socket only through the last channel that is configured for the
    -- protocol of the data channel, at the port that this channel names.
    pub serve_channel-permitted :
        (port : ℕ) (bytes : List ℕ)
        → serve_channel (allowed_channels to_string channels) d ≡ to_socket port bytes
        → (c : Channel) × (last_with d.protocol channels ≡ some c) × (target c ≡ some port)
    unfolding serve_channel
    serve_channel-permitted port bytes e = elim (Option-cases (last_with d.protocol channels)) [
      | inl unknown ↦ absurd (ground (arith, get-allowed_channels d.protocol channels))
      | inr (udp_channel p r q, found) ↦
          (udp_channel p r q, found, ground (arith, get-allowed_channels d.protocol channels))
      | inr (tcp_channel p r q, found) ↦
          (tcp_channel p r q, found, ground (arith, get-allowed_channels d.protocol channels))
      | inr (local_socket a r q, found) ↦
          absurd (ground (arith, get-allowed_channels d.protocol channels))
    ]
