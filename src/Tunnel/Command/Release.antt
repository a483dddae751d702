-- ===== src/Tunnel/Command/Release.antt =====
-- What `client_command` does with the peer connections that it makes.
use Prim.Native.String.{String}
use mangle_webrtc.Common.{
  ◌+◌, ◌≡◌, true, List, [], ◌∷◌, length, Result, ok, err, Result-cases, List-cases, inl, inr, arith,
}
use mangle_webrtc.Common.Effects.{ask, ◌>>=◌}
use mangle_webrtc.Channels.{RtcDataChannelInit}
use mangle_webrtc.Tunnel.{Channel}
use mangle_webrtc.Tunnel.Command
use mangle_webrtc.Tunnel.Command.Outcome.{
  made, closed, dropped, lost, spawned, counts-spawned, await_end-joins, serve_channels-cases,
}

module _ {x : Command.Externals} where
  -- Behind the end of a command, which is no panic: if it has succeeded, it has closed each peer
  -- connection that it has made; if it has failed, it has closed none. It has given up its clone of
  -- each, or has lost it.
  abbrev pub Released : Result (Command.Exit x) (Unit {0}) × List (Command.Event x) → Type 0
  Released (ok u, log) = (made log ≡ closed log) × (dropped log ≡ closed log) × (lost log ≡ 0)
  Released (err (Command.failed e), log) = (made log ≡ dropped log + lost log) × (closed log ≡ 0)
  Released (err Command.panicked, log) = ⊥
  Released (err Command.waiting, log) = Unit {0}

module _ {x : Command.Externals} (w : Command.World x) where
  -- `upgrade` returns one channel for each configuration.
  abbrev pub UpgradesAll : Type 0
  UpgradesAll =
      (configs : List (String × RtcDataChannelInit)) (h : List (Command.Event x))
      (channels : List (String × x.DataChannel))
      → w.upgrade configs h ≡ ok channels
      → length channels ≡ length configs

  abbrev IsFailed : Command.Exit x → Type 0
  IsFailed (Command.failed e) = Unit {0}
  IsFailed Command.panicked = ⊥
  IsFailed Command.waiting = ⊥

  -- A connection that fails returns an error, and no peer connection was made.
  abbrev Connects :
      List (Command.Event x)
      → Result (Command.Exit x) (List (String × x.DataChannel)) × List (Command.Event x)
      → Type 0
  Connects h (ok channels, k) =
      (length channels ≡ 1)
      × (made k ≡ made h + 1)
      × (dropped k ≡ dropped h)
      × (lost k ≡ lost h)
      × (closed k ≡ closed h)
  Connects h (err e, k) =
      IsFailed e
      × (made k ≡ made h)
      × (dropped k ≡ dropped h)
      × (lost k ≡ lost h)
      × (closed k ≡ closed h)

  abbrev Keeps :
      List (Command.Event x) → Result (Command.Exit x) (Unit {0}) × List (Command.Event x) → Type 0
  Keeps h (ok u, k) =
      (made k ≡ made h) × (dropped k ≡ dropped h) × (lost k ≡ lost h) × (closed k ≡ closed h)
  Keeps h (err e, k) =
      IsFailed e
      × (made k ≡ made h)
      × (dropped k ≡ dropped h)
      × (lost k ≡ lost h)
      × (closed k ≡ closed h)

  start_tls-Keeps :
      (config : Command.ClientConfig) (h : List (Command.Event x))
      → Keeps h (Command.start_tls w config h)
  unfolding Command.start_tls
  start_tls-Keeps config h = ground arith

  abbrev upgrade_init : Command.Command x (List (String × x.DataChannel))
  upgrade_init = do
    upgraded ← ask (w.upgrade Command.init_channels) (Command.upgrade Command.init_channels)
    Command.try_any upgraded

  upgrade_init-Connects : UpgradesAll → (h : List (Command.Event x)) → Connects h (upgrade_init h)
  upgrade_init-Connects all h = elim (Result-cases (w.upgrade Command.init_channels h)) [
    | inl (channels, e) ↦ ground (arith, e, all Command.init_channels h channels e)
    | inr (f, e) ↦ ground (arith, e)
  ]

  connect_stream-Connects :
      UpgradesAll
      → (stream_type : Command.ClientStreamType) (config : Command.ClientConfig)
        (h : List (Command.Event x))
      → Connects h (Command.connect_stream w stream_type config h)
  unfolding Command.connect_stream
  connect_stream-Connects all stream_type config h =
      let connected = Command.connect stream_type (w.connect stream_type h) ∷ h in
      ground (
        arith,
        start_tls-Keeps config connected,
        upgrade_init-Connects all (Command.start_tls w config connected).1,
        upgrade_init-Connects all connected,
      )

  -- A peer connection that is still open is the only one.
  abbrev Opened : List (Command.Event x) → Type 0
  Opened h = (made h ≡ 1) × (dropped h ≡ 0) × (lost h ≡ 0) × (closed h ≡ 0)

  with_peer-Released :
      (c : Channel) (channels : List Channel) (wakes : List (Command.Wake x))
      (h : List (Command.Event x))
      → Opened h
      → Released (Command.with_peer (Command.serve_channels w (c ∷ channels) wakes) h)
  with_peer-Released c channels wakes h open' =
      let counts = counts-spawned (c ∷ channels) h in
      elim (serve_channels-cases w (c ∷ channels) wakes h) [
        | inl (e, r) ↦ ground (arith, r, counts)
        | inr (Command.failed f, e, r) ↦ ground (arith, r, counts)
        | inr (Command.panicked, e, r) ↦
            absurd (await_end-joins true (length channels) wakes (spawned (c ∷ channels) h) e)
        | inr (Command.waiting, e, r) ↦ ground (arith, r)
      ]

  use_channels-Released :
      (c : Channel) (configured : List Channel) (wakes : List (Command.Wake x))
      (channels : List (String × x.DataChannel)) (h : List (Command.Event x))
      → length channels ≡ 1
      → Opened h
      → Released (Command.use_channels w (c ∷ configured) wakes channels h)
  unfolding Command.use_channels Command.pop_channel
  use_channels-Released c configured wakes [] h one open' = absurd (omega arith)
  use_channels-Released c configured wakes (d ∷ e ∷ channels) h one open' = absurd (omega arith)
  use_channels-Released c configured wakes (d ∷ []) h one open' =
      elim (Result-cases (w.close_channel d.1 h)) [
        | inl (u, e) ↦
            ground (
              arith,
              e,
              with_peer-Released c configured wakes (Command.close_channel d.1 (ok u) ∷ h),
            )
        | inr (f, e) ↦ ground (arith, e)
      ]

  -- Where `upgrade` returns a channel for each configuration, the command does not panic. If it has
  -- succeeded, it has closed each peer connection that it has made, and then given up its clone of
  -- the wrapper. If it has returned an error, it has closed none of them: it has given up its clone of
  -- the wrapper, which leaves the close to whoever has the last clone, or it has lost the peer
  -- connection, which has no wrapper yet because its first channel could not be closed.
  pub client_command-Released :
      UpgradesAll
      → (stream_type : Command.ClientStreamType) (config_path : String)
        (wakes : List (Command.Wake x))
      → Released (Command.client_command w stream_type config_path wakes [])
  unfolding Command.client_command
  client_command-Released all stream_type path wakes = elim (Result-cases (w.read_config path [])) [
    | inr (f, e) ↦ ground (arith, e)
    | inl (config, e) ↦
        let read : List (Command.Event x) = Command.read_config path (ok config) ∷ [] in
        elim (List-cases config.channels) [
          | inl none_given ↦ ground (arith, e, none_given)
          | inr (c, cs, given) ↦
              elim (Result-cases ((Command.connect_stream w stream_type config read).0)) [
                | inl (channels, r) ↦ ground (
                  arith,
                  e,
                  given,
                  r,
                  connect_stream-Connects all stream_type config read,
                  use_channels-Released c cs wakes channels
                      (Command.connect_stream w stream_type config read).1,
                )
                | inr (f, r) ↦
                    ground (arith, e, given, r, connect_stream-Connects all stream_type config read)
              ]
        ]
  ]
