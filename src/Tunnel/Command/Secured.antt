-- ===== src/Tunnel/Command/Secured.antt =====
-- What `client_command` has set up before it starts an upgrade.
use Prim.Native.String.{String}
use mangle_webrtc.Common.{
  ◌≡◌, true, Option, none, some, List, [], ◌∷◌, ok, Result-cases, List-cases, inl, inr, arith,
}
use mangle_webrtc.Tunnel.{Channel}
use mangle_webrtc.Tunnel.Command
use mangle_webrtc.Tunnel.Command.Outcome.{spawned, serve_channels-cases}

module _ {x : Command.Externals} where
  -- The root certificate of the TLS that was added to the stream, if it was.
  abbrev pub secured : List (Command.Event x) → Option (Option String)
  secured [] = none
  secured (Command.add_tls name root (ok u) ∷ log) = some root
  secured (_ ∷ log) = secured log

  -- Nothing was sent to the server but over TLS with this root certificate.
  abbrev pub AllSecured : Option String → List (Command.Event x) → Type 0
  AllSecured root [] = Unit {0}
  AllSecured root (Command.upgrade configs answer ∷ log) =
      (secured log ≡ some root) × AllSecured root log
  AllSecured root (_ ∷ log) = AllSecured root log

  AllSecured-spawned :
      (root : Option String) (channels : List Channel) (h : List (Command.Event x))
      → AllSecured root h
      → AllSecured root (spawned channels h)
  AllSecured-spawned root [] h s = s
  AllSecured-spawned root (channel ∷ channels) h s =
      AllSecured-spawned root channels (Command.spawn channel ∷ h) s

module _ {x : Command.Externals} (w : Command.World x) where
  with_peer-AllSecured :
      (root : Option String) (channels : List Channel) (wakes : List (Command.Wake x))
      (h : List (Command.Event x))
      → AllSecured root h
      → AllSecured root (Command.with_peer (Command.serve_channels w channels wakes) h).1
  with_peer-AllSecured root channels wakes h s =
      let s' = AllSecured-spawned root channels h s in
      elim (serve_channels-cases w channels wakes h) [
        | inl (e, r) ↦ ground (arith, r, s')
        | inr (Command.failed f, e, r) ↦ ground (arith, r, s')
        | inr (Command.panicked, e, r) ↦ ground (arith, r, s')
        | inr (Command.waiting, e, r) ↦ ground (arith, r, s')
      ]

  use_channels-AllSecured :
      (root : Option String) (configured : List Channel) (wakes : List (Command.Wake x))
      (channels : List (String × x.DataChannel)) (h : List (Command.Event x))
      → AllSecured root h
      → AllSecured root (Command.use_channels w configured wakes channels h).1
  unfolding Command.use_channels Command.pop_channel
  use_channels-AllSecured root configured wakes [] h s = s
  use_channels-AllSecured root configured wakes (c ∷ []) h s =
      elim (Result-cases (w.close_channel c.1 h)) [
        | inl (u, e) ↦ ground (
          arith,
          e,
          with_peer-AllSecured root configured wakes (Command.close_channel c.1 (ok u) ∷ h),
        )
        | inr (f, e) ↦ ground (arith, e)
      ]
  use_channels-AllSecured root configured wakes (c ∷ d ∷ channels) h s =
      use_channels-AllSecured root configured wakes (d ∷ channels) h s

  connect_stream-AllSecured :
      (stream_type : Command.ClientStreamType) (config : Command.ClientConfig)
      (h : List (Command.Event x))
      → config.use_tls ≡ true
      → AllSecured config.root_cert_path h
      → AllSecured config.root_cert_path (Command.connect_stream w stream_type config h).1
  unfolding Command.connect_stream Command.start_tls
  connect_stream-AllSecured stream_type config h tls s = ground arith

  -- Where the configuration asks for TLS, the command starts no upgrade but over a stream to which
  -- TLS was added with the configured root certificate.
  pub client_command-AllSecured :
      (stream_type : Command.ClientStreamType) (config_path : String)
      (config : Command.ClientConfig) (wakes : List (Command.Wake x))
      → w.read_config config_path [] ≡ ok config
      → config.use_tls ≡ true
      → AllSecured config.root_cert_path
          (Command.client_command w stream_type config_path wakes []).1
  unfolding Command.client_command
  client_command-AllSecured stream_type path config wakes e tls =
      let read : List (Command.Event x) = Command.read_config path (ok config) ∷ [] in
      let s = connect_stream-AllSecured stream_type config read tls tt in
      elim (List-cases config.channels) [
        | inl none_given ↦ ground (arith, e, none_given)
        | inr (c, cs, given) ↦
            elim (Result-cases ((Command.connect_stream w stream_type config read).0)) [
              | inl (channels, r) ↦ ground (
                arith,
                e,
                given,
                r,
                s,
                use_channels-AllSecured config.root_cert_path (c ∷ cs) wakes channels
                    (Command.connect_stream w stream_type config read).1,
              )
              | inr (f, r) ↦ ground (arith, e, given, r, s)
            ]
      ]
