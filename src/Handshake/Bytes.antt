-- ===== src/Handshake/Bytes.antt =====
-- The handshake down to the bytes: `upgrade` and a round of the server's task, each over a transport
-- of upgrade2webrtc/src/transport.rs.
use Prim.Native.String.{String}
use mathlib.Core.List.{reverse}
use mangle_webrtc.Common.{ℕ, ◌≡◌, true, sym, ap, ◌∙◌, Option, List, [], ◌++◌, map, ok, arith}
use mangle_webrtc.Channels.{RtcDataChannelInit}
use mangle_webrtc.Transport.{Io, StreamTransport}
use mangle_webrtc.Transport.Session.{Session}
use mangle_webrtc.Transport.Pairs.{Session-reads}
use mangle_webrtc.Signaling.{Externals, Branch}
use mangle_webrtc.Client
use mangle_webrtc.Client.Transcript
use mangle_webrtc.Client.Failures.{failures, upgrade_fails}
use mangle_webrtc.Server
use mangle_webrtc.Server.Exchange.{gathered, added_candidates, Adds}
use mangle_webrtc.Handshake.{EndsLast, upgrade-serve_offer}
use mangle_webrtc.Handshake.Wire.{Codecs, signaling, client_use, server_use, failures-AllSucceed}
use mangle_webrtc.Handshake.ClientOrder
use mangle_webrtc.Handshake.ServerOrder
use mangle_webrtc.Handshake.Signals.{AllLawful}
use mangle_webrtc.Handshake.Ways.{upward, downward}
use mangle_webrtc.Client.Exchange.{upgrade_exchanges}
use mangle_webrtc.Handshake.Flow.{gathering}
use mangle_webrtc.Handshake.Endings.{gathering-EndsLast}
use mangle_webrtc.Handshake.Gathering.{
  Gatherer, found, passed_on, missed, registered, upgrade-gathering,
}

module _ {x : Externals} (c : Codecs x) (client_io server_io : Io x.IoError)
    (client : Client.World x) (server : Server.World x) (messages : ℕ)
    (client_branches server_branches : List Branch)
    (configs : List (String × RtcDataChannelInit)) where
  -- The logs of both ends.
  abbrev pub client_log : List (Client.Event x)
  client_log = (Client.upgrade client messages client_branches configs []).1

  abbrev pub server_log : List (Server.Event x)
  server_log = (Server.serve_offer server server_branches []).1

  -- Both ends over transports on which each call of their logs has answered what the log says, where
  -- the bytes that have come in at each end are a first part of those written at the other.
  pub record OverStream : Type 0 where
    pub client_bytes : List ℕ
    pub server_bytes : List ℕ
    pub client_transport : StreamTransport x.IoError
    pub server_transport : StreamTransport x.IoError
    pub client_session :
        Session
          (signaling c)
          client_io
          (map (client_use c) client_log)
          client_bytes
          client_transport
    pub server_session :
        Session
          (signaling c)
          server_io
          (map (server_use c) server_log)
          server_bytes
          server_transport
    pub to_server : List ℕ
    pub to_client : List ℕ
    pub arrives_at_server : server_bytes ++ to_server ≡ client_transport.stream.outgoing
    pub arrives_at_client : client_bytes ++ to_client ≡ server_transport.stream.outgoing

  upgrade-AllSucceed :
      (channels : Client.PeerAndChannels x)
      → (Client.upgrade client messages client_branches configs []).0 ≡ ok channels
      → failures client_log ≡ []
  upgrade-AllSucceed channels e =
      ground (arith, upgrade_fails client messages client_branches configs)

  -- Let the client's peer connection gather the candidates `all` and then their end, of which `more` is
  -- what `upgrade` is not there for, and let its `ice_receiver` give out in order what its callback was
  -- called with, of which `later` is left; the server's peer connection gathers nothing behind its end.
  -- Where `upgrade` and the round of the server have both succeeded over a stream that loses no byte,
  -- and bitcode reads back what it has written: the server's peer was given the candidates of the
  -- client that were gathered from when the client had set its callback on, all of these but none of
  -- those before, and the client's peer all that the server's callback had passed on; each once and in
  -- order, however the stream cut the bytes into reads, and whichever calls of `recv_obj` were given up
  -- in between.
  pub upgrade-serve_offer_bytes :
      (g : Gatherer x) (all : List x.Candidate) (later more : List (Option x.Candidate))
      (channels : Client.PeerAndChannels x)
      → AllLawful c
      → OverStream
      → (Client.upgrade client messages client_branches configs []).0 ≡ ok channels
      → (Server.serve_offer server server_branches []).0 ≡ ok tt
      → passed_on g client_log ≡ reverse (Client.Transcript.gathered client_log) ++ later
      → found g client_log ++ more ≡ gathering all
      → EndsLast (gathered server_log)
      → (registered client_log ≡ true)
        × (missed g client_log ++ reverse (Client.Transcript.gathered client_log) ≡ gathering all)
        × Adds x (Client.Transcript.gathered client_log) (added_candidates server_log)
        × Adds x (gathered server_log) (Client.Transcript.added_candidates client_log)
  upgrade-serve_offer_bytes g all later' more channels lawful o upgraded served gives_out gathers
        server_last =
      let (set, sends, named, ends, adds) =
        upgrade-gathering client g all later' more messages client_branches configs channels
          upgraded gives_out gathers in
      let (named', sent_all, sent_end, received_end, added) =
        upgrade_exchanges client messages client_branches configs channels upgraded in
      let of_all : missed g client_log ++ reverse (Client.Transcript.gathered client_log)
          ≡ gathering all =
        ap (λ l. missed g client_log ++ reverse l) (sym sent_all) ∙ sends in
      let client_last =
        gathering-EndsLast all (missed g client_log) (Client.Transcript.gathered client_log)
          of_all in
      let client_order =
        Client.Transcript.Ensures-ok ClientOrder.Ordered
          (Client.upgrade client messages client_branches configs [])
          (ClientOrder.upgrade-Ordered client messages client_branches configs) upgraded in
      let server_order =
        ServerOrder.Ensures-ok (ServerOrder.Ordered c)
          (Server.serve_offer server server_branches [])
          (ServerOrder.serve_offer-Ordered server c server_branches) served in
      let client_clean = failures-AllSucceed c client_log (upgrade-AllSucceed channels upgraded) in
      let (answer, offered, is_answer, is_offer, replies) = server_order in
      let server_clean = replies.clean in
      let (late, early, sent, read) =
        Session-reads (signaling c) client_io server_io o.to_server o.client_session
          o.server_session client_clean server_clean o.arrives_at_server in
      let (later, earlier, sent_down, read_down) =
        Session-reads (signaling c) server_io client_io o.to_client o.server_session
          o.client_session server_clean client_clean o.arrives_at_client in
      let (to_server, up) =
        upward c lawful client_log server_log late early client_order server_order sent read in
      let (to_client, down) =
        downward c lawful client_log server_log later earlier client_order server_order sent_down
          read_down in
      let (at_server, at_client) =
        upgrade-serve_offer client server messages client_branches server_branches configs channels
          upgraded served client_last server_last to_server to_client up down in
      (set, of_all, at_server, at_client)
