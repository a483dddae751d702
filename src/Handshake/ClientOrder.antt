-- ===== src/Handshake/ClientOrder.antt =====
-- In which order `upgrade` uses the transport.
use Prim.Native.String.{String}
use mangle_webrtc.Common.{
  ℕ, zero, suc, ◌≡◌, sym, ap, Bool, ◌&&◌, ◌||◌, if◌then◌else◌, false, Option, List, [], ◌∷◌, ◌++◌,
  map, ok, Result-cases, inl, inr, arith,
}
use mangle_webrtc.Common.Effects.{pure}
use mangle_webrtc.Channels.{RtcDataChannelInit}
use mangle_webrtc.Signaling.{Externals, RtcMessage, sdp_answer, ice, Branch, ice_to_send, received}
use mangle_webrtc.Client
use mangle_webrtc.Client.Transcript.{sent_candidates, Ensures, Ensures-then, Ensures-map}
use mangle_webrtc.Handshake.Wire.{
  Signal, offer, message, client_ice, server_ice, client_sent, client_received,
}

-- The candidates of the server that the client received after the answer.
abbrev pub server_ices : {x : Externals} → List (Client.Event x) → List (Option (RtcMessage x))
server_ices [] = []
server_ices (Client.recv_ice (ok m) ∷ log) = m ∷ server_ices log
server_ices (_ ∷ log) = server_ices log

-- The client has sent `first`, and received `early`, before the candidates of the exchange.
pub record Follows {x : Externals} (first early : List (Signal x)) (log : List (Client.Event x))
    : Type 0 where
  pub sent : client_sent log ≡ map (λ i. client_ice i) (sent_candidates log) ++ first
  pub received : client_received log ≡ map (λ m. server_ice m) (server_ices log) ++ early

-- One offer.
abbrev pub IsOffer : {x : Externals} → List (Signal x) → Type 0
IsOffer (offer s ∷ []) = Unit {0}
IsOffer _ = ⊥

-- Candidates that the client received where it waited for the answer.
abbrev pub AllIces : {x : Externals} → List (Signal x) → Type 0
AllIces [] = Unit {0}
AllIces (message (ice j) ∷ rest) = AllIces rest
AllIces (_ ∷ rest) = ⊥

-- The answer, behind such candidates.
abbrev pub IsAnswered : {x : Externals} → List (Signal x) → Type 0
IsAnswered (message (sdp_answer a) ∷ rest) = AllIces rest
IsAnswered _ = ⊥

-- What an `upgrade` that succeeds has sent and received.
abbrev pub Ordered : {x : Externals} → List (Client.Event x) → Type 0
Ordered {x} log =
    (first early : List (Signal x)) × IsOffer first × IsAnswered early × Follows first early log

-- Before the exchange: what was sent, and what was received.
record Opens {x : Externals} (Sent Received : List (Signal x) → Type 0)
    (log : List (Client.Event x)) : Type 0 where
  sent : Sent (client_sent log)
  received : Received (client_received log)
  none_sent : sent_candidates log ≡ []
  none_received : server_ices log ≡ []

abbrev IsNone : {A : Type 0} → List A → Type 0
IsNone [] = Unit {0}
IsNone (_ ∷ _) = ⊥

module _ {x : Externals} (w : Client.World x) (first early : List (Signal x)) where
  send_gathered-Follows :
      (h : List (Client.Event x))
      → Follows first early h
      → Ensures (λ last. Follows first early) (Client.send_gathered w h)
  unfolding Client.send_gathered
  send_gathered-Follows h f = ground arith

  receive_ice-Follows :
      (h : List (Client.Event x))
      → Follows first early h
      → Ensures (λ last. Follows first early) (Client.receive_ice w h)
  unfolding Client.receive_ice
  receive_ice-Follows h f = ground arith

  exchange-Follows :
      (branches : List Branch) (ds dr : Bool) (h : List (Client.Event x))
      → Follows first early h
      → Ensures (λ u. Follows first early) (Client.exchange w branches ds dr h)
  unfolding Client.exchange
  exchange-Follows [] ds dr h f = tt
  exchange-Follows (ice_to_send ∷ branches) ds dr h f =
      Ensures-then (λ last. Follows first early) (λ u. Follows first early)
        (Client.send_gathered w h)
        (λ last. if last && dr then pure tt else Client.exchange w branches (last || ds) dr)
        (send_gathered-Follows h f)
        (λ last k f'. ground (arith, exchange-Follows branches (last || ds) dr k))
  exchange-Follows (received ∷ branches) ds dr h f =
      Ensures-then (λ last. Follows first early) (λ u. Follows first early) (Client.receive_ice w h)
        (λ last. if last && ds then pure tt else Client.exchange w branches ds (last || dr))
        (receive_ice-Follows h f)
        (λ last k f'. ground (arith, exchange-Follows branches ds (last || dr) k))

  add_candidates-Follows :
      (ices : List x.CandidateInit) (h : List (Client.Event x))
      → Follows first early h
      → Ensures (λ u. Follows first early) (Client.add_candidates w ices h)
  unfolding Client.add_candidates
  add_candidates-Follows [] h f = f
  add_candidates-Follows (init ∷ ices) h f = ground (
    arith,
    add_candidates-Follows ices (Client.add_ice_candidate init (w.add_ice_candidate init h) ∷ h),
  )

  finish_upgrade-Follows :
      (branches : List Branch) (channels : Client.PeerAndChannels x) (answer : x.Sdp)
      (ices : List x.CandidateInit) (h : List (Client.Event x))
      → Follows first early h
      → Ensures
          (λ result. Follows first early)
          (Client.finish_upgrade w branches (channels, answer, ices) h)
  unfolding Client.finish_upgrade Client.accept_answer
  finish_upgrade-Follows branches channels answer ices h f =
      let remote : List (Client.Event x) =
        Client.set_remote_description answer (w.set_remote_description answer h) ∷ h in
      ground (
        arith,
        add_candidates-Follows ices remote,
        exchange-Follows branches false false
            (Client.on_ice_candidate ∷ (Client.add_candidates w ices remote).1),
      )

module _ {x : Externals} (w : Client.World x) where
  create_channels-Opens :
      (channels : Client.PeerAndChannels x) (configs : List (String × RtcDataChannelInit))
      (h : List (Client.Event x))
      → Opens IsNone IsNone h
      → Ensures (λ created. Opens IsNone IsNone) (Client.create_channels w channels configs h)
  unfolding Client.create_channels
  create_channels-Opens channels [] h o = o
  create_channels-Opens channels ((label, option) ∷ configs) h o =
      elim (Result-cases (w.create_data_channel label option h)) [
        | inl (channel, e) ↦ ground (
          arith,
          e,
          create_channels-Opens (channels ++ ((label, channel) ∷ [])) configs
              (Client.create_data_channel label option (w.create_data_channel label option h) ∷ h),
        )
        | inr (f, e) ↦ ground (arith, e)
      ]

  make_offer-Opens :
      (h : List (Client.Event x))
      → Opens IsNone IsNone h
      → Ensures (λ u. Opens IsOffer IsNone) (Client.make_offer w h)
  unfolding Client.make_offer
  make_offer-Opens h o = ground arith

  await_answer-Opens :
      (messages : ℕ) (ices : List x.CandidateInit) (h : List (Client.Event x))
      → Opens IsOffer AllIces h
      → Ensures (λ answered. Opens IsOffer IsAnswered) (Client.await_answer w messages ices h)
  unfolding Client.await_answer
  await_answer-Opens zero ices h o = tt
  await_answer-Opens (suc messages) ices h o = elim (Result-cases (w.recv_message h)) [
    | inl (sdp_answer sdp, e) ↦ ground (arith, e)
    | inl (ice init, e) ↦ ground (
      arith,
      e,
      await_answer-Opens messages (ices ++ (init ∷ []))
          (Client.recv_message (w.recv_message h) ∷ h),
    )
    | inr (x, e) ↦ ground (arith, e)
  ]

  offer_channels-Opens :
      (messages : ℕ) (configs : List (String × RtcDataChannelInit))
      → Ensures (λ offered. Opens IsOffer IsAnswered) (Client.offer_channels w messages configs [])
  unfolding Client.offer_channels
  offer_channels-Opens messages configs =
      let opened : List (Client.Event x) =
        Client.new_peer_connection (w.new_peer_connection []) ∷ [] in
      let created = (Client.create_channels w [] configs opened).1 in
      ground (
        arith,
        create_channels-Opens [] configs opened,
        make_offer-Opens created,
        await_answer-Opens messages [] (Client.make_offer w created).1,
      )

  begins :
      (h : List (Client.Event x))
      → Opens IsOffer IsAnswered h
      → Follows (client_sent h) (client_received h) h
  begins h o = record {
    sent = ap (λ ices. map (λ i. client_ice i) ices ++ client_sent h) (sym o.none_sent);
    received = ap (λ ices. map (λ m. server_ice m) ices ++ client_received h) (sym o.none_received);
  }

  finish_upgrade-Ordered :
      (branches : List Branch) (offered : Client.PeerAndChannels x × x.Sdp × List x.CandidateInit)
      (h : List (Client.Event x))
      → Opens IsOffer IsAnswered h
      → Ensures (λ result. Ordered) (Client.finish_upgrade w branches offered h)
  finish_upgrade-Ordered branches (channels, answer, ices) h o =
      Ensures-map (Client.finish_upgrade w branches (channels, answer, ices) h)
        (finish_upgrade-Follows w (client_sent h) (client_received h) branches channels answer ices
          h (begins h o))
        (λ result k f. (client_sent h, client_received h, o.sent, o.received, f))

  pub upgrade-Ordered :
      (messages : ℕ) (branches : List Branch) (configs : List (String × RtcDataChannelInit))
      → Ensures (λ channels. Ordered) (Client.upgrade w messages branches configs [])
  unfolding Client.upgrade
  upgrade-Ordered messages branches configs =
      Ensures-then (λ offered. Opens IsOffer IsAnswered) (λ channels. Ordered)
        (Client.offer_channels w messages configs []) (Client.finish_upgrade w branches)
        (offer_channels-Opens messages configs)
        (λ offered k o. finish_upgrade-Ordered branches offered k o)
