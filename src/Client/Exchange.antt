-- ===== src/Client/Exchange.antt =====
-- What a successful `upgrade` has sent, added to its peer, and returned, read off its log.
use Prim.Native.String.{String}
use mathlib.Core.List.{reverse, reverse-append, reverse-cons, append_assoc, append-nil}
use mangle_webrtc.Common.{
  ℕ, zero, suc, ◌≡◌, sym, Bool, true, false, ◌&&◌, ◌||◌, if◌then◌else◌, List, [], ◌∷◌, ◌++◌, ok,
  Result-cases, inl, inr, arith,
}
use mangle_webrtc.Common.Effects.{pure, ask, ◌>>=◌}
use mangle_webrtc.Channels.{RtcDataChannelInit}
use mangle_webrtc.Signaling.{Externals, sdp_answer, ice, Branch, ice_to_send, received}
use mangle_webrtc.Client
use mangle_webrtc.Client.Transcript.{
  gathered, sent_candidates, received_candidates, added_candidates, sent_end, received_end, labels,
  labels-append, Ensures, Ensures-then,
}

-- The log agrees with the flags of the loop, between two of its turns.
record Agrees {x : Externals} (ds dr : Bool) (log : List (Client.Event x)) : Type 0 where
  sending : sent_end log ≡ ds
  receiving : received_end log ≡ dr
  messages : sent_candidates log ≡ gathered log
  adds : added_candidates log ≡ received_candidates log

-- Before the server has answered, `ices` were received and none was added.
record Awaits {x : Externals} (ices : List x.CandidateInit) (log : List (Client.Event x))
    : Type 0 where
  not_sent : sent_end log ≡ false
  not_received : received_end log ≡ false
  none_sent : sent_candidates log ≡ []
  none_gathered : gathered log ≡ []
  early : received_candidates log ≡ reverse ices
  none_added : added_candidates log ≡ []

-- The candidates `ices` were received and are still to be added.
record Adding {x : Externals} (ices : List x.CandidateInit) (log : List (Client.Event x))
    : Type 0 where
  unsent : sent_end log ≡ false
  unreceived : received_end log ≡ false
  same : sent_candidates log ≡ gathered log
  left : reverse ices ++ added_candidates log ≡ received_candidates log

module _ {x : Externals} (w : Client.World x) where
  send_gathered-Agrees :
      (ds dr : Bool) (h : List (Client.Event x))
      → Agrees ds dr h
      → Ensures (λ last. Agrees (last || ds) dr) (Client.send_gathered w h)
  unfolding Client.send_gathered
  send_gathered-Agrees ds dr h a = ground arith

  receive_ice-Agrees :
      (ds dr : Bool) (h : List (Client.Event x))
      → Agrees ds dr h
      → Ensures (λ last. Agrees ds (last || dr)) (Client.receive_ice w h)
  unfolding Client.receive_ice
  receive_ice-Agrees ds dr h a = ground arith

  exchange-Agrees :
      (branches : List Branch) (ds dr : Bool) (h : List (Client.Event x))
      → Agrees ds dr h
      → Ensures (λ u. Agrees true true) (Client.exchange w branches ds dr h)
  unfolding Client.exchange
  exchange-Agrees [] ds dr h a = tt
  exchange-Agrees (ice_to_send ∷ branches) ds dr h a =
      Ensures-then (λ last. Agrees (last || ds) dr) (λ u. Agrees true true)
        (Client.send_gathered w h)
        (λ last. if last && dr then pure tt else Client.exchange w branches (last || ds) dr)
        (send_gathered-Agrees ds dr h a)
        (λ last k a'. ground (arith, exchange-Agrees branches (last || ds) dr k))
  exchange-Agrees (received ∷ branches) ds dr h a =
      Ensures-then (λ last. Agrees ds (last || dr)) (λ u. Agrees true true) (Client.receive_ice w h)
        (λ last. if last && ds then pure tt else Client.exchange w branches ds (last || dr))
        (receive_ice-Agrees ds dr h a)
        (λ last k a'. ground (arith, exchange-Agrees branches ds (last || dr) k))

  create_channels-Awaits :
      (channels : Client.PeerAndChannels x) (configs : List (String × RtcDataChannelInit))
      (h : List (Client.Event x))
      → Awaits [] h
      → Ensures
          (λ created k. (labels created ≡ labels channels ++ labels configs) × Awaits [] k)
          (Client.create_channels w channels configs h)
  unfolding Client.create_channels
  create_channels-Awaits channels [] h a = (sym (append-nil (labels channels)), a)
  create_channels-Awaits channels ((label, option) ∷ configs) h a =
      Ensures-then (λ channel k. Awaits [] k)
        (λ created k. (labels created ≡ labels channels ++ (label ∷ labels configs)) × Awaits [] k)
        (create_channel h)
        (λ channel. Client.create_channels w (channels ++ ((label, channel) ∷ [])) configs)
        (ground arith)
        (λ channel k a'. ground (
          arith,
          create_channels-Awaits (channels ++ ((label, channel) ∷ [])) configs k a',
          labels-append channels ((label, channel) ∷ []),
          append_assoc (labels channels) (label ∷ []) (labels configs),
        ))
    where
      create_channel : Client.Upgrade x x.DataChannel
      create_channel = do
        created ← ask (w.create_data_channel label option) (Client.create_data_channel label option)
        Client.try_webrtc created

  make_offer-Awaits :
      (h : List (Client.Event x)) → Awaits [] h → Ensures (λ u. Awaits []) (Client.make_offer w h)
  unfolding Client.make_offer
  make_offer-Awaits h a = ground arith

  await_answer-Awaits :
      (messages : ℕ) (ices : List x.CandidateInit) (h : List (Client.Event x))
      → Awaits ices h
      → Ensures (λ answered. Awaits answered.1) (Client.await_answer w messages ices h)
  unfolding Client.await_answer
  await_answer-Awaits zero ices h a = tt
  await_answer-Awaits (suc messages) ices h a = elim (Result-cases (w.recv_message h)) [
    | inl (sdp_answer sdp, e) ↦ ground (arith, e)
    | inl (ice init, e) ↦ ground (
      arith,
      e,
      await_answer-Awaits messages (ices ++ (init ∷ []))
          (Client.recv_message (w.recv_message h) ∷ h),
      reverse-append ices (init ∷ []),
    )
    | inr (x, e) ↦ ground (arith, e)
  ]

  add_candidates-Agrees :
      (ices : List x.CandidateInit) (h : List (Client.Event x))
      → Adding ices h
      → Ensures (λ u. Agrees false false) (Client.add_candidates w ices h)
  unfolding Client.add_candidates
  add_candidates-Agrees [] h a = ground (arith, a.left)
  add_candidates-Agrees (init ∷ ices) h a = ground (
    arith,
    add_candidates-Agrees ices (Client.add_ice_candidate init (w.add_ice_candidate init h) ∷ h),
    reverse-cons init ices,
    append_assoc (reverse ices) (init ∷ []) (added_candidates h),
  )

  accept_answer-Agrees :
      (answer : x.Sdp) (ices : List x.CandidateInit) (h : List (Client.Event x))
      → Awaits ices h
      → Ensures (λ u. Agrees false false) (Client.accept_answer w answer ices h)
  unfolding Client.accept_answer
  accept_answer-Agrees answer ices h a = ground (
    arith,
    add_candidates-Agrees ices
        (Client.set_remote_description answer (w.set_remote_description answer h) ∷ h),
    append-nil (reverse ices),
  )

  offer_channels-Awaits :
      (messages : ℕ) (configs : List (String × RtcDataChannelInit))
      → Ensures
          (λ offered k. (labels offered.0 ≡ labels configs) × Awaits offered.2 k)
          (Client.offer_channels w messages configs [])
  unfolding Client.offer_channels
  offer_channels-Awaits messages configs =
      let opened : List (Client.Event x) =
        Client.new_peer_connection (w.new_peer_connection []) ∷ [] in
      let created = (Client.create_channels w [] configs opened).1 in
      ground (
        arith,
        create_channels-Awaits [] configs opened,
        make_offer-Awaits created,
        await_answer-Awaits messages [] (Client.make_offer w created).1,
      )

  finish_upgrade-Agrees :
      (branches : List Branch) (channels : Client.PeerAndChannels x) (answer : x.Sdp)
      (ices : List x.CandidateInit) (h : List (Client.Event x))
      → Awaits ices h
      → Ensures
          (λ result k. (result ≡ channels) × Agrees true true k)
          (Client.finish_upgrade w branches (channels, answer, ices) h)
  unfolding Client.finish_upgrade
  finish_upgrade-Agrees branches channels answer ices h a = ground (
    arith,
    accept_answer-Agrees answer ices h,
    exchange-Agrees branches false false
        (Client.on_ice_candidate ∷ (Client.accept_answer w answer ices h).1),
  )

  upgrade-Agrees :
      (messages : ℕ) (branches : List Branch) (configs : List (String × RtcDataChannelInit))
      → Ensures
          (λ channels k. (labels channels ≡ labels configs) × Agrees true true k)
          (Client.upgrade w messages branches configs [])
  unfolding Client.upgrade
  upgrade-Agrees messages branches configs =
      Ensures-then (λ offered k. (labels offered.0 ≡ labels configs) × Awaits offered.2 k)
        (λ channels k. (labels channels ≡ labels configs) × Agrees true true k)
        (Client.offer_channels w messages configs []) (Client.finish_upgrade w branches)
        (offer_channels-Awaits messages configs)
        (λ offered k a.
          ground (arith, finish_upgrade-Agrees branches offered.0 offered.1 offered.2 k a.1))

  -- An `upgrade` that succeeds returns one channel for each configuration, in order and under its
  -- label. It has sent what `ice_receiver` gave out, to the end; it has received the end of the server's
  -- candidates, and has added those that came before it, whether before the server's answer or after
  -- it, each once and in the order in which they came.
  pub upgrade_exchanges :
      (messages : ℕ) (branches : List Branch) (configs : List (String × RtcDataChannelInit))
      (channels : Client.PeerAndChannels x)
      → (Client.upgrade w messages branches configs []).0 ≡ ok channels
      → let log = (Client.upgrade w messages branches configs []).1 in
        (labels channels ≡ labels configs)
        × (sent_candidates log ≡ gathered log)
        × (sent_end log ≡ true)
        × (received_end log ≡ true)
        × (added_candidates log ≡ received_candidates log)
  upgrade_exchanges messages branches configs channels e =
      ground (arith, upgrade-Agrees messages branches configs)
