-- ===== src/Client/Failures.antt =====
-- Which error `upgrade` returns: that of the first call that fails, which is its last call.
use Prim.Native.String.{String}
use mangle_webrtc.Common.{
  ℕ, zero, suc, ◌≡◌, refl, Bool, ◌&&◌, ◌||◌, if◌then◌else◌, false, Option, none, some, List, [],
  ◌∷◌, ◌++◌, Result, ok, err, Result-cases, inl, inr, arith,
}
use mangle_webrtc.Common.Effects.{pure, ask, ◌>>=◌}
use mangle_webrtc.Channels.{RtcDataChannelInit}
use mangle_webrtc.Signaling.{Externals, sdp_answer, ice, Branch, ice_to_send, received}
use mangle_webrtc.Transport.{deserialize_error, io_error}
use mangle_webrtc.Client

-- The error that an event stands for, by the answer of its call.
abbrev pub failure : {x : Externals} → Client.Event x → Option (Client.ClientError x)
failure (Client.new_peer_connection (err e)) = some (Client.webrtc_error e)
failure (Client.create_data_channel label option (err e)) = some (Client.webrtc_error e)
failure (Client.create_offer (err e)) = some (Client.webrtc_error e)
failure (Client.send_offer sdp (err e)) = some (Client.client_io_error e)
failure (Client.set_local_description sdp (err e)) = some (Client.webrtc_error e)
failure (Client.recv_message (err (deserialize_error e))) = some (Client.client_deserialize_error e)
failure (Client.recv_message (err (io_error e))) = some (Client.client_io_error e)
failure (Client.set_remote_description sdp (err e)) = some (Client.webrtc_error e)
failure (Client.add_ice_candidate init (err e)) = some (Client.webrtc_error e)
failure (Client.send_ice c (err e)) = some (Client.client_io_error e)
failure (Client.recv_ice (err (deserialize_error e))) = some (Client.client_deserialize_error e)
failure (Client.recv_ice (err (io_error e))) = some (Client.client_io_error e)
failure (Client.recv_ice (ok (some (sdp_answer sdp)))) = some Client.unexpected_message
failure _ = none

abbrev prepend : {A : Type 0} → Option A → List A → List A
prepend none xs = xs
prepend (some a) xs = a ∷ xs

abbrev pub failures : {x : Externals} → List (Client.Event x) → List (Client.ClientError x)
failures [] = []
failures (event ∷ log) = prepend (failure event) (failures log)

-- The last call was the one that failed with `e`.
abbrev pub FailsLast : {x : Externals} → List (Client.Event x) → Client.ClientError x → Type 0
FailsLast [] e = ⊥
FailsLast (event ∷ log) e = failure event ≡ some e

abbrev pub Reports :
    {x : Externals} {A : Type 0} → Result (Client.Exit x) A × List (Client.Event x) → Type 0
Reports (ok a, log) = failures log ≡ []
Reports (err (Client.failed e), log) = (failures log ≡ e ∷ []) × FailsLast log e
Reports (err Client.panicked, log) = failures log ≡ []
Reports (err Client.waiting, log) = failures log ≡ []

-- The rule for a sequence of two parts, of which `r` is what the first came to.
Reports-then :
    {x : Externals} {A B : Type 0} (r : Result (Client.Exit x) A × List (Client.Event x))
    (f : A → Client.Upgrade x B)
    → Reports r
    → ((a : A) (k : List (Client.Event x)) → failures k ≡ [] → Reports (f a k))
    → Reports {x = x} {A = B} (elim (r.0) [ ok a ↦ f a r.1 | err e ↦ (err e, r.1) ])
Reports-then (ok a, k) f clean next = next a k clean
Reports-then (err (Client.failed e), k) f reports next = reports
Reports-then (err Client.panicked, k) f clean next = clean
Reports-then (err Client.waiting, k) f clean next = clean

module _ {x : Externals} (w : Client.World x) where
  send_gathered-Reports :
      (h : List (Client.Event x)) → failures h ≡ [] → Reports (Client.send_gathered w h)
  unfolding Client.send_gathered
  send_gathered-Reports h clean = ground arith

  receive_ice-Reports :
      (h : List (Client.Event x)) → failures h ≡ [] → Reports (Client.receive_ice w h)
  unfolding Client.receive_ice
  receive_ice-Reports h clean = ground arith

  add_candidates-Reports :
      (ices : List x.CandidateInit) (h : List (Client.Event x))
      → failures h ≡ []
      → Reports (Client.add_candidates w ices h)
  unfolding Client.add_candidates
  add_candidates-Reports [] h clean = clean
  add_candidates-Reports (init ∷ ices) h clean = ground (
    arith,
    add_candidates-Reports ices (Client.add_ice_candidate init (w.add_ice_candidate init h) ∷ h),
  )

  create_channels-Reports :
      (channels : Client.PeerAndChannels x) (configs : List (String × RtcDataChannelInit))
      (h : List (Client.Event x))
      → failures h ≡ []
      → Reports (Client.create_channels w channels configs h)
  unfolding Client.create_channels
  create_channels-Reports channels [] h clean = clean
  create_channels-Reports channels ((label, option) ∷ configs) h clean =
      Reports-then (create_channel h)
        (λ channel. Client.create_channels w (channels ++ ((label, channel) ∷ [])) configs)
        (ground arith)
        (λ channel k clean'.
          create_channels-Reports (channels ++ ((label, channel) ∷ [])) configs k clean')
    where
      create_channel : Client.Upgrade x x.DataChannel
      create_channel = do
        created ← ask (w.create_data_channel label option) (Client.create_data_channel label option)
        Client.try_webrtc created

  await_answer-Reports :
      (messages : ℕ) (ices : List x.CandidateInit) (h : List (Client.Event x))
      → failures h ≡ []
      → Reports (Client.await_answer w messages ices h)
  unfolding Client.await_answer
  await_answer-Reports zero ices h clean = clean
  await_answer-Reports (suc messages) ices h clean = elim (Result-cases (w.recv_message h)) [
    | inl (sdp_answer sdp, e) ↦ ground (arith, e)
    | inl (ice init, e) ↦ ground (
      arith,
      e,
      await_answer-Reports messages (ices ++ (init ∷ []))
          (Client.recv_message (w.recv_message h) ∷ h),
    )
    | inr (x, e) ↦ ground (arith, e)
  ]

  exchange-Reports :
      (branches : List Branch) (ds dr : Bool) (h : List (Client.Event x))
      → failures h ≡ []
      → Reports (Client.exchange w branches ds dr h)
  unfolding Client.exchange
  exchange-Reports [] ds dr h clean = clean
  exchange-Reports (ice_to_send ∷ branches) ds dr h clean =
      Reports-then (Client.send_gathered w h)
        (λ last. if last && dr then pure tt else Client.exchange w branches (last || ds) dr)
        (send_gathered-Reports h clean)
        (λ last k clean'. ground (arith, exchange-Reports branches (last || ds) dr k))
  exchange-Reports (received ∷ branches) ds dr h clean =
      Reports-then (Client.receive_ice w h)
        (λ last. if last && ds then pure tt else Client.exchange w branches ds (last || dr))
        (receive_ice-Reports h clean)
        (λ last k clean'. ground (arith, exchange-Reports branches ds (last || dr) k))

  make_offer-Reports :
      (h : List (Client.Event x)) → failures h ≡ [] → Reports (Client.make_offer w h)
  unfolding Client.make_offer
  make_offer-Reports h clean = ground arith

  offer_channels-Reports :
      (messages : ℕ) (configs : List (String × RtcDataChannelInit)) (h : List (Client.Event x))
      → failures h ≡ []
      → Reports (Client.offer_channels w messages configs h)
  unfolding Client.offer_channels
  offer_channels-Reports messages configs h clean =
      let opened = Client.new_peer_connection (w.new_peer_connection h) ∷ h in
      let created = (Client.create_channels w [] configs opened).1 in
      ground (
        arith,
        create_channels-Reports [] configs opened,
        make_offer-Reports created,
        await_answer-Reports messages [] (Client.make_offer w created).1,
      )

  accept_answer-Reports :
      (answer : x.Sdp) (ices : List x.CandidateInit) (h : List (Client.Event x))
      → failures h ≡ []
      → Reports (Client.accept_answer w answer ices h)
  unfolding Client.accept_answer
  accept_answer-Reports answer ices h clean = ground (
    arith,
    add_candidates-Reports ices
        (Client.set_remote_description answer (w.set_remote_description answer h) ∷ h),
  )

  finish_upgrade-Reports :
      (branches : List Branch) (channels : Client.PeerAndChannels x) (answer : x.Sdp)
      (ices : List x.CandidateInit) (h : List (Client.Event x))
      → failures h ≡ []
      → Reports (Client.finish_upgrade w branches (channels, answer, ices) h)
  unfolding Client.finish_upgrade
  finish_upgrade-Reports branches channels answer ices h clean = ground (
    arith,
    accept_answer-Reports answer ices h,
    exchange-Reports branches false false
        (Client.on_ice_candidate ∷ (Client.accept_answer w answer ices h).1),
  )

  upgrade-Reports :
      (messages : ℕ) (branches : List Branch) (configs : List (String × RtcDataChannelInit))
      (h : List (Client.Event x))
      → failures h ≡ []
      → Reports (Client.upgrade w messages branches configs h)
  unfolding Client.upgrade
  upgrade-Reports messages branches configs h clean =
      Reports-then (Client.offer_channels w messages configs h) (Client.finish_upgrade w branches)
        (offer_channels-Reports messages configs h clean)
        (λ offered k. finish_upgrade-Reports branches offered.0 offered.1 offered.2 k)

  -- `upgrade` returns an error exactly where a call fails or an answer is out of place: it is the
  -- error of that call, which is the only one that failed, and the last one that was made. With
  -- any other outcome no call has failed.
  pub upgrade_fails :
      (messages : ℕ) (branches : List Branch) (configs : List (String × RtcDataChannelInit))
      → Reports (Client.upgrade w messages branches configs [])
  upgrade_fails messages branches configs = upgrade-Reports messages branches configs [] refl
