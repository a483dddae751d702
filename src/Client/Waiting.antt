-- ===== src/Client/Waiting.antt =====
-- Where an `upgrade` may still wait.
use Prim.Native.String.{String}
use mangle_webrtc.Common.{
  ℕ, zero, suc, ◌≡◌, refl, Bool, false, ◌&&◌, ◌||◌, if◌then◌else◌, List, [], ◌∷◌, ◌++◌, Result, ok,
  err, Result-cases, inl, inr, arith,
}
use mangle_webrtc.Common.Effects.{pure, emit, ◌>>◌}
use mangle_webrtc.Channels.{RtcDataChannelInit}
use mangle_webrtc.Signaling.{Externals, sdp_answer, ice, Branch, ice_to_send, received}
use mangle_webrtc.Client
use mangle_webrtc.Client.Transcript.{sent_end, received_end}

-- A part that leaves both ends of the candidates as they were, whatever its outcome is.
record Keeps {x : Externals} (h k : List (Client.Event x)) : Type 0 where
  sending : sent_end k ≡ sent_end h
  receiving : received_end k ≡ received_end h

-- Code that waits has not sent the end of its candidates, or has not received the other's.
abbrev pub Waits :
    {x : Externals} {A : Type 0} → Result (Client.Exit x) A × List (Client.Event x) → Type 0
Waits (err Client.waiting, log) = (sent_end log && received_end log) ≡ false
Waits _ = Unit {0}

-- A branch of the `select!` does not wait for good, and its answer leads to the flags.
abbrev Turns :
    {x : Externals}
    → (Bool → Bool)
    → (Bool → Bool)
    → Result (Client.Exit x) Bool × List (Client.Event x)
    → Type 0
Turns ds dr (ok last, log) = (sent_end log ≡ ds last) × (received_end log ≡ dr last)
Turns ds dr (err Client.waiting, log) = ⊥
Turns ds dr (err _, log) = Unit {0}

Waits-then :
    {x : Externals} {B : Type 0} (ds dr : Bool → Bool)
    (r : Result (Client.Exit x) Bool × List (Client.Event x)) (f : Bool → Client.Upgrade x B)
    → Turns ds dr r
    → ((last : Bool) (k : List (Client.Event x))
        → sent_end k ≡ ds last
        → received_end k ≡ dr last
        → Waits (f last k))
    → Waits {x = x} {A = B} (elim (r.0) [ ok a ↦ f a r.1 | err e ↦ (err e, r.1) ])
Waits-then ds dr (ok last, k) f t next = next last k t.0 t.1
Waits-then ds dr (err (Client.failed e), k) f t next = tt
Waits-then ds dr (err Client.panicked, k) f t next = tt
Waits-then ds dr (err Client.waiting, k) f t next = absurd t

module _ {x : Externals} {A B : Type 0} (r : Result (Client.Exit x) A × List (Client.Event x))
    (f : A → Client.Upgrade x B) (h : List (Client.Event x)) where
  -- As long as the end of the candidates is not sent, it may wait.
  Waits-kept :
      Keeps h r.1
      → sent_end h ≡ false
      → received_end h ≡ false
      → ((a : A) (k : List (Client.Event x))
          → sent_end k ≡ false
          → received_end k ≡ false
          → Waits (f a k))
      → Waits {x = x} {A = B} (elim (r.0) [ ok a ↦ f a r.1 | err e ↦ (err e, r.1) ])
  Waits-kept kept s t next = elim (Result-cases (r.0)) [
    | inl (a, e) ↦ ground (arith, e, kept, next a r.1)
    | inr (Client.failed e, g) ↦ ground (arith, g)
    | inr (Client.panicked, g) ↦ ground (arith, g)
    | inr (Client.waiting, g) ↦ ground (arith, g, kept)
  ]

module _ {x : Externals} (w : Client.World x) where
  send_gathered-Turns :
      (ds dr : Bool) (h : List (Client.Event x))
      → sent_end h ≡ ds
      → received_end h ≡ dr
      → Turns (λ last. last || ds) (λ last. dr) (Client.send_gathered w h)
  unfolding Client.send_gathered
  send_gathered-Turns ds dr h s r = ground arith

  receive_ice-Turns :
      (ds dr : Bool) (h : List (Client.Event x))
      → sent_end h ≡ ds
      → received_end h ≡ dr
      → Turns (λ last. ds) (λ last. last || dr) (Client.receive_ice w h)
  unfolding Client.receive_ice
  receive_ice-Turns ds dr h s r = ground arith

  exchange-Waits :
      (branches : List Branch) (ds dr : Bool) (h : List (Client.Event x))
      → sent_end h ≡ ds
      → received_end h ≡ dr
      → (ds && dr) ≡ false
      → Waits (Client.exchange w branches ds dr h)
  unfolding Client.exchange
  exchange-Waits [] ds dr h s r open' = ground arith
  exchange-Waits (ice_to_send ∷ branches) ds dr h s r open' =
      Waits-then (λ last. last || ds) (λ last. dr) (Client.send_gathered w h)
        (λ last. if last && dr then pure tt else Client.exchange w branches (last || ds) dr)
        (send_gathered-Turns ds dr h s r)
        (λ last k s' r'. ground (arith, exchange-Waits branches (last || ds) dr k))
  exchange-Waits (received ∷ branches) ds dr h s r open' =
      Waits-then (λ last. ds) (λ last. last || dr) (Client.receive_ice w h)
        (λ last. if last && ds then pure tt else Client.exchange w branches ds (last || dr))
        (receive_ice-Turns ds dr h s r)
        (λ last k s' r'. ground (arith, exchange-Waits branches ds (last || dr) k))

  create_channels-Keeps :
      (channels : Client.PeerAndChannels x) (configs : List (String × RtcDataChannelInit))
      (h : List (Client.Event x))
      → Keeps h (Client.create_channels w channels configs h).1
  unfolding Client.create_channels
  create_channels-Keeps channels [] h = record { sending = refl; receiving = refl }
  create_channels-Keeps channels ((label, option) ∷ configs) h =
      elim (Result-cases (w.create_data_channel label option h)) [
        | inl (channel, e) ↦ ground (
          arith,
          e,
          create_channels-Keeps (channels ++ ((label, channel) ∷ [])) configs
              (Client.create_data_channel label option (ok channel) ∷ h),
        )
        | inr (f, e) ↦ ground (arith, e)
      ]

  make_offer-Keeps : (h : List (Client.Event x)) → Keeps h (Client.make_offer w h).1
  unfolding Client.make_offer
  make_offer-Keeps h = ground arith

  await_answer-Keeps :
      (messages : ℕ) (ices : List x.CandidateInit) (h : List (Client.Event x))
      → Keeps h (Client.await_answer w messages ices h).1
  unfolding Client.await_answer
  await_answer-Keeps zero ices h = record { sending = refl; receiving = refl }
  await_answer-Keeps (suc messages) ices h = elim (Result-cases (w.recv_message h)) [
    | inl (sdp_answer sdp, e) ↦ ground (arith, e)
    | inl (ice init, e) ↦ ground (
      arith,
      e,
      await_answer-Keeps messages (ices ++ (init ∷ [])) (Client.recv_message (ok (ice init)) ∷ h),
    )
    | inr (f, e) ↦ ground (arith, e)
  ]

  add_candidates-Keeps :
      (ices : List x.CandidateInit) (h : List (Client.Event x))
      → Keeps h (Client.add_candidates w ices h).1
  unfolding Client.add_candidates
  add_candidates-Keeps [] h = record { sending = refl; receiving = refl }
  add_candidates-Keeps (init ∷ ices) h = elim (Result-cases (w.add_ice_candidate init h)) [
    | inl (u, e) ↦
        ground (arith, e, add_candidates-Keeps ices (Client.add_ice_candidate init (ok u) ∷ h))
    | inr (f, e) ↦ ground (arith, e)
  ]

  offer_channels-Keeps :
      (messages : ℕ) (configs : List (String × RtcDataChannelInit)) (h : List (Client.Event x))
      → Keeps h (Client.offer_channels w messages configs h).1
  unfolding Client.offer_channels
  offer_channels-Keeps messages configs h =
      let opened : List (Client.Event x) =
        Client.new_peer_connection (w.new_peer_connection h) ∷ h in
      let created = (Client.create_channels w [] configs opened).1 in
      ground (
        arith,
        create_channels-Keeps [] configs opened,
        make_offer-Keeps created,
        await_answer-Keeps messages [] (Client.make_offer w created).1,
      )

  accept_answer-Keeps :
      (answer : x.Sdp) (ices : List x.CandidateInit) (h : List (Client.Event x))
      → Keeps h (Client.accept_answer w answer ices h).1
  unfolding Client.accept_answer
  accept_answer-Keeps answer ices h = elim (Result-cases (w.set_remote_description answer h)) [
    | inl (u, e) ↦
        ground
          (arith, e, add_candidates-Keeps ices (Client.set_remote_description answer (ok u) ∷ h))
    | inr (f, e) ↦ ground (arith, e)
  ]

  finish_upgrade-Waits :
      (branches : List Branch) (offered : Client.PeerAndChannels x × x.Sdp × List x.CandidateInit)
      (h : List (Client.Event x))
      → sent_end h ≡ false
      → received_end h ≡ false
      → Waits (Client.finish_upgrade w branches offered h)
  unfolding Client.finish_upgrade
  finish_upgrade-Waits branches (channels, answer, ices) h s r =
      let k = (Client.accept_answer w answer ices h).1 in
      Waits-kept (Client.accept_answer w answer ices h)
        (λ u.
          emit Client.on_ice_candidate >> (Client.exchange w branches false false >> pure channels))
        h (accept_answer-Keeps answer ices h) s r
        (λ u k s' r'.
          ground
            (arith, exchange-Waits branches false false (Client.on_ice_candidate ∷ k) s' r' refl))

  -- An `upgrade` that still waits has not sent the end of its candidates, or has not received the
  -- end of the server's: once both ends have passed it waits no more.
  pub upgrade-Waits :
      (messages : ℕ) (branches : List Branch) (configs : List (String × RtcDataChannelInit))
      → Waits (Client.upgrade w messages branches configs [])
  unfolding Client.upgrade
  upgrade-Waits messages branches configs =
      Waits-kept (Client.offer_channels w messages configs []) (Client.finish_upgrade w branches) []
        (offer_channels-Keeps messages configs []) refl refl
        (λ offered k s r. finish_upgrade-Waits branches offered k s r)
