-- ===== src/Handshake/Gathering.antt =====
-- Which of the candidates that the client's peer connection gathers are sent: the callback of
-- `on_ice_candidate` in `upgrade` of upgrade2webrtc/src/client.rs is set behind the server's answer.
use Prim.Native.String.{String}
use mathlib.Core.List.{reverse, append_assoc, append-nil}
use mangle_webrtc.Common.{
  ℕ, ◌≡◌, refl, sym, ap, ◌∙◌, Bool, Bool-cases, true, false, ◌&&◌, ◌||◌, if◌then◌else◌, inl, inr,
  Option, List, [], ◌∷◌, ◌++◌, ok, arith,
}
use mangle_webrtc.Common.Effects.{pure}
use mangle_webrtc.Channels.{RtcDataChannelInit}
use mangle_webrtc.Signaling.{Externals, Branch, ice_to_send, received}
use mangle_webrtc.Client
use mangle_webrtc.Client.Transcript.{
  gathered, sent_candidates, received_candidates, added_candidates, sent_end, received_end, labels,
  Ensures, Ensures-then, Ensures-ok,
}
use mangle_webrtc.Client.Exchange.{upgrade_exchanges}
use mangle_webrtc.Server.Exchange.{ended}
use mangle_webrtc.Handshake.Flow.{gathering}
use mangle_webrtc.Handshake.Endings.{ended-append_or, ended-reverse, gathering-end}

abbrev sets_callback : {x : Externals} → Client.Event x → Bool
sets_callback Client.on_ice_candidate = true
sets_callback _ = false

abbrev pub registered : {x : Externals} → List (Client.Event x) → Bool
registered [] = false
registered (e ∷ log) = sets_callback e || registered log

-- What the peer connection gathers behind the newest call of a log and before the next one, in order.
abbrev pub Gatherer : Externals → Type 0
Gatherer x = List (Client.Event x) → List (Option x.Candidate)

module _ {x : Externals} (g : Gatherer x) where
  -- All that was gathered during the calls of a log; what of it the callback was called with; and what
  -- was gathered when there was no callback. Each is in order.
  abbrev pub found : List (Client.Event x) → List (Option x.Candidate)
  found [] = g []
  found (e ∷ log) = found log ++ g (e ∷ log)

  abbrev pub passed_on : List (Client.Event x) → List (Option x.Candidate)
  passed_on [] = []
  passed_on (e ∷ log) = passed_on log ++ (if registered (e ∷ log) then g (e ∷ log) else [])

  abbrev pub missed : List (Client.Event x) → List (Option x.Candidate)
  missed [] = g []
  missed (e ∷ log) = missed log ++ (if registered (e ∷ log) then [] else g (e ∷ log))

  passed_on-none : (log : List (Client.Event x)) → registered log ≡ false → passed_on log ≡ []
  passed_on-none [] r = refl
  passed_on-none (e ∷ log) r = ground (arith, r, passed_on-none log)

  found-split : (log : List (Client.Event x)) → found log ≡ missed log ++ passed_on log
  found-split [] = sym (append-nil (g []))
  found-split (e ∷ log) = elim (Bool-cases (registered (e ∷ log))) [
    | inl r ↦ ground (
      arith,
      r,
      found-split log,
      append-nil (missed log),
      append_assoc (missed log) (passed_on log) (g (e ∷ log)),
    )
    | inr r ↦ ground (
      arith,
      r,
      found-split log,
      passed_on-none log,
      append-nil (missed log),
      append-nil (missed log ++ g (e ∷ log)),
    )
  ]

sent_end-ended :
    {x : Externals} (log : List (Client.Event x))
    → sent_end log ≡ true
    → ended (sent_candidates log) ≡ true
sent_end-ended [] e = e
sent_end-ended (e ∷ log) s = ground (arith, sent_end-ended log)

module _ {x : Externals} (w : Client.World x) where
  send_gathered-registered :
      (h : List (Client.Event x))
      → registered h ≡ true
      → Ensures (λ last k. registered k ≡ true) (Client.send_gathered w h)
  unfolding Client.send_gathered
  send_gathered-registered h r = ground arith

  receive_ice-registered :
      (h : List (Client.Event x))
      → registered h ≡ true
      → Ensures (λ last k. registered k ≡ true) (Client.receive_ice w h)
  unfolding Client.receive_ice
  receive_ice-registered h r = ground arith

  exchange-registered :
      (branches : List Branch) (ds dr : Bool) (h : List (Client.Event x))
      → registered h ≡ true
      → Ensures (λ u k. registered k ≡ true) (Client.exchange w branches ds dr h)
  unfolding Client.exchange
  exchange-registered [] ds dr h r = tt
  exchange-registered (ice_to_send ∷ branches) ds dr h r =
      Ensures-then (λ last k. registered k ≡ true) (λ u k. registered k ≡ true)
        (Client.send_gathered w h)
        (λ last. if last && dr then pure tt else Client.exchange w branches (last || ds) dr)
        (send_gathered-registered h r)
        (λ last k r'. ground (arith, exchange-registered branches (last || ds) dr k))
  exchange-registered (received ∷ branches) ds dr h r =
      Ensures-then (λ last k. registered k ≡ true) (λ u k. registered k ≡ true)
        (Client.receive_ice w h)
        (λ last. if last && ds then pure tt else Client.exchange w branches ds (last || dr))
        (receive_ice-registered h r)
        (λ last k r'. ground (arith, exchange-registered branches ds (last || dr) k))

  finish_upgrade-registered :
      (branches : List Branch) (channels : Client.PeerAndChannels x) (answer : x.Sdp)
      (ices : List x.CandidateInit) (h : List (Client.Event x))
      → Ensures
          (λ u k. registered k ≡ true)
          (Client.finish_upgrade w branches (channels, answer, ices) h)
  unfolding Client.finish_upgrade
  finish_upgrade-registered branches channels answer ices h = ground (
    arith,
    exchange-registered branches false false
        (Client.on_ice_candidate ∷ (Client.accept_answer w answer ices h).1),
  )

  upgrade-registered :
      (messages : ℕ) (branches : List Branch) (configs : List (String × RtcDataChannelInit))
      → Ensures (λ u k. registered k ≡ true) (Client.upgrade w messages branches configs [])
  unfolding Client.upgrade
  upgrade-registered messages branches configs =
      Ensures-then (λ offered k. Unit {0}) (λ u k. registered k ≡ true)
        (Client.offer_channels w messages configs []) (Client.finish_upgrade w branches)
        (ground arith)
        (λ offered k a. finish_upgrade-registered branches offered.0 offered.1 offered.2 k)

  module _ (g : Gatherer x) (all : List x.Candidate) (later more : List (Option x.Candidate))
      (messages : ℕ) (branches : List Branch) (configs : List (String × RtcDataChannelInit))
      (channels : Client.PeerAndChannels x) where
    -- Let the client's peer connection gather the candidates `all` and then their end, of which `more`
    -- is what `upgrade` is not there for, and let `ice_receiver` give out in order what the callback
    -- was called with, of which `later` is left. Then an `upgrade` that succeeds has set the callback,
    -- and has sent, in order and to the end, what was gathered behind that: all but the candidates that
    -- were gathered before it. It returns one channel for each configuration, in order and under its
    -- label; it has received the end of the server's candidates, and has added those that came before
    -- it, whether before the server's answer or after it, each once and in the order in which they came.
    pub upgrade-gathering :
        (Client.upgrade w messages branches configs []).0 ≡ ok channels
        → let log = (Client.upgrade w messages branches configs []).1 in
          passed_on g log ≡ reverse (gathered log) ++ later
          → found g log ++ more ≡ gathering all
          → (registered log ≡ true)
            × (missed g log ++ reverse (sent_candidates log) ≡ gathering all)
            × (labels channels ≡ labels configs)
            × (received_end log ≡ true)
            × (added_candidates log ≡ received_candidates log)
    upgrade-gathering upgraded gives_out gathers =
        let log = (Client.upgrade w messages branches configs []).1 in
        let (named, sent, sent_end', received_end', added) =
          upgrade_exchanges w messages branches configs channels upgraded in
        let ended_sent : ended (missed g log ++ reverse (sent_candidates log)) ≡ true = ground (
          arith,
          ended-append_or (missed g log) (reverse (sent_candidates log)),
          ended-reverse (sent_candidates log) (sent_end-ended log sent_end'),
        ) in
        let whole : (missed g log ++ reverse (sent_candidates log)) ++ (later ++ more)
            ≡ gathering all =
          append_assoc (missed g log) (reverse (sent_candidates log)) (later ++ more)
          ∙ ap (λ l. missed g log ++ l)
              (sym (append_assoc (reverse (sent_candidates log)) later more)
                ∙ ap (λ l. l ++ more) (ap (λ l. reverse l ++ later) sent ∙ sym gives_out))
          ∙ sym (append_assoc (missed g log) (passed_on g log) more)
          ∙ ap (λ l. l ++ more) (sym (found-split g log))
          ∙ gathers in
        let none_left : later ++ more ≡ [] =
          gathering-end all (missed g log ++ reverse (sent_candidates log)) (later ++ more) whole
            ended_sent in
        (
          Ensures-ok (λ k. registered k ≡ true) (Client.upgrade w messages branches configs [])
              (upgrade-registered messages branches configs) upgraded,
          sym (append-nil (missed g log ++ reverse (sent_candidates log)))
              ∙ ap (λ l. (missed g log ++ reverse (sent_candidates log)) ++ l) (sym none_left)
              ∙ whole,
          named,
          received_end',
          added,
        )
