-- ===== src/Server/Exchange.antt =====
-- What the exchange of candidates sends and adds, read off the log of the round.
use mangle_webrtc.Common.{
  ◌≡◌, ◌⊎◌, is_ok, Bool, true, false, ◌&&◌, ◌||◌, if◌then◌else◌, Option, none, some, is_none, List,
  [], ◌∷◌, Result, ok, err, arith,
}
use mangle_webrtc.Common.Effects.{pure}
use mangle_webrtc.Signaling.{Externals, RtcMessage, Branch, ice_to_send, received}
use mangle_webrtc.Server.{
  Event, ice_recv, send_ice, recv_ice, add_ice_candidate, on_ice_candidate, Exit, returned,
  panicked, waiting, World, Task, to_message, send_gathered, receive_ice, exchange, negotiate,
  serve_offer,
}

-- The transcripts of a round, the newest first. A round begins where the callback is registered.
abbrev pub gathered : {x : Externals} → List (Event x) → List (Option x.Candidate)
gathered [] = []
gathered (on_ice_candidate ∷ h) = []
gathered (ice_recv (some c) ∷ h) = c ∷ gathered h
gathered (_ ∷ h) = gathered h

abbrev pub sent_messages : {x : Externals} → List (Event x) → List (Option (RtcMessage x))
sent_messages [] = []
sent_messages (on_ice_candidate ∷ h) = []
sent_messages (send_ice m (ok u) ∷ h) = m ∷ sent_messages h
sent_messages (_ ∷ h) = sent_messages h

abbrev pub received_candidates : {x : Externals} → List (Event x) → List (Option x.Candidate)
received_candidates [] = []
received_candidates (on_ice_candidate ∷ h) = []
received_candidates (recv_ice (ok c) ∷ h) = c ∷ received_candidates h
received_candidates (_ ∷ h) = received_candidates h

abbrev pub added_candidates : {x : Externals} → List (Event x) → List x.CandidateInit
added_candidates [] = []
added_candidates (on_ice_candidate ∷ h) = []
added_candidates (add_ice_candidate j (ok u) ∷ h) = j ∷ added_candidates h
added_candidates (_ ∷ h) = added_candidates h

-- The end of the candidates, `None`, is among them.
abbrev pub ended : {A : Type 0} → List (Option A) → Bool
ended [] = false
ended (c ∷ cs) = is_none c || ended cs

module _ (x : Externals) where
  -- One message for each candidate, and for the end of them.
  abbrev pub Messages : List (Option x.Candidate) → List (Option (RtcMessage x)) → Type 0
  Messages [] [] = Unit {0}
  Messages (c ∷ cs) (m ∷ ms) = (to_message c ≡ ok m) × Messages cs ms
  Messages _ _ = ⊥

  -- Each candidate was added in its serializable form; the end of them is no candidate.
  abbrev pub Adds : List (Option x.Candidate) → List x.CandidateInit → Type 0
  Adds [] [] = Unit {0}
  Adds [] (j ∷ js) = ⊥
  Adds (none ∷ cs) js = Adds cs js
  Adds (some c ∷ cs) [] = ⊥
  Adds (some c ∷ cs) (j ∷ js) = (x.to_json c ≡ ok j) × Adds cs js

-- The log agrees with the flags of the loop, between two of its turns.
record Agrees {x : Externals} (ds dr : Bool) (h : List (Event x)) : Type 0 where
  sending : ended (gathered h) ≡ ds
  receiving : ended (received_candidates h) ≡ dr
  messages : Messages x (gathered h) (sent_messages h)
  adds : Adds x (received_candidates h) (added_candidates h)

-- After a branch of the `select!`, given the flags that its answer leads to.
abbrev Sends : {x : Externals} → Bool → Bool → Result Exit Bool × List (Event x) → Type 0
Sends ds dr (ok last, h) = Agrees (last || ds) dr h
Sends ds dr (err returned, h) = Unit {0}
Sends ds dr (err panicked, h) = Unit {0}
Sends ds dr (err waiting, h) = ⊥

abbrev Receives : {x : Externals} → Bool → Bool → Result Exit Bool × List (Event x) → Type 0
Receives ds dr (ok last, h) = Agrees ds (last || dr) h
Receives ds dr (err returned, h) = Unit {0}
Receives ds dr (err panicked, h) = Unit {0}
Receives ds dr (err waiting, h) = ⊥

-- What the loop comes to. Left by `break`, both sides are done; while it waits, they are not.
abbrev Finishes : {x : Externals} → Result Exit (Unit {0}) × List (Event x) → Type 0
Finishes (ok u, h) = Agrees true true h
Finishes {x} (err waiting, h) =
    ((ended (gathered h) && ended (received_candidates h)) ≡ false)
    × Messages x (gathered h) (sent_messages h)
    × Adds x (received_candidates h) (added_candidates h)
Finishes (err returned, h) = Unit {0}
Finishes (err panicked, h) = Unit {0}

abbrev Negotiated : {x : Externals} → Result Exit (Unit {0}) × List (Event x) → Type 0
Negotiated (ok u, h) = Agrees false false h
Negotiated (err returned, h) = Unit {0}
Negotiated (err panicked, h) = Unit {0}
Negotiated (err waiting, h) = ⊥

module _ {x : Externals} {ds dr : Bool} where
  Sends-then :
      (r : Result Exit Bool × List (Event x)) (f : Bool → Task x (Unit {0}))
      → Sends ds dr r
      → ((last : Bool) (k : List (Event x)) → Agrees (last || ds) dr k → Finishes (f last k))
      → Finishes {x = x} (elim (r.0) [ ok a ↦ f a r.1 | err e ↦ (err e, r.1) ])
  Sends-then (ok a, k) f s next = next a k s
  Sends-then (err returned, k) f s next = tt
  Sends-then (err panicked, k) f s next = tt
  Sends-then (err waiting, k) f s next = absurd s

  Receives-then :
      (r : Result Exit Bool × List (Event x)) (f : Bool → Task x (Unit {0}))
      → Receives ds dr r
      → ((last : Bool) (k : List (Event x)) → Agrees ds (last || dr) k → Finishes (f last k))
      → Finishes {x = x} (elim (r.0) [ ok a ↦ f a r.1 | err e ↦ (err e, r.1) ])
  Receives-then (ok a, k) f s next = next a k s
  Receives-then (err returned, k) f s next = tt
  Receives-then (err panicked, k) f s next = tt
  Receives-then (err waiting, k) f s next = absurd s

module _ {x : Externals} (w : World x) where
  send_gathered-Agrees :
      (ds dr : Bool) (h : List (Event x)) → Agrees ds dr h → Sends ds dr (send_gathered w h)
  unfolding send_gathered
  send_gathered-Agrees ds dr h a = ground arith

  receive_ice-Agrees :
      (ds dr : Bool) (h : List (Event x)) → Agrees ds dr h → Receives ds dr (receive_ice w h)
  unfolding receive_ice
  receive_ice-Agrees ds dr h a = ground arith

  exchange-Finishes :
      (branches : List Branch) (ds dr : Bool) (h : List (Event x))
      → (ds && dr) ≡ false
      → Agrees ds dr h
      → Finishes (exchange w branches ds dr h)
  unfolding exchange
  exchange-Finishes [] ds dr h busy a = ground arith
  exchange-Finishes (ice_to_send ∷ branches) ds dr h busy a =
      Sends-then (send_gathered w h)
        (λ last. if last && dr then pure tt else exchange w branches (last || ds) dr)
        (send_gathered-Agrees ds dr h a)
        (λ last k a'. ground (arith, exchange-Finishes branches (last || ds) dr k))
  exchange-Finishes (received ∷ branches) ds dr h busy a =
      Receives-then (receive_ice w h)
        (λ last. if last && ds then pure tt else exchange w branches ds (last || dr))
        (receive_ice-Agrees ds dr h a)
        (λ last k a'. ground (arith, exchange-Finishes branches ds (last || dr) k))

  negotiate_agrees : (h : List (Event x)) → Negotiated (negotiate w h)
  unfolding negotiate
  negotiate_agrees h = ground arith

  serve_offer-Finishes :
      (branches : List Branch) (h : List (Event x)) → Finishes (serve_offer w branches h)
  unfolding serve_offer
  serve_offer-Finishes branches h =
      ground (arith, negotiate_agrees h, exchange-Finishes branches false false (negotiate w h).1)

  -- A round that reaches `on_success` has seen the end of the candidates on both sides, and one
  -- that waits for a candidate has not. In both cases each gathered candidate was sent, and the end
  -- of them, and each received candidate was added to the peer, in order and nothing else.
  pub serve_offer_exchanges :
      (branches : List Branch) (h : List (Event x))
      → ((serve_offer w branches h).0 ≡ ok tt) ⊎ ((serve_offer w branches h).0 ≡ err waiting)
      → let (r, k) = serve_offer w branches h in
        ((ended (gathered k) && ended (received_candidates k)) ≡ is_ok r)
        × Messages x (gathered k) (sent_messages k)
        × Adds x (received_candidates k) (added_candidates k)
  serve_offer_exchanges branches h e = ground (arith, serve_offer-Finishes branches h)
