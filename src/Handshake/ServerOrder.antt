-- ===== src/Handshake/ServerOrder.antt =====
-- In which order a round of the server's task uses the transport.
use mangle_webrtc.Common.{
  ◌≡◌, sym, ap, Bool, ◌&&◌, ◌||◌, if◌then◌else◌, false, List, [], ◌∷◌, ◌++◌, map, Result, ok, err,
  arith,
}
use mangle_webrtc.Common.Effects.{pure, emit, ◌>>◌}
use mangle_webrtc.Transport.Session.{AllSucceed}
use mangle_webrtc.Signaling.{Externals, sdp_answer, Branch, ice_to_send, received}
use mangle_webrtc.Server
use mangle_webrtc.Server.Exchange.{sent_messages, received_candidates}
use mangle_webrtc.Handshake.Wire.{
  Signal, message, client_ice, server_ice, server_sent, server_received, Codecs, server_use,
}
use mangle_webrtc.Handshake.ClientOrder.{IsOffer}

-- Nothing failed, and the server has sent `first` and received `early` before the candidates of the
-- exchange.
pub record Replies {x : Externals} (c : Codecs x) (first early : List (Signal x))
    (log : List (Server.Event x)) : Type 0 where
  pub clean : AllSucceed (map (server_use c) log)
  pub sent : server_sent log ≡ map (λ m. server_ice m) (sent_messages log) ++ first
  pub received : server_received log ≡ map (λ i. client_ice i) (received_candidates log) ++ early

-- One answer.
abbrev pub IsAnswer : {x : Externals} → List (Signal x) → Type 0
IsAnswer (message (sdp_answer a) ∷ []) = Unit {0}
IsAnswer _ = ⊥

-- What a round that reaches `on_success` has sent and received.
abbrev pub Ordered : {x : Externals} → Codecs x → List (Server.Event x) → Type 0
Ordered {x} c log =
    (first early : List (Signal x)) × IsAnswer first × IsOffer early × Replies c first early log

-- `P` holds of what a successful part of a round leads to.
abbrev pub Ensures :
    {x : Externals} {A : Type 0}
    → (List (Server.Event x) → Type 0)
    → Result Server.Exit A × List (Server.Event x)
    → Type 0
Ensures P (ok a, log) = P log
Ensures P (err e, log) = Unit {0}

Ensures-then :
    {x : Externals} {A B : Type 0} (P Q : List (Server.Event x) → Type 0)
    (r : Result Server.Exit A × List (Server.Event x)) (f : A → Server.Task x B)
    → Ensures P r
    → ((a : A) (k : List (Server.Event x)) → P k → Ensures Q (f a k))
    → Ensures {x = x} {A = B} Q (elim (r.0) [ ok a ↦ f a r.1 | err e ↦ (err e, r.1) ])
Ensures-then P Q (ok a, k) f p next = next a k p
Ensures-then P Q (err e, k) f p next = tt

module _ {x : Externals} (w : Server.World x) (c : Codecs x) where
  module _ (first early : List (Signal x)) where
    send_gathered-Replies :
        (h : List (Server.Event x))
        → Replies c first early h
        → Ensures (Replies c first early) (Server.send_gathered w h)
    unfolding Server.send_gathered
    send_gathered-Replies h r = ground arith

    receive_ice-Replies :
        (h : List (Server.Event x))
        → Replies c first early h
        → Ensures (Replies c first early) (Server.receive_ice w h)
    unfolding Server.receive_ice
    receive_ice-Replies h r = ground arith

    exchange-Replies :
        (branches : List Branch) (ds dr : Bool) (h : List (Server.Event x))
        → Replies c first early h
        → Ensures (Replies c first early) (Server.exchange w branches ds dr h)
    unfolding Server.exchange
    exchange-Replies [] ds dr h r = tt
    exchange-Replies (ice_to_send ∷ branches) ds dr h r =
        Ensures-then (Replies c first early) (Replies c first early) (Server.send_gathered w h)
          (λ last. if last && dr then pure tt else Server.exchange w branches (last || ds) dr)
          (send_gathered-Replies h r)
          (λ last k r'. ground (arith, exchange-Replies branches (last || ds) dr k))
    exchange-Replies (received ∷ branches) ds dr h r =
        Ensures-then (Replies c first early) (Replies c first early) (Server.receive_ice w h)
          (λ last. if last && ds then pure tt else Server.exchange w branches ds (last || dr))
          (receive_ice-Replies h r)
          (λ last k r'. ground (arith, exchange-Replies branches ds (last || dr) k))

  -- The messages before the exchange: an offer was received, and the answer was sent.
  record Negotiated (log : List (Server.Event x)) : Type 0 where
    all_well : AllSucceed (map (server_use c) log)
    answered : IsAnswer (server_sent log)
    offered : IsOffer (server_received log)
    none_sent : sent_messages log ≡ []
    none_received : received_candidates log ≡ []

  negotiate-Negotiated : Ensures Negotiated (Server.negotiate w [])
  unfolding Server.negotiate Server.unwrap_offer Server.unwrap_peer
  negotiate-Negotiated = ground arith

  begins :
      (h : List (Server.Event x)) → Negotiated h → Replies c (server_sent h) (server_received h) h
  begins h n = record {
    clean = n.all_well;
    sent = ap (λ ms. map (λ m. server_ice m) ms ++ server_sent h) (sym n.none_sent);
    received = ap (λ ices. map (λ i. client_ice i) ices ++ server_received h) (sym n.none_received);
  }

  -- `on_success` uses no transport.
  ends :
      (first early : List (Signal x)) (log : List (Server.Event x))
      → Replies c first early log
      → Replies c first early (Server.on_success (w.get_id log) ∷ log)
  ends first early log r = record { clean = r.clean; sent = r.sent; received = r.received }

  pub serve_offer-Ordered :
      (branches : List Branch) → Ensures (Ordered c) (Server.serve_offer w branches [])
  unfolding Server.serve_offer
  serve_offer-Ordered branches =
      Ensures-then Negotiated (Ordered c) (Server.negotiate w []) (λ u. exchange_then)
        negotiate-Negotiated
        (λ u k n.
          Ensures-then (Replies c (server_sent k) (server_received k)) (Ordered c)
            (Server.exchange w branches false false k)
            (λ v h. (ok tt, Server.on_success (w.get_id h) ∷ h))
            (exchange-Replies (server_sent k) (server_received k) branches false false k
              (begins k n))
            (λ v h r. (
              server_sent k,
              server_received k,
              n.answered,
              n.offered,
              ends (server_sent k) (server_received k) h r,
            )))
    where
      exchange_then : Server.Task x (Unit {0})
      exchange_then = do
        Server.exchange w branches false false
        (λ h. emit (Server.on_success (w.get_id h)) h)

pub Ensures-ok :
    {x : Externals} {A : Type 0} (P : List (Server.Event x) → Type 0) {a : A}
    (r : Result Server.Exit A × List (Server.Event x))
    → Ensures P r
    → r.0 ≡ ok a
    → P r.1
Ensures-ok P (ok b, k) p e = p
Ensures-ok P (err f, k) p e = absurd cc
