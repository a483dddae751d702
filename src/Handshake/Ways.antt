-- ===== src/Handshake/Ways.antt =====
-- The candidates in each direction, from the uses of the two transports.
use mathlib.Core.Path.{subst}
use mangle_webrtc.Common.{◌≡◌, refl, sym, ap, ◌∙◌, Option, some, List, [], ◌∷◌, ◌++◌, map, arith}
use mangle_webrtc.Transport.Session.{Packet, sent_packets, received_packets}
use mangle_webrtc.Transport.Pairs.{AllRead}
use mangle_webrtc.Signaling.{Externals, RtcMessage, sdp_answer, ice}
use mangle_webrtc.Client
use mangle_webrtc.Client.Transcript
use mangle_webrtc.Server
use mangle_webrtc.Server.Exchange.{sent_messages, received_candidates}
use mangle_webrtc.Handshake.{received_messages}
use mangle_webrtc.Handshake.Wire.{
  Signal, offer, message, client_ice, server_ice, Codecs, signaling, packet, client_use, server_use,
  client_received, client_sent_lem, client_received_lem, server_sent_lem, server_received_lem,
}
use mangle_webrtc.Handshake.ClientOrder
use mangle_webrtc.Handshake.ServerOrder
use mangle_webrtc.Handshake.ClientOrder.{IsOffer, AllIces, IsAnswered, server_ices, upgrade-Ordered}
use mangle_webrtc.Handshake.ServerOrder.{IsAnswer, serve_offer-Ordered}
use mangle_webrtc.Handshake.Signals.{AllLawful, up_received, down_received}

module _ {x : Externals} where
  IsOffer-cases : (ss : List (Signal x)) → IsOffer ss → (s : x.Sdp) × (ss ≡ offer s ∷ [])
  IsOffer-cases [] h = absurd h
  IsOffer-cases (offer s ∷ []) h = (s, refl)
  IsOffer-cases (offer s ∷ _ ∷ _) h = absurd h
  IsOffer-cases (message m ∷ _) h = absurd h
  IsOffer-cases (client_ice i ∷ _) h = absurd h
  IsOffer-cases (server_ice m ∷ _) h = absurd h

  IsAnswered-cases :
      (ss : List (Signal x))
      → IsAnswered ss
      → (a : x.Sdp) × (ices : List (Signal x)) × (ss ≡ message (sdp_answer a) ∷ ices) × AllIces ices
  IsAnswered-cases [] h = absurd h
  IsAnswered-cases (message (sdp_answer a) ∷ ices) h = (a, ices, refl, h)
  IsAnswered-cases (message (ice j) ∷ _) h = absurd h
  IsAnswered-cases (offer s ∷ _) h = absurd h
  IsAnswered-cases (client_ice i ∷ _) h = absurd h
  IsAnswered-cases (server_ice m ∷ _) h = absurd h

  IsAnswer-cases :
      (ss : List (Signal x)) → IsAnswer ss → (a : x.Sdp) × (ss ≡ message (sdp_answer a) ∷ [])
  IsAnswer-cases [] h = absurd h
  IsAnswer-cases (message (sdp_answer a) ∷ []) h = (a, refl)
  IsAnswer-cases (message (sdp_answer a) ∷ _ ∷ _) h = absurd h
  IsAnswer-cases (message (ice j) ∷ _) h = absurd h
  IsAnswer-cases (offer s ∷ _) h = absurd h
  IsAnswer-cases (client_ice i ∷ _) h = absurd h
  IsAnswer-cases (server_ice m ∷ _) h = absurd h

  -- The candidates among the messages that the client received.
  candidates : List (Signal x) → List (Option (RtcMessage x))
  candidates [] = []
  candidates (server_ice m ∷ ss) = m ∷ candidates ss
  candidates (message (ice j) ∷ ss) = some (ice j) ∷ candidates ss
  candidates (_ ∷ ss) = candidates ss

  candidates-received :
      (log : List (Client.Event x)) → candidates (client_received log) ≡ received_messages log
  unfolding candidates
  candidates-received [] = refl
  candidates-received (e ∷ log) = ground (arith, candidates-received log)

  candidates-answered :
      (ms : List (Option (RtcMessage x))) (a : x.Sdp)
      → candidates (map (λ m. server_ice m) ms ++ (message (sdp_answer a) ∷ [])) ≡ ms
  unfolding candidates
  candidates-answered [] a = refl
  candidates-answered (m ∷ ms) a = ap (λ xs. m ∷ xs) (candidates-answered ms a)

module _ {x : Externals} (c : Codecs x) (lawful : AllLawful c) (log : List (Client.Event x))
    (k : List (Server.Event x)) (late early : List (Packet (signaling c)))
    (client_order : ClientOrder.Ordered log) (server_order : ServerOrder.Ordered c k) where
  pub upward :
      sent_packets (map (client_use c) log) ≡ late ++ early
      → AllRead (signaling c) early (received_packets (map (server_use c) k))
      → (to_server : List (Option x.Candidate)) × (Client.Transcript.sent_candidates log
          ≡ to_server ++ received_candidates k)
  upward sent read =
      let (first, answered, is_offer, is_answered, follows) = client_order in
      let (answer, offered, is_answer, is_offered, replies) = server_order in
      let (s, first_eq) = IsOffer-cases first is_offer in
      let (t, offered_eq) = IsOffer-cases offered is_offered in
      let cs = Client.Transcript.sent_candidates log in
      let ds = received_candidates k in
      let all_sent =
        client_sent_lem c log
        ∙ ap (map (packet c))
            (follows.sent ∙ ap (λ ss. map (λ i. client_ice i) cs ++ ss) first_eq) in
      let all_received =
        server_received_lem c k
        ∙ ap (map (packet c))
            (replies.received ∙ ap (λ ss. map (λ i. client_ice i) ds ++ ss) offered_eq) in
      up_received c lawful late early cs ds s t (sym all_sent ∙ sent)
        (subst (AllRead (signaling c) early) all_received read)

  pub downward :
      sent_packets (map (server_use c) k) ≡ late ++ early
      → AllRead (signaling c) early (received_packets (map (client_use c) log))
      → (to_client : List (Option (RtcMessage x))) × (sent_messages k
          ≡ to_client ++ received_messages log)
  downward sent read =
      let (first, answered, is_offer, is_answered, follows) = client_order in
      let (answer, offered, is_answer, is_offered, replies) = server_order in
      let (a, answer_eq) = IsAnswer-cases answer is_answer in
      let (b, ices, answered_eq, all) = IsAnswered-cases answered is_answered in
      let ms = sent_messages k in
      let ns = server_ices log in
      let all_sent =
        server_sent_lem c k
        ∙ ap (map (packet c))
            (replies.sent ∙ ap (λ ss. map (λ m. server_ice m) ms ++ ss) answer_eq) in
      let received : client_received log
          ≡ map (λ m. server_ice m) ns ++ (message (sdp_answer b) ∷ ices) =
        follows.received ∙ ap (λ ss. map (λ m. server_ice m) ns ++ ss) answered_eq in
      let (new, cut, none_early) =
        down_received c lawful late early ms ns a b ices all (sym all_sent ∙ sent) (
          subst (AllRead (signaling c) early)
            (client_received_lem c log ∙ ap (map (packet c)) received) read) in
      let got : received_messages log ≡ ns =
        sym (candidates-received log)
        ∙ ap candidates (
            received
            ∙ ap (λ ss. map (λ m. server_ice m) ns ++ (message (sdp_answer b) ∷ ss)) none_early)
        ∙ candidates-answered ns b in
      (new, cut ∙ ap (◌++◌ new) (sym got))
