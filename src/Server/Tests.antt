-- ===== src/Server/Tests.antt =====
-- A round of the task on a concrete log, and the theorems at concrete inputs.
use mangle_webrtc.Common.{
  ℕ, ◌≡◌, inl, refl, ◌&&◌, Option, none, some, List, [], ◌∷◌, ◌++◌, ok, err, is_ok,
}
use mangle_webrtc.Signaling.{Externals, Branch, ice_to_send, received, ice}
use mangle_webrtc.Server.{
  Event, recv_ice, World, negotiate, send_gathered, receive_ice, unwrap_offer, unwrap_peer,
  unwrap_ice, add_received, exchange, serve_offer, serve,
}
use mangle_webrtc.Server.Accounts.{live, errors, Settles, serve_accounts}
use mangle_webrtc.Server.Exchange.{
  gathered, sent_messages, received_candidates, added_candidates, ended, Messages, Adds,
  serve_offer_exchanges,
}
use mangle_webrtc.Server.Run.{
  Arrival, accepted, accept_failed, close_requested, spawned, reported, aborted, awaited, run,
}

abbrev plain : Externals
plain = record {
  Sdp = ℕ;
  Candidate = ℕ;
  CandidateInit = ℕ;
  WebrtcError = ℕ;
  IoError = ℕ;
  DecodeError = ℕ;
  AcceptError = ℕ;
  ClientId = ℕ;
  DataChannel = ℕ;
  to_json = λ c. ok c;
}

-- The peer gathers the candidate 5, and the end of them after a message came in.
abbrev gather : List (Event plain) → Option (Option ℕ)
gather (recv_ice c ∷ log) = some none
gather _ = some (some 5)

abbrev quiet : World plain
quiet = record {
  recv_offer = λ h. ok 1;
  new_peer_connection = λ h. ok tt;
  get_id = λ h. 0;
  set_remote_description = λ s h. ok tt;
  create_answer = λ h. ok 2;
  send_answer = λ m h. ok tt;
  set_local_description = λ s h. ok tt;
  ice_recv = gather;
  send_ice = λ m h. ok tt;
  recv_ice = λ h. ok none;
  add_ice_candidate = λ i h. ok tt;
}

-- The peer does not take the offer.
abbrev refusing : World plain
refusing = record quiet { set_remote_description = λ s h. err 9 }

abbrev turns : List Branch
turns = ice_to_send ∷ received ∷ ice_to_send ∷ []

round_done : (serve_offer quiet turns []).0 ≡ ok tt
unfolding serve_offer negotiate exchange send_gathered receive_ice unwrap_offer unwrap_peer
    unwrap_ice add_received
round_done = refl

round_sends : sent_messages (serve_offer quiet turns []).1 ≡ none ∷ some (ice 5) ∷ []
unfolding serve_offer negotiate exchange send_gathered receive_ice unwrap_offer unwrap_peer
    unwrap_ice add_received
round_sends = refl

serve_offer_exchanges_example :
    let (r, k) = serve_offer quiet turns [] in
    ((ended (gathered k) && ended (received_candidates k)) ≡ is_ok r)
    × Messages plain (gathered k) (sent_messages k)
    × Adds plain (received_candidates k) (added_candidates k)
serve_offer_exchanges_example = serve_offer_exchanges quiet turns [] (inl round_done)

refused_closes :
    (live (serve refusing (turns ∷ []) []).1 ≡ 0) × (errors (serve refusing (turns ∷ []) []).1 ≡ 1)
unfolding serve serve_offer negotiate unwrap_offer unwrap_peer
refused_closes = (refl, refl)

serve_accounts_example : Settles 0 (serve refusing (turns ∷ []) [])
serve_accounts_example = serve_accounts refusing (turns ∷ []) [] refl

abbrev before : List (Arrival ℕ ℕ)
before = accepted 1 ∷ accept_failed 7 ∷ accepted 2 ∷ []

abbrev after : List (Arrival ℕ ℕ)
after = accepted 3 ∷ []

run-before :
    run (before ++ (close_requested ∷ after))
    ≡ spawned 1 ∷ reported 7 ∷ spawned 2 ∷ aborted 1 ∷ aborted 2 ∷ awaited 1 ∷ awaited 2 ∷ []
unfolding run
run-before = refl
