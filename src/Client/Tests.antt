-- ===== src/Client/Tests.antt =====
-- An `upgrade` on a concrete log, and the theorems at concrete inputs.
use Prim.Native.String.{String}
use mangle_webrtc.Common.{ℕ, ◌≡◌, refl, Option, none, some, List, [], ◌∷◌, ok, err}
use mangle_webrtc.Channels.{RtcDataChannelInit, tcp_data_channel}
use mangle_webrtc.Signaling.{
  Externals, RtcMessage, sdp_answer, ice, Branch, ice_to_send, received, Recv,
}
use mangle_webrtc.Client
use mangle_webrtc.Client.Failures.{Reports, failures, upgrade_fails}
use mangle_webrtc.Client.Waiting.{Waits, upgrade-Waits}
use mangle_webrtc.Client.Transcript.{added_candidates}

abbrev plain : Externals
plain = record {
  Sdp = ℕ;
  Candidate = ℕ;
  CandidateInit = ℕ;
  WebrtcError = ℕ;
  IoError = ℕ;
  DecodeError = ℕ;
  AcceptError = ℕ;
  ClientId = ℕ;
  DataChannel = ℕ;
  to_json = λ c. ok c;
}

-- The server sends the candidate 8 ahead of its answer, and the end of its candidates later.
abbrev messages : List (Client.Event plain) → Recv plain (RtcMessage plain)
messages (Client.recv_message m ∷ log) = ok (sdp_answer 2)
messages _ = ok (ice 8)

abbrev gather : List (Client.Event plain) → Option (Option ℕ)
gather (Client.recv_ice c ∷ log) = some none
gather _ = some (some 5)

abbrev quiet : Client.World plain
quiet = record {
  new_peer_connection = λ h. ok tt;
  create_data_channel = λ label option h. ok 3;
  create_offer = λ h. ok 1;
  send_offer = λ s h. ok tt;
  set_local_description = λ s h. ok tt;
  recv_message = messages;
  set_remote_description = λ s h. ok tt;
  add_ice_candidate = λ i h. ok tt;
  ice_recv = gather;
  send_ice = λ c h. ok tt;
  recv_ice = λ h. ok none;
}

-- The connection breaks when the offer is sent.
abbrev broken : Client.World plain
broken = record quiet { send_offer = λ s h. err 9 }

abbrev turns : List Branch
turns = ice_to_send ∷ received ∷ ice_to_send ∷ []

abbrev configs : List (String × RtcDataChannelInit)
configs = ("test", tcp_data_channel) ∷ []

upgraded : (Client.upgrade quiet 2 turns configs []).0 ≡ ok (("test", 3) ∷ [])
unfolding Client.upgrade Client.offer_channels Client.create_channels Client.make_offer
    Client.await_answer Client.finish_upgrade Client.accept_answer Client.add_candidates
    Client.exchange Client.send_gathered Client.receive_ice
upgraded = refl

early_candidate : added_candidates (Client.upgrade quiet 2 turns configs []).1 ≡ 8 ∷ []
unfolding Client.upgrade Client.offer_channels Client.create_channels Client.make_offer
    Client.await_answer Client.finish_upgrade Client.accept_answer Client.add_candidates
    Client.exchange Client.send_gathered Client.receive_ice
early_candidate = refl

broken_fails : failures (Client.upgrade broken 2 turns configs []).1 ≡ Client.client_io_error 9 ∷ []
unfolding Client.upgrade Client.offer_channels Client.create_channels Client.make_offer
broken_fails = refl

upgrade_fails_example : Reports (Client.upgrade broken 2 turns configs [])
upgrade_fails_example = upgrade_fails broken 2 turns configs

-- The first branch alone: the candidate 5 is sent, and the loop waits for the next.
still_waiting : (Client.upgrade quiet 2 (ice_to_send ∷ []) configs []).0 ≡ err Client.waiting
unfolding Client.upgrade Client.offer_channels Client.create_channels Client.make_offer
    Client.await_answer Client.finish_upgrade Client.accept_answer Client.add_candidates
    Client.exchange Client.send_gathered
still_waiting = refl

upgrade-Waits_example : Waits (Client.upgrade quiet 2 (ice_to_send ∷ []) configs [])
upgrade-Waits_example = upgrade-Waits quiet 2 (ice_to_send ∷ []) configs
