-- ===== src/Handshake/Tests.antt =====
-- A client and a server that reach each other, each with one candidate.
use Prim.Native.String.{String}
use mangle_webrtc.Common.{ℕ, ◌+◌, Option, none, some, List, [], ◌∷◌, ok}
use mangle_webrtc.Channels.{RtcDataChannelInit, tcp_data_channel}
use mangle_webrtc.Signaling.{
  Externals, RtcMessage, sdp_answer, ice, Branch, ice_to_send, received, Recv,
}
use mangle_webrtc.Client
use mangle_webrtc.Server

abbrev pub plain : Externals
plain = record {
  Sdp = ℕ;
  Candidate = ℕ;
  CandidateInit = ℕ;
  WebrtcError = ℕ;
  IoError = ℕ;
  DecodeError = ℕ;
  AcceptError = ℕ;
  ClientId = ℕ;
  DataChannel = ℕ;
  to_json = λ c. ok (c + 100);
}

-- Each side gathers a candidate, 5 at the client and 6 at the server, and then the end of them; each
-- receives what the other sends.
abbrev client_gathers : List (Client.Event plain) → Option (Option ℕ)
client_gathers (Client.send_ice c r ∷ log) = some none
client_gathers _ = some (some 5)

abbrev client_receives : List (Client.Event plain) → Recv plain (Option (RtcMessage plain))
client_receives (Client.add_ice_candidate c r ∷ log) = ok none
client_receives _ = ok (some (ice 106))

abbrev pub client : Client.World plain
client = record {
  new_peer_connection = λ h. ok tt;
  create_data_channel = λ label option h. ok 3;
  create_offer = λ h. ok 1;
  send_offer = λ s h. ok tt;
  set_local_description = λ s h. ok tt;
  recv_message = λ h. ok (sdp_answer 2);
  set_remote_description = λ s h. ok tt;
  add_ice_candidate = λ i h. ok tt;
  ice_recv = client_gathers;
  send_ice = λ c h. ok tt;
  recv_ice = client_receives;
}

abbrev server_gathers : List (Server.Event plain) → Option (Option ℕ)
server_gathers (Server.send_ice c r ∷ log) = some none
server_gathers _ = some (some 6)

abbrev server_receives : List (Server.Event plain) → Recv plain (Option ℕ)
server_receives (Server.add_ice_candidate c r ∷ log) = ok none
server_receives _ = ok (some 5)

abbrev pub server : Server.World plain
server = record {
  recv_offer = λ h. ok 1;
  new_peer_connection = λ h. ok tt;
  get_id = λ h. 0;
  set_remote_description = λ s h. ok tt;
  create_answer = λ h. ok 2;
  send_answer = λ m h. ok tt;
  set_local_description = λ s h. ok tt;
  ice_recv = server_gathers;
  send_ice = λ m h. ok tt;
  recv_ice = server_receives;
  add_ice_candidate = λ i h. ok tt;
}

abbrev pub turns : List Branch
turns = ice_to_send ∷ ice_to_send ∷ received ∷ received ∷ []

abbrev pub configs : List (String × RtcDataChannelInit)
configs = ("test", tcp_data_channel) ∷ []
