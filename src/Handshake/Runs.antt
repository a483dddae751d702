-- ===== src/Handshake/Runs.antt =====
-- A run of the exchange with one candidate on each side, and the theorems at this run.
use mangle_webrtc.Common.{
  ℕ, ◌<◌, ◌≤◌, length, ◌≡◌, refl, ◌⊎◌, true, false, if◌then◌else◌, none, some, List, [], ◌∷◌, ok,
}
use mangle_webrtc.Signaling.{ice, ice_to_send, received}
use mangle_webrtc.Handshake.Protocol.{
  Side, System, Step, client_sends, server_sends, client_receives, server_receives, start, begin,
  Reach, here, next,
}
use mangle_webrtc.Handshake.Flow.{gathering}
use mangle_webrtc.Handshake.Progress.{steps, Reach-ends}
use mangle_webrtc.Handshake.Late.{late_begin-progress, late_begin-left}
use mangle_webrtc.Handshake.Turns.{
  Turn, sends, take_turn, exchange-take_turn, exchange-take_turn_server,
}
use mangle_webrtc.Client
use mangle_webrtc.Server
use mangle_webrtc.Handshake.Tests.{plain, client, server}

abbrev first : System ℕ ℕ
first = begin (gathering (5 ∷ [])) (gathering (6 ∷ []))

-- The client has sent its candidate.
one_sent : Reach first (record first {
  client = record (start {S = ℕ} {R = ℕ} (none ∷ [])) { left = false };
  to_server = some 5 ∷ [];
})
one_sent = next here (client_sends (some 5) (none ∷ []) refl refl refl)

abbrev finished : List ℕ → List ℕ → Side ℕ ℕ
finished gathered added = record {
  to_gather = [];
  done_sending_ice = true;
  done_receiving_ice = true;
  left = true;
  added = added;
}

abbrev last : System ℕ ℕ
last = record {
  client = finished (5 ∷ []) (6 ∷ []);
  server = finished (6 ∷ []) (5 ∷ []);
  to_server = [];
  to_client = [];
}

all_turns : Reach first last
all_turns =
    next
      (next
        (next
          (next
            (next
              (next
                (next (next here (client_sends (some 5) (none ∷ []) refl refl refl))
                  (server_receives (some 5) [] refl refl refl))
                (client_sends none [] refl refl refl))
              (server_sends (some 6) (none ∷ []) refl refl refl))
            (server_sends none [] refl refl refl))
          (server_receives none [] refl refl refl))
        (client_receives (some 6) (none ∷ []) refl refl refl))
      (client_receives none [] refl refl refl)

-- The client's peer connection has gathered 4 before 5, when there was no callback.
late_begin-progress_example :
    ((1 ≤ 2)
      × (length last.to_server ≤ 3)
      × (length last.to_client ≤ 2)
      × (((last.client.left ≡ true) × (last.server.left ≡ true))
          ⊎ ((t : System ℕ ℕ) × Step last t)))
    ⊎ ((2 < 1) × (last.client.left ≡ false) × (last.server.left ≡ false))
late_begin-progress_example = late_begin-progress 1 (4 ∷ 5 ∷ []) (6 ∷ []) last all_turns

late_begin-left_example :
    (1 ≤ 2)
    × (last.server.added ≡ 5 ∷ [])
    × (last.client.added ≡ 6 ∷ [])
    × (last.to_server ≡ [])
    × (last.to_client ≡ [])
late_begin-left_example = late_begin-left 1 (4 ∷ 5 ∷ []) (6 ∷ []) last all_turns refl refl

Reach-ends_example :
    (steps all_turns < 8)
    ⊎ ((steps all_turns ≡ 8) × (last.client.left ≡ true) × (last.server.left ≡ true))
Reach-ends_example = Reach-ends (5 ∷ []) (6 ∷ []) last all_turns

-- Each end sends the candidate that it gathers first.
abbrev at_start : Side ℕ ℕ
at_start = start (some 5 ∷ none ∷ [])

abbrev client_sends_5 : Turn ℕ ℕ
client_sends_5 = sends (some 5) (none ∷ [])

abbrev client_log : List (Client.Event plain)
client_log = Client.send_ice (some 5) (ok tt) ∷ Client.ice_recv (some (some 5)) ∷ []

exchange-take_turn_example :
    let t = take_turn client_sends_5 at_start in
    Client.exchange client (ice_to_send ∷ received ∷ []) false false [] ≡ (
      if t.left
      then (ok tt, client_log)
      else Client.exchange client
          (received ∷ [])
          t.done_sending_ice
          t.done_receiving_ice
          client_log)
exchange-take_turn_example =
    exchange-take_turn client client_sends_5 at_start (received ∷ []) [] client_log refl
      (refl, refl, refl)

abbrev server_sends_106 : Turn ℕ ℕ
server_sends_106 = sends (some 106) (none ∷ [])

abbrev server_log : List (Server.Event plain)
server_log = Server.send_ice (some (ice 106)) (ok tt) ∷ Server.ice_recv (some (some 6)) ∷ []

exchange-take_turn_server_example :
    let t = take_turn server_sends_106 at_start in
    Server.exchange server (ice_to_send ∷ received ∷ []) false false [] ≡ (
      if t.left
      then (ok tt, server_log)
      else Server.exchange server
          (received ∷ [])
          t.done_sending_ice
          t.done_receiving_ice
          server_log)
exchange-take_turn_server_example =
    exchange-take_turn_server server server_sends_106 at_start (received ∷ []) [] server_log refl
      (6, refl, refl, refl, refl)
