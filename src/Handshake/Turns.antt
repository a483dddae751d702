-- ===== src/Handshake/Turns.antt =====
-- The loops of `Client` and `Server` take the turns of `Protocol`.
use mangle_webrtc.Common.{◌≡◌, false, if◌then◌else◌, Option, none, some, List, ◌∷◌, ok, arith}
use mangle_webrtc.Signaling.{Externals, ice, Branch, ice_to_send, received}
use mangle_webrtc.Handshake.Protocol.{Side, send_turn, receive_turn}
use mangle_webrtc.Client
use mangle_webrtc.Server

-- A turn of a side: it sends what was gathered, or receives what has come in.
pub data Turn (S R : Type 0) : Type 0 where
  sends : Option S → List (Option S) → Turn S R
  receives : Option R → Turn S R

module _ {S R : Type 0} where
  abbrev pub branch : Turn S R → Branch
  branch (sends c rest) = ice_to_send
  branch (receives c) = received

  abbrev pub take_turn : Turn S R → Side S R → Side S R
  take_turn (sends c rest) s = send_turn s c rest
  take_turn (receives c) s = receive_turn s c

-- Where the calls of a turn succeed, with that turn's candidate: the log behind them.
abbrev pub ClientTurn :
    {x : Externals}
    → Client.World x
    → Turn x.Candidate x.CandidateInit
    → List (Client.Event x)
    → List (Client.Event x)
    → Type 0
ClientTurn w (sends c rest) h k =
    (w.ice_recv h ≡ some c)
    × (w.send_ice c (Client.ice_recv (some c) ∷ h) ≡ ok tt)
    × (k ≡ Client.send_ice c (ok tt) ∷ Client.ice_recv (some c) ∷ h)
ClientTurn w (receives none) h k = (w.recv_ice h ≡ ok none) × (k ≡ Client.recv_ice (ok none) ∷ h)
ClientTurn w (receives (some j)) h k =
    (w.recv_ice h ≡ ok (some (ice j)))
    × (w.add_ice_candidate j (Client.recv_ice (ok (some (ice j))) ∷ h) ≡ ok tt)
    × (k ≡ Client.add_ice_candidate j (ok tt) ∷ Client.recv_ice (ok (some (ice j))) ∷ h)

-- The server's peer gathers `Candidate`s, and what is sent of them is their serializable form.
abbrev pub ServerTurn :
    {x : Externals}
    → Server.World x
    → Turn x.CandidateInit x.Candidate
    → List (Server.Event x)
    → List (Server.Event x)
    → Type 0
ServerTurn w (sends none rest) h k =
    (w.ice_recv h ≡ some none)
    × (w.send_ice none (Server.ice_recv (some none) ∷ h) ≡ ok tt)
    × (k ≡ Server.send_ice none (ok tt) ∷ Server.ice_recv (some none) ∷ h)
ServerTurn {x} w (sends (some j) rest) h k =
    (c : x.Candidate) × (w.ice_recv h ≡ some (some c))
    × (x.to_json c ≡ ok j)
    × (w.send_ice (some (ice j)) (Server.ice_recv (some (some c)) ∷ h) ≡ ok tt)
    × (k ≡ Server.send_ice (some (ice j)) (ok tt) ∷ Server.ice_recv (some (some c)) ∷ h)
ServerTurn w (receives none) h k = (w.recv_ice h ≡ ok none) × (k ≡ Server.recv_ice (ok none) ∷ h)
ServerTurn {x} w (receives (some c)) h k =
    (j : x.CandidateInit) × (w.recv_ice h ≡ ok (some c))
    × (x.to_json c ≡ ok j)
    × (w.add_ice_candidate j (Server.recv_ice (ok (some c)) ∷ h) ≡ ok tt)
    × (k ≡ Server.add_ice_candidate j (ok tt) ∷ Server.recv_ice (ok (some c)) ∷ h)

-- The client's loop takes the turns of its side: from the side's flags, a turn whose calls succeed
-- leads to the flags behind it, and the loop is left exactly where the side has left it.
pub exchange-take_turn :
    {x : Externals} (w : Client.World x) (turn : Turn x.Candidate x.CandidateInit)
    (s : Side x.Candidate x.CandidateInit) (branches : List Branch) (h k : List (Client.Event x))
    → s.left ≡ false
    → ClientTurn w turn h k
    → let t = take_turn turn s in
      Client.exchange w (branch turn ∷ branches) s.done_sending_ice s.done_receiving_ice h ≡ (
        if t.left
        then (ok tt, k)
        else Client.exchange w branches t.done_sending_ice t.done_receiving_ice k)
unfolding Client.exchange Client.send_gathered Client.receive_ice Client.add_received
    Client.unwrap_gathered
exchange-take_turn w (sends none rest) s branches h k stays calls = ground arith
exchange-take_turn w (sends (some c) rest) s branches h k stays calls = ground arith
exchange-take_turn w (receives none) s branches h k stays calls = ground arith
exchange-take_turn w (receives (some c)) s branches h k stays calls = ground arith

-- The server's loop takes the turns of its side: from the side's flags, a turn whose calls succeed
-- leads to the flags behind it, and the loop is left exactly where the side has left it.
pub exchange-take_turn_server :
    {x : Externals} (w : Server.World x) (turn : Turn x.CandidateInit x.Candidate)
    (s : Side x.CandidateInit x.Candidate) (branches : List Branch) (h k : List (Server.Event x))
    → s.left ≡ false
    → ServerTurn w turn h k
    → let t = take_turn turn s in
      Server.exchange w (branch turn ∷ branches) s.done_sending_ice s.done_receiving_ice h ≡ (
        if t.left
        then (ok tt, k)
        else Server.exchange w branches t.done_sending_ice t.done_receiving_ice k)
unfolding Server.exchange Server.send_gathered Server.receive_ice Server.add_received
    Server.unwrap_gathered Server.unwrap_ice
exchange-take_turn_server w (sends none rest) s branches h k stays calls = ground arith
exchange-take_turn_server w (sends (some c) rest) s branches h k stays calls = ground arith
exchange-take_turn_server w (receives none) s branches h k stays calls = ground arith
exchange-take_turn_server w (receives (some c)) s branches h k stays calls = ground arith
