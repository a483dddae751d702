-- ===== src/Handshake/Flow.antt =====
-- The invariant of the exchange of `Protocol`: where the candidates of each direction are.
use mathlib.Core.List.{append_assoc, append-nil}
use mangle_webrtc.Common.{
  ◌≡◌, refl, Bool, true, false, ◌&&◌, Option, none, some, is_none, List, [], ◌∷◌, ◌++◌, arith,
}
use mangle_webrtc.Handshake.Protocol.{
  Side, send_turn, receive_turn, start, System, Step, client_sends, server_sends, client_receives,
  server_receives, begin, Reach, here, next,
}

abbrev pub is_empty : {A : Type 0} → List A → Bool
is_empty [] = true
is_empty (x ∷ xs) = false

module _ {C : Type 0} where
  abbrev pub candidates : List (Option C) → List C
  candidates [] = []
  candidates (none ∷ cs) = candidates cs
  candidates (some c ∷ cs) = c ∷ candidates cs

  -- The end of the candidates is the last element, and is nowhere else. The empty list is what is
  -- left behind the end.
  abbrev pub EndsOnce : List (Option C) → Type 0
  EndsOnce [] = Unit {0}
  EndsOnce (c ∷ cs) = (is_none c ≡ is_empty cs) × EndsOnce cs

  EndsOnce-append : (xs ys : List (Option C)) → EndsOnce (xs ++ ys) → EndsOnce ys
  EndsOnce-append [] ys e = e
  EndsOnce-append (x ∷ xs) ys e = EndsOnce-append xs ys e.1

  -- A peer connection that gathers the candidates `cs`, and then the end of them.
  abbrev pub gathering : List C → List (Option C)
  gathering [] = none ∷ []
  gathering (c ∷ cs) = some c ∷ gathering cs

  gathering-start :
      (all : List C)
      → EndsOnce (gathering all)
        × (is_empty (gathering all) ≡ false)
        × (candidates (gathering all) ≡ all)
  gathering-start [] = ((refl, tt), refl, refl)
  gathering-start (c ∷ all) = ground (arith, gathering-start all)

module _ {C S : Type 0} where
  -- One direction: `left` is what the receiver is still to get, on its way or to be gathered.
  pub record Flow (all : List C) (sender : Side C S) (receiver : Side S C) (queue : List (Option C))
      : Type 0 where
    pub ends : EndsOnce (queue ++ sender.to_gather)
    pub sent : sender.done_sending_ice ≡ is_empty sender.to_gather
    pub arrived : receiver.done_receiving_ice ≡ is_empty (queue ++ sender.to_gather)
    pub kept : receiver.added ++ candidates (queue ++ sender.to_gather) ≡ all

  -- What a sender and a receiver do to a direction.
  sender-Flow :
      (all : List C) (s : Side C S) (r : Side S C) (queue rest : List (Option C)) (c : Option C)
      → s.to_gather ≡ c ∷ rest
      → Flow all s r queue
      → Flow all (send_turn s c rest) r (queue ++ (c ∷ []))
  sender-Flow all s r queue rest c e f =
      ground (arith, e, append_assoc queue (c ∷ []) rest, EndsOnce-append queue s.to_gather f.ends)

  receiver-Flow :
      (all : List C) (s : Side C S) (r : Side S C) (queue rest : List (Option C)) (c : Option C)
      → queue ≡ c ∷ rest
      → Flow all s r queue
      → Flow all s (receive_turn r c) rest
  receiver-Flow all s r queue rest none e f = ground (arith, e, f.ends, append-nil r.added)
  receiver-Flow all s r queue rest (some c) e f =
      ground (arith, e, append_assoc r.added (c ∷ []) (candidates (rest ++ s.to_gather)))

  -- A turn keeps the direction in which its side does the other thing.
  sends-Flow :
      (all : List C) (s : Side S C) (r : Side C S) (queue : List (Option C))
      (rest : List (Option S)) (c : Option S)
      → Flow all r s queue
      → Flow all r (send_turn s c rest) queue
  sends-Flow all s r queue rest c f = record {
    ends = f.ends;
    sent = f.sent;
    arrived = f.arrived;
    kept = f.kept;
  }

  receives-Flow :
      (all : List C) (s : Side C S) (r : Side S C) (queue : List (Option C)) (c : Option S)
      → Flow all s r queue
      → Flow all (receive_turn s c) r queue
  receives-Flow all s r queue none f = record {
    ends = f.ends;
    sent = f.sent;
    arrived = f.arrived;
    kept = f.kept;
  }
  receives-Flow all s r queue (some c) f = record {
    ends = f.ends;
    sent = f.sent;
    arrived = f.arrived;
    kept = f.kept;
  }

  -- The flags and the loop agree behind each turn.
  abbrev pub Left : Side C S → Type 0
  Left s = s.left ≡ (s.done_sending_ice && s.done_receiving_ice)

  send_turn-Left :
      (all : List C) (s : Side C S) (r : Side S C) (queue rest : List (Option C)) (c : Option C)
      → s.to_gather ≡ c ∷ rest
      → Flow all s r queue
      → Left (send_turn s c rest)
  send_turn-Left all s r queue rest c e f = ground (arith, e, f.sent)

  receive_turn-Left : (s : Side C S) (c : Option S) → Left s → Left (receive_turn s c)
  receive_turn-Left s none l = ground arith
  receive_turn-Left s (some c) l = l

  start-Flow :
      (all : List C) (others : List (Option S)) → Flow all (start (gathering all)) (start others) []
  start-Flow all others = ground (arith, gathering-start all)

module _ {C S : Type 0} where
  -- Both directions, and when a side has left its loop.
  pub record Agrees (client_all : List C) (server_all : List S) (s : System C S) : Type 0 where
    pub up : Flow client_all s.client s.server s.to_server
    pub down : Flow server_all s.server s.client s.to_client
    pub client_left : Left s.client
    pub server_left : Left s.server

  Step-Agrees :
      (client_all : List C) (server_all : List S) (s t : System C S)
      → Step s t
      → Agrees client_all server_all s
      → Agrees client_all server_all t
  Step-Agrees ca sa s t (client_sends c rest open' e u) a = rw u (record {
    up = sender-Flow ca s.client s.server s.to_server rest c e a.up;
    down = sends-Flow sa s.client s.server s.to_client rest c a.down;
    client_left = send_turn-Left ca s.client s.server s.to_server rest c e a.up;
    server_left = a.server_left;
  })
  Step-Agrees ca sa s t (server_sends c rest open' e u) a = rw u (record {
    up = sends-Flow ca s.server s.client s.to_server rest c a.up;
    down = sender-Flow sa s.server s.client s.to_client rest c e a.down;
    client_left = a.client_left;
    server_left = send_turn-Left sa s.server s.client s.to_client rest c e a.down;
  })
  Step-Agrees ca sa s t (client_receives c rest open' e u) a = rw u (record {
    up = receives-Flow ca s.client s.server s.to_server c a.up;
    down = receiver-Flow sa s.server s.client s.to_client rest c e a.down;
    client_left = receive_turn-Left s.client c a.client_left;
    server_left = a.server_left;
  })
  Step-Agrees ca sa s t (server_receives c rest open' e u) a = rw u (record {
    up = receiver-Flow ca s.client s.server s.to_server rest c e a.up;
    down = receives-Flow sa s.server s.client s.to_client c a.down;
    client_left = a.client_left;
    server_left = receive_turn-Left s.server c a.server_left;
  })

  pub Reach-Agrees :
      (client_all : List C) (server_all : List S) (s : System C S)
      → Reach (begin (gathering client_all) (gathering server_all)) s
      → Agrees client_all server_all s
  Reach-Agrees ca sa s here = record {
    up = start-Flow ca (gathering sa);
    down = start-Flow sa (gathering ca);
    client_left = refl;
    server_left = refl;
  }
  Reach-Agrees ca sa s (next {t} r st) = Step-Agrees ca sa t s st (Reach-Agrees ca sa t r)
