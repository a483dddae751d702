-- ===== src/Handshake/Protocol.antt =====
-- The exchange of candidates at both ends at once: the loops of `upgrade` in
-- upgrade2webrtc/src/client.rs and of the server's task in upgrade2webrtc/src/server.rs, as two sides
-- that take their turns in any order. A queue in each direction keeps the order of what is sent.
use mathlib.Core.Path.{◌≡◌}
use mangle_webrtc.Common.{
  Bool, true, false, ◌&&◌, ◌||◌, Option, none, some, is_none, List, [], ◌∷◌, ◌++◌,
}

-- One side: what the callback of its peer connection is still going to be called with, the flags of its loop, whether it has
-- left the loop, and the candidates that its peer connection was given. `S` are the candidates that
-- it sends, `R` those that it receives.
pub record Side (S R : Type 0) : Type 0 where
  pub to_gather : List (Option S)
  pub done_sending_ice : Bool
  pub done_receiving_ice : Bool
  pub left : Bool
  pub added : List R

module _ {S R : Type 0} where
  -- The side has sent `c`, and `rest` is still to be gathered.
  abbrev pub send_turn : Side S R → Option S → List (Option S) → Side S R
  send_turn s c rest = record s {
    to_gather = rest;
    done_sending_ice = is_none c || s.done_sending_ice;
    left = is_none c && s.done_receiving_ice;
  }

  abbrev pub receive_turn : Side S R → Option R → Side S R
  receive_turn s none = record s { done_receiving_ice = true; left = s.done_sending_ice }
  receive_turn s (some c) = record s { added = s.added ++ (c ∷ []) }

  -- A side at the head of its loop.
  abbrev pub start : List (Option S) → Side S R
  start to_gather = record {
    to_gather = to_gather;
    done_sending_ice = false;
    done_receiving_ice = false;
    left = false;
    added = [];
  }

-- Both sides, and what is on its way to each of them, the oldest first.
pub record System (C S : Type 0) : Type 0 where
  pub client : Side C S
  pub server : Side S C
  pub to_server : List (Option C)
  pub to_client : List (Option S)

-- A turn of one of the sides that is still in its loop.
pub data Step {C S : Type 0} (s t : System C S) : Type 0 where
  client_sends :
      (c : Option C) (rest : List (Option C))
      → s.client.left ≡ false
      → s.client.to_gather ≡ c ∷ rest
      → t ≡ record s { client = send_turn s.client c rest; to_server = s.to_server ++ (c ∷ []) }
      → Step s t
  server_sends :
      (c : Option S) (rest : List (Option S))
      → s.server.left ≡ false
      → s.server.to_gather ≡ c ∷ rest
      → t ≡ record s { server = send_turn s.server c rest; to_client = s.to_client ++ (c ∷ []) }
      → Step s t
  client_receives :
      (c : Option S) (rest : List (Option S))
      → s.client.left ≡ false
      → s.to_client ≡ c ∷ rest
      → t ≡ record s { client = receive_turn s.client c; to_client = rest }
      → Step s t
  server_receives :
      (c : Option C) (rest : List (Option C))
      → s.server.left ≡ false
      → s.to_server ≡ c ∷ rest
      → t ≡ record s { server = receive_turn s.server c; to_server = rest }
      → Step s t

-- The two lists are what the callbacks of the peer connections are going to be called with.
abbrev pub begin : {C S : Type 0} → List (Option C) → List (Option S) → System C S
begin client_gathers server_gathers = record {
  client = start client_gathers;
  server = start server_gathers;
  to_server = [];
  to_client = [];
}

pub data Reach {C S : Type 0} (s : System C S) : System C S → Type 0 where
  here : Reach s s
  next : {t u : System C S} → Reach s t → Step t u → Reach s u
