-- ===== src/Server.antt =====
-- upgrade2webrtc/src/server.rs: the task that serves one connection in `UpgradeWebRTCServer::run`.
-- `Run` has the loop that accepts connections.
pub mod Accounts
pub mod Exchange
pub mod Run
pub mod Closing
pub mod Handover
pub mod Handed
mod Handovers
mod Tests
use mangle_webrtc.Common.{
  Bool, true, false, ◌&&◌, ◌||◌, Option, none, some, is_none, List, [], ◌∷◌, if◌then◌else◌, Result,
  ok, err,
}
use mangle_webrtc.Common.Effects.{Eff, ◌>>=◌, ◌>>◌, pure, stop, emit, ask}
use mangle_webrtc.Transport.{deserialize_error, io_error}
use mangle_webrtc.Signaling.{
  Externals, Recv, RtcMessage, sdp_answer, ice, Branch, ice_to_send, received,
}

pub data ServerError (x : Externals) : Type 0 where
  accept_error : x.AcceptError → ServerError x
  bad_message : x.DecodeError → x.ClientId → ServerError x
  server_io_error : x.IoError → ServerError x
  webrtc_error : x.WebrtcError → ServerError x

-- The calls of the task, each with its arguments and its answer. `peer` is left out of them: a round
-- has one peer.
pub data Event (x : Externals) : Type 0 where
  recv_offer : Recv x x.Sdp → Event x
  new_peer_connection : Result x.WebrtcError (Unit {0}) → Event x
  on_data_channel : x.ClientId → Event x
  on_ice_candidate : Event x
  set_remote_description : x.Sdp → Result x.WebrtcError (Unit {0}) → Event x
  create_answer : Result x.WebrtcError x.Sdp → Event x
  send_answer : RtcMessage x → Result x.IoError (Unit {0}) → Event x
  set_local_description : x.Sdp → Result x.WebrtcError (Unit {0}) → Event x
  ice_recv : Option (Option x.Candidate) → Event x
  send_ice : Option (RtcMessage x) → Result x.IoError (Unit {0}) → Event x
  recv_ice : Recv x (Option x.Candidate) → Event x
  add_ice_candidate : x.CandidateInit → Result x.WebrtcError (Unit {0}) → Event x
  close : Event x
  on_err : ServerError x → Event x
  on_success : x.ClientId → Event x

-- How a task ends, or where it is left: it returned, an `unwrap` panicked, or it still waits.
pub data Exit : Type 0 where
  returned panicked waiting : Exit

-- The answers of what the task calls, from all the calls before: the transport, the peer, and the
-- channel on which the peer's callback sends what it gathered.
pub record World (x : Externals) : Type 0 where
  pub recv_offer : List (Event x) → Recv x x.Sdp
  pub new_peer_connection : List (Event x) → Result x.WebrtcError (Unit {0})
  pub get_id : List (Event x) → x.ClientId
  pub set_remote_description : x.Sdp → List (Event x) → Result x.WebrtcError (Unit {0})
  pub create_answer : List (Event x) → Result x.WebrtcError x.Sdp
  pub send_answer : RtcMessage x → List (Event x) → Result x.IoError (Unit {0})
  pub set_local_description : x.Sdp → List (Event x) → Result x.WebrtcError (Unit {0})
  pub ice_recv : List (Event x) → Option (Option x.Candidate)
  pub send_ice : Option (RtcMessage x) → List (Event x) → Result x.IoError (Unit {0})
  pub recv_ice : List (Event x) → Recv x (Option x.Candidate)
  pub add_ice_candidate : x.CandidateInit → List (Event x) → Result x.WebrtcError (Unit {0})

abbrev pub Task : Externals → Type 0 → Type 0
Task x A = Eff (Event x) Exit A

module _ {x : Externals} {A : Type 0} where
  -- `return on_err(e).await`.
  abbrev pub fail : ServerError x → Task x A
  fail e = do emit (on_err e); stop returned

  -- `returning!(on_err(e).await)`: the peer is closed first.
  abbrev pub close_and_fail : ServerError x → Task x A
  close_and_fail e = do emit close; fail e

  -- The macro `webrtc_unwrap!`.
  abbrev pub webrtc_unwrap : Result x.WebrtcError A → Task x A
  webrtc_unwrap (ok a) = pure a
  webrtc_unwrap (err e) = close_and_fail (webrtc_error e)

  -- What each `Err` of `send_obj` leads to.
  abbrev pub sent_unwrap : Result x.IoError A → Task x A
  sent_unwrap (ok a) = pure a
  sent_unwrap (err e) = close_and_fail (server_io_error e)

-- `ice_to_send.map(|x| x.to_json()).transpose()`, and then `map(RTCMessage::ICE)`.
abbrev pub to_message :
    {x : Externals} → Option x.Candidate → Result x.WebrtcError (Option (RtcMessage x))
to_message none = ok none
to_message {x} (some c) = elim (x.to_json c) [ ok j ↦ ok (some (ice j)) | err e ↦ err e ]

module _ {x : Externals} (w : World x) where
  -- The two errors of `recv_obj` before there is a peer.
  unfoldable pub unwrap_offer : Recv x x.Sdp → Task x x.Sdp
  unwrap_offer (ok offer) = pure offer
  unwrap_offer (err (deserialize_error e)) = λ h. fail (bad_message e (w.get_id h)) h
  unwrap_offer (err (io_error e)) = fail (server_io_error e)

  unfoldable pub unwrap_peer : Result x.WebrtcError (Unit {0}) → Task x (Unit {0})
  unwrap_peer (ok u) = pure tt
  unwrap_peer (err e) = fail (webrtc_error e)

  -- The same two errors with a peer.
  unfoldable pub unwrap_ice : Recv x (Option x.Candidate) → Task x (Option x.Candidate)
  unwrap_ice (ok c) = pure c
  unwrap_ice (err (deserialize_error e)) =
      λ h. close_and_fail (bad_message e (w.get_id (close ∷ h))) h
  unwrap_ice (err (io_error e)) = close_and_fail (server_io_error e)

  -- `ice_receiver.recv().await.unwrap()`.
  unfoldable pub unwrap_gathered : Option (Option x.Candidate) → Task x (Option x.Candidate)
  unwrap_gathered none = stop panicked
  unwrap_gathered (some c) = pure c

  -- The branch of the `select!` that sends a candidate; it answers whether that was the last one.
  unfoldable pub send_gathered : Task x Bool
  unfolding unwrap_gathered
  send_gathered = do
    gathered ← ask w.ice_recv ice_recv
    candidate ← unwrap_gathered gathered
    message ← webrtc_unwrap (to_message candidate)
    result ← ask (w.send_ice message) (send_ice message)
    sent_unwrap result
    pure (is_none message)

  unfoldable pub add_received : Option x.Candidate → Task x Bool
  add_received none = pure true
  add_received (some candidate) = do
    init ← webrtc_unwrap (x.to_json candidate)
    added ← ask (w.add_ice_candidate init) (add_ice_candidate init)
    webrtc_unwrap added
    pure false

  -- The branch that receives a candidate; it answers whether the other side has sent its last one.
  unfoldable pub receive_ice : Task x Bool
  unfolding unwrap_ice add_received
  receive_ice = do
    answer ← ask w.recv_ice recv_ice
    candidate ← unwrap_ice answer
    add_received candidate

  -- The loop over `select!`. The branches that are taken come as a list; where it ends, the task
  -- waits. The loop is left as soon as both sides are done.
  unfoldable pub exchange : List Branch → Bool → Bool → Task x (Unit {0})
  exchange [] done_sending_ice done_receiving_ice = stop waiting
  exchange (ice_to_send ∷ branches) done_sending_ice done_receiving_ice = do
    last ← send_gathered
    if last && done_receiving_ice
        then pure tt
        else exchange branches (last || done_sending_ice) done_receiving_ice
  exchange (received ∷ branches) done_sending_ice done_receiving_ice = do
    last ← receive_ice
    if last && done_sending_ice
        then pure tt
        else exchange branches done_sending_ice (last || done_receiving_ice)

  -- One round of the task up to the exchange of candidates.
  unfoldable pub negotiate : Task x (Unit {0})
  unfolding unwrap_offer unwrap_peer
  negotiate = do
    received_offer ← ask w.recv_offer recv_offer
    offer ← unwrap_offer received_offer
    created ← ask w.new_peer_connection new_peer_connection
    unwrap_peer created
    (λ h. emit (on_data_channel (w.get_id h)) h)
    emit on_ice_candidate
    remote ← ask (w.set_remote_description offer) (set_remote_description offer)
    webrtc_unwrap remote
    answered ← ask w.create_answer create_answer
    answer ← webrtc_unwrap answered
    sent ← ask (w.send_answer (sdp_answer answer)) (send_answer (sdp_answer answer))
    sent_unwrap sent
    local ← ask (w.set_local_description answer) (set_local_description answer)
    webrtc_unwrap local

  -- One round of the task: an offer, and the connection that comes of it.
  unfoldable pub serve_offer : List Branch → Task x (Unit {0})
  serve_offer branches = do
    negotiate
    exchange branches false false
    (λ h. emit (on_success (w.get_id h)) h)

  -- The task: one round after the other, each with the branches that its exchange takes. After the
  -- last of them the task waits for the next offer.
  unfoldable pub serve : List (List Branch) → Task x (Unit {0})
  serve [] = stop waiting
  serve (branches ∷ rounds) = do serve_offer branches; serve rounds
