-- ===== src/Client.antt =====
-- upgrade2webrtc/src/client.rs: `UpgradeWebRTCClient::upgrade`.
pub mod Failures
pub mod Transcript
pub mod Exchange
pub mod Waiting
mod Tests
use Prim.Native.String.{String}
use mangle_webrtc.Common.{
  ℕ, zero, suc, Bool, true, false, ◌&&◌, ◌||◌, Option, none, some, is_none, List, [], ◌∷◌, ◌++◌,
  if◌then◌else◌, Result, ok, err,
}
use mangle_webrtc.Common.Effects.{Eff, ◌>>=◌, ◌>>◌, pure, stop, emit, ask}
use mangle_webrtc.Transport.{RecvError, deserialize_error, io_error}
use mangle_webrtc.Channels.{RtcDataChannelInit}
use mangle_webrtc.Signaling.{
  Externals, RtcMessage, sdp_answer, ice, Branch, ice_to_send, received, Recv,
}

pub data ClientError (x : Externals) : Type 0 where
  webrtc_error : x.WebrtcError → ClientError x
  client_io_error : x.IoError → ClientError x
  client_deserialize_error : x.DecodeError → ClientError x
  unexpected_message : ClientError x

-- `From<RecvError<DE>> for ClientError<DE>`. The other two `From`s are constructors.
abbrev pub from_recv_error : {x : Externals} → RecvError x.DecodeError x.IoError → ClientError x
from_recv_error (deserialize_error e) = client_deserialize_error e
from_recv_error (io_error e) = client_io_error e

-- The calls of `upgrade`, each with its arguments and its answer.
pub data Event (x : Externals) : Type 0 where
  new_peer_connection : Result x.WebrtcError (Unit {0}) → Event x
  create_data_channel : String → RtcDataChannelInit → Result x.WebrtcError x.DataChannel → Event x
  create_offer : Result x.WebrtcError x.Sdp → Event x
  send_offer : x.Sdp → Result x.IoError (Unit {0}) → Event x
  set_local_description : x.Sdp → Result x.WebrtcError (Unit {0}) → Event x
  recv_message : Recv x (RtcMessage x) → Event x
  set_remote_description : x.Sdp → Result x.WebrtcError (Unit {0}) → Event x
  add_ice_candidate : x.CandidateInit → Result x.WebrtcError (Unit {0}) → Event x
  on_ice_candidate : Event x
  ice_recv : Option (Option x.Candidate) → Event x
  send_ice : Option x.Candidate → Result x.IoError (Unit {0}) → Event x
  recv_ice : Recv x (Option (RtcMessage x)) → Event x

-- `upgrade` returns an error, an `unwrap` panics, or it still waits.
pub data Exit (x : Externals) : Type 0 where
  failed : ClientError x → Exit x
  panicked : Exit x
  waiting : Exit x

-- The answers of what `upgrade` calls, from all the calls before.
pub record World (x : Externals) : Type 0 where
  pub new_peer_connection : List (Event x) → Result x.WebrtcError (Unit {0})
  pub create_data_channel :
      String → RtcDataChannelInit → List (Event x) → Result x.WebrtcError x.DataChannel
  pub create_offer : List (Event x) → Result x.WebrtcError x.Sdp
  pub send_offer : x.Sdp → List (Event x) → Result x.IoError (Unit {0})
  pub set_local_description : x.Sdp → List (Event x) → Result x.WebrtcError (Unit {0})
  pub recv_message : List (Event x) → Recv x (RtcMessage x)
  pub set_remote_description : x.Sdp → List (Event x) → Result x.WebrtcError (Unit {0})
  pub add_ice_candidate : x.CandidateInit → List (Event x) → Result x.WebrtcError (Unit {0})
  pub ice_recv : List (Event x) → Option (Option x.Candidate)
  pub send_ice : Option x.Candidate → List (Event x) → Result x.IoError (Unit {0})
  pub recv_ice : List (Event x) → Recv x (Option (RtcMessage x))

abbrev pub Upgrade : Externals → Type 0 → Type 0
Upgrade x A = Eff (Event x) (Exit x) A

-- `?` at each of the three types of errors.
module _ {x : Externals} {A : Type 0} where
  abbrev pub try_webrtc : Result x.WebrtcError A → Upgrade x A
  try_webrtc (ok a) = pure a
  try_webrtc (err e) = stop (failed (webrtc_error e))

  abbrev pub try_io : Result x.IoError A → Upgrade x A
  try_io (ok a) = pure a
  try_io (err e) = stop (failed (client_io_error e))

  abbrev pub try_recv : Recv x A → Upgrade x A
  try_recv (ok a) = pure a
  try_recv (err e) = stop (failed (from_recv_error e))

-- The `channels` of `PeerAndChannels`; its peer is the one of the call.
abbrev pub PeerAndChannels : Externals → Type 0
PeerAndChannels x = List (String × x.DataChannel)

module _ {x : Externals} (w : World x) where
  unfoldable pub create_channels :
      PeerAndChannels x → List (String × RtcDataChannelInit) → Upgrade x (PeerAndChannels x)
  create_channels channels [] = pure channels
  create_channels channels ((label, option) ∷ configs) = do
    created ← ask (w.create_data_channel label option) (create_data_channel label option)
    channel ← try_webrtc created
    create_channels (channels ++ ((label, channel) ∷ [])) configs

  -- The loop that waits for the answer. `messages` is how many messages come in while it runs: if
  -- none of them is the answer, the loop waits for the next.
  unfoldable pub await_answer : ℕ → List x.CandidateInit → Upgrade x (x.Sdp × List x.CandidateInit)
  await_answer zero ices = stop waiting
  await_answer (suc messages) ices = do
    answer ← ask w.recv_message recv_message
    message ← try_recv answer
    elim message [
      | sdp_answer sdp ↦ pure (sdp, ices)
      | ice init ↦ await_answer messages (ices ++ (init ∷ []))
    ]

  unfoldable pub add_candidates : List x.CandidateInit → Upgrade x (Unit {0})
  add_candidates [] = pure tt
  add_candidates (init ∷ ices) = do
    added ← ask (w.add_ice_candidate init) (add_ice_candidate init)
    try_webrtc added
    add_candidates ices

  -- `ice_receiver.recv().await.unwrap()`.
  unfoldable pub unwrap_gathered : Option (Option x.Candidate) → Upgrade x (Option x.Candidate)
  unwrap_gathered none = stop panicked
  unwrap_gathered (some c) = pure c

  -- The branch of the `select!` that sends a candidate; it answers whether that was the last one.
  unfoldable pub send_gathered : Upgrade x Bool
  unfolding unwrap_gathered
  send_gathered = do
    gathered ← ask w.ice_recv ice_recv
    candidate ← unwrap_gathered gathered
    result ← ask (w.send_ice candidate) (send_ice candidate)
    try_io result
    pure (is_none candidate)

  unfoldable pub add_received : Option (RtcMessage x) → Upgrade x Bool
  add_received none = pure true
  add_received (some (sdp_answer sdp)) = stop (failed unexpected_message)
  add_received (some (ice init)) = do
    added ← ask (w.add_ice_candidate init) (add_ice_candidate init)
    try_webrtc added
    pure false

  -- The branch that receives a message; it answers whether the other side has sent its last one.
  unfoldable pub receive_ice : Upgrade x Bool
  unfolding add_received
  receive_ice = do answer ← ask w.recv_ice recv_ice; message ← try_recv answer; add_received message

  -- The loop over `select!`, over the branches that it takes.
  unfoldable pub exchange : List Branch → Bool → Bool → Upgrade x (Unit {0})
  exchange [] done_sending_ice done_receiving_ice = stop waiting
  exchange (ice_to_send ∷ branches) done_sending_ice done_receiving_ice = do
    last ← send_gathered
    if last && done_receiving_ice
        then pure tt
        else exchange branches (last || done_sending_ice) done_receiving_ice
  exchange (received ∷ branches) done_sending_ice done_receiving_ice = do
    last ← receive_ice
    if last && done_sending_ice
        then pure tt
        else exchange branches done_sending_ice (last || done_receiving_ice)

  -- The offer is sent before it becomes the local description.
  unfoldable pub make_offer : Upgrade x (Unit {0})
  make_offer = do
    offered ← ask w.create_offer create_offer
    offer ← try_webrtc offered
    sent ← ask (w.send_offer offer) (send_offer offer)
    try_io sent
    local ← ask (w.set_local_description offer) (set_local_description offer)
    try_webrtc local

  -- `upgrade` up to the answer of the server.
  unfoldable pub offer_channels :
      ℕ
      → List (String × RtcDataChannelInit)
      → Upgrade x (PeerAndChannels x × x.Sdp × List x.CandidateInit)
  offer_channels messages channel_configs = do
    created ← ask w.new_peer_connection new_peer_connection
    try_webrtc created
    channels ← create_channels [] channel_configs
    make_offer
    answered ← await_answer messages []
    pure (channels, answered.0, answered.1)

  -- The answer, and the candidates that came before it.
  unfoldable pub accept_answer : x.Sdp → List x.CandidateInit → Upgrade x (Unit {0})
  accept_answer answer ices = do
    remote ← ask (w.set_remote_description answer) (set_remote_description answer)
    try_webrtc remote
    add_candidates ices

  unfoldable pub finish_upgrade :
      List Branch
      → (PeerAndChannels x × x.Sdp × List x.CandidateInit)
      → Upgrade x (PeerAndChannels x)
  finish_upgrade branches (channels, answer, ices) = do
    accept_answer answer ices
    emit on_ice_candidate
    exchange branches false false
    pure channels

  -- The whole of `upgrade`: `messages` messages come in while it waits for the answer, and
  -- `branches` are the branches that its `select!` takes.
  unfoldable pub upgrade :
      ℕ → List Branch → List (String × RtcDataChannelInit) → Upgrade x (PeerAndChannels x)
  upgrade messages branches channel_configs = do
    offered ← offer_channels messages channel_configs
    finish_upgrade branches offered
