-- ===== src/Signaling.antt =====
-- upgrade2webrtc/src/lib.rs: the messages of the handshake, and the types that it takes from the
-- webrtc crate and the operating system, of which nothing is assumed.
use mangle_webrtc.Common.{Result}
use mangle_webrtc.Transport.{RecvError}

-- Session descriptions, ICE candidates and their serializable form (`to_json` takes one to the
-- other), the errors, the identity of a client, and the handles of data channels.
pub record Externals : Type 1 where
  pub Sdp : Type 0
  pub Candidate : Type 0
  pub CandidateInit : Type 0
  pub WebrtcError : Type 0
  pub IoError : Type 0
  pub DecodeError : Type 0
  pub AcceptError : Type 0
  pub ClientId : Type 0
  pub DataChannel : Type 0
  pub to_json : Candidate → Result WebrtcError CandidateInit

-- What `recv_obj` answers at a type of messages.
abbrev pub Recv : Externals → Type 0 → Type 0
Recv x A = Result (RecvError x.DecodeError x.IoError) A

-- `RTCMessage`.
pub data RtcMessage (x : Externals) : Type 0 where
  sdp_answer : x.Sdp → RtcMessage x
  ice : x.CandidateInit → RtcMessage x

-- The branch of a `select!` that is taken: a candidate was gathered, or a message came in.
pub data Branch : Type 0 where
  ice_to_send received : Branch
