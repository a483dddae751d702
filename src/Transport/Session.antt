-- ===== src/Transport/Session.antt =====
-- What a program does with its transport while it keeps a log of its calls. Each event of the log is
-- a message that is sent or received by upgrade2webrtc/src/transport.rs, or nothing of the kind.
use mangle_webrtc.Common.{ℕ, ◌≡◌, ◌≤◌, List, [], ◌∷◌, ◌++◌, length, ok, err, ready, pending}
use mangle_webrtc.Transport.{
  Codec, Io, RecvError, chunk, StreamTransport, transport, sent, send_failed, send_obj, recv_obj,
}
use mangle_webrtc.Transport.Delivery.{arrive}

-- The kinds of messages, the values of each, and how they are serialized.
pub record Messages (E : Type 0) : Type 1 where
  pub Kind : Type 0
  pub Value : Kind → Type 0
  pub codec : (k : Kind) → Codec E (Value k)

abbrev pub Packet : {E : Type 0} → Messages E → Type 0
Packet m = (k : m.Kind) × m.Value k

-- A use of the transport: the value that is sent or received, or the error of the call.
pub data Use {E : Type 0} (m : Messages E) (I : Type 0) : Type 0 where
  idle : Use m I
  sends : Packet m → Use m I
  receives : Packet m → Use m I
  send_fails : Packet m → I → Use m I
  receive_fails : m.Kind → RecvError E I → Use m I

module _ {E I : Type 0} {m : Messages E} where
  -- The values that were sent and those that were received, the newest first.
  abbrev pub sent_packets : List (Use m I) → List (Packet m)
  sent_packets [] = []
  sent_packets (sends p ∷ uses) = p ∷ sent_packets uses
  sent_packets (_ ∷ uses) = sent_packets uses

  abbrev pub received_packets : List (Use m I) → List (Packet m)
  received_packets [] = []
  received_packets (receives p ∷ uses) = p ∷ received_packets uses
  received_packets (_ ∷ uses) = received_packets uses

  abbrev pub AllSucceed : List (Use m I) → Type 0
  AllSucceed [] = Unit {0}
  AllSucceed (send_fails p e ∷ uses) = ⊥
  AllSucceed (receive_fails k e ∷ uses) = ⊥
  AllSucceed (_ ∷ uses) = AllSucceed uses

  -- A use takes the transport from `t` to `u`.
  abbrev pub Uses : Io I → Use m I → StreamTransport I → StreamTransport I → Type 0
  Uses io idle t u = u ≡ t
  Uses io (sends (k, a)) t u = send_obj io (m.codec k) t a ≡ (sent, u)
  Uses io (receives (k, a)) t u = recv_obj io (m.codec k) t ≡ (ready (ok a), u)
  Uses io (send_fails (k, a) e) t u = send_obj io (m.codec k) t a ≡ (send_failed e, u)
  Uses io (receive_fails k e) t u = recv_obj io (m.codec k) t ≡ (ready (err e), u)

-- A session that begins with an empty stream: the transport is used, more bytes come in, or a call
-- of `recv_obj` is given up while it waits, as a `select!` does. `uses` are its uses, the newest first,
-- `bytes` what has come in by then, and `t` is the transport behind it.
pub data Session {E I : Type 0} (m : Messages E) (io : Io I)
    : List (Use m I) → List ℕ → StreamTransport I → Type 0 where
  opened : Session m io [] [] (transport [] [] [])
  used :
      {uses : List (Use m I)} {bytes : List ℕ} {t u : StreamTransport I} (use_of : Use m I)
      → Session m io uses bytes t
      → Uses io use_of t u
      → Session m io (use_of ∷ uses) bytes u
  arrived :
      {uses : List (Use m I)} {bytes : List ℕ} {t : StreamTransport I} (b : List ℕ)
      → Session m io uses bytes t
      → 1 ≤ length b
      → Session m io uses (bytes ++ b) (arrive (chunk b ∷ []) t)
  given_up :
      {uses : List (Use m I)} {bytes : List ℕ} {t u : StreamTransport I} (k : m.Kind)
      → Session m io uses bytes t
      → recv_obj io (m.codec k) t ≡ (pending, u)
      → Session m io uses bytes u
