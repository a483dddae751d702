-- ===== src/Transport.antt =====
-- upgrade2webrtc/src/transport.rs: length-prefixed messages over a byte stream.
-- The stream is not code of the repository. What it delivers is a list of read results, and whether
-- a write or a flush fails is asked of the parameter `io`.
pub mod Frame
pub mod Receive
pub mod Delivery
pub mod Send
pub mod RoundTrip
pub mod Chunks
pub mod Session
pub mod Faithful
pub mod Ends
pub mod Catching
pub mod Pairs
mod Tests
use mangle_webrtc.Common.{
  ℕ, suc, ◌+◌, ◌*◌, ◌/◌, ◌%◌, ◌^◌, Bool, Option, none, some, List, [], ◌∷◌, ◌++◌, length, take,
  drop, ltb, leb, ◌==◌, if◌then◌else◌, Result, ok, err, map_err, Poll, ready, pending,
}

pub data RecvError (E I : Type 0) : Type 0 where
  deserialize_error : E → RecvError E I
  io_error : I → RecvError E I

-- bitcode at one type of messages: `serialize`, with `none` where it answers an error, and
-- `deserialize`.
pub record Codec (E A : Type 0) : Type 0 where
  pub serialize : A → Option (List ℕ)
  pub deserialize : List ℕ → Result E A

-- The errors of the operating system, and when writing fails. `write_fault written bytes` is asked
-- by `write_all(bytes)` after `written` was sent: `some (n, e)` is the error `e` after `n` bytes.
pub record Io (I : Type 0) : Type 0 where
  pub unexpected_eof : I
  pub write_fault : List ℕ → List ℕ → Option (ℕ × I)
  pub flush_fault : List ℕ → Option I

-- One answer of `stream.read`: the bytes that it put into the buffer, or an error.
pub data Read (I : Type 0) : Type 0 where
  chunk : List ℕ → Read I
  fail : I → Read I

-- The byte stream under a transport: the answers its reads are going to give, the bytes written.
pub record Stream (I : Type 0) : Type 0 where
  pub incoming : List (Read I)
  pub outgoing : List ℕ

pub record StreamTransport (I : Type 0) : Type 0 where
  pub stream : Stream I
  pub recv_buffer : List ℕ

-- `From<T> for StreamTransport<T>`.
unfoldable pub from_stream : {I : Type 0} → Stream I → StreamTransport I
from_stream s = record { stream = s; recv_buffer = [] }

-- `u32::to_le_bytes` and `u32::from_le_bytes`.
unfoldable pub u32_to_le_bytes : ℕ → List ℕ
u32_to_le_bytes n = n % 256 ∷ n / 256 % 256 ∷ n / 65536 % 256 ∷ n / 16777216 % 256 ∷ []

unfoldable pub u32_from_le_bytes : List ℕ → ℕ
u32_from_le_bytes (a ∷ b ∷ c ∷ d ∷ _) = a + 256 * b + 65536 * c + 16777216 * d
u32_from_le_bytes _ = 0

-- What a call of `send_obj` comes to: its result, or a panic of an `expect`.
pub data Sent (I : Type 0) : Type 0 where
  sent : Sent I
  send_failed : I → Sent I
  not_serializable : Sent I
  too_long : Sent I

module _ {I : Type 0} (io : Io I) where
  -- `write_all`: everything is written, or an error comes after a part.
  write_all : Stream I → List ℕ → Result I (Unit {0}) × Stream I
  write_all s bytes = elim (io.write_fault s.outgoing bytes) [
    | none ↦ (ok tt, record s { outgoing = s.outgoing ++ bytes })
    | some (n, e) ↦ (err e, record s { outgoing = s.outgoing ++ take n bytes })
  ]

  -- `flush` of the stream, as `send_obj` and `StreamTransport::flush` call it.
  pub flush : StreamTransport I → Result I (Unit {0})
  flush t = elim (io.flush_fault t.stream.outgoing) [ none ↦ ok tt | some e ↦ err e ]

  flush_sent : StreamTransport I → Sent I × StreamTransport I
  unfolding flush
  flush_sent t = elim (flush t) [ ok u ↦ (sent, t) | err e ↦ (send_failed e, t) ]

  send_payload : StreamTransport I → List ℕ → Sent I × StreamTransport I
  unfolding write_all flush_sent
  send_payload t msg =
      let (r, s) = write_all t.stream msg in
      elim r [
        | ok u ↦ flush_sent (record t { stream = s })
        | err e ↦ (send_failed e, record t { stream = s })
      ]

  send_frame : StreamTransport I → List ℕ → Sent I × StreamTransport I
  unfolding send_payload
  send_frame t msg =
      let (r, s) = write_all t.stream (u32_to_le_bytes (length msg)) in
      elim r [
        | ok u ↦ send_payload (record t { stream = s }) msg
        | err e ↦ (send_failed e, record t { stream = s })
      ]

  unfoldable pub send_obj :
      {E A : Type 0} → Codec E A → StreamTransport I → A → Sent I × StreamTransport I
  unfolding send_frame
  send_obj c t obj = elim (c.serialize obj) [
    | none ↦ (not_serializable, t)
    | some msg ↦ if ltb (length msg) (2 ^ 32) then send_frame t msg else (too_long, t)
  ]

-- `u32::from_le_bytes(first four bytes) as usize + 4`, of a buffer of four bytes or more.
unfoldable pub frame_size : List ℕ → ℕ
unfolding u32_from_le_bytes
frame_size buffer = u32_from_le_bytes (take 4 buffer) + 4

-- A transport from its parts.
abbrev pub transport : {I : Type 0} → List (Read I) → List ℕ → List ℕ → StreamTransport I
transport incoming outgoing buffer = record {
  stream = record { incoming = incoming; outgoing = outgoing };
  recv_buffer = buffer;
}

module _ {E A I : Type 0} (io : Io I) (c : Codec E A) (outgoing : List ℕ) where
  -- Deserialize the message at the front of the buffer, and drain it in any case.
  unfoldable pub take_message :
      List (Read I) → List ℕ → Poll (Result (RecvError E I) A) × StreamTransport I
  take_message incoming buffer =
      let size = frame_size buffer in
      let buf = drop 4 (take size buffer) in
      (
        ready (map_err deserialize_error (c.deserialize buf)),
        transport incoming outgoing (drop size buffer),
      )

  -- The `loop` of `recv_obj`, over the answers of `read`.
  unfoldable pub recv_loop :
      List (Read I) → List ℕ → Poll (Result (RecvError E I) A) × StreamTransport I
  recv_loop [] buffer = (pending, transport [] outgoing buffer)
  recv_loop (fail e ∷ incoming) buffer =
      (ready (err (io_error e)), transport incoming outgoing buffer)
  recv_loop (chunk bytes ∷ incoming) buffer =
      let extended = buffer ++ bytes in
      let next = recv_loop incoming extended in
      if length bytes == 0
      then (ready (err (io_error io.unexpected_eof)), transport incoming outgoing buffer)
      else if ltb (length extended) 4
      then next
      else if ltb (length extended) (frame_size extended)
      then next
      else take_message incoming extended

module _ {E A I : Type 0} (io : Io I) (c : Codec E A) where
  unfoldable pub recv_obj : StreamTransport I → Poll (Result (RecvError E I) A) × StreamTransport I
  recv_obj t =
      let s = t.stream in
      let buffer = t.recv_buffer in
      let rest = recv_loop io c s.outgoing s.incoming buffer in
      if leb 4 (length buffer)
      then (if leb (frame_size buffer) (length buffer)
          then take_message io c s.outgoing s.incoming buffer
          else rest)
      else rest
