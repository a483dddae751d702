-- ===== src/Tunnel/Udp.antt =====
-- webrtc-tunnel/src/client.rs: the task that listens for datagrams of one UDP channel, and which data
-- channel each of them goes to.
use mathlib.Core.Logic.{ite}
use mangle_webrtc.Common.{
  ℕ, ◌+◌, ◌%◌, ◌^◌, Bool, Option, none, some, List, [], ◌∷◌, take, replicate, if◌then◌else◌, Result,
  ok, err,
}
use mangle_webrtc.Tunnel.{udp_packet_size}

-- A datagram that `recv_buf_from` received, and what the calls that it leads to answer: whether the
-- task of its data channel still takes messages, whether a socket is bound to its address and
-- connected, and whether a data channel is created.
pub record Datagram (Addr E : Type 0) : Type 0 where
  pub addr : Addr
  pub payload : List ℕ
  pub taken : Bool
  pub connected : Result E (Unit {0})
  pub created : Result E (Unit {0})

-- The state of the task: its buffer, `existing_channel_senders` with the index of each data channel,
-- and the counter of data channels, which it shares with the other tasks.
pub record Listener (Addr : Type 0) : Type 0 where
  pub buf : List ℕ
  pub existing_channel_senders : List (Addr × ℕ)
  pub channel_counter : ℕ

-- Where the bytes of a datagram go: to the data channel of that index, or nowhere, as its task is
-- gone; or the listening task ends with an error.
pub data Routed (E : Type 0) : Type 0 where
  forwarded : ℕ → List ℕ → Routed E
  dropped : List ℕ → Routed E
  ended : E → Routed E

unfoldable pub start : {Addr : Type 0} → ℕ → Listener Addr
start counter = record {
  buf = replicate udp_packet_size 0;
  existing_channel_senders = [];
  channel_counter = counter;
}

-- `?` leaves the loop.
abbrev pub continue : {E : Type 0} → Routed E → List (Routed E) → List (Routed E)
continue (forwarded idx bytes) rest = rest
continue (dropped bytes) rest = rest
continue (ended e) rest = []

module _ {Addr : Type 0} (same : Discrete Addr) where
  abbrev pub lookup : Addr → List (Addr × ℕ) → Option ℕ
  lookup a [] = none
  lookup a ((b, i) ∷ senders) = ite (same b a) (some i) (lookup a senders)

  abbrev pub remove : Addr → List (Addr × ℕ) → List (Addr × ℕ)
  remove a [] = []
  remove a ((b, i) ∷ senders) = ite (same b a) senders ((b, i) ∷ remove a senders)

  module _ {E : Type 0} where
    unfoldable pub occupied :
        Listener Addr → Datagram Addr E → ℕ → List ℕ → Routed E × Listener Addr
    occupied s d idx bytes = if d.taken then (forwarded idx bytes, s) else (
      dropped bytes,
      record s { existing_channel_senders = remove d.addr s.existing_channel_senders },
    )

    -- `fetch_add` of a 64-bit counter.
    unfoldable pub create : Listener Addr → Datagram Addr E → List ℕ → Routed E × Listener Addr
    create s d bytes =
        let idx = s.channel_counter in
        let t = record s { channel_counter = (idx + 1) % 2 ^ 64 } in
        elim d.created [
          | err e ↦ (ended e, t)
          | ok u ↦ (
            forwarded idx bytes,
            record t { existing_channel_senders = (d.addr, idx) ∷ s.existing_channel_senders },
          )
        ]

    unfoldable pub vacant : Listener Addr → Datagram Addr E → List ℕ → Routed E × Listener Addr
    vacant s d bytes = elim d.connected [ err e ↦ (ended e, s) | ok u ↦ create s d bytes ]

    -- `recv_buf_from` is a parameter: the buffer after it received a datagram, and the number of
    -- bytes that it answers.
    unfoldable pub receive :
        (List ℕ → List ℕ → List ℕ × ℕ) → Listener Addr → Datagram Addr E → Routed E × Listener Addr
    receive recv_buf_from s d =
        let (buf, n) = recv_buf_from s.buf d.payload in
        let bytes = take n buf in
        let t = record s { buf = buf } in
        elim (lookup d.addr t.existing_channel_senders) [
          | some idx ↦ occupied t d idx bytes
          | none ↦ vacant t d bytes
        ]

    -- The loop of the task, over the datagrams that come in before it is told to end.
    unfoldable pub listen :
        (List ℕ → List ℕ → List ℕ × ℕ) → Listener Addr → List (Datagram Addr E) → List (Routed E)
    listen recv_buf_from s [] = []
    listen recv_buf_from s (d ∷ datagrams) =
        let (routed, t) = receive recv_buf_from s d in
        routed ∷ continue routed (listen recv_buf_from t datagrams)
