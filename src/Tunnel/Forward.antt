-- ===== src/Tunnel/Forward.antt =====
-- webrtc-tunnel/src/client.rs: the tasks that carry the bytes of one data channel, between it and a
-- local socket, in both directions.
use mangle_webrtc.Common.{ℕ, suc, Option, none, some, List, [], ◌∷◌, ◌++◌, length, Result, ok, err}
use mangle_webrtc.Tunnel.Pump.{finished, panicked, running, send_rest, send_read}

-- What was handed to the data channel, and what to the local socket, the first part first.
pub record Carried : Type 0 where
  pub to_webrtc : List (List ℕ)
  pub to_local : List (List ℕ)

-- How a task ends, or where it is: its loop was left, an `unwrap` panicked, it never comes out of the
-- loop that sends, or it waits.
pub data Ending : Type 0 where
  left crashed sending waiting : Ending

-- What wakes a UDP task: a datagram of the listener, or a message of the data channel and the answer
-- of the socket that it is sent to. `none` means that the other end of the queue is gone.
pub data UdpWake (E : Type 0) : Type 0 where
  from_listener : Option (List ℕ) → UdpWake E
  from_webrtc : Option (List ℕ × Result E (Unit {0})) → UdpWake E

-- What wakes a TCP task: an answer of `read`, or a message and the answer of `write_all`.
pub data TcpWake (E : Type 0) : Type 0 where
  read : Result E (List ℕ) → TcpWake E
  message : Option (List ℕ × Result E (Unit {0})) → TcpWake E

module _ {E : Type 0} (takes : List (List ℕ) → List ℕ → Option ℕ) where
  -- The loop over `select!` of a UDP task, over what wakes it.
  unfoldable pub udp_task : List (UdpWake E) → Carried → Ending × Carried
  udp_task [] c = (waiting, c)
  udp_task (from_listener none ∷ wakes) c = (left, c)
  udp_task (from_listener (some bytes) ∷ wakes) c =
      elim (send_rest takes (suc (length bytes)) bytes 0 []) [
        | finished parts ↦ udp_task wakes (record c { to_webrtc = c.to_webrtc ++ parts })
        | panicked parts ↦ (crashed, record c { to_webrtc = c.to_webrtc ++ parts })
        | running parts ↦ (sending, record c { to_webrtc = c.to_webrtc ++ parts })
      ]
  udp_task (from_webrtc none ∷ wakes) c = (left, c)
  udp_task (from_webrtc (some (bytes, ok u)) ∷ wakes) c =
      udp_task wakes (record c { to_local = c.to_local ++ (bytes ∷ []) })
  udp_task (from_webrtc (some (bytes, err e)) ∷ wakes) c = (crashed, c)

  -- The loop of a TCP task. The loop that sends runs on `fuel`.
  unfoldable pub tcp_task : ℕ → List (TcpWake E) → Carried → Ending × Carried
  tcp_task fuel [] c = (waiting, c)
  tcp_task fuel (read (err e) ∷ wakes) c = (crashed, c)
  tcp_task fuel (read (ok bytes) ∷ wakes) c = elim (send_read takes fuel bytes 0 []) [
    | finished parts ↦ tcp_task fuel wakes (record c { to_webrtc = c.to_webrtc ++ parts })
    | panicked parts ↦ (crashed, record c { to_webrtc = c.to_webrtc ++ parts })
    | running parts ↦ (sending, record c { to_webrtc = c.to_webrtc ++ parts })
  ]
  tcp_task fuel (message none ∷ wakes) c = (left, c)
  tcp_task fuel (message (some (bytes, ok u)) ∷ wakes) c =
      tcp_task fuel wakes (record c { to_local = c.to_local ++ (bytes ∷ []) })
  tcp_task fuel (message (some (bytes, err e)) ∷ wakes) c = (crashed, c)
