-- ===== src/Tunnel/Carry.antt =====
-- What the tasks of `Forward` carry.
use mathlib.Core.Path.{subst}
use mathlib.Core.List.{append-nil, append_assoc}
use mangle_webrtc.Common.{
  ℕ, suc, zero, ◌≡◌, refl, sym, ap, ◌∙◌, Option, none, some, List, [], ◌∷◌, ◌++◌, length, replicate,
  ok, err, ◌⊎◌, inl, inr, arith,
}
use mangle_webrtc.Transport.Receive.{concat, concat-append}
use mangle_webrtc.Tunnel.Pump.{Pumped, finished, panicked, running, send_rest, send_read}
use mangle_webrtc.Tunnel.Delivery.{
  Delivered, Stuck, Progress, TakesNothing, send_rest-delivers, send_read-Stuck,
}
use mangle_webrtc.Tunnel.Forward.{
  Carried, waiting, UdpWake, from_listener, from_webrtc, TcpWake, read, message, udp_task, tcp_task,
}

Delivered-finished :
    (bytes : List ℕ) (p : Pumped)
    → Delivered bytes p
    → (parts : List (List ℕ)) × (p ≡ finished parts) × (concat parts ≡ bytes)
Delivered-finished bytes (finished parts) d = (parts, refl, d)
Delivered-finished bytes (panicked parts) d = absurd d
Delivered-finished bytes (running parts) d = absurd d

Pumped-cases :
    (p : Pumped)
    → ((parts : List (List ℕ)) × (p ≡ finished parts))
      ⊎ ((parts : List (List ℕ)) × (p ≡ panicked parts))
      ⊎ ((parts : List (List ℕ)) × (p ≡ running parts))
Pumped-cases (finished parts) = inl (parts, refl)
Pumped-cases (panicked parts) = inr (inl (parts, refl))
Pumped-cases (running parts) = inr (inr (parts, refl))

-- A loop that sends hands nothing on, whether it is left or not.
abbrev HandsNothing : Pumped → Type 0
HandsNothing (finished parts) = concat parts ≡ []
HandsNothing (panicked parts) = concat parts ≡ []
HandsNothing (running parts) = concat parts ≡ []

Stuck-HandsNothing : (p : Pumped) → Stuck p → HandsNothing p
Stuck-HandsNothing (finished parts) s = absurd s
Stuck-HandsNothing (panicked parts) s = absurd s
Stuck-HandsNothing (running parts) s = s

send_read-HandsNothing :
    (takes : List (List ℕ) → List ℕ → Option ℕ)
    → TakesNothing takes
    → (fuel : ℕ) (bytes : List ℕ) → HandsNothing (send_read takes fuel bytes 0 [])
unfolding send_read
send_read-HandsNothing takes nothing zero [] = refl
send_read-HandsNothing takes nothing (suc fuel) [] = refl
send_read-HandsNothing takes nothing fuel (b ∷ bytes) =
    Stuck-HandsNothing (send_read takes fuel (b ∷ bytes) 0 [])
      (send_read-Stuck takes nothing fuel (b ∷ bytes) (omega arith))

nothing_more :
    (sent parts : List (List ℕ)) → concat parts ≡ [] → concat (sent ++ parts) ≡ concat sent
nothing_more sent parts e =
    concat-append sent parts ∙ ap (λ b. concat sent ++ b) e ∙ append-nil (concat sent)

module _ {E : Type 0} where
  -- No queue was closed, and the socket took each message.
  abbrev pub AllOpen : List (UdpWake E) → Type 0
  AllOpen [] = Unit {0}
  AllOpen (from_listener none ∷ wakes) = ⊥
  AllOpen (from_listener (some bytes) ∷ wakes) = AllOpen wakes
  AllOpen (from_webrtc none ∷ wakes) = ⊥
  AllOpen (from_webrtc (some (bytes, ok u)) ∷ wakes) = AllOpen wakes
  AllOpen (from_webrtc (some (bytes, err e)) ∷ wakes) = ⊥

  -- The bytes of the datagrams, and the messages.
  abbrev pub datagrams : List (UdpWake E) → List ℕ
  datagrams [] = []
  datagrams (from_listener (some bytes) ∷ wakes) = bytes ++ datagrams wakes
  datagrams (_ ∷ wakes) = datagrams wakes

  abbrev pub messages : List (UdpWake E) → List (List ℕ)
  messages [] = []
  messages (from_webrtc (some (bytes, answer)) ∷ wakes) = bytes ∷ messages wakes
  messages (_ ∷ wakes) = messages wakes

  module _ (takes : List (List ℕ) → List ℕ → Option ℕ) where
    udp_task_carries :
        Progress takes
        → (wakes : List (UdpWake E)) (c : Carried) → AllOpen wakes
        → ((udp_task takes wakes c).0 ≡ waiting)
          × (concat (udp_task takes wakes c).1.to_webrtc ≡ concat c.to_webrtc ++ datagrams wakes)
          × ((udp_task takes wakes c).1.to_local ≡ c.to_local ++ messages wakes)
    unfolding udp_task
    udp_task_carries progress [] c open' =
        (refl, sym (append-nil (concat c.to_webrtc)), sym (append-nil c.to_local))
    udp_task_carries progress (from_listener none ∷ wakes) c open' = absurd open'
    udp_task_carries progress (from_listener (some bytes) ∷ wakes) c open' =
        let (parts, done, whole) =
          Delivered-finished bytes (send_rest takes (suc (length bytes)) bytes 0 [])
            (send_rest-delivers takes progress bytes) in
        let (waits, up, down) =
          udp_task_carries progress wakes (record c { to_webrtc = c.to_webrtc ++ parts }) open' in
        rw (done, udp_task)
          (
            waits,
            up
                ∙ ap (λ b. b ++ datagrams wakes)
                    (concat-append c.to_webrtc parts ∙ ap (λ b. concat c.to_webrtc ++ b) whole)
                ∙ append_assoc (concat c.to_webrtc) bytes (datagrams wakes),
            down,
          )
    udp_task_carries progress (from_webrtc none ∷ wakes) c open' = absurd open'
    udp_task_carries progress (from_webrtc (some (bytes, ok u)) ∷ wakes) c open' =
        let (waits, up, down) =
          udp_task_carries progress wakes (record c { to_local = c.to_local ++ (bytes ∷ []) })
            open' in
        (waits, up, down ∙ append_assoc c.to_local (bytes ∷ []) (messages wakes))
    udp_task_carries progress (from_webrtc (some (bytes, err e)) ∷ wakes) c open' = absurd open'

    -- Where every call of `send` takes a byte at least and no more than it is given, no queue is
    -- closed, and the socket takes each message, a UDP task waits for more and has carried all of it:
    -- the bytes of the datagrams to the data channel, and each message to the socket, in order.
    pub udp_task-carries :
        Progress takes
        → (wakes : List (UdpWake E)) → AllOpen wakes
        → let (ending, c) = udp_task takes wakes (record { to_webrtc = []; to_local = [] }) in
          (ending ≡ waiting)
          × (concat c.to_webrtc ≡ datagrams wakes)
          × (c.to_local ≡ messages wakes)
    udp_task-carries progress wakes open' =
        udp_task_carries progress wakes (record { to_webrtc = []; to_local = [] }) open'

    tcp_task_carries :
        TakesNothing takes
        → (fuel : ℕ) (wakes : List (TcpWake E)) (c : Carried)
        → concat (tcp_task takes fuel wakes c).1.to_webrtc ≡ concat c.to_webrtc
    unfolding tcp_task
    tcp_task_carries nothing fuel [] c = refl
    tcp_task_carries nothing fuel (read (err e) ∷ wakes) c = refl
    tcp_task_carries nothing fuel (read (ok bytes) ∷ wakes) c =
        elim (Pumped-cases (send_read takes fuel bytes 0 [])) [
          | inl (parts, e) ↦
              rw (e, tcp_task)
                (tcp_task_carries nothing fuel wakes (record c { to_webrtc = c.to_webrtc ++ parts })
                  ∙ nothing_more c.to_webrtc parts (subst HandsNothing e hands))
          | inr (inl (parts, e)) ↦
              rw (e, tcp_task) (nothing_more c.to_webrtc parts (subst HandsNothing e hands))
          | inr (inr (parts, e)) ↦
              rw (e, tcp_task) (nothing_more c.to_webrtc parts (subst HandsNothing e hands))
        ]
      where
        hands : HandsNothing (send_read takes fuel bytes 0 [])
        hands = send_read-HandsNothing takes nothing fuel bytes
    tcp_task_carries nothing fuel (message none ∷ wakes) c = refl
    tcp_task_carries nothing fuel (message (some (bytes, ok u)) ∷ wakes) c =
        tcp_task_carries nothing fuel wakes (record c { to_local = c.to_local ++ (bytes ∷ []) })
    tcp_task_carries nothing fuel (message (some (bytes, err e)) ∷ wakes) c = refl

    -- Where a `send` of no byte takes none, a TCP task hands the data channel not one byte of what it
    -- reads, whatever wakes it, in whatever order, and however long its loops run.
    pub tcp_task-carries_nothing :
        TakesNothing takes
        → (fuel : ℕ) (wakes : List (TcpWake E))
        → concat (tcp_task takes fuel wakes (record { to_webrtc = []; to_local = [] })).1.to_webrtc
          ≡ []
    tcp_task-carries_nothing nothing fuel wakes =
        tcp_task_carries nothing fuel wakes (record { to_webrtc = []; to_local = [] })

    -- The end of the TCP stream, which `read` answers with no byte, again and again, does not end the
    -- loop of a TCP task: it is as if nothing had been read.
    pub tcp_task-end_of_stream :
        (fuel n : ℕ) (wakes : List (TcpWake E)) (c : Carried)
        → tcp_task takes (suc fuel) (replicate n (read (ok [])) ++ wakes) c
          ≡ tcp_task takes (suc fuel) wakes c
    unfolding tcp_task send_read
    tcp_task-end_of_stream fuel zero wakes c = refl
    tcp_task-end_of_stream fuel (suc n) wakes c =
        ap
          (λ sent.
            tcp_task takes (suc fuel) (replicate n (read (ok [])) ++ wakes)
              (record c { to_webrtc = sent }))
          (append-nil c.to_webrtc)
        ∙ tcp_task-end_of_stream fuel n wakes c
