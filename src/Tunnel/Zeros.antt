-- ===== src/Tunnel/Zeros.antt =====
-- What the UDP listener forwards, where `recv_buf_from` appends to its buffer.
use mathlib.Core.Path.{subst}
use mathlib.Core.List.{append_assoc, append-nil}
use mangle_webrtc.Common.{
  ℕ, zero, suc, ◌≤◌, ◌≡◌, refl, sym, ap, ◌∙◌, List, [], ◌∷◌, ◌++◌, take, length, replicate, arith,
}
use mangle_webrtc.Tunnel.{udp_packet_size}
use mangle_webrtc.Tunnel.Udp.{
  Datagram, Listener, Routed, forwarded, dropped, ended, start, occupied, create, vacant, receive,
  listen, continue,
}

-- `tokio::net::UdpSocket::recv_buf_from` into a `Vec<u8>`: it answers how many bytes of the datagram
-- it stored, and it stored them behind what the vector held.
abbrev pub Appends : (List ℕ → List ℕ → List ℕ × ℕ) → Type 0
Appends recv_buf_from =
    (buf payload : List ℕ)
    → (n : ℕ) × (n ≤ length payload) × (recv_buf_from buf payload ≡ (buf ++ take n payload, n))

abbrev pub AllZero : List ℕ → Type 0
AllZero [] = Unit {0}
AllZero (b ∷ bytes) = (b ≡ 0) × AllZero bytes

abbrev pub CarriesZeros : {E : Type 0} → Routed E → Type 0
CarriesZeros (forwarded idx bytes) = AllZero bytes
CarriesZeros (dropped bytes) = AllZero bytes
CarriesZeros (ended e) = Unit {0}

abbrev pub AllCarryZeros : {E : Type 0} → List (Routed E) → Type 0
AllCarryZeros [] = Unit {0}
AllCarryZeros (r ∷ rest) = CarriesZeros r × AllCarryZeros rest

-- No datagram is longer than `m` bytes.
abbrev pub AllSmall : {Addr E : Type 0} → ℕ → List (Datagram Addr E) → Type 0
AllSmall m [] = Unit {0}
AllSmall m (d ∷ datagrams) = (length d.payload ≤ m) × AllSmall m datagrams

take-zeros : (n m : ℕ) (more : List ℕ) → n ≤ m → AllZero (take n (replicate m 0 ++ more))
take-zeros zero m more h = tt
take-zeros (suc n) zero more h = absurd (omega arith)
take-zeros (suc n) (suc m) more h = (refl, take-zeros n m more (omega arith))

-- The buffer still begins with the `m` zeros that it was made of.
abbrev Prefixed : {Addr : Type 0} → ℕ → Listener Addr → Type 0
Prefixed m s = (more : List ℕ) × (s.buf ≡ replicate m 0 ++ more)

module _ {Addr E : Type 0} (same : Discrete Addr) (recv_buf_from : List ℕ → List ℕ → List ℕ × ℕ)
    (appends : Appends recv_buf_from) where
  -- Whatever becomes of a datagram, it is the first `n` bytes of the buffer that are handed on.
  receive-carries :
      (s : Listener Addr) (d : Datagram Addr E) (buf : List ℕ) (n : ℕ)
      → recv_buf_from s.buf d.payload ≡ (buf, n)
      → AllZero (take n buf)
      → CarriesZeros (receive same recv_buf_from s d).0
        × ((receive same recv_buf_from s d).1.buf ≡ buf)
  unfolding receive occupied vacant create
  receive-carries s d buf n e zeros = ground arith

  receive-zeros :
      (m : ℕ) (s : Listener Addr) (d : Datagram Addr E)
      → length d.payload ≤ m
      → Prefixed m s
      → CarriesZeros (receive same recv_buf_from s d).0
        × Prefixed m (receive same recv_buf_from s d).1
  receive-zeros m s d small (more, e) =
      let (n, within, stored) = appends s.buf d.payload in
      let buffer : s.buf ++ take n d.payload ≡ replicate m 0 ++ (more ++ take n d.payload) =
        ap (λ b. b ++ take n d.payload) e ∙ append_assoc (replicate m 0) more (take n d.payload) in
      let (carried, kept) = receive-carries s d (s.buf ++ take n d.payload) n stored (
        subst (λ b. AllZero (take n b)) (sym buffer)
          (take-zeros n m (more ++ take n d.payload) (omega arith))) in
      (carried, (more ++ take n d.payload, kept ∙ buffer))

  continue-zeros :
      (r : Routed E) (rest : List (Routed E)) → AllCarryZeros rest → AllCarryZeros (continue r rest)
  continue-zeros (forwarded idx bytes) rest h = h
  continue-zeros (dropped bytes) rest h = h
  continue-zeros (ended e) rest h = tt

  listen-zeros :
      (m : ℕ) (s : Listener Addr) (datagrams : List (Datagram Addr E))
      → AllSmall m datagrams
      → Prefixed m s
      → AllCarryZeros (listen same recv_buf_from s datagrams)
  unfolding listen
  listen-zeros m s [] small h = tt
  listen-zeros m s (d ∷ datagrams) small h =
      let (carried, kept) = receive-zeros m s d small.0 h in
      (
        carried,
        continue-zeros (receive same recv_buf_from s d).0 _
            (listen-zeros m (receive same recv_buf_from s d).1 datagrams small.1 kept),
      )

  -- The UDP listener reads the front of a buffer to whose end the datagrams are appended: of
  -- datagrams that fit the buffer it forwards zeros alone, whatever they hold, however many there
  -- are, and wherever they go.
  pub listen-AllCarryZeros :
      (counter : ℕ) (datagrams : List (Datagram Addr E))
      → AllSmall udp_packet_size datagrams
      → AllCarryZeros (listen same recv_buf_from (start counter) datagrams)
  unfolding start
  listen-AllCarryZeros counter datagrams small =
      listen-zeros udp_packet_size (start counter) datagrams small
        ([], sym (append-nil (replicate udp_packet_size 0)))
