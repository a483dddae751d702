-- ===== src/Tunnel/Routing.antt =====
-- Which data channel a datagram goes to, and with which bytes.
use mathlib.Core.Logic.{ite}
use mangle_webrtc.Common.{
  ℕ, ◌+◌, ◌%◌, ◌^◌, ◌<◌, ◌≡◌, ◌≢◌, none, some, List, [], ◌∷◌, arith, Bool-cases, Result-cases,
  Option-cases, inl, inr,
}
use mangle_webrtc.Tunnel.Udp.{Datagram, Listener, lookup, remove, occupied, create, vacant, receive}

-- Every entry of the table satisfies `P`.
abbrev pub Each : {Addr : Type 0} → (Addr → ℕ → Type 0) → List (Addr × ℕ) → Type 0
Each P [] = Unit {0}
Each P ((a, i) ∷ senders) = P a i × Each P senders

-- No two entries share an address or a data channel.
abbrev pub Separate : {Addr : Type 0} → List (Addr × ℕ) → Type 0
Separate [] = Unit {0}
Separate ((a, i) ∷ senders) = Each (λ b j. (b ≢ a) × (j ≢ i)) senders × Separate senders

-- The table gives each address a data channel of its own, all of them below the counter.
pub record IsRouted {Addr : Type 0} (s : Listener Addr) : Type 0 where
  pub separate : Separate s.existing_channel_senders
  pub below : Each (λ a i. i < s.channel_counter) s.existing_channel_senders

module _ {Addr : Type 0} (same : Discrete Addr) where
  Each-remove :
      (P : Addr → ℕ → Type 0) (a : Addr) (senders : List (Addr × ℕ))
      → Each P senders
      → Each P (remove same a senders)
  Each-remove P a [] h = tt
  Each-remove P a ((b, i) ∷ senders) h = ground (arith, Each-remove P a senders)

  Separate-remove :
      (a : Addr) (senders : List (Addr × ℕ)) → Separate senders → Separate (remove same a senders)
  Separate-remove a [] h = tt
  Separate-remove a ((b, i) ∷ senders) h =
      ground (arith, Separate-remove a senders, Each-remove (λ c j. (c ≢ b) × (j ≢ i)) a senders)

  Each-mono :
      (P Q : Addr → ℕ → Type 0)
      → ((a : Addr) (i : ℕ) → P a i → Q a i)
      → (senders : List (Addr × ℕ)) → Each P senders
      → Each Q senders
  Each-mono P Q f [] h = tt
  Each-mono P Q f ((a, i) ∷ senders) h = (f a i h.0, Each-mono P Q f senders h.1)

  fresh :
      (a : Addr) (c : ℕ) (senders : List (Addr × ℕ))
      → lookup same a senders ≡ none
      → Each (λ b i. i < c) senders
      → Each (λ b j. (b ≢ a) × (j ≢ c)) senders
  fresh a c [] missing below = tt
  fresh a c ((b, i) ∷ senders) missing below =
      elim (same b a)
          as (λ d.
            ite d (some i) (lookup same a senders) ≡ none
            → Each (λ b j. (b ≢ a) × (j ≢ c)) ((b, i) ∷ senders)) [
              | yes p ↦ λ e. cc
              | no n ↦ λ e. ((n, omega (arith, below.0)), fresh a c senders e below.1)
            ]
        missing

  module _ {E : Type 0} (d : Datagram Addr E) where
    occupied-IsRouted :
        (s : Listener Addr) (idx : ℕ) (bytes : List ℕ)
        → IsRouted s
        → IsRouted (occupied same s d idx bytes).1
    unfolding occupied
    occupied-IsRouted s idx bytes h = elim (Bool-cases d.taken) [
      | inl e ↦ rw e h
      | inr e ↦ rw e (record {
        separate = Separate-remove d.addr s.existing_channel_senders h.separate;
        below =
            Each-remove (λ a i. i < s.channel_counter) d.addr s.existing_channel_senders h.below;
      })
    ]

    create-IsRouted :
        (s : Listener Addr) (bytes : List ℕ)
        → s.channel_counter + 1 < 2 ^ 64
        → lookup same d.addr s.existing_channel_senders ≡ none
        → IsRouted s
        → IsRouted (create same s d bytes).1
    unfolding create
    create-IsRouted s bytes room missing h = elim (Result-cases d.created) [
      | inl (u, e) ↦ rw e (record {
        separate =
            (fresh d.addr s.channel_counter s.existing_channel_senders missing h.below, h.separate);
        below = (omega arith, wider);
      })
      | inr (x, e) ↦ rw e (record { separate = h.separate; below = wider })
    ]
      where
        wider : Each (λ a i. i < (s.channel_counter + 1) % 2 ^ 64) s.existing_channel_senders
        wider =
            Each-mono (λ a i. i < s.channel_counter) (λ a i. i < (s.channel_counter + 1) % 2 ^ 64)
              (λ a i k. omega arith) s.existing_channel_senders h.below

    vacant-IsRouted :
        (s : Listener Addr) (bytes : List ℕ)
        → s.channel_counter + 1 < 2 ^ 64
        → lookup same d.addr s.existing_channel_senders ≡ none
        → IsRouted s
        → IsRouted (vacant same s d bytes).1
    unfolding vacant create
    vacant-IsRouted s bytes room missing h = elim (Result-cases d.connected) [
      | inl (u, e) ↦ rw e (create-IsRouted s bytes room missing h)
      | inr (x, e) ↦ rw e h
    ]

    -- Where each address of the table has a data channel of its own, with an index below the counter,
    -- a datagram leaves it so, whatever becomes of it, as long as the counter does not wrap.
    pub receive-IsRouted :
        (recv_buf_from : List ℕ → List ℕ → List ℕ × ℕ) (s : Listener Addr)
        → s.channel_counter + 1 < 2 ^ 64
        → IsRouted s
        → IsRouted (receive same recv_buf_from s d).1
    unfolding receive
    receive-IsRouted recv_buf_from s room h =
        elim (Option-cases (lookup same d.addr s.existing_channel_senders)) [
          | inl e ↦ rw (e, receive) (vacant-IsRouted (filled s) _ room e (kept h))
          | inr (idx, e) ↦ rw (e, receive) (occupied-IsRouted (filled s) idx _ (kept h))
        ]
      where
        filled : Listener Addr → Listener Addr
        filled s = record s { buf = (recv_buf_from s.buf d.payload).0 }

        kept : {s : Listener Addr} → IsRouted s → IsRouted (filled s)
        kept h = record { separate = h.separate; below = h.below }
