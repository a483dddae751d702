-- ===== src/Tunnel/Tcp.antt =====
-- webrtc-tunnel/src/client.rs: the task that listens for TCP connections of one channel.
use mangle_webrtc.Common.{
  ℕ, ◌+◌, ◌%◌, ◌^◌, ◌≤◌, ◌-◌, Bool, List, [], ◌∷◌, if◌then◌else◌, Result, ok, err, arith,
}

-- A connection, and what the calls that it leads to answer: `accept`, the creation of its data
-- channel, and whether that one opens. `taken` is how many data channels the other tasks have numbered
-- since the last connection, from the counter that all of them share.
pub record Accepted (E : Type 0) : Type 0 where
  pub taken : ℕ
  pub accepted : Result E (Unit {0})
  pub created : Result E (Unit {0})
  pub opened : Bool

-- A connection with the index of its data channel, which a task now serves, or which did not open; or
-- the listening task ends with an error.
pub data Connection (E : Type 0) : Type 0 where
  established : ℕ → Connection E
  not_opened : ℕ → Connection E
  ended : E → Connection E

module _ {E : Type 0} where
  -- The loop of the task, over the connections that come in before it is told to end.
  unfoldable pub accept_loop : ℕ → List (Accepted E) → List (Connection E)
  accept_loop channel_counter [] = []
  accept_loop channel_counter (a ∷ connections) =
      let channel_idx = (channel_counter + a.taken) % 2 ^ 64 in
      let rest = accept_loop ((channel_idx + 1) % 2 ^ 64) connections in
      elim a.accepted [
        | err e ↦ ended e ∷ []
        | ok u ↦ elim a.created [
          | err e ↦ ended e ∷ []
          | ok v ↦ (if a.opened then established channel_idx else not_opened channel_idx) ∷ rest
        ]
      ]

  -- The indices of the data channels, in the order of the connections.
  abbrev pub indices : List (Connection E) → List ℕ
  indices [] = []
  indices (established i ∷ rest) = i ∷ indices rest
  indices (not_opened i ∷ rest) = i ∷ indices rest
  indices (ended e ∷ rest) = indices rest

  -- How many data channels are numbered at most while these connections come in.
  abbrev pub numbered : List (Accepted E) → ℕ
  numbered [] = 0
  numbered (a ∷ connections) = a.taken + 1 + numbered connections

-- Each index is greater than the one before, and the first is `n` or greater.
abbrev pub Ascending : ℕ → List ℕ → Type 0
Ascending n [] = Unit {0}
Ascending n (i ∷ is) = (n ≤ i) × Ascending (i + 1) is

module _ {E : Type 0} where
  -- The data channels of a TCP listener are numbered in ascending order, whatever the other tasks
  -- number in between and whether the data channels open, as long as the counter does not wrap.
  pub accept_loop-Ascending :
      (channel_counter : ℕ) (connections : List (Accepted E))
      → channel_counter + numbered connections ≤ 2 ^ 64 - 1
      → Ascending channel_counter (indices (accept_loop channel_counter connections))
  unfolding accept_loop
  accept_loop-Ascending counter [] room = tt
  accept_loop-Ascending counter (a ∷ connections) room =
      ground (arith, accept_loop-Ascending (counter + a.taken + 1) connections (omega arith))
