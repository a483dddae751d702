-- ===== src/Tunnel/Command/Wrapper.antt =====
-- webrtc-tunnel/src/client.rs: `PeerWrapper`, which the command and each of its tasks hold a clone of
-- in an `Arc`, and its `Drop`. The clones may end in any order, the last one behind the command itself.
use mangle_webrtc.Common.{ℕ, zero, suc, ◌+◌, List, [], ◌∷◌}
use mangle_webrtc.Tunnel.{Channel}

-- How many clones there are, and how many tasks were spawned that close the peer connection.
pub record PeerWrapper : Type 0 where
  pub clones : ℕ
  pub closing_tasks : ℕ

-- `Arc::new(PeerWrapper(Some(peer)))`.
abbrev pub new_wrapper : PeerWrapper
new_wrapper = record { clones = 1; closing_tasks = 0 }

-- Only who has a clone makes another one.
unfoldable pub clone_wrapper : PeerWrapper → PeerWrapper
clone_wrapper p = elim p.clones [
  | zero ↦ p
  | suc n ↦ record { clones = suc (suc n); closing_tasks = p.closing_tasks }
]

-- The last clone drops the `PeerWrapper`, whose `drop` spawns a task that closes the peer connection.
unfoldable pub drop_clone : PeerWrapper → PeerWrapper
drop_clone p = elim p.clones [
  | zero ↦ p
  | suc zero ↦ record { clones = 0; closing_tasks = p.closing_tasks + 1 }
  | suc (suc n) ↦ record { clones = suc n; closing_tasks = p.closing_tasks }
]

-- A clone for the task of each channel.
unfoldable pub clone_all : List Channel → PeerWrapper → PeerWrapper
clone_all [] p = p
clone_all (channel ∷ channels) p = clone_all channels (clone_wrapper p)

unfoldable pub drop_clones : ℕ → PeerWrapper → PeerWrapper
drop_clones zero p = p
drop_clones (suc n) p = drop_clones n (drop_clone p)

-- `n` clones of which the last one has not ended yet.
abbrev held : ℕ → PeerWrapper
held n = record { clones = n; closing_tasks = 0 }
