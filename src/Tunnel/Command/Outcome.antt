-- ===== src/Tunnel/Command/Outcome.antt =====
-- How `client_command` ends, and what it has done by then.
use mangle_webrtc.Common.{
  ℕ, zero, suc, ◌+◌, ◌≡◌, ◌≢◌, refl, Bool, true, false, List, [], ◌∷◌, length, ok, err,
  Result-cases, ◌⊎◌, inl, inr, arith,
}
use mangle_webrtc.Tunnel.{Channel}
use mangle_webrtc.Tunnel.Command

module _ {x : Command.Externals} where
  -- Peer connections that were made, that the command has closed, whose clone it has given up, and that
  -- were lost before they had a wrapper, because the channel that comes with them could not be closed.
  abbrev pub made : List (Command.Event x) → ℕ
  made [] = 0
  made (Command.upgrade configs (ok channels) ∷ log) = made log + 1
  made (_ ∷ log) = made log

  abbrev pub closed : List (Command.Event x) → ℕ
  closed [] = 0
  closed (Command.close_peer ∷ log) = closed log + 1
  closed (_ ∷ log) = closed log

  abbrev pub dropped : List (Command.Event x) → ℕ
  dropped [] = 0
  dropped (Command.drop_peer ∷ log) = dropped log + 1
  dropped (_ ∷ log) = dropped log

  abbrev pub lost : List (Command.Event x) → ℕ
  lost [] = 0
  lost (Command.close_channel c (err e) ∷ log) = lost log + 1
  lost (_ ∷ log) = lost log

  -- The log behind the tasks that are spawned for these channels, in order.
  abbrev pub spawned : List Channel → List (Command.Event x) → List (Command.Event x)
  spawned [] log = log
  spawned (channel ∷ channels) log = spawned channels (Command.spawn channel ∷ log)

  spawn_tasks_lem :
      (channels : List Channel) (h : List (Command.Event x))
      → Command.spawn_tasks channels h ≡ (ok tt, spawned channels h)
  unfolding Command.spawn_tasks
  spawn_tasks_lem [] h = refl
  spawn_tasks_lem (channel ∷ channels) h = spawn_tasks_lem channels (Command.spawn channel ∷ h)

  pub counts-spawned :
      (channels : List Channel) (h : List (Command.Event x))
      → (made (spawned channels h) ≡ made h)
        × (dropped (spawned channels h) ≡ dropped h)
        × (lost (spawned channels h) ≡ lost h)
        × (closed (spawned channels h) ≡ closed h)
  counts-spawned [] h = (refl, refl, refl, refl)
  counts-spawned (channel ∷ channels) h = counts-spawned channels (Command.spawn channel ∷ h)

  -- The loop at the end calls nothing.
  await_end-log :
      (armed : Bool) (tasks : ℕ) (wakes : List (Command.Wake x)) (h : List (Command.Event x))
      → (Command.await_end armed tasks wakes h).1 ≡ h
  unfolding Command.await_end
  await_end-log armed tasks [] h = refl
  await_end-log true tasks (Command.ctrl_c (ok u) ∷ wakes) h = refl
  await_end-log true tasks (Command.ctrl_c (err e) ∷ wakes) h = await_end-log false tasks wakes h
  await_end-log false tasks (Command.ctrl_c answer ∷ wakes) h = await_end-log false tasks wakes h
  await_end-log true zero (Command.joined result ∷ wakes) h = refl
  await_end-log false zero (Command.joined result ∷ wakes) h = refl
  await_end-log true (suc tasks) (Command.joined (ok u) ∷ wakes) h = refl
  await_end-log true (suc tasks) (Command.joined (err e) ∷ wakes) h = refl
  await_end-log false (suc tasks) (Command.joined (ok u) ∷ wakes) h = refl
  await_end-log false (suc tasks) (Command.joined (err e) ∷ wakes) h = refl

  -- It does not panic while there is a task.
  pub await_end-joins :
      (armed : Bool) (tasks : ℕ) (wakes : List (Command.Wake x)) (h : List (Command.Event x))
      → (Command.await_end armed (suc tasks) wakes h).0 ≢ err Command.panicked
  unfolding Command.await_end
  await_end-joins armed tasks [] h e = cc
  await_end-joins true tasks (Command.ctrl_c (ok u) ∷ wakes) h e = cc
  await_end-joins true tasks (Command.ctrl_c (err f) ∷ wakes) h e =
      await_end-joins false tasks wakes h e
  await_end-joins false tasks (Command.ctrl_c answer ∷ wakes) h e =
      await_end-joins false tasks wakes h e
  await_end-joins true tasks (Command.joined (ok u) ∷ wakes) h e = cc
  await_end-joins true tasks (Command.joined (err f) ∷ wakes) h e = cc
  await_end-joins false tasks (Command.joined (ok u) ∷ wakes) h e = cc
  await_end-joins false tasks (Command.joined (err f) ∷ wakes) h e = cc

module _ {x : Command.Externals} (w : Command.World x) where
  abbrev pub ended : List (Command.Event x) → List (Command.Event x)
  ended log =
      Command.join_all ∷ Command.drop_end_sender ∷ Command.close_peer ∷ Command.abort_all ∷ log

  -- The end of a command that has spawned its tasks.
  pub serve_channels-cases :
      (channels : List Channel) (wakes : List (Command.Wake x)) (h : List (Command.Event x))
      → ((Command.await_end true (length channels) wakes (spawned channels h)).0 ≡ ok tt)
          × (Command.serve_channels w channels wakes h ≡ (ok tt, ended (spawned channels h)))
        ⊎ ((e : Command.Exit x) × ((Command.await_end true
                (length channels)
                wakes
                (spawned channels h)).0
              ≡ err e)
            × (Command.serve_channels w channels wakes h ≡ (err e, spawned channels h)))
  unfolding Command.serve_channels
  serve_channels-cases channels wakes h =
      elim (Result-cases
        ((Command.await_end true (length channels) wakes (spawned channels h)).0)) [
          | inl (u, e) ↦ inl (
            e,
            ground (
              arith,
              spawn_tasks_lem channels h,
              e,
              await_end-log true (length channels) wakes (spawned channels h),
            ),
          )
          | inr (f, e) ↦ inr (
            f,
            e,
            ground (
              arith,
              spawn_tasks_lem channels h,
              e,
              await_end-log true (length channels) wakes (spawned channels h),
            ),
          )
        ]
