-- ===== src/Server/Run.antt =====
-- upgrade2webrtc/src/server.rs: the loop of `UpgradeWebRTCServer::run`, which accepts connections,
-- starts a task for each, and stops the tasks when it is closed.
use mathlib.Core.List.{append-nil, append_assoc}
use mangle_webrtc.Common.{◌≡◌, sym, ap, ◌∙◌, List, [], ◌∷◌, ◌++◌, map}

-- What the `select!` of the loop gets: the answer of `accept`, or a message of a `ServerHandle`.
pub data Arrival (T E : Type 0) : Type 0 where
  accepted : T → Arrival T E
  accept_failed : E → Arrival T E
  close_requested : Arrival T E

-- What `run` does, in order: the calls of `on_err`, and the tasks started, aborted and awaited. A
-- task is named by its transport.
pub data Action (T E : Type 0) : Type 0 where
  reported : E → Action T E
  spawned : T → Action T E
  aborted : T → Action T E
  awaited : T → Action T E

module _ {T E : Type 0} where
  -- Behind the loop: all tasks are aborted, and then awaited.
  unfoldable pub shut_down : List T → List (Action T E)
  shut_down running_tasks = map aborted running_tasks ++ map awaited running_tasks

  -- The loop over what arrives, with the tasks that run. Where the list ends, `run` waits.
  unfoldable pub run_loop : List T → List (Arrival T E) → List (Action T E)
  unfolding shut_down
  run_loop running_tasks [] = []
  run_loop running_tasks (accepted transport ∷ arrivals) =
      spawned transport ∷ run_loop (running_tasks ++ (transport ∷ [])) arrivals
  run_loop running_tasks (accept_failed e ∷ arrivals) = reported e ∷ run_loop running_tasks arrivals
  run_loop running_tasks (close_requested ∷ arrivals) = shut_down running_tasks

  unfoldable pub run : List (Arrival T E) → List (Action T E)
  unfolding run_loop
  run arrivals = run_loop [] arrivals

  -- What the answers of `accept` lead to, one by one.
  abbrev pub starts : List (Arrival T E) → List (Action T E)
  starts [] = []
  starts (accepted t ∷ as') = spawned t ∷ starts as'
  starts (accept_failed e ∷ as') = reported e ∷ starts as'
  starts (close_requested ∷ as') = starts as'

  abbrev pub transports : List (Arrival T E) → List T
  transports [] = []
  transports (accepted t ∷ as') = t ∷ transports as'
  transports (accept_failed e ∷ as') = transports as'
  transports (close_requested ∷ as') = transports as'

  abbrev pub NotClosed : List (Arrival T E) → Type 0
  NotClosed [] = Unit {0}
  NotClosed (accepted t ∷ as') = NotClosed as'
  NotClosed (accept_failed e ∷ as') = NotClosed as'
  NotClosed (close_requested ∷ as') = ⊥

  run_loop_lem :
      (before after : List (Arrival T E)) (tasks : List T)
      → NotClosed before
      → run_loop tasks (before ++ (close_requested ∷ after))
        ≡ starts before ++ shut_down (tasks ++ transports before)
  unfolding run_loop
  run_loop_lem [] after tasks open' = ap shut_down (sym (append-nil tasks))
  run_loop_lem (accepted t ∷ before) after tasks open' = ap (◌∷◌ (spawned t)) (
      run_loop_lem before after (tasks ++ (t ∷ [])) open'
      ∙ ap (λ ts. starts before ++ shut_down ts) (append_assoc tasks (t ∷ []) (transports before)))
  run_loop_lem (accept_failed e ∷ before) after tasks open' =
      ap (◌∷◌ (reported e)) (run_loop_lem before after tasks open')
  run_loop_lem (close_requested ∷ before) after tasks open' = absurd open'

  -- A failed `accept` is reported and does not stop the server. At the first request to close, `run`
  -- aborts every task that it started and then awaits every one, each once and in order, and it
  -- looks at nothing that arrives later.
  pub run-closes :
      (before after : List (Arrival T E))
      → NotClosed before
      → run (before ++ (close_requested ∷ after)) ≡ starts before ++ shut_down (transports before)
  unfolding run
  run-closes before after open' = run_loop_lem before after [] open'
