-- ===== src/Server/Closing.antt =====
-- upgrade2webrtc/src/server.rs: `ServerHandle::close_server`, and what it does to `run`.
use mathlib.Core.List.{append_assoc}
use mangle_webrtc.Common.{
  ◌≡◌, ◌≢◌, refl, sym, ap, ◌∙◌, none, some, List, [], ◌∷◌, ◌++◌, Result, ok, err, Option-cases, map,
  append-ne_nil, inl, inr, arith,
}
use mangle_webrtc.Server.Handover.{MpscChannel}
use mangle_webrtc.Server.Run.{
  Arrival, aborted, awaited, accepted, accept_failed, close_requested, NotClosed, starts,
  transports, shut_down, run, run-closes,
}

-- What happens next to a server that runs: `accept` answers, somebody calls `close_server` of a
-- handle, or the `select!` of the loop polls `close_recv`.
pub data Occurrence (T E : Type 0) : Type 0 where
  answered : Result E T → Occurrence T E
  close_called close_polled : Occurrence T E

-- `mpsc::channel(1)` refuses a message only when it holds one, and gives one out when it holds one.
pub record Bounded {A : Type 0} (c : MpscChannel A) : Type 0 where
  pub full : (a : A) (q : c.Queue) → c.try_send a q ≡ none → c.contents q ≢ []
  pub empty_only : (q : c.Queue) → c.recv q ≡ none → c.contents q ≡ []

module _ (c : MpscChannel (Unit {0})) where
  -- The answer of `try_send` is dropped.
  unfoldable pub close_server : c.Queue → c.Queue
  close_server q = elim (c.try_send tt q) [ none ↦ q | some r ↦ r ]

  module _ {T E : Type 0} where
    -- What the `select!` gets, where `q` is the queue that all handles send to.
    unfoldable pub arrive : c.Queue → List (Occurrence T E) → List (Arrival T E)
    arrive q [] = []
    arrive q (answered (ok transport) ∷ next) = accepted transport ∷ arrive q next
    arrive q (answered (err e) ∷ next) = accept_failed e ∷ arrive q next
    arrive q (close_called ∷ next) = arrive (close_server q) next
    arrive q (close_polled ∷ next) = elim (c.recv q) [
      | none ↦ arrive q next
      | some (u, r) ↦ close_requested ∷ arrive r next
    ]

module _ (c : MpscChannel (Unit {0})) (bounded : Bounded c) where
  close_server-requests : (q : c.Queue) → c.contents (close_server c q) ≢ []
  unfolding close_server
  close_server-requests q e = elim (Option-cases (c.try_send tt q)) [
    | inl refused ↦ bounded.full tt q refused (ground (arith, e, refused))
    | inr (r, sent) ↦
        append-ne_nil (c.contents q) [] tt
          (sym (c.contents-try_send tt q r sent) ∙ ground (arith, e, sent))
  ]

module _ {T E : Type 0} where
  abbrev pub answers : List (Occurrence T E) → List (Arrival T E)
  answers [] = []
  answers (answered (ok transport) ∷ next) = accepted transport ∷ answers next
  answers (answered (err e) ∷ next) = accept_failed e ∷ answers next
  answers (close_called ∷ next) = answers next
  answers (close_polled ∷ next) = answers next

  abbrev pub NotCalled : List (Occurrence T E) → Type 0
  NotCalled [] = Unit {0}
  NotCalled (close_called ∷ next) = ⊥
  NotCalled (_ ∷ next) = NotCalled next

  abbrev pub NotPolled : List (Occurrence T E) → Type 0
  NotPolled [] = Unit {0}
  NotPolled (close_polled ∷ next) = ⊥
  NotPolled (_ ∷ next) = NotPolled next

  answers-NotClosed :
      (before between : List (Occurrence T E)) → NotClosed (answers before ++ answers between)
  answers-NotClosed [] [] = tt
  answers-NotClosed [] (answered (ok t) ∷ next) = answers-NotClosed [] next
  answers-NotClosed [] (answered (err e) ∷ next) = answers-NotClosed [] next
  answers-NotClosed [] (close_called ∷ next) = answers-NotClosed [] next
  answers-NotClosed [] (close_polled ∷ next) = answers-NotClosed [] next
  answers-NotClosed (answered (ok t) ∷ next) between = answers-NotClosed next between
  answers-NotClosed (answered (err e) ∷ next) between = answers-NotClosed next between
  answers-NotClosed (close_called ∷ next) between = answers-NotClosed next between
  answers-NotClosed (close_polled ∷ next) between = answers-NotClosed next between

  module _ (c : MpscChannel (Unit {0})) (bounded : Bounded c) where
    -- As long as nobody has asked to close, polls of `close_recv` are not ready.
    arrive-unasked :
        (q : c.Queue) (before rest : List (Occurrence T E))
        → c.contents q ≡ []
        → NotCalled before
        → arrive c q (before ++ rest) ≡ answers before ++ arrive c q rest
    unfolding arrive
    arrive-unasked q [] rest none_sent quiet = refl
    arrive-unasked q (answered (ok t) ∷ before) rest none_sent quiet =
        ap (λ l. accepted t ∷ l) (arrive-unasked q before rest none_sent quiet)
    arrive-unasked q (answered (err e) ∷ before) rest none_sent quiet =
        ap (λ l. accept_failed e ∷ l) (arrive-unasked q before rest none_sent quiet)
    arrive-unasked q (close_called ∷ before) rest none_sent quiet = absurd quiet
    arrive-unasked q (close_polled ∷ before) rest none_sent quiet = elim (Option-cases (c.recv q)) [
      | inl waits ↦ ground (arith, waits, arrive-unasked q before rest none_sent quiet)
      | inr ((u, r), got) ↦ absurd (ground (arith, none_sent, c.contents-recv u q r got))
    ]

    -- A request is not lost until `close_recv` is polled, and then ends the loop.
    arrive-asked :
        (q : c.Queue) (between after : List (Occurrence T E))
        → c.contents q ≢ []
        → NotPolled between
        → (later : List (Arrival T E)) × (arrive c q (between ++ (close_polled ∷ after))
            ≡ answers between ++ (close_requested ∷ later))
    unfolding arrive
    arrive-asked q [] after some_sent quiet = elim (Option-cases (c.recv q)) [
      | inl waits ↦ absurd (some_sent (bounded.empty_only q waits))
      | inr ((u, r), got) ↦ (arrive c r after, ground (arith, got))
    ]
    arrive-asked q (answered (ok t) ∷ between) after some_sent quiet =
        let (later, e) = arrive-asked q between after some_sent quiet in
        (later, ap (λ l. accepted t ∷ l) e)
    arrive-asked q (answered (err f) ∷ between) after some_sent quiet =
        let (later, e) = arrive-asked q between after some_sent quiet in
        (later, ap (λ l. accept_failed f ∷ l) e)
    arrive-asked q (close_called ∷ between) after some_sent quiet =
        arrive-asked (close_server c q) between after (close_server-requests c bounded q) quiet
    arrive-asked q (close_polled ∷ between) after some_sent quiet = absurd quiet

    -- Where the channel of the handles holds one message: the first call of `close_server` is enough,
    -- however many follow it. Until the loop polls the channel, `run` starts a task for each
    -- connection and reports each failed `accept`; a poll before that call does nothing. At the first
    -- poll behind it, `run` aborts every task that it started and awaits every one, each once and in
    -- order, and it looks at nothing that comes later.
    pub run-close_server :
        (before between after : List (Occurrence T E))
        → NotCalled before
        → NotPolled between
        → let seen = answers before ++ answers between in
          run (arrive c c.empty (before ++ (close_called ∷ between ++ (close_polled ∷ after))))
          ≡ starts seen ++ (map aborted (transports seen) ++ map awaited (transports seen))
    unfolding arrive shut_down
    run-close_server before between after unasked unpolled =
        let (later, asked) =
          arrive-asked (close_server c c.empty) between after
            (close_server-requests c bounded c.empty) unpolled in
        ap run (
          arrive-unasked c.empty before (close_called ∷ between ++ (close_polled ∷ after))
            c.contents-empty unasked
          ∙ ap (λ l. answers before ++ l) asked
          ∙ sym (append_assoc (answers before) (answers between) (close_requested ∷ later)))
        ∙ run-closes (answers before ++ answers between) later (answers-NotClosed before between)
