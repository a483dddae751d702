-- ===== src/Server/Handed.antt =====
-- That the callbacks of `Handover` neither lose nor repeat a data channel.
use mathlib.Core.Path.{subst}
use mangle_webrtc.Common.{
  ℕ, ◌+◌, ◌≡◌, refl, ap, ◌∙◌, ◌++◌, Bool, true, false, some, List, [], ◌∷◌, ok, err, Bool-cases,
  Option-cases, inl, inr, Result, arith,
}
use mangle_webrtc.Server.Handover.{
  MpscChannel, Happening, announced, open_received, sent, taken_next, dropped, remove_at, count,
  count-append, count-remove_at, State, registered, send_channel, happen, happen_all,
}

-- The data channels that were announced, and how many of them failed to open.
abbrev pub announcements : {A : Type 0} → List (Happening A) → List A
announcements [] = []
announcements (announced c ∷ es) = c ∷ announcements es
announcements (_ ∷ es) = announcements es

abbrev pub failure : {A : Type 0} → Happening A → ℕ
failure (open_received n (err u)) = 1
failure _ = 0

abbrev pub failures : {A : Type 0} → List (Happening A) → ℕ
failures [] = 0
failures (e ∷ es) = failure e + failures es

count-announcements :
    {A : Type 0} (p : A → Bool) (e : Happening A) (es : List (Happening A))
    → count p (announcements (e ∷ es))
      ≡ count p (announcements (e ∷ [])) + count p (announcements es)
count-announcements p (announced c) es = omega arith
count-announcements p (open_received n answer) es = omega arith
count-announcements p (sent n) es = omega arith
count-announcements p taken_next es = omega arith
count-announcements p dropped es = omega arith

module _ {DataChannel : Type 0} (mpsc : MpscChannel DataChannel) where
  -- How many data channels that pass a test are held anywhere.
  abbrev pub held : (DataChannel → Bool) → State mpsc → ℕ
  held p s =
      count p s.opening
      + count p s.sending
      + count p (mpsc.contents s.queue)
      + count p s.taken
      + count p s.unsent

  -- A step to `t` that brings in `new` of the data channels and logs `failed` errors.
  record Accounts (p : DataChannel → Bool) (new failed : ℕ) (s t : State mpsc) : Type 0 where
    kept : held p t ≡ new + held p s
    logged : t.errors ≡ failed + s.errors
    unsent :
        (s.receiver_dropped ≡ false → s.unsent ≡ []) → t.receiver_dropped ≡ false → t.unsent ≡ []

  send_channel-Accounts :
      (p : DataChannel → Bool) (c : DataChannel) (s t : State mpsc)
      → send_channel mpsc c s ≡ some t
      → Accounts p (count p (c ∷ [])) 0 s t
  unfolding send_channel
  send_channel-Accounts p c s t e = elim (Bool-cases s.receiver_dropped) [
    | inl is_dropped ↦
        let same : record s { unsent = c ∷ s.unsent } ≡ t = ground (arith, e, is_dropped) in
        subst (Accounts p (count p (c ∷ [])) 0 s) same record {
          kept = omega arith;
          logged = omega arith;
          unsent = λ u r. absurd (ground (arith, r, is_dropped));
        }
    | inr is_open ↦ elim (Option-cases (mpsc.try_send c s.queue)) [
      | inl full ↦ absurd (ground (arith, e, is_open, full))
      | inr (q, room) ↦
          let same : record s { queue = q } ≡ t = ground (arith, e, is_open, room) in
          subst (Accounts p (count p (c ∷ [])) 0 s) same record {
            kept = omega (
              arith,
              ap (count p) (mpsc.contents-try_send c s.queue q room)
                  ∙ count-append p (mpsc.contents s.queue) (c ∷ []),
            );
            logged = omega arith;
            unsent = λ u. u;
          }
    ]
  ]

  sent-Accounts :
      (p : DataChannel → Bool) (n : ℕ) (s t : State mpsc)
      → happen mpsc (sent n) s ≡ some t
      → Accounts p 0 0 s t
  unfolding happen
  sent-Accounts p n s t e = elim (Option-cases (remove_at n s.sending)) [
    | inl gone ↦ absurd (ground (arith, e, gone))
    | inr ((c, rest), found) ↦
        let a =
          send_channel-Accounts p c (record s { sending = rest }) t (ground (arith, e, found)) in
        record {
          kept = omega (arith, a.kept, count-remove_at p n s.sending c rest found);
          logged = a.logged;
          unsent = a.unsent;
        }
  ]

  open_received-Accounts :
      (p : DataChannel → Bool) (n : ℕ) (answer : Result (Unit {0}) (Unit {0})) (s t : State mpsc)
      → happen mpsc (open_received n answer) s ≡ some t
      → Accounts p 0 (failure {A = DataChannel} (open_received n answer)) s t
  unfolding happen
  open_received-Accounts p n (ok u) s t e = elim (Option-cases (remove_at n s.opening)) [
    | inl gone ↦ absurd (ground (arith, e, gone))
    | inr ((c, rest), found) ↦
        let same : record s { opening = rest; sending = c ∷ s.sending; errors = s.errors + 0 } ≡ t =
          ground (arith, e, found) in
        subst (Accounts p 0 0 s) same record {
          kept = omega (arith, count-remove_at p n s.opening c rest found);
          logged = omega arith;
          unsent = λ u. u;
        }
  ]
  open_received-Accounts p n (err u) s t e = elim (Option-cases (remove_at n s.opening)) [
    | inl gone ↦ absurd (ground (arith, e, gone))
    | inr ((c, rest), found) ↦
        let same : record s { opening = rest; sending = c ∷ s.sending; errors = s.errors + 1 } ≡ t =
          ground (arith, e, found) in
        subst (Accounts p 0 1 s) same record {
          kept = omega (arith, count-remove_at p n s.opening c rest found);
          logged = omega arith;
          unsent = λ u. u;
        }
  ]

  taken_next-Accounts :
      (p : DataChannel → Bool) (s t : State mpsc)
      → happen mpsc taken_next s ≡ some t
      → Accounts p 0 0 s t
  unfolding happen
  taken_next-Accounts p s t e = elim (Bool-cases s.receiver_dropped) [
    | inl is_dropped ↦ absurd (ground (arith, e, is_dropped))
    | inr is_open ↦ elim (Option-cases (mpsc.recv s.queue)) [
      | inl nothing ↦ absurd (ground (arith, e, is_open, nothing))
      | inr ((c, q), received) ↦
          let same : record s { queue = q; taken = s.taken ++ (c ∷ []) } ≡ t =
            ground (arith, e, is_open, received) in
          subst (Accounts p 0 0 s) same record {
            kept = omega (
              arith,
              ap (count p) (mpsc.contents-recv c s.queue q received),
              count-append p s.taken (c ∷ []),
            );
            logged = omega arith;
            unsent = λ u. u;
          }
    ]
  ]

  happen-Accounts :
      (p : DataChannel → Bool) (e : Happening DataChannel) (s t : State mpsc)
      → happen mpsc e s ≡ some t
      → Accounts p (count p (announcements (e ∷ []))) (failure e) s t
  unfolding happen
  happen-Accounts p (announced c) s t e =
      let same : record s { opening = c ∷ s.opening } ≡ t = ground (arith, e) in
      subst (Accounts p (count p (c ∷ [])) 0 s) same
        record { kept = omega arith; logged = omega arith; unsent = λ u. u }
  happen-Accounts p (open_received n answer) s t e = open_received-Accounts p n answer s t e
  happen-Accounts p (sent n) s t e = sent-Accounts p n s t e
  happen-Accounts p taken_next s t e = taken_next-Accounts p s t e
  happen-Accounts p dropped s t e =
      let same : record s { receiver_dropped = true } ≡ t = ground (arith, e) in
      subst (Accounts p 0 0 s) same record {
        kept = omega arith;
        logged = omega arith;
        unsent = λ u r. absurd (ground (arith, r));
      }

  happen_all-Accounts :
      (p : DataChannel → Bool) (es : List (Happening DataChannel)) (s t : State mpsc)
      → happen_all mpsc es s ≡ some t
      → Accounts p (count p (announcements es)) (failures es) s t
  unfolding happen_all
  happen_all-Accounts p [] s t e =
      subst (Accounts p 0 0 s) {x = s} (ground (arith, e))
        record { kept = omega arith; logged = omega arith; unsent = λ u. u }
  happen_all-Accounts p (e ∷ es) s u all = elim (Option-cases (happen mpsc e s)) [
    | inl stuck ↦ absurd (ground (arith, all, stuck))
    | inr (t, step) ↦
        let first = happen-Accounts p e s t step in
        let rest = happen_all-Accounts p es t u (ground (arith, all, step)) in
        record {
          kept = omega (arith, first.kept, rest.kept, count-announcements p e es);
          logged = omega (arith, first.logged, rest.logged);
          unsent = λ k. rest.unsent (first.unsent k);
        }
  ]

  -- Whatever happens in whatever order, each data channel that was announced is in one place: it
  -- waits to open or to be sent, is in the queue, was passed on to `on_success`, or could not be
  -- sent; and none could not be sent as long as the receiver is not dropped. Those that failed to
  -- open are no exception: they are only logged, once each.
  pub happen_all-registered :
      (es : List (Happening DataChannel)) (s : State mpsc)
      → happen_all mpsc es (registered mpsc) ≡ some s
      → ((p : DataChannel → Bool) → held p s ≡ count p (announcements es))
        × (s.errors ≡ failures es)
        × (s.receiver_dropped ≡ false → s.unsent ≡ [])
  happen_all-registered es s e = (
    (λ p.
        let a = happen_all-Accounts p es (registered mpsc) s e in
        omega (arith, a.kept, ap (count p) mpsc.contents-empty)),
    (let a = happen_all-Accounts (λ c. true) es (registered mpsc) s e in omega (arith, a.logged)),
    (happen_all-Accounts (λ c. true) es (registered mpsc) s e).unsent (λ k. refl),
  )
