-- ===== src/Server/Handovers.antt =====
-- The callbacks of `Handover` and the handles of `Closing` on a concrete queue, and their theorems at
-- concrete inputs.
use mangle_webrtc.Common.{
  ℕ, ◌≡◌, ◌≢◌, refl, map, Bool, true, false, Option, none, some, List, [], ◌∷◌, ◌++◌, ok, err,
  arith,
}
use mangle_webrtc.Server.Handover.{
  MpscChannel, Happening, announced, open_received, sent, taken_next, dropped, count, State,
  registered, send_channel, happen, happen_all,
}
use mangle_webrtc.Server.Run.{
  Arrival, aborted, awaited, accepted, accept_failed, starts, transports, run,
}
use mangle_webrtc.Server.Closing.{
  Occurrence, answered, close_called, close_polled, Bounded, arrive, run-close_server,
}
use mangle_webrtc.Server.Handed.{announcements, failures, held, happen_all-registered}

-- A queue with one place.
abbrev try_send : {A : Type 0} → A → List A → Option (List A)
try_send a [] = some (a ∷ [])
try_send a (b ∷ bs) = none

abbrev recv : {A : Type 0} → List A → Option (A × List A)
recv [] = none
recv (b ∷ bs) = some (b, bs)

contents-try_send : {A : Type 0} (a : A) (q r : List A) → try_send a q ≡ some r → r ≡ q ++ (a ∷ [])
contents-try_send a [] r e = ground arith
contents-try_send a (b ∷ bs) r e = absurd (ground arith)

contents-recv : {A : Type 0} (a : A) (q r : List A) → recv q ≡ some (a, r) → q ≡ a ∷ r
contents-recv a [] r e = absurd (ground arith)
contents-recv a (b ∷ bs) r e = ground arith

abbrev one_place : (A : Type 0) → MpscChannel A
one_place A = record {
  Queue = List A;
  empty = [];
  try_send = try_send;
  recv = recv;
  contents = λ q. q;
  contents-empty = refl;
  contents-try_send = contents-try_send;
  contents-recv = contents-recv;
}

-- Three data channels, of which the second fails to open and is sent first.
abbrev happenings : List (Happening ℕ)
happenings =
    announced 1
    ∷ announced 2
    ∷ open_received 0 (err tt)
    ∷ open_received 0 (ok tt)
    ∷ sent 1
    ∷ taken_next
    ∷ sent 0
    ∷ announced 3
    ∷ []

abbrev behind : State (one_place ℕ)
behind = record {
  opening = 3 ∷ [];
  sending = [];
  queue = 1 ∷ [];
  taken = 2 ∷ [];
  receiver_dropped = false;
  unsent = [];
  errors = 1;
}

leads_behind : happen_all (one_place ℕ) happenings (registered (one_place ℕ)) ≡ some behind
unfolding happen_all happen send_channel
leads_behind = refl

-- While the one place is taken, the sender waits on.
full_waits : happen (one_place ℕ) (sent 0) (record behind { sending = 5 ∷ [] }) ≡ none
unfolding happen send_channel
full_waits = refl

drop_loses :
    happen_all (one_place ℕ) (dropped ∷ sent 0 ∷ []) (record behind { sending = 5 ∷ [] })
    ≡ some (record behind { receiver_dropped = true; unsent = 5 ∷ [] })
unfolding happen_all happen send_channel
drop_loses = refl

happen_all-registered_example :
    ((p : ℕ → Bool) → held (one_place ℕ) p behind ≡ count p (announcements happenings))
    × (1 ≡ failures happenings)
    × (false ≡ false → behind.unsent ≡ [])
happen_all-registered_example = happen_all-registered (one_place ℕ) happenings behind leads_behind

one_place-full : (a : Unit {0}) (q : List (Unit {0})) → try_send a q ≡ none → q ≢ []
one_place-full a [] refused e = ground (arith, refused)
one_place-full a (b ∷ bs) refused e = ground (arith, e)

one_place-empty_only : (q : List (Unit {0})) → recv q ≡ none → q ≡ []
one_place-empty_only [] waits = refl
one_place-empty_only (b ∷ bs) waits = absurd (ground (arith, waits))

one_place-Bounded : Bounded (one_place (Unit {0}))
one_place-Bounded = record { full = one_place-full; empty_only = one_place-empty_only }

-- Two connections; the server is closed twice, and polls once too early.
abbrev before_close : List (Occurrence ℕ ℕ)
before_close = answered (ok 1) ∷ close_polled ∷ answered (err 7) ∷ []

abbrev while_closing : List (Occurrence ℕ ℕ)
while_closing = close_called ∷ answered (ok 2) ∷ []

run-close_server_example :
    let seen : List (Arrival ℕ ℕ) = accepted 1 ∷ accept_failed 7 ∷ accepted 2 ∷ [] in
    run (
      arrive
        (one_place (Unit {0}))
        []
        (before_close ++ (close_called ∷ while_closing ++ (close_polled ∷ answered (ok 3) ∷ []))))
    ≡ starts seen ++ (map aborted (transports seen) ++ map awaited (transports seen))
run-close_server_example =
    run-close_server (one_place (Unit {0})) one_place-Bounded before_close while_closing
      (answered (ok 3) ∷ []) tt tt
