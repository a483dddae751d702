-- ===== src/Server/Accounts.antt =====
-- Which peers a task still has open, and how often it reports an error.
use mangle_webrtc.Common.{
  ℕ, suc, ◌&&◌, ◌||◌, if◌then◌else◌, false, ◌-◌, ◌≤◌, ◌≡◌, refl, Bool, List, [], ◌∷◌, Result, ok,
  err, arith,
}
use mangle_webrtc.Common.Effects.{pure}
use mangle_webrtc.Signaling.{Externals, Branch, ice_to_send, received}
use mangle_webrtc.Server.{
  Event, new_peer_connection, close, on_err, on_success, Exit, returned, panicked, waiting, World,
  Task, send_gathered, receive_ice, exchange, negotiate, serve_offer, serve,
}

-- The peers that were created, and neither closed nor handed to `on_success`.
abbrev pub live : {x : Externals} → List (Event x) → ℕ
live [] = 0
live (new_peer_connection (ok u) ∷ h) = suc (live h)
live (close ∷ h) = live h - 1
live (on_success id ∷ h) = live h - 1
live (_ ∷ h) = live h

abbrev pub errors : {x : Externals} → List (Event x) → ℕ
errors [] = 0
errors (on_err e ∷ h) = suc (errors h)
errors (_ ∷ h) = errors h

-- After a part of a round that holds a peer: a task that returns has closed it and reported one
-- error; else the peer is open, and nothing was reported.
abbrev Fate : {x : Externals} {A : Type 0} → ℕ → Result Exit A × List (Event x) → Type 0
Fate n (ok a, h) = (live h ≡ 1) × (errors h ≡ n)
Fate n (err returned, h) = (live h ≡ 0) × (errors h ≡ suc n)
Fate n (err panicked, h) = (live h ≡ 1) × (errors h ≡ n)
Fate n (err waiting, h) = (live h ≡ 1) × (errors h ≡ n)

-- The rule for a sequence of two parts, of which `r` is what the first came to.
Fate-then :
    {x : Externals} {A B : Type 0} {n : ℕ} (r : Result Exit A × List (Event x)) (f : A → Task x B)
    → Fate n r
    → ((a : A) (k : List (Event x)) → live k ≡ 1 → errors k ≡ n → Fate n (f a k))
    → Fate {x = x} {A = B} n (elim (r.0) [ ok a ↦ f a r.1 | err e ↦ (err e, r.1) ])
Fate-then (ok a, k) f fate next = next a k fate.0 fate.1
Fate-then (err returned, k) f fate next = fate
Fate-then (err panicked, k) f fate next = fate
Fate-then (err waiting, k) f fate next = fate

-- After whole rounds: a round that succeeds has handed its peer on.
abbrev Served : {x : Externals} {A : Type 0} → ℕ → Result Exit A × List (Event x) → Type 0
Served n (ok a, h) = (live h ≡ 0) × (errors h ≡ n)
Served n (err returned, h) = (live h ≡ 0) × (errors h ≡ suc n)
Served n (err panicked, h) = (live h ≤ 1) × (errors h ≡ n)
Served n (err waiting, h) = (live h ≤ 1) × (errors h ≡ n)

-- Where a task that began with `n` reports to `on_err` is left: it never succeeds.
abbrev pub Settles : {x : Externals} {A : Type 0} → ℕ → Result Exit A × List (Event x) → Type 0
Settles n (ok a, h) = ⊥
Settles n (err returned, h) = (live h ≡ 0) × (errors h ≡ suc n)
Settles n (err panicked, h) = (live h ≤ 1) × (errors h ≡ n)
Settles n (err waiting, h) = (live h ≤ 1) × (errors h ≡ n)

module _ {x : Externals} (w : World x) where
  send_gathered-Fate :
      (h : List (Event x)) (n : ℕ) → live h ≡ 1 → errors h ≡ n → Fate n (send_gathered w h)
  unfolding send_gathered
  send_gathered-Fate h n one e = ground arith

  receive_ice-Fate :
      (h : List (Event x)) (n : ℕ) → live h ≡ 1 → errors h ≡ n → Fate n (receive_ice w h)
  unfolding receive_ice
  receive_ice-Fate h n one e = ground arith

  exchange-Fate :
      (branches : List Branch) (ds dr : Bool) (h : List (Event x)) (n : ℕ)
      → live h ≡ 1
      → errors h ≡ n
      → Fate n (exchange w branches ds dr h)
  unfolding exchange
  exchange-Fate [] ds dr h n one e = (one, e)
  exchange-Fate (ice_to_send ∷ branches) ds dr h n one e =
      Fate-then (send_gathered w h)
        (λ last. if last && dr then pure tt else exchange w branches (last || ds) dr)
        (send_gathered-Fate h n one e)
        (λ last k one' e'. ground (arith, exchange-Fate branches (last || ds) dr k n))
  exchange-Fate (received ∷ branches) ds dr h n one e =
      Fate-then (receive_ice w h)
        (λ last. if last && ds then pure tt else exchange w branches ds (last || dr))
        (receive_ice-Fate h n one e)
        (λ last k one' e'. ground (arith, exchange-Fate branches ds (last || dr) k n))

  negotiate-Fate : (h : List (Event x)) (n : ℕ) → live h ≡ 0 → errors h ≡ n → Fate n (negotiate w h)
  unfolding negotiate
  negotiate-Fate h n zero e = ground arith

  serve_offer_fate :
      (branches : List Branch) (h : List (Event x))
      → live h ≡ 0
      → Served (errors h) (serve_offer w branches h)
  unfolding serve_offer
  serve_offer_fate branches h zero = ground (
    arith,
    negotiate-Fate h (errors h) zero refl,
    exchange-Fate branches false false (negotiate w h).1 (errors h),
  )

  -- The task of a connection never ends in success. Started with no open peer, it returns only
  -- behind exactly one report to `on_err`, with every peer that it created closed or handed to
  -- `on_success`; while it waits, or after a panic, no error was reported and one peer at most is
  -- open.
  pub serve_accounts :
      (rounds : List (List Branch)) (h : List (Event x))
      → live h ≡ 0
      → Settles (errors h) (serve w rounds h)
  unfolding serve
  serve_accounts [] h zero = (omega arith, refl)
  serve_accounts (branches ∷ rounds) h zero =
      ground (
        arith,
        serve_offer_fate branches h zero,
        serve_accounts rounds (serve_offer w branches h).1,
      )
