-- ===== src/Client/Transcript.antt =====
-- What the log of an `upgrade` holds, and how a statement about its parts goes through the whole.
use Prim.Native.String.{String}
use mangle_webrtc.Common.{
  ◌≡◌, refl, ap, Bool, true, false, Option, none, some, List, [], ◌∷◌, ◌++◌, Result, ok, err,
}
use mangle_webrtc.Signaling.{Externals, ice}
use mangle_webrtc.Client

-- The candidates that `ice_receiver` gave out and those that were sent, the newest first; `none` is
-- their end. What is gathered before the callback is set is not among them.
abbrev pub gathered : {x : Externals} → List (Client.Event x) → List (Option x.Candidate)
gathered [] = []
gathered (Client.ice_recv (some c) ∷ log) = c ∷ gathered log
gathered (_ ∷ log) = gathered log

abbrev pub sent_candidates : {x : Externals} → List (Client.Event x) → List (Option x.Candidate)
sent_candidates [] = []
sent_candidates (Client.send_ice c (ok u) ∷ log) = c ∷ sent_candidates log
sent_candidates (_ ∷ log) = sent_candidates log

-- The candidates of the server, before its answer and after it, and those that the peer was given.
abbrev pub received_candidates : {x : Externals} → List (Client.Event x) → List x.CandidateInit
received_candidates [] = []
received_candidates (Client.recv_message (ok (ice init)) ∷ log) = init ∷ received_candidates log
received_candidates (Client.recv_ice (ok (some (ice init))) ∷ log) = init ∷ received_candidates log
received_candidates (_ ∷ log) = received_candidates log

abbrev pub added_candidates : {x : Externals} → List (Client.Event x) → List x.CandidateInit
added_candidates [] = []
added_candidates (Client.add_ice_candidate init (ok u) ∷ log) = init ∷ added_candidates log
added_candidates (_ ∷ log) = added_candidates log

-- The end of the candidates was sent; it was received.
abbrev pub sent_end : {x : Externals} → List (Client.Event x) → Bool
sent_end [] = false
sent_end (Client.send_ice none (ok u) ∷ log) = true
sent_end (_ ∷ log) = sent_end log

abbrev pub received_end : {x : Externals} → List (Client.Event x) → Bool
received_end [] = false
received_end (Client.recv_ice (ok none) ∷ log) = true
received_end (_ ∷ log) = received_end log

abbrev pub labels {ℓ} : {A : Type ℓ} → List (String × A) → List String
labels [] = []
labels ((label, a) ∷ xs) = label ∷ labels xs

pub labels-append {ℓ} :
    {A : Type ℓ} (xs ys : List (String × A)) → labels (xs ++ ys) ≡ labels xs ++ labels ys
labels-append [] ys = refl
labels-append ((label, a) ∷ xs) ys = ap (◌∷◌ label) (labels-append xs ys)

-- `P` holds of what a successful part of `upgrade` leads to.
abbrev pub Ensures :
    {x : Externals} {A : Type 0}
    → (A → List (Client.Event x) → Type 0)
    → Result (Client.Exit x) A × List (Client.Event x)
    → Type 0
Ensures P (ok a, log) = P a log
Ensures P (err e, log) = Unit {0}

pub Ensures-then :
    {x : Externals} {A B : Type 0} (P : A → List (Client.Event x) → Type 0)
    (Q : B → List (Client.Event x) → Type 0) (r : Result (Client.Exit x) A × List (Client.Event x))
    (f : A → Client.Upgrade x B)
    → Ensures P r
    → ((a : A) (k : List (Client.Event x)) → P a k → Ensures Q (f a k))
    → Ensures {x = x} Q (elim (r.0) [ ok a ↦ f a r.1 | err e ↦ (err e, r.1) ])
Ensures-then P Q (ok a, k) f p next = next a k p
Ensures-then P Q (err e, k) f p next = tt

pub Ensures-map :
    {x : Externals} {A : Type 0} {P Q : A → List (Client.Event x) → Type 0}
    (r : Result (Client.Exit x) A × List (Client.Event x))
    → Ensures P r
    → ((a : A) (k : List (Client.Event x)) → P a k → Q a k)
    → Ensures Q r
Ensures-map (ok a, k) p f = f a k p
Ensures-map (err e, k) p f = tt

pub Ensures-ok :
    {x : Externals} {A : Type 0} (P : List (Client.Event x) → Type 0) {a : A}
    (r : Result (Client.Exit x) A × List (Client.Event x))
    → Ensures (λ b. P) r
    → r.0 ≡ ok a
    → P r.1
Ensures-ok P (ok b, k) p e = p
Ensures-ok P (err f, k) p e = absurd cc
