-- ===== src/Tunnel/Delivery.antt =====
-- Whether the loops of `Pump` deliver the bytes.
use mathlib.Core.List.{append-nil}
use native.Mathlib.Decide.{dec_lt}
use native.Mathlib.Nat.{zero-add, suc-add}
use mangle_webrtc.Common.{
  ℕ, zero, suc, ◌+◌, ◌≤◌, ◌<◌, ◌≡◌, refl, sym, ap, ◌∙◌, Option, some, List, [], ◌∷◌, ◌++◌, length,
  take, drop, length-drop, arith,
}
use mangle_webrtc.Transport.Receive.{concat, concat-append}
use mangle_webrtc.Tunnel.Pump.{Pumped, finished, panicked, running, send_rest, send_read}

take-nil : (n : ℕ) → take {A = ℕ} n [] ≡ []
take-nil zero = refl
take-nil (suc n) = refl

pub take-add : (n k : ℕ) (xs : List ℕ) → take (n + k) xs ≡ take n xs ++ take k (drop n xs)
take-add zero k xs = rw zero-add refl
take-add (suc n) k [] = take-nil (suc n + k) ∙ sym (take-nil k)
take-add (suc n) k (x ∷ xs) = rw suc-add (ap (◌∷◌ x) (take-add n k xs))

pub take-all : (n : ℕ) (xs : List ℕ) → length xs ≤ n → take n xs ≡ xs
take-all n [] h = take-nil n
take-all zero (x ∷ xs) h = absurd (omega arith)
take-all (suc n) (x ∷ xs) h = ap (◌∷◌ x) (take-all n xs (omega arith))

drop-length : (xs : List ℕ) → drop (length xs) xs ≡ []
drop-length [] = refl
drop-length (x ∷ xs) = drop-length xs

-- All of `bytes` was delivered, in order.
abbrev pub Delivered : List ℕ → Pumped → Type 0
Delivered bytes (finished parts) = concat parts ≡ bytes
Delivered bytes (panicked parts) = ⊥
Delivered bytes (running parts) = ⊥

-- The loop still runs, and not one byte was delivered.
abbrev pub Stuck : Pumped → Type 0
Stuck (finished parts) = ⊥
Stuck (panicked parts) = ⊥
Stuck (running parts) = concat parts ≡ []

module _ (takes : List (List ℕ) → List ℕ → Option ℕ) where
  -- Every call of `send` takes a byte at least of what it is given, and no more than that.
  abbrev pub Progress : Type 0
  Progress =
      (parts : List (List ℕ)) (part : List ℕ)
      → 1 ≤ length part
      → (k : ℕ) × (takes parts part ≡ some k) × (1 ≤ k) × (k ≤ length part)

  send_rest_delivers :
      Progress
      → (fuel : ℕ) (bytes : List ℕ) (sent_n : ℕ) (parts : List (List ℕ))
      → length bytes < fuel + sent_n
      → sent_n ≤ length bytes
      → concat parts ≡ take sent_n bytes
      → Delivered bytes (send_rest takes fuel bytes sent_n parts)
  unfolding send_rest
  send_rest_delivers progress zero bytes sent_n parts enough within so_far = absurd (omega arith)
  send_rest_delivers progress (suc fuel) bytes sent_n parts enough within so_far =
      elim (dec_lt sent_n (length bytes)) [
        | yes more ↦
            let part = drop sent_n bytes in
            let (k, e, some_taken, no_more) =
              progress parts part (omega (arith, length-drop sent_n bytes)) in
            ground (
              arith,
              e,
              length-drop sent_n bytes,
              send_rest_delivers progress fuel bytes (sent_n + k) (parts ++ (take k part ∷ []))
                  (omega arith) (omega (arith, length-drop sent_n bytes))
                  (concat-append parts (take k part ∷ [])
                    ∙ ap (λ b. concat parts ++ b) (append-nil (take k part))
                    ∙ ap (λ b. b ++ take k part) so_far
                    ∙ sym (take-add sent_n k bytes)),
            )
        | no done ↦ ground (arith, so_far, take-all sent_n bytes)
      ]

  -- Where every call of `send` takes at least one byte and no more than it is given, the loop
  -- of the task of a UDP data channel ends, within as many rounds as the message has bytes, and has
  -- delivered all of the message, in order.
  pub send_rest-delivers :
      Progress
      → (bytes : List ℕ) → Delivered bytes (send_rest takes (suc (length bytes)) bytes 0 [])
  send_rest-delivers progress bytes =
      send_rest_delivers progress (suc (length bytes)) bytes 0 [] (omega arith) (omega arith) refl

  -- A call of `send` with no byte takes none, and is no error.
  abbrev pub TakesNothing : Type 0
  TakesNothing = (parts : List (List ℕ)) → takes parts [] ≡ some 0

  send_read_from-Stuck :
      TakesNothing
      → (fuel : ℕ) (bytes : List ℕ) (parts : List (List ℕ)) → 1 ≤ length bytes
      → concat parts ≡ []
      → Stuck (send_read takes fuel bytes 0 parts)
  unfolding send_read
  send_read_from-Stuck nothing zero bytes parts some_read empty = empty
  send_read_from-Stuck nothing (suc fuel) bytes parts some_read empty = ground (
    arith,
    drop-length bytes,
    nothing parts,
    send_read_from-Stuck nothing fuel bytes (parts ++ ([] ∷ [])) some_read
        (concat-append parts ([] ∷ []) ∙ append-nil (concat parts) ∙ empty),
  )

  -- The loop of the TCP listener slices the bytes that it has read behind their end. Where a `send`
  -- of no byte takes none, the loop never ends once a byte was read, whatever fuel it is given, and
  -- delivers nothing.
  pub send_read-Stuck :
      TakesNothing
      → (fuel : ℕ) (bytes : List ℕ) → 1 ≤ length bytes
      → Stuck (send_read takes fuel bytes 0 [])
  send_read-Stuck nothing fuel bytes some_read =
      send_read_from-Stuck nothing fuel bytes [] some_read refl
