-- ===== src/Tunnel/Pump.antt =====
-- The loops that hand the bytes of one message on, part by part: webrtc-tunnel/src/client.rs.
use mangle_webrtc.Common.{
  ℕ, zero, suc, ◌+◌, Option, none, some, List, [], ◌∷◌, ◌++◌, length, take, drop, ltb,
  if◌then◌else◌,
}

-- How such a loop ends, with the parts that were taken, the first one first: the loop was left, an
-- `unwrap` of an error panicked, or it still runs when the fuel is used up.
pub data Pumped : Type 0 where
  finished : List (List ℕ) → Pumped
  panicked : List (List ℕ) → Pumped
  running : List (List ℕ) → Pumped

-- `send` is a parameter: `takes parts part` is how many bytes of `part` it takes, from the front,
-- where it took `parts` before, and `none` where it answers an error.
module _ (takes : List (List ℕ) → List ℕ → Option ℕ) where
  -- `while sent_n < bytes.len() { sent_n += send(&bytes.slice(sent_n..)).await.unwrap() }`.
  unfoldable pub send_rest : ℕ → List ℕ → ℕ → List (List ℕ) → Pumped
  send_rest zero bytes sent_n parts = running parts
  send_rest (suc fuel) bytes sent_n parts =
      let part = drop sent_n bytes in
      let next : Pumped = elim (takes parts part) [
        | none ↦ panicked parts
        | some k ↦ send_rest fuel bytes (sent_n + k) (parts ++ (take k part ∷ []))
      ] in
      if ltb sent_n (length bytes) then next else finished parts

  -- The loop of the TCP listener, which slices from `n` on: `send(&bytes.slice(n..))`, where `n` is
  -- the number of bytes that were read, the length of `bytes`.
  unfoldable pub send_read : ℕ → List ℕ → ℕ → List (List ℕ) → Pumped
  send_read zero bytes sent_n parts = running parts
  send_read (suc fuel) bytes sent_n parts =
      let n = length bytes in
      let part = drop n bytes in
      let next : Pumped = elim (takes parts part) [
        | none ↦ panicked parts
        | some k ↦ send_read fuel bytes (sent_n + k) (parts ++ (take k part ∷ []))
      ] in
      if ltb sent_n n then next else finished parts
