-- ===== src/Transport/Frame.antt =====
-- The format of a message on the wire, and what a buffer that begins with one holds.
use mangle_webrtc.Common.{
  ℕ, ◌+◌, ◌^◌, ◌≤◌, ◌<◌, ◌≡◌, refl, sym, ap, ◌∙◌, List, [], ◌∷◌, ◌++◌, length, take, drop,
  take-append_le, drop-append_le, take-append_self, drop-append_self, arith,
}
use mangle_webrtc.Transport.{u32_to_le_bytes, u32_from_le_bytes, frame_size}

-- The length of the payload in four bytes, the lowest first, and then the payload.
unfoldable pub frame : List ℕ → List ℕ
frame payload = u32_to_le_bytes (length payload) ++ payload

abbrev pub IsByte : ℕ → Type 0
IsByte b = b < 256

pub u32_from_le_bytes-to :
    (n : ℕ) (rest : List ℕ) → n < 2 ^ 32 → u32_from_le_bytes (u32_to_le_bytes n ++ rest) ≡ n
unfolding u32_from_le_bytes u32_to_le_bytes
u32_from_le_bytes-to n rest h = omega arith

-- Four bytes are the little-endian bytes of the number that they stand for.
pub u32_to_le_bytes-from :
    (a b c d : ℕ)
    → IsByte a
    → IsByte b
    → IsByte c
    → IsByte d
    → u32_to_le_bytes (u32_from_le_bytes (a ∷ b ∷ c ∷ d ∷ [])) ≡ a ∷ b ∷ c ∷ d ∷ []
unfolding u32_from_le_bytes u32_to_le_bytes
u32_to_le_bytes-from a b c d ha hb hc hd = ground arith

pub length-frame : (p : List ℕ) → length (frame p) ≡ length p + 4
unfolding frame u32_to_le_bytes
length-frame p = omega arith

take_four : (buffer more : List ℕ) → 4 ≤ length buffer → take 4 (buffer ++ more) ≡ take 4 buffer
take_four buffer more h = take-append_le 4 buffer more h

frame_size-frame :
    (p rest : List ℕ) → length p < 2 ^ 32 → frame_size (frame p ++ rest) ≡ length p + 4
unfolding frame_size frame u32_from_le_bytes u32_to_le_bytes
frame_size-frame p rest h = omega arith

pub frame_size-append :
    (buffer more : List ℕ) → 4 ≤ length buffer → frame_size (buffer ++ more) ≡ frame_size buffer
unfolding frame_size
frame_size-append buffer more h = rw (take_four buffer more h)

-- What follows is about a buffer, with bytes still to come, that together begin with a frame.
module _ (p rest buffer more : List ℕ) (short : length p < 2 ^ 32)
    (e : buffer ++ more ≡ frame p ++ rest) where
  pub frame_size-prefix : 4 ≤ length buffer → frame_size buffer ≡ length p + 4
  frame_size-prefix h =
      sym (frame_size-append buffer more h) ∙ ap frame_size e ∙ frame_size-frame p rest short

  pub take-prefix : length p + 4 ≤ length buffer → take (length p + 4) buffer ≡ frame p
  take-prefix h =
      sym (take-append_le (length p + 4) buffer more h)
      ∙ ap (take (length p + 4)) e
      ∙ rw (← length-frame p) (take-append_self (frame p) rest)

  pub payload-prefix : length p + 4 ≤ length buffer → drop 4 (take (length p + 4) buffer) ≡ p
  unfolding frame u32_to_le_bytes
  payload-prefix h = rw (take-prefix h) refl

  pub drop-prefix : length p + 4 ≤ length buffer → drop (length p + 4) buffer ++ more ≡ rest
  drop-prefix h =
      sym (drop-append_le (length p + 4) buffer more h)
      ∙ ap (drop (length p + 4)) e
      ∙ rw (← length-frame p) (drop-append_self (frame p) rest)
