-- ===== src/Transport/Receive.antt =====
-- `recv_obj` against the bytes that are still to be consumed, however they are cut into reads.
use mathlib.Core.List.{append_assoc, append-nil, map-append}
use native.Mathlib.Decide.{dec_lt}
use mangle_webrtc.Common.{
  ℕ, ◌+◌, ◌^◌, ◌≤◌, ◌<◌, ◌≡◌, refl, sym, ap, ◌∙◌, ◌⊎◌, inl, inr, List, [], ◌∷◌, ◌++◌, map, length,
  Result, Poll, map_err, ready, length-append, arith,
}
use mangle_webrtc.Transport.{
  Codec, Io, RecvError, Read, chunk, StreamTransport, transport, frame_size, take_message,
  recv_loop, recv_obj, deserialize_error,
}
use mangle_webrtc.Transport.Frame.{
  frame, length-frame, frame_size-prefix, payload-prefix, drop-prefix,
}

abbrev pub concat : List (List ℕ) → List ℕ
concat [] = []
concat (b ∷ bs) = b ++ concat bs

pub concat-append : (xs ys : List (List ℕ)) → concat (xs ++ ys) ≡ concat xs ++ concat ys
concat-append [] ys = refl
concat-append (x ∷ xs) ys =
    ap (◌++◌ x) (concat-append xs ys) ∙ sym (append_assoc x (concat xs) (concat ys))

abbrev pub AllNonempty : List (List ℕ) → Type 0
AllNonempty [] = Unit {0}
AllNonempty (b ∷ bs) = (1 ≤ length b) × AllNonempty bs

AllNonempty-append :
    (xs ys : List (List ℕ)) → AllNonempty xs → AllNonempty ys → AllNonempty (xs ++ ys)
AllNonempty-append [] ys hx hy = hy
AllNonempty-append (b ∷ xs) ys hx hy = (hx.0, AllNonempty-append xs ys hx.1 hy)

-- The bytes that `t` has buffered or is still to read before the answers `later` are `bytes`.
-- It leaves open how many of them are buffered, and how the rest is cut into reads.
pub record Holds {I : Type 0} (t : StreamTransport I) (bytes : List ℕ) (later : List (Read I))
    : Type 0 where
  pub chunks : List (List ℕ)
  pub nonempty : AllNonempty chunks
  pub incoming : t.stream.incoming ≡ map chunk chunks ++ later
  pub content : t.recv_buffer ++ concat chunks ≡ bytes

-- More bytes come in.
pub Holds-chunk :
    {I : Type 0} (t : StreamTransport I) (bytes b : List ℕ)
    → 1 ≤ length b
    → Holds t bytes []
    → Holds
        (transport (t.stream.incoming ++ (chunk b ∷ [])) t.stream.outgoing t.recv_buffer)
        (bytes ++ b)
        []
Holds-chunk t bytes b full h = record {
  chunks = h.chunks ++ (b ∷ []);
  nonempty = AllNonempty-append h.chunks (b ∷ []) h.nonempty (full, tt);
  incoming =
      ap (λ rs. rs ++ (chunk b ∷ [])) (h.incoming ∙ append-nil (map chunk h.chunks))
      ∙ sym (append-nil (map chunk (h.chunks ++ (b ∷ []))) ∙ map-append chunk h.chunks (b ∷ []));
  content =
      ap (◌++◌ t.recv_buffer)
        (concat-append h.chunks (b ∷ []) ∙ ap (◌++◌ (concat h.chunks)) (append-nil b))
      ∙ sym (append_assoc t.recv_buffer (concat h.chunks) b)
      ∙ ap (λ c. c ++ b) h.content;
}

-- The bytes do not hold a whole message yet.
abbrev pub IsPartial : List ℕ → Type 0
IsPartial bytes = (length bytes < 4) ⊎ (length bytes < frame_size bytes)

-- A buffer that is shorter than the frame it begins is partial.
pub IsPartial-of :
    (p rest buffer more : List ℕ)
    → length p < 2 ^ 32
    → buffer ++ more ≡ frame p ++ rest
    → length buffer < length p + 4
    → IsPartial buffer
IsPartial-of p rest buffer more short e part = elim (dec_lt (length buffer) 4) [
  | yes few ↦ inl few
  | no enough ↦ inr (omega (arith, frame_size-prefix p rest buffer more short e (omega arith)))
]

module _ {E A I : Type 0} (io : Io I) (c : Codec E A) where
  pub take_message-frame :
      (p rest buffer : List ℕ) (outgoing : List ℕ) (cs : List (List ℕ)) (later : List (Read I))
      → length p < 2 ^ 32
      → AllNonempty cs
      → buffer ++ concat cs ≡ frame p ++ rest
      → length p + 4 ≤ length buffer
      → let r = take_message io c outgoing (map chunk cs ++ later) buffer in
        (r.0 ≡ ready (map_err deserialize_error (c.deserialize p))) × Holds r.1 rest later
  unfolding take_message
  take_message-frame p rest buffer outgoing cs later short ne e h =
      rw (frame_size-prefix p rest buffer (concat cs) short e (omega arith)) (
        rw (payload-prefix p rest buffer (concat cs) short e h) refl,
        record {
          chunks = cs;
          nonempty = ne;
          incoming = refl;
          content = drop-prefix p rest buffer (concat cs) short e h;
        },
      )

  module _ (outgoing : List ℕ) (incoming : List (Read I)) (b buffer : List ℕ)
      (h : 1 ≤ length b) where
    pub recv_loop-more :
        IsPartial (buffer ++ b)
        → recv_loop io c outgoing (chunk b ∷ incoming) buffer
          ≡ recv_loop io c outgoing incoming (buffer ++ b)
    unfolding recv_loop
    recv_loop-more short = ground arith

    pub recv_loop-take :
        4 ≤ length (buffer ++ b)
        → frame_size (buffer ++ b) ≤ length (buffer ++ b)
        → recv_loop io c outgoing (chunk b ∷ incoming) buffer
          ≡ take_message io c outgoing incoming (buffer ++ b)
    unfolding recv_loop
    recv_loop-take four whole = ground arith

  -- What `recv_obj` and its loop come to where the next message is `p`.
  abbrev pub Delivers :
      Poll (Result (RecvError E I) A) × StreamTransport I → List ℕ → List ℕ → List (Read I) → Type 0
  Delivers r p rest later =
      (r.0 ≡ ready (map_err deserialize_error (c.deserialize p))) × Holds r.1 rest later

  pub recv_loop-frame :
      (cs : List (List ℕ)) (p rest buffer outgoing : List ℕ) (later : List (Read I))
      → length p < 2 ^ 32
      → AllNonempty cs
      → buffer ++ concat cs ≡ frame p ++ rest
      → length buffer < length p + 4
      → Delivers (recv_loop io c outgoing (map chunk cs ++ later) buffer) p rest later
  recv_loop-frame [] p rest buffer outgoing later short ne e lt = absurd (
      omega
        (arith, ap length e, length-append (frame p) rest, length-append buffer [], length-frame p))
  recv_loop-frame (b ∷ cs) p rest buffer outgoing later short ne e lt =
      elim (dec_lt (length (buffer ++ b)) (length p + 4)) [
        | yes part ↦
            rw
              (recv_loop-more outgoing (map chunk cs ++ later) b buffer ne.0
                (IsPartial-of p rest (buffer ++ b) (concat cs) short whole part))
              (recv_loop-frame cs p rest (buffer ++ b) outgoing later short ne.1 whole part)
        | no all ↦
            rw
              (recv_loop-take outgoing (map chunk cs ++ later) b buffer ne.0 (omega arith)
                (omega (arith, frame_size-prefix p rest (buffer ++ b) (concat cs) short whole)))
              (take_message-frame p rest (buffer ++ b) outgoing cs later short ne.1 whole
                (omega arith))
      ]
    where
      whole : (buffer ++ b) ++ concat cs ≡ frame p ++ rest
      whole = append_assoc buffer b (concat cs) ∙ e

  pub recv_obj-buffered :
      (t : StreamTransport I)
      → 4 ≤ length t.recv_buffer
      → frame_size t.recv_buffer ≤ length t.recv_buffer
      → recv_obj io c t ≡ take_message io c t.stream.outgoing t.stream.incoming t.recv_buffer
  unfolding recv_obj
  recv_obj-buffered t four whole = ground arith

  pub recv_obj-unbuffered :
      (t : StreamTransport I)
      → IsPartial t.recv_buffer
      → recv_obj io c t ≡ recv_loop io c t.stream.outgoing t.stream.incoming t.recv_buffer
  unfolding recv_obj
  recv_obj-unbuffered t short = ground arith
