-- ===== src/Transport/Chunks.antt =====
-- `recv_obj` does not depend on how a stream cuts its bytes.
use mangle_webrtc.Common.{
  ℕ, zero, suc, ◌^◌, ◌≤◌, ◌<◌, ◌≡◌, refl, sym, ap, ◌∙◌, inl, inr, List, [], ◌∷◌, ◌++◌, length, take,
  drop, take-append-drop, arith,
}
use mathlib.Core.Path.{subst}
use mangle_webrtc.Transport.{
  Codec, Io, StreamTransport, u32_to_le_bytes, u32_from_le_bytes, frame_size, recv_obj,
}
use mangle_webrtc.Transport.Frame.{frame, IsByte, u32_to_le_bytes-from}
use mangle_webrtc.Transport.Receive.{Holds}
use mangle_webrtc.Transport.Delivery.{
  IsPartial-cases, Break, reads, recv_obj-frame, recv_obj-partial,
}

abbrev pub AllBytes : List ℕ → Type 0
AllBytes [] = Unit {0}
AllBytes (b ∷ bs) = IsByte b × AllBytes bs

length-take : (n : ℕ) (xs : List ℕ) → n ≤ length xs → length (take n xs) ≡ n
length-take zero xs h = refl
length-take (suc n) [] h = absurd (omega arith)
length-take (suc n) (x ∷ xs) h = omega (arith, length-take n xs (omega arith))

-- Bytes that are no partial message begin with a frame.
frame-of :
    (bytes : List ℕ)
    → AllBytes bytes
    → 4 ≤ length bytes
    → frame_size bytes ≤ length bytes
    → (p : List ℕ) × (rest : List ℕ) × (length p < 2 ^ 32) × (bytes ≡ frame p ++ rest)
unfolding frame_size frame u32_from_le_bytes
frame-of [] all four whole = absurd (omega arith)
frame-of (a ∷ []) all four whole = absurd (omega arith)
frame-of (a ∷ b ∷ []) all four whole = absurd (omega arith)
frame-of (a ∷ b ∷ c ∷ []) all four whole = absurd (omega arith)
frame-of (a ∷ b ∷ c ∷ d ∷ xs) (ha, (hb, (hc, (hd, all)))) four whole =
    let n = u32_from_le_bytes (a ∷ b ∷ c ∷ d ∷ []) in
    let long = length-take n xs (omega arith) in
    (
      take n xs,
      drop n xs,
      omega (arith, long),
      sym (
          ap (λ k. (u32_to_le_bytes k ++ take n xs) ++ drop n xs) long
          ∙ ap (λ b. (b ++ take n xs) ++ drop n xs) (u32_to_le_bytes-from a b c d ha hb hc hd)
          ∙ ap (λ ys. a ∷ b ∷ c ∷ d ∷ ys) (take-append-drop n xs)),
    )

module _ {E A I : Type 0} (io : Io I) (c : Codec E A) where
  -- Two transports that hold the same bytes, followed by the same break, answer a call of `recv_obj`
  -- alike, however many of the bytes each has buffered and however each cuts the rest into reads.
  pub recv_obj_chunks :
      (t t' : StreamTransport I) (bytes : List ℕ) (b : Break I)
      → AllBytes bytes
      → Holds t bytes (reads b)
      → Holds t' bytes (reads b)
      → (recv_obj io c t).0 ≡ (recv_obj io c t').0
  recv_obj_chunks t t' bytes b all h h' = elim (IsPartial-cases bytes) [
    | inl part ↦
        ap (λ r. r.0) (recv_obj-partial io c t bytes b part h)
        ∙ sym (ap (λ r. r.0) (recv_obj-partial io c t' bytes b part h'))
    | inr (four, whole) ↦
        let (p, rest, short, e) = frame-of bytes all four whole in
        (recv_obj-frame io c t p rest (reads b) short (subst (λ x. Holds t x (reads b)) e h)).0
        ∙ sym (
            (recv_obj-frame io c t' p rest (reads b) short
              (subst (λ x. Holds t' x (reads b)) e h')).0)
  ]
