-- ===== src/Transport/Faithful.antt =====
-- A session against what the other end of the stream has sent: `Session` and the format of `Frame`.
use mathlib.Core.Path.{subst}
use mathlib.Core.List.{append_assoc, append-nil}
use mangle_webrtc.Common.{
  ℕ, ◌+◌, ◌^◌, ◌≤◌, ◌<◌, ◌≡◌, refl, sym, ap, ◌∙◌, ◌⊎◌, inl, inr, List, [], ◌∷◌, ◌++◌, length, drop,
  take-append-drop, length-append, map_err, ready, pending, arith,
}
use mangle_webrtc.Transport.{
  Codec, Io, Read, chunk, fail, StreamTransport, transport, frame_size, take_message, recv_loop,
  recv_obj, deserialize_error, send_obj, send_frame, send_payload, flush_sent,
}
use mangle_webrtc.Transport.Frame.{frame, frame_size-prefix, take-prefix, drop-prefix}
use mangle_webrtc.Transport.Receive.{Holds}
use mangle_webrtc.Transport.Delivery.{recv_obj-frame, recv_obj-partial, IsPartial-cases, quiet}

-- Payloads on the wire: the first list has the newest first, the second the oldest.
abbrev pub wire : List (List ℕ) → List ℕ
wire [] = []
wire (q ∷ qs) = wire qs ++ frame q

abbrev pub frames_of : List (List ℕ) → List ℕ
frames_of [] = []
frames_of (q ∷ qs) = frame q ++ frames_of qs

abbrev pub rev_onto {ℓ} : {A : Type ℓ} → List A → List A → List A
rev_onto [] ys = ys
rev_onto (x ∷ xs) ys = rev_onto xs (x ∷ ys)

pub wire-rev_onto : (qs got : List (List ℕ)) → wire (rev_onto qs got) ≡ wire got ++ frames_of qs
wire-rev_onto [] got = sym (append-nil (wire got))
wire-rev_onto (q ∷ qs) got =
    wire-rev_onto qs (q ∷ got) ∙ append_assoc (wire got) (frame q) (frames_of qs)

pub rev_onto-append {ℓ} : {A : Type ℓ} (xs ys : List A) → rev_onto xs ys ≡ rev_onto xs [] ++ ys
rev_onto-append [] ys = refl
rev_onto-append (x ∷ xs) ys =
    rev_onto-append xs (x ∷ ys)
    ∙ sym (
        ap (λ zs. zs ++ ys) (rev_onto-append xs (x ∷ []))
        ∙ append_assoc (rev_onto xs []) (x ∷ []) ys)

pub rev_onto_rev {ℓ} : {A : Type ℓ} (xs ys : List A) → rev_onto (rev_onto xs ys) [] ≡ rev_onto ys xs
rev_onto_rev [] ys = refl
rev_onto_rev (x ∷ xs) ys = rev_onto_rev xs (x ∷ ys)

abbrev pub AllShort : List (List ℕ) → Type 0
AllShort [] = Unit {0}
AllShort (q ∷ qs) = (length q < 2 ^ 32) × AllShort qs

pub AllShort-rev_onto :
    (xs ys : List (List ℕ)) → AllShort xs → AllShort ys → AllShort (rev_onto xs ys)
AllShort-rev_onto [] ys hx hy = hy
AllShort-rev_onto (x ∷ xs) ys hx hy = AllShort-rev_onto xs (x ∷ ys) hx.1 (hx.0, hy)

module _ {E A I : Type 0} (io : Io I) (c : Codec E A) where
  recv_loop-outgoing :
      (outgoing : List ℕ) (rs : List (Read I)) (buffer : List ℕ)
      → (recv_loop io c outgoing rs buffer).1.stream.outgoing ≡ outgoing
  unfolding recv_loop take_message
  recv_loop-outgoing outgoing [] buffer = refl
  recv_loop-outgoing outgoing (fail e ∷ rs) buffer = refl
  recv_loop-outgoing outgoing (chunk b ∷ rs) buffer =
      ground (arith, recv_loop-outgoing outgoing rs (buffer ++ b))

  pub recv_obj-outgoing :
      (t : StreamTransport I) → (recv_obj io c t).1.stream.outgoing ≡ t.stream.outgoing
  unfolding recv_obj take_message
  recv_obj-outgoing t =
      ground (arith, recv_loop-outgoing t.stream.outgoing t.stream.incoming t.recv_buffer)

  -- Sending leaves alone what is received.
  pub send_obj-receives :
      (t : StreamTransport I) (a : A)
      → ((send_obj io c t a).1.stream.incoming ≡ t.stream.incoming)
        × ((send_obj io c t a).1.recv_buffer ≡ t.recv_buffer)
  unfolding send_obj send_frame send_payload flush_sent
  send_obj-receives t a = ground arith

  -- What a call of `recv_obj` does to a transport that holds `bytes`, a first part of the frames of
  -- `payloads`: it waits and keeps them, or it takes the first payload.
  pub recv_obj-next :
      (t : StreamTransport I) (bytes unseen : List ℕ) (payloads : List (List ℕ))
      → AllShort payloads
      → Holds t bytes []
      → bytes ++ unseen ≡ frames_of payloads
      → (((recv_obj io c t).0 ≡ pending) × Holds (recv_obj io c t).1 bytes [])
        ⊎ ((q : List ℕ) × (rest : List (List ℕ)) × (left : List ℕ) × (payloads ≡ q ∷ rest)
            × ((recv_obj io c t).0 ≡ ready (map_err deserialize_error (c.deserialize q)))
            × Holds (recv_obj io c t).1 left []
            × (left ++ unseen ≡ frames_of rest))
  recv_obj-next t bytes unseen payloads short h e = elim (IsPartial-cases bytes) [
    | inl part ↦
        let waits = recv_obj-partial io c t bytes quiet part h in
        inl (ap (λ r. r.0) waits, subst (λ r. Holds r.1 bytes []) (sym waits) all_buffered)
    | inr (four, whole) ↦ inr (takes payloads short four whole e)
  ]
    where
      all_buffered : Holds {I = I} (transport [] t.stream.outgoing bytes) bytes []
      all_buffered = record {
        chunks = [];
        nonempty = tt;
        incoming = refl;
        content = append-nil bytes;
      }

      takes :
          (payloads : List (List ℕ))
          → AllShort payloads
          → 4 ≤ length bytes
          → frame_size bytes ≤ length bytes
          → bytes ++ unseen ≡ frames_of payloads
          → (q : List ℕ) × (rest : List (List ℕ)) × (left : List ℕ) × (payloads ≡ q ∷ rest)
            × ((recv_obj io c t).0 ≡ ready (map_err deserialize_error (c.deserialize q)))
            × Holds (recv_obj io c t).1 left []
            × (left ++ unseen ≡ frames_of rest)
      takes [] short four whole e = absurd (omega (arith, ap length e, length-append bytes unseen))
      takes (q ∷ rest) short four whole e =
          let size = frame_size-prefix q (frames_of rest) bytes unseen short.0 e four in
          let enough : length q + 4 ≤ length bytes = omega (arith, size) in
          let left = drop (length q + 4) bytes in
          let cut : bytes ≡ frame q ++ left =
            sym (take-append-drop (length q + 4) bytes)
            ∙ ap (λ b. b ++ left) (take-prefix q (frames_of rest) bytes unseen short.0 e enough) in
          let (now, kept) =
            recv_obj-frame io c t q left [] short.0 (subst (λ b. Holds t b []) cut h) in
          (
            q,
            rest,
            left,
            refl,
            now,
            kept,
            drop-prefix q (frames_of rest) bytes unseen short.0 e enough,
          )
