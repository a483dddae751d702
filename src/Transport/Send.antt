-- ===== src/Transport/Send.antt =====
-- `send_obj` on every branch.
use mathlib.Core.Path.{subst}
use mathlib.Core.List.{append-nil, append_assoc}
use native.Mathlib.Decide.{dec_lt}
use mangle_webrtc.Common.{
  ℕ, ◌^◌, ◌≤◌, ◌<◌, ◌≡◌, ◌≢◌, refl, sym, ap, ◌∙◌, ◌⊎◌, inl, inr, none, some, List, [], ◌++◌, take,
  drop, length, take-append-drop, Option-cases, arith,
}
use mangle_webrtc.Transport.{
  Codec, Io, StreamTransport, transport, Sent, sent, send_failed, too_long, send_obj, send_frame,
  send_payload, flush_sent, u32_to_le_bytes,
}
use mangle_webrtc.Transport.Frame.{frame}

-- The transport after the bytes `b` were written.
abbrev pub wrote : {I : Type 0} → StreamTransport I → List ℕ → StreamTransport I
wrote t b = transport t.stream.incoming (t.stream.outgoing ++ b) t.recv_buffer

-- What has reached the wire, with `unsent` behind it, is `bytes`; nothing is unsent after success.
record Writes {I : Type 0} (r : Sent I × StreamTransport I) (bytes : List ℕ) : Type 0 where
  unsent : List ℕ
  written : r.1.stream.outgoing ++ unsent ≡ bytes
  all_sent : (r.0 ≢ sent) ⊎ (unsent ≡ [])

module _ {I : Type 0} (io : Io I) where
  flush_sent-cases :
      (t : StreamTransport I)
      → (flush_sent io t ≡ (sent, t)) ⊎ ((e : I) × (flush_sent io t ≡ (send_failed e, t)))
  unfolding flush_sent
  flush_sent-cases t = elim (Option-cases (io.flush_fault t.stream.outgoing)) [
    | inl none_failed ↦ inl (ground (arith, none_failed))
    | inr (e, failed) ↦ inr (e, ground (arith, failed))
  ]

  flush_sent-Writes : (t : StreamTransport I) → Writes (flush_sent io t) t.stream.outgoing
  flush_sent-Writes t = elim (flush_sent-cases t) [
    | inl r ↦ subst (λ x. Writes x t.stream.outgoing) (sym r) done
    | inr (e, r) ↦ subst (λ x. Writes x t.stream.outgoing) (sym r) undone
  ]
    where
      done : Writes (sent, t) t.stream.outgoing
      done = record { unsent = []; written = append-nil t.stream.outgoing; all_sent = inr refl }

      undone : {e : I} → Writes (send_failed e, t) t.stream.outgoing
      undone = record { unsent = []; written = append-nil t.stream.outgoing; all_sent = inr refl }

  -- A failed write has sent a part of `b`, and nothing follows it.
  failed_part :
      (t : StreamTransport I) (n : ℕ) (e : I) (b more : List ℕ)
      → Writes (send_failed e, wrote t (take n b)) (t.stream.outgoing ++ (b ++ more))
  failed_part t n e b more = record {
    unsent = drop n b ++ more;
    written =
        append_assoc t.stream.outgoing (take n b) (drop n b ++ more)
        ∙ ap (◌++◌ t.stream.outgoing) (
            sym (append_assoc (take n b) (drop n b) more)
            ∙ ap (λ x. x ++ more) (take-append-drop n b));
    all_sent = inl (λ x. cc);
  }

  send_payload-cases :
      (t : StreamTransport I) (msg : List ℕ)
      → (send_payload io t msg ≡ flush_sent io (wrote t msg))
        ⊎ ((n : ℕ) × (e : I) × (send_payload io t msg ≡ (send_failed e, wrote t (take n msg))))
  unfolding send_payload
  send_payload-cases t msg = elim (Option-cases (io.write_fault t.stream.outgoing msg)) [
    | inl e ↦ inl (ground (arith, e))
    | inr ((n, x), e) ↦ inr (n, x, ground (arith, e))
  ]

  send_payload-Writes :
      (t : StreamTransport I) (msg : List ℕ)
      → Writes (send_payload io t msg) (t.stream.outgoing ++ msg)
  send_payload-Writes t msg = elim (send_payload-cases t msg) [
    | inl r ↦
        subst (λ x. Writes x (t.stream.outgoing ++ msg)) (sym r) (flush_sent-Writes (wrote t msg))
    | inr (n, e, r) ↦
        subst (λ x. Writes x (t.stream.outgoing ++ msg)) (sym r)
          (subst (λ b. Writes (send_failed e, wrote t (take n msg)) (t.stream.outgoing ++ b))
            (append-nil msg) (failed_part t n e msg []))
  ]

  send_frame-cases :
      (t : StreamTransport I) (msg : List ℕ)
      → let size = u32_to_le_bytes (length msg) in
        (send_frame io t msg ≡ send_payload io (wrote t size) msg)
        ⊎ ((n : ℕ) × (e : I) × (send_frame io t msg ≡ (send_failed e, wrote t (take n size))))
  unfolding send_frame u32_to_le_bytes
  send_frame-cases t msg =
      elim (Option-cases (io.write_fault t.stream.outgoing (u32_to_le_bytes (length msg)))) [
        | inl e ↦ inl (ground (arith, e))
        | inr ((n, x), e) ↦ inr (n, x, ground (arith, e))
      ]

  send_frame-Writes :
      (t : StreamTransport I) (msg : List ℕ)
      → Writes (send_frame io t msg) (t.stream.outgoing ++ frame msg)
  unfolding frame
  send_frame-Writes t msg = elim (send_frame-cases t msg) [
    | inl r ↦
        subst (λ x. Writes x (t.stream.outgoing ++ frame msg)) (sym r)
          (subst (Writes (send_payload io (wrote t (u32_to_le_bytes (length msg))) msg))
            (append_assoc t.stream.outgoing (u32_to_le_bytes (length msg)) msg)
            (send_payload-Writes (wrote t (u32_to_le_bytes (length msg))) msg))
    | inr (n, e, r) ↦
        subst (λ x. Writes x (t.stream.outgoing ++ frame msg)) (sym r)
          (failed_part t n e (u32_to_le_bytes (length msg)) msg)
  ]

module _ {E A I : Type 0} (io : Io I) (c : Codec E A) (t : StreamTransport I) (obj : A) where
  -- `send_obj` panics, before it writes a byte, where the message is 2 ^ 32 bytes long or longer.
  send_obj-too_long :
      (msg : List ℕ)
      → c.serialize obj ≡ some msg
      → 2 ^ 32 ≤ length msg
      → send_obj io c t obj ≡ (too_long, t)
  unfolding send_obj
  send_obj-too_long msg e long = ground arith

  send_obj-sends :
      (msg : List ℕ)
      → c.serialize obj ≡ some msg
      → length msg < 2 ^ 32
      → send_obj io c t obj ≡ send_frame io t msg
  unfolding send_obj
  send_obj-sends msg e short = ground arith

  -- Whatever fails, what `send_obj` writes of a message shorter than 2 ^ 32 bytes is a first part of
  -- its frame, and it is the whole frame if the call succeeds.
  pub send_obj_writes :
      (msg : List ℕ)
      → c.serialize obj ≡ some msg
      → length msg < 2 ^ 32
      → (unsent : List ℕ) × ((send_obj io c t obj).1.stream.outgoing ++ unsent
          ≡ t.stream.outgoing ++ frame msg)
        × (((send_obj io c t obj).0 ≢ sent) ⊎ (unsent ≡ []))
  send_obj_writes msg e short =
      let w : Writes (send_obj io c t obj) (t.stream.outgoing ++ frame msg) =
        subst (λ r. Writes r (t.stream.outgoing ++ frame msg)) (sym (send_obj-sends msg e short))
          (send_frame-Writes io t msg) in
      (w.unsent, w.written, w.all_sent)

  -- Where `send_obj` succeeds, the serialized message is shorter than 2 ^ 32 bytes, and its whole
  -- frame was written.
  pub send_obj_fits :
      (send_obj io c t obj).0 ≡ sent
      → (msg : List ℕ) × (c.serialize obj ≡ some msg)
        × (length msg < 2 ^ 32)
        × ((send_obj io c t obj).1.stream.outgoing ≡ t.stream.outgoing ++ frame msg)
  unfolding send_obj
  send_obj_fits e = elim (Option-cases (c.serialize obj)) [
    | inl failed ↦ absurd (ground (arith, failed))
    | inr (msg, done) ↦ elim (dec_lt (length msg) (2 ^ 32)) [
      | yes short ↦ (msg, done, short, whole msg (send_obj_writes msg done short))
      | no long ↦ absurd (ground (arith, send_obj-too_long msg done))
    ]
  ]
    where
      whole :
          (msg : List ℕ)
          → ((unsent : List ℕ) × ((send_obj io c t obj).1.stream.outgoing ++ unsent
                ≡ t.stream.outgoing ++ frame msg)
              × (((send_obj io c t obj).0 ≢ sent) ⊎ (unsent ≡ [])))
          → (send_obj io c t obj).1.stream.outgoing ≡ t.stream.outgoing ++ frame msg
      whole msg (unsent, written, inl other) = absurd (other e)
      whole msg (unsent, written, inr empty) =
          sym (append-nil (send_obj io c t obj).1.stream.outgoing)
          ∙ subst
              (λ u. (send_obj io c t obj).1.stream.outgoing ++ u ≡ t.stream.outgoing ++ frame msg)
              empty written

  -- Where no write and no flush fails, `send_obj` succeeds, writes the frame of the message and
  -- nothing else, and leaves what is received alone.
  pub send_obj-frame :
      (msg : List ℕ)
      → c.serialize obj ≡ some msg
      → length msg < 2 ^ 32
      → ((w b : List ℕ) → io.write_fault w b ≡ none)
      → ((w : List ℕ) → io.flush_fault w ≡ none)
      → send_obj io c t obj ≡ (sent, wrote t (frame msg))
  unfolding send_frame frame
  send_obj-frame msg e short writes flushes =
      send_obj-sends msg e short
      ∙ ground (
        arith,
        writes t.stream.outgoing (u32_to_le_bytes (length msg)),
        writes (t.stream.outgoing ++ u32_to_le_bytes (length msg)) msg,
        flushes ((t.stream.outgoing ++ u32_to_le_bytes (length msg)) ++ msg),
        append_assoc t.stream.outgoing (u32_to_le_bytes (length msg)) msg,
      )
