-- ===== src/Transport/Delivery.antt =====
-- `recv_obj` as a whole: messages, incomplete messages, and calls that were given up.
use mathlib.Core.Path.{subst}
use mathlib.Core.List.{append_assoc, append-nil}
use native.Mathlib.Decide.{dec_lt}
use mangle_webrtc.Common.{
  ℕ, ◌+◌, ◌^◌, ◌≤◌, ◌<◌, ◌≡◌, ◌≢◌, refl, sym, ap, ◌∙◌, ◌⊎◌, inl, inr, List, [], ◌∷◌, ◌++◌, map,
  length, Poll, Result, map_err, ready, pending, err, length-append, arith,
}
use mangle_webrtc.Transport.{
  Codec, Io, RecvError, Read, chunk, fail, StreamTransport, transport, frame_size, take_message,
  recv_loop, recv_obj, deserialize_error, io_error,
}
use mangle_webrtc.Transport.Frame.{frame, frame_size-append, frame_size-prefix}
use mangle_webrtc.Transport.Receive.{
  Holds, concat, AllNonempty, Delivers, IsPartial, IsPartial-of, take_message-frame,
  recv_loop-frame, recv_loop-more, recv_obj-buffered, recv_obj-unbuffered,
}

IsPartial-prefix : (buffer more : List ℕ) → IsPartial (buffer ++ more) → IsPartial buffer
IsPartial-prefix buffer more part = elim (dec_lt (length buffer) 4) [
  | yes few ↦ inl few
  | no enough ↦
      inr (
        omega (arith, frame_size-append buffer more (omega arith), length-append buffer more, part))
]

pub IsPartial-cases : (b : List ℕ) → IsPartial b ⊎ ((4 ≤ length b) × (frame_size b ≤ length b))
IsPartial-cases b = elim (dec_lt (length b) 4) [
  | yes few ↦ inl (inl few)
  | no enough ↦ elim (dec_lt (length b) (frame_size b)) [
    | yes short ↦ inl (inr short)
    | no whole ↦ inr (omega arith, omega arith)
  ]
]

-- More answers of `read` come in.
abbrev pub arrive : {I : Type 0} → List (Read I) → StreamTransport I → StreamTransport I
arrive more t = transport (t.stream.incoming ++ more) t.stream.outgoing t.recv_buffer

-- What comes where a message breaks off: nothing yet, a read that fails, or the end of the stream.
pub data Break (I : Type 0) : Type 0 where
  quiet : Break I
  broken : I → List (Read I) → Break I
  closed : List (Read I) → Break I

abbrev pub reads : {I : Type 0} → Break I → List (Read I)
reads quiet = []
reads (broken e later) = fail e ∷ later
reads (closed later) = chunk [] ∷ later

abbrev pub unread : {I : Type 0} → Break I → List (Read I)
unread quiet = []
unread (broken e later) = later
unread (closed later) = later

abbrev pub answer : {E A I : Type 0} → Io I → Break I → Poll (Result (RecvError E I) A)
answer io quiet = pending
answer io (broken e later) = ready (err (io_error e))
answer io (closed later) = ready (err (io_error io.unexpected_eof))

module _ {E A I : Type 0} (io : Io I) (c : Codec E A) where
  -- Where the next message on the wire is `p`, however its bytes and those behind it are cut into
  -- reads, `recv_obj` returns what `p` deserializes to, an error too, and consumes `p` alone.
  pub recv_obj-frame :
      (t : StreamTransport I) (p rest : List ℕ) (later : List (Read I))
      → length p < 2 ^ 32
      → Holds t (frame p ++ rest) later
      → ((recv_obj io c t).0 ≡ ready (map_err deserialize_error (c.deserialize p)))
        × Holds (recv_obj io c t).1 rest later
  recv_obj-frame t p rest later short h = elim (dec_lt (length t.recv_buffer) (length p + 4)) [
    | yes part ↦
        subst (λ r. Delivers io c r p rest later)
          (sym (
            recv_obj-unbuffered io c t
              (IsPartial-of p rest t.recv_buffer (concat h.chunks) short h.content part)
            ∙ ap (λ rs. recv_loop io c t.stream.outgoing rs t.recv_buffer) h.incoming))
          (recv_loop-frame io c h.chunks p rest t.recv_buffer t.stream.outgoing later short
            h.nonempty h.content part)
    | no all ↦
        subst (λ r. Delivers io c r p rest later)
          (sym (
            recv_obj-buffered io c t (omega arith) (
              omega
                (arith, frame_size-prefix p rest t.recv_buffer (concat h.chunks) short h.content))
            ∙ ap (λ rs. take_message io c t.stream.outgoing rs t.recv_buffer) h.incoming))
          (take_message-frame io c p rest t.recv_buffer t.stream.outgoing h.chunks later short
            h.nonempty h.content (omega arith))
  ]

  recv_loop-partial :
      (cs : List (List ℕ)) (buffer outgoing : List ℕ) (later : List (Read I))
      → AllNonempty cs
      → IsPartial (buffer ++ concat cs)
      → recv_loop io c outgoing (map chunk cs ++ later) buffer
        ≡ recv_loop io c outgoing later (buffer ++ concat cs)
  recv_loop-partial [] buffer outgoing later ne part = rw append-nil refl
  recv_loop-partial (b ∷ cs) buffer outgoing later ne part =
      recv_loop-more io c outgoing (map chunk cs ++ later) b buffer ne.0
        (IsPartial-prefix (buffer ++ b) (concat cs) (rw append_assoc part))
      ∙ recv_loop-partial cs (buffer ++ b) outgoing later ne.1 (rw append_assoc part)
      ∙ rw append_assoc refl

  recv_loop_resume :
      (rs more : List (Read I)) (buffer outgoing : List ℕ) (t : StreamTransport I)
      → IsPartial buffer
      → recv_loop io c outgoing rs buffer ≡ (pending, t)
      → recv_loop io c outgoing (rs ++ more) buffer ≡ recv_obj io c (arrive more t)
  unfolding recv_loop take_message
  recv_loop_resume [] more buffer outgoing t part e =
      subst (λ u. recv_loop io c outgoing more buffer ≡ recv_obj io c (arrive more u))
        (ap (λ r. r.1) e) (sym (recv_obj-unbuffered io c (transport more outgoing buffer) part))
  recv_loop_resume (fail x ∷ rs) more buffer outgoing t part e = cc
  recv_loop_resume (chunk b ∷ rs) more buffer outgoing t part e =
      ground (arith, recv_loop_resume rs more (buffer ++ b) outgoing t)

  -- All that has arrived of an incomplete message goes to the buffer.
  recv_obj-absorbs :
      (t : StreamTransport I) (bytes : List ℕ) (later : List (Read I))
      → IsPartial bytes
      → Holds t bytes later
      → recv_obj io c t ≡ recv_loop io c t.stream.outgoing later bytes
  recv_obj-absorbs t bytes later part h =
      let whole : IsPartial (t.recv_buffer ++ concat h.chunks) =
        subst IsPartial (sym h.content) part in
      recv_obj-unbuffered io c t (IsPartial-prefix t.recv_buffer (concat h.chunks) whole)
      ∙ ap (λ rs. recv_loop io c t.stream.outgoing rs t.recv_buffer) h.incoming
      ∙ recv_loop-partial h.chunks t.recv_buffer t.stream.outgoing later h.nonempty whole
      ∙ ap (recv_loop io c t.stream.outgoing later) h.content

  take_message-ne-pending :
      (outgoing : List ℕ) (incoming : List (Read I)) (buffer : List ℕ) {t : StreamTransport I}
      → take_message io c outgoing incoming buffer ≢ (pending, t)
  unfolding take_message
  take_message-ne-pending outgoing incoming buffer e = cc

  -- `recv_obj` is cancel safe: a call that is given up while it waits leaves a transport from which
  -- the next call returns, whatever arrives later, what the first would have returned.
  pub recv_obj_resume :
      (t t' : StreamTransport I) (more : List (Read I))
      → recv_obj io c t ≡ (pending, t')
      → recv_obj io c (arrive more t) ≡ recv_obj io c (arrive more t')
  recv_obj_resume t t' more e = elim (IsPartial-cases t.recv_buffer) [
    | inl part ↦
        recv_obj-unbuffered io c (arrive more t) part
        ∙ recv_loop_resume t.stream.incoming more t.recv_buffer t.stream.outgoing t' part
            (sym (recv_obj-unbuffered io c t part) ∙ e)
    | inr (four, whole) ↦ absurd (
        take_message-ne-pending t.stream.outgoing t.stream.incoming t.recv_buffer
          (sym (recv_obj-buffered io c t four whole) ∙ e))
  ]

  -- While what is on the wire is no whole message, `recv_obj` consumes none of it: it keeps all of
  -- it in the buffer, and then waits if nothing else is read, answers the error of a read that
  -- fails, or `UnexpectedEof` if a read returns no byte.
  pub recv_obj-partial :
      (t : StreamTransport I) (bytes : List ℕ) (b : Break I)
      → IsPartial bytes
      → Holds t bytes (reads b)
      → recv_obj io c t ≡ (answer io b, transport (unread b) t.stream.outgoing bytes)
  unfolding recv_loop
  recv_obj-partial t bytes quiet part h = recv_obj-absorbs t bytes [] part h
  recv_obj-partial t bytes (broken e later) part h =
      recv_obj-absorbs t bytes (fail e ∷ later) part h
  recv_obj-partial t bytes (closed later) part h =
      recv_obj-absorbs t bytes (chunk [] ∷ later) part h
