-- ===== src/Transport/RoundTrip.antt =====
-- Messages from one transport to another: `send_obj` and `recv_obj` together.
use mathlib.Core.Path.{subst, ap₂}
use mathlib.Core.List.{append-nil, append_assoc, append_cancel_left}
use mangle_webrtc.Common.{
  ℕ, zero, suc, ◌^◌, ◌<◌, ◌≡◌, refl, sym, ap, ◌∙◌, none, some, List, [], ◌∷◌, ◌++◌, length, map,
  map_err, Result, ok, Poll, ready,
}
use mangle_webrtc.Transport.{
  Codec, Io, RecvError, deserialize_error, Read, StreamTransport, transport, send_obj, recv_obj,
}
use mangle_webrtc.Transport.Frame.{frame}
use mangle_webrtc.Transport.Receive.{Holds}
use mangle_webrtc.Transport.Delivery.{recv_obj-frame}
use mangle_webrtc.Transport.Send.{wrote, send_obj-frame}

-- bitcode at one type: what it serializes is deserialized to the same value.
pub record IsLawful {E A : Type 0} (c : Codec E A) : Type 0 where
  pub round_trip : (a : A) (msg : List ℕ) → c.serialize a ≡ some msg → c.deserialize msg ≡ ok a

-- The message is serializable, in less than 2 ^ 32 bytes.
pub record Fits {E A : Type 0} (c : Codec E A) (a : A) : Type 0 where
  pub msg : List ℕ
  pub serialized : c.serialize a ≡ some msg
  pub short : length msg < 2 ^ 32

module _ {E A : Type 0} (c : Codec E A) where
  abbrev pub AllFit : List A → Type 0
  AllFit [] = Unit {0}
  AllFit (a ∷ bs) = Fits c a × AllFit bs

  -- What the values are on the wire, one frame after the other.
  frames : (values : List A) → AllFit values → List ℕ
  frames [] fit = []
  frames (a ∷ bs) fit = frame (fit.0).msg ++ frames bs fit.1

module _ {E A I : Type 0} (io : Io I) (c : Codec E A) where
  -- The transport after the values were sent, one call of `send_obj` after the other.
  unfoldable pub send_all : StreamTransport I → List A → StreamTransport I
  send_all t [] = t
  send_all t (a ∷ bs) = send_all (send_obj io c t a).1 bs

  -- The answers of `n` calls of `recv_obj` in a row, and the transport after them.
  unfoldable pub recv_many :
      ℕ → StreamTransport I → List (Poll (Result (RecvError E I) A)) × StreamTransport I
  recv_many zero t = ([], t)
  recv_many (suc n) t =
      let (answers, t') = recv_many n (recv_obj io c t).1 in ((recv_obj io c t).0 ∷ answers, t')

  send_all-frames :
      (t : StreamTransport I) (values : List A) (fit : AllFit c values)
      → ((w b : List ℕ) → io.write_fault w b ≡ none)
      → ((w : List ℕ) → io.flush_fault w ≡ none)
      → send_all t values ≡ wrote t (frames c values fit)
  unfolding send_all frames
  send_all-frames t [] fit writes flushes = rw append-nil refl
  send_all-frames t (a ∷ bs) fit writes flushes =
      let f = fit.0 in
      ap (λ r. send_all r.1 bs) (send_obj-frame io c t a f.msg f.serialized f.short writes flushes)
      ∙ send_all-frames (wrote t (frame f.msg)) bs fit.1 writes flushes
      ∙ ap (λ out. transport t.stream.incoming out t.recv_buffer)
          (append_assoc t.stream.outgoing (frame f.msg) (frames c bs fit.1))

  recv_many-frames :
      IsLawful c
      → (values : List A) (fit : AllFit c values)
      → (t : StreamTransport I) (rest : List ℕ) (later : List (Read I))
      → Holds t (frames c values fit ++ rest) later
      → ((recv_many (length values) t).0 ≡ map (λ a. ready (ok a)) values)
        × Holds (recv_many (length values) t).1 rest later
  unfolding recv_many frames
  recv_many-frames lawful [] fit t rest later h = (refl, h)
  recv_many-frames lawful (a ∷ bs) fit t rest later h =
      let f = fit.0 in
      let (now, left) =
        recv_obj-frame io c t f.msg (frames c bs fit.1 ++ rest) later f.short
          (subst (λ b. Holds t b later) (append_assoc (frame f.msg) (frames c bs fit.1) rest) h) in
      let (others, kept) = recv_many-frames lawful bs fit.1 (recv_obj io c t).1 rest later left in
      (
        ap₂ (λ x xs. x ∷ xs)
            (now
              ∙ ap (λ r. ready (map_err deserialize_error r))
                  (lawful.round_trip a f.msg f.serialized))
            others,
        kept,
      )

  -- The values that one transport sent over a stream on which no write fails are what as many calls
  -- of `recv_obj` return at the other end, in order, however the stream cuts the bytes into reads; no
  -- byte of theirs is left, and none of those behind them is taken. The codec is one that reads back
  -- what it has written, and each value serializes to less than 2 ^ 32 bytes.
  pub recv_many-send_all :
      IsLawful c
      → ((w b : List ℕ) → io.write_fault w b ≡ none)
      → ((w : List ℕ) → io.flush_fault w ≡ none)
      → (values : List A) → AllFit c values
      → (s r : StreamTransport I) (wire rest : List ℕ) (later : List (Read I))
      → (send_all s values).stream.outgoing ≡ s.stream.outgoing ++ wire
      → Holds r (wire ++ rest) later
      → ((recv_many (length values) r).0 ≡ map (λ a. ready (ok a)) values)
        × Holds (recv_many (length values) r).1 rest later
  recv_many-send_all lawful writes flushes values fit s r wire rest later sent_wire h =
      recv_many-frames lawful values fit r rest later
        (subst (λ b. Holds r (b ++ rest) later) wire-eq h)
    where
      wire-eq : wire ≡ frames c values fit
      wire-eq = append_cancel_left s.stream.outgoing wire (frames c values fit) (
          sym sent_wire ∙ ap (λ t. t.stream.outgoing) (send_all-frames s values fit writes flushes))
