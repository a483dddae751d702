-- ===== src/Transport/Ends.antt =====
-- What a session has written.
use mangle_webrtc.Common.{ℕ, ◌≡◌, refl, sym, ap, ◌∙◌, some, List, [], ◌∷◌, ◌++◌, ok}
use mangle_webrtc.Transport.{Io, StreamTransport}
use mangle_webrtc.Transport.Frame.{frame}
use mangle_webrtc.Transport.Send.{send_obj_fits}
use mangle_webrtc.Transport.Session.{
  Messages, Packet, Use, idle, sends, receives, send_fails, receive_fails, sent_packets, AllSucceed,
  Session, opened, used, arrived, given_up,
}
use mangle_webrtc.Transport.Faithful.{wire, AllShort, recv_obj-outgoing}

module _ {E : Type 0} (m : Messages E) where
  -- The payloads are what the values serialize to, or deserialize to the values.
  abbrev pub Encodes : List (Packet m) → List (List ℕ) → Type 0
  Encodes [] [] = Unit {0}
  Encodes ((k, a) ∷ ps) (q ∷ qs) = ((m.codec k).serialize a ≡ some q) × Encodes ps qs
  Encodes _ _ = ⊥

  abbrev pub Decodes : List (Packet m) → List (List ℕ) → Type 0
  Decodes [] [] = Unit {0}
  Decodes ((k, a) ∷ ps) (q ∷ qs) = ((m.codec k).deserialize q ≡ ok a) × Decodes ps qs
  Decodes _ _ = ⊥

module _ {E I : Type 0} {m : Messages E} {io : Io I} where
  -- What a session in which no call has failed has written: the frames of what it sent.
  pub Session-wrote :
      {uses : List (Use m I)} {bytes : List ℕ} {t : StreamTransport I}
      → Session m io uses bytes t
      → AllSucceed uses
      → (qs : List (List ℕ)) × Encodes m (sent_packets uses) qs
        × AllShort qs
        × (t.stream.outgoing ≡ wire qs)
  Session-wrote opened clean = ([], tt, tt, refl)
  Session-wrote (used idle s e) clean =
      let (qs, enc, short, out) = Session-wrote s clean in
      (qs, enc, short, ap (λ t. t.stream.outgoing) e ∙ out)
  Session-wrote (used {t} (sends (k, a)) s e) clean =
      let (qs, enc, short, out) = Session-wrote s clean in
      let (q, serialized, fits, written) = send_obj_fits io (m.codec k) t a (ap (λ r. r.0) e) in
      (
        q ∷ qs,
        (serialized, enc),
        (fits, short),
        ap (λ r. r.1.stream.outgoing) (sym e) ∙ written ∙ ap (λ o. o ++ frame q) out,
      )
  Session-wrote (used {t} (receives (k, a)) s e) clean =
      let (qs, enc, short, out) = Session-wrote s clean in
      (
        qs,
        enc,
        short,
        ap (λ r. r.1.stream.outgoing) (sym e) ∙ recv_obj-outgoing io (m.codec k) t ∙ out,
      )
  Session-wrote (used (send_fails p x) s e) clean = absurd clean
  Session-wrote (used (receive_fails k x) s e) clean = absurd clean
  Session-wrote (arrived b s h) clean = Session-wrote s clean
  Session-wrote (given_up {t} k s e) clean =
      let (qs, enc, short, out) = Session-wrote s clean in
      (
        qs,
        enc,
        short,
        ap (λ r. r.1.stream.outgoing) (sym e) ∙ recv_obj-outgoing io (m.codec k) t ∙ out,
      )
