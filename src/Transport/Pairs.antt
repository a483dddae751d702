-- ===== src/Transport/Pairs.antt =====
-- Two sessions at the two ends of a stream.
use mangle_webrtc.Common.{ℕ, ◌≡◌, refl, ap, ◌∙◌, some, List, [], ◌∷◌, ◌++◌, ok}
use mathlib.Core.Path.{subst}
use mangle_webrtc.Transport.{Io, StreamTransport}
use mangle_webrtc.Transport.Session.{
  Messages, Packet, Use, sent_packets, received_packets, AllSucceed, Session,
}
use mangle_webrtc.Transport.Faithful.{rev_onto, rev_onto-append}
use mangle_webrtc.Transport.Ends.{Encodes, Decodes, Session-wrote}
use mangle_webrtc.Transport.Catching.{Session-Caught}

module _ {E : Type 0} (m : Messages E) where
  -- What the one value serializes to is deserialized to the other.
  abbrev pub Reads : Packet m → Packet m → Type 0
  Reads (k, a) (j, b) =
      (q : List ℕ) × ((m.codec k).serialize a ≡ some q) × ((m.codec j).deserialize q ≡ ok b)

  abbrev pub AllRead : List (Packet m) → List (Packet m) → Type 0
  AllRead [] [] = Unit {0}
  AllRead (p ∷ ps) (r ∷ rs) = Reads p r × AllRead ps rs
  AllRead _ _ = ⊥

  AllRead-of :
      (ps rs : List (Packet m)) (qs : List (List ℕ))
      → Encodes m ps qs
      → Decodes m rs qs
      → AllRead ps rs
  AllRead-of [] [] [] enc dec = tt
  AllRead-of [] [] (_ ∷ _) enc dec = absurd enc
  AllRead-of [] (_ ∷ _) [] enc dec = absurd dec
  AllRead-of [] (_ ∷ _) (_ ∷ _) enc dec = absurd enc
  AllRead-of (_ ∷ _) rs [] enc dec = absurd enc
  AllRead-of (_ ∷ _) [] (_ ∷ _) enc dec = absurd dec
  AllRead-of (p ∷ ps) (r ∷ rs) (q ∷ qs) enc dec =
      ((q, enc.0, dec.0), AllRead-of ps rs qs enc.1 dec.1)

  -- The values that the later payloads stand for, and those of the others.
  Encodes-split :
      (ps : List (Packet m)) (newer older : List (List ℕ))
      → Encodes m ps (newer ++ older)
      → (late early : List (Packet m)) × (ps ≡ late ++ early) × Encodes m early older
  Encodes-split ps [] older enc = ([], ps, refl, enc)
  Encodes-split [] (q ∷ newer) older enc = absurd enc
  Encodes-split (p ∷ ps) (q ∷ newer) older enc =
      let (late, early, e, rest) = Encodes-split ps newer older enc.1 in
      (p ∷ late, early, ap (λ xs. p ∷ xs) e, rest)

  -- Two transports at the ends of a stream that loses nothing, each with a log of its uses, none of
  -- which has failed. What the one has received is what the other has sent first, value for value and
  -- in order, each deserialized from what it was serialized to: whichever calls were given up in
  -- between, and however the stream cut the bytes into reads.
  pub Session-reads :
      {I : Type 0} (io there : Io I) {uses others : List (Use m I)} {bytes come : List ℕ}
      {t u : StreamTransport I} (unseen : List ℕ)
      → Session m io uses bytes t
      → Session m there others come u
      → AllSucceed uses
      → AllSucceed others
      → come ++ unseen ≡ t.stream.outgoing
      → (late early : List (Packet m)) × (sent_packets uses ≡ late ++ early)
        × AllRead early (received_packets others)
  Session-reads io there {uses} {others} unseen here far clean clean' arrives =
      let (qs, enc, short, out) = Session-wrote here clean in
      let c = Session-Caught there short far clean' unseen (arrives ∙ out) in
      let (late, early, e, rest) =
        Encodes-split (sent_packets uses) (rev_onto c.rest []) c.got
          (subst (Encodes m (sent_packets uses)) (c.all ∙ rev_onto-append c.rest c.got) enc) in
      (late, early, e, AllRead-of early (received_packets others) c.got rest c.decodes)
