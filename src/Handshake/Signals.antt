-- ===== src/Handshake/Signals.antt =====
-- What one side of the handshake receives, as the values that the other side has sent.
use mathlib.Core.Path.{subst}
use mangle_webrtc.Common.{
  append-ne_nil, ℕ, ◌≡◌, refl, sym, ap, ◌∙◌, ◌⊎◌, inl, inr, Option, some, List, [], ◌∷◌, ◌++◌, map,
  ok, arith,
}
use mangle_webrtc.Transport.{Codec}
use mangle_webrtc.Transport.RoundTrip.{IsLawful}
use mangle_webrtc.Transport.Session.{Packet}
use mangle_webrtc.Transport.Pairs.{AllRead}
use mangle_webrtc.Signaling.{Externals, RtcMessage, sdp_answer, ice}
use mangle_webrtc.Handshake.Wire.{
  Signal, offer, message, client_ice, server_ice, Codecs, signaling, packet,
}
use mangle_webrtc.Handshake.ClientOrder.{AllIces}

-- bitcode reads back what it has written, at each of the types.
pub record AllLawful {x : Externals} (c : Codecs x) : Type 0 where
  pub offers : IsLawful c.offers
  pub messages : IsLawful c.messages
  pub client_ices : IsLawful c.client_ices
  pub server_ices : IsLawful c.server_ices

split-map :
    {A B : Type 0} (f : A → B) (xs : List A) (late early : List B)
    → map f xs ≡ late ++ early
    → (l e : List A) × (xs ≡ l ++ e) × (early ≡ map f e)
split-map f xs [] early same = ([], xs, refl, sym same)
split-map f [] (b ∷ late) early same = absurd (ground arith)
split-map f (a ∷ xs) (b ∷ late) early same =
    let (l, e, cut, rest) = split-map f xs late early (ground arith) in
    (a ∷ l, e, ap (λ ys. a ∷ ys) cut, rest)

append-eq_nil : {A : Type 0} (xs ys : List A) → [] ≡ xs ++ ys → ys ≡ []
append-eq_nil [] ys e = sym e
append-eq_nil (x ∷ xs) ys e = absurd (ground arith)

-- The older part of such a list is empty, or again such a list.
suffix :
    {A B : Type 0} (f : A → B) (o : B) (cs : List A) (l e : List B)
    → map f cs ++ (o ∷ []) ≡ l ++ e
    → (e ≡ []) ⊎ ((new old : List A) × (cs ≡ new ++ old) × (e ≡ map f old ++ (o ∷ [])))
suffix f o cs [] e same = inr ([], cs, refl, sym same)
suffix f o [] (b ∷ l) e same = inl (append-eq_nil l e (ground arith))
suffix f o (c ∷ cs) (b ∷ l) e same = elim (suffix f o cs l e (ground arith)) [
  | inl none_left ↦ inl none_left
  | inr (new, old, cut, rest) ↦ inr (c ∷ new, old, ap (λ ys. c ∷ ys) cut, rest)
]

module _ {x : Externals} (c : Codecs x) (lawful : AllLawful c) where
  abbrev Read : List (Signal x) → List (Signal x) → Type 0
  Read e g = AllRead (signaling c) (map (packet c) e) (map (packet c) g)

  read_value :
      {A : Type 0} {codec : Codec x.DecodeError A}
      → IsLawful codec
      → (a b : A) (q : List ℕ) → codec.serialize a ≡ some q
      → codec.deserialize q ≡ ok b
      → a ≡ b
  read_value law a b q e d = ground (arith, law.round_trip a q e)

  up_same :
      (is js : List (Option x.Candidate)) (s t : x.Sdp)
      → Read
          (map (λ i. client_ice i) is ++ (offer s ∷ []))
          (map (λ i. client_ice i) js ++ (offer t ∷ []))
      → is ≡ js
  up_same [] [] s t r = refl
  up_same [] (j ∷ []) s t r = absurd r.1
  up_same [] (j ∷ k ∷ js) s t r = absurd r.1
  up_same (i ∷ []) [] s t r = absurd r.1
  up_same (i ∷ k ∷ is) [] s t r = absurd r.1
  up_same (i ∷ is) (j ∷ js) s t ((q, e, d), rest) =
      ground (arith, read_value lawful.client_ices i j q e d, up_same is js s t rest)

  -- The answer is not read as a candidate.
  no_ices :
      (ms : List (Option (RtcMessage x))) (a : x.Sdp) (early : List (Signal x))
      → AllIces early
      → ¬ Read (map (λ m. server_ice m) ms ++ (message (sdp_answer a) ∷ [])) early
  no_ices [] a (message (ice j) ∷ []) all ((q, e, d), rest) =
      ground (arith, lawful.messages.round_trip (sdp_answer a) q e)
  no_ices [] a (message (ice j) ∷ _ ∷ _) all r = r.1
  no_ices (m ∷ ms) a (message (ice j) ∷ early) all (r, rest) = no_ices ms a early all rest
  no_ices [] a [] all r = r
  no_ices (m ∷ ms) a [] all r = r
  no_ices ms a (message (sdp_answer b) ∷ early) all r = all
  no_ices ms a (offer s ∷ early) all r = all
  no_ices ms a (client_ice i ∷ early) all r = all
  no_ices ms a (server_ice m ∷ early) all r = all

  down_same :
      (ms ns : List (Option (RtcMessage x))) (a b : x.Sdp) (early : List (Signal x))
      → AllIces early
      → Read
          (map (λ m. server_ice m) ms ++ (message (sdp_answer a) ∷ []))
          (map (λ m. server_ice m) ns ++ (message (sdp_answer b) ∷ early))
      → (ms ≡ ns) × (early ≡ [])
  down_same [] [] a b [] all r = (refl, refl)
  down_same [] [] a b (_ ∷ _) all r = absurd r.1
  down_same [] (n ∷ []) a b early all r = absurd r.1
  down_same [] (n ∷ k ∷ ns) a b early all r = absurd r.1
  down_same (m ∷ ms) [] a b early all (r, rest) = absurd (no_ices ms a early all rest)
  down_same (m ∷ ms) (n ∷ ns) a b early all ((q, e, d), rest) =
      ground (arith, read_value lawful.server_ices m n q e d, down_same ms ns a b early all rest)

module _ {x : Externals} (c : Codecs x) (late early : List (Packet (signaling c))) where
  -- What was received is read from the older part of what was sent.
  read_suffix :
      {A : Type 0} (f : A → Signal x) (o : Signal x) (cs : List A) (got : List (Signal x))
      → map (packet c) (map f cs ++ (o ∷ [])) ≡ late ++ early
      → AllRead (signaling c) early (map (packet c) got)
      → (got ≡ [])
        ⊎ ((new old : List A) × (cs ≡ new ++ old)
            × AllRead (signaling c) (map (packet c) (map f old ++ (o ∷ []))) (map (packet c) got))
  read_suffix f o cs got sent read =
      let (l, e, cut, same) = split-map (packet c) (map f cs ++ (o ∷ [])) late early sent in
      let from : AllRead (signaling c) (map (packet c) e) (map (packet c) got) =
        subst (λ ps. AllRead (signaling c) ps (map (packet c) got)) same read in
      elim (suffix f o cs l e cut) [
        | inl none_left ↦ inl (
            none_read got (
              subst (λ ss. AllRead (signaling c) (map (packet c) ss) (map (packet c) got)) none_left
                from))
        | inr (new, old, cut_ices, older) ↦ inr (
          new,
          old,
          cut_ices,
          subst (λ ss. AllRead (signaling c) (map (packet c) ss) (map (packet c) got)) older from,
        )
      ]
    where
      none_read : (got : List (Signal x)) → AllRead (signaling c) [] (map (packet c) got) → got ≡ []
      none_read [] r = refl
      none_read (g ∷ got) r = absurd r

-- What was received, in the order of `ClientOrder` and `ServerOrder`, against what was sent.
module _ {x : Externals} (c : Codecs x) (lawful : AllLawful c)
    (late early : List (Packet (signaling c))) where
  pub up_received :
      (is js : List (Option x.Candidate)) (s t : x.Sdp)
      → map (packet c) (map (λ i. client_ice i) is ++ (offer s ∷ [])) ≡ late ++ early
      → AllRead (signaling c) early (map (packet c) (map (λ i. client_ice i) js ++ (offer t ∷ [])))
      → (new : List (Option x.Candidate)) × (is ≡ new ++ js)
  up_received is js s t sent read =
      elim (read_suffix c late early (λ i. client_ice i) (offer s) is
        (map (λ i. client_ice i) js ++ (offer t ∷ [])) sent read) [
          | inl empty ↦ absurd (append-ne_nil (map (λ i. client_ice i) js) [] (offer t) empty)
          | inr (new, old, cut, r) ↦ (new, cut ∙ ap (◌++◌ new) (up_same c lawful old js s t r))
        ]

  pub down_received :
      (ms ns : List (Option (RtcMessage x))) (a b : x.Sdp) (ices : List (Signal x))
      → AllIces ices
      → map (packet c) (map (λ m. server_ice m) ms ++ (message (sdp_answer a) ∷ [])) ≡ late ++ early
      → AllRead
          (signaling c)
          early
          (map (packet c) (map (λ m. server_ice m) ns ++ (message (sdp_answer b) ∷ ices)))
      → (new : List (Option (RtcMessage x))) × (ms ≡ new ++ ns) × (ices ≡ [])
  down_received ms ns a b ices all sent read =
      elim (read_suffix c late early (λ m. server_ice m) (message (sdp_answer a)) ms
        (map (λ m. server_ice m) ns ++ (message (sdp_answer b) ∷ ices)) sent read) [
          | inl empty ↦
              absurd
                (append-ne_nil (map (λ m. server_ice m) ns) ices (message (sdp_answer b)) empty)
          | inr (new, old, cut, r) ↦
              let (equal, none_early) = down_same c lawful old ns a b ices all r in
              (new, cut ∙ ap (◌++◌ new) equal, none_early)
        ]
