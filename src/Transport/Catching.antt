-- ===== src/Transport/Catching.antt =====
-- What a session has received, against what the other end has sent.
use mathlib.Core.Path.{subst}
use mathlib.Core.List.{append_assoc}
use mangle_webrtc.Common.{
  ℕ, ◌≤◌, ◌≡◌, refl, sym, ap, ◌∙◌, inl, inr, List, [], ◌∷◌, ◌++◌, length, ok, ready, pending, arith,
}
use mangle_webrtc.Transport.{Io, chunk, StreamTransport, recv_obj, send_obj, sent}
use mangle_webrtc.Transport.Receive.{Holds, Holds-chunk, concat}
use mangle_webrtc.Transport.Delivery.{arrive}
use mangle_webrtc.Transport.Session.{
  Messages, Packet, Use, idle, sends, receives, send_fails, receive_fails, received_packets,
  AllSucceed, Session, opened, used, arrived, given_up,
}
use mangle_webrtc.Transport.Faithful.{
  wire, frames_of, rev_onto, wire-rev_onto, rev_onto_rev, AllShort, AllShort-rev_onto,
  send_obj-receives, recv_obj-next,
}
use mangle_webrtc.Transport.Ends.{Decodes}

module _ {E I : Type 0} (m : Messages E) where
  -- Of the payloads `qs` at the other end, the newest first, those that were received, and the rest,
  -- the oldest first; what has come in of the rest is in the transport.
  pub record Caught (qs : List (List ℕ)) (packets : List (Packet m)) (unseen : List ℕ)
      (t : StreamTransport I) : Type 0 where
    pub got : List (List ℕ)
    pub rest : List (List ℕ)
    pub left : List ℕ
    pub all : qs ≡ rev_onto rest got
    pub short : AllShort rest
    pub decodes : Decodes m packets got
    pub holds : Holds t left []
    pub expects : left ++ unseen ≡ frames_of rest

module _ {E I : Type 0} {m : Messages E} where
  -- A transport that still holds the same has caught the same.
  Caught-keeps :
      {qs : List (List ℕ)} {packets : List (Packet m)} {unseen : List ℕ} {t u : StreamTransport I}
      (c : Caught m qs packets unseen t)
      → Holds u c.left []
      → Caught m qs packets unseen u
  Caught-keeps c h = record {
    got = c.got;
    rest = c.rest;
    left = c.left;
    all = c.all;
    short = c.short;
    decodes = c.decodes;
    holds = h;
    expects = c.expects;
  }

  Caught-arrives :
      {qs : List (List ℕ)} {packets : List (Packet m)} {unseen : List ℕ} {t : StreamTransport I}
      (b : List ℕ)
      → 1 ≤ length b
      → Caught m qs packets (b ++ unseen) t
      → Caught m qs packets unseen (arrive (chunk b ∷ []) t)
  Caught-arrives {unseen} {t} b full c = record {
    got = c.got;
    rest = c.rest;
    left = c.left ++ b;
    all = c.all;
    short = c.short;
    decodes = c.decodes;
    holds = Holds-chunk t c.left b full c.holds;
    expects = append_assoc c.left b unseen ∙ c.expects;
  }

module _ {E I : Type 0} {m : Messages E} (io : Io I) where
  Caught-receives :
      {qs : List (List ℕ)} {packets : List (Packet m)} {unseen : List ℕ} {t u : StreamTransport I}
      (k : m.Kind) (a : m.Value k)
      → Caught m qs packets unseen t
      → recv_obj io (m.codec k) t ≡ (ready (ok a), u)
      → Caught m qs ((k, a) ∷ packets) unseen u
  Caught-receives {t} k a c e =
      elim (recv_obj-next io (m.codec k) t c.left _ c.rest c.short c.holds c.expects) [
        | inl (waits, kept) ↦ absurd (ground (arith, e, waits))
        | inr (q, rest, left, next, now, kept, expects) ↦ record {
          got = q ∷ c.got;
          rest = rest;
          left = left;
          all = c.all ∙ ap (λ r. rev_onto r c.got) next;
          short = (subst AllShort next c.short).1;
          decodes = (ground (arith, e, now), c.decodes);
          holds = subst (λ v. Holds v left []) (ap (λ r. r.1) e) kept;
          expects = expects;
        }
      ]

  Caught-waits :
      {qs : List (List ℕ)} {packets : List (Packet m)} {unseen : List ℕ} {t u : StreamTransport I}
      (k : m.Kind)
      → Caught m qs packets unseen t
      → recv_obj io (m.codec k) t ≡ (pending, u)
      → Caught m qs packets unseen u
  Caught-waits {t} k c e =
      elim (recv_obj-next io (m.codec k) t c.left _ c.rest c.short c.holds c.expects) [
        | inl (waits, kept) ↦ Caught-keeps c (subst (λ v. Holds v c.left []) (ap (λ r. r.1) e) kept)
        | inr (q, rest, left, next, now, kept, expects) ↦ absurd (ground (arith, e, now))
      ]

  Caught-sends :
      {qs : List (List ℕ)} {packets : List (Packet m)} {unseen : List ℕ} {t u : StreamTransport I}
      (k : m.Kind) (a : m.Value k)
      → Caught m qs packets unseen t
      → send_obj io (m.codec k) t a ≡ (sent, u)
      → Caught m qs packets unseen u
  Caught-sends {t} k a c e =
      let (same, buffered) = send_obj-receives io (m.codec k) t a in
      let h : Holds (send_obj io (m.codec k) t a).1 c.left [] = record {
        chunks = c.holds.chunks;
        nonempty = c.holds.nonempty;
        incoming = same ∙ c.holds.incoming;
        content = ap (λ b. b ++ concat c.holds.chunks) buffered ∙ c.holds.content;
      } in
      Caught-keeps c (subst (λ v. Holds v c.left []) (ap (λ r. r.1) e) h)

  pub Session-Caught :
      {qs : List (List ℕ)} {uses : List (Use m I)} {bytes : List ℕ} {t : StreamTransport I}
      → AllShort qs
      → Session m io uses bytes t
      → AllSucceed uses
      → (unseen : List ℕ) → bytes ++ unseen ≡ wire qs
      → Caught m qs (received_packets uses) unseen t
  Session-Caught {qs} short opened clean unseen e = record {
    got = [];
    rest = rev_onto qs [];
    left = [];
    all = sym (rev_onto_rev qs []);
    short = AllShort-rev_onto qs [] short tt;
    decodes = tt;
    holds = record { chunks = []; nonempty = tt; incoming = refl; content = refl };
    expects = e ∙ ap wire (sym (rev_onto_rev qs [])) ∙ wire-rev_onto (rev_onto qs []) [];
  }
  Session-Caught short (used idle s e) clean unseen whole =
      subst (Caught m _ _ _) (sym e) (Session-Caught short s clean unseen whole)
  Session-Caught short (used (sends (k, a)) s e) clean unseen whole =
      Caught-sends k a (Session-Caught short s clean unseen whole) e
  Session-Caught short (used (receives (k, a)) s e) clean unseen whole =
      Caught-receives k a (Session-Caught short s clean unseen whole) e
  Session-Caught short (used (send_fails p x) s e) clean unseen whole = absurd clean
  Session-Caught short (used (receive_fails k x) s e) clean unseen whole = absurd clean
  Session-Caught short (arrived {bytes} b s full) clean unseen whole =
      Caught-arrives b full
        (Session-Caught short s clean (b ++ unseen) (sym (append_assoc bytes b unseen) ∙ whole))
  Session-Caught short (given_up k s e) clean unseen whole =
      Caught-waits k (Session-Caught short s clean unseen whole) e
