-- ===== src/Handshake.antt =====
-- upgrade2webrtc/src/client.rs and upgrade2webrtc/src/server.rs together: `upgrade` at one end of a
-- byte stream, and a round of the server's task at the other.
pub mod Protocol
pub mod Flow
pub mod Progress
pub mod Late
mod Endings
pub mod Gathering
pub mod Turns
pub mod Wire
pub mod ClientOrder
pub mod ServerOrder
pub mod Signals
pub mod Ways
pub mod Bytes
mod Tests
mod Runs
mod Wires
use Prim.Native.String.{String}
use mathlib.Core.Path.{subst}
use mangle_webrtc.Common.{
  ℕ, ◌≡◌, refl, sym, ap, ◌∙◌, inl, Bool, true, false, ◌||◌, Option, none, some, is_none, List, [],
  ◌∷◌, ◌++◌, Result, ok, err, Result-cases, is_ok, ◌&&◌, inr, arith,
}
use mangle_webrtc.Channels.{RtcDataChannelInit}
use mangle_webrtc.Signaling.{Externals, RtcMessage, sdp_answer, ice, Branch}
use mangle_webrtc.Client
use mangle_webrtc.Client.Transcript
use mangle_webrtc.Client.Exchange.{upgrade_exchanges}
use mangle_webrtc.Server.{World, to_message, serve_offer}
use mangle_webrtc.Server.Exchange.{
  gathered, sent_messages, received_candidates, added_candidates, ended, Messages, Adds,
  serve_offer_exchanges,
}

-- The messages with candidates that the client received, before the server's answer and after it,
-- the newest first; `none` is their end.
abbrev pub received_messages :
    {x : Externals} → List (Client.Event x) → List (Option (RtcMessage x))
received_messages [] = []
received_messages (Client.recv_message (ok (ice init)) ∷ log) =
    some (ice init) ∷ received_messages log
received_messages (Client.recv_ice (ok m) ∷ log) = m ∷ received_messages log
received_messages (_ ∷ log) = received_messages log

-- Nothing is newer than the end of the candidates.
abbrev pub EndsLast : {A : Type 0} → List (Option A) → Type 0
EndsLast [] = Unit {0}
EndsLast (c ∷ cs) = ended cs ≡ false

ended-append :
    {A : Type 0} (late got : List (Option A)) → ended got ≡ true → ended (late ++ got) ≡ true
ended-append [] got e = e
ended-append (c ∷ late) got e = ground (arith, ended-append late got e)

and-right : (a b : Bool) → (a && b) ≡ true → b ≡ true
and-right a b e = ground arith

-- Where the end has arrived, nothing is still on the way.
EndsLast-arrived :
    {A : Type 0} (all late got : List (Option A))
    → EndsLast all
    → all ≡ late ++ got
    → ended got ≡ true
    → got ≡ all
EndsLast-arrived all [] got last e end = sym e
EndsLast-arrived all (c ∷ late) got last e end =
    let older : ended (late ++ got) ≡ false = subst EndsLast e last in
    absurd (ground (arith, ended-append late got end))

-- The candidates of messages, in their serializable form.
abbrev inits : {x : Externals} → List (Option (RtcMessage x)) → List x.CandidateInit
inits [] = []
inits (some (ice init) ∷ ms) = init ∷ inits ms
inits (_ ∷ ms) = inits ms

received_candidates_lem :
    {x : Externals} (log : List (Client.Event x))
    → Client.Transcript.received_candidates log ≡ inits (received_messages log)
received_candidates_lem [] = refl
received_candidates_lem (e ∷ log) = ground (arith, received_candidates_lem log)

received_end_lem :
    {x : Externals} (log : List (Client.Event x))
    → Client.Transcript.received_end log ≡ true
    → ended (received_messages log) ≡ true
received_end_lem [] e = e
received_end_lem (e ∷ log) h = ground (arith, received_end_lem log)

module _ {x : Externals} where
  ended-Messages :
      (cs : List (Option x.Candidate)) (ms : List (Option (RtcMessage x)))
      → Messages x cs ms
      → ended ms ≡ ended cs
  ended-Messages [] [] m = refl
  ended-Messages [] (_ ∷ _) m = absurd m
  ended-Messages (_ ∷ _) [] m = absurd m
  ended-Messages (none ∷ cs) (m ∷ ms) (e, rest) = ground (arith, ended-Messages cs ms rest)
  ended-Messages (some c ∷ cs) (m ∷ ms) (e, rest) = elim (Result-cases (x.to_json c)) [
    | inl (j, f) ↦ ground (arith, f, ended-Messages cs ms rest)
    | inr (f, g) ↦ absurd (ground (arith, g))
  ]

  EndsLast-Messages :
      (cs : List (Option x.Candidate)) (ms : List (Option (RtcMessage x)))
      → Messages x cs ms
      → EndsLast cs
      → EndsLast ms
  EndsLast-Messages [] [] m last = tt
  EndsLast-Messages [] (_ ∷ _) m last = absurd m
  EndsLast-Messages (_ ∷ _) [] m last = absurd m
  EndsLast-Messages (c ∷ cs) (m ∷ ms) (e, rest) last = ended-Messages cs ms rest ∙ last

  Adds-inits :
      (cs : List (Option x.Candidate)) (ms : List (Option (RtcMessage x)))
      → Messages x cs ms
      → Adds x cs (inits ms)
  Adds-inits [] [] m = tt
  Adds-inits [] (_ ∷ _) m = absurd m
  Adds-inits (_ ∷ _) [] m = absurd m
  Adds-inits (none ∷ cs) (m ∷ ms) (e, rest) = ground (arith, Adds-inits cs ms rest)
  Adds-inits (some c ∷ cs) (m ∷ ms) (e, rest) = elim (Result-cases (x.to_json c)) [
    | inl (j, f) ↦ ground (arith, f, Adds-inits cs ms rest)
    | inr (f, g) ↦ absurd (ground (arith, g))
  ]

-- Where `upgrade` and the round of the server have both succeeded, each side's peer was given the
-- candidates that the other side's `ice_receiver` gave out, all of them, once, and in order. What a side has received
-- by then is a first part of what the other has sent, and no peer gathers a candidate behind the end.
pub upgrade-serve_offer :
    {x : Externals} (client : Client.World x) (server : World x) (messages : ℕ)
    (client_branches server_branches : List Branch) (configs : List (String × RtcDataChannelInit))
    (channels : Client.PeerAndChannels x)
    → let log = (Client.upgrade client messages client_branches configs []).1 in
      let (r, k) = serve_offer server server_branches [] in
      (Client.upgrade client messages client_branches configs []).0 ≡ ok channels
      → r ≡ ok tt
      → EndsLast (Client.Transcript.gathered log)
      → EndsLast (gathered k)
      → (to_server : List (Option x.Candidate)) (to_client : List (Option (RtcMessage x)))
      → Client.Transcript.sent_candidates log ≡ to_server ++ received_candidates k
      → sent_messages k ≡ to_client ++ received_messages log
      → Adds x (Client.Transcript.gathered log) (added_candidates k)
        × Adds x (gathered k) (Client.Transcript.added_candidates log)
upgrade-serve_offer {x} client server messages client_branches server_branches configs channels
      upgraded served client_last server_last to_server to_client upward downward =
    let log = (Client.upgrade client messages client_branches configs []).1 in
    let k = (serve_offer server server_branches []).1 in
    let (named, sent, sent_end, received_end, added) =
      upgrade_exchanges client messages client_branches configs channels upgraded in
    let (both, sends, adds) = serve_offer_exchanges server server_branches [] (inl served) in
    let server_got : received_candidates k ≡ Client.Transcript.gathered log =
      EndsLast-arrived (Client.Transcript.gathered log) to_server (received_candidates k)
        client_last (sym sent ∙ upward)
        (and-right (ended (gathered k)) (ended (received_candidates k)) (both ∙ ap is_ok served)) in
    let client_got : received_messages log ≡ sent_messages k =
      EndsLast-arrived (sent_messages k) to_client (received_messages log)
        (EndsLast-Messages (gathered k) (sent_messages k) sends server_last) downward
        (received_end_lem log received_end) in
    (
      subst (λ cs. Adds x cs (added_candidates k)) server_got adds,
      subst (λ js. Adds x (gathered k) js)
          (ap inits (sym client_got) ∙ sym (received_candidates_lem log) ∙ sym added)
          (Adds-inits (gathered k) (sent_messages k) sends),
    )
