-- ===== src/Handshake/Late.antt =====
-- The exchange of `Protocol` where the client has not seen all of its candidates: upgrade of
-- upgrade2webrtc/src/client.rs sets the callback for candidates only when the server has answered, and
-- its peer connection gathers from `set_local_description` on. The server sets its callback before.
use native.Mathlib.Decide.{dec_lt}
use mangle_webrtc.Common.{
  ℕ, zero, suc, ◌+◌, ◌≤◌, ◌<◌, ◌≡◌, refl, ap, ◌⊎◌, inl, inr, true, false, Option, none, some, List,
  [], ◌∷◌, ◌++◌, length, length-append, drop, arith,
}
use mathlib.Core.Path.{subst}
use mangle_webrtc.Handshake.Protocol.{
  Side, System, Step, client_sends, server_sends, client_receives, server_receives, begin, Reach,
  here, next,
}
use mangle_webrtc.Handshake.Flow.{gathering, candidates, EndsOnce, Flow, Reach-Agrees}
use mangle_webrtc.Handshake.Progress.{Reach-turn, Reach-all}

-- The client's peer connection gathers `client_all` and then the end, of which the first `missed`
-- come before there is a callback, and nobody gets them.
abbrev pub late_begin : {C S : Type 0} → ℕ → List C → List S → System C S
late_begin missed client_all server_all =
    begin (drop missed (gathering client_all)) (gathering server_all)

drop-gathering :
    {C : Type 0} (missed : ℕ) (all : List C)
    → missed ≤ length all
    → drop missed (gathering all) ≡ gathering (drop missed all)
drop-gathering zero all within = refl
drop-gathering (suc missed) [] within = absurd (omega arith)
drop-gathering (suc missed) (c ∷ all) within = drop-gathering missed all (omega arith)

drop-gathering_all :
    {C : Type 0} (missed : ℕ) (all : List C)
    → length all < missed
    → drop missed (gathering all) ≡ []
drop-gathering_all zero all beyond = absurd (omega arith)
drop-gathering_all (suc zero) [] beyond = refl
drop-gathering_all (suc (suc missed)) [] beyond = refl
drop-gathering_all (suc missed) (c ∷ all) beyond = drop-gathering_all missed all (omega arith)

length-drop_le : {C : Type 0} (n : ℕ) (xs : List C) → length (drop n xs) ≤ length xs
length-drop_le zero xs = omega arith
length-drop_le (suc n) [] = omega arith
length-drop_le (suc n) (x ∷ xs) = omega (arith, length-drop_le n xs)

length-EndsOnce :
    {C : Type 0} (cs : List (Option C)) → EndsOnce cs → length cs ≤ length (candidates cs) + 1
length-EndsOnce [] ends = omega arith
length-EndsOnce (none ∷ []) ends = omega arith
length-EndsOnce (none ∷ c ∷ cs) ends = absurd (ground (arith, ends.0))
length-EndsOnce (some c ∷ cs) ends = omega (arith, length-EndsOnce cs ends.1)

-- What is on its way is never more than what there is to send.
Flow-room :
    {C S : Type 0} {all : List C} {s : Side C S} {r : Side S C} {queue : List (Option C)}
    → Flow all s r queue
    → length queue ≤ length all + 1
Flow-room {all} {s} {r} {queue} f =
    let sum : length (r.added ++ candidates (queue ++ s.to_gather)) ≡ length all =
      ap length f.kept in
    omega (
      arith,
      sum,
      length-append r.added (candidates (queue ++ s.to_gather)),
      length-append queue s.to_gather,
      length-EndsOnce (queue ++ s.to_gather) f.ends,
    )

module _ {C S : Type 0} where
  -- The client is never going to send its end.
  record Endless (s : System C S) : Type 0 where
    gathered : s.client.to_gather ≡ []
    none_sent : s.to_server ≡ []
    sending : s.client.done_sending_ice ≡ false
    receiving : s.server.done_receiving_ice ≡ false
    client_stays : s.client.left ≡ false
    server_stays : s.server.left ≡ false

  Step-Endless : (s t : System C S) → Step s t → Endless s → Endless t
  Step-Endless s t (client_sends c rest o e u) n = absurd (ground (arith, n.gathered, e))
  Step-Endless s t (server_receives c rest o e u) n = absurd (ground (arith, n.none_sent, e))
  Step-Endless s t (server_sends c rest o e u) n = ground (arith, u)
  Step-Endless s t (client_receives none rest o e u) n = ground (arith, u)
  Step-Endless s t (client_receives (some c) rest o e u) n = ground (arith, u)

  Reach-Endless :
      (server_all : List S) (s : System C S) → Reach (begin [] (gathering server_all)) s → Endless s
  Reach-Endless server_all s here = record {
    gathered = refl;
    none_sent = refl;
    sending = refl;
    receiving = refl;
    client_stays = refl;
    server_stays = refl;
  }
  Reach-Endless server_all s (next {t} r st) = Step-Endless t s st (Reach-Endless server_all t r)

  late-Reach :
      (missed : ℕ) (client_all : List C) (server_all : List S) (s : System C S)
      → missed ≤ length client_all
      → Reach (late_begin missed client_all server_all) s
      → Reach (begin (gathering (drop missed client_all)) (gathering server_all)) s
  late-Reach missed client_all server_all s within r =
      subst (λ cs. Reach (begin cs (gathering server_all)) s)
        (drop-gathering missed client_all within) r

  late-Endless :
      (missed : ℕ) (client_all : List C) (server_all : List S) (s : System C S)
      → length client_all < missed
      → Reach (late_begin missed client_all server_all) s
      → Endless s
  late-Endless missed client_all server_all s beyond r = Reach-Endless server_all s (
      subst (λ cs. Reach (begin cs (gathering server_all)) s)
        (drop-gathering_all missed client_all beyond) r)

  -- Whether the exchange can get stuck depends on whether the client's callback was set in time for
  -- the end of its candidates. If it was, then in every state that is reached one of the sides has a
  -- turn, until both have left their loops; and a send never has to wait on a stream that holds one
  -- message more than there are candidates, since no more are on their way. If it was not, neither
  -- side ever leaves its loop.
  pub late_begin-progress :
      (missed : ℕ) (client_all : List C) (server_all : List S) (s : System C S)
      → Reach (late_begin missed client_all server_all) s
      → ((missed ≤ length client_all)
          × (length s.to_server ≤ length client_all + 1)
          × (length s.to_client ≤ length server_all + 1)
          × (((s.client.left ≡ true) × (s.server.left ≡ true)) ⊎ ((t : System C S) × Step s t)))
        ⊎ ((length client_all < missed) × (s.client.left ≡ false) × (s.server.left ≡ false))
  late_begin-progress missed client_all server_all s r = elim (dec_lt (length client_all) missed) [
    | yes beyond ↦
        let n = late-Endless missed client_all server_all s beyond r in
        inr (beyond, n.client_stays, n.server_stays)
    | no in_time ↦
        let within : missed ≤ length client_all = omega arith in
        let r' = late-Reach missed client_all server_all s within r in
        let a = Reach-Agrees (drop missed client_all) server_all s r' in
        inl (
          within,
          omega (arith, Flow-room a.up, length-drop_le missed client_all),
          Flow-room a.down,
          Reach-turn (drop missed client_all) server_all s r',
        )
  ]

  -- When both sides have left their loops, the end of the client's candidates was not missed, the
  -- server's peer connection was given the client's candidates but for those that were gathered before
  -- the callback was set, the client's peer connection all of the server's, each in order, and nothing
  -- is on its way.
  pub late_begin-left :
      (missed : ℕ) (client_all : List C) (server_all : List S) (s : System C S)
      → Reach (late_begin missed client_all server_all) s
      → s.client.left ≡ true
      → s.server.left ≡ true
      → (missed ≤ length client_all)
        × (s.server.added ≡ drop missed client_all)
        × (s.client.added ≡ server_all)
        × (s.to_server ≡ [])
        × (s.to_client ≡ [])
  late_begin-left missed client_all server_all s r client_left server_left =
      elim (dec_lt (length client_all) missed) [
        | yes beyond ↦
            let n = late-Endless missed client_all server_all s beyond r in
            absurd (ground (arith, n.client_stays))
        | no in_time ↦
            let within : missed ≤ length client_all = omega arith in
            let (server_added, client_added, up, down) =
              Reach-all (drop missed client_all) server_all s
                (late-Reach missed client_all server_all s within r) client_left server_left in
            (within, server_added, client_added, up, down)
      ]
