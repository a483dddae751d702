-- ===== src/Handshake/Progress.antt =====
-- Whether the exchange of `Protocol` ends, and how.
use mathlib.Core.List.{append-nil}
use native.Mathlib.Decide.{dec_lt}
use mangle_webrtc.Common.{
  ℕ, ◌+◌, ◌*◌, ◌<◌, ◌≡◌, refl, ◌⊎◌, inl, inr, true, Option, none, some, List, [], ◌∷◌, ◌++◌, length,
  length-append, List-cases, arith,
}
use mangle_webrtc.Handshake.Protocol.{
  Side, System, Step, client_sends, server_sends, client_receives, server_receives, begin, Reach,
  here, next,
}
use mangle_webrtc.Handshake.Flow.{gathering, Flow, Agrees, Reach-Agrees}

length-eq_zero : {A : Type 0} (xs : List A) → length xs ≡ 0 → xs ≡ []
length-eq_zero [] e = refl
length-eq_zero (x ∷ xs) e = absurd (omega arith)

length-gathering : {C : Type 0} (cs : List C) → length (gathering cs) ≡ length cs + 1
length-gathering [] = refl
length-gathering (c ∷ cs) = omega (arith, length-gathering cs)

module _ {C S : Type 0} where
  received-all :
      {all : List C} {s : Side C S} {r : Side S C} {queue : List (Option C)}
      → Flow all s r queue
      → r.done_receiving_ice ≡ true
      → (r.added ≡ all) × (queue ≡ [])
  received-all {all} {s} {r} {queue} f done = elim (List-cases (queue ++ s.to_gather)) [
    | inr (c, rest, e) ↦ absurd (ground (arith, f.arrived, e))
    | inl e ↦ (
      ground (arith, f.kept, e, append-nil r.added),
      elim (List-cases queue) [ inl q ↦ q | inr (c, rest, q) ↦ absurd (ground (arith, e, q)) ],
    )
  ]

module _ {C S : Type 0} where
  all_left :
      {ca : List C} {sa : List S} {s : System C S}
      → Agrees ca sa s
      → s.client.to_gather ≡ []
      → s.server.to_gather ≡ []
      → s.to_server ≡ []
      → s.to_client ≡ []
      → (s.client.left ≡ true) × (s.server.left ≡ true)
  all_left a cg sg ts tc = (
    ground (arith, a.client_left, a.up.sent, a.down.arrived, cg, sg, tc),
    ground (arith, a.server_left, a.down.sent, a.up.arrived, cg, sg, ts),
  )

  -- While a side is in its loop, one of the two has a turn, where each side has finitely many
  -- candidates and then their end to send.
  pub Reach-turn :
      (client_all : List C) (server_all : List S) (s : System C S)
      → Reach (begin (gathering client_all) (gathering server_all)) s
      → ((s.client.left ≡ true) × (s.server.left ≡ true)) ⊎ ((t : System C S) × Step s t)
  Reach-turn ca sa s r = elim (List-cases s.client.to_gather) [
    | inr (c, rest, e) ↦
        inr (_, client_sends c rest (ground (arith, a.client_left, a.up.sent, e)) e refl)
    | inl gathered ↦ elim (List-cases s.server.to_gather) [
      | inr (c, rest, e) ↦
          inr (_, server_sends c rest (ground (arith, a.server_left, a.down.sent, e)) e refl)
      | inl gathered' ↦ elim (List-cases s.to_server) [
        | inr (c, rest, e) ↦
            inr (_, server_receives c rest (ground (arith, a.server_left, a.up.arrived, e)) e refl)
        | inl arrived ↦ elim (List-cases s.to_client) [
          | inr (c, rest, e) ↦
              inr (
                _,
                client_receives c rest (ground (arith, a.client_left, a.down.arrived, e)) e refl,
              )
          | inl arrived' ↦ inl (all_left a gathered gathered' arrived arrived')
        ]
      ]
    ]
  ]
    where
      a : Agrees ca sa s
      a = Reach-Agrees ca sa s r

  -- When both sides have left their loops, each peer connection was given what the other side had to
  -- send, in order, and nothing is on its way.
  pub Reach-all :
      (client_all : List C) (server_all : List S) (s : System C S)
      → Reach (begin (gathering client_all) (gathering server_all)) s
      → s.client.left ≡ true
      → s.server.left ≡ true
      → (s.server.added ≡ client_all)
        × (s.client.added ≡ server_all)
        × (s.to_server ≡ [])
        × (s.to_client ≡ [])
  Reach-all ca sa s r cl sl =
      let a = Reach-Agrees ca sa s r in
      let (server_added, none_to_server) = received-all a.up (ground (arith, a.server_left)) in
      let (client_added, none_to_client) = received-all a.down (ground (arith, a.client_left)) in
      (server_added, client_added, none_to_server, none_to_client)

  -- What is left to do: a turn for each candidate to gather, and one for each on its way.
  abbrev pub turns_left : System C S → ℕ
  turns_left s =
      2 * length s.client.to_gather
      + length s.to_server
      + (2 * length s.server.to_gather + length s.to_client)

  Step-turns_left : (s t : System C S) → Step s t → turns_left s ≡ turns_left t + 1
  Step-turns_left s t (client_sends c rest o e u) =
      ground (arith, e, u, length-append s.to_server (c ∷ []))
  Step-turns_left s t (server_sends c rest o e u) =
      ground (arith, e, u, length-append s.to_client (c ∷ []))
  Step-turns_left s t (client_receives none rest o e u) = ground (arith, e, u)
  Step-turns_left s t (client_receives (some c) rest o e u) = ground (arith, e, u)
  Step-turns_left s t (server_receives none rest o e u) = ground (arith, e, u)
  Step-turns_left s t (server_receives (some c) rest o e u) = ground (arith, e, u)

  -- How many turns a run takes.
  abbrev pub steps : {s t : System C S} → Reach s t → ℕ
  steps here = 0
  steps (next r st) = steps r + 1

  steps-turns_left : (s t : System C S) (r : Reach s t) → turns_left s ≡ turns_left t + steps r
  steps-turns_left s t here = omega arith
  steps-turns_left s t (next {t = u} r st) =
      omega (arith, steps-turns_left s u r, Step-turns_left u t st)

  none-turns_left :
      {ca : List C} {sa : List S} {s : System C S}
      → Agrees ca sa s
      → turns_left s ≡ 0
      → (s.client.left ≡ true) × (s.server.left ≡ true)
  none-turns_left {s} a e =
      all_left a (length-eq_zero s.client.to_gather (omega arith))
        (length-eq_zero s.server.to_gather (omega arith)) (length-eq_zero s.to_server (omega arith))
        (length-eq_zero s.to_client (omega arith))

  -- Whatever the order of the turns, the exchange ends: where the client gathers `n` candidates and
  -- the server `m`, a run takes at most `2 * n + 2 * m + 4` turns, and if it has taken as many, both
  -- sides have left their loops.
  pub Reach-ends :
      (client_all : List C) (server_all : List S) (s : System C S)
      (r : Reach (begin (gathering client_all) (gathering server_all)) s)
      → (steps r < 2 * length client_all + 2 * length server_all + 4)
        ⊎ ((steps r ≡ 2 * length client_all + 2 * length server_all + 4)
            × (s.client.left ≡ true)
            × (s.server.left ≡ true))
  Reach-ends ca sa s r = elim (dec_lt (steps r) (2 * length ca + 2 * length sa + 4)) [
    | yes more ↦ inl more
    | no full ↦
        let (client_left, server_left) =
          none-turns_left (Reach-Agrees ca sa s r)
            (omega (arith, counted, length-gathering ca, length-gathering sa)) in
        inr (
          omega (arith, counted, length-gathering ca, length-gathering sa),
          client_left,
          server_left,
        )
  ]
    where
      counted : turns_left (begin (gathering ca) (gathering sa)) ≡ turns_left s + steps r
      counted = steps-turns_left (begin (gathering ca) (gathering sa)) s r
