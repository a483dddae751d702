-- ===== src/Handshake/Endings.antt =====
-- Where the end of the candidates stands among them.
use mathlib.Core.List.{reverse, reverse-cons, append_assoc}
use mangle_webrtc.Common.{
  ◌≡◌, refl, sym, ap, ◌∙◌, Bool-cases, true, ◌||◌, inl, inr, Option, none, some, List, [], ◌∷◌,
  ◌++◌, arith,
}
use mangle_webrtc.Server.Exchange.{ended}
use mangle_webrtc.Handshake.{EndsLast}
use mangle_webrtc.Handshake.Flow.{gathering}

module _ {C : Type 0} where
  pub ended-append_or : (xs ys : List (Option C)) → ended (xs ++ ys) ≡ (ended xs || ended ys)
  ended-append_or [] ys = refl
  ended-append_or (none ∷ xs) ys = refl
  ended-append_or (some c ∷ xs) ys = ended-append_or xs ys

  pub ended-reverse : (xs : List (Option C)) → ended xs ≡ true → ended (reverse xs) ≡ true
  ended-reverse [] e = e
  ended-reverse (c ∷ xs) e =
      ground (arith, reverse-cons c xs, ended-reverse xs, ended-append_or (reverse xs) (c ∷ []))

  -- Nothing comes behind the end.
  pub gathering-end :
      (all : List C) (xs ys : List (Option C))
      → xs ++ ys ≡ gathering all
      → ended xs ≡ true
      → ys ≡ []
  gathering-end all [] ys e end = absurd (ground (arith, end))
  gathering-end [] (c ∷ []) ys e end = ground (arith, e)
  gathering-end [] (c ∷ d ∷ xs) ys e end = absurd (ground (arith, e))
  gathering-end (a ∷ all) (none ∷ xs) ys e end = absurd (ground (arith, e))
  gathering-end (a ∷ all) (some c ∷ xs) ys e end = gathering-end all xs ys (ground (arith, e)) end

  -- What is sent of such candidates has nothing behind the end.
  pub gathering-EndsLast :
      (all : List C) (before sent : List (Option C))
      → before ++ reverse sent ≡ gathering all
      → EndsLast sent
  gathering-EndsLast all before [] e = tt
  gathering-EndsLast all before (c ∷ sent) e = elim (Bool-cases (ended sent)) [
    | inr last ↦ last
    | inl early ↦
        let behind : (before ++ reverse sent) ++ (c ∷ []) ≡ gathering all =
          append_assoc before (reverse sent) (c ∷ [])
          ∙ ap (λ l. before ++ l) (sym (reverse-cons c sent))
          ∙ e in
        let none : c ∷ [] ≡ [] =
          gathering-end all (before ++ reverse sent) (c ∷ []) behind
            (ground (arith, ended-append_or before (reverse sent), ended-reverse sent early)) in
        absurd (ground (arith, none))
  ]
