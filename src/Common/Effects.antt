-- ===== src/Common/Effects.antt =====
-- Code that calls what is not of the repository: a chain of calls, each of which is logged with its
-- arguments and its answer. An answer may depend on all that was called before.
use mathlib.Core.List.{List, ◌∷◌}
use mangle_webrtc.Common.Results.{Result, ok, err}

-- `C` is an event of the log, the newest first; `X` is the way in which the code may stop.
abbrev pub Eff : Type 0 → Type 0 → Type 0 → Type 0
Eff C X A = List C → Result X A × List C

infixl 5 ◌>>=◌ ◌>>◌
abbrev pub ◌>>=◌ : {C X A B : Type 0} → Eff C X A → (A → Eff C X B) → Eff C X B
◌>>=◌ m f h = let (r, h') = m h in elim r [ ok a ↦ f a h' | err x ↦ (err x, h') ]

abbrev pub ◌>>◌ : {C X A B : Type 0} → Eff C X A → Eff C X B → Eff C X B
m >> k = m >>= λ _. k

abbrev pub pure : {C X A : Type 0} → A → Eff C X A
pure a h = (ok a, h)

abbrev pub stop : {C X A : Type 0} → X → Eff C X A
stop x h = (err x, h)

-- A call whose answer nobody reads.
abbrev pub emit : {C X : Type 0} → C → Eff C X (Unit {0})
emit c h = (ok tt, c ∷ h)

-- A call: `answer` is asked for its answer, and `c` is the event to log.
abbrev pub ask : {C X A : Type 0} → (List C → A) → (A → C) → Eff C X A
ask answer c h = (ok (answer h), c (answer h) ∷ h)
