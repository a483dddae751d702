-- ===== src/Server/Handover.antt =====
-- upgrade2webrtc/src/server.rs: the callback of `on_data_channel`, which waits for each data channel
-- of the client to open and sends it to `on_success`. One such call runs for each data channel, next
-- to the others.
use mangle_webrtc.Common.{
  ℕ, zero, suc, ◌+◌, ◌≡◌, Bool, true, false, Option, none, some, List, [], ◌∷◌, ◌++◌, if◌then◌else◌,
  Result, ok, err, Option-cases, inl, inr, arith,
}

-- `mpsc::channel(1)` of tokio, by what its documentation promises: what is sent comes out in the same
-- order. `try_send` answers nothing where the sender has to wait for room.
pub record MpscChannel (A : Type 0) : Type 1 where
  pub Queue : Type 0
  pub empty : Queue
  pub try_send : A → Queue → Option Queue
  pub recv : Queue → Option (A × Queue)
  pub contents : Queue → List A
  pub contents-empty : contents empty ≡ []
  pub contents-try_send :
      (a : A) (q r : Queue) → try_send a q ≡ some r → contents r ≡ contents q ++ (a ∷ [])
  pub contents-recv : (a : A) (q r : Queue) → recv q ≡ some (a, r) → contents q ≡ a ∷ contents r

-- The callbacks that wait for `open_receiver` and those that wait in `channel_sender.send`, each by
-- its data channel; what `channel_recv` has passed on to `on_success`; what could not be sent since
-- `channel_recv` was dropped; and how often the failure to open was logged.
pub record Handover (DataChannel Queue : Type 0) : Type 0 where
  pub opening : List DataChannel
  pub sending : List DataChannel
  pub queue : Queue
  pub taken : List DataChannel
  pub receiver_dropped : Bool
  pub unsent : List DataChannel
  pub errors : ℕ

-- What happens next. A number says which of the callbacks goes on.
pub data Happening (DataChannel : Type 0) : Type 0 where
  announced : DataChannel → Happening DataChannel
  open_received : ℕ → Result (Unit {0}) (Unit {0}) → Happening DataChannel
  sent : ℕ → Happening DataChannel
  taken_next dropped : Happening DataChannel

abbrev pub remove_at {ℓ} : {A : Type ℓ} → ℕ → List A → Option (A × List A)
remove_at n [] = none
remove_at zero (x ∷ xs) = some (x, xs)
remove_at (suc n) (x ∷ xs) = elim (remove_at n xs) [ none ↦ none | some (y, ys) ↦ some (y, x ∷ ys) ]

-- How many of the data channels pass a test.
abbrev pub count : {A : Type 0} → (A → Bool) → List A → ℕ
count p [] = 0
count p (x ∷ xs) = (if p x then 1 else 0) + count p xs

pub count-append :
    {A : Type 0} (p : A → Bool) (xs ys : List A) → count p (xs ++ ys) ≡ count p xs + count p ys
count-append p [] ys = omega arith
count-append p (x ∷ xs) ys = omega (arith, count-append p xs ys)

pub count-remove_at :
    {A : Type 0} (p : A → Bool) (n : ℕ) (xs : List A) (x : A) (rest : List A)
    → remove_at n xs ≡ some (x, rest)
    → count p xs ≡ (if p x then 1 else 0) + count p rest
count-remove_at p n [] x rest e = absurd (ground arith)
count-remove_at p zero (y ∷ xs) x rest e = ground arith
count-remove_at p (suc n) (y ∷ xs) x rest e = elim (Option-cases (remove_at n xs)) [
  | inl none_left ↦ absurd (ground (arith, e, none_left))
  | inr ((z, zs), found) ↦ ground (arith, e, found, count-remove_at p n xs z zs found)
]

module _ {DataChannel : Type 0} (mpsc : MpscChannel DataChannel) where
  abbrev pub State : Type 0
  State = Handover DataChannel mpsc.Queue

  abbrev pub registered : State
  registered = record {
    opening = [];
    sending = [];
    queue = mpsc.empty;
    taken = [];
    receiver_dropped = false;
    unsent = [];
    errors = 0;
  }

  -- `channel_sender.send`, whose error nobody reads.
  unfoldable pub send_channel : DataChannel → State → Option State
  send_channel c s =
      if s.receiver_dropped
      then some (record s { unsent = c ∷ s.unsent })
      else elim (mpsc.try_send c s.queue) [ none ↦ none | some q ↦ some (record s { queue = q }) ]

  unfoldable pub happen : Happening DataChannel → State → Option State
  unfolding send_channel
  happen (announced c) s = some (record s { opening = c ∷ s.opening })
  happen (open_received n answer) s = elim (remove_at n s.opening) [
    | none ↦ none
    | some (c, rest) ↦ some record s {
      opening = rest;
      sending = c ∷ s.sending;
      errors = s.errors + elim answer [ ok u ↦ 0 | err u ↦ 1 ];
    }
  ]
  happen (sent n) s = elim (remove_at n s.sending) [
    | none ↦ none
    | some (c, rest) ↦ send_channel c (record s { sending = rest })
  ]
  happen taken_next s = if s.receiver_dropped then none else elim (mpsc.recv s.queue) [
    | none ↦ none
    | some (c, q) ↦ some (record s { queue = q; taken = s.taken ++ (c ∷ []) })
  ]
  happen dropped s = some (record s { receiver_dropped = true })

  -- What happens in turn; `none` where a callback that is named does not wait, or has to wait on.
  unfoldable pub happen_all : List (Happening DataChannel) → State → Option State
  unfolding happen
  happen_all [] s = some s
  happen_all (e ∷ es) s = elim (happen e s) [ none ↦ none | some t ↦ happen_all es t ]
