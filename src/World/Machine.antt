-- ===== src/World/Machine.antt =====
-- The status of a session as an abstract state machine, and what the service shows of it.
use ethonline.Common.{
  ℕ, ◌≤◌, ◌≡◌, ◌∙◌, sym, Bool, true, false, not, ◌&&◌, ◌||◌, Option, none, some, arith,
  Option-cases, if◌then◌else◌, inl, inr,
}
use mathlib.Core.Path.{subst}
use ethonline.Common.Text.{Text}
use ethonline.Common.Results.{none_ne_some, some_injective}
use ethonline.Common.Dict.{Dict, lookup}
use ethonline.X402.Ethers.{Ethers}
use ethonline.World.Bindings.{Binding}
use ethonline.World.Sessions.{
  OrbStatus, Session, PollResult, VerifyResponse, tick, poll_returns, verify_returns,
  bind_message_of, expire, is_over, is_awaiting, is_resting, is_bound, is_verified, stop_polling,
}
use ethonline.World.Approver.{Approvers}
use ethonline.World.Fresh.{Step-IsFresh}
use ethonline.World.Steps.{
  Step, Reach, booted, later, restarted, Change, kept, ticked, poll_done, verify_done, expiry,
  binding, Step-Changes,
}

-- The abstract machine: a status moves forward, an expired or bound session moves no more.
abbrev pub may_move : OrbStatus → OrbStatus → Bool
may_move OrbStatus.waiting_for_world_app OrbStatus.bound = false
may_move OrbStatus.waiting_for_world_app s = true
may_move OrbStatus.awaiting_confirmation OrbStatus.waiting_for_world_app = false
may_move OrbStatus.awaiting_confirmation OrbStatus.bound = false
may_move OrbStatus.awaiting_confirmation s = true
may_move OrbStatus.verified OrbStatus.verified = true
may_move OrbStatus.verified OrbStatus.bound = true
may_move OrbStatus.verified OrbStatus.expired = true
may_move OrbStatus.failed OrbStatus.failed = true
may_move OrbStatus.failed OrbStatus.expired = true
may_move OrbStatus.bound OrbStatus.bound = true
may_move OrbStatus.expired OrbStatus.expired = true
may_move _ _ = false

-- The status that `getOrbVerification` would show at the time `now`.
abbrev pub observed : ℕ → Session → OrbStatus
observed now x = if is_over now x && not (is_bound x.status) then OrbStatus.expired else x.status

abbrev is_expired : OrbStatus → Bool
is_expired OrbStatus.expired = true
is_expired _ = false

abbrev pub message_of : Option Text → Option Text
message_of none = none
message_of (some nullifier) = some (bind_message_of nullifier)

-- While the loop awaits something the session is undecided or expired, it expires on time only, and
-- the message to be signed is the one of its nullifier.
pub record IsTimely (now : ℕ) (x : Session) : Type 0 where
  pub undecided : is_resting x.phase ≡ false → (is_awaiting x.status || is_expired x.status) ≡ true
  pub named : x.bind_message ≡ message_of x.nullifier
  pub on_time : is_expired x.status ≡ true → is_over now x ≡ true

tick-Moves :
    (t u : ℕ) (x : Session)
    → t ≤ u
    → IsTimely t x
    → IsTimely u (tick u x) × (may_move (observed t x) (observed u (tick u x)) ≡ true)
unfolding tick
tick-Moves t u x le sound = (ground arith, ground arith)

expire-Moves :
    (t u : ℕ) (x : Session)
    → t ≤ u
    → IsTimely t x
    → IsTimely u (expire u x) × (may_move (observed t x) (observed u (expire u x)) ≡ true)
unfolding expire
expire-Moves t u x le sound = (ground arith, ground arith)

poll_returns-Moves :
    (t u : ℕ) (r : PollResult) (x : Session)
    → t ≤ u
    → IsTimely t x
    → IsTimely u (poll_returns r x)
      × (may_move (observed t x) (observed u (poll_returns r x)) ≡ true)
unfolding poll_returns
poll_returns-Moves t u r x le sound = (ground arith, ground arith)

binding-Moves :
    (t u : ℕ) (x : Session)
    → t ≤ u
    → IsTimely t x
    → is_over u x ≡ false
    → is_verified x.status ≡ true
    → IsTimely u (stop_polling (record x { status = OrbStatus.bound }))
      × (may_move (observed t x) (observed u (stop_polling (record x { status = OrbStatus.bound })))
          ≡ true)
binding-Moves t u x le sound early verified = (ground arith, ground arith)

kept-Moves :
    (t u : ℕ) (x : Session)
    → t ≤ u
    → IsTimely t x
    → IsTimely u x × (may_move (observed t x) (observed u x) ≡ true)
kept-Moves t u x le sound = (ground arith, ground arith)

module _ (ethers : Ethers) (hash_signal : Text → Text) where
  verify_returns-Moves :
      (t u : ℕ) (action : Option Text) (approver : Text) (response : Option (Option VerifyResponse))
      (d : Dict Binding) (x : Session)
      → t ≤ u
      → IsTimely t x
      → IsTimely u (verify_returns ethers hash_signal action approver response d x)
        × (may_move
              (observed t x)
              (observed u (verify_returns ethers hash_signal action approver response d x))
            ≡ true)
  unfolding verify_returns
  verify_returns-Moves t u action approver response d x le sound = (ground arith, ground arith)

  Change-Moves :
      (t u : ℕ) (x x' : Session)
      → t ≤ u
      → IsTimely t x
      → Change ethers hash_signal u x x'
      → IsTimely u x' × (may_move (observed t x) (observed u x') ≡ true)
  Change-Moves t u x _ le sound kept = kept-Moves t u x le sound
  Change-Moves t u x _ le sound ticked = tick-Moves t u x le sound
  Change-Moves t u x _ le sound (poll_done r) = poll_returns-Moves t u r x le sound
  Change-Moves t u x _ le sound (verify_done action approver response d) =
      verify_returns-Moves t u action approver response d x le sound
  Change-Moves t u x _ le sound expiry = expire-Moves t u x le sound
  Change-Moves t u x _ le sound (binding early verified) =
      binding-Moves t u x le sound early verified

  -- Every session of a reachable state is sound.
  pub Reach-IsTimely :
      (t : ℕ) (s : Approvers)
      → Reach ethers hash_signal t s
      → (k : Text) (x : Session) → lookup k s.sessions ≡ some x
      → IsTimely t x
  unfolding lookup
  Reach-IsTimely _ _ booted k x there = absurd (none_ne_some x there)
  Reach-IsTimely _ _ (restarted r) k x there = absurd (none_ne_some x there)
  Reach-IsTimely _ s (later {t} {s = old} u r le step) k x there =
      elim (Option-cases (lookup k old.sessions)) [
        | inl absent ↦
            let (waits, rests, no_nullifier, no_message) =
              Step-IsFresh ethers hash_signal u k x old s step absent there in
            ground arith
        | inr (y, before) ↦
            let (x', after, change) = Step-Changes ethers hash_signal u k y old s step before in
            let sound = Reach-IsTimely t old r k y before in
            subst (IsTimely u) (some_injective x' x (sym after ∙ there))
              (Change-Moves t u y x' le sound change).0
      ]

  -- The service implements the machine of the session statuses: from every reachable state,
  -- whatever call or callback comes next at whatever later time, each session is still there and
  -- the status that the service shows of it makes a move of the machine, or none. A session that
  -- has expired or is bound stays so.
  pub Step-refines :
      (t u : ℕ) (s s' : Approvers) (k : Text) (x : Session)
      → Reach ethers hash_signal t s
      → t ≤ u
      → Step ethers hash_signal u s s'
      → lookup k s.sessions ≡ some x
      → (x' : Session) × (lookup k s'.sessions ≡ some x')
        × (may_move (observed t x) (observed u x') ≡ true)
  Step-refines t u s s' k x r le step there =
      let (x', after, change) = Step-Changes ethers hash_signal u k x s s' step there in
      let sound = Reach-IsTimely t s r k x there in
      (x', after, (Change-Moves t u x x' le sound change).1)
