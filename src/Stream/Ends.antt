-- ===== src/Stream/Ends.antt =====
-- The consumer comes to an end, if it may process a bounded number of messages.
use crypto_copy_trading_plat.Prelude.{
  ℕ, zero, suc, ◌+◌, ◌-◌, ◌*◌, ◌≤◌, ◌<◌, ◌≡◌, refl, Option, none, some, ◌⊎◌, inl, inr, leb, arith,
  Bool-cases,
}
use mathlib.Core.Path.{subst}
use crypto_copy_trading_plat.Prelude.Exec.{Result, ok, err}
use crypto_copy_trading_plat.Json.{Fields}
use crypto_copy_trading_plat.Database.{Database}
use crypto_copy_trading_plat.Stream.{
  HandlerError, HandlingResult, handle_event, parse_event, Surroundings, ConsumerSettings,
  ConsumerState, ConsumerEnd, returned, raised, ConsumerPhase, connecting, reading, ConsumerStep,
  next, finish, reconnect, after_message, after_failure, after_receive, consumer_step, consume,
}

abbrev pub end_state : ConsumerEnd → ConsumerState
end_state (returned status s) = s
end_state (raised e s) = s

abbrev phase_weight : ConsumerPhase → ℕ
phase_weight connecting = 1
phase_weight reading = 0

-- The turns that are left: two for each message and each attempt, and one to connect.
abbrev weight : ℕ → ℕ → ConsumerState → ℕ
weight messages attempts s =
    2 * (messages - s.messages_processed) + 2 * (attempts - s.reconnect_attempts)

pub step-cases :
    (st : ConsumerStep)
    → ((e : ConsumerEnd) × (st ≡ finish e))
      ⊎ ((phase : ConsumerPhase) × (s : ConsumerState) × (st ≡ next phase s))
step-cases (finish e) = inl (e, refl)
step-cases (next phase s) = inr (phase, s, refl)

module _ (c : ConsumerSettings) (messages : ℕ) where
  abbrev Room : ConsumerState → Type 0
  Room s = (s.messages_processed < messages) × (s.reconnect_attempts ≤ c.max_reconnect_attempts)

  abbrev pub InBounds : ConsumerEnd → Type 0
  InBounds e =
      ((end_state e).messages_processed ≤ messages)
      × ((end_state e).reconnect_attempts ≤ c.max_reconnect_attempts)

  -- A turn ends within the bounds, or leaves fewer turns than `p`.
  abbrev GoesDown : ℕ → ConsumerStep → Type 0
  GoesDown p (finish e) = InBounds e
  GoesDown p (next phase s) =
      Room s × (phase_weight phase + weight messages c.max_reconnect_attempts s < p)

  reconnect-GoesDown :
      (p : ℕ) (s : ConsumerState)
      → Room s
      → weight messages c.max_reconnect_attempts s ≤ p
      → GoesDown p (reconnect c s)
  unfolding reconnect
  reconnect-GoesDown p s room h =
      elim (Bool-cases (leb c.max_reconnect_attempts s.reconnect_attempts)) [
        | inl spent ↦ rw spent (omega (arith, room.0), room.1)
        | inr left ↦
            let more : s.reconnect_attempts < c.max_reconnect_attempts = ground arith in
            rw left ((room.0, more), omega (arith, h, more, room.0))
      ]

  message-GoesDown :
      (p : ℕ) (s : ConsumerState) (r : Result HandlerError HandlingResult × Database)
      → c.max_messages ≡ some messages
      → Room s
      → weight messages c.max_reconnect_attempts s ≤ p
      → GoesDown p (after_message c s r)
  unfolding after_message
  message-GoesDown p s (err e, db) limit room h = (omega (arith, room.0), room.1)
  message-GoesDown p s (ok r, db) limit room h =
      elim (Bool-cases (leb messages (suc s.messages_processed))) [
        | inl full ↦ rw (limit, full) (omega (arith, room.0), room.1)
        | inr left ↦
            let more : suc s.messages_processed < messages = ground arith in
            rw (limit, left) ((more, room.1), omega (arith, h, more))
      ]

module _ (c : ConsumerSettings) (around : Surroundings) (messages : ℕ)
    (limit : c.max_messages ≡ some messages) where
  receive-GoesDown :
      (p : ℕ) (o : Option Fields) (s : ConsumerState)
      → Room c messages s
      → weight messages c.max_reconnect_attempts s ≤ p
      → GoesDown c messages p (after_receive c around o s)
  unfolding after_receive after_failure
  receive-GoesDown p none s room h = elim (Bool-cases (around.should_stop s.asked)) [
    | inl stops ↦ rw stops (omega (arith, room.0), room.1)
    | inr goes ↦ rw goes (reconnect-GoesDown c messages p (record s { asked = suc s.asked }) room h)
  ]
  receive-GoesDown p (some payload) s room h =
      message-GoesDown c messages p s
        (handle_event c.reader c.user_id c.exchange_account_id
          (parse_event c.reader c.exchange_name payload) s.db)
        limit room h

  step-GoesDown :
      (phase : ConsumerPhase) (s : ConsumerState)
      → Room c messages s
      → GoesDown c messages
          (phase_weight phase + weight messages c.max_reconnect_attempts s)
          (consumer_step c around phase s)
  unfolding consumer_step
  step-GoesDown connecting s room = elim (Bool-cases (around.should_stop s.asked)) [
    | inl stops ↦ rw stops (omega (arith, room.0), room.1)
    | inr goes ↦ elim (Bool-cases (around.opens s.opened)) [
      | inl opens ↦ rw (goes, opens) (room, omega arith)
      | inr fails ↦
          rw (goes, fails)
            (reconnect-GoesDown c messages _
              (record s { asked = suc s.asked; opened = suc s.opened }) room (omega arith))
    ]
  ]
  step-GoesDown reading s room = elim (Bool-cases (around.should_stop s.asked)) [
    | inl stops ↦ rw stops (omega (arith, room.0), room.1)
    | inr goes ↦ rw goes (
        receive-GoesDown _ (around.receive s.received)
          (record s { asked = suc s.asked; received = suc s.received }) room (omega arith))
  ]

  consume_from :
      (fuel : ℕ) (phase : ConsumerPhase) (s : ConsumerState)
      → Room c messages s
      → phase_weight phase + weight messages c.max_reconnect_attempts s < fuel
      → (e : ConsumerEnd) × (consume c around fuel phase s ≡ some e) × InBounds c messages e
  unfolding consume
  consume_from zero phase s room h = absurd (omega (arith, h))
  consume_from (suc fuel) phase s room h =
      let down = step-GoesDown phase s room in
      elim (step-cases (consumer_step c around phase s)) [
        | inl (e, ends) ↦ rw (consume, ends) (e, refl, subst (GoesDown c messages _) ends down)
        | inr (phase', s', goes) ↦
            let (room', less) = subst (GoesDown c messages _) goes down in
            rw (consume, goes) (consume_from fuel phase' s' room' (omega (arith, less, h)))
      ]

-- With a positive limit of messages the consumer ends, whatever its surroundings answer and
-- whatever the messages say: twice the limit and twice the attempts and two more are enough turns.
-- No more messages are processed and no more attempts made than the settings allow.
pub consume_ends :
    (c : ConsumerSettings) (around : Surroundings) (messages : ℕ) (s : ConsumerState)
    → c.max_messages ≡ some messages
    → 0 < messages
    → s.messages_processed ≡ 0
    → s.reconnect_attempts ≡ 0
    → (e : ConsumerEnd) × (consume c around
          (2 * messages + 2 * c.max_reconnect_attempts + 2)
          connecting
          s
        ≡ some e)
      × InBounds c messages e
consume_ends c around messages s limit positive none_yet no_attempt =
    consume_from c around messages limit (2 * messages + 2 * c.max_reconnect_attempts + 2)
      connecting s (omega (arith, none_yet, positive), omega (arith, no_attempt))
      (omega (arith, none_yet, no_attempt))
