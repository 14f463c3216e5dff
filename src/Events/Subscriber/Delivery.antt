-- ===== src/Events/Subscriber/Delivery.antt =====
-- What becomes of a message: proofs about Events.Subscriber.
use final_bds.Prelude.{
  ℕ, zero, suc, ◌+◌, ◌-◌, ◌<◌, ℤ, pos, leb_ℤ, ◌≤ℤ◌, List, [], ◌∷◌, ◌++◌, map, some, true, false,
  ◌≡◌, ◌⊎◌, refl, ap, ◌∙◌, arith,
}
use final_bds.Errors.{Err, ok, err}
use final_bds.Events.{Envelope}
use final_bds.Events.Retry.{RetryPolicy, backoff, backoff_schedule, delays_from, rounds}
use final_bds.Events.Subscriber.{
  DeadLetter, dead, Settlement, ack, term, nak, nak_with_delay, Message, Consumer,
  publish_dead_letter, max_deliver, event_of, handle_message, redeliver,
}

-- The event was handled.
pub record Handled (c : Consumer) (e : Envelope) (before : List DeadLetter)
    (out : Settlement × List DeadLetter) : Type 0 where
  pub acked : out.0 ≡ ack
  pub succeeded : c.handler e ≡ ok tt
  pub no_letter : out.1 ≡ before

-- The event is kept as a dead letter, after the last attempt.
pub record Kept (c : Consumer) (m : Message) (e : Envelope) (n : ℤ) (before : List DeadLetter)
    (out : Settlement × List DeadLetter) : Type 0 where
  pub terminated : out.0 ≡ term
  pub last : c.policy.max_attempts ≤ℤ n
  pub reason : Err
  pub failed : c.handler e ≡ err reason
  pub recorded : out.1 ≡ dead e m.msg_subject c.durable reason n ∷ before

-- The broker is asked to deliver the event again, while there are deliveries left.
pub record Retried (c : Consumer) (e : Envelope) (n : ℤ) (before : List DeadLetter)
    (out : Settlement × List DeadLetter) : Type 0 where
  pub asked : out.0 ≡ nak_with_delay (backoff c.policy n)
  pub early : leb_ℤ (max_deliver c) n ≡ false
  pub reason : Err
  pub failed : c.handler e ≡ err reason
  pub no_letter : out.1 ≡ before

-- The broker has refused the dead letter of the last attempt: the message is asked for again, but it
-- has used up its deliveries.
pub record Stranded (c : Consumer) (m : Message) (e : Envelope) (n : ℤ) (before : List DeadLetter)
    (out : Settlement × List DeadLetter) : Type 0 where
  pub asked : out.0 ≡ nak
  pub used_up : max_deliver c ≤ℤ n
  pub reason : Err
  pub failed : c.handler e ≡ err reason
  pub refused : c.accepts (dead e m.msg_subject c.durable reason n) ≡ false
  pub no_letter : out.1 ≡ before

-- One of the four.
abbrev Fate :
    Consumer → Message → Envelope → ℤ → List DeadLetter → Settlement × List DeadLetter → Type 0
Fate c m e n before out =
    Handled c e before out
    ⊎ (Kept c m e n before out ⊎ (Retried c e n before out ⊎ Stranded c m e n before out))

-- `n` attempts, counted from `i + 1` on.
abbrev pub attempts_from : ℕ → ℕ → List ℤ
attempts_from i zero = []
attempts_from i (suc n) = pos (i + 1) ∷ attempts_from (i + 1) n

-- The message at its attempt `n`.
abbrev at_attempt : Message → ℤ → Message
at_attempt m n = record m { delivered = some n }

module _ (c : Consumer) (m : Message) (e : Envelope) (x : Err) (event : event_of c m ≡ ok e)
    (fails : c.handler e ≡ err x) (taken : (d : DeadLetter) → c.accepts d ≡ true) (top : ℕ)
    (attempts : c.policy.max_attempts ≡ pos top) where
  retried :
      (i : ℕ) (letters : List DeadLetter)
      → i + 1 < top
      → handle_message c (at_attempt m (pos (i + 1))) letters
        ≡ (nak_with_delay (backoff c.policy (pos (i + 1))), letters)
  unfolding handle_message event_of
  retried i letters h = rw (event, fails, attempts) (ground arith)

  buried :
      (i : ℕ) (letters : List DeadLetter)
      → i + 1 ≡ top
      → handle_message c (at_attempt m (pos (i + 1))) letters
        ≡ (term, dead e m.msg_subject c.durable x (pos top) ∷ letters)
  unfolding handle_message event_of publish_dead_letter
  buried i letters h =
      rw (event, fails, attempts, h)
        (ground (arith, taken (dead e m.msg_subject c.durable x (pos top))))

  redeliver_step :
      (n : ℤ) (ns : List ℤ) (st : Settlement) (sts : List Settlement) (l l' l'' : List DeadLetter)
      → handle_message c (at_attempt m n) l ≡ (st, l')
      → redeliver c m ns l' ≡ (sts, l'')
      → redeliver c m (n ∷ ns) l ≡ (st ∷ sts, l'')
  unfolding redeliver
  redeliver_step n ns st sts l l' l'' h k = rw h (rw k refl)

  redeliver_none : (l : List DeadLetter) → redeliver c m [] l ≡ ([], l)
  unfolding redeliver
  redeliver_none l = refl

  buried_at_last :
      (n i : ℕ) (letters : List DeadLetter)
      → i + suc n ≡ top
      → redeliver c m (attempts_from i (suc n)) letters ≡ (
        map nak_with_delay (delays_from c.policy i n) ++ (term ∷ []),
        dead e m.msg_subject c.durable x (pos top) ∷ letters,
      )
  unfolding delays_from
  buried_at_last zero i letters h =
      redeliver_step (pos (i + 1)) [] term [] letters _ _ (buried i letters (omega arith))
        (redeliver_none _)
  buried_at_last (suc n) i letters h =
      redeliver_step (pos (i + 1)) (attempts_from (i + 1) (suc n)) _ _ letters letters _
        (retried i letters (omega arith)) (buried_at_last n (i + 1) letters (omega arith))

schedule_at :
    (p : RetryPolicy) (n : ℕ)
    → p.max_attempts ≡ pos (suc n)
    → backoff_schedule p ≡ delays_from p 0 n
unfolding backoff_schedule
schedule_at p n h =
    ap (λ z. delays_from p 0 (rounds z)) h
    ∙ (let e : suc n - 1 ≡ n = omega arith in ap (delays_from p 0) e)

-- A handler that always fails: over the attempts of the policy, the broker is asked to wait exactly
-- the delays of the schedule that the consumer was configured with, and the last attempt leaves one
-- dead letter with the count of all attempts, where the broker takes dead letters.
pub failing_handler_buried :
    (c : Consumer) (m : Message) (e : Envelope) (x : Err) (n : ℕ) (letters : List DeadLetter)
    → event_of c m ≡ ok e
    → c.handler e ≡ err x
    → ((d : DeadLetter) → c.accepts d ≡ true)
    → c.policy.max_attempts ≡ pos (suc n)
    → redeliver c m (attempts_from 0 (suc n)) letters ≡ (
      map nak_with_delay (backoff_schedule c.policy) ++ (term ∷ []),
      dead e m.msg_subject c.durable x (pos (suc n)) ∷ letters,
    )
failing_handler_buried c m e x n letters event fails taken attempts =
    rw (schedule_at c.policy n attempts)
      (buried_at_last c m e x event fails taken (suc n) attempts n 0 letters (omega arith))
