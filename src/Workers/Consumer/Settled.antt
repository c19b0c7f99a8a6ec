-- ===== src/Workers/Consumer/Settled.antt =====
-- What a message has come to when the consumer is done with it.
use dsx_connect.Prelude.{
  ℕ, String, ◌≡◌, refl, sym, ap, ◌∙◌, Bool, true, false, Option, none, some, List, [], ◌∷◌, ◌++◌,
  ◌&&◌, arith, leb, if◌then◌else◌, length, append-nil, append_assoc,
}
use dsx_connect.Prelude.Value.{Fields, or_empty}
use dsx_connect.Jobs.Models.{MessageEnvelope}
use dsx_connect.Workers.Consumer.{
  give_up, Exchange, WorkerError, terminal_error, other_error, Message, retry_exchange,
  dead_letter_exchange, Action, handler_called, published, acked, requeued, Log, Env, Config,
  Result, ok, raised, act, M, ◌>>◌, pure, continue, next_retry_attempt, should_retry, marked,
  exhausted, retried, notify_terminal, fail_terminally, fail_and_retry, recover, handle_decoded,
  handle_message,
}

-- The broker does what it is asked.
pub record IsSteady (env : Env) : Type 0 where
  pub publishes : (x : Exchange) (m : Message) (n : ℕ) → env.answer (published x m) n ≡ none
  pub acks : (n : ℕ) → env.answer acked n ≡ none
  pub requeues : (n : ℕ) → env.answer requeued n ≡ none

-- How the consumer settles a message whose handler answered.
unfoldable pub settlement : Config → Message → Option WorkerError → List Action
unfolding next_retry_attempt
settlement cfg m none = acked ∷ []
settlement cfg m (some (terminal_error c)) =
    (if cfg.has_dead_letter_exchange then published dead_letter_exchange (marked m) ∷ [] else [])
    ++ (acked ∷ [])
settlement cfg m (some (other_error c)) =
    if cfg.has_retry_exchange && leb (next_retry_attempt m.headers) cfg.retry_max_attempts
    then published retry_exchange (retried m) ∷ acked ∷ []
    else if cfg.has_dead_letter_exchange
    then published dead_letter_exchange (exhausted m) ∷ acked ∷ []
    else requeued ∷ []

abbrev is_broker_action : Action → Bool
is_broker_action (published x m) = true
is_broker_action acked = true
is_broker_action requeued = true
is_broker_action _ = false

-- What the broker was asked to do.
abbrev pub broker_actions : Log → List Action
broker_actions [] = []
broker_actions ((a, x) ∷ log) =
    let rest : List Action = broker_actions log in if is_broker_action a then a ∷ rest else rest

-- The answer of the handler to what was decoded, or the error of the decoding.
abbrev pub handled : Env → Option MessageEnvelope → String → Option WorkerError
handled env none body = some (other_error (env.decode_error body))
handled env (some e) body = env.answer (handler_called e) 0

broker-append : (u v : Log) → broker_actions (u ++ v) ≡ broker_actions u ++ broker_actions v
broker-append [] v = refl
broker-append ((a, x) ∷ u) v = ground (arith, broker-append u v)

-- `m` returns, and asks the broker for `xs` on the way.
record Asks (xs : List Action) (m : M (Unit {0})) : Type 0 where
  at : (w : Log) → ((m w).0 ≡ ok tt) × (broker_actions (m w).1 ≡ broker_actions w ++ xs)

Asks-then :
    (xs ys : List Action) (m n : M (Unit {0})) → Asks xs m → Asks ys n → Asks (xs ++ ys) (m >> n)
Asks-then xs ys m n h k = record { at = λ w. by w (m w).0 (m w).1 (h.at w) }
  where
    by :
        (w : Log) (r : Result (Unit {0})) (v : Log)
        → (r ≡ ok tt) × (broker_actions v ≡ broker_actions w ++ xs)
        → ((continue r (λ u. n) v).0 ≡ ok tt)
          × (broker_actions (continue r (λ u. n) v).1 ≡ broker_actions w ++ (xs ++ ys))
    by w (ok u) v (e, q) =
        ((k.at v).0, (k.at v).1 ∙ ap (◌++ ys) q ∙ append_assoc (broker_actions w) xs ys)
    by w (raised x) v (e, q) = (ground (arith, e), ground (arith, e))

Asks-act :
    (env : Env) (a : Action)
    → is_broker_action a ≡ true
    → ((n : ℕ) → env.answer a n ≡ none)
    → Asks (a ∷ []) (act env a)
Asks-act env a b h = record {
  at = λ w. (ground (arith, h (length w)), grind (arith, b, broker-append));
}

Asks-nothing : Asks [] (pure tt)
Asks-nothing = record { at = λ w. (refl, sym (append-nil (broker_actions w))) }

notify-Asks :
    (env : Env) (cfg : Config) (e : Option MessageEnvelope) (x : WorkerError) (hs : Fields)
    → Asks [] (notify_terminal env cfg e x hs)
notify-Asks env cfg none x hs = Asks-nothing
notify-Asks env cfg (some e) x hs = record {
  at = λ w. (ground arith, grind (arith, broker-append, append-nil));
}

Asks-if :
    (b : Bool) (xs ys : List Action) (m n : M (Unit {0}))
    → Asks xs m
    → Asks ys n
    → Asks (if b then xs else ys) (if b then m else n)
Asks-if true xs ys m n h k = h
Asks-if false xs ys m n h k = k

module _ (env : Env) (steady : IsSteady env) (cfg : Config) (m : Message) where
  -- A message published, and the old one acknowledged.
  Asks-publish :
      (x : Exchange) (v : Message)
      → Asks (published x v ∷ acked ∷ []) (act env (published x v) >> act env acked)
  Asks-publish x v =
      Asks-then (published x v ∷ []) (acked ∷ []) (act env (published x v)) (act env acked)
        (Asks-act env (published x v) refl (steady.publishes x v))
        (Asks-act env acked refl steady.acks)

  fail_terminally-Asks :
      (e : Option MessageEnvelope) (c : String)
      → Asks
          (settlement cfg m (some (terminal_error c)))
          (fail_terminally env cfg m e (terminal_error c))
  unfolding fail_terminally settlement
  fail_terminally-Asks e c =
      Asks-then [] (settlement cfg m (some (terminal_error c)))
        (notify_terminal env cfg e (terminal_error c) (or_empty m.headers))
        ((if cfg.has_dead_letter_exchange
            then act env (published dead_letter_exchange (marked m))
            else pure tt)
          >> act env acked)
        (notify-Asks env cfg e (terminal_error c) (or_empty m.headers))
        (Asks-then
          (if cfg.has_dead_letter_exchange
            then published dead_letter_exchange (marked m) ∷ []
            else [])
          (acked ∷ [])
          (if cfg.has_dead_letter_exchange
            then act env (published dead_letter_exchange (marked m))
            else pure tt)
          (act env acked)
          (Asks-if cfg.has_dead_letter_exchange (published dead_letter_exchange (marked m) ∷ []) []
            (act env (published dead_letter_exchange (marked m))) (pure tt)
            (Asks-act env (published dead_letter_exchange (marked m)) refl
              (steady.publishes dead_letter_exchange (marked m)))
            Asks-nothing)
          (Asks-act env acked refl steady.acks))

  fail_and_retry-Asks :
      (e : Option MessageEnvelope) (c : String)
      → Asks (settlement cfg m (some (other_error c))) (fail_and_retry env cfg m e (other_error c))
  unfolding fail_and_retry settlement
  fail_and_retry-Asks e c =
      Asks-if (cfg.has_retry_exchange && should_retry m.headers cfg.retry_max_attempts)
        (published retry_exchange (retried m) ∷ acked ∷ [])
        (if cfg.has_dead_letter_exchange
          then published dead_letter_exchange (exhausted m) ∷ acked ∷ []
          else requeued ∷ [])
        (act env (published retry_exchange (retried m)) >> act env acked)
        (give_up env cfg m e (other_error c)) (Asks-publish retry_exchange (retried m))
        (Asks-then []
          (if cfg.has_dead_letter_exchange
            then published dead_letter_exchange (exhausted m) ∷ acked ∷ []
            else requeued ∷ [])
          (notify_terminal env cfg e (other_error c) (or_empty (exhausted m).headers))
          (if cfg.has_dead_letter_exchange
            then act env (published dead_letter_exchange (exhausted m)) >> act env acked
            else act env requeued)
          (notify-Asks env cfg e (other_error c) (or_empty (exhausted m).headers))
          (Asks-if cfg.has_dead_letter_exchange
            (published dead_letter_exchange (exhausted m) ∷ acked ∷ []) (requeued ∷ [])
            (act env (published dead_letter_exchange (exhausted m)) >> act env acked)
            (act env requeued) (Asks-publish dead_letter_exchange (exhausted m))
            (Asks-act env requeued refl steady.requeues)))

  recover-Asks :
      (e : Option MessageEnvelope) (x : WorkerError)
      → Asks (settlement cfg m (some x)) (recover env cfg m e x)
  unfolding recover
  recover-Asks e (terminal_error c) = fail_terminally-Asks e c
  recover-Asks e (other_error c) = fail_and_retry-Asks e c

  -- The end of the handling, once the handler has answered.
  handle-done :
      (e : MessageEnvelope)
      → env.answer (handler_called e) 0 ≡ none
      → handle_decoded env cfg m (some e) []
        ≡ (ok tt, (handler_called e, none) ∷ (acked, none) ∷ [])
  handle-done e h = grind (arith, h, steady.acks 1)

  handle-failed :
      (e : MessageEnvelope) (x : WorkerError)
      → env.answer (handler_called e) 0 ≡ some x
      → handle_decoded env cfg m (some e) []
        ≡ recover env cfg m (some e) x ((handler_called e, some x) ∷ [])
  handle-failed e x h = grind (arith, h)

  abbrev Settles : Option WorkerError → Result (Unit {0}) × Log → Type 0
  Settles x p = (p.0 ≡ ok tt) × (broker_actions p.1 ≡ settlement cfg m x)

  answered-Settles :
      (e : MessageEnvelope) (x : Option WorkerError)
      → env.answer (handler_called e) 0 ≡ x
      → Settles x (handle_decoded env cfg m (some e) [])
  unfolding settlement
  answered-Settles e none h =
      (ap (λ p. p.0) (handle-done e h), ap (λ p. broker_actions p.1) (handle-done e h))
  answered-Settles e (some x) h =
      let r = (recover-Asks (some e) x).at ((handler_called e, some x) ∷ []) in
      (
        ap (λ p. p.0) (handle-failed e x h) ∙ r.0,
        ap (λ p. broker_actions p.1) (handle-failed e x h) ∙ r.1,
      )

  decoded-Settles :
      (e : Option MessageEnvelope) → Settles (handled env e m.body) (handle_decoded env cfg m e [])
  decoded-Settles none = (recover-Asks none (other_error (env.decode_error m.body))).at []
  decoded-Settles (some e) = answered-Settles e (env.answer (handler_called e) 0) refl

-- When the broker does what it is asked, the handling of a message always ends, and asks the broker for
-- exactly what the answer of the handler calls for: an acknowledgement after a success; a dead letter,
-- where there is an exchange for them, and an acknowledgement after a terminal error; after any other
-- error, and for a body that cannot be decoded, a new attempt while there are some left, else a dead
-- letter, or the message put back where there is no exchange for dead letters.
pub handle_message-settlement :
    (env : Env) (cfg : Config) (m : Message)
    → IsSteady env
    → ((handle_message env cfg m []).0 ≡ ok tt)
      × (broker_actions (handle_message env cfg m []).1
          ≡ settlement cfg m (handled env (env.decode m.body) m.body))
unfolding handle_message
handle_message-settlement env cfg m steady = decoded-Settles env steady cfg m (env.decode m.body)
