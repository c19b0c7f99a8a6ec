-- ===== src/Workers/Consumer.antt =====
-- dsx_connect_ng/dsx_connect_ng/workers/consumer.py: what becomes of one message of a queue.
pub mod Settled
pub mod Attempts
use Prim.Native.String.{◌++◌ as str_append}
use dsx_connect.Prelude.{
  ℕ, zero, suc, String, Bool, true, false, Option, none, some, List, [], ◌∷◌, ◌++◌, ◌+◌, ◌-◌, ◌&&◌,
  leb, if◌then◌else◌, length, is_some,
}
use dsx_connect.Prelude.Decimal.{parse_int}
use dsx_connect.Prelude.Value.{
  Value, Fields, get_field, put_field, no_fields, has_fields, or_empty, null, bool, num, str, arr,
  obj,
}
use dsx_connect.Jobs.Models.{MessageEnvelope}

-- An exception: `TerminalWorkerError`, or any other.
pub data WorkerError : Type 0 where
  terminal_error : String → WorkerError
  other_error : String → WorkerError

pub record Message : Type 0 where
  pub body : String
  pub headers : Option Fields

pub data Exchange : Type 0 where
  retry_exchange dead_letter_exchange : Exchange

-- What the consumer does for a message: the calls of its two handlers and of the broker.
pub data Action : Type 0 where
  handler_called : MessageEnvelope → Action
  terminal_handler_called : MessageEnvelope → WorkerError → Fields → Action
  published : Exchange → Message → Action
  acked : Action
  requeued : Action

-- Each action with the exception that it raised, if it raised one, in order.
abbrev pub Log : Type 0
Log = List (Action × Option WorkerError)

-- The handlers and the broker: the exception that an action raises, by the number of the actions before;
-- and the decoding of a body, with the text of its error.
pub record Env : Type 0 where
  pub decode : String → Option MessageEnvelope
  pub answer : Action → ℕ → Option WorkerError
  pub decode_error : String → String

-- The arguments of `consume_queue` that the handling of a message reads: which exchanges and which
-- handler there are, and how often to retry.
pub record Config : Type 0 where
  pub has_retry_exchange : Bool
  pub has_dead_letter_exchange : Bool
  pub has_terminal_failure_handler : Bool
  pub retry_max_attempts : ℕ

pub data Result {ℓ} (A : Type ℓ) : Type ℓ where
  ok : A → Result A
  raised : WorkerError → Result A

abbrev pub M : Type 0 → Type 0
M A = Log → Result A × Log

abbrev pub continue : {A B : Type 0} → Result A → (A → M B) → M B
continue (ok a) f w = f a w
continue (raised x) f w = (raised x, w)

infixl 5 ◌>>=◌ ◌>>◌
abbrev pub ◌>>=◌ : {A B : Type 0} → M A → (A → M B) → M B
◌>>=◌ m f w = let (r, w') = m w in continue r f w'

abbrev pub ◌>>◌ : {A B : Type 0} → M A → M B → M B
m >> n = m >>= λ _. n

abbrev pub pure : {A : Type 0} → A → M A
pure a w = (ok a, w)

abbrev pub answered : Option WorkerError → M (Unit {0})
answered none w = (ok tt, w)
answered (some x) w = (raised x, w)

abbrev pub act : Env → Action → M (Unit {0})
act env a w =
    let x : Option WorkerError = env.answer a (length w) in answered x (w ++ ((a, x) ∷ []))

-- `int(value)`, for natural numbers; `none` is a TypeError or a ValueError.
abbrev pub to_int : Value → Option ℕ
unfolding parse_int
to_int (num n) = some n
to_int (bool true) = some 1
to_int (bool false) = some 0
to_int (str s) = parse_int s
to_int _ = none

abbrev pub attempt_of : Option ℕ → ℕ
attempt_of none = 0
attempt_of (some n) = n

-- `next_retry_attempt`
unfoldable pub next_retry_attempt : Option Fields → ℕ
unfolding to_int get_field
next_retry_attempt headers =
    if has_fields (or_empty headers)
    then attempt_of (to_int (get_field (or_empty headers) "x-dsx-retry-attempt")) + 1
    else 1

-- `should_retry`
abbrev pub should_retry : Option Fields → ℕ → Bool
unfolding next_retry_attempt
should_retry headers max_attempts = leb (next_retry_attempt headers) max_attempts

-- The message with `headers[key] = value`, as it is published again.
abbrev pub with_header : Message → String → Value → Message
unfolding put_field
with_header m key value = record m { headers = some (put_field (or_empty m.headers) key value) }

-- The calls of the terminal failure handler, whose own exceptions are only logged.
abbrev pub swallowed : Result (Unit {0}) × Log → Result (Unit {0}) × Log
swallowed (r, w) = (ok tt, w)

abbrev pub notify_terminal :
    Env → Config → Option MessageEnvelope → WorkerError → Fields → M (Unit {0})
notify_terminal env cfg none x headers w = (ok tt, w)
notify_terminal env cfg (some e) x headers w =
    if cfg.has_terminal_failure_handler
    then swallowed (act env (terminal_handler_called e x headers) w)
    else (ok tt, w)

-- `headers["x-dsx-terminal"] = True`
abbrev pub marked : Message → Message
unfolding put_field
marked m = with_header m "x-dsx-terminal" (bool true)

-- The branch `except TerminalWorkerError`.
unfoldable pub fail_terminally :
    Env → Config → Message → Option MessageEnvelope → WorkerError → M (Unit {0})
unfolding marked
fail_terminally env cfg m e x = do
  notify_terminal env cfg e x (or_empty m.headers)
  if cfg.has_dead_letter_exchange
      then act env (published dead_letter_exchange (marked m))
      else pure tt
  act env acked

-- `headers["x-dsx-retry-attempt"] = next_retry_attempt(message.headers) - 1`; the next attempt is at
-- least one.
abbrev pub exhausted : Message → Message
unfolding next_retry_attempt put_field
exhausted m = with_header m "x-dsx-retry-attempt" (num (next_retry_attempt m.headers - 1))

-- `headers["x-dsx-retry-attempt"] = next_retry_attempt(message.headers)`
abbrev pub retried : Message → Message
unfolding next_retry_attempt put_field
retried m = with_header m "x-dsx-retry-attempt" (num (next_retry_attempt m.headers))

abbrev pub give_up : Env → Config → Message → Option MessageEnvelope → WorkerError → M (Unit {0})
unfolding exhausted
give_up env cfg m e x =
    notify_terminal env cfg e x (or_empty (exhausted m).headers)
    >> (if cfg.has_dead_letter_exchange
        then act env (published dead_letter_exchange (exhausted m)) >> act env acked
        else act env requeued)

-- The branch `except Exception`.
unfoldable pub fail_and_retry :
    Env → Config → Message → Option MessageEnvelope → WorkerError → M (Unit {0})
unfolding retried should_retry give_up
fail_and_retry env cfg m e x =
    if cfg.has_retry_exchange && should_retry m.headers cfg.retry_max_attempts
    then act env (published retry_exchange (retried m)) >> act env acked
    else give_up env cfg m e x

-- The choice of the branch.
unfoldable pub recover :
    Env → Config → Message → Option MessageEnvelope → WorkerError → M (Unit {0})
recover env cfg m e (terminal_error c) = fail_terminally env cfg m e (terminal_error c)
recover env cfg m e (other_error c) = fail_and_retry env cfg m e (other_error c)

abbrev pub caught :
    Env → Config → Message → Option MessageEnvelope → Result (Unit {0}) → M (Unit {0})
caught env cfg m e (ok u) w = (ok u, w)
caught env cfg m e (raised x) w = recover env cfg m e x w

-- The body of the `try`, from the envelope that was decoded, and its `except` branches.
abbrev pub handle_decoded : Env → Config → Message → Option MessageEnvelope → M (Unit {0})
handle_decoded env cfg m none w =
    caught env cfg m none (raised (other_error (env.decode_error m.body))) w
handle_decoded env cfg m (some e) w =
    let (r, v) = (act env (handler_called e) >> act env acked) w in caught env cfg m (some e) r v

-- `handle_message`
unfoldable pub handle_message : Env → Config → Message → M (Unit {0})
handle_message env cfg m = handle_decoded env cfg m (env.decode m.body)
