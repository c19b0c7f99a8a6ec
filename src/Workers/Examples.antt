-- ===== src/Workers/Examples.antt =====
-- A queue whose handler always fails.
mod Policy
mod Remediation
mod Stages
mod Delivery
use dsx_connect.Prelude.{◌≡◌, refl, true, false, none, some, [], length, arith}
use dsx_connect.Workers.Consumer.{
  Message, Env, Config, other_error, handle_message, ok, next_retry_attempt,
}
use dsx_connect.Workers.Consumer.Settled.{
  IsSteady, settlement, broker_actions, handle_message-settlement,
}
use dsx_connect.Workers.Consumer.Attempts.{
  IsRetried, deliveries, deliveries-IsRetried, length-deliveries,
}

-- No body can be decoded.
abbrev env : Env
env = record { decode = λ b. none; answer = λ a n. none; decode_error = λ b. "bad json" }

abbrev cfg : Config
cfg = record {
  has_retry_exchange = true;
  has_dead_letter_exchange = true;
  has_terminal_failure_handler = true;
  retry_max_attempts = 2;
}

-- Without an exchange for dead letters.
abbrev bare : Config
bare = record cfg { has_dead_letter_exchange = false; retry_max_attempts = 0 }

abbrev message : Message
message = record { body = "{"; headers = none }

env-IsSteady : IsSteady env
env-IsSteady = record { publishes = λ x m n. refl; acks = λ n. refl; requeues = λ n. refl }

handle_message-settlement_example :
    ((handle_message env cfg message []).0 ≡ ok tt)
    × (broker_actions (handle_message env cfg message []).1
        ≡ settlement cfg message (some (other_error "bad json")))
handle_message-settlement_example = handle_message-settlement env cfg message env-IsSteady

deliveries-IsRetried_example : IsRetried message 2 (deliveries 10 env cfg (some message))
unfolding next_retry_attempt
deliveries-IsRetried_example =
    deliveries-IsRetried env cfg message "bad json" 10 env-IsSteady refl refl refl refl
      (omega arith)

length-deliveries_example : length (deliveries 100 env bare (some message)) ≡ 100
unfolding next_retry_attempt
length-deliveries_example =
    length-deliveries env bare message "bad json" 100 env-IsSteady refl (omega arith) refl
