-- ===== src/Workers/Consumer/Attempts.antt =====
-- The deliveries of one message, as the broker redelivers what was put into the retry queue or back.
use dsx_connect.Prelude.{
  ℕ, zero, suc, String, ◌≡◌, refl, sym, ap, ◌∙◌, true, false, Option, none, some, List, [], ◌∷◌,
  ◌+◌, ◌≤◌, ◌<◌, arith, length, subst, eq_refl,
}
use dsx_connect.Prelude.Value.{
  Value, Fields, get_field, put_field, has_fields, or_empty, num, field, no_fields,
}
use dsx_connect.Workers.Consumer.{
  other_error, Message, retry_exchange, dead_letter_exchange, Action, published, acked, requeued,
  Env, Config, next_retry_attempt, exhausted, retried, handle_message,
}
use dsx_connect.Workers.Consumer.Settled.{
  IsSteady, settlement, broker_actions, handled, handle_message-settlement,
}

-- The message that the broker delivers after what it was asked: the one that was published for a retry,
-- once its time in the retry queue is over, or the same one that was put back.
abbrev pub redelivered : Message → List Action → Option Message
redelivered m (published retry_exchange v ∷ acked ∷ []) = some v
redelivered m (requeued ∷ []) = some m
redelivered m _ = none

-- What the broker is asked at each delivery, for at most so many deliveries.
unfoldable pub deliveries : ℕ → Env → Config → Option Message → List (List Action)
deliveries zero env cfg m = []
deliveries (suc n) env cfg none = []
deliveries (suc n) env cfg (some m) =
    let done : List Action = broker_actions (handle_message env cfg m []).1 in
    done ∷ deliveries n env cfg (redelivered m done)

-- So many attempts after this one, and then a dead letter.
pub data IsRetried : Message → ℕ → List (List Action) → Type 0 where
  given_up :
      (m : Message)
      → IsRetried m 0 ((published dead_letter_exchange (exhausted m) ∷ acked ∷ []) ∷ [])
  tried_again :
      (m : Message) (r : ℕ) (rest : List (List Action))
      → IsRetried (retried m) r rest
      → IsRetried m (suc r) ((published retry_exchange (retried m) ∷ acked ∷ []) ∷ rest)

get-put_field : (d : Fields) (k : String) (v : Value) → get_field (put_field d k v) k ≡ v
unfolding get_field put_field
get-put_field no_fields k v = grind (arith, eq_refl k)
get-put_field (field j w d) k v = grind (arith, eq_refl k, get-put_field d k v)

has_fields-put : (d : Fields) (k : String) (v : Value) → has_fields (put_field d k v) ≡ true
unfolding put_field
has_fields-put no_fields k v = refl
has_fields-put (field j w d) k v = ground arith

next-num :
    (d : Fields) (n : ℕ)
    → next_retry_attempt (some (put_field d "x-dsx-retry-attempt" (num n))) ≡ suc n
unfolding next_retry_attempt
next-num d n = grind (
  arith,
  get-put_field d "x-dsx-retry-attempt" (num n),
  has_fields-put d "x-dsx-retry-attempt" (num n),
)

next-retried :
    (m : Message) → next_retry_attempt (retried m).headers ≡ suc (next_retry_attempt m.headers)
unfolding retried
next-retried m = next-num (or_empty m.headers) (next_retry_attempt m.headers)

module _ (env : Env) (cfg : Config) (steady : IsSteady env) where
  settled-retry :
      (m : Message) (c : String)
      → handled env (env.decode m.body) m.body ≡ some (other_error c)
      → cfg.has_retry_exchange ≡ true
      → next_retry_attempt m.headers ≤ cfg.retry_max_attempts
      → broker_actions (handle_message env cfg m []).1
        ≡ published retry_exchange (retried m) ∷ acked ∷ []
  unfolding settlement
  settled-retry m c h r k = grind (arith, (handle_message-settlement env cfg m steady).1, h, r, k)

  settled-dead :
      (m : Message) (c : String)
      → handled env (env.decode m.body) m.body ≡ some (other_error c)
      → cfg.retry_max_attempts < next_retry_attempt m.headers
      → cfg.has_dead_letter_exchange ≡ true
      → broker_actions (handle_message env cfg m []).1
        ≡ published dead_letter_exchange (exhausted m) ∷ acked ∷ []
  unfolding settlement
  settled-dead m c h k d = grind (arith, (handle_message-settlement env cfg m steady).1, h, d, k)

  settled-back :
      (m : Message) (c : String)
      → handled env (env.decode m.body) m.body ≡ some (other_error c)
      → cfg.retry_max_attempts < next_retry_attempt m.headers
      → cfg.has_dead_letter_exchange ≡ false
      → broker_actions (handle_message env cfg m []).1 ≡ requeued ∷ []
  unfolding settlement
  settled-back m c h k d = grind (arith, (handle_message-settlement env cfg m steady).1, h, d, k)

  one_delivery :
      (m : Message) (n : ℕ) (done : List Action)
      → broker_actions (handle_message env cfg m []).1 ≡ done
      → deliveries (suc n) env cfg (some m) ≡ done ∷ deliveries n env cfg (redelivered m done)
  unfolding deliveries
  one_delivery m n done h = ap (λ d. d ∷ deliveries n env cfg (redelivered m d)) h

  none_left : (n : ℕ) → deliveries n env cfg none ≡ []
  unfolding deliveries
  none_left zero = refl
  none_left (suc n) = refl

  deliveries-IsRetried_from :
      (r l : ℕ) (m : Message) (c : String)
      → handled env (env.decode m.body) m.body ≡ some (other_error c)
      → cfg.has_retry_exchange ≡ true
      → cfg.has_dead_letter_exchange ≡ true
      → next_retry_attempt m.headers + r ≡ suc cfg.retry_max_attempts
      → r < l
      → IsRetried m r (deliveries l env cfg (some m))
  unfolding retried
  deliveries-IsRetried_from r zero m c h x d k lt = absurd (ground (arith, lt))
  deliveries-IsRetried_from zero (suc l) m c h x d k lt =
      subst (λ ds. IsRetried m 0 ds)
        (sym (
          one_delivery m l (published dead_letter_exchange (exhausted m) ∷ acked ∷ [])
            (settled-dead m c h (omega (arith, k)) d)
          ∙ ap (λ ds. (published dead_letter_exchange (exhausted m) ∷ acked ∷ []) ∷ ds)
              (none_left l)))
        (given_up m)
  deliveries-IsRetried_from (suc r) (suc l) m c h x d k lt =
      subst (λ ds. IsRetried m (suc r) ds)
        (sym (
          one_delivery m l (published retry_exchange (retried m) ∷ acked ∷ [])
            (settled-retry m c h x (omega (arith, k)))))
        (tried_again m r (deliveries l env cfg (some (retried m))) (
          deliveries-IsRetried_from r l (retried m) c h x d (omega (arith, k, next-retried m))
            (omega (arith, lt))))

  put_back :
      (n : ℕ) (m : Message) (c : String)
      → handled env (env.decode m.body) m.body ≡ some (other_error c)
      → cfg.has_dead_letter_exchange ≡ false
      → cfg.retry_max_attempts < next_retry_attempt m.headers
      → length (deliveries n env cfg (some m)) ≡ n
  unfolding deliveries
  put_back zero m c h d k = refl
  put_back (suc n) m c h d k =
      ap length (one_delivery m n (requeued ∷ []) (settled-back m c h k d))
      ∙ ap suc (put_back n m c h d k)

-- With a retry exchange and one for dead letters, a message without an attempt on record whose handler
-- always fails, with an error that is not terminal, is delivered exactly one time more than there are
-- retries, each attempt counted in its header, and ends as a dead letter.
pub deliveries-IsRetried :
    (env : Env) (cfg : Config) (m : Message) (c : String) (l : ℕ)
    → IsSteady env
    → cfg.has_retry_exchange ≡ true
    → cfg.has_dead_letter_exchange ≡ true
    → next_retry_attempt m.headers ≡ 1
    → handled env (env.decode m.body) m.body ≡ some (other_error c)
    → cfg.retry_max_attempts < l
    → IsRetried m cfg.retry_max_attempts (deliveries l env cfg (some m))
deliveries-IsRetried env cfg m c l steady x d k h lt =
    deliveries-IsRetried_from env cfg steady cfg.retry_max_attempts l m c h x d (omega (arith, k))
      lt

-- Without an exchange for dead letters, a message that has used up its attempts and whose handler always
-- fails is put back and delivered again without end.
pub length-deliveries :
    (env : Env) (cfg : Config) (m : Message) (c : String) (n : ℕ)
    → IsSteady env
    → cfg.has_dead_letter_exchange ≡ false
    → cfg.retry_max_attempts < next_retry_attempt m.headers
    → handled env (env.decode m.body) m.body ≡ some (other_error c)
    → length (deliveries n env cfg (some m)) ≡ n
length-deliveries env cfg m c n steady d k h = put_back env cfg steady n m c h d k
