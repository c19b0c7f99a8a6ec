-- ===== src/Jobs/Repository/Outbox.antt =====
-- dsx_connect_ng/dsx_connect_ng/jobs/repository.py: the outbox.
pub mod Claims
use Prim.Native.Nat.{◌+◌}
use Prim.Native.String.{◌++◌}
use dsx_connect.Prelude.{
  ℕ, String, Bool, true, Option, none, some, List, [], ◌∷◌, if◌then◌else◌, take, filter, not,
}
use mathlib.Core.List
use dsx_connect.Prelude.Dict.{Dict, get, put, values}
use dsx_connect.Prelude.Sort.{sort_by, ascending}
use dsx_connect.Prelude.Value.{Fields}
use dsx_connect.Jobs.Models.{PublishState, OutboxRecord, Envelope, JobRecord, is_publish_state}
use dsx_connect.Jobs.World.{World, Env, M, ◌>>=◌, ◌>>◌, pure, gets, modify, utcnow, uuid4}

unfoldable pub create_outbox_record : Env → JobRecord → String → Envelope → M OutboxRecord
unfolding put
create_outbox_record env job topic payload = do
  h ← uuid4 env
  created_at ← utcnow env
  updated_at ← utcnow env
  let row : OutboxRecord = record {
    outbox_id = "outbox_" ++ h;
    job_id = job.job_id;
    topic = topic;
    payload = payload;
    publish_state = PublishState.pending;
    publish_attempts = 0;
    last_error = none;
    created_at = created_at;
    updated_at = updated_at;
    published_at = none;
  }
  modify (λ w. record w { outbox = put w.outbox row.outbox_id row })
  pure row

abbrev pub has_publish_state : Option PublishState → OutboxRecord → Bool
has_publish_state none row = true
has_publish_state (some s) row = is_publish_state row.publish_state s

unfoldable pub list_outbox_records : Option PublishState → ℕ → World → List OutboxRecord
unfolding values sort_by
list_outbox_records publish_state limit w = take limit (
    sort_by (ascending (λ row. row.created_at))
      (filter (has_publish_state publish_state) (values w.outbox)))

-- `by_job.setdefault(row.job_id, []).append(row)`
abbrev pub append_row : Dict (List OutboxRecord) → OutboxRecord → Dict (List OutboxRecord)
unfolding get put
append_row by_job row = elim (get by_job row.job_id) [
  | none ↦ put by_job row.job_id (row ∷ [])
  | some rows ↦ put by_job row.job_id (List.◌++◌ rows (row ∷ []))
]

unfoldable pub group_by_job :
    List OutboxRecord → Dict (List OutboxRecord) → Dict (List OutboxRecord)
unfolding get put
group_by_job [] by_job = by_job
group_by_job (row ∷ rows) by_job = group_by_job rows (append_row by_job row)

unfoldable pub get_outbox_record : String → M (Option OutboxRecord)
unfolding get
get_outbox_record outbox_id = gets (λ w. get w.outbox outbox_id)

abbrev put_outbox : String → OutboxRecord → M (Unit {0})
unfolding put
put_outbox outbox_id row = modify (λ w. record w { outbox = put w.outbox outbox_id row })

-- Only a pending row is claimed.
unfoldable pub claim_outbox_record : Env → String → M (Option OutboxRecord)
unfolding get put
claim_outbox_record env outbox_id = do
  found ← gets (λ w. get w.outbox outbox_id)
  elim found [
    | none ↦ pure none
    | some current ↦
        if not (is_publish_state current.publish_state PublishState.pending) then pure none else do
          now ← utcnow env
          let merged : OutboxRecord = record current {
            publish_state = PublishState.publishing;
            updated_at = now;
          }
          put_outbox outbox_id merged
          pure (some merged)
  ]

-- `JobRepository.claim_outbox_records`
unfoldable pub claim_outbox_records : Env → List String → M (List OutboxRecord)
claim_outbox_records env [] = pure []
claim_outbox_records env (outbox_id ∷ rest) = do
  row ← claim_outbox_record env outbox_id
  claimed ← claim_outbox_records env rest
  pure (elim row [ none ↦ claimed | some r ↦ r ∷ claimed ])

unfoldable pub mark_outbox_published : Env → String → M (Option OutboxRecord)
unfolding get put
mark_outbox_published env outbox_id = do
  found ← gets (λ w. get w.outbox outbox_id)
  elim found [
    | none ↦ pure none
    | some current ↦ do
      now ← utcnow env
      published_at ← utcnow env
      let merged : OutboxRecord = record current {
        publish_state = PublishState.published;
        publish_attempts = current.publish_attempts + 1;
        updated_at = now;
        published_at = some published_at;
        last_error = none;
      }
      put_outbox outbox_id merged
      pure (some merged)
  ]

-- `JobRepository.mark_outbox_published_many`
unfoldable pub mark_outbox_published_many : Env → List String → M (List OutboxRecord)
mark_outbox_published_many env [] = pure []
mark_outbox_published_many env (outbox_id ∷ rest) = do
  row ← mark_outbox_published env outbox_id
  published ← mark_outbox_published_many env rest
  pure (elim row [ none ↦ published | some r ↦ r ∷ published ])

unfoldable pub mark_outbox_failed : Env → String → Option Fields → M (Option OutboxRecord)
unfolding get put
mark_outbox_failed env outbox_id error = do
  found ← gets (λ w. get w.outbox outbox_id)
  elim found [
    | none ↦ pure none
    | some current ↦ do
      now ← utcnow env
      let merged : OutboxRecord = record current {
        publish_state = PublishState.pending;
        publish_attempts = current.publish_attempts + 1;
        updated_at = now;
        last_error = error;
      }
      put_outbox outbox_id merged
      pure (some merged)
  ]
