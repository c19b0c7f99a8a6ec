-- ===== src/Jobs/Repository/JobTable.antt =====
-- dsx_connect_ng/dsx_connect_ng/jobs/repository.py: the methods on jobs.
use text.Mathlib.Text.{◌==◌}
use Prim.Native.String.{◌++◌}
use dsx_connect.Prelude.{
  ℕ, String, Bool, true, false, Option, none, some, List, [], ◌∷◌, if◌then◌else◌, take, filter,
}
use dsx_connect.Prelude.Dict.{get, put, values}
use dsx_connect.Prelude.Sort.{sort_by, descending}
use dsx_connect.Prelude.Value.{Fields}
use dsx_connect.Jobs.Models.{JobState, JobRecord, JobCreate, is_job_state}
use dsx_connect.Jobs.World.{Env, M, ◌>>=◌, ◌>>◌, pure, gets, modify, utcnow, uuid4}

-- `a == b` for texts that may be `None`
abbrev pub same_text : Option String → Option String → Bool
same_text none none = true
same_text (some a) (some b) = a == b
same_text _ _ = false

abbrev has_integration : Option String → JobRecord → Bool
has_integration none row = true
has_integration (some i) row = same_text row.integration_id (some i)

abbrev has_state : Option JobState → JobRecord → Bool
has_state none row = true
has_state (some s) row = is_job_state row.state s

unfoldable pub list_jobs : Option String → Option JobState → ℕ → M (List JobRecord)
unfolding values sort_by
list_jobs integration_id state limit = gets λ w. take limit (
    sort_by (descending (λ row. row.created_at))
      (filter (has_state state) (filter (has_integration integration_id) (values w.jobs))))

unfoldable pub get_job : String → M (Option JobRecord)
unfolding get
get_job job_id = gets (λ w. get w.jobs job_id)

-- The loop of `get_job_by_idempotency_key`.
unfoldable pub find_key : String → List JobRecord → Option JobRecord
find_key key [] = none
find_key key (row ∷ rows) =
    if same_text row.idempotency_key (some key) then some row else find_key key rows

unfoldable pub get_job_by_idempotency_key : String → M (Option JobRecord)
unfolding find_key values
get_job_by_idempotency_key key = gets (λ w. find_key key (values w.jobs))

-- `payload.job_id or …`: the empty text counts as missing.
abbrev pub given_id : Option String → Option String
given_id none = none
given_id (some s) = if s == "" then none else some s

abbrev pub or_uuid : Env → String → Option String → M String
or_uuid env prefix none = do h ← uuid4 env; pure (prefix ++ h)
or_uuid env prefix (some s) = pure s

-- `created_at` and `updated_at` default to two readings of the clock.
unfoldable pub create_job : Env → JobCreate → M JobRecord
unfolding put
create_job env p = do
  job_id ← or_uuid env "job_" (given_id p.job_id)
  created_at ← utcnow env
  updated_at ← utcnow env
  let row : JobRecord = record {
    job_id = job_id;
    job_type = p.job_type;
    state = p.state;
    integration_id = p.integration_id;
    scope_id = p.scope_id;
    object_identity = p.object_identity;
    idempotency_key = p.idempotency_key;
    payload = p.payload;
    error = p.error;
    created_at = created_at;
    updated_at = updated_at;
    completed_at = none;
  }
  modify (λ w. record w { jobs = put w.jobs job_id row })
  pure row

unfoldable pub update_job_state :
    Env → String → JobState → Option Fields → Option ℕ → M (Option JobRecord)
unfolding get put
update_job_state env job_id state error completed_at = do
  found ← gets (λ w. get w.jobs job_id)
  elim found [
    | none ↦ pure none
    | some current ↦ do
      now ← utcnow env
      let merged : JobRecord = record current {
        state = state;
        error = error;
        updated_at = now;
        completed_at = completed_at;
      }
      modify (λ w. record w { jobs = put w.jobs job_id merged })
      pure (some merged)
  ]
