-- ===== src/Jobs/Service/Lookup.antt =====
-- dsx_connect_ng/dsx_connect_ng/jobs/service.py: the lookups that raise 404, and the errors that the service writes.
use dsx_connect.Prelude.{String, Bool, false, Option, none, some, List, ◌||◌, ℕ}
use dsx_connect.Prelude.Value.{Fields, no_fields, field, str, get_field, is_text, or_empty}
use dsx_connect.Jobs.Models.{
  JobState, ItemState, JobRecord, JobItemRecord, BatchJobRecord, OutboxRecord, is_job_state,
}
use dsx_connect.Jobs.World.{M, ◌>>=◌, pure, gets, or_404}
use dsx_connect.Jobs.Repository.JobTable.{get_job}
use dsx_connect.Jobs.Repository.Items.{get_job_item, list_job_items}
use dsx_connect.Jobs.Repository.Summary.{summarize_job_items}
use dsx_connect.Jobs.Repository.Outbox.{get_outbox_record}

-- `{"code": code}`
abbrev pub code_error : String → Option Fields
code_error code = some (field "code" (str code) no_fields)

-- `{"code": code, "message": message}`
abbrev pub message_error : String → String → Option Fields
message_error code message =
    some (field "code" (str code) (field "message" (str message) no_fields))

-- `(error or {}).get("code") == code`
unfoldable pub has_code : String → Option Fields → Bool
has_code code error = is_text (get_field (or_empty error) "code") code

unfoldable pub get_job_or_404 : String → M JobRecord
get_job_or_404 job_id = do row ← get_job job_id; or_404 row "job_not_found"

unfoldable pub get_job_item_or_404 : String → M JobItemRecord
get_job_item_or_404 job_item_id = do row ← get_job_item job_item_id; or_404 row "job_item_not_found"

unfoldable pub get_outbox_or_404 : String → M OutboxRecord
get_outbox_or_404 outbox_id = do row ← get_outbox_record outbox_id; or_404 row "outbox_not_found"

unfoldable pub get_batch_job_or_404 : String → M BatchJobRecord
get_batch_job_or_404 job_id = do
  job ← get_job_or_404 job_id
  item_summary ← gets (summarize_job_items job_id)
  pure (record { job = job; item_summary = item_summary })

-- `JobService.list_job_items`
unfoldable pub list_items_of : String → Option ItemState → ℕ → M (List JobItemRecord)
list_items_of job_id state limit = do
  job ← get_job_or_404 job_id
  gets (list_job_items job_id state limit)

-- The test by which a job counts as cancelled.
abbrev pub marked_cancelled : JobRecord → Bool
marked_cancelled job =
    is_job_state job.state JobState.cancelled || has_code "job_cancelled" job.error

abbrev marked : Option JobRecord → Bool
marked none = false
marked (some job) = marked_cancelled job

unfoldable pub is_job_cancelled : String → M Bool
is_job_cancelled job_id = do job ← get_job job_id; pure (marked job)
