-- ===== src/Jobs/Repository/Summary.antt =====
-- dsx_connect_ng/dsx_connect_ng/jobs/repository.py: the counts over the items of a job.
pub mod Totals
use Prim.Native.Nat.{suc}
use dsx_connect.Prelude.{
  ℕ, String, Bool, true, Option, none, some, List, [], ◌∷◌, if◌then◌else◌, ltb, length, count, ◌&&◌,
}
use dsx_connect.Jobs.Models.{ItemState, JobItemRecord, JobItemSummary, is_completed, is_pending}
use dsx_connect.Jobs.World.{World}
use dsx_connect.Jobs.Repository.Items.{list_job_items}

abbrev pub no_items_summary : JobItemSummary
no_items_summary = record {
  total = 0;
  accepted = 0;
  publish_pending = 0;
  queued = 0;
  scanning = 0;
  scanned = 0;
  remediating = 0;
  deliver_pending = 0;
  delivering_result = 0;
  completed = 0;
  failed = 0;
  cancelled = 0;
}

-- One turn of the loop of `summarize_job_items`, on the state of the row.
unfoldable pub add_state : ItemState → JobItemSummary → JobItemSummary
add_state ItemState.accepted s = record s { total = suc s.total; accepted = suc s.accepted }
add_state ItemState.publish_pending s = record s {
  total = suc s.total;
  publish_pending = suc s.publish_pending;
}
add_state ItemState.queued s = record s { total = suc s.total; queued = suc s.queued }
add_state ItemState.scanning s = record s { total = suc s.total; scanning = suc s.scanning }
add_state ItemState.scanned s = record s { total = suc s.total; scanned = suc s.scanned }
add_state ItemState.remediating s = record s {
  total = suc s.total;
  remediating = suc s.remediating;
}
add_state ItemState.deliver_pending s = record s {
  total = suc s.total;
  deliver_pending = suc s.deliver_pending;
}
add_state ItemState.delivering_result s = record s {
  total = suc s.total;
  delivering_result = suc s.delivering_result;
}
add_state ItemState.completed s = record s { total = suc s.total; completed = suc s.completed }
add_state ItemState.failed s = record s { total = suc s.total; failed = suc s.failed }
add_state ItemState.cancelled s = record s { total = suc s.total; cancelled = suc s.cancelled }

unfoldable pub add_rows : List JobItemRecord → JobItemSummary → JobItemSummary
unfolding add_state
add_rows [] s = s
add_rows (row ∷ rows) s = add_rows rows (add_state row.state s)

-- The default of `list_job_items`.
abbrev pub default_item_limit : ℕ
default_item_limit = 1000

unfoldable pub summarize_job_items : String → World → JobItemSummary
unfolding add_rows list_job_items
summarize_job_items job_id w =
    add_rows (list_job_items job_id none default_item_limit w) no_items_summary

-- `row.completed_at is None or row.completed_at < since`
abbrev too_old : ℕ → Option ℕ → Bool
too_old since none = true
too_old since (some t) = ltb t since

abbrev add_terminal : ItemState → JobItemSummary → JobItemSummary
add_terminal ItemState.completed s = record s { total = suc s.total; completed = suc s.completed }
add_terminal ItemState.failed s = record s { total = suc s.total; failed = suc s.failed }
add_terminal ItemState.cancelled s = record s { total = suc s.total; cancelled = suc s.cancelled }
add_terminal _ s = s

unfoldable pub add_recent : ℕ → List JobItemRecord → JobItemSummary → JobItemSummary
add_recent since [] s = s
add_recent since (row ∷ rows) s =
    add_recent since rows (if too_old since row.completed_at then s else add_terminal row.state s)

unfoldable pub summarize_recent_terminal_job_items : String → ℕ → World → JobItemSummary
unfolding add_recent list_job_items
summarize_recent_terminal_job_items job_id since w =
    add_recent since (list_job_items job_id none (length w.job_items) w) no_items_summary

abbrev policy_pending : JobItemRecord → Bool
policy_pending row = is_completed row.scan_stage.state && is_pending row.policy_stage.state

unfoldable pub count_policy_pending_items : String → World → ℕ
unfolding list_job_items
count_policy_pending_items job_id w =
    count policy_pending (list_job_items job_id none (length w.job_items) w)
