-- ===== src/Jobs/Examples/Cancel.antt =====
-- The cancellation of the job.
use dsx_connect.Prelude.{◌≡◌, refl, true, none, some, [], ◌∷◌}
use dsx_connect.Prelude.Dict.{get, IsDict}
use dsx_connect.Jobs.Models.{JobState, ItemState, JobItemRecord, PublishState, Envelope, message}
use dsx_connect.Jobs.World.{World}
use dsx_connect.Jobs.Repository.Outbox.Claims.{delivery}
use dsx_connect.Jobs.Repository.Items.Cancelling.{unstamped}
use dsx_connect.Jobs.Service.Parent.Frame.{status}
use dsx_connect.Prelude.Value.{get_field}
use dsx_connect.Jobs.Service.Publish.{is_low_persistence_scan_only, publish_outbox_record}
use dsx_connect.Jobs.Repository.JobTable.{get_job, update_job_state}
use dsx_connect.Jobs.Repository.Items.{cancel_job_items}
use dsx_connect.Jobs.Service.Lookup.{get_job_or_404, get_batch_job_or_404}
use dsx_connect.Jobs.Service.Cancel.{cancel_job}
use dsx_connect.Jobs.Service.Cancel.Effect.{
  operator_error, cancel_job_lem, cancelled_never_published,
}
use dsx_connect.Jobs.Examples.Store.{env, broken, job, item, row, store, scan_request}

keyed : IsDict store.job_items
unfolding get
keyed = (refl, (refl, tt))

abbrev scan_message : Envelope
scan_message = message scan_request

abbrev cancelled_item : JobItemRecord
cancelled_item = record item {
  state = ItemState.cancelled;
  error = operator_error;
  updated_at = 2;
  completed_at = some 0;
}

cancel_job_lem_example :
    (status (get (cancel_job env "j" store).1.jobs "j") ≡ some (JobState.cancelled, operator_error))
    × (unstamped (get (cancel_job env "j" store).1.job_items "i") ≡ unstamped (some cancelled_item))
    × ((cancel_job env "j" store).1.outbox ≡ store.outbox)
    × ((cancel_job env "j" store).1.published ≡ [])
unfolding get
cancel_job_lem_example = cancel_job_lem env "j" job store "i" refl refl keyed

-- The store a while after the cancellation: another message went out, and the clock ran on.
abbrev later_store : World
later_store = record (cancel_job env "j" store).1 { published = scan_message ∷ []; ticks = 20 }

cancelled_never_published_example :
    ((publish_outbox_record broken row true later_store).1.published ≡ scan_message ∷ [])
    × (delivery (get (publish_outbox_record broken row true later_store).1.outbox "o")
        ≡ some (PublishState.published, 3, none))
unfolding get is_low_persistence_scan_only get_field cancel_job get_job_or_404 get_job
    update_job_state cancel_job_items get_batch_job_or_404
cancelled_never_published_example =
    cancelled_never_published env "j" job store refl refl keyed broken row row true "i" item
      later_store refl refl refl refl refl refl refl refl refl
