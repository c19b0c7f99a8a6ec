-- ===== src/Jobs/Service/ScanOnly/Bulk.antt =====
-- The bulk completion of scan-only items: all or nothing where a payload is bad, and the same item
-- as the single completion writes.
use dsx_connect.Prelude.{
  suc, String, ◌≡◌, Bool, true, false, Option, none, some, List, [], ◌∷◌, arith, eq_refl, any,
  if◌then◌else◌, is_some,
}
use dsx_connect.Prelude.Dict.{get, get-put}
use dsx_connect.Prelude.Value.{or_empty}
use dsx_connect.Jobs.Models.{JobItemRecord, StageUpdateRequest}
use dsx_connect.Jobs.World.{World, Env, Raised, raised, http, invalid}
use dsx_connect.Jobs.Repository.Items.{
  get_job_item, update_job_item_stages, bulk_loop, update_job_items_stages_bulk,
}
use dsx_connect.Jobs.Service.Lookup.{get_job_item_or_404}
use dsx_connect.Jobs.Service.ScanOnly.{
  ScanOnlyUpdate, scan_only_verdict, not_scanned, scan_only_rows, scan_only_stages,
  complete_scan_only, complete_scan_only_bulk,
}

abbrev pub bad_update : ScanOnlyUpdate → Bool
bad_update (job_id, job_item_id, payload) = not_scanned payload

-- A world but for the number of times that the clock was read.
abbrev pub unticked : World → World
unticked w = record w { ticks = 0 }

-- The error of the first payload that raises. A payload that is no completed scan with a result
-- raises 409, and one whose verdict has no `strip` raises an error of its own.
abbrev pub refusal : List ScanOnlyUpdate → Raised
refusal [] = invalid
refusal ((job_id, job_item_id, payload) ∷ rest) =
    if not_scanned payload
    then http 409 "scan_only_requires_completed_scan"
    else if is_some (scan_only_verdict (or_empty payload.result))
    then refusal rest
    else invalid

rows_bad :
    (env : Env) (us : List ScanOnlyUpdate) (w : World)
    → any bad_update us ≡ true
    → ((scan_only_rows env us w).0 ≡ raised (refusal us))
      × (unticked (scan_only_rows env us w).1 ≡ unticked w)
unfolding scan_only_rows scan_only_stages
rows_bad env [] w h = absurd (ground arith)
rows_bad env ((j, i, p) ∷ us) w h =
    ground (arith, rows_bad env us (record w { ticks = suc w.ticks }))

-- If one payload of a bulk completion is not a completed scan with a result, the call raises, and it
-- changes nothing but the readings of the clock: none of the other items is completed. The error is
-- the 409 of the first such payload, unless a payload before it has a verdict that is no text.
pub bulk_all_or_nothing :
    (env : Env) (us : List ScanOnlyUpdate) (refresh : Bool) (w : World)
    → any bad_update us ≡ true
    → ((complete_scan_only_bulk env us refresh w).0 ≡ raised (refusal us))
      × (unticked (complete_scan_only_bulk env us refresh w).1 ≡ unticked w)
unfolding complete_scan_only_bulk
bulk_all_or_nothing env [] refresh w h = absurd (ground arith)
bulk_all_or_nothing env (u ∷ us) refresh w h = ground (arith, rows_bad env (u ∷ us) w h)

-- An item without the time at which its scan started.
abbrev pub unstarted : Option JobItemRecord → Option JobItemRecord
unstarted none = none
unstarted (some row) =
    some (record row { scan_stage = record row.scan_stage { started_at = none } })

-- The bulk completion of one stored item, with a good payload and without the refresh of the job,
-- leaves the item as the single completion does, but for the time at which the scan started.
pub bulk_of_one :
    (env : Env) (j i : String) (item : JobItemRecord) (p : StageUpdateRequest) (w : World)
    → get w.job_items i ≡ some item
    → item.job_item_id ≡ i
    → not_scanned p ≡ false
    → unstarted (get (complete_scan_only_bulk env ((j, i, p) ∷ []) false w).1.job_items i)
      ≡ unstarted (get (complete_scan_only env i p w).1.job_items i)
unfolding complete_scan_only_bulk complete_scan_only scan_only_rows scan_only_stages
    get_job_item_or_404 get_job_item update_job_items_stages_bulk bulk_loop update_job_item_stages
bulk_of_one env j i item p w found same_id good = grind (arith, get-put, eq_refl)
