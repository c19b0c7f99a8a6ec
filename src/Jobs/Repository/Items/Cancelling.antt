-- ===== src/Jobs/Repository/Items/Cancelling.antt =====
-- `cancel_job_items`: what becomes of each item, and the count that it returns.
use Prim.Native.Nat.{suc, ◌+◌}
use dsx_connect.Prelude.{
  ℕ, String, ◌≡◌, refl, ap, Option, none, some, List, [], ◌∷◌, arith, eq_iff, if◌then◌else◌, count,
  ◌∙◌,
}
use dsx_connect.Prelude.Value.{Fields}
use dsx_connect.Prelude.Dict.{Dict, get, put, values, IsDict, get-put}
use dsx_connect.Jobs.Models.{ItemState, JobItemRecord}
use dsx_connect.Jobs.World.{World, Env, ok}
use dsx_connect.Jobs.Repository.Items.{cancellable, cancelled_row, cancel_loop, cancel_job_items}

-- A row without the time of its last write.
abbrev pub unstamped : Option JobItemRecord → Option JobItemRecord
unstamped none = none
unstamped (some row) = some (record row { updated_at = 0 })

module _ (env : Env) (job_id : String) (states : List ItemState) (error : Option Fields)
    (t : Option ℕ) where
  -- What a cancellation makes of a row.
  abbrev pub cancel_row : Option JobItemRecord → Option JobItemRecord
  cancel_row none = none
  cancel_row (some row) =
      if cancellable job_id states row
      then some (cancelled_row row error row.updated_at t)
      else some row

  -- The world after one row is cancelled.
  abbrev stepped : World → String → JobItemRecord → World
  unfolding put
  stepped w k row = record w {
    ticks = suc w.ticks;
    job_items = put w.job_items k (cancelled_row row error (env.clock w.ticks) t);
  }

  loop_absent :
      (d : Dict JobItemRecord) (n : ℕ) (w : World) (j : String)
      → get d j ≡ none
      → get (cancel_loop env job_id states error t d n w).1.job_items j ≡ get w.job_items j
  unfolding cancel_loop get
  loop_absent [] n w j h = refl
  loop_absent ((k, row) ∷ d) n w j h = grind (
    arith,
    eq_iff k j,
    loop_absent d n w j,
    loop_absent d (n + 1) (stepped w k row) j,
    get-put w.job_items k j (cancelled_row row error (env.clock w.ticks) t),
  )

  loop_rows :
      (d : Dict JobItemRecord) (n : ℕ) (w : World) (j : String)
      → IsDict d
      → get w.job_items j ≡ get d j
      → unstamped (get (cancel_loop env job_id states error t d n w).1.job_items j)
        ≡ unstamped (cancel_row (get d j))
  unfolding cancel_loop get
  loop_rows [] n w j h e = ap unstamped e
  loop_rows ((k, row) ∷ d) n w j h e = grind (
    arith,
    eq_iff k j,
    loop_rows d n w j h.1,
    loop_rows d (n + 1) (stepped w k row) j h.1,
    loop_absent d n w j,
    loop_absent d (n + 1) (stepped w k row) j,
    get-put w.job_items k j (cancelled_row row error (env.clock w.ticks) t),
  )

  loop_count :
      (d : Dict JobItemRecord) (n : ℕ) (w : World)
      → (cancel_loop env job_id states error t d n w).0
        ≡ ok (n + count (cancellable job_id states) (values d))
  unfolding cancel_loop values
  loop_count [] n w = ap ok (omega arith)
  loop_count ((k, row) ∷ d) n w =
      ground (arith, loop_count d n w, loop_count d (n + 1) (stepped w k row))

  -- Each item afterwards, but for the time of its last write: the cancelled copy if it belongs to
  -- the job and was in one of the states, and else what it was. The call returns the number of
  -- the cancelled items.
  pub cancel_job_items_lem :
      (w : World)
      → IsDict w.job_items
      → ((j : String)
          → unstamped (get (cancel_job_items env job_id states error t w).1.job_items j)
            ≡ unstamped (cancel_row (get w.job_items j)))
        × ((cancel_job_items env job_id states error t w).0
            ≡ ok (count (cancellable job_id states) (values w.job_items)))
  unfolding cancel_job_items
  cancel_job_items_lem w h =
      (λ j. loop_rows w.job_items 0 w j h refl, loop_count w.job_items 0 w ∙ ap ok (omega arith))

  -- Nothing but the items and the clock is touched.
  loop_frame :
      (d : Dict JobItemRecord) (n : ℕ) (w : World)
      → ((cancel_loop env job_id states error t d n w).1.jobs ≡ w.jobs)
        × ((cancel_loop env job_id states error t d n w).1.outbox ≡ w.outbox)
        × ((cancel_loop env job_id states error t d n w).1.published ≡ w.published)
  unfolding cancel_loop
  loop_frame [] n w = (refl, refl, refl)
  loop_frame ((k, row) ∷ d) n w =
      ground (arith, loop_frame d n w, loop_frame d (n + 1) (stepped w k row))

  pub cancel_job_items_frame :
      (w : World)
      → ((cancel_job_items env job_id states error t w).1.jobs ≡ w.jobs)
        × ((cancel_job_items env job_id states error t w).1.outbox ≡ w.outbox)
        × ((cancel_job_items env job_id states error t w).1.published ≡ w.published)
  unfolding cancel_job_items
  cancel_job_items_frame w = loop_frame w.job_items 0 w
