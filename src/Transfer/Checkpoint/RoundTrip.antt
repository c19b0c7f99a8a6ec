-- ===== src/Transfer/Checkpoint/RoundTrip.antt =====
-- What `put` leaves in the file of the checkpoints.
use dsx_connect.Prelude.{String, ◌≡◌, arith}
use dsx_connect.Prelude.Dict.{put}
use dsx_connect.Transfer.Models.{TransferItemOutcome}
use dsx_connect.Transfer.World.{World, Env, ok}
use dsx_connect.Transfer.Checkpoint.{checkpoint_key, put_checkpoint, new_checkpoint}
use dsx_connect.Transfer.World.Steady.{IsSteady}

pub put_checkpoint_lem :
    (env : Env) (t : String) (o : TransferItemOutcome) (w : World)
    → IsSteady env
    → (put_checkpoint env t o w).1.checkpoints
      ≡ put w.checkpoints (checkpoint_key t o.item) (new_checkpoint env t o (env.clock w.ticks))
unfolding put_checkpoint
put_checkpoint_lem env t o w h = grind (arith, h.loads, h.stores)

pub put_checkpoint-ok :
    (env : Env) (t : String) (o : TransferItemOutcome) (w : World)
    → IsSteady env
    → (put_checkpoint env t o w).0 ≡ ok tt
unfolding put_checkpoint
put_checkpoint-ok env t o w h = grind (arith, h.loads, h.stores)
