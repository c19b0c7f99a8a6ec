-- ===== src/Transfer/Checkpoint.antt =====
-- dsx_transfer/dsx_transfer/checkpoint.py: the file of the checkpoints, read and written by key. The
-- records are kept as they are, without their form as JSON; the order of the keys in the file is
-- not read.
pub mod RoundTrip
use Prim.Native.String.{◌++◌}
use dsx_connect.Prelude.{
  ℕ, zero, suc, String, Bool, true, false, Option, none, some, if◌then◌else◌, str_eq,
}
use dsx_connect.Prelude.Decimal.{decimal}
use dsx_connect.Prelude.Dict.{Dict, get, put}
use dsx_connect.Prelude.Value.{Value, get_field, or_value, null, bool, num, str, arr, obj}
use dsx_connect.Transfer.Models.{TransferItem, TransferItemOutcome, CheckpointRecord}
use dsx_connect.Transfer.World.{World, Env, M, ◌>>=◌, ◌>>◌, pure, load_file, write_file, utcnow}

-- `str(v)`
unfoldable pub py_str : Env → Value → String
unfolding decimal
py_str env null = "None"
py_str env (bool true) = "True"
py_str env (bool false) = "False"
py_str env (num n) = decimal n
py_str env (str s) = s
py_str env (arr vs) = env.repr (arr vs)
py_str env (obj d) = env.repr (obj d)

-- `str(size_bytes or "")`
abbrev pub size_text : Option ℕ → String
unfolding decimal
size_text none = ""
size_text (some zero) = ""
size_text (some (suc n)) = decimal (suc n)

-- `_fingerprint`
unfoldable pub fingerprint : Env → TransferItem → String
unfolding get_field
fingerprint env item =
    size_text item.size_bytes
    ++ "|"
    ++ py_str env (or_value (get_field item.metadata "mtime_ns") (str ""))
    ++ "|"
    ++ py_str env (or_value (get_field item.metadata "relative_path") (str item.object_identity))

-- `_checkpoint_key`
unfoldable pub checkpoint_key : String → TransferItem → String
checkpoint_key transfer_id item = transfer_id ++ ":" ++ item.object_identity

-- `o == s`, for a text or None
abbrev pub same_text : Option String → String → Bool
same_text none s = false
same_text (some t) s = str_eq t s

-- The record, if it is of the same version of the object.
abbrev pub fitting : Env → TransferItem → Option CheckpointRecord → Option CheckpointRecord
fitting env item none = none
fitting env item (some row) =
    if same_text row.metadata_fingerprint (fingerprint env item) then some row else none

-- `JsonCheckpointStore.get`
unfoldable pub get_checkpoint : Env → String → TransferItem → M (Option CheckpointRecord)
unfolding get
get_checkpoint env transfer_id item = do
  rows ← load_file env
  pure (fitting env item (get rows (checkpoint_key transfer_id item)))

abbrev pub new_checkpoint : Env → String → TransferItemOutcome → ℕ → CheckpointRecord
new_checkpoint env transfer_id o now = record {
  transfer_id = transfer_id;
  object_identity = o.item.object_identity;
  source_uri = o.item.source_uri;
  destination_uri = o.item.destination_uri;
  state = o.state;
  size_bytes = o.item.size_bytes;
  metadata_fingerprint = some (fingerprint env o.item);
  outcome = o;
  updated_at = now;
}

-- `JsonCheckpointStore.put`
unfoldable pub put_checkpoint : Env → String → TransferItemOutcome → M (Unit {0})
unfolding put
put_checkpoint env transfer_id o = do
  rows ← load_file env
  now ← utcnow env
  write_file env
      (put rows (checkpoint_key transfer_id o.item) (new_checkpoint env transfer_id o now))
