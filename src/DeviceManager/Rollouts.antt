-- ===== src/DeviceManager/Rollouts.antt =====
-- services/firmware_service.py: the rollouts, whose state is in Redis for a day. The times and the
-- constant status of the record are left out.
use Prim.Native.String.{◌++◌ as str_append}
use g_io_t_edge_gateway.Prelude.{
  List, Option, String, arith, false, if◌then◌else◌, ltb, nat_eq, none, some, string_eq, ℕ, ◌*◌,
  ◌+◌, ◌>>=◌, ◌≡◌, ◌≤◌,
}
use g_io_t_edge_gateway.Redis.{Redis, RedisLaws, second}
use g_io_t_edge_gateway.DeviceManager.Table.{find_by}
use g_io_t_edge_gateway.DeviceManager.Service.{Answer, done, refused}
use g_io_t_edge_gateway.DeviceManager.Firmware.{FirmwareVersion}

pub record Rollout : Type 0 where
  pub rollout_id : String
  pub firmware_id : String
  pub firmware_version : String
  pub device_type : String
  pub target_devices : List String

-- `json.dumps` of a rollout, and `json.loads`; `none` where it raises.
pub record RolloutJson : Type 0 where
  pub dumps : Rollout → String
  pub loads : String → Option Rollout

abbrev pub rollout_of : String → FirmwareVersion → List String → Rollout
rollout_of id f targets = record {
  rollout_id = id;
  firmware_id = f.id;
  firmware_version = f.version;
  device_type = f.device_type;
  target_devices = targets;
}

abbrev pub rollout_key : String → String
rollout_key id = str_append "firmware_rollout:" id

module _ (r : Redis) (json : RolloutJson) where
  -- The event on the stream touches no key and is left out. `id` is the new id from `uuid4`.
  unfoldable pub start_rollout :
      ℕ → String → String → List String → List FirmwareVersion → r.Db → r.Db × Answer Rollout
  start_rollout now id firmware_id targets table db = elim (find_by (λ f. f.id) firmware_id table) [
    | none ↦ (db, refused)
    | some firmware ↦
        let rollout = rollout_of id firmware targets in
        ((r.set now db (rollout_key id) (json.dumps rollout) (some 86400) false).0, done rollout)
  ]

  -- A text that cannot be loaded raises; the answer is `none` then too.
  unfoldable pub get_rollout_status : ℕ → r.Db → String → Option Rollout
  get_rollout_status now db id = do text ← r.get now db (rollout_key id); json.loads text

  -- The state of a rollout can be read for a day from its start, as it was written, and not any
  -- longer, if JSON survives its text.
  pub get_rollout_status-start_rollout :
      RedisLaws r
      → (now later : ℕ) (id firmware_id : String) (targets : List String)
        (table : List FirmwareVersion) (db : r.Db) (f : FirmwareVersion)
      → now ≤ later
      → find_by (λ x. x.id) firmware_id table ≡ some f
      → json.loads (json.dumps (rollout_of id f targets)) ≡ some (rollout_of id f targets)
      → get_rollout_status later (start_rollout now id firmware_id targets table db).0 id
        ≡ (if ltb later (now + 86400 * second) then some (rollout_of id f targets) else none)
  unfolding start_rollout get_rollout_status
  get_rollout_status-start_rollout laws now later id firmware_id targets table db f order found
        survives =
      ground (
        arith,
        found,
        survives,
        laws.get_set now later db (rollout_key id) (json.dumps (rollout_of id f targets))
            (some 86400) (rollout_key id) order,
        string_eq.beq_iff (rollout_key id) (rollout_key id),
      )
