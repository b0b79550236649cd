-- ===== src/Store/AssetState.antt =====
-- The `asset_state` table, from agent/factoryfleet_agent/store.py. `none` is the `ValueError` of a
-- stored text that cannot be read back.
use Prim.Native.Nat.{Ordering}
use Prim.Native.String.{compare}
use factoryfleet.Base.{Option, none, some, String, List, [], ◌∷◌, str_eq, if◌then◌else◌, ◌>>=◌}
use factoryfleet.Sensors.Reading.{Reading, value, condition_of}
use factoryfleet.Timeutil.{iso, parse_iso}
use factoryfleet.Store.Table.{StateRow, insert_state}
use factoryfleet.Store.Types.{Store, StoredState}

unfoldable pub state_row : Reading → StateRow
state_row r = record {
  sensor_id = r.sensor_id;
  condition = value r.condition;
  metrics_json = r.metrics;
  error = r.error;
  captured_at = iso r.captured_at;
}

-- `Store.record`
unfoldable pub record_reading : Reading → Store → Store
record_reading r s = record s {
  database = record s.database { asset_state = insert_state (state_row r) s.asset_state };
}

unfoldable pub record_all : List Reading → Store → Store
unfolding record_reading
record_all [] s = s
record_all (r ∷ rs) s = record_all rs (record_reading r s)

-- `_to_state`
unfoldable pub to_state : StateRow → Option StoredState
to_state row = do
  c ← condition_of row.condition
  at ← parse_iso row.captured_at
  some (record {
    sensor_id = row.sensor_id;
    condition = c;
    metrics = row.metrics_json;
    captured_at = at;
    error = row.error;
  })

unfoldable pub to_states : List StateRow → Option (List StoredState)
unfolding to_state
to_states [] = some []
to_states (row ∷ rows) = do s ← to_state row; ss ← to_states rows; some (s ∷ ss)

-- `ORDER BY sensor_id`, by the bytes of the text.
unfoldable pub insert_by_sensor : StateRow → List StateRow → List StateRow
insert_by_sensor r [] = r ∷ []
insert_by_sensor r (q ∷ rows) =
    let rest = insert_by_sensor r rows in
    elim (compare r.sensor_id q.sensor_id) [ Ordering.gt ↦ q ∷ rest | _ ↦ r ∷ q ∷ rows ]

unfoldable pub order_by_sensor : List StateRow → List StateRow
unfolding insert_by_sensor
order_by_sensor [] = []
order_by_sensor (r ∷ rows) = insert_by_sensor r (order_by_sensor rows)

unfoldable pub latest : Store → Option (List StoredState)
unfolding order_by_sensor to_states
latest s = to_states (order_by_sensor s.asset_state)

-- `WHERE sensor_id = ?`, `fetchone`
unfoldable pub find_state : String → List StateRow → Option StateRow
find_state k [] = none
find_state k (row ∷ rows) = if str_eq row.sensor_id k then some row else find_state k rows

unfoldable pub read_state : Option StateRow → Option (Option StoredState)
read_state none = some none
read_state (some row) = do state ← to_state row; some (some state)

-- The outer `none` is the error; the inner one is the method's `None`.
unfoldable pub latest_for : String → Store → Option (Option StoredState)
unfolding read_state
latest_for k s = read_state (find_state k s.asset_state)
