-- ===== src/Store/Latest.antt =====
-- The `asset_state` table of agent/factoryfleet_agent/store.py: what is recorded is what is read.
use factoryfleet.Base.{
  ◌≡◌, refl, ap, ◌∙◌, String, false, some, List, [], ◌∷◌, ◌++◌, arith, str_eq, eq_iff, eq_refl, All,
  Bool-cases, inl, inr, if◌then◌else◌,
}
use factoryfleet.Sensors.Reading.{Reading, condition_of-value}
use factoryfleet.Store.AssetState.{
  state_row, record_reading, record_all, to_state, find_state, latest_for,
}
use factoryfleet.Store.Table.{StateRow, insert_state}
use factoryfleet.Store.Types.{Store, StoredState}
use factoryfleet.Timeutil.{IsDatetime}
use factoryfleet.Timeutil.RoundTrip.{to_millisecond, parse_iso-iso}

find_state-insert :
    (k : String) (row : StateRow) (rows : List StateRow)
    → find_state k (insert_state row rows)
      ≡ (if str_eq row.sensor_id k then some row else find_state k rows)
unfolding find_state insert_state
find_state-insert k row [] = refl
find_state-insert k row (q ∷ rows) = ground (
  arith,
  find_state-insert k row rows,
  eq_iff q.sensor_id row.sensor_id,
  eq_iff row.sensor_id k,
  eq_iff q.sensor_id k,
)

-- A reading as it comes back from the store: its instant is cut to the millisecond.
abbrev pub stored : Reading → StoredState
stored r = record {
  sensor_id = r.sensor_id;
  condition = r.condition;
  metrics = r.metrics;
  captured_at = to_millisecond r.captured_at;
  error = r.error;
}

pub to_state-state_row :
    (r : Reading) → IsDatetime r.captured_at → to_state (state_row r) ≡ some (stored r)
unfolding to_state state_row
to_state-state_row r v = rw (condition_of-value r.condition, parse_iso-iso r.captured_at v)

find_state-recorded :
    (r : Reading) (k : String) (rows : List StateRow)
    → find_state k (insert_state (state_row r) rows)
      ≡ (if str_eq r.sensor_id k then some (state_row r) else find_state k rows)
find_state-recorded r k rows =
    find_state-insert k (state_row r) rows
    ∙ ap (λ j. if str_eq j k then some (state_row r) else find_state k rows)
        (unfold state_row in refl)

-- After a reading is recorded, its sensor's state is that reading, and every other sensor's state is
-- what it was.
pub latest_for-record_reading :
    (r : Reading) (k : String) (s : Store)
    → IsDatetime r.captured_at
    → latest_for k (record_reading r s)
      ≡ (if str_eq r.sensor_id k then some (some (stored r)) else latest_for k s)
unfolding latest_for record_reading
latest_for-record_reading r k s v =
    rw (find_state-recorded r k s.asset_state) (elim (Bool-cases (str_eq r.sensor_id k)) [
      | inl same ↦ rw (same, to_state-state_row r v)
      | inr other ↦ rw other
    ])

latest_for-record_all_ne :
    (rs : List Reading) (k : String) (s : Store)
    → All (λ q. IsDatetime q.captured_at × (str_eq q.sensor_id k ≡ false)) rs
    → latest_for k (record_all rs s) ≡ latest_for k s
unfolding record_all
latest_for-record_all_ne [] k s h = refl
latest_for-record_all_ne (q ∷ rs) k s h =
    latest_for-record_all_ne rs k (record_reading q s) h.1
    ∙ latest_for-record_reading q k s h.0.0
    ∙ if_false h.0.1
  where
    if_false :
        str_eq q.sensor_id k ≡ false
        → (if str_eq q.sensor_id k then some (some (stored q)) else latest_for k s) ≡ latest_for k s
    if_false e = rw e

-- After a cycle's readings are recorded, a sensor's state is its last reading of the cycle: `before`
-- and `after` are the readings before and after that one, and none of those after it is of the sensor.
pub latest_for-record_all :
    (before : List Reading) (r : Reading) (after : List Reading) (s : Store)
    → All (λ q. IsDatetime q.captured_at) before
    → IsDatetime r.captured_at
    → All (λ q. IsDatetime q.captured_at × (str_eq q.sensor_id r.sensor_id ≡ false)) after
    → latest_for r.sensor_id (record_all (before ++ (r ∷ after)) s) ≡ some (some (stored r))
unfolding record_all
latest_for-record_all [] r after s hb v ha =
    latest_for-record_all_ne after r.sensor_id (record_reading r s) ha
    ∙ latest_for-record_reading r r.sensor_id s v
    ∙ rw (eq_refl r.sensor_id)
latest_for-record_all (q ∷ before) r after s hb v ha =
    latest_for-record_all before r after (record_reading q s) hb.1 v ha
