-- ===== src/Store/Snapshot.antt =====
-- `Store.latest` of agent/factoryfleet_agent/store.py: one state of each sensor, in the order of their
-- ids.
use mathlib.Core.Path.{subst}
use factoryfleet.Base.{
  ◌≡◌, refl, sym, ap, ◌∙◌, false, String, Option, none, some, List, [], ◌∷◌, map, arith, str_eq,
  eq_iff, All, Bool-cases, inl, inr, if◌then◌else◌,
}
use factoryfleet.Sensors.Reading.{Reading}
use factoryfleet.Store.AssetState.{
  state_row, record_reading, record_all, to_state, to_states, order_by_sensor, latest, find_state,
  read_state, latest_for,
}
use factoryfleet.Store.Latest.{stored, to_state-state_row}
use factoryfleet.Store.SensorRows.{
  Precedes, RisesFrom, Rises, IsFresh, AreDistinct, order_by_sensor-All, order_by_sensor-Rises,
  find_state-order_by_sensor,
}
use factoryfleet.Store.Table.{StateRow, insert_state}
use factoryfleet.Store.Types.{Store, StoredState}
use factoryfleet.Timeutil.{IsDatetime}

-- A row that `record` wrote.
abbrev IsWritten : StateRow → Type 0
IsWritten row = (r : Reading) × IsDatetime r.captured_at × (row ≡ state_row r)

pub record IsSnapshot (s : Store) : Type 0 where
  pub distinct : AreDistinct s.asset_state
  pub written : All IsWritten s.asset_state

IsFresh-insert_state :
    (k : String) (row : StateRow) (rows : List StateRow)
    → str_eq row.sensor_id k ≡ false
    → IsFresh k rows
    → IsFresh k (insert_state row rows)
unfolding insert_state
IsFresh-insert_state k row [] h fresh = (h, tt)
IsFresh-insert_state k row (q ∷ rows) h fresh =
    elim (Bool-cases (str_eq q.sensor_id row.sensor_id)) [
      | inl same ↦ rw same (h, fresh.1)
      | inr other ↦ rw other (fresh.0, IsFresh-insert_state k row rows h fresh.1)
    ]

AreDistinct-insert_state :
    (row : StateRow) (rows : List StateRow) → AreDistinct rows → AreDistinct (insert_state row rows)
unfolding insert_state
AreDistinct-insert_state row [] d = (tt, tt)
AreDistinct-insert_state row (q ∷ rows) d = elim (Bool-cases (str_eq q.sensor_id row.sensor_id)) [
  | inl same ↦
      rw same (subst (λ k. IsFresh k rows) ((eq_iff q.sensor_id row.sensor_id).0 same) d.0, d.1)
  | inr other ↦ rw other (
    IsFresh-insert_state q.sensor_id row rows
        (ground (arith, other, eq_iff q.sensor_id row.sensor_id, eq_iff row.sensor_id q.sensor_id))
        d.0,
    AreDistinct-insert_state row rows d.1,
  )
]

All-insert_state :
    (P : StateRow → Type 0) (row : StateRow) (rows : List StateRow)
    → P row
    → All P rows
    → All P (insert_state row rows)
unfolding insert_state
All-insert_state P row [] h hs = (h, tt)
All-insert_state P row (q ∷ rows) h hs = elim (Bool-cases (str_eq q.sensor_id row.sensor_id)) [
  | inl same ↦ rw same (h, hs.1)
  | inr other ↦ rw other (hs.0, All-insert_state P row rows h hs.1)
]

pub record_all-IsSnapshot :
    (rs : List Reading) (s : Store)
    → All (λ r. IsDatetime r.captured_at) rs
    → IsSnapshot s
    → IsSnapshot (record_all rs s)
unfolding record_all record_reading
record_all-IsSnapshot [] s v h = h
record_all-IsSnapshot (r ∷ rs) s v h = record_all-IsSnapshot rs (record_reading r s) v.1 (record {
  distinct = AreDistinct-insert_state (state_row r) s.asset_state h.distinct;
  written = All-insert_state IsWritten (state_row r) s.asset_state (r, v.0, refl) h.written;
})

-- The ids rise strictly in the order of the database, so that none comes twice.
abbrev pub Ascending : List String → Type 0
Ascending [] = Unit
Ascending (a ∷ []) = Unit
Ascending (a ∷ b ∷ ks) = Precedes a b × Ascending (b ∷ ks)

RisesFrom-Ascending :
    (r : StateRow) (rows : List StateRow)
    → RisesFrom r.sensor_id rows
    → Ascending (r.sensor_id ∷ map (λ q. q.sensor_id) rows)
RisesFrom-Ascending r [] h = tt
RisesFrom-Ascending r (q ∷ rows) h = (h.0, RisesFrom-Ascending q rows h.1)

Rises-Ascending : (rows : List StateRow) → Rises rows → Ascending (map (λ q. q.sensor_id) rows)
Rises-Ascending [] h = tt
Rises-Ascending (r ∷ rows) h = RisesFrom-Ascending r rows h

-- The state of a sensor among these.
abbrev pub find_stored : String → List StoredState → Option StoredState
find_stored k [] = none
find_stored k (s ∷ states) = if str_eq s.sensor_id k then some s else find_stored k states

record AreRead (rows : List StateRow) (states : List StoredState) : Type 0 where
  read : to_states rows ≡ some states
  ids : map (λ s. s.sensor_id) states ≡ map (λ r. r.sensor_id) rows
  found : (k : String) → read_state (find_state k rows) ≡ some (find_stored k states)

to_state_total :
    (row : StateRow)
    → IsWritten row
    → (state : StoredState) × (to_state row ≡ some state) × (state.sensor_id ≡ row.sensor_id)
to_state_total row (r, v, e) = (
  stored r,
  ap to_state e ∙ to_state-state_row r v,
  sym (ap (λ q. q.sensor_id) e ∙ (unfold state_row in refl)),
)

to_states_total :
    (rows : List StateRow) → All IsWritten rows → (states : List StoredState) × AreRead rows states
unfolding to_states find_state read_state
to_states_total [] h = ([], record { read = refl; ids = refl; found = λ k. refl })
to_states_total (row ∷ rows) h =
    let (state, done, named) = to_state_total row h.0 in
    let (states, rest) = to_states_total rows h.1 in
    (
      state ∷ states,
      record {
        read = rw (done, rest.read) refl;
        ids = rw (named, rest.ids) refl;
        found = λ k. elim (Bool-cases (str_eq row.sensor_id k)) [
          | inl same ↦ rw (named, same, done) refl
          | inr other ↦ rw (named, other) (rest.found k)
        ];
      },
    )

-- Where the table has one row of each sensor, each of which `record` wrote: after a cycle's readings
-- are recorded the table still is so, and `latest` raises nothing. It returns one state of each sensor
-- in the ascending order of their ids, and for every sensor the state that `latest_for` returns, or
-- none where that returns None.
pub latest_total :
    (rs : List Reading) (s : Store)
    → All (λ r. IsDatetime r.captured_at) rs
    → IsSnapshot s
    → (states : List StoredState) × (latest (record_all rs s) ≡ some states)
      × Ascending (map (λ t. t.sensor_id) states)
      × ((k : String) → latest_for k (record_all rs s) ≡ some (find_stored k states))
      × IsSnapshot (record_all rs s)
unfolding latest latest_for
latest_total rs s v h =
    let rows = (record_all rs s).asset_state in
    let after = record_all-IsSnapshot rs s v h in
    let (states, read) =
      to_states_total (order_by_sensor rows) (order_by_sensor-All IsWritten rows after.written) in
    (
      states,
      read.read,
      subst Ascending (sym read.ids)
          (Rises-Ascending (order_by_sensor rows) (order_by_sensor-Rises rows after.distinct)),
      λ k. ap read_state (sym (find_state-order_by_sensor k rows after.distinct)) ∙ read.found k,
      after,
    )
