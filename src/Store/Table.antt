-- ===== src/Store/Table.antt =====
-- The tables of agent/factoryfleet_agent/store.py and the SQL statements over their rows.
use factoryfleet.Base.{
  ℕ, String, Bool, not, true, false, Option, none, some, List, [], ◌∷◌, map, leb, take, filter,
  contains, str_eq, if◌then◌else◌,
}
use factoryfleet.Json.{Fields}
use factoryfleet.Sensors.Reading.{Metrics}

pub record OutboxRow : Type 0 where
  pub id : ℕ
  pub topic : String
  pub payload_json : Fields
  pub created_at : String
  pub published_at : Option String

pub record StateRow : Type 0 where
  pub sensor_id : String
  pub condition : String
  pub metrics_json : Metrics
  pub error : Option String
  pub captured_at : String

-- `sequence` is the row of `sqlite_sequence` that AUTOINCREMENT keeps: the largest id ever given.
pub record Database : Type 0 where
  pub asset_state : List StateRow
  pub outbox : List OutboxRow
  pub sequence : ℕ

-- `published_at IS NULL`
abbrev pub is_pending : OutboxRow → Bool
is_pending r = elim r.published_at [ none ↦ true | some t ↦ false ]

abbrev pub is_published : OutboxRow → Bool
is_published r = not (is_pending r)

abbrev pub ids_of : List OutboxRow → List ℕ
ids_of = map (λ r. r.id)

unfoldable pub insert_by_id : OutboxRow → List OutboxRow → List OutboxRow
insert_by_id r [] = r ∷ []
insert_by_id r (q ∷ rows) =
    let rest = insert_by_id r rows in if leb r.id q.id then r ∷ q ∷ rows else q ∷ rest

-- `ORDER BY id`
unfoldable pub order_by_id : List OutboxRow → List OutboxRow
unfolding insert_by_id
order_by_id [] = []
order_by_id (r ∷ rows) = insert_by_id r (order_by_id rows)

-- `WHERE published_at IS NULL ORDER BY id LIMIT ?`
unfoldable pub select_pending : ℕ → List OutboxRow → List OutboxRow
unfolding order_by_id
select_pending limit rows = take limit (order_by_id (filter is_pending rows))

-- `DELETE FROM outbox WHERE id IN (…)`
unfoldable pub delete_ids : List ℕ → List OutboxRow → List OutboxRow
delete_ids ids rows = filter (λ r. not (contains r.id ids)) rows

-- `INSERT INTO asset_state … ON CONFLICT(sensor_id) DO UPDATE`
unfoldable pub insert_state : StateRow → List StateRow → List StateRow
insert_state s [] = s ∷ []
insert_state s (q ∷ rows) =
    if str_eq q.sensor_id s.sensor_id then s ∷ rows else q ∷ insert_state s rows
