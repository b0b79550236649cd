-- ===== src/Store/SensorRows.antt =====
-- `ORDER BY sensor_id` of agent/factoryfleet_agent/store.py, on rows of distinct sensors.
use Prim.Native.Nat.{Ordering}
use Prim.Native.String.{compare}
use text.Mathlib.TextEquality.{path_by_compare}
use factoryfleet.Base.{
  ◌≡◌, refl, sym, ap, ◌∙◌, false, String, some, List, [], ◌∷◌, arith, str_eq, eq_iff, All, inl, inr,
  if◌then◌else◌,
}
use factoryfleet.Store.AssetState.{insert_by_sensor, order_by_sensor, find_state}
use factoryfleet.Store.SensorOrder.{flip, compare-flip, Ordering-cases}
use factoryfleet.Store.Table.{StateRow}

abbrev pub Precedes : String → String → Type 0
Precedes a b = compare a b ≡ Ordering.lt

-- The ids rise strictly, above `k`.
abbrev pub RisesFrom : String → List StateRow → Type 0
RisesFrom k [] = Unit
RisesFrom k (r ∷ rows) = Precedes k r.sensor_id × RisesFrom r.sensor_id rows

abbrev pub Rises : List StateRow → Type 0
Rises [] = Unit
Rises (r ∷ rows) = RisesFrom r.sensor_id rows

abbrev pub IsFresh : String → List StateRow → Type 0
IsFresh k = All (λ r. str_eq r.sensor_id k ≡ false)

-- No two rows are of one sensor, as the primary key has it.
abbrev pub AreDistinct : List StateRow → Type 0
AreDistinct [] = Unit
AreDistinct (r ∷ rows) = IsFresh r.sensor_id rows × AreDistinct rows

distinct-compare : (a b : String) → str_eq a b ≡ false → compare b a ≡ Ordering.eq → ⊥
distinct-compare a b h e = ground (arith, h, (eq_iff a b).1 (sym (path_by_compare b a e)))

module _ (r q : StateRow) (rows : List StateRow) where
  insert-lower :
      compare r.sensor_id q.sensor_id ≡ Ordering.lt → insert_by_sensor r (q ∷ rows) ≡ r ∷ q ∷ rows
  unfolding insert_by_sensor
  insert-lower e = rw (e, insert_by_sensor) refl

  insert-same :
      compare r.sensor_id q.sensor_id ≡ Ordering.eq → insert_by_sensor r (q ∷ rows) ≡ r ∷ q ∷ rows
  unfolding insert_by_sensor
  insert-same e = rw (e, insert_by_sensor) refl

  insert-higher :
      compare r.sensor_id q.sensor_id ≡ Ordering.gt
      → insert_by_sensor r (q ∷ rows) ≡ q ∷ insert_by_sensor r rows
  unfolding insert_by_sensor
  insert-higher e = rw (e, insert_by_sensor) refl

module _ (r : StateRow) where
  insert-RisesFrom :
      (k : String) (rows : List StateRow)
      → Precedes k r.sensor_id
      → RisesFrom k rows
      → IsFresh r.sensor_id rows
      → RisesFrom k (insert_by_sensor r rows)
  unfolding insert_by_sensor
  insert-RisesFrom k [] h rises fresh = (h, tt)
  insert-RisesFrom k (q ∷ rows) h rises fresh =
      elim (Ordering-cases (compare r.sensor_id q.sensor_id)) [
        | inl lower ↦ rw (insert-lower r q rows lower) (h, (lower, rises.1))
        | inr (inl same) ↦ absurd (distinct-compare q.sensor_id r.sensor_id fresh.0 same)
        | inr (inr higher) ↦ rw (insert-higher r q rows higher) (
          rises.0,
          insert-RisesFrom q.sensor_id rows (compare-flip r.sensor_id q.sensor_id ∙ ap flip higher)
              rises.1 fresh.1,
        )
      ]

  insert-Rises :
      (rows : List StateRow)
      → Rises rows
      → IsFresh r.sensor_id rows
      → Rises (insert_by_sensor r rows)
  unfolding insert_by_sensor
  insert-Rises [] rises fresh = tt
  insert-Rises (q ∷ rows) rises fresh = elim (Ordering-cases (compare r.sensor_id q.sensor_id)) [
    | inl lower ↦ rw (insert-lower r q rows lower) (lower, rises)
    | inr (inl same) ↦ absurd (distinct-compare q.sensor_id r.sensor_id fresh.0 same)
    | inr (inr higher) ↦ rw (insert-higher r q rows higher) (
        insert-RisesFrom q.sensor_id rows (compare-flip r.sensor_id q.sensor_id ∙ ap flip higher)
          rises fresh.1)
  ]

  All-insert :
      (P : StateRow → Type 0) (rows : List StateRow)
      → P r
      → All P rows
      → All P (insert_by_sensor r rows)
  unfolding insert_by_sensor
  All-insert P [] h hs = (h, tt)
  All-insert P (q ∷ rows) h hs = elim (Ordering-cases (compare r.sensor_id q.sensor_id)) [
    | inl lower ↦ rw (insert-lower r q rows lower) (h, hs)
    | inr (inl same) ↦ rw (insert-same r q rows same) (h, hs)
    | inr (inr higher) ↦ rw (insert-higher r q rows higher) (hs.0, All-insert P rows h hs.1)
  ]

  find_state-insert_by_sensor :
      (k : String) (rows : List StateRow)
      → IsFresh r.sensor_id rows
      → find_state k (insert_by_sensor r rows)
        ≡ (if str_eq r.sensor_id k then some r else find_state k rows)
  unfolding insert_by_sensor find_state
  find_state-insert_by_sensor k [] fresh = refl
  find_state-insert_by_sensor k (q ∷ rows) fresh =
      elim (Ordering-cases (compare r.sensor_id q.sensor_id)) [
        | inl lower ↦ rw (insert-lower r q rows lower) refl
        | inr (inl same) ↦ rw (insert-same r q rows same) refl
        | inr (inr higher) ↦ rw (insert-higher r q rows higher) (
            ground (
              arith,
              find_state-insert_by_sensor k rows fresh.1,
              eq_iff q.sensor_id r.sensor_id,
              eq_iff r.sensor_id k,
              eq_iff q.sensor_id k,
              fresh.0,
            ))
      ]

pub order_by_sensor-All :
    (P : StateRow → Type 0) (rows : List StateRow) → All P rows → All P (order_by_sensor rows)
unfolding order_by_sensor
order_by_sensor-All P [] h = tt
order_by_sensor-All P (r ∷ rows) h =
    All-insert r P (order_by_sensor rows) h.0 (order_by_sensor-All P rows h.1)

pub order_by_sensor-Rises : (rows : List StateRow) → AreDistinct rows → Rises (order_by_sensor rows)
unfolding order_by_sensor
order_by_sensor-Rises [] d = tt
order_by_sensor-Rises (r ∷ rows) d =
    insert-Rises r (order_by_sensor rows) (order_by_sensor-Rises rows d.1)
      (order_by_sensor-All (λ q. str_eq q.sensor_id r.sensor_id ≡ false) rows d.0)

pub find_state-order_by_sensor :
    (k : String) (rows : List StateRow)
    → AreDistinct rows
    → find_state k (order_by_sensor rows) ≡ find_state k rows
unfolding order_by_sensor find_state
find_state-order_by_sensor k [] d = refl
find_state-order_by_sensor k (r ∷ rows) d =
    find_state-insert_by_sensor r k (order_by_sensor rows)
      (order_by_sensor-All (λ q. str_eq q.sensor_id r.sensor_id ≡ false) rows d.0)
    ∙ ap (λ x. if str_eq r.sensor_id k then some r else x) (find_state-order_by_sensor k rows d.1)
