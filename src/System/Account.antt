-- ===== src/System/Account.antt =====
-- Ids in the queue, and where they go when the cap drops some or one is confirmed.
use mathlib.Core.Path.{ap₂}
use factoryfleet.Base.{
  ℕ, zero, suc, ◌+◌, ◌-◌, ◌≤◌, ◌≡◌, refl, ap, ◌∙◌, Bool, true, ◌||◌, List, [], ◌∷◌, ◌++◌, arith,
  length, length-append, length-take, length-map, ==_iff, take, drop, contains, ◌==◌, Bool-cases,
  inl, inr, String,
}
use factoryfleet.Json.{Fields}
use factoryfleet.Store.Enqueue.{queue-insert_outbox, excess-insert_outbox}
use factoryfleet.Store.Outbox.{new_row}
use factoryfleet.Store.Queue.{queue}
use factoryfleet.Store.Table.{OutboxRow, ids_of, delete_ids}
use factoryfleet.Store.Types.{Store}
use factoryfleet.System.{overflow}
use factoryfleet.Timeutil.{Datetime}

contains-append :
    (i : ℕ) (is js : List ℕ) → contains i (is ++ js) ≡ (contains i is || contains i js)
contains-append i [] js = refl
contains-append i (j ∷ is) js = ground (arith, contains-append i is js)

contains-take-drop :
    (i n : ℕ) (rows : List OutboxRow)
    → contains i (ids_of rows)
      ≡ (contains i (ids_of (take n rows)) || contains i (ids_of (drop n rows)))
contains-take-drop i zero rows = refl
contains-take-drop i (suc n) [] = refl
contains-take-drop i (suc n) (r ∷ rows) = ground (arith, contains-take-drop i n rows)

contains-delete_ids :
    (i j : ℕ) (rows : List OutboxRow)
    → contains i (ids_of rows) ≡ true
    → (contains i (ids_of (delete_ids (j ∷ []) rows)) || i == j) ≡ true
unfolding delete_ids
contains-delete_ids i j [] h = absurd (ground (arith, h))
contains-delete_ids i j (r ∷ rows) h = ground (arith, h, contains-delete_ids i j rows)

pub still_accounted :
    (j i : ℕ) (rows : List OutboxRow) (confirmed dropped : List ℕ)
    → contains i confirmed ≡ true
    → (contains j (ids_of rows) || (contains j confirmed || contains j dropped)) ≡ true
    → (contains j (ids_of (delete_ids (i ∷ []) rows))
        || (contains j confirmed || contains j dropped))
      ≡ true
still_accounted j i rows confirmed dropped c h = elim (Bool-cases (contains j (ids_of rows))) [
  | inl waiting ↦ elim (Bool-cases (j == i)) [
    | inl same ↦
        let e : j ≡ i = (==_iff j i).0 same in ground (arith, c, ap (λ k. contains k confirmed) e)
    | inr other ↦ ground (arith, contains-delete_ids j i rows waiting, other)
  ]
  | inr gone ↦ ground (arith, h, gone)
]

-- An id of the queue with the new row is in what the cap keeps or in what it drops.
pub split_queue :
    (i k : ℕ) (rows : List OutboxRow) (c : Bool) (dropped : List ℕ)
    → (contains i (ids_of rows) || (c || contains i dropped)) ≡ true
    → (contains i (ids_of (drop k rows)) || (c || contains i (dropped ++ ids_of (take k rows))))
      ≡ true
split_queue i k rows c dropped h =
    ground (arith, h, contains-take-drop i k rows, contains-append i dropped (ids_of (take k rows)))

contains-queue_new :
    (i : ℕ) (rows : List OutboxRow) (r : OutboxRow)
    → contains i (ids_of (rows ++ (r ∷ []))) ≡ (contains i (ids_of rows) || i == r.id)
contains-queue_new i [] r = ground arith
contains-queue_new i (q ∷ rows) r = ground (arith, contains-queue_new i rows r)

module _ (now : Datetime) (topic : String) (payload : Fields) (s : Store) where
  abbrev pub over : ℕ
  over = length (queue s) + 1 - s.max_outbox_entries

  abbrev pub grown : List OutboxRow
  grown = queue s ++ (new_row now topic payload s ∷ [])

  pub overflow_lem : overflow now topic payload s ≡ ids_of (take over grown)
  unfolding overflow
  overflow_lem =
      ap₂ (λ k rows. ids_of (take k rows)) (excess-insert_outbox now topic payload s)
        (queue-insert_outbox now topic payload s)

  pub length-overflow : length (overflow now topic payload s) ≡ over
  length-overflow =
      ap length overflow_lem
      ∙ length-map (take over grown) (λ r. r.id)
      ∙ omega (
        arith,
        length-take over grown,
        length-append (queue s) (new_row now topic payload s ∷ []),
      )

  pub grown_accounted :
      (i : ℕ) (c : Bool) (dropped : List ℕ)
      → (i ≤ s.sequence → (contains i (ids_of (queue s)) || (c || contains i dropped)) ≡ true)
      → i ≤ s.sequence + 1
      → (contains i (ids_of grown) || (c || contains i dropped)) ≡ true
  unfolding new_row
  grown_accounted i c dropped old high =
      ground (arith, contains-queue_new i (queue s) (new_row now topic payload s), old)
