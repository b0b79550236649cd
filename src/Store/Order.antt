-- ===== src/Store/Order.antt =====
-- Tables whose ids ascend: `ORDER BY id` is the order of the table, and deleting the oldest
-- unpublished rows drops them from the front of the queue.
use Prim.Native.Nat.{min}
use native.Mathlib.Nat.{le_refl}
use factoryfleet.Base.{
  ◌+◌, ℕ, zero, suc, ◌≤◌, ◌<◌, ◌≡◌, refl, ap, ◌∙◌, Bool, true, false, not, List, [], ◌∷◌, ◌++◌, map,
  arith, filter, take, drop, length, contains, if◌then◌else◌, Bool-cases, inl, inr,
}
use factoryfleet.Store.Table.{
  OutboxRow, is_pending, is_published, ids_of, order_by_id, select_pending, delete_ids,
}

-- Every id is above `low`, above the id before it, and at most `high`.
abbrev pub Ascends : ℕ → List OutboxRow → ℕ → Type 0
Ascends low [] high = low ≤ high
Ascends low (r ∷ rows) high = (low < r.id) × Ascends r.id rows high

pub Ascends-low :
    (low low' : ℕ) (rows : List OutboxRow) (high : ℕ)
    → low' ≤ low
    → Ascends low rows high
    → Ascends low' rows high
Ascends-low low low' [] high h a = omega arith
Ascends-low low low' (r ∷ rows) high h a = (omega arith, a.1)

pub Ascends-filter :
    (p : OutboxRow → Bool) (low : ℕ) (rows : List OutboxRow) (high : ℕ)
    → Ascends low rows high
    → Ascends low (filter p rows) high
Ascends-filter p low [] high a = a
Ascends-filter p low (r ∷ rows) high a = elim (Bool-cases (p r)) [
  | inl kept ↦ rw kept (a.0, Ascends-filter p r.id rows high a.1)
  | inr gone ↦
      rw gone
        (Ascends-low r.id low _ high (omega (arith, a.0)) (Ascends-filter p r.id rows high a.1))
]

pub Ascends-append :
    (low : ℕ) (rows : List OutboxRow) (high : ℕ) (r : OutboxRow)
    → Ascends low rows high
    → high < r.id
    → Ascends low (rows ++ (r ∷ [])) r.id
Ascends-append low [] high r a h = (omega arith, omega arith)
Ascends-append low (q ∷ rows) high r a h = (a.0, Ascends-append q.id rows high r a.1 h)

pub Ascends-map :
    (f : OutboxRow → OutboxRow)
    → ((r : OutboxRow) → (f r).id ≡ r.id)
    → (low : ℕ) (rows : List OutboxRow) (high : ℕ) → Ascends low rows high
    → Ascends low (map f rows) high
Ascends-map f same low [] high a = a
Ascends-map f same low (r ∷ rows) high a = rw (same r) (a.0, Ascends-map f same r.id rows high a.1)

order_by_id_lem :
    (low : ℕ) (rows : List OutboxRow) (high : ℕ) → Ascends low rows high → order_by_id rows ≡ rows
unfolding order_by_id
order_by_id_lem low [] high a = refl
order_by_id_lem low (r ∷ []) high a = refl
order_by_id_lem low (r ∷ (q ∷ rows)) high a =
    rw (order_by_id_lem r.id (q ∷ rows) high a.1) (ground (arith, a.1.0))

-- What the publisher reads is the front of the queue.
pub select_pending_lem :
    (n low : ℕ) (rows : List OutboxRow) (high : ℕ)
    → Ascends low rows high
    → select_pending n rows ≡ take n (filter is_pending rows)
unfolding select_pending
select_pending_lem n low rows high a =
    ap (take n) (
      order_by_id_lem low (filter is_pending rows) high (Ascends-filter is_pending low rows high a))

-- No id of a table is at or below the bound of that table.
contains-take :
    (i n low : ℕ) (rows : List OutboxRow) (high : ℕ)
    → i ≤ low
    → Ascends low rows high
    → contains i (ids_of (take n rows)) ≡ false
contains-take i zero low rows high h a = refl
contains-take i (suc n) low [] high h a = refl
contains-take i (suc n) low (r ∷ rows) high h a =
    ground (arith, contains-take i n r.id rows high (omega (arith, a.0)) a.1)

delete_ids-below :
    (i : ℕ) (ids : List ℕ) (low : ℕ) (rows : List OutboxRow) (high : ℕ)
    → i ≤ low
    → Ascends low rows high
    → delete_ids (i ∷ ids) rows ≡ delete_ids ids rows
unfolding delete_ids
delete_ids-below i ids low [] high h a = refl
delete_ids-below i ids low (r ∷ rows) high h a =
    ground (arith, delete_ids-below i ids r.id rows high (omega (arith, a.0)) a.1)

pub delete_ids-nil : (rows : List OutboxRow) → delete_ids [] rows ≡ rows
unfolding delete_ids
delete_ids-nil [] = refl
delete_ids-nil (r ∷ rows) = ap (λ l. r ∷ l) (delete_ids-nil rows)

pub delete_ids-skip :
    (r : OutboxRow) (ids : List ℕ) (rows : List OutboxRow)
    → contains r.id ids ≡ true
    → delete_ids ids (r ∷ rows) ≡ delete_ids ids rows
unfolding delete_ids
delete_ids-skip r ids rows h = rw h

pub delete_ids-head :
    (r : OutboxRow) (ids : List ℕ) (rows : List OutboxRow) (high : ℕ)
    → Ascends r.id rows high
    → delete_ids (r.id ∷ ids) (r ∷ rows) ≡ delete_ids ids rows
delete_ids-head r ids rows high a =
    delete_ids-skip r (r.id ∷ ids) rows (ground arith)
    ∙ delete_ids-below r.id ids r.id rows high (le_refl r.id) a

pub delete_ids-keep :
    (r : OutboxRow) (ids : List ℕ) (rows : List OutboxRow)
    → contains r.id ids ≡ false
    → delete_ids ids (r ∷ rows) ≡ r ∷ delete_ids ids rows
unfolding delete_ids
delete_ids-keep r ids rows h = rw h

abbrev pub delete_oldest : ℕ → List OutboxRow → List OutboxRow
delete_oldest n rows = delete_ids (ids_of (take n (filter is_pending rows))) rows

delete_oldest-step :
    (n : ℕ) (r : OutboxRow) (rows : List OutboxRow) (high : ℕ)
    → Ascends r.id rows high
    → delete_oldest (suc n) (r ∷ rows)
      ≡ (if is_pending r then delete_oldest n rows else r ∷ delete_oldest (suc n) rows)
delete_oldest-step n r rows high a = elim (Bool-cases (is_pending r)) [
  | inl queued ↦
      rw queued (delete_ids-head r (ids_of (take n (filter is_pending rows))) rows high a)
  | inr sent ↦ rw sent (
      delete_ids-keep r _ rows (
        contains-take r.id (suc n) r.id (filter is_pending rows) high (le_refl r.id)
          (Ascends-filter is_pending r.id rows high a)))
]

-- Deleting the oldest drops them from the front of the queue, and touches no published row.
pub delete_oldest_lem :
    (n low : ℕ) (rows : List OutboxRow) (high : ℕ)
    → Ascends low rows high
    → (filter is_pending (delete_oldest n rows) ≡ drop n (filter is_pending rows))
      × (filter is_published (delete_oldest n rows) ≡ filter is_published rows)
      × (length (delete_oldest n rows) + min n (length (filter is_pending rows)) ≡ length rows)
delete_oldest_lem zero low rows high a = rw (delete_ids-nil rows) (refl, refl, omega arith)
delete_oldest_lem (suc n) low [] high a = unfold delete_ids in (refl, refl, omega arith)
delete_oldest_lem (suc n) low (r ∷ rows) high a =
    rw (delete_oldest-step n r rows high a.1) (elim (Bool-cases (is_pending r)) [
      | inl queued ↦
          let (p, q, l) = delete_oldest_lem n r.id rows high a.1 in ground (arith, p, q, l)
      | inr sent ↦
          let (p, q, l) = delete_oldest_lem (suc n) r.id rows high a.1 in ground (arith, p, q, l)
    ])

pub Ascends-delete_ids :
    (ids : List ℕ) (low : ℕ) (rows : List OutboxRow) (high : ℕ)
    → Ascends low rows high
    → Ascends low (delete_ids ids rows) high
unfolding delete_ids
Ascends-delete_ids ids = Ascends-filter (λ r. not (contains r.id ids))
