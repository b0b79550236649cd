-- ===== src/Store/Batches.antt =====
-- Confirming ids one call at a time is confirming them at once.
use mathlib.Core.Path.{ap₂}
use factoryfleet.Base.{
  String, ℕ, ◌+◌, ◌≡◌, refl, ap, List, [], ◌∷◌, ◌++◌, map, arith, length, filter, contains, ◌||◌,
}
use factoryfleet.Store.Outbox.{is_marked, mark_row, mark_published}
use factoryfleet.Store.Table.{OutboxRow}
use factoryfleet.Store.Types.{Store}
use factoryfleet.Timeutil.{Datetime, iso}

contains-append : (i : ℕ) (a b : List ℕ) → contains i (a ++ b) ≡ (contains i a || contains i b)
contains-append i [] b = refl
contains-append i (j ∷ a) b = ground (arith, contains-append i a b)

map-mark_row-nil : (stamp : String) (rows : List OutboxRow) → map (mark_row stamp []) rows ≡ rows
map-mark_row-nil stamp [] = refl
map-mark_row-nil stamp (r ∷ rows) = ap (λ rs. r ∷ rs) (map-mark_row-nil stamp rows)

filter-is_marked-nil : (rows : List OutboxRow) → length (filter (is_marked []) rows) ≡ 0
filter-is_marked-nil [] = refl
filter-is_marked-nil (r ∷ rows) = filter-is_marked-nil rows

-- Both clauses of `mark_published` as one equation.
mark_published_lem :
    (now : Datetime) (ids : List ℕ) (s : Store)
    → mark_published now ids s ≡ (
      length (filter (is_marked ids) s.outbox),
      record s { database = record s.database { outbox = map (mark_row (iso now) ids) s.outbox } },
    )
unfolding mark_published
mark_published_lem now [] s =
    rw (filter-is_marked-nil s.outbox, map-mark_row-nil (iso now) s.outbox) refl
mark_published_lem now (i ∷ ids) s = refl

module _ (stamp : String) (a b : List ℕ) where
  mark_row-append :
      (r : OutboxRow) → mark_row stamp (a ++ b) r ≡ mark_row stamp b (mark_row stamp a r)
  mark_row-append r = ground (arith, contains-append r.id a b)

  map-mark_row-append :
      (rows : List OutboxRow)
      → map (mark_row stamp (a ++ b)) rows ≡ map (mark_row stamp b) (map (mark_row stamp a) rows)
  map-mark_row-append [] = refl
  map-mark_row-append (r ∷ rows) =
      ap₂ (λ q qs. q ∷ qs) (mark_row-append r) (map-mark_row-append rows)

  count-append :
      (rows : List OutboxRow)
      → length (filter (is_marked (a ++ b)) rows)
        ≡ length (filter (is_marked a) rows)
          + length (filter (is_marked b) (map (mark_row stamp a) rows))
  count-append [] = omega arith
  count-append (r ∷ rows) = ground (arith, count-append rows, contains-append r.id a b)

-- Confirming some ids in two calls at one instant leaves the store that one call on all of them
-- leaves, and the two results add up to its result: an id that both name is counted once.
pub mark_published-append :
    (now : Datetime) (a b : List ℕ) (s : Store)
    → mark_published now (a ++ b) s
      ≡ (let (n, t) = mark_published now a s in let (m, u) = mark_published now b t in (n + m, u))
mark_published-append now a b s =
    rw
      (
        mark_published_lem now (a ++ b) s,
        mark_published_lem now a s,
        mark_published_lem now b (record s {
          database = record s.database { outbox = map (mark_row (iso now) a) s.outbox };
        }),
        count-append (iso now) a b s.outbox,
        map-mark_row-append (iso now) a b s.outbox,
      )
      refl
