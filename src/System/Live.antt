-- ===== src/System/Live.antt =====
-- The two threads over a store that an earlier run has left: whatever they do, it stays valid.
use mathlib.Core.List.{nil-sublist}
use factoryfleet.Base.{
  ℕ, zero, suc, ◌≤◌, ◌≡◌, true, none, List, [], ◌∷◌, arith, contains, ◌==◌, Bool-cases, inl, inr,
  ◌||◌, if◌then◌else◌, ==_iff, refl,
}
use factoryfleet.Store.Queue.{queue, IsValid}
use factoryfleet.Store.Table.{ids_of}
use factoryfleet.Store.Types.{Store}
use factoryfleet.System.{System, Run, zeros}
use factoryfleet.System.Safe.{length-zeros}
use factoryfleet.System.Safety.{IsSafe, Run-keeps}
use factoryfleet.Transport.Broker.{BrokerClient, IsConfirming}

-- The ids from 1 to n that do not wait.
abbrev settled : List ℕ → ℕ → List ℕ
settled waiting zero = []
settled waiting (suc n) =
    let rest = settled waiting n in if contains (suc n) waiting then rest else suc n ∷ rest

-- The threads begin on this store. Of what was before, the record of the run knows only the rows: an
-- id that does not wait counts as confirmed, and one that waits has yet to be accounted for.
abbrev pub live : {C : BrokerClient} → Store → C.State → System C
live store client = record {
  store = store;
  client = client;
  in_flight = [];
  unmarked = none;
  confirmed = settled (ids_of (queue store)) store.sequence;
  delivered = [];
  dropped = zeros store.dropped_entries;
  counted_before = 0;
}

contains-settled :
    (waiting : List ℕ) (i n : ℕ)
    → 1 ≤ i
    → i ≤ n
    → (contains i waiting || contains i (settled waiting n)) ≡ true
contains-settled waiting i zero low high = absurd (omega (arith, low, high))
contains-settled waiting i (suc n) low high = elim (Bool-cases (i == suc n)) [
  | inl last ↦ elim (Bool-cases (contains (suc n) waiting)) [
    | inl waits ↦ let same = ==_iff i (suc n) in rw (same.0 last, waits) refl
    | inr gone ↦ rw gone (ground (arith, last))
  ]
  | inr other ↦
      let below : i ≤ n = ground (arith, other, high) in
      let found = contains-settled waiting i n low below in
      elim (Bool-cases (contains (suc n) waiting)) [
        | inl waits ↦ rw waits found
        | inr gone ↦ rw gone (ground (arith, found, other))
      ]
]

pub live-IsSafe :
    {C : BrokerClient} (store : Store) (client : C.State)
    → IsValid store
    → IsSafe (live {C = C} store client)
live-IsSafe store client v = record {
  valid = v;
  marks_confirmed = λ i e. cc;
  accounted = λ i low high.
      ground (arith, contains-settled (ids_of (queue store)) i store.sequence low high);
  drops_counted = omega (arith, length-zeros store.dropped_entries);
  received = nil-sublist _;
}

-- Over a valid store, with a broker client that keeps its contract.
pub Run-IsValid :
    {C : BrokerClient} (store : Store) (client : C.State) (t : System C)
    → IsConfirming C
    → IsValid store
    → Run C (live store client) t
    → IsValid t.store
Run-IsValid store client t L v run = (Run-keeps L (live-IsSafe store client v) run).valid
