-- ===== src/System/Safety.antt =====
-- Nothing is lost silently, whatever the two threads, the broker and the power do.
pub use factoryfleet.System.Safe.{IsSafe}
use factoryfleet.System.SafeSteps.{
  miscount-IsSafe, queue_entry-IsSafe, mark-IsSafe, prune-IsSafe, record_state-IsSafe,
  restart-IsSafe, confirm-IsSafe, client-IsSafe,
}
use mathlib.Core.List.{nil-sublist}
use mathlib.Core.Path.{subst}
use mathlib.Core.List.Sublist
use factoryfleet.Base.{ℕ, sym, [], arith, String}
use factoryfleet.Json.{Fields}
use factoryfleet.Store.Queue.{IsValid}
use factoryfleet.System.Cut.{Survives, IsSafe-Survives}
use factoryfleet.Timeutil.{Datetime, IsDatetime}
use factoryfleet.Store.Types.{new_store}
use factoryfleet.System.{System, initial, Step, Run, here, next}
use factoryfleet.Transport.Broker.{BrokerClient, IsConfirming}
use factoryfleet.Wire.{stamp_sent}

IsValid-new_store : (cap : ℕ) → IsValid (new_store cap)
IsValid-new_store cap = omega arith

pub initial-IsSafe :
    {C : BrokerClient} (cap : ℕ) (client : C.State) → IsSafe (initial {C = C} cap client)
initial-IsSafe cap client = record {
  valid = IsValid-new_store cap;
  marks_confirmed = λ i e. cc;
  accounted = λ i low high. absurd (omega arith);
  drops_counted = omega arith;
  received = nil-sublist _;
}

-- Every step keeps the account.
pub Step-IsSafe :
    {C : BrokerClient} {s t : System C} → IsConfirming C → Step C s t → IsSafe s → IsSafe t
Step-IsSafe {s} L (Step.record_state r e) h = subst IsSafe (sym e) (record_state-IsSafe s h r)
Step-IsSafe {s} L (Step.queue_entry now topic payload v e) h =
    subst IsSafe (sym e) (queue_entry-IsSafe s h now topic payload v)
Step-IsSafe {s} L (Step.miscount n e) h = subst IsSafe (sym e) (miscount-IsSafe s h n)
Step-IsSafe {s} L (Step.fetch limit entries idle found e) h =
    subst IsSafe (sym e) (client-IsSafe s h s.client entries (Sublist.refl _))
Step-IsSafe {s} L (Step.confirm now entry rest idle head ok e) h =
    subst IsSafe (sym e) (confirm-IsSafe s h L now entry rest ok)
Step-IsSafe {s} L (Step.refuse now entry rest idle head failed e) h =
    subst IsSafe (sym e)
      (client-IsSafe s h _ [] (L.publish-keeps entry.topic (stamp_sent entry.payload now) s.client))
Step-IsSafe {s} L (Step.mark now i v waiting e) h =
    subst IsSafe (sym e) (mark-IsSafe s h now i v waiting)
Step-IsSafe {s} L (Step.prune now retain count store done e) h =
    subst IsSafe (sym e) (prune-IsSafe s h now retain count store done)
Step-IsSafe {s} L (Step.network client grows e) h =
    subst IsSafe (sym e) (client-IsSafe s h client s.in_flight grows)
Step-IsSafe {s} L (Step.restart client grows e) h =
    subst IsSafe (sym e) (restart-IsSafe s h client grows)

pub Run-keeps :
    {C : BrokerClient} {s t : System C} → IsConfirming C → IsSafe s → Run C s t → IsSafe t
Run-keeps L h here = h
Run-keeps L h (next run step) = Step-IsSafe L step (Run-keeps L h run)

-- With a broker client that keeps its contract, after any run of the two threads from an empty
-- store, with crashes and restarts between any two steps, where the two statements that queue an
-- entry are one step, as they are in the transaction of a cycle: every id that was ever given is
-- waiting in the outbox, was confirmed by the broker, or was dropped by the cap; the drops were
-- counted, and a COMMIT that fails can only add to their count; an id that is about to be marked was
-- confirmed; the broker has received every confirmed message, in the order in which they were
-- confirmed; and the store's invariant holds. No transaction holds the two statements together that
-- queue the registration: a power loss after its INSERT, at any point of such a run, leaves at most
-- one entry more than the cap and every id accounted for, and all of the above holds again once the
-- next process has queued its registration; one after its DELETE leaves a valid store and every id
-- accounted for, but the drops are in no counter.
pub Run-IsSafe :
    {C : BrokerClient} (cap : ℕ) (client : C.State) (t : System C)
    → IsConfirming C
    → Run C (initial cap client) t
    → IsSafe t
      × ((now : Datetime) (topic : String) (payload : Fields)
          → IsDatetime now
          → Survives t now topic payload)
Run-IsSafe cap client t L run =
    let safe = Run-keeps L (initial-IsSafe cap client) run in
    (safe, λ now topic payload v. IsSafe-Survives t now topic payload safe v)
