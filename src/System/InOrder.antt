-- ===== src/System/InOrder.antt =====
-- Messages reach the broker in the order of their ids, whatever the two threads and the power do.
use mathlib.Core.Path.{subst}
use factoryfleet.Base.{ℕ, ◌≤◌, sym, arith, All}
use factoryfleet.Store.Queue.{queue, IsValid}
use factoryfleet.System.Order.{newest, IsInOrder, All-mono}
use factoryfleet.System.Safety.{IsSafe, initial-IsSafe, Step-IsSafe}
use factoryfleet.System.{System, initial, Step, Run, here, next}
use factoryfleet.Transport.Broker.{BrokerClient, IsConfirming}
use factoryfleet.System.Orderly.{
  IsOrderly, fetch-IsOrderly, confirm-IsOrderly, rests-IsOrderly, network-IsOrderly,
}
use factoryfleet.System.OrderlyStore.{
  miscount-IsOrderly, queue_entry-IsOrderly, mark-IsOrderly, record_state-IsOrderly,
  restart-IsOrderly, prune-IsOrderly,
}

Step-IsOrderly :
    {C : BrokerClient} {s t : System C} → Step C s t → IsValid s.store → IsOrderly s → IsOrderly t
Step-IsOrderly {s} (Step.record_state r e) v h =
    subst IsOrderly (sym e) (record_state-IsOrderly s h v r)
Step-IsOrderly {s} (Step.queue_entry now topic payload d e) v h =
    subst IsOrderly (sym e) (queue_entry-IsOrderly s h v now topic payload)
Step-IsOrderly {s} (Step.miscount n e) v h = subst IsOrderly (sym e) (miscount-IsOrderly s h v n)
Step-IsOrderly {s} (Step.fetch limit entries idle found e) v h =
    subst IsOrderly (sym e) (fetch-IsOrderly s h v limit entries idle found)
Step-IsOrderly {s} (Step.confirm now entry rest idle head ok e) v h =
    subst IsOrderly (sym e) (confirm-IsOrderly s h v now entry rest _ idle head)
Step-IsOrderly {s} (Step.refuse now entry rest idle head failed e) v h =
    subst IsOrderly (sym e) (rests-IsOrderly s h v _ idle)
Step-IsOrderly {s} (Step.mark now i d waiting e) v h =
    subst IsOrderly (sym e) (mark-IsOrderly s h v now i waiting)
Step-IsOrderly {s} (Step.prune now retain count store done e) v h =
    subst IsOrderly (sym e) (prune-IsOrderly s h v now retain count store done)
Step-IsOrderly {s} (Step.network client grows e) v h =
    subst IsOrderly (sym e) (network-IsOrderly s h v client)
Step-IsOrderly {s} (Step.restart client grows e) v h =
    subst IsOrderly (sym e) (restart-IsOrderly s h v client)

initial-IsOrderly :
    {C : BrokerClient} (cap : ℕ) (client : C.State) → IsOrderly (initial {C = C} cap client)
initial-IsOrderly cap client = record {
  in_order = tt;
  confirmed_given = omega arith;
  flight_climbs = tt;
  flight_given = tt;
  waiting = tt;
}

Run-IsOrderly :
    {C : BrokerClient} {s t : System C}
    → IsConfirming C
    → IsSafe s
    → IsOrderly s
    → Run C s t
    → IsSafe t × IsOrderly t
Run-IsOrderly L safe h here = (safe, h)
Run-IsOrderly L safe h (next run step) =
    let (safe', h') = Run-IsOrderly L safe h run in
    (Step-IsSafe L step safe', Step-IsOrderly step safe'.valid h')

-- With a broker client that keeps its contract, after any run of the two threads from an empty
-- store, with crashes and restarts at any point: no message is confirmed after one with a larger id,
-- so a message can at most be confirmed again directly after itself; and every row that still waits
-- is at least as new as the newest confirmed one.
pub Run-IsInOrder :
    {C : BrokerClient} (cap : ℕ) (client : C.State) (t : System C)
    → IsConfirming C
    → Run C (initial cap client) t
    → IsInOrder t.confirmed × All (λ r. newest t.confirmed ≤ r.id) (queue t.store)
Run-IsInOrder cap client t L run =
    let (safe, h) =
      Run-IsOrderly L (initial-IsSafe cap client) (initial-IsOrderly cap client) run in
    (h.in_order, All-mono (queue t.store) (λ r w. w.0) h.waiting)
