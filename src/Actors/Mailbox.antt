-- ===== src/Actors/Mailbox.antt =====
-- src/operator/actors/actor.rs, `HeapEntry` and the heap of pending messages. `BinaryHeap` pops a
-- greatest entry; among equal ones the standard library promises no order, and here it is the one
-- that was pushed last.
pub mod Order
use pulumi_rs_kube_operator.Base.{
  ℕ, suc, Bool, true, false, Option, none, some, List, [], ◌∷◌, ◌++◌, leb, if◌then◌else◌,
}
use pulumi_rs_kube_operator.Operator.Messages.{PrioritizedMessage, Priority, priority_value}

-- How urgent a message is: the entries of the heap are compared by this, in reverse.
abbrev pub value : PrioritizedMessage → ℕ
value m = priority_value m.priority

abbrev pub Heap : Type 0
Heap = List PrioritizedMessage

unfoldable pub push : PrioritizedMessage → Heap → Heap
push m heap = m ∷ heap

unfoldable pub pop : Heap → Option (PrioritizedMessage × Heap)
pop [] = none
pop (m ∷ ms) = elim (pop ms) [
  | none ↦ some (m, [])
  | some (b, rest) ↦ if leb (value m) (value b) then some (m, ms) else some (b, m ∷ rest)
]

-- The messages that are waiting, pushed in the order of their arrival.
unfoldable pub push_all : List PrioritizedMessage → Heap → Heap
unfolding push
push_all [] heap = heap
push_all (m ∷ ms) heap = push_all ms (push m heap)
