-- ===== src/Actors/Mailbox/Order.antt =====
-- src/operator/actors/actor.rs: the order in which the heap gives its messages back.
use pulumi_rs_kube_operator.Base.{
  ℕ, suc, Bool, Option, none, some, [], ◌∷◌, ◌≡◌, refl, arith, ◌≤◌, ◌+◌, leb, leb→le, if_elim,
  if◌then◌else◌, tests, length, count,
}
use pulumi_rs_kube_operator.Operator.Messages.{PrioritizedMessage}
use pulumi_rs_kube_operator.Actors.Mailbox.{Heap, value, pop}

-- Every message of the heap is at most as urgent as a message with the given value.
abbrev pub AllFrom : ℕ → Heap → Type 0
AllFrom v [] = Unit {0}
AllFrom v (m ∷ ms) = (v ≤ value m) × AllFrom v ms

AllFrom-weaken : (v w : ℕ) (heap : Heap) → w ≤ v → AllFrom v heap → AllFrom w heap
AllFrom-weaken v w [] h a = tt
AllFrom-weaken v w (m ∷ ms) h (l, a) = (omega arith, AllFrom-weaken v w ms h a)

pub data Popped (heap : Heap) : Option (PrioritizedMessage × Heap) → Type 0 where
  empty : heap ≡ [] → Popped heap none
  popped :
      (b : PrioritizedMessage) (rest : Heap)
      → AllFrom (value b) heap
      → length heap ≡ suc (length rest)
      → ((p : PrioritizedMessage → Bool) → count p heap ≡ count p (b ∷ []) + count p rest)
      → ((v : ℕ) → AllFrom v heap → AllFrom v (b ∷ rest))
      → Popped heap (some (b, rest))

pub count-cons :
    (p : PrioritizedMessage → Bool) (m : PrioritizedMessage) (ms : Heap)
    → count p (m ∷ ms) ≡ count p (m ∷ []) + count p ms
count-cons p m ms = ground arith

-- The step of `pop` at a heap with a first message, from what the rest gives.
pop_cons :
    (m : PrioritizedMessage) (ms : Heap) (r : Option (PrioritizedMessage × Heap))
    → Popped ms r
    → Popped (m ∷ ms) (elim r [
      | none ↦ some (m, [])
      | some (b, rest) ↦ if leb (value m) (value b) then some (m, ms) else some (b, m ∷ rest)
    ])
pop_cons m ms none (empty e) =
    popped m [] (omega arith, rw e tt) (rw e refl) (λ p. rw e (count-cons p m []))
      (λ v (l, a). (l, tt))
pop_cons m ms (some (b, rest)) (popped _ _ a n c f) =
    if_elim (Popped (m ∷ ms)) (leb (value m) (value b))
      (λ l.
        popped m ms (omega arith, AllFrom-weaken _ _ ms (leb→le _ _ l) a) refl
          (λ p. count-cons p m ms) (λ v a. a))
      (λ l.
        popped b (m ∷ rest) (grind tests, a) (omega arith)
          (λ p. omega (arith, c p, count-cons p m ms, count-cons p m rest))
          (λ v (l, a). let (x, y) = f v a in (x, (l, y))))

-- What `pop` gives back is a message that no other one precedes, and the heap that is left has the
-- other messages, each as often as before; only an empty heap gives nothing.
pub pop-most_urgent : (heap : Heap) → Popped heap (pop heap)
unfolding pop
pop-most_urgent [] = empty refl
pop-most_urgent (m ∷ ms) = pop_cons m ms (pop ms) (pop-most_urgent ms)
