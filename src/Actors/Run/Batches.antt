-- ===== src/Actors/Run/Batches.antt =====
-- src/operator/actors/actor.rs, `run`: the order in which a batch of messages is handled.
use pulumi_rs_kube_operator.Base.{
  ℕ, zero, suc, ◌+◌, ◌≤◌, Bool, Option, none, some, List, [], ◌∷◌, length, count, ◌≡◌, refl, arith,
}
use pulumi_rs_kube_operator.Operator.Messages.{PrioritizedMessage}
use pulumi_rs_kube_operator.Operator.Effects.{M, History, pure, ◌>>=◌}
use pulumi_rs_kube_operator.Actors.State.{ActorState}
use pulumi_rs_kube_operator.Actors.Mailbox.{Heap, value, pop, push_all, push}
use pulumi_rs_kube_operator.Actors.Mailbox.Order.{
  AllFrom, Popped, empty, popped, pop-most_urgent, count-cons,
}
use pulumi_rs_kube_operator.Actors.Run.{Exit, running, stopped, aborted, after, process}

-- A list of messages, none less urgent than a later one.
abbrev pub Ordered : List PrioritizedMessage → Type 0
Ordered [] = Unit {0}
Ordered (m ∷ ms) = AllFrom (value m) ms × Ordered ms

length-push_all : (ms heap : Heap) → length (push_all ms heap) ≡ length ms + length heap
unfolding push_all push
length-push_all [] heap = omega arith
length-push_all (m ∷ ms) heap = omega (arith, length-push_all ms (m ∷ heap))

count-push_all :
    (p : PrioritizedMessage → Bool) (ms heap : Heap)
    → count p (push_all ms heap) ≡ count p ms + count p heap
unfolding push_all push
count-push_all p [] heap = omega arith
count-push_all p (m ∷ ms) heap =
    omega (arith, count-push_all p ms (m ∷ heap), count-cons p m ms, count-cons p m heap)

module _ (handle : ActorState → PrioritizedMessage → M Exit) where
  -- The messages of a list, one after the other, unless one ends the actor.
  unfoldable pub in_turn : List PrioritizedMessage → ActorState → M Exit
  in_turn [] st = pure (running st)
  in_turn (m ∷ ms) st = handle st m >>= λ exit. after handle exit (in_turn ms)

  -- The run of a heap: the order of its messages, each once, and what the loop does with it.
  pub record Processed (fuel : ℕ) (heap : Heap) : Type 0 where
    pub order : List PrioritizedMessage
    pub ordered : Ordered order
    pub same : (p : PrioritizedMessage → Bool) → count p order ≡ count p heap
    pub from : (v : ℕ) → AllFrom v heap → AllFrom v order
    pub run : (st : ActorState) (h : History) → process handle fuel heap st h ≡ in_turn order st h

  after_ext :
      (exit : Exit) (f g : ActorState → M Exit) (h : History)
      → ((st : ActorState) (h' : History) → f st h' ≡ g st h')
      → after handle exit f h ≡ after handle exit g h
  after_ext (running st) f g h e = e st h
  after_ext stopped f g h e = refl
  after_ext aborted f g h e = refl

  step-Processed :
      (fuel : ℕ) (heap : Heap) (r : Option (PrioritizedMessage × Heap))
      → pop heap ≡ r
      → Popped heap r
      → ((rest : Heap) → length rest ≤ fuel → Processed fuel rest)
      → length heap ≤ suc fuel
      → Processed (suc fuel) heap
  unfolding process in_turn
  step-Processed fuel heap none e (empty n) ih l = record {
    order = [];
    ordered = tt;
    same = λ p. rw n refl;
    from = λ v a. tt;
    run = λ st h. rw (process, e) refl;
  }
  step-Processed fuel heap (some (b, rest)) e (popped _ _ a n c f) ih l =
      let rest_run = ih rest (omega arith) in
      record {
        order = b ∷ rest_run.order;
        ordered = (rest_run.from (value b) (f (value b) a).1, rest_run.ordered);
        same = λ p. omega (arith, c p, rest_run.same p, count-cons p b rest_run.order);
        from = λ v a'. ((f v a').0, rest_run.from v (f v a').1);
        run = λ st h.
            rw (process, e)
              (after_ext (handle st b h).0 (process handle fuel rest) (in_turn rest_run.order)
                (handle st b h).1 rest_run.run);
      }

  process-Processed : (fuel : ℕ) (heap : Heap) → length heap ≤ fuel → Processed fuel heap
  unfolding process in_turn
  process-Processed zero [] l = record {
    order = [];
    ordered = tt;
    same = λ p. refl;
    from = λ v a. tt;
    run = λ st h. refl;
  }
  process-Processed zero (m ∷ ms) l = absurd (omega arith)
  process-Processed (suc fuel) heap l =
      step-Processed fuel heap (pop heap) refl (pop-most_urgent heap) (process-Processed fuel) l

  -- How a batch is handled: in an order of its messages, each once, the more urgent ones first.
  pub record Handled (batch : List PrioritizedMessage) : Type 0 where
    pub order : List PrioritizedMessage
    pub ordered : Ordered order
    pub same : (p : PrioritizedMessage → Bool) → count p order ≡ count p batch
    pub run :
        (st : ActorState) (h : History)
        → process handle (length batch) (push_all batch []) st h ≡ in_turn order st h

  -- A batch that the actor drains is handled to its end, in an order in which no message comes
  -- before a more urgent one, and each message of the batch is in that order as often as it was
  -- sent; only a message that ends the actor keeps the later ones from being handled.
  pub batch-Handled : (batch : List PrioritizedMessage) → Handled batch
  batch-Handled batch =
      let r =
        process-Processed (length batch) (push_all batch [])
          (omega (arith, length-push_all batch [])) in
      record {
        order = r.order;
        ordered = r.ordered;
        same = λ p. omega (arith, r.same p, count-push_all p batch []);
        run = r.run;
      }
