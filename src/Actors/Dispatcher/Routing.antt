-- ===== src/Actors/Dispatcher/Routing.antt =====
-- src/operator/actors/dispatcher.rs, `dispatch_with_priority`: one actor for each key.
use mathlib.Core.Bool.{◌&&◌}
use pulumi_rs_kube_operator.Base.{
  ℕ, ◌≤◌, Bool, true, false, [], ◌∷◌, ◌≡◌, refl, arith, count, text_eq→eq, text_eq_self, Bool-cases,
  inl, inr, subst,
}
use pulumi_rs_kube_operator.Operator.Messages.{NameKey, PrioritizedMessage, Priority, StackMessage}
use pulumi_rs_kube_operator.Actors.Dispatcher.{
  Actors, key_eq, Sent, send, send_to, live, dispatch_with_priority,
}

-- How many actors have the key.
abbrev pub actors_of : {Mailbox : Type 0} → NameKey → Actors Mailbox → ℕ
actors_of key actors = count (λ e. key_eq e.0 key) actors

key_eq_self : (k : NameKey) → key_eq k k ≡ true
unfolding key_eq
key_eq_self k = rw (text_eq_self k.ns, text_eq_self k.name) refl

and_both : (a b : Bool) → a && b ≡ true → (a ≡ true) × (b ≡ true)
and_both a b e = ground arith

key_eq→eq : (j k : NameKey) → key_eq j k ≡ true → j ≡ k
unfolding key_eq
key_eq→eq j k e =
    let (a, b) = and_both _ _ e in
    let n = text_eq→eq j.ns k.ns a in let m = text_eq→eq j.name k.name b in rw (n, m) refl

module _ {Mailbox : Type 0} (channel : ℕ → Mailbox)
    (try_send : PrioritizedMessage → Mailbox → Sent × Mailbox) where
  -- The key that is sent to has an actor afterwards, and no second one.
  send_to-own :
      (key : NameKey) (m : PrioritizedMessage) (actors : Actors Mailbox)
      → actors_of key actors ≤ 1
      → actors_of key (send_to channel try_send key m actors).1 ≡ 1
  unfolding send_to send
  send_to-own key m [] l = rw (key_eq_self key) refl
  send_to-own key m ((k, a) ∷ rest) l = elim (Bool-cases (key_eq k key)) [
    | inl e ↦ let l' = rw e at l in rw (e, e) (omega arith)
    | inr e ↦ let l' = rw e at l in rw (e, e) (send_to-own key m rest l')
  ]

  send_to-other :
      (key k : NameKey) (m : PrioritizedMessage) (actors : Actors Mailbox)
      → key_eq key k ≡ false
      → actors_of k (send_to channel try_send key m actors).1 ≡ actors_of k actors
  unfolding send_to send
  send_to-other key k m [] n = rw n refl
  send_to-other key k m ((j, a) ∷ rest) n = elim (Bool-cases (key_eq j key)) [
    | inl e ↦ rw e refl
    | inr e ↦ rw (e, send_to-other key k m rest n) refl
  ]

  live-le : (k : NameKey) (actors : Actors Mailbox) → actors_of k (live actors) ≤ actors_of k actors
  unfolding live
  live-le k [] = omega arith
  live-le k (e ∷ rest) = let h = live-le k rest in ground arith

  -- Dispatching keeps at most one actor for each key, and the key of the message has one.
  pub dispatch-actors_of :
      (key : NameKey) (priority : Priority) (msg : StackMessage) (actors : Actors Mailbox)
      → ((k : NameKey) → actors_of k actors ≤ 1)
      → (actors_of key (dispatch_with_priority channel try_send key priority msg actors).1 ≡ 1)
        × ((k : NameKey)
            → actors_of k (dispatch_with_priority channel try_send key priority msg actors).1 ≤ 1)
  unfolding dispatch_with_priority
  dispatch-actors_of key priority msg actors o =
      let kept = live-le key actors in
      let own = send_to-own key _ (live actors) (omega (arith, kept, o key)) in
      (
        own,
        λ k. elim (Bool-cases (key_eq key k)) [
          | inl e ↦
              subst
                (λ j.
                  actors_of j (dispatch_with_priority channel try_send key priority msg actors).1
                  ≤ 1)
                (key_eq→eq key k e) (omega (arith, own))
          | inr n ↦ omega (arith, send_to-other key k _ (live actors) n, live-le k actors, o k)
        ],
      )
