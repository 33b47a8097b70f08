-- ===== src/Operator/Connection/Uninterrupted.antt =====
-- src/operator/connection.rs: the pool while no two calls of `lend` interleave.
use pulumi_rs_kube_operator.Base.{
  ℕ, zero, suc, ◌<◌, subst, false, Option, none, some, Text, Instant, Duration, length, ◌≡◌, refl,
  arith, inl, inr, Option-cases,
}
use pulumi_rs_kube_operator.Operator.Connection.Lending.{
  entry-write, length-write, entry-some-lt, find_free_slot-lt, oldest_slot-lt,
}
use pulumi_rs_kube_operator.Operator.Connection.Leak.{find_free_slot-none}
use pulumi_rs_kube_operator.Operator.Connection.{
  Pool, entry, find_free_slot, slot_of, evict_idle, oldest_slot, claim_slot, lend_fast, lend_insert,
  lend, new_pool, free_slots, default_slab_size,
}
use pulumi_rs_kube_operator.Operator.Connection.Index.{slot_of-names_slot, slot_of-without_slot}
use pulumi_rs_kube_operator.Operator.Connection.Indexed.{
  occupied, Indexed, fill-Indexed, clear-Indexed, refill-Indexed,
}
use pulumi_rs_kube_operator.Operator.Connection.Evicted.{evict_idle-Indexed}

free_slots-free : (C : Type 0) (n i : ℕ) → occupied (free_slots {C = C} n) i ≡ false
unfolding free_slots entry
free_slots-free C zero i = refl
free_slots-free C (suc n) zero = refl
free_slots-free C (suc n) (suc i) = free_slots-free C n i

module _ {C : Type 0} where
  -- A slot to write to: it is free, and the address is not in the index.
  abbrev Claimed : Text → Option (ℕ × Pool C) → Type 0
  Claimed key none = Unit {0}
  Claimed key (some (i, q)) =
      (i < length q.entries)
      × (entry q.entries i ≡ none)
      × (slot_of key q.index ≡ none)
      × Indexed q.entries q.index

  claim_slot-Claimed :
      (now : Instant) (key : Text) (p : Pool C)
      → slot_of key p.index ≡ none
      → Indexed p.entries p.index
      → Claimed key (claim_slot now p)
  unfolding claim_slot
  claim_slot-Claimed now key p n ok = elim (Option-cases (find_free_slot p.entries)) [
    | inr (j, f) ↦
        rw (claim_slot, f)
          (find_free_slot-lt p.entries j f, find_free_slot-none p.entries j f, n, ok)
    | inl m ↦ elim (Option-cases (oldest_slot p.entries p.index now none)) [
      | inl o ↦ rw (claim_slot, m, o) tt
      | inr (j, f) ↦
          let l = oldest_slot-lt p.entries p.index now none j (λ k e. absurd (ground arith)) f in
          rw (claim_slot, m, f)
            (
              omega (arith, l, length-write p.entries j none),
              entry-write p.entries j none l,
              slot_of-without_slot key j p.index n,
              clear-Indexed p.entries p.index j l ok,
            )
    ]
  ]

  lend_insert-Indexed :
      (now : Instant) (key : Text) (c : C) (p : Pool C)
      → slot_of key p.index ≡ none
      → Indexed p.entries p.index
      → Indexed (lend_insert now key c p).1.entries (lend_insert now key c p).1.index
  unfolding lend_insert
  lend_insert-Indexed now key c p n ok = elim (Option-cases (claim_slot now p)) [
    | inl m ↦ rw (lend_insert, m) ok
    | inr ((s, q), f) ↦
        let (l, free, new_pool, kept) : Claimed key (some (s, q)) =
          subst (Claimed key) f (claim_slot-Claimed now key p n ok) in
        rw (lend_insert, f) (fill-Indexed q.entries q.index key s _ l free new_pool kept)
  ]

  lend-Indexed :
      (now : Instant) (key : Text) (connect : Option C) (p : Pool C)
      → Indexed p.entries p.index
      → Indexed (lend now key connect p).1.entries (lend now key connect p).1.index
  unfolding lend lend_fast
  lend-Indexed now key connect p ok = elim (Option-cases (slot_of key p.index)) [
    | inl n ↦ elim (Option-cases connect) [
      | inl m ↦ rw (lend, lend_fast, n, m) ok
      | inr (c, m) ↦ rw (lend, lend_fast, n, m) (lend_insert-Indexed now key c p n ok)
    ]
    | inr (s, f) ↦
        let r = slot_of-names_slot key s p.index f in
        elim (Option-cases (entry p.entries s)) [
          | inl m ↦ let o = ok.sound s r in absurd (ground arith)
          | inr (e, m) ↦
              rw (lend, lend_fast, f, m)
                (refill-Indexed p.entries p.index s _ (entry-some-lt p.entries s m) r ok)
        ]
  ]

  -- What the calls of the pool do that no other call interrupts.
  pub data PoolStep (max_idle : Duration) : Pool C → Pool C → Type 0 where
    lent :
        (now : Instant) (key : Text) (connect : Option C) (p : Pool C)
        → PoolStep max_idle p (lend now key connect p).1
    evicted : (now : Instant) (p : Pool C) → PoolStep max_idle p (evict_idle now p)

  pub data PoolReach (max_idle : Duration) : Pool C → Type 0 where
    created : PoolReach max_idle (new_pool max_idle)
    next : {p q : Pool C} → PoolReach max_idle p → PoolStep max_idle p q → PoolReach max_idle q

  -- While no two calls of `lend` interleave, in every state that the pool reaches by lending and
  -- eviction each address of the index has a slot of its own with a connection in it, and each
  -- connection is in the slot of an address, so that eviction can reach it.
  pub PoolReach-Indexed :
      (max_idle : Duration) {p : Pool C} → PoolReach max_idle p → Indexed p.entries p.index
  unfolding new_pool
  PoolReach-Indexed max_idle created = record {
    distinct = tt;
    sound = λ i r. absurd (ground arith);
    covered = λ i o. let f = free_slots-free C default_slab_size i in absurd (ground arith);
  }
  PoolReach-Indexed max_idle (next r (lent now key connect p)) =
      lend-Indexed now key connect p (PoolReach-Indexed max_idle r)
  PoolReach-Indexed max_idle (next r (evicted now p)) =
      evict_idle-Indexed now p (PoolReach-Indexed max_idle r)
