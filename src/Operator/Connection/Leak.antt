-- ===== src/Operator/Connection/Leak.antt =====
-- src/operator/connection.rs, `lend`: two calls for one address that both find no connection.
use pulumi_rs_kube_operator.Base.{
  ℕ, zero, suc, ◌-◌, ◌<◌, subst, Bool, false, ◌||◌, Option, none, some, [], ◌∷◌, Text, text_eq,
  text_eq_self, Instant, Duration, length, leb, ◌≡◌, ◌≢◌, refl, arith, if_elim, inl, inr,
  Option-cases, Bool-cases, ◌==◌, ◌∙◌,
}
use pulumi_rs_kube_operator.Operator.Connection.Lending.{entry-write}
use pulumi_rs_kube_operator.Operator.Connection.{
  PoolEntry, Slots, Index, Pool, entry, write, find_free_slot, insert, drop_idle, evict_idle,
  claim_slot, lend_insert,
}

-- The index names the slot.
abbrev pub names_slot : ℕ → Index → Bool
names_slot i [] = false
names_slot i ((k, s) ∷ rest) = s == i || names_slot i rest

names_slot-insert-twice :
    (key : Text) (i j : ℕ) (index : Index)
    → names_slot i index ≡ false
    → j ≢ i
    → names_slot i (insert key j (insert key i index)) ≡ false
unfolding insert
names_slot-insert-twice key i j [] r n = rw (text_eq_self key) (ground arith)
names_slot-insert-twice key i j ((k, s) ∷ rest) r n = elim (Bool-cases (text_eq k key)) [
  | inl e ↦ rw (e, text_eq_self key) (ground arith)
  | inr e ↦ rw (e, e) (ground (arith, names_slot-insert-twice key i j rest (ground arith) n))
]

module _ {C : Type 0} where
  pub entry-write-other :
      (es : Slots C) (i j : ℕ) (v : Option (PoolEntry C))
      → j ≢ i
      → entry (write es j v) i ≡ entry es i
  unfolding entry write
  entry-write-other [] i j v n = refl
  entry-write-other (e ∷ es) zero zero v n = absurd (n refl)
  entry-write-other (e ∷ es) zero (suc j) v n = refl
  entry-write-other (e ∷ es) (suc i) zero v n = refl
  entry-write-other (e ∷ es) (suc i) (suc j) v n =
      entry-write-other es i j v (λ e. n (omega (arith, e)))

  drop_idle-unindexed :
      (now : Instant) (max_idle : Duration) (index : Index) (es : Slots C) (i : ℕ)
      → names_slot i index ≡ false
      → entry (drop_idle now max_idle index es) i ≡ entry es i
  unfolding drop_idle
  drop_idle-unindexed now max_idle [] es i r = refl
  drop_idle-unindexed now max_idle ((k, s) ∷ rest) es i r = elim (Option-cases (entry es s)) [
    | inl n ↦ rw (drop_idle, n) (drop_idle-unindexed now max_idle rest es i (ground arith))
    | inr (e, f) ↦
        rw (drop_idle, f)
          (drop_idle-unindexed now max_idle rest _ i (ground arith)
            ∙ if_elim {A = Slots C} (λ x. entry x i ≡ entry es i) (leb max_idle (now - e.last_used))
                (λ _. entry-write-other es i s none (ground arith)) (λ _. refl))
  ]

  pub find_free_slot-none : (es : Slots C) (i : ℕ) → find_free_slot es ≡ some i → entry es i ≡ none
  unfolding find_free_slot entry
  find_free_slot-none [] i e = refl
  find_free_slot-none (none ∷ es) zero e = refl
  find_free_slot-none (none ∷ es) (suc i) e = absurd (ground arith)
  find_free_slot-none (some x ∷ es) i e = elim (Option-cases (find_free_slot es)) [
    | inl n ↦ let e' = rw (find_free_slot, n) at e in absurd (ground arith)
    | inr (j, f) ↦
        let e' = rw (find_free_slot, f) at e in
        let h : suc j ≡ i = ground arith in
        subst (λ k. entry (some x ∷ es) k ≡ none) h (find_free_slot-none es j f)
  ]

  abbrev pub used : C → Instant → Option (PoolEntry C)
  used c t = some (record { channel = c; last_used = t })

  lend_insert-free :
      (t : Instant) (key : Text) (c : C) (p : Pool C) (i : ℕ)
      → find_free_slot p.entries ≡ some i
      → (lend_insert t key c p).1
        ≡ record p { entries = write p.entries i (used c t); index = insert key i p.index }
  unfolding lend_insert claim_slot
  lend_insert-free t key c p i f = rw (lend_insert, claim_slot, f) refl

  -- A slot that holds a connection, that the index does not name, and that eviction never clears.
  pub record Leaked (c : C) (t : Instant) (i : ℕ) (q : Pool C) : Type 0 where
    pub unindexed : names_slot i q.index ≡ false
    pub occupied : entry q.entries i ≡ some (record { channel = c; last_used = t })
    pub kept :
        (now : Instant)
        → entry (evict_idle now q).entries i ≡ some (record { channel = c; last_used = t })

  leaked :
      (c : C) (t : Instant) (i : ℕ) (q : Pool C)
      → names_slot i q.index ≡ false
      → entry q.entries i ≡ used c t
      → Leaked c t i q
  unfolding evict_idle
  leaked c t i q r o = record {
    unindexed = r;
    occupied = o;
    kept = λ now. drop_idle-unindexed now q.max_idle q.index q.entries i r ∙ o;
  }

  -- Two calls for one address that both connect and enter their connections, in two slots that were
  -- free, leave the first connection in a slot that the index does not name and that eviction never
  -- clears.
  pub lend_insert-Leaked :
      (t1 t2 : Instant) (key : Text) (c1 c2 : C) (p : Pool C) {i j : ℕ}
      → names_slot i p.index ≡ false
      → i < length p.entries
      → find_free_slot p.entries ≡ some i
      → find_free_slot (write p.entries i (used c1 t1)) ≡ some j
      → Leaked c1 t1 i (lend_insert t2 key c2 (lend_insert t1 key c1 p).1).1
  lend_insert-Leaked t1 t2 key c1 c2 p {i} {j} r l f g =
      let first = entry-write p.entries i (used c1 t1) l in
      let n : j ≢ i = λ e.
        let empty =
          subst (λ k. entry (write p.entries i (used c1 t1)) k ≡ none) e
            (find_free_slot-none _ j g) in
        absurd (ground arith) in
      rw
        (
          lend_insert-free t1 key c1 p i f,
          lend_insert-free t2 key c2
              (record p { entries = write p.entries i (used c1 t1); index = insert key i p.index })
              j g,
        )
        (leaked c1 t1 i _ (names_slot-insert-twice key i j p.index r n)
          (entry-write-other (write p.entries i (used c1 t1)) i j (used c2 t2) n ∙ first))
