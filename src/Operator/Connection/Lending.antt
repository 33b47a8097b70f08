-- ===== src/Operator/Connection/Lending.antt =====
-- src/operator/connection.rs, `lend`: what is found again, and what the slots keep.
use pulumi_rs_kube_operator.Base.{
  ℕ, zero, suc, ◌<◌, Option, none, some, [], ◌∷◌, Result, ok, err, Text, text_eq, text_eq_self,
  Instant, length, ◌≡◌, refl, arith, if_elim, inl, inr, Option-cases, Bool-cases, ltb, subst,
}
use pulumi_rs_kube_operator.Errors.{OperatorError}
use pulumi_rs_kube_operator.Operator.Connection.{
  PoolEntry, Slots, Index, Pool, entry, write, find_free_slot, slot_of, insert, oldest_slot,
  claim_slot, lend_fast, lend_insert, lend,
}

slot_of-insert :
    (key : Text) (slot : ℕ) (index : Index) → slot_of key (insert key slot index) ≡ some slot
unfolding slot_of insert
slot_of-insert key slot [] = rw (slot_of, text_eq_self key) refl
slot_of-insert key slot ((k, s) ∷ rest) = elim (Bool-cases (text_eq k key)) [
  | inl e ↦ rw (e, slot_of, text_eq_self key) refl
  | inr e ↦ rw (e, slot_of, e) (slot_of-insert key slot rest)
]

module _ {C : Type 0} where
  pub entry-write :
      (es : Slots C) (i : ℕ) (v : Option (PoolEntry C)) → i < length es → entry (write es i v) i ≡ v
  unfolding entry write
  entry-write [] i v l = absurd (omega arith)
  entry-write (e ∷ es) zero v l = refl
  entry-write (e ∷ es) (suc i) v l = entry-write es i v (omega arith)

  pub length-write :
      (es : Slots C) (i : ℕ) (v : Option (PoolEntry C)) → length (write es i v) ≡ length es
  unfolding write
  length-write [] i v = refl
  length-write (e ∷ es) zero v = refl
  length-write (e ∷ es) (suc i) v = omega (arith, length-write es i v)

  pub entry-some-lt : (es : Slots C) (i : ℕ) {e : PoolEntry C} → entry es i ≡ some e → i < length es
  unfolding entry
  entry-some-lt [] i e = absurd (ground arith)
  entry-some-lt (x ∷ es) zero e = omega arith
  entry-some-lt (x ∷ es) (suc i) e = omega (arith, entry-some-lt es i e)

  pub find_free_slot-lt : (es : Slots C) (i : ℕ) → find_free_slot es ≡ some i → i < length es
  unfolding find_free_slot
  find_free_slot-lt [] i e = absurd (ground arith)
  find_free_slot-lt (none ∷ es) i e = ground arith
  find_free_slot-lt (some x ∷ es) i e = elim (Option-cases (find_free_slot es)) [
    | inl n ↦ let e' = rw (find_free_slot, n) at e in absurd (ground arith)
    | inr (j, f) ↦ let e' = rw (find_free_slot, f) at e in ground (arith, find_free_slot-lt es j f)
  ]

  -- The slots that `oldest_slot` can answer are in range.
  pub oldest_slot-lt :
      (es : Slots C) (index : Index) (oldest : Instant) (best : Option ℕ) (i : ℕ)
      → ((j : ℕ) → best ≡ some j → j < length es)
      → oldest_slot es index oldest best ≡ some i
      → i < length es
  unfolding oldest_slot
  oldest_slot-lt es [] oldest best i b e = b i e
  oldest_slot-lt es ((k, s) ∷ rest) oldest best i b e = elim (Option-cases (entry es s)) [
    | inl n ↦ oldest_slot-lt es rest oldest best i b (rw (oldest_slot, n) at e)
    | inr (x, f) ↦
        if_elim {A = Option ℕ} (λ r. r ≡ some i → i < length es) (ltb x.last_used oldest)
          (λ _.
            oldest_slot-lt es rest x.last_used (some s) i
              (λ j t. ground (arith, entry-some-lt es s f)))
          (λ _. oldest_slot-lt es rest oldest best i b) (rw (oldest_slot, f) at e)
  ]

  -- A slot that was claimed is one of the slab's.
  abbrev pub InRange : Option (ℕ × Pool C) → Type 0
  InRange none = Unit {0}
  InRange (some (i, q)) = i < length q.entries

  pub claim_slot-InRange : (now : Instant) (p : Pool C) → InRange (claim_slot now p)
  unfolding claim_slot
  claim_slot-InRange now p = elim (Option-cases (find_free_slot p.entries)) [
    | inr (j, f) ↦ rw (claim_slot, f) (find_free_slot-lt p.entries j f)
    | inl n ↦ elim (Option-cases (oldest_slot p.entries p.index now none)) [
      | inl m ↦ rw (claim_slot, n, m) tt
      | inr (j, f) ↦
          let l = oldest_slot-lt p.entries p.index now none j (λ k e. absurd (ground arith)) f in
          rw (claim_slot, n, f) (omega (arith, l, length-write p.entries j none))
    ]
  ]

  -- The connection `c` is found under its address, used at that time.
  pub record Found (now : Instant) (key : Text) (c : C) (q : Pool C) : Type 0 where
    pub slot : ℕ
    pub indexed : slot_of key q.index ≡ some slot
    pub occupied : entry q.entries slot ≡ some (record { channel = c; last_used = now })

  abbrev FoundFast : Instant → Text → Option (C × Pool C) → Type 0
  FoundFast now key none = Unit {0}
  FoundFast now key (some (c, q)) = Found now key c q

  lend_fast-Found :
      (now : Instant) (key : Text) (p : Pool C) → FoundFast now key (lend_fast now key p)
  unfolding lend_fast
  lend_fast-Found now key p = elim (Option-cases (slot_of key p.index)) [
    | inl n ↦ rw (lend_fast, n) tt
    | inr (s, f) ↦ elim (Option-cases (entry p.entries s)) [
      | inl n ↦ rw (lend_fast, f, n) tt
      | inr (x, g) ↦
          rw (lend_fast, f, g)
            (record {
              slot = s;
              indexed = f;
              occupied = entry-write p.entries s _ (entry-some-lt p.entries s g);
            })
    ]
  ]

  -- What `lend` has given: a connection that is found again, or an error and the pool as it was.
  abbrev pub Lent : Instant → Text → Pool C → Result OperatorError C × Pool C → Type 0
  Lent now key p (ok c, q) = Found now key c q
  Lent now key p (err e, q) = q ≡ p

  lend_insert-Lent :
      (now : Instant) (key : Text) (c : C) (p : Pool C) → Lent now key p (lend_insert now key c p)
  unfolding lend_insert
  lend_insert-Lent now key c p = elim (Option-cases (claim_slot now p)) [
    | inl n ↦ rw (lend_insert, n) refl
    | inr ((s, q), f) ↦
        let l : InRange (some (s, q)) = subst InRange f (claim_slot-InRange now p) in
        rw (lend_insert, f)
          (record {
            slot = s;
            indexed = slot_of-insert key s q.index;
            occupied = entry-write q.entries s _ l;
          })
  ]

  -- A connection that `lend` gives is entered under its address in the slot that the index names,
  -- as used now; if `lend` gives an error, the pool is as it was.
  pub lend-Lent :
      (now : Instant) (key : Text) (connect : Option C) (p : Pool C)
      → Lent now key p (lend now key connect p)
  unfolding lend
  lend-Lent now key connect p = elim (Option-cases (lend_fast now key p)) [
    | inr ((c, q), f) ↦ rw (lend, f) (subst (FoundFast now key) f (lend_fast-Found now key p))
    | inl n ↦ elim (Option-cases connect) [
      | inl m ↦ rw (lend, n, m) refl
      | inr (c, m) ↦ rw (lend, n, m) (lend_insert-Lent now key c p)
    ]
  ]
