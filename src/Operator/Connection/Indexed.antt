-- ===== src/Operator/Connection/Indexed.antt =====
-- src/operator/connection.rs: which slots the index names.
use pulumi_rs_kube_operator.Base.{
  ℕ, ◌<◌, subst, Bool, true, false, Option, none, some, is_some, Text, length, ◌≡◌, ap, arith, inl,
  inr, Bool-cases, ◌==◌, if◌then◌else◌,
}
use pulumi_rs_kube_operator.Operator.Connection.Lending.{entry-write}
use pulumi_rs_kube_operator.Operator.Connection.Leak.{names_slot, entry-write-other}
use pulumi_rs_kube_operator.Operator.Connection.{
  PoolEntry, Slots, Index, entry, write, slot_of, without_slot, insert,
}
use pulumi_rs_kube_operator.Operator.Connection.Index.{
  Distinct, names_slot-insert_new, names_slot-without_slot, without_slot-Distinct, insert-Distinct,
}

module _ {C : Type 0} where
  abbrev pub occupied : Slots C → ℕ → Bool
  occupied es i = is_some (entry es i)

  -- Each address leads to a slot of its own with a connection in it, and each connection is in the
  -- slot of an address.
  pub record Indexed (es : Slots C) (index : Index) : Type 0 where
    pub distinct : Distinct index
    pub sound : (i : ℕ) → names_slot i index ≡ true → occupied es i ≡ true
    pub covered : (i : ℕ) → occupied es i ≡ true → names_slot i index ≡ true

  -- Which slots are occupied after a write.
  pub occupied-write :
      (es : Slots C) (j : ℕ) (v : Option (PoolEntry C)) (i : ℕ)
      → j < length es
      → occupied (write es j v) i ≡ (if j == i then is_some v else occupied es i)
  occupied-write es j v i l = elim (Bool-cases (j == i)) [
    | inl e ↦
        let same : j ≡ i = ground arith in
        rw e (
          subst (λ k. is_some (entry (write es j v) k) ≡ is_some v) same
            (ap is_some (entry-write es j v l)))
    | inr e ↦ rw e (ap is_some (entry-write-other es i j v (ground arith)))
  ]

  -- A connection is entered in a slot that is free, under an address that is new.
  pub fill-Indexed :
      (es : Slots C) (index : Index) (key : Text) (s : ℕ) (e : PoolEntry C)
      → s < length es
      → entry es s ≡ none
      → slot_of key index ≡ none
      → Indexed es index
      → Indexed (write es s (some e)) (insert key s index)
  fill-Indexed es index key s e l free n ok = record {
    distinct = insert-Distinct key s index n unused ok.distinct;
    sound = λ i r.
        let r' = names_slot-insert_new key s i index n in
        let w = occupied-write es s (some e) i l in ground (arith, ok.sound i);
    covered = λ i o.
        let r' = names_slot-insert_new key s i index n in
        let w = occupied-write es s (some e) i l in ground (arith, ok.covered i);
  }
    where
      unused : names_slot s index ≡ false
      unused = ground (arith, ok.sound s)

  -- A slot is cleared together with its address.
  pub clear-Indexed :
      (es : Slots C) (index : Index) (s : ℕ)
      → s < length es
      → Indexed es index
      → Indexed (write es s none) (without_slot s index)
  clear-Indexed es index s l ok = record {
    distinct = without_slot-Distinct s index ok.distinct;
    sound = λ i r.
        let r' = names_slot-without_slot s i index in
        let w = occupied-write es s none i l in ground (arith, ok.sound i);
    covered = λ i o.
        let r' = names_slot-without_slot s i index in
        let w = occupied-write es s none i l in ground (arith, ok.covered i);
  }

  -- A connection is entered in place of another one.
  pub refill-Indexed :
      (es : Slots C) (index : Index) (s : ℕ) (e : PoolEntry C)
      → s < length es
      → names_slot s index ≡ true
      → Indexed es index
      → Indexed (write es s (some e)) index
  refill-Indexed es index s e l r ok = record {
    distinct = ok.distinct;
    sound = λ i r'. let w = occupied-write es s (some e) i l in ground (arith, ok.sound i);
    covered = λ i o. elim (Bool-cases (s == i)) [
      | inl same ↦ subst (λ k. names_slot k index ≡ true) (ground arith) r
      | inr other ↦ let w = occupied-write es s (some e) i l in ok.covered i (ground arith)
    ];
  }
