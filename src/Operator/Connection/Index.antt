-- ===== src/Operator/Connection/Index.antt =====
-- src/operator/connection.rs: the index of the pool, from addresses to slots.
use pulumi_rs_kube_operator.Base.{
  ℕ, subst, true, false, ◌||◌, none, some, [], ◌∷◌, Text, text_eq, text_eq→eq, text_eq_comm, ◌≡◌,
  refl, arith, inl, inr, Bool-cases, ◌==◌, ◌∙◌, if◌then◌else◌,
}
use pulumi_rs_kube_operator.Operator.Connection.Leak.{names_slot}
use pulumi_rs_kube_operator.Operator.Connection.{Index, slot_of, without_slot, insert}

-- No two entries of the index have the same address or the same slot.
abbrev pub Distinct : Index → Type 0
Distinct [] = Unit {0}
Distinct ((k, s) ∷ rest) = (slot_of k rest ≡ none) × (names_slot s rest ≡ false) × Distinct rest

pub slot_of-names_slot :
    (key : Text) (s : ℕ) (index : Index) → slot_of key index ≡ some s → names_slot s index ≡ true
unfolding slot_of
slot_of-names_slot key s [] e = ground arith
slot_of-names_slot key s ((k, t) ∷ rest) e = elim (Bool-cases (text_eq k key)) [
  | inl m ↦ let e' = rw (slot_of, m) at e in ground arith
  | inr m ↦ let e' = rw (slot_of, m) at e in ground (arith, slot_of-names_slot key s rest e')
]

pub slot_of-insert_new :
    (key j : Text) (s : ℕ) (index : Index)
    → slot_of key index ≡ none
    → slot_of j (insert key s index) ≡ (if text_eq key j then some s else slot_of j index)
unfolding slot_of insert
slot_of-insert_new key j s [] n = elim (Bool-cases (text_eq key j)) [
  | inl m ↦ rw (slot_of, m) refl
  | inr m ↦ rw (slot_of, m, slot_of) refl
]
slot_of-insert_new key j s ((k, t) ∷ rest) n = elim (Bool-cases (text_eq k key)) [
  | inl m ↦ let n' = rw (slot_of, m) at n in absurd (ground arith)
  | inr m ↦
      let n' = rw (slot_of, m) at n in
      let ih = slot_of-insert_new key j s rest n' in
      elim (Bool-cases (text_eq k j)) [
        | inl p ↦
            let q : text_eq key j ≡ false =
              text_eq_comm key j ∙ subst (λ x. text_eq x key ≡ false) (text_eq→eq k j p) m in
            rw (m, slot_of, p, q) refl
        | inr p ↦ rw (m, slot_of, p) ih
      ]
]

pub names_slot-insert_new :
    (key : Text) (s i : ℕ) (index : Index)
    → slot_of key index ≡ none
    → names_slot i (insert key s index) ≡ (s == i || names_slot i index)
unfolding slot_of insert
names_slot-insert_new key s i [] n = refl
names_slot-insert_new key s i ((k, t) ∷ rest) n = elim (Bool-cases (text_eq k key)) [
  | inl m ↦ let n' = rw (slot_of, m) at n in absurd (ground arith)
  | inr m ↦
      let n' = rw (slot_of, m) at n in rw m (ground (arith, names_slot-insert_new key s i rest n'))
]

pub names_slot-without_slot :
    (s i : ℕ) (index : Index)
    → names_slot i (without_slot s index) ≡ (if s == i then false else names_slot i index)
unfolding without_slot
names_slot-without_slot s i [] = ground arith
names_slot-without_slot s i ((k, t) ∷ rest) = ground (arith, names_slot-without_slot s i rest)

pub slot_of-without_slot :
    (key : Text) (s : ℕ) (index : Index)
    → slot_of key index ≡ none
    → slot_of key (without_slot s index) ≡ none
unfolding without_slot slot_of
slot_of-without_slot key s [] n = refl
slot_of-without_slot key s ((k, t) ∷ rest) n = ground (arith, slot_of-without_slot key s rest)

pub without_slot-Distinct :
    (s : ℕ) (index : Index) → Distinct index → Distinct (without_slot s index)
unfolding without_slot
without_slot-Distinct s [] d = tt
without_slot-Distinct s ((k, t) ∷ rest) d = ground (
  arith,
  without_slot-Distinct s rest d.2,
  slot_of-without_slot k s rest d.0,
  names_slot-without_slot s t rest,
)

pub insert-Distinct :
    (key : Text) (s : ℕ) (index : Index)
    → slot_of key index ≡ none
    → names_slot s index ≡ false
    → Distinct index
    → Distinct (insert key s index)
unfolding insert slot_of
insert-Distinct key s [] n r d = (refl, refl, tt)
insert-Distinct key s ((k, t) ∷ rest) n r d = elim (Bool-cases (text_eq k key)) [
  | inl m ↦ let n' = rw (slot_of, m) at n in absurd (ground arith)
  | inr m ↦
      let n' = rw (slot_of, m) at n in
      let apart = text_eq_comm key k ∙ m in
      rw m (
        slot_of-insert_new key k s rest n' ∙ rw apart d.0,
        names_slot-insert_new key s t rest n' ∙ ground arith,
        insert-Distinct key s rest n' (ground arith) d.2,
      )
]
