-- ===== src/Operator/Connection/Evicted.antt =====
-- src/operator/connection.rs: what `evict_idle` keeps.
use pulumi_rs_kube_operator.Base.{
  ℕ, ◌-◌, Bool, true, false, ◌&&◌, none, [], ◌∷◌, Text, Instant, Duration, leb, ◌≡◌, refl, ap,
  arith, inl, inr, Option-cases, Bool-cases, ◌==◌, if◌then◌else◌,
}
use pulumi_rs_kube_operator.Operator.Connection.Lending.{entry-some-lt}
use pulumi_rs_kube_operator.Operator.Connection.Leak.{names_slot}
use pulumi_rs_kube_operator.Operator.Connection.{
  Slots, Index, Pool, entry, write, slot_of, drop_idle, keep_used, evict_idle,
}
use pulumi_rs_kube_operator.Operator.Connection.Index.{Distinct}
use pulumi_rs_kube_operator.Operator.Connection.Indexed.{occupied, Indexed, occupied-write}

module _ {C : Type 0} where
  names_slot-keep_used :
      (es : Slots C) (i : ℕ) (index : Index)
      → names_slot i (keep_used es index) ≡ (names_slot i index && occupied es i)
  unfolding keep_used
  names_slot-keep_used es i [] = refl
  names_slot-keep_used es i ((k, s) ∷ rest) =
      let ih = names_slot-keep_used es i rest in
      elim (Bool-cases (s == i)) [
        | inl e ↦
            let same : occupied es s ≡ occupied es i =
              ap (λ j. occupied es j) (let h : s ≡ i = ground arith in h) in
            ground arith
        | inr e ↦ ground arith
      ]

  slot_of-keep_used :
      (es : Slots C) (key : Text) (index : Index)
      → slot_of key index ≡ none
      → slot_of key (keep_used es index) ≡ none
  unfolding keep_used slot_of
  slot_of-keep_used es key [] n = refl
  slot_of-keep_used es key ((k, s) ∷ rest) n = ground (arith, slot_of-keep_used es key rest)

  keep_used-Distinct :
      (es : Slots C) (index : Index) → Distinct index → Distinct (keep_used es index)
  unfolding keep_used
  keep_used-Distinct es [] d = tt
  keep_used-Distinct es ((k, s) ∷ rest) d = ground (
    arith,
    keep_used-Distinct es rest d.2,
    slot_of-keep_used es k rest d.0,
    names_slot-keep_used es s rest,
  )

  drop_idle-occupied :
      (now : Instant) (max_idle : Duration) (index : Index) (es : Slots C) (i : ℕ)
      → occupied (drop_idle now max_idle index es) i ≡ true
      → occupied es i ≡ true
  unfolding drop_idle
  drop_idle-occupied now max_idle [] es i o = o
  drop_idle-occupied now max_idle ((k, s) ∷ rest) es i o = elim (Option-cases (entry es s)) [
    | inl n ↦ drop_idle-occupied now max_idle rest es i (rw (drop_idle, n) at o)
    | inr (e, f) ↦
        let rest_occupied = drop_idle-occupied now max_idle rest _ i (rw (drop_idle, f) at o) in
        let w = occupied-write es s none i (entry-some-lt es s f) in
        clear (leb max_idle (now - e.last_used)) (write es s none) s w rest_occupied
  ]
    where
      clear :
          (b : Bool) (es' : Slots C) (s : ℕ)
          → occupied es' i ≡ (if s == i then false else occupied es i)
          → occupied (if b then es' else es) i ≡ true
          → occupied es i ≡ true
      clear b es' s w o = ground arith

  pub evict_idle-Indexed :
      (now : Instant) (p : Pool C)
      → Indexed p.entries p.index
      → Indexed (evict_idle now p).entries (evict_idle now p).index
  unfolding evict_idle
  evict_idle-Indexed now p ok =
      let es = drop_idle now p.max_idle p.index p.entries in
      record {
        distinct = keep_used-Distinct es p.index ok.distinct;
        sound = λ i r. let k = names_slot-keep_used es i p.index in ground arith;
        covered = λ i o.
            let k = names_slot-keep_used es i p.index in
            let r = ok.covered i (drop_idle-occupied now p.max_idle p.index p.entries i o) in
            ground arith;
      }
