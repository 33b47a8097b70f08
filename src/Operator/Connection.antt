-- ===== src/Operator/Connection.antt =====
-- src/operator/connection.rs: the pool of connections to workspace agents, a slab of 64 slots with
-- an index from addresses. The locks make each of these functions atomic; `lend` is two of them with
-- the connection attempt between. `C` is tonic's channel.
pub mod Lending
pub mod Leak
pub mod Index
pub mod Indexed
pub mod Evicted
pub mod Uninterrupted
use pulumi_rs_kube_operator.Base.{
  ℕ, zero, suc, ◌+◌, ◌-◌, Bool, true, false, ◌&&◌, not, Option, none, some, is_some, List, [], ◌∷◌,
  Result, ok, err, Text, text_eq, Instant, Duration, get_elem?, set, retain, length, leb, ltb, ◌==◌,
  if◌then◌else◌,
}
use pulumi_rs_kube_operator.Errors.{OperatorError, transient, connection_failed}

module _ (C : Type 0) where
  pub record PoolEntry : Type 0 where
    pub channel : C
    pub last_used : Instant

  abbrev pub Slots : Type 0
  Slots = List (Option PoolEntry)

abbrev pub Index : Type 0
Index = List (Text × ℕ)

module _ {C : Type 0} where
  -- The entry of a slot; a slot out of range has none.
  unfoldable pub entry : Slots C → ℕ → Option (PoolEntry C)
  entry [] i = none
  entry (e ∷ es) zero = e
  entry (e ∷ es) (suc i) = entry es i

  unfoldable pub write : Slots C → ℕ → Option (PoolEntry C) → Slots C
  write [] i v = []
  write (e ∷ es) zero v = v ∷ es
  write (e ∷ es) (suc i) v = e ∷ write es i v

  -- The first slot that is free.
  unfoldable pub find_free_slot : Slots C → Option ℕ
  find_free_slot [] = none
  find_free_slot (none ∷ es) = some 0
  find_free_slot (some e ∷ es) = elim (find_free_slot es) [ none ↦ none | some i ↦ some (suc i) ]

-- `index.get(key)`
unfoldable pub slot_of : Text → Index → Option ℕ
slot_of key [] = none
slot_of key ((k, s) ∷ rest) = elim (text_eq k key) [ true ↦ some s | _ ↦ slot_of key rest ]

-- `index.retain(|_, s| s != slot)`
unfoldable pub without_slot : ℕ → Index → Index
without_slot slot [] = []
without_slot slot ((k, s) ∷ rest) =
    if s == slot then without_slot slot rest else (k, s) ∷ without_slot slot rest

-- `index.insert(key, slot)`: an entry of the key is replaced.
unfoldable pub insert : Text → ℕ → Index → Index
insert key slot [] = (key, slot) ∷ []
insert key slot ((k, s) ∷ rest) =
    if text_eq k key then (key, slot) ∷ rest else (k, s) ∷ insert key slot rest

pub record Pool (C : Type 0) : Type 0 where
  pub entries : Slots C
  pub index : Index
  pub max_idle : Duration

abbrev pub default_slab_size : ℕ
default_slab_size = 64

module _ {C : Type 0} where
  unfoldable pub free_slots : ℕ → Slots C
  free_slots zero = []
  free_slots (suc n) = none ∷ free_slots n

  unfoldable pub new_pool : Duration → Pool C
  unfolding free_slots
  new_pool max_idle = record {
    entries = free_slots default_slab_size;
    index = [];
    max_idle = max_idle;
  }

  -- `len`
  unfoldable pub pool_size : Pool C → ℕ
  pool_size p = length p.index

  -- Drop the idle entries of the slots that the index names.
  unfoldable pub drop_idle : Instant → Duration → Index → Slots C → Slots C
  drop_idle now max_idle [] es = es
  drop_idle now max_idle ((k, s) ∷ rest) es = drop_idle now max_idle rest (elim (entry es s) [
    | none ↦ es
    | some e ↦ if leb max_idle (now - e.last_used) then write es s none else es
  ])

  unfoldable pub keep_used : Slots C → Index → Index
  keep_used es [] = []
  keep_used es ((k, s) ∷ rest) =
      if is_some (entry es s) then (k, s) ∷ keep_used es rest else keep_used es rest

  unfoldable pub evict_idle : Instant → Pool C → Pool C
  unfolding drop_idle keep_used
  evict_idle now p =
      let es = drop_idle now p.max_idle p.index p.entries in
      record p { entries = es; index = keep_used es p.index }

  -- The slot that the index names whose use lies furthest back, if before `oldest`.
  unfoldable pub oldest_slot : Slots C → Index → Instant → Option ℕ → Option ℕ
  oldest_slot es [] oldest best = best
  oldest_slot es ((k, s) ∷ rest) oldest best = elim (entry es s) [
    | none ↦ oldest_slot es rest oldest best
    | some e ↦
        if ltb e.last_used oldest
        then oldest_slot es rest e.last_used (some s)
        else oldest_slot es rest oldest best
  ]

  -- A slot to write to: a free one, or the oldest one once it is evicted.
  unfoldable pub claim_slot : Instant → Pool C → Option (ℕ × Pool C)
  unfolding find_free_slot oldest_slot without_slot
  claim_slot now p = elim (find_free_slot p.entries) [
    | some i ↦ some (i, p)
    | none ↦ elim (oldest_slot p.entries p.index now none) [
      | none ↦ none
      | some i ↦
          some (i, record p { entries = write p.entries i none; index = without_slot i p.index })
    ]
  ]

  -- `lend`, the fast path: a connection that is there, used now.
  unfoldable pub lend_fast : Instant → Text → Pool C → Option (C × Pool C)
  lend_fast now key p = elim (slot_of key p.index) [
    | none ↦ none
    | some s ↦ elim (entry p.entries s) [
      | none ↦ none
      | some e ↦ some (
        e.channel,
        record p { entries = write p.entries s (some (record e { last_used = now })) },
      )
    ]
  ]

  -- `lend`, the slow path after the connection is made: claim a slot and enter it.
  unfoldable pub lend_insert : Instant → Text → C → Pool C → Result OperatorError C × Pool C
  unfolding claim_slot insert
  lend_insert now key channel p = elim (claim_slot now p) [
    | none ↦ (err (transient connection_failed), p)
    | some (s, q) ↦ (
      ok channel,
      record q {
        entries = write q.entries s (some (record { channel = channel; last_used = now }));
        index = insert key s q.index;
      },
    )
  ]

  -- A `lend` that no other call interrupts; `connect` is what the connection attempt gives.
  unfoldable pub lend : Instant → Text → Option C → Pool C → Result OperatorError C × Pool C
  unfolding lend_fast lend_insert
  lend now key connect p = elim (lend_fast now key p) [
    | some (c, q) ↦ (ok c, q)
    | none ↦ elim connect [
      | none ↦ (err (transient connection_failed), p)
      | some channel ↦ lend_insert now key channel p
    ]
  ]
