-- ===== src/Executor/Deployments/Backings.antt =====
-- executor/storage: the two stores as the executor uses them for performers, and what they promise.
use mathlib.Core.List.{Memᴰ}
use hourglass_monorepo.Prelude.{
  ◌≡◌, ◌≢◌, refl, ◌∙◌, true, false, Option, none, some, List, [], ◌∷◌, arith, inl, inr, Result, ok,
  err, Bool-cases, if◌then◌else◌, not_empty, ap,
}
use hourglass_monorepo.Text.{Bytes, codes, bytes_beq, bytes_beq-false, append_cancel, has_prefix}
use hourglass_monorepo.Dict.{Dict, get, bytes_eq, get-put}
use hourglass_monorepo.Executor.Stores.{
  PerformerState, PerformerStore, PerformerStoreError, save_performer_state, delete_performer_state,
  list_performer_states, or_unchanged, states_of,
}
use hourglass_monorepo.Executor.Badger.{
  ExecutorKv, ExecutorValue, performer_value, processed_value, BadgerPerformerStore, performer_key,
  unmarshal_states, badger_save_performer_state, badger_delete_performer_state,
  badger_list_performer_states,
}
use hourglass_monorepo.Executor.Deployments.{PerformerStates}

abbrev listed_states :
    Result PerformerStoreError (List PerformerState) → Option (List PerformerState)
listed_states (ok states) = some states
listed_states (err e) = none

-- The in-memory store, as the executor uses it for performers.
abbrev pub memory_states : PerformerStates PerformerStore
memory_states = record {
  save_state = λ s id state. or_unchanged s (save_performer_state s id (some state));
  delete_state = λ s id. or_unchanged s (delete_performer_state s id);
  list_states = λ s. listed_states (list_performer_states s);
}

-- The Badger store, as the executor uses it for performers.
abbrev badger_states : {D : Type 0} → ExecutorKv D → PerformerStates (BadgerPerformerStore D)
badger_states kv = record {
  save_state = λ s id state. or_unchanged s (badger_save_performer_state kv s id (some state));
  delete_state = λ s id. or_unchanged s (badger_delete_performer_state kv s id);
  list_states = λ s. listed_states (badger_list_performer_states kv s);
}

-- A store that keeps states under their keys: it lists them, and a save under another key leaves them.
-- `Holds` says that a state is kept under a key.
pub record KeepsStates {S : Type 0} (st : PerformerStates S)
    (Holds : S → Bytes → PerformerState → Type 0) : Type 0 where
  pub lists :
      (s : S) (key : Bytes) (state : PerformerState)
      → Holds s key state
      → (states : List PerformerState) × (st.list_states s ≡ some states) × Memᴰ state states
  pub leaves :
      (s : S) (key id : Bytes) (state new : PerformerState)
      → id ≢ key
      → Holds s key state
      → Holds (st.save_state s id new) key state

abbrev pub IsInMemory : PerformerStore → Bytes → PerformerState → Type 0
IsInMemory s key state = (s.closed ≡ false) × (get key s.performer_states ≡ some state)

states_of-Memᴰ :
    (key : Bytes) (m : Dict Bytes PerformerState) (state : PerformerState)
    → get key m ≡ some state
    → Memᴰ state (states_of m)
unfolding get
states_of-Memᴰ key [] state h = absurd (ground (arith, h))
states_of-Memᴰ key ((j, s) ∷ m) state h = elim (Bool-cases (bytes_beq j key)) [
  | inl same ↦ Memᴰ.head (ground (arith, same, h))
  | inr other ↦ Memᴰ.tail (states_of-Memᴰ key m state (ground (arith, other, h)))
]

memory_leaves :
    (s : PerformerStore) (key id : Bytes) (state new : PerformerState)
    → bytes_beq id key ≡ false
    → IsInMemory s key state
    → IsInMemory (memory_states.save_state s id new) key state
unfolding save_performer_state
memory_leaves s key id state new differs (open_, had) = elim (Bool-cases (not_empty id)) [
  | inl n ↦ ground (
    arith,
    open_,
    had,
    n,
    differs,
    get-put id key (record new { performer_id = id }) s.performer_states,
  )
  | inr n ↦ ground (arith, open_, had, n)
]

pub memory_states-KeepsStates : KeepsStates memory_states IsInMemory
unfolding list_performer_states
memory_states-KeepsStates = record {
  lists = λ s key state h.
      (states_of s.performer_states, rw h.0 refl, states_of-Memᴰ key s.performer_states state h.1);
  leaves = λ s key id state new differs h.
      memory_leaves s key id state new (bytes_beq-false id key differs) h;
}

abbrev IsInBadger :
    {D : Type 0} → ExecutorKv D → BadgerPerformerStore D → Bytes → PerformerState → Type 0
IsInBadger kv s key state =
    (s.closed ≡ false) × (kv.find_key s.db (performer_key key) ≡ some (performer_value state))

unmarshal_states-Memᴰ :
    (entries : List (Bytes × ExecutorValue)) (key : Bytes) (state : PerformerState)
    → Memᴰ (key, performer_value state) entries
    → Memᴰ state (unmarshal_states entries)
unfolding unmarshal_states
unmarshal_states-Memᴰ [] key state m = elim m [ ]
unmarshal_states-Memᴰ ((k, v) ∷ entries) key state (Memᴰ.head e) =
    rw (← ap (λ x. x.1) e) (Memᴰ.head refl)
unmarshal_states-Memᴰ ((k, performer_value x) ∷ entries) key state (Memᴰ.tail m) =
    Memᴰ.tail (unmarshal_states-Memᴰ entries key state m)
unmarshal_states-Memᴰ ((k, processed_value id) ∷ entries) key state (Memᴰ.tail m) =
    unmarshal_states-Memᴰ entries key state m

module _ {D : Type 0} (kv : ExecutorKv D) where
  -- Over a database whose sets are found, and whose scans have what is found under their prefix, the
  -- Badger store keeps states.
  badger_states-KeepsStates :
      ((d : D) (k j : Bytes) (v : ExecutorValue)
        → kv.find_key (kv.set_key d k v) j ≡ (if bytes_beq k j then some v else kv.find_key d j))
      → ((d : D) (prefix k : Bytes) (v : ExecutorValue)
          → kv.find_key d k ≡ some v
          → has_prefix prefix k ≡ true
          → Memᴰ (k, v) (kv.scan d prefix))
      → KeepsStates (badger_states kv) (IsInBadger kv)
  unfolding badger_list_performer_states badger_save_performer_state
  badger_states-KeepsStates finds scans = record {
    lists = λ s key state h. (
      unmarshal_states (kv.scan s.db (codes "performer:")),
      rw h.0 refl,
      unmarshal_states-Memᴰ (kv.scan s.db (codes "performer:")) (performer_key key) state
          (scans s.db (codes "performer:") (performer_key key) (performer_value state) h.1 refl),
    );
    leaves = λ s key id state new differs h.
        let other : bytes_beq (performer_key id) (performer_key key) ≡ false =
          bytes_beq-false (performer_key id) (performer_key key)
            (λ e. differs (append_cancel (codes "performer:") e)) in
        (
          ground (arith, h.0),
          rw h.0 (
              finds s.db (performer_key id) (performer_key key) (performer_value new)
              ∙ rw other h.1),
        );
  }
