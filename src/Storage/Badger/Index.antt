-- ===== src/Storage/Badger/Index.antt =====
-- badger.go: the index of pending tasks against the records. A status key is written and deleted
-- with each change of a record, so that a scan of the index finds the pending records.
use hourglass_monorepo.Prelude.{
  ◌≡◌, ◌∙◌, refl, ap, Bool, true, false, not, ◌&&◌, Option, none, some, arith, is_none,
  if◌then◌else◌,
}
use hourglass_monorepo.Text.{Bytes, bytes_beq, bytes_beq_iff}
use hourglass_monorepo.Storage.{
  TaskStatus, pending, processing, completed, failed, other, status_beq, TaskRecord,
}
use hourglass_monorepo.Storage.Badger.{
  task_value, index_value, unmarshal_task, Kv, KvLaws, task_key, status_key,
}

abbrev is_pending : Option TaskRecord → Bool
is_pending none = false
is_pending (some r) = status_beq r.status pending

-- One of the four statuses of storage.go.
abbrev pub is_known : TaskStatus → Bool
is_known (other s) = false
is_known _ = true

-- The index keys of different statuses differ.
status_key-pending :
    (s : TaskStatus) (id x : Bytes)
    → is_known s ≡ true
    → bytes_beq (status_key s id) (status_key pending x) ≡ (status_beq s pending && bytes_beq id x)
status_key-pending pending id x h = refl
status_key-pending processing id x h = refl
status_key-pending completed id x h = refl
status_key-pending failed id x h = refl
status_key-pending (other s) id x h = absurd (ground arith)

module _ {D : Type 0} (kv : Kv D) where
  -- The record under a task's key.
  abbrev pub task_at : D → Bytes → Option TaskRecord
  task_at d id = elim (kv.find_key d (task_key id)) [ none ↦ none | some v ↦ unmarshal_task v ]

  -- The index has an entry for the task.
  abbrev pub indexed_at : D → Bytes → Bool
  indexed_at d id = not (is_none (kv.find_key d (status_key pending id)))

  -- What a task's key holds is a record with a known status, and the index has the pending ones.
  pub record IsIndexed (d : D) : Type 0 where
    pub typed : (id : Bytes) → is_none (kv.find_key d (task_key id)) ≡ is_none (task_at d id)
    pub known : (id : Bytes) (r : TaskRecord) → task_at d id ≡ some r → is_known r.status ≡ true
    pub indexed : (id : Bytes) → indexed_at d id ≡ is_pending (task_at d id)

  -- The writes of `SavePendingTask`, `UpdateTaskStatus` and `DeleteTask`.
  abbrev pub saved_db : D → Bytes → TaskRecord → D
  saved_db d id r =
      kv.set_key (kv.set_key d (task_key id) (task_value r)) (status_key pending id) index_value

  abbrev pub updated_db : D → Bytes → TaskStatus → TaskRecord → D
  updated_db d id old r =
      kv.set_key (kv.set_key (kv.delete_key d (status_key old id)) (task_key id) (task_value r))
        (status_key r.status id) index_value

  abbrev pub deleted_db : D → Bytes → TaskStatus → D
  deleted_db d id old = kv.delete_key (kv.delete_key d (task_key id)) (status_key old id)

  module _ (laws : KvLaws kv) (d : D) (id x : Bytes) where
    -- What a key has after them.
    find-saved :
        (r : TaskRecord) (key : Bytes)
        → kv.find_key (saved_db d id r) key ≡ (
            if bytes_beq (status_key pending id) key
            then some index_value
            else if bytes_beq (task_key id) key
            then some (task_value r)
            else kv.find_key d key)
    find-saved r key =
        laws.find-set (kv.set_key d (task_key id) (task_value r)) (status_key pending id) key
          index_value
        ∙ rw (laws.find-set d (task_key id) key (task_value r)) refl

    find-updated :
        (old : TaskStatus) (r : TaskRecord) (key : Bytes)
        → kv.find_key (updated_db d id old r) key ≡ (
            if bytes_beq (status_key r.status id) key
            then some index_value
            else if bytes_beq (task_key id) key
            then some (task_value r)
            else if bytes_beq (status_key old id) key
            then none
            else kv.find_key d key)
    find-updated old r key =
        laws.find-set
          (kv.set_key (kv.delete_key d (status_key old id)) (task_key id) (task_value r))
          (status_key r.status id) key index_value
        ∙ rw
            (
              laws.find-set (kv.delete_key d (status_key old id)) (task_key id) key (task_value r),
              laws.find-delete d (status_key old id) key,
            )
            refl

    find-deleted :
        (old : TaskStatus) (key : Bytes)
        → kv.find_key (deleted_db d id old) key ≡ (
            if bytes_beq (status_key old id) key
            then none
            else if bytes_beq (task_key id) key
            then none
            else kv.find_key d key)
    find-deleted old key =
        laws.find-delete (kv.delete_key d (task_key id)) (status_key old id) key
        ∙ rw (laws.find-delete d (task_key id) key) refl

    -- The record under a key, and its place in the index, after them.
    pub task_at-saved :
        (r : TaskRecord)
        → task_at (saved_db d id r) x ≡ (if bytes_beq id x then some r else task_at d x)
    task_at-saved r = ground (arith, find-saved r (task_key x))

    pub task_at-updated :
        (old : TaskStatus) (r : TaskRecord)
        → task_at (updated_db d id old r) x ≡ (if bytes_beq id x then some r else task_at d x)
    task_at-updated old r = ground (arith, find-updated old r (task_key x))

    pub task_at-deleted :
        (old : TaskStatus)
        → task_at (deleted_db d id old) x ≡ (if bytes_beq id x then none else task_at d x)
    task_at-deleted old = ground (arith, find-deleted old (task_key x))

    pub indexed_at-saved :
        (r : TaskRecord)
        → indexed_at (saved_db d id r) x ≡ (if bytes_beq id x then true else indexed_at d x)
    indexed_at-saved r = ground (arith, find-saved r (status_key pending x))

    indexed_alike : bytes_beq id x ≡ true → indexed_at d id ≡ indexed_at d x
    indexed_alike e = ap (indexed_at d) ((bytes_beq_iff id x).0 e)

    pub indexed_at-updated :
        (old : TaskStatus) (r : TaskRecord)
        → is_known old ≡ true
        → is_known r.status ≡ true
        → indexed_at d id ≡ status_beq old pending
        → indexed_at (updated_db d id old r) x
          ≡ (if bytes_beq id x then status_beq r.status pending else indexed_at d x)
    indexed_at-updated old r hold hnew was = ground (
      arith,
      find-updated old r (status_key pending x),
      status_key-pending old id x hold,
      status_key-pending r.status id x hnew,
      indexed_alike,
    )

    pub indexed_at-deleted :
        (old : TaskStatus)
        → is_known old ≡ true
        → indexed_at d id ≡ status_beq old pending
        → indexed_at (deleted_db d id old) x ≡ (if bytes_beq id x then false else indexed_at d x)
    indexed_at-deleted old hold was = ground (
      arith,
      find-deleted old (status_key pending x),
      status_key-pending old id x hold,
      indexed_alike,
    )

  module _ (laws : KvLaws kv) (d : D) (h : IsIndexed d) (id : Bytes) where
    -- The invariant survives them.
    pub saved-IsIndexed : (r : TaskRecord) → r.status ≡ pending → IsIndexed (saved_db d id r)
    saved-IsIndexed r e = record {
      typed = λ x. ground (arith, find-saved laws d id x r (task_key x), h.typed x);
      known = λ x r' e'. ground (arith, task_at-saved laws d id x r, h.known x r');
      indexed = λ x.
          ground (arith, task_at-saved laws d id x r, indexed_at-saved laws d id x r, h.indexed x);
    }

    pub updated-IsIndexed :
        (old r : TaskRecord)
        → task_at d id ≡ some old
        → is_known r.status ≡ true
        → IsIndexed (updated_db d id old.status r)
    updated-IsIndexed old r had hnew =
        let hold = h.known id old had in
        let was : indexed_at d id ≡ status_beq old.status pending =
          h.indexed id ∙ ap is_pending had in
        record {
          typed =
              λ x. ground (arith, find-updated laws d id x old.status r (task_key x), h.typed x);
          known = λ x r' e'. ground (arith, task_at-updated laws d id x old.status r, h.known x r');
          indexed = λ x. ground (
            arith,
            task_at-updated laws d id x old.status r,
            indexed_at-updated laws d id x old.status r hold hnew was,
            h.indexed x,
          );
        }

    pub deleted-IsIndexed :
        (old : TaskRecord) → task_at d id ≡ some old → IsIndexed (deleted_db d id old.status)
    deleted-IsIndexed old had =
        let hold = h.known id old had in
        let was : indexed_at d id ≡ status_beq old.status pending =
          h.indexed id ∙ ap is_pending had in
        record {
          typed = λ x. ground (arith, find-deleted laws d id x old.status (task_key x), h.typed x);
          known = λ x r' e'. ground (arith, task_at-deleted laws d id x old.status, h.known x r');
          indexed = λ x. ground (
            arith,
            task_at-deleted laws d id x old.status,
            indexed_at-deleted laws d id x old.status hold was,
            h.indexed x,
          );
        }
