-- ===== src/Storage/Badger/Pending.antt =====
-- badger.go: what `ListPendingTasksForAVS` finds through the index of pending tasks.
use mathlib.Core.List.{Memᴰ}
use hourglass_monorepo.Prelude.{
  ◌≡◌, refl, ap, sym, ◌∙◌, Bool, true, false, Option, none, some, List, [], ◌∷◌, ◌++◌, length,
  arith, Option-cases, Bool-cases, inl, inr, ◌⊎◌, ◌↔◌, ok, subst,
}
use hourglass_monorepo.Text.{Bytes, has_prefix, drop, equal_fold}
use hourglass_monorepo.Types.{Task}
use hourglass_monorepo.Storage.{
  TaskStatus, pending, processing, completed, failed, other, status_beq, TaskRecord,
}
use hourglass_monorepo.Storage.Badger.{
  StoredValue, Kv, KvLaws, BadgerStore, status_key, pending_prefix, indexed_record, collect_tasks,
  push_record, push_if, badger_list_pending_tasks_for_avs,
}
use hourglass_monorepo.Storage.Badger.Index.{task_at, IsIndexed}

status_beq-pending : (s : TaskStatus) → status_beq s pending ≡ true → s ≡ pending
status_beq-pending pending h = refl
status_beq-pending processing h = absurd (ground arith)
status_beq-pending completed h = absurd (ground arith)
status_beq-pending failed h = absurd (ground arith)
status_beq-pending (other t) h = absurd (ground arith)

has_prefix-drop : (p s : Bytes) → has_prefix p s ≡ true → s ≡ p ++ drop (length p) s
has_prefix-drop [] s h = refl
has_prefix-drop (x ∷ p) [] h = absurd (ground arith)
has_prefix-drop (x ∷ p) (y ∷ s) h = ground (arith, has_prefix-drop p s)

module _ {D : Type 0} (kv : Kv D) (keep : Task → Bool) (d : D) where
  -- An entry that the loop keeps.
  record Collected (task : Task) (entries : List (Bytes × StoredValue)) : Type 0 where
    key : Bytes
    value : StoredValue
    stored : TaskRecord
    entry : Memᴰ (key, value) entries
    found : indexed_record kv d key ≡ some stored
    kept : keep stored.task ≡ true
    same : stored.task ≡ task

  pushed :
      (o : Option TaskRecord) (task : Task) (more : List Task)
      → Memᴰ task (push_record kv keep o more)
      → Memᴰ task more ⊎ ((r : TaskRecord) × (o ≡ some r) × (keep r.task ≡ true) × (r.task ≡ task))
  pushed none task more m = inl m
  pushed (some r) task more m = elim (Bool-cases (keep r.task)) [
    | inl k ↦ go k (subst (λ b. Memᴰ task (push_if kv b r.task more)) k m)
    | inr k ↦ inl (subst (λ b. Memᴰ task (push_if kv b r.task more)) k m)
  ]
    where
      go :
          keep r.task ≡ true
          → Memᴰ task (r.task ∷ more)
          → Memᴰ task more
            ⊎ ((r' : TaskRecord) × (some r ≡ some r') × (keep r'.task ≡ true) × (r'.task ≡ task))
      go k (Memᴰ.head e) = inr (r, refl, k, sym e)
      go k (Memᴰ.tail m') = inl m'

  stays :
      (o : Option TaskRecord) (task : Task) (more : List Task)
      → Memᴰ task more
      → Memᴰ task (push_record kv keep o more)
  stays none task more m = m
  stays (some r) task more m = elim (Bool-cases (keep r.task)) [
    | inl k ↦ subst (λ b. Memᴰ task (push_if kv b r.task more)) (sym k) (Memᴰ.tail m)
    | inr k ↦ subst (λ b. Memᴰ task (push_if kv b r.task more)) (sym k) m
  ]

  collect_tasks-Collected :
      (task : Task) (entries : List (Bytes × StoredValue))
      → Memᴰ task (collect_tasks kv keep d entries)
      → Collected task entries
  unfolding collect_tasks
  collect_tasks-Collected task [] m = elim m [ ]
  collect_tasks-Collected task ((key, v) ∷ entries) m =
      elim (pushed (indexed_record kv d key) task (collect_tasks kv keep d entries) m) [
        | inl m' ↦
            let c = collect_tasks-Collected task entries m' in
            record {
              key = c.key;
              value = c.value;
              stored = c.stored;
              entry = Memᴰ.tail c.entry;
              found = c.found;
              kept = c.kept;
              same = c.same;
            }
        | inr (r, e, k, same) ↦ record {
          key = key;
          value = v;
          stored = r;
          entry = Memᴰ.head refl;
          found = e;
          kept = k;
          same = same;
        }
      ]

  Collected-collect_tasks :
      (entries : List (Bytes × StoredValue)) (key : Bytes) (v : StoredValue) (r : TaskRecord)
      → Memᴰ (key, v) entries
      → indexed_record kv d key ≡ some r
      → keep r.task ≡ true
      → Memᴰ r.task (collect_tasks kv keep d entries)
  unfolding collect_tasks
  Collected-collect_tasks [] key v r m e k = elim m [ ]
  Collected-collect_tasks ((key', v') ∷ entries) key v r (Memᴰ.head h) e k =
      let e' : indexed_record kv d key' ≡ some r =
        ap {A = Bytes × StoredValue} (λ p. indexed_record kv d p.0) (sym h) ∙ e in
      subst (λ o. Memᴰ r.task (push_record kv keep o (collect_tasks kv keep d entries))) (sym e')
        (subst (λ b. Memᴰ r.task (push_if kv b r.task (collect_tasks kv keep d entries))) (sym k)
          (Memᴰ.head refl))
  Collected-collect_tasks ((key', v') ∷ entries) key v r (Memᴰ.tail m) e k =
      stays (indexed_record kv d key') r.task (collect_tasks kv keep d entries)
        (Collected-collect_tasks entries key v r m e k)

module _ {D : Type 0} (kv : Kv D) where
  -- A pending record of the AVS.
  pub record IsPendingFor (d : D) (avs_address : Bytes) (task : Task) : Type 0 where
    pub id : Bytes
    pub stored : TaskRecord
    pub found : task_at kv d id ≡ some stored
    pub waits : stored.status ≡ pending
    pub of_avs : equal_fold stored.task.avs_address avs_address ≡ true
    pub same : stored.task ≡ task

  abbrev listed : D → Bytes → List Task
  listed d avs_address =
      collect_tasks kv (λ t. equal_fold t.avs_address avs_address) d (kv.scan d (pending_prefix kv))

  module _ (laws : KvLaws kv) (d : D) (h : IsIndexed kv d) (avs_address : Bytes) (task : Task) where
    listed-IsPendingFor : Memᴰ task (listed d avs_address) → IsPendingFor d avs_address task
    listed-IsPendingFor m =
        let c =
          collect_tasks-Collected kv (λ t. equal_fold t.avs_address avs_address) d task
            (kv.scan d (pending_prefix kv)) m in
        let (had, starts) = laws.scanned d (pending_prefix kv) c.key c.value c.entry in
        let id : Bytes = drop (length (pending_prefix kv)) c.key in
        let spelled : c.key ≡ status_key pending id =
          has_prefix-drop (pending_prefix kv) c.key starts in
        let had' : kv.find_key d (status_key pending id) ≡ some c.value =
          ap (kv.find_key d) (sym spelled) ∙ had in
        record {
          id = id;
          stored = c.stored;
          found = c.found;
          waits = status_beq-pending c.stored.status (ground (arith, had', h.indexed id, c.found));
          of_avs = c.kept;
          same = c.same;
        }

    IsPendingFor-listed : IsPendingFor d avs_address task → Memᴰ task (listed d avs_address)
    IsPendingFor-listed p = elim (Option-cases (kv.find_key d (status_key pending p.id))) [
      | inl e ↦ absurd (ground (arith, h.indexed p.id, e, p.found, p.waits))
      | inr (v, e) ↦
          subst (λ t. Memᴰ t (listed d avs_address)) p.same
            (Collected-collect_tasks kv (λ t. equal_fold t.avs_address avs_address) d
              (kv.scan d (pending_prefix kv)) (status_key pending p.id) v p.stored
              (laws.scans d (pending_prefix kv) (status_key pending p.id) v e refl) p.found
              p.of_avs)
    ]

  -- Where the index is correct, `ListPendingTasksForAVS` of an open store succeeds, and lists
  -- exactly the tasks whose record is pending and has the AVS's address up to case.
  pub badger_list_pending_tasks-IsPendingFor :
      (laws : KvLaws kv) (s : BadgerStore D) (avs_address : Bytes)
      → s.closed ≡ false
      → IsIndexed kv s.db
      → (tasks : List Task) × (badger_list_pending_tasks_for_avs kv s avs_address ≡ ok tasks)
        × ((task : Task) → Memᴰ task tasks ↔ IsPendingFor s.db avs_address task)
  unfolding badger_list_pending_tasks_for_avs
  badger_list_pending_tasks-IsPendingFor laws s avs_address open_ h = (
    listed s.db avs_address,
    rw open_ refl,
    λ task. (
      listed-IsPendingFor laws s.db h avs_address task,
      IsPendingFor-listed laws s.db h avs_address task,
    ),
  )
