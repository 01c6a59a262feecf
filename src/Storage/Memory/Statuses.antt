-- ===== src/Storage/Memory/Statuses.antt =====
-- A task's life in memory.go: pending, then processing, then completed or failed.
use hourglass_monorepo.Prelude.{
  ℕ, ◌≤◌, ◌<◌, ◌≡◌, ◌≢◌, refl, true, false, Option, none, some, List, [], ◌∷◌, arith, length,
  Result, ok, ◌>>=◌, bind-eq-ok,
}
use hourglass_monorepo.Text.{Bytes, bytes_beq_iff}
use hourglass_monorepo.Dict.{get, put, bytes_eq, get-put, get-put_self}
use hourglass_monorepo.Storage.{
  TaskStatus, pending, processing, completed, failed, other, TaskRecord, StoreError,
}
use hourglass_monorepo.Storage.Memory.{
  MemoryStore, update_task_status, validate_task_status_transition,
}

-- The edges of the state diagram.
pub data Moves : TaskStatus → TaskStatus → Type 0 where
  start : Moves pending processing
  drop : Moves pending failed
  finish : Moves processing completed
  abort : Moves processing failed

pub validate-Moves :
    (from to : TaskStatus) → validate_task_status_transition from to ≡ true → Moves from to
unfolding validate_task_status_transition
validate-Moves pending pending h = absurd (ground arith)
validate-Moves pending processing h = start
validate-Moves pending completed h = absurd (ground arith)
validate-Moves pending failed h = drop
validate-Moves pending (other s) h = absurd (ground arith)
validate-Moves processing pending h = absurd (ground arith)
validate-Moves processing processing h = absurd (ground arith)
validate-Moves processing completed h = finish
validate-Moves processing failed h = abort
validate-Moves processing (other s) h = absurd (ground arith)
validate-Moves completed to h = absurd (ground arith)
validate-Moves failed to h = absurd (ground arith)
validate-Moves (other s) to h = absurd (ground arith)

pub Moves-validate :
    {from to : TaskStatus} → Moves from to → validate_task_status_transition from to ≡ true
unfolding validate_task_status_transition
Moves-validate start = refl
Moves-validate drop = refl
Moves-validate finish = refl
Moves-validate abort = refl

-- The status that a store has for a task.
abbrev pub status_of : MemoryStore → Bytes → Option TaskStatus
status_of s id = elim (get id s.tasks) [ none ↦ none | some r ↦ some r.status ]

-- `UpdateTaskStatus` succeeds exactly along an edge of the diagram; it sets the task's status and
-- leaves every other task's.
pub record IsUpdated (s : MemoryStore) (id : Bytes) (status : TaskStatus) (s' : MemoryStore)
    : Type 0 where
  pub from : TaskStatus
  pub had : status_of s id ≡ some from
  pub moves : Moves from status
  pub has : status_of s' id ≡ some status
  pub others : (x : Bytes) → x ≢ id → get x s'.tasks ≡ get x s.tasks

-- An update that succeeds moved the task along an edge of the status diagram, from the status it
-- had to the given one, and left every other task's record.
pub update_task_status-IsUpdated :
    (s : MemoryStore) (now : ℕ) (id : Bytes) (status : TaskStatus) (s' : MemoryStore)
    → update_task_status s now id status ≡ ok s'
    → IsUpdated s id status s'
unfolding update_task_status
update_task_status-IsUpdated s now id status s' h = go (get id s.tasks) refl
  where
    go : (o : Option TaskRecord) → get id s.tasks ≡ o → IsUpdated s id status s'
    go none e = absurd (ground arith)
    go (some r) e = record {
      from = r.status;
      had = ground (arith, e);
      moves = validate-Moves r.status status (ground (arith, e));
      has =
          ground
            (arith, e, get-put_self id (record r { status = status; updated_at = now }) s.tasks);
      others = λ x other. ground (
        arith,
        e,
        get-put id x (record r { status = status; updated_at = now }) s.tasks,
        bytes_beq_iff id x,
        other,
      );
    }

-- An open store makes every move of the diagram on a task that it has.
pub update_task_status-Moves :
    (s : MemoryStore) (now : ℕ) (id : Bytes) (r : TaskRecord) (status : TaskStatus)
    → s.closed ≡ false
    → get id s.tasks ≡ some r
    → Moves r.status status
    → update_task_status s now id status
      ≡ ok (record s { tasks = put id (record r { status = status; updated_at = now }) s.tasks })
unfolding update_task_status
update_task_status-Moves s now id r status open_ e m = rw (open_, e, Moves-validate m)

-- Successive calls of `UpdateTaskStatus` on one task, all of which must succeed.
unfoldable pub update_all :
    MemoryStore → ℕ → Bytes → List TaskStatus → Result StoreError MemoryStore
update_all s now id [] = ok s
update_all s now id (status ∷ rest) =
    update_task_status s now id status >>= λ s'. update_all s' now id rest

-- How many moves a status has before it.
abbrev pub moves_left : TaskStatus → ℕ
moves_left pending = 2
moves_left processing = 1
moves_left _ = 0

moves_left-Moves : {from to : TaskStatus} → Moves from to → moves_left to < moves_left from
moves_left-Moves start = omega arith
moves_left-Moves drop = omega arith
moves_left-Moves finish = omega arith
moves_left-Moves abort = omega arith

-- Successive updates of one task that all succeed are at most two from pending, one from
-- processing, and none from any other status.
pub update_all_bounded :
    (s : MemoryStore) (now : ℕ) (id : Bytes) (statuses : List TaskStatus) (from : TaskStatus)
    (s' : MemoryStore)
    → status_of s id ≡ some from
    → update_all s now id statuses ≡ ok s'
    → length statuses ≤ moves_left from
unfolding update_all
update_all_bounded s now id [] from s' had h = omega arith
update_all_bounded s now id (status ∷ rest) from s' had h =
    let (t, updated, more) =
      bind-eq-ok (update_task_status s now id status) (λ t. update_all t now id rest) h in
    let u = update_task_status-IsUpdated s now id status t updated in
    let same : from ≡ u.from = cc (had, u.had) in
    rw same (
      omega
        (arith, moves_left-Moves u.moves, update_all_bounded t now id rest status s' u.has more))
