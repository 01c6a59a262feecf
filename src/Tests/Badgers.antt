-- ===== src/Tests/Badgers.antt =====
-- A Badger store over an association list, with a task and blocks of two chains.
use mathlib.Core.List.{Memᴰ}
use hourglass_monorepo.Prelude.{
  ℕ, ◌<◌, ◌≡◌, ◌↔◌, ◌⊎◌, refl, ap, sym, subst, Bool, true, false, Option, none, some, List, [], ◌∷◌,
  arith, Bool-cases, inl, inr, ok,
}
use hourglass_monorepo.Text.{Bytes, codes, decimal, bytes_beq, bytes_beq_iff, has_prefix}
use hourglass_monorepo.Dict.{Dict, get, put, remove, bytes_eq, get-put, get-remove}
use hourglass_monorepo.Types.{Task}
use hourglass_monorepo.Storage.{pending, processing, completed, TaskRecord, BlockRecord}
use hourglass_monorepo.Storage.Badger.{
  StoredValue, block_value, Kv, KvLaws, BadgerStore, badger_store,
  badger_list_pending_tasks_for_avs, badger_last_processed_block,
}
use hourglass_monorepo.Storage.Memory.{make_block_record_key}
use hourglass_monorepo.Storage.Badger.Index.{IsIndexed, saved-IsIndexed, saved_db}
use hourglass_monorepo.Storage.Badger.Refines.{badger_board, taken, badger_store_refines}
use hourglass_monorepo.Storage.Badger.Pending.{IsPendingFor, badger_list_pending_tasks-IsPendingFor}
use hourglass_monorepo.Storage.Badger.Prefix.{HoldsBlocks, last_processed_of_other_chain}
use hourglass_monorepo.Storage.Board.{TaskCall, save, update, discard, run_store, run_board}
use hourglass_monorepo.Tests.Stores.{task}

abbrev push_when :
    Bool → Bytes × StoredValue → List (Bytes × StoredValue) → List (Bytes × StoredValue)
push_when true entry more = entry ∷ more
push_when false entry more = more

abbrev push_under :
    Bytes → Bytes → Option StoredValue → List (Bytes × StoredValue) → List (Bytes × StoredValue)
push_under prefix k none more = more
push_under prefix k (some v) more = push_when (has_prefix prefix k) (k, v) more

abbrev scan_in :
    Dict Bytes StoredValue → Bytes → Dict Bytes StoredValue → List (Bytes × StoredValue)
scan_in d prefix [] = []
scan_in d prefix ((k, v) ∷ m) = push_under prefix k (get k d) (scan_in d prefix m)

abbrev dict_kv : Kv (Dict Bytes StoredValue)
dict_kv = record {
  find_key = λ d k. get k d;
  set_key = λ d k v. put k v d;
  delete_key = λ d k. remove k d;
  scan = λ d prefix. scan_in d prefix d;
}

module _ (d : Dict Bytes StoredValue) (prefix : Bytes) where
  push_under-Memᴰ :
      (k j : Bytes) (v : StoredValue) (o : Option StoredValue) (more : List (Bytes × StoredValue))
      → Memᴰ (k, v) (push_under prefix j o more)
      → Memᴰ (k, v) more ⊎ ((k ≡ j) × (o ≡ some v) × (has_prefix prefix j ≡ true))
  push_under-Memᴰ k j v none more m = inl m
  push_under-Memᴰ k j v (some w) more m = elim (Bool-cases (has_prefix prefix j)) [
    | inl e ↦ go e (subst (λ b. Memᴰ (k, v) (push_when b (j, w) more)) e m)
    | inr e ↦ inl (subst (λ b. Memᴰ (k, v) (push_when b (j, w) more)) e m)
  ]
    where
      go :
          has_prefix prefix j ≡ true
          → Memᴰ (k, v) ((j, w) ∷ more)
          → Memᴰ (k, v) more ⊎ ((k ≡ j) × (some w ≡ some v) × (has_prefix prefix j ≡ true))
      go e (Memᴰ.head h) = inr (
        ap {A = Bytes × StoredValue} (λ p. p.0) h,
        ap {A = Bytes × StoredValue} (λ p. some p.1) (sym h),
        e,
      )
      go e (Memᴰ.tail m') = inl m'

  scan_in-scanned :
      (m : Dict Bytes StoredValue) (k : Bytes) (v : StoredValue)
      → Memᴰ (k, v) (scan_in d prefix m)
      → (get k d ≡ some v) × (has_prefix prefix k ≡ true)
  scan_in-scanned [] k v h = elim h [ ]
  scan_in-scanned ((j, w) ∷ m) k v h =
      elim (push_under-Memᴰ k j v (get j d) (scan_in d prefix m) h) [
        | inl h' ↦ scan_in-scanned m k v h'
        | inr (e, found, starts) ↦ rw e (found, starts)
      ]

  push_under-stays :
      (k j : Bytes) (v : StoredValue) (o : Option StoredValue) (more : List (Bytes × StoredValue))
      → Memᴰ (k, v) more
      → Memᴰ (k, v) (push_under prefix j o more)
  push_under-stays k j v none more m = m
  push_under-stays k j v (some w) more m = elim (Bool-cases (has_prefix prefix j)) [
    | inl e ↦ subst (λ b. Memᴰ (k, v) (push_when b (j, w) more)) (sym e) (Memᴰ.tail m)
    | inr e ↦ subst (λ b. Memᴰ (k, v) (push_when b (j, w) more)) (sym e) m
  ]

  scan_in-scans :
      (m : Dict Bytes StoredValue) (k : Bytes) (v w : StoredValue)
      → get k m ≡ some w
      → get k d ≡ some v
      → has_prefix prefix k ≡ true
      → Memᴰ (k, v) (scan_in d prefix m)
  unfolding get
  scan_in-scans [] k v w e found starts = absurd (ground arith)
  scan_in-scans ((j, u) ∷ m) k v w e found starts = elim (Bool-cases (bytes_beq j k)) [
    | inl same ↦
        let e' : j ≡ k = (bytes_beq_iff j k).0 same in
        rw e' (
          subst (λ o. Memᴰ (k, v) (push_under prefix k o (scan_in d prefix m))) (sym found)
            (subst (λ b. Memᴰ (k, v) (push_when b (k, v) (scan_in d prefix m))) (sym starts)
              (Memᴰ.head refl)))
    | inr differs ↦
        push_under-stays k j v (get j d) (scan_in d prefix m)
          (scan_in-scans m k v w (ground (arith, differs)) found starts)
  ]

dict_kv-KvLaws : KvLaws dict_kv
dict_kv-KvLaws = record {
  find-set = λ d k j v. get-put k j v d;
  find-delete = λ d k j. get-remove k j d;
  scanned = λ d prefix k v m. scan_in-scanned d prefix d k v m;
  scans = λ d prefix k v found starts. scan_in-scans d prefix d k v v found found starts;
}

abbrev Db : Type 0
Db = Dict Bytes StoredValue

abbrev store_of : Db → BadgerStore Db
store_of d = record { db = d; closed = false }

empty-IsIndexed : IsIndexed dict_kv []
unfolding get
empty-IsIndexed = record {
  typed = λ id. refl;
  known = λ id r e. absurd (ground arith);
  indexed = λ id. refl;
}

abbrev calls : List TaskCall
calls =
    save task
    ∷ save task
    ∷ update (codes "t") processing
    ∷ update (codes "t") pending
    ∷ update (codes "t") completed
    ∷ discard (codes "t")
    ∷ discard (codes "t")
    ∷ []

badger_store_refines_example :
    (
      (run_store (badger_store dict_kv) (store_of []) 0 calls).0,
      badger_board dict_kv (run_store (badger_store dict_kv) (store_of []) 0 calls).1,
    )
    ≡ run_board taken (badger_board dict_kv (store_of [])) calls
badger_store_refines_example =
    badger_store_refines dict_kv dict_kv-KvLaws (store_of []) 0 calls (refl, empty-IsIndexed)

-- A second save and a move back to pending are refused, and so is a second deletion.
outcomes :
    (run_board taken (λ id. none) calls).0 ≡ true ∷ false ∷ true ∷ false ∷ true ∷ true ∷ false ∷ []
unfolding run_board
outcomes = refl

abbrev waiting : TaskRecord
waiting = record { task = task; status = pending; created_at = 0; updated_at = 0 }

abbrev one_task : Db
one_task = saved_db dict_kv [] (codes "t") waiting

badger_list_pending_tasks-IsPendingFor_example :
    (tasks : List Task) × (badger_list_pending_tasks_for_avs dict_kv
        (store_of one_task)
        (codes "0xC")
      ≡ ok tasks)
    × ((t : Task) → Memᴰ t tasks ↔ IsPendingFor dict_kv one_task (codes "0xC") t)
badger_list_pending_tasks-IsPendingFor_example =
    badger_list_pending_tasks-IsPendingFor dict_kv dict_kv-KvLaws (store_of one_task) (codes "0xC")
      refl (saved-IsIndexed dict_kv dict_kv-KvLaws [] empty-IsIndexed (codes "t") waiting refl)

abbrev block_of : ℕ → ℕ → BlockRecord
block_of chain n = record {
  number = n;
  hash = n ∷ [];
  parent_hash = n ∷ [];
  timestamp = 0;
  chain_id = chain;
}

abbrev avs : Bytes
avs = codes "0xc"

-- Block 4 of chain 1 and block 9 of chain 17000.
abbrev two_chains : Db
two_chains =
    (make_block_record_key avs 1 4, block_value (block_of 1 4))
    ∷ (make_block_record_key avs 17000 9, block_value (block_of 17000 9))
    ∷ []

two_chains-HoldsBlocks : HoldsBlocks dict_kv two_chains
unfolding get
two_chains-HoldsBlocks k v e h = elim (Bool-cases (bytes_beq (make_block_record_key avs 1 4) k)) [
  | inl same ↦ (block_of 1 4, ground (arith, e, same))
  | inr differs ↦ (block_of 17000 9, ground (arith, e, differs))
]

chain_1_ends :
    (m : ℕ) (b : BlockRecord)
    → dict_kv.find_key two_chains (make_block_record_key avs 1 m) ≡ some (block_value b)
    → b.number < 9
unfolding get make_block_record_key decimal
chain_1_ends m b e =
    elim (Bool-cases (bytes_beq (make_block_record_key avs 1 4) (make_block_record_key avs 1 m))) [
      | inl same ↦ ground (arith, e, same)
      | inr differs ↦ ground (arith, e, differs)
    ]

last_processed_of_other_chain_example :
    (b : BlockRecord) × (badger_last_processed_block dict_kv (store_of two_chains) avs 1 ≡ ok b)
    × ((m : ℕ)
        → ¬ (dict_kv.find_key two_chains (make_block_record_key avs 1 m) ≡ some (block_value b)))
last_processed_of_other_chain_example =
    last_processed_of_other_chain dict_kv dict_kv-KvLaws (store_of two_chains) avs 1 refl
      two_chains-HoldsBlocks 17000 9 (block_of 17000 9) (unfold decimal in refl)
      (unfold get make_block_record_key decimal in refl) chain_1_ends
