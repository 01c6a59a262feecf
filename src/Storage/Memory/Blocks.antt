-- ===== src/Storage/Memory/Blocks.antt =====
-- The block records of memory.go and the last processed block of a chain.
use hourglass_monorepo.Prelude.{
  ℕ, ◌≡◌, ap, false, ◌&&◌, Option, none, some, arith, if◌then◌else◌, nat_beq, ok, err, ◌⊎◌, inl,
  inr, Option-cases,
}
use hourglass_monorepo.Text.{Bytes, bytes_beq_iff}
use hourglass_monorepo.Dict.{
  get, put, remove, bytes_eq, get-put, get-put_self, get-remove, get-remove_self,
}
use hourglass_monorepo.Storage.{BlockRecord, not_found}
use hourglass_monorepo.Storage.Memory.{
  MemoryStore, make_block_key, make_block_record_key, get_last_processed_block, save_block,
  get_block, delete_block,
}
use hourglass_monorepo.Storage.Memory.Keys.{
  make_block_key_injective, make_block_record_key_injective,
}

-- A block that was saved is the last processed one of its chain, and is found by its number.
pub save_block_lem :
    (s : MemoryStore) (avs : Bytes) (b : BlockRecord) (s' : MemoryStore)
    → save_block s avs (some b) ≡ ok s'
    → (get_last_processed_block s' avs b.chain_id ≡ ok b)
      × (get_block s' avs b.chain_id b.number ≡ ok b)
unfolding save_block get_last_processed_block get_block
save_block_lem s avs b s' h =
    let key = make_block_record_key avs b.chain_id b.number in
    let last = make_block_key avs b.chain_id in
    (
      ground
          (arith, get-put_self key b s.blocks, get-put_self last b.number s.last_processed_blocks),
      ground (arith, get-put_self key b s.blocks),
    )

-- The two maps as a chain's keys read them.
module _ (avs : Bytes) where
  abbrev pub stored_block : MemoryStore → ℕ → ℕ → Option BlockRecord
  stored_block s c n = get (make_block_record_key avs c n) s.blocks

  abbrev pub last_number : MemoryStore → ℕ → Option ℕ
  last_number s c = get (make_block_key avs c) s.last_processed_blocks

  -- Saving a block writes the record of its own chain and number and the last number of its own
  -- chain, and no other record or last number of the AVS.
  pub save_block_frame :
      (s : MemoryStore) (b : BlockRecord) (s' : MemoryStore) (c n : ℕ)
      → save_block s avs (some b) ≡ ok s'
      → (stored_block s' c n
          ≡ (if nat_beq b.chain_id c && nat_beq b.number n then some b else stored_block s c n))
        × (last_number s' c ≡ (if nat_beq b.chain_id c then some b.number else last_number s c))
  unfolding save_block
  save_block_frame s b s' c n h = (
    ground (
      arith,
      get-put (make_block_record_key avs b.chain_id b.number) (make_block_record_key avs c n) b
          s.blocks,
      bytes_beq_iff (make_block_record_key avs b.chain_id b.number) (make_block_record_key avs c n),
      make_block_record_key_injective avs b.chain_id c b.number n,
      ap (make_block_record_key avs b.chain_id) {x = b.number} {y = n},
    ),
    ground (
      arith,
      get-put (make_block_key avs b.chain_id) (make_block_key avs c) b.number
          s.last_processed_blocks,
      bytes_beq_iff (make_block_key avs b.chain_id) (make_block_key avs c),
      make_block_key_injective avs b.chain_id c,
    ),
  )

  -- Deleting a block removes the record of its chain and number, no other record of the AVS, and
  -- no last processed number.
  pub delete_block_frame :
      (s : MemoryStore) (c m : ℕ) (s' : MemoryStore) (c' n : ℕ)
      → delete_block s avs c m ≡ ok s'
      → (stored_block s' c' n ≡ (if nat_beq c c' && nat_beq m n then none else stored_block s c' n))
        × (last_number s' c' ≡ last_number s c')
  unfolding delete_block
  delete_block_frame s c m s' c' n h = (
    ground (
      arith,
      get-remove (make_block_record_key avs c m) (make_block_record_key avs c' n) s.blocks,
      bytes_beq_iff (make_block_record_key avs c m) (make_block_record_key avs c' n),
      make_block_record_key_injective avs c c' m n,
    ),
    ground arith,
  )

-- Deleting the last processed block leaves the chain with no last processed block at all: the
-- number stays behind, and names a record that is gone.
pub delete_last_block :
    (s : MemoryStore) (avs : Bytes) (b : BlockRecord) (s' : MemoryStore)
    → get_last_processed_block s avs b.chain_id ≡ ok b
    → last_number avs s b.chain_id ≡ some b.number
    → delete_block s avs b.chain_id b.number ≡ ok s'
    → get_last_processed_block s' avs b.chain_id ≡ err not_found
unfolding get_last_processed_block delete_block
delete_last_block s avs b s' was last h =
    ground (arith, get-remove_self (make_block_record_key avs b.chain_id b.number) s.blocks)

pub closed-delete_block :
    (s : MemoryStore) (avs : Bytes) (c n : ℕ) (s' : MemoryStore)
    → delete_block s avs c n ≡ ok s'
    → s'.closed ≡ s.closed
unfolding delete_block
closed-delete_block s avs c n s' h = ground arith

-- An open store's deletion leaves no record behind, whether there was one or not.
pub delete_block_outcome :
    (s : MemoryStore) (avs : Bytes) (c n : ℕ)
    → s.closed ≡ false
    → ((s' : MemoryStore) × (delete_block s avs c n ≡ ok s') × (stored_block avs s' c n ≡ none))
      ⊎ ((delete_block s avs c n ≡ err not_found) × (stored_block avs s c n ≡ none))
unfolding delete_block
delete_block_outcome s avs c n open_ =
    elim (Option-cases (get (make_block_record_key avs c n) s.blocks)) [
      | inl e ↦ inr (rw (open_, e), e)
      | inr (b, e) ↦ inl (
        record s { blocks = remove (make_block_record_key avs c n) s.blocks },
        rw (open_, e),
        get-remove_self (make_block_record_key avs c n) s.blocks,
      )
    ]

-- The last processed block is read through the two maps.
pub get_last_processed_block_stored :
    (s : MemoryStore) (avs : Bytes) (c n : ℕ) (b : BlockRecord)
    → s.closed ≡ false
    → last_number avs s c ≡ some n
    → stored_block avs s c n ≡ some b
    → get_last_processed_block s avs c ≡ ok b
unfolding get_last_processed_block
get_last_processed_block_stored s avs c n b open_ last stored = ground arith

-- An open store saves any block and stays open.
pub save_block_open :
    (s : MemoryStore) (avs : Bytes) (b : BlockRecord)
    → s.closed ≡ false
    → (s' : MemoryStore) × (save_block s avs (some b) ≡ ok s') × (s'.closed ≡ false)
unfolding save_block
save_block_open s avs b open_ = (
  record s {
    blocks = put (make_block_record_key avs b.chain_id b.number) b s.blocks;
    last_processed_blocks = put (make_block_key avs b.chain_id) b.number s.last_processed_blocks;
  },
  rw open_,
  open_,
)
