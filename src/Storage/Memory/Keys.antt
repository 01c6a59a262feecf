-- ===== src/Storage/Memory/Keys.antt =====
-- The composite keys of memory.go tell blocks and chains of one AVS apart.
use hourglass_monorepo.Prelude.{ℕ, ◌≡◌}
use hourglass_monorepo.Text.{
  Bytes, codes, decimal, decimal_injective, decimal-All, append_cancel, split_colon,
}
use hourglass_monorepo.Storage.Memory.{make_block_key, make_block_record_key}

-- Equal last-block keys of one AVS are of one chain.
pub make_block_key_injective :
    (avs : Bytes) (c c' : ℕ) → make_block_key avs c ≡ make_block_key avs c' → c ≡ c'
unfolding make_block_key
make_block_key_injective avs c c' e =
    decimal_injective c c' (append_cancel (codes ":") (append_cancel avs e))

-- Equal record keys of one AVS are of one chain and one block number.
pub make_block_record_key_injective :
    (avs : Bytes) (c c' n n' : ℕ)
    → make_block_record_key avs c n ≡ make_block_record_key avs c' n'
    → (c ≡ c') × (n ≡ n')
unfolding make_block_record_key
make_block_record_key_injective avs c c' n n' e =
    let parts =
      split_colon (decimal c) (decimal c') (decimal n) (decimal n') (decimal-All c) (decimal-All c')
        (append_cancel (codes ":") (append_cancel avs (append_cancel (codes "block:") e))) in
    (decimal_injective c c' parts.0, decimal_injective n n' parts.1)
