-- ===== src/Storage/Badger/Prefix.antt =====
-- badger.go: the scan of `GetLastProcessedBlock` under `prefixLatestBlock`, which has no separator
-- after the chain id.
use mathlib.Core.List.{Memᴰ}
use hourglass_monorepo.Prelude.{
  ℕ, ◌≤◌, ◌<◌, ◌≡◌, refl, ap, sym, ◌∙◌, subst, true, false, Option, none, some, List, [], ◌∷◌, ◌++◌,
  arith, Bool-cases, inl, inr, ◌⊎◌, ok, ltb, nat_beq_iff,
}
use hourglass_monorepo.Text.{Bytes, codes, decimal, has_prefix}
use hourglass_monorepo.Storage.{BlockRecord}
use hourglass_monorepo.Storage.Memory.{make_block_record_key}
use hourglass_monorepo.Storage.Badger.{
  StoredValue, block_value, Kv, KvLaws, BadgerStore, latest_block_prefix, better, highest,
  badger_last_processed_block,
}

has_prefix-append : (p a b : Bytes) → has_prefix a b ≡ true → has_prefix (p ++ a) (p ++ b) ≡ true
has_prefix-append [] a b h = h
has_prefix-append (x ∷ p) a b h = ground (arith, has_prefix-append p a b h, nat_beq_iff x x)

has_prefix-longer : (a b t : Bytes) → has_prefix a b ≡ true → has_prefix a (b ++ t) ≡ true
has_prefix-longer [] b t h = refl
has_prefix-longer (x ∷ a) [] t h = absurd (ground arith)
has_prefix-longer (x ∷ a) (y ∷ b) t h = ground (arith, has_prefix-longer a b t)

-- The keys of a chain's blocks start with the prefix of any chain whose digits its own start with.
latest_block_prefix-key :
    (avs : Bytes) (c c' n : ℕ)
    → has_prefix (decimal c) (decimal c') ≡ true
    → has_prefix (latest_block_prefix avs c) (make_block_record_key avs c' n) ≡ true
unfolding latest_block_prefix make_block_record_key
latest_block_prefix-key avs c c' n h =
    has_prefix-append (codes "block:") (avs ++ (codes ":" ++ decimal c))
      (avs ++ (codes ":" ++ (decimal c' ++ (codes ":" ++ decimal n))))
      (has_prefix-append avs (codes ":" ++ decimal c)
        (codes ":" ++ (decimal c' ++ (codes ":" ++ decimal n)))
        (has_prefix-append (codes ":") (decimal c) (decimal c' ++ (codes ":" ++ decimal n))
          (has_prefix-longer (decimal c) (decimal c') (codes ":" ++ decimal n) h)))

has_prefix-shorter : (p a s : Bytes) → has_prefix (p ++ a) s ≡ true → has_prefix p s ≡ true
has_prefix-shorter [] a s h = refl
has_prefix-shorter (x ∷ p) a [] h = absurd (ground arith)
has_prefix-shorter (x ∷ p) a (y ∷ s) h = ground (arith, has_prefix-shorter p a s)

latest_block_prefix-block :
    (avs : Bytes) (c : ℕ) (k : Bytes)
    → has_prefix (latest_block_prefix avs c) k ≡ true
    → has_prefix (codes "block:") k ≡ true
unfolding latest_block_prefix
latest_block_prefix-block avs c k =
    has_prefix-shorter (codes "block:") (avs ++ (codes ":" ++ decimal c)) k

-- No record is above the best one; where there is none, no record is there.
abbrev AtLeast : Option BlockRecord → BlockRecord → Type 0
AtLeast none b = ⊥
AtLeast (some best) b = b.number ≤ best.number

AtLeast-better : (o : Option BlockRecord) (b : BlockRecord) → AtLeast (some (better o b)) b
AtLeast-better none b = omega arith
AtLeast-better (some best) b = ground arith

better-AtLeast :
    (o r : Option BlockRecord) (b c : BlockRecord)
    → AtLeast r (better o b)
    → AtLeast o c
    → AtLeast r c
better-AtLeast none r b c h k = absurd k
better-AtLeast (some best) none b c h k = h
better-AtLeast (some best) (some t) b c h k = ground arith

AtLeast-trans : (o r : Option BlockRecord) (b : BlockRecord) → AtLeast r (better o b) → AtLeast r b
AtLeast-trans none r b h = h
AtLeast-trans (some best) none b h = h
AtLeast-trans (some best) (some t) b h = ground arith

-- The result of the loop: the best so far or an entry, and none of them is above it.
record IsHighest (best : Option BlockRecord) (entries : List (Bytes × StoredValue))
    (result : Option BlockRecord) : Type 0 where
  from :
      (result ≡ best)
      ⊎ ((b : BlockRecord) × (k : Bytes) × (result ≡ some b) × Memᴰ (k, block_value b) entries)
  over_best : (b : BlockRecord) → best ≡ some b → AtLeast result b
  over_all : (k : Bytes) (b : BlockRecord) → Memᴰ (k, block_value b) entries → AtLeast result b

-- The entries hold block records.
abbrev HoldBlocks : List (Bytes × StoredValue) → Type 0
HoldBlocks entries =
    (k : Bytes) (v : StoredValue) → Memᴰ (k, v) entries → (b : BlockRecord) × (v ≡ block_value b)

AtLeast-self : (o : Option BlockRecord) (b : BlockRecord) → o ≡ some b → AtLeast o b
AtLeast-self none b h = absurd (ground arith)
AtLeast-self (some c) b h = ground arith

better_cases :
    (o : Option BlockRecord) (b : BlockRecord)
    → (some (better o b) ≡ o) ⊎ (some (better o b) ≡ some b)
better_cases none b = inr refl
better_cases (some best) b = elim (Bool-cases (ltb best.number b.number)) [
  | inl k ↦ inr (rw (k) refl)
  | inr k ↦ inl (rw (k) refl)
]

module _ (best result : Option BlockRecord) {key : Bytes} {v : StoredValue} (b : BlockRecord)
    {entries : List (Bytes × StoredValue)} (e : v ≡ block_value b)
    (ih : IsHighest (some (better best b)) entries result) where
  extend_all :
      (k : Bytes) (c : BlockRecord)
      → Memᴰ (k, block_value c) ((key, v) ∷ entries)
      → AtLeast result c
  extend_all k c (Memᴰ.head e') =
      let same : c ≡ b = ground (arith, ap {A = Bytes × StoredValue} (λ p. p.1) e') in
      subst (AtLeast result) (sym same)
        (AtLeast-trans best result b (ih.over_best (better best b) refl))
  extend_all k c (Memᴰ.tail m) = ih.over_all k c m

  extend_from :
      (result ≡ best)
      ⊎ ((c : BlockRecord) × (k : Bytes) × (result ≡ some c)
          × Memᴰ (k, block_value c) ((key, v) ∷ entries))
  extend_from = elim ih.from [
    | inl r ↦ elim (better_cases best b) [
      | inl k ↦ inl (r ∙ k)
      | inr k ↦ inr (b, key, r ∙ k, Memᴰ.head (ap {A = StoredValue} (λ w. (key, w)) (sym e)))
    ]
    | inr (c, k, r, m) ↦ inr (c, k, r, Memᴰ.tail m)
  ]

  extend : IsHighest best ((key, v) ∷ entries) result
  extend = record {
    from = extend_from;
    over_best = λ c k.
        better-AtLeast best result b c (ih.over_best (better best b) refl) (AtLeast-self best c k);
    over_all = extend_all;
  }

highest-IsHighest :
    (best : Option BlockRecord) (entries : List (Bytes × StoredValue))
    → HoldBlocks entries
    → (result : Option BlockRecord) × (highest best entries ≡ ok result)
      × IsHighest best entries result
unfolding highest
highest-IsHighest best [] h = (
  best,
  refl,
  record { from = inl refl; over_best = AtLeast-self best; over_all = λ k b m. elim m [ ] },
)
highest-IsHighest best ((key, v) ∷ entries) h =
    let (b, e) = h key v (Memᴰ.head refl) in
    let (result, found, ih) =
      highest-IsHighest (some (better best b)) entries (λ k w m. h k w (Memᴰ.tail m)) in
    (result, rw e found, extend best result b e ih)

module _ {D : Type 0} (kv : Kv D) where
  -- The keys of blocks hold block records.
  abbrev pub HoldsBlocks : D → Type 0
  HoldsBlocks d =
      (k : Bytes) (v : StoredValue)
      → kv.find_key d k ≡ some v
      → has_prefix (codes "block:") k ≡ true
      → (b : BlockRecord) × (v ≡ block_value b)

  -- The answer of `GetLastProcessedBlock` is of a record under its prefix, and no record there has
  -- a higher number.
  pub record IsLast (d : D) (avs : Bytes) (c : ℕ) (b : BlockRecord) : Type 0 where
    pub key : Bytes
    pub stored : kv.find_key d key ≡ some (block_value b)
    pub under : has_prefix (latest_block_prefix avs c) key ≡ true
    pub highest :
        (k : Bytes) (other : BlockRecord)
        → kv.find_key d k ≡ some (block_value other)
        → has_prefix (latest_block_prefix avs c) k ≡ true
        → other.number ≤ b.number

  module _ (laws : KvLaws kv) (s : BadgerStore D) (avs : Bytes) (c : ℕ) (open_ : s.closed ≡ false)
      (typed : HoldsBlocks s.db) where
    -- Over an open store whose block keys hold block records, and in which a record lies under the
    -- prefix of the AVS and chain, `GetLastProcessedBlock` succeeds with a record under the prefix
    -- that has the highest number there.
    pub badger_last_processed_block-IsLast :
        (k : Bytes) (some_block : BlockRecord)
        → kv.find_key s.db k ≡ some (block_value some_block)
        → has_prefix (latest_block_prefix avs c) k ≡ true
        → (b : BlockRecord) × (badger_last_processed_block kv s avs c ≡ ok b) × IsLast s.db avs c b
    unfolding badger_last_processed_block
    badger_last_processed_block-IsLast k some_block had starts =
        let p : Bytes = latest_block_prefix avs c in
        let (result, found, h) = highest-IsHighest none (kv.scan s.db p) (λ k v m.
          let (stored, under) = laws.scanned s.db p k v m in
          typed k v stored (latest_block_prefix-block avs c k under)) in
        let over =
          h.over_all k some_block (laws.scans s.db p k (block_value some_block) had starts) in
        elim h.from [
          | inl e ↦ absurd (subst (λ r. AtLeast r some_block) e over)
          | inr (b, key, e, m) ↦
              let (stored, under) = laws.scanned s.db p key (block_value b) m in
              (
                b,
                rw (open_, found, e) refl,
                record {
                  key = key;
                  stored = stored;
                  under = under;
                  highest = λ k other stored' under'.
                      subst (λ r. AtLeast r other) e
                        (h.over_all k other
                          (laws.scans s.db p k (block_value other) stored' under'));
                },
              )
        ]

    -- Where the decimal form of another chain's id starts with that of the given chain's, and a
    -- block of the other chain has a higher number than every block of the given one,
    -- `GetLastProcessedBlock` answers with a block that the given chain does not have, over an open
    -- store whose block keys hold block records.
    pub last_processed_of_other_chain :
        (other n : ℕ) (b' : BlockRecord)
        → has_prefix (decimal c) (decimal other) ≡ true
        → kv.find_key s.db (make_block_record_key avs other n) ≡ some (block_value b')
        → ((m : ℕ) (b : BlockRecord)
            → kv.find_key s.db (make_block_record_key avs c m) ≡ some (block_value b)
            → b.number < b'.number)
        → (b : BlockRecord) × (badger_last_processed_block kv s avs c ≡ ok b)
          × ((m : ℕ) → ¬ (kv.find_key s.db (make_block_record_key avs c m) ≡ some (block_value b)))
    last_processed_of_other_chain other n b' digits had below =
        let key : Bytes = make_block_record_key avs other n in
        let starts = latest_block_prefix-key avs c other n digits in
        let (b, answer, last) = badger_last_processed_block-IsLast key b' had starts in
        (b, answer, λ m own. absurd (omega (arith, below m b own, last.highest key b' had starts)))
