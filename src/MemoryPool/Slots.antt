-- ===== src/MemoryPool/Slots.antt =====
-- The slots that a pool has given out lie in its blocks and do not overlap.
use Prim.{tt}
use cpp_ai_service.Base.{
  ℕ, ◌+◌, ◌*◌, ◌<◌, ◌≡◌, ◌∙◌, sym, ap, subst, refl, true, List, [], ◌∷◌, ◌++◌, Option, some, leb,
  arith, All, take, drop, cut_at, Option-cases, append-nil, if_lem, inl, inr,
}
use cpp_ai_service.MemoryPool.Pool.{
  MemoryPool, init, allocate_new_block, new_slot, block_slot, free_slot, allocate, deallocate,
}
use cpp_ai_service.MemoryPool.Apart.{
  All-out, is_apart, AllApart, AllApart-out, All-freed, AllApart-freed, in_blocks, All-first,
  AllApart-first,
}
use cpp_ai_service.MemoryPool.Buckets.{initial_pool}
use cpp_ai_service.MemoryPool.Uses.{
  InUse, Use, taking, giving, without_slot, with_slot, use_once, use_all,
}
use cpp_ai_service.MemoryPool.Blocks.{avoids, IsSlotSize, IsApart, taken-IsApart, renewed-IsApart}

module _ (size : ℕ) (z : IsSlotSize size) where
  module _ (new : List ℕ → Option ℕ)
      (fresh : (blocks : List ℕ) (block : ℕ)
        → new blocks ≡ some block
        → All (λ (other : ℕ). is_apart 4096 block other ≡ true) blocks) where
    new_slot-IsApart :
        (u : InUse)
        → u.pool.free_list ≡ []
        → IsApart size u
        → IsApart size (with_slot u (new_slot new u.pool))
    unfolding new_slot
    new_slot-IsApart u none_free a = elim (Option-cases (new u.pool.blocks)) [
      | inl e ↦ rw e a
      | inr (block, e) ↦
          let (b, rest) =
            renewed-IsApart size z u block none_free (fresh u.pool.blocks block e) a in
          rw e (taken-IsApart size z (record u { pool = allocate_new_block block u.pool }) rest b)
    ]

    block_slot-IsApart :
        (u : InUse)
        → u.pool.free_list ≡ []
        → IsApart size u
        → IsApart size (with_slot u (block_slot new u.pool))
    unfolding block_slot
    block_slot-IsApart u none_free a =
        if_lem (λ (o : Option (ℕ × MemoryPool)). IsApart size (with_slot u o))
          (leb u.pool.last_slot u.pool.cur_slot) (λ _. new_slot-IsApart u none_free a)
          (λ e. taken-IsApart size z u (ground (arith, e)) a)

    -- The first free slot.
    free_slot-IsApart :
        (u : InUse) (free : List ℕ)
        → u.pool.free_list ≡ free
        → IsApart size u
        → IsApart size (with_slot u (free_slot new u.pool free))
    free_slot-IsApart u [] e a = block_slot-IsApart u e a
    free_slot-IsApart u (slot ∷ free) e a =
        let held : u.live ++ u.pool.free_list ≡ u.live ++ slot ∷ free =
          ap (λ (l : List ℕ). u.live ++ l) e in
        record {
          slot_size = a.slot_size;
          block_size = a.block_size;
          within =
              (let P : ℕ → Type 0 = λ x. in_blocks size u.pool.blocks x ≡ true in
                All-out P u.live slot free (subst (All P) held a.within));
          apart = AllApart-out size u.live slot free (subst (AllApart size) held a.apart);
          rest_within = a.rest_within;
          rest_apart = λ rest.
              (let P : ℕ → Type 0 = λ x. avoids size u.pool x ≡ true in
                All-out P u.live slot free (subst (All P) held (a.rest_apart rest)));
        }

    without_slot-IsApart :
        (u : InUse) (before after : List ℕ)
        → before ++ after ≡ u.live
        → IsApart size u
        → IsApart size (without_slot u.pool before after)
    unfolding deallocate
    without_slot-IsApart u before [] e a =
        subst (λ (l : List ℕ). IsApart size (record { pool = u.pool; live = l }))
          (sym e ∙ append-nil before) a
    without_slot-IsApart u before (slot ∷ after) e a =
        let held : u.live ++ u.pool.free_list ≡ (before ++ slot ∷ after) ++ u.pool.free_list =
          ap (λ (l : List ℕ). l ++ u.pool.free_list) (sym e) in
        record {
          slot_size = a.slot_size;
          block_size = a.block_size;
          within =
              (let P : ℕ → Type 0 = λ x. in_blocks size u.pool.blocks x ≡ true in
                All-freed P before slot after u.pool.free_list (subst (All P) held a.within));
          apart =
              AllApart-freed size before slot after u.pool.free_list
                (subst (AllApart size) held a.apart);
          rest_within = a.rest_within;
          rest_apart = λ rest.
              (let P : ℕ → Type 0 = λ x. avoids size u.pool x ≡ true in
                All-freed P before slot after u.pool.free_list
                  (subst (All P) held (a.rest_apart rest)));
        }

    used-IsApart :
        (u : InUse) (uses : List Use) → IsApart size u → IsApart size (use_all new u uses)
    unfolding use_all use_once allocate
    used-IsApart u [] a = a
    used-IsApart u (taking ∷ uses) a =
        used-IsApart (use_once new u taking) uses (free_slot-IsApart u u.pool.free_list refl a)
    used-IsApart u (giving place ∷ uses) a =
        used-IsApart (use_once new u (giving place)) uses
          (without_slot-IsApart u (take place u.live) (drop place u.live) (cut_at place u.live) a)

    start-IsApart : IsApart size (record { pool = init size; live = [] })
    unfolding init
    start-IsApart = record {
      slot_size = refl;
      block_size = refl;
      within = tt;
      apart = tt;
      rest_within = λ e. absurd (ground (arith, e));
      rest_apart = λ e. absurd (ground (arith, e));
    }

-- A pool of `HashBucket`, and what its owners have of it.
abbrev pub pool_after : (List ℕ → Option ℕ) → ℕ → List Use → InUse
pool_after new index uses = use_all new (record { pool = initial_pool index; live = [] }) uses

-- For a pool of `HashBucket` and an `operator new` that gives blocks that overlap no block that there
-- is, however the owners allocate and free: the slots in use lie in the blocks, behind the pointer to
-- the next block, and no two of them overlap.
pub use_all-AllApart :
    (index : ℕ)
    → index < 64
    → (new : List ℕ → Option ℕ)
    → ((blocks : List ℕ) (block : ℕ)
        → new blocks ≡ some block
        → All (λ (other : ℕ). is_apart 4096 block other ≡ true) blocks)
    → (uses : List Use)
    → All
        (λ (slot : ℕ).
          in_blocks ((index + 1) * 8) (pool_after new index uses).pool.blocks slot ≡ true)
        (pool_after new index uses).live
      × AllApart ((index + 1) * 8) (pool_after new index uses).live
unfolding initial_pool
use_all-AllApart index h new fresh uses =
    let size = (index + 1) * 8 in
    let z : IsSlotSize size = record {
      multiple = omega arith;
      positive = omega arith;
      small = omega (arith, h);
    } in
    let u = pool_after new index uses in
    let a =
      used-IsApart size z new fresh (record { pool = initial_pool index; live = [] }) uses
        (start-IsApart size z new fresh) in
    (
      All-first _ u.live u.pool.free_list a.within,
      AllApart-first size u.live u.pool.free_list a.apart,
    )
