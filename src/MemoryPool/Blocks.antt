-- ===== src/MemoryPool/Blocks.antt =====
-- A new block, and the next slot of a block.
use cpp_ai_service.Base.{
  ℕ, ◌+◌, ◌-◌, ◌*◌, ◌/◌, ◌<◌, ◌≤◌, ◌≡◌, ◌∙◌, ap, subst, Bool, true, false, ◌&&◌, ◌||◌, List, [],
  ◌∷◌, ◌++◌, some, ltb, leb, ◌==◌, arith, All, Bool-cases, inl, inr,
}
use cpp_ai_service.MemoryPool.Pool.{MemoryPool, pad_pointer, allocate_new_block, take_slot}
use cpp_ai_service.MemoryPool.Apart.{
  is_apart, AllApart, in_blocks, is_outside, in_blocks-apart, All-map,
}
use cpp_ai_service.MemoryPool.Uses.{InUse, with_slot}

-- The rest of the current block, from `cur_slot` to the end of the last slot.
abbrev pub has_rest : MemoryPool → Bool
has_rest pool = ltb pool.cur_slot pool.last_slot

-- It is behind the pointer of a block, and its end is that of the block.
abbrev pub rest_in : ℕ → List ℕ → ℕ → ℕ → Bool
rest_in size [] cur_slot last_slot = false
rest_in size (block ∷ blocks) cur_slot last_slot =
    leb (block + 8) cur_slot && last_slot + size == block + 4097
    || rest_in size blocks cur_slot last_slot

rest_in_lem :
    (size : ℕ) (blocks : List ℕ) (cur_slot last_slot : ℕ)
    → cur_slot < last_slot
    → rest_in size blocks cur_slot last_slot ≡ true
    → in_blocks size blocks cur_slot ≡ true
rest_in_lem size [] cur_slot last_slot h e = absurd (ground (arith, e))
rest_in_lem size (block ∷ blocks) cur_slot last_slot h e =
    elim (Bool-cases (rest_in size blocks cur_slot last_slot)) [
      | inl deeper ↦ ground (arith, rest_in_lem size blocks cur_slot last_slot h deeper)
      | inr here ↦ ground (arith, here, e, h)
    ]

rest_in_moved :
    (size : ℕ) (blocks : List ℕ) (cur_slot last_slot : ℕ)
    → rest_in size blocks cur_slot last_slot ≡ true
    → rest_in size blocks (cur_slot + size) last_slot ≡ true
rest_in_moved size [] cur_slot last_slot e = e
rest_in_moved size (block ∷ blocks) cur_slot last_slot e =
    elim (Bool-cases (rest_in size blocks cur_slot last_slot)) [
      | inl deeper ↦ ground (arith, rest_in_moved size blocks cur_slot last_slot deeper)
      | inr here ↦ ground (arith, here, e)
    ]

-- No slot in use and no free one is in the rest of the current block.
abbrev pub avoids : ℕ → MemoryPool → ℕ → Bool
avoids size pool slot = is_outside size pool.cur_slot (pool.last_slot + size - 1) slot

-- The sizes that the slots of a pool have.
pub record IsSlotSize (size : ℕ) : Type 0 where
  pub multiple : size / 8 * 8 ≡ size
  pub positive : 0 < size
  pub small : size ≤ 512

module _ (size : ℕ) where
  pub record IsApart (u : InUse) : Type 0 where
    pub slot_size : u.pool.slot_size ≡ size
    pub block_size : u.pool.block_size ≡ 4096
    pub within :
        All (λ (slot : ℕ). in_blocks size u.pool.blocks slot ≡ true) (u.live ++ u.pool.free_list)
    pub apart : AllApart size (u.live ++ u.pool.free_list)
    pub rest_within :
        has_rest u.pool ≡ true → rest_in size u.pool.blocks u.pool.cur_slot u.pool.last_slot ≡ true
    pub rest_apart :
        has_rest u.pool ≡ true
        → All (λ (slot : ℕ). avoids size u.pool slot ≡ true) (u.live ++ u.pool.free_list)

module _ (size : ℕ) (z : IsSlotSize size) where
  -- The next slot of a block that has one.
  pub taken-IsApart :
      (u : InUse)
      → has_rest u.pool ≡ true
      → IsApart size u
      → IsApart size (with_slot u (some (take_slot u.pool)))
  unfolding take_slot
  taken-IsApart u rest a =
      let held = u.live ++ u.pool.free_list in
      let cur = u.pool.cur_slot in
      let moved : cur + u.pool.slot_size / 8 * 8 ≡ cur + size =
        ap (λ (n : ℕ). cur + n / 8 * 8) a.slot_size ∙ ap (λ (n : ℕ). cur + n) z.multiple in
      record {
        slot_size = a.slot_size;
        block_size = a.block_size;
        within = (
          rest_in_lem size u.pool.blocks cur u.pool.last_slot (ground (arith, rest))
              (a.rest_within rest),
          a.within,
        );
        apart = (
          All-map (λ slot avoided. ground (arith, avoided, rest, z.positive)) held
              (a.rest_apart rest),
          a.apart,
        );
        rest_within = λ _.
            rw moved (rest_in_moved size u.pool.blocks cur u.pool.last_slot (a.rest_within rest));
        rest_apart = λ _. rw moved (
            (
              ground arith,
              All-map (λ slot avoided. ground (arith, avoided)) held (a.rest_apart rest),
            ));
      }

  padding_lem : (p : ℕ) → pad_pointer p size < size
  unfolding pad_pointer
  padding_lem p = omega (arith, z.positive)

  -- The slots of the other blocks, once a new block is there.
  pub renewed-IsApart :
      (u : InUse) (block : ℕ)
      → u.pool.free_list ≡ []
      → All (λ (other : ℕ). is_apart 4096 block other ≡ true) u.pool.blocks
      → IsApart size u
      → IsApart size (record u { pool = allocate_new_block block u.pool })
        × (has_rest (allocate_new_block block u.pool) ≡ true)
  unfolding allocate_new_block
  renewed-IsApart u block none_free fresh a =
      let held : u.live ++ u.pool.free_list ≡ u.live ++ [] =
        ap (λ (l : List ℕ). u.live ++ l) none_free in
      let within =
        subst (All (λ (slot : ℕ). in_blocks size u.pool.blocks slot ≡ true)) held a.within in
      let padding = padding_lem (block + 8) in
      (
        record {
          slot_size = a.slot_size;
          block_size = a.block_size;
          within = All-map (λ slot old. ground (arith, old)) (u.live ++ []) within;
          apart = subst (AllApart size) held a.apart;
          rest_within = λ _. rw (a.slot_size, a.block_size) (ground (arith, z.small));
          rest_apart = λ _.
              rw (a.slot_size, a.block_size)
                (All-map
                  (λ slot old.
                    let far = in_blocks-apart size u.pool.blocks block slot fresh old in
                    ground (arith, far, z.small))
                  (u.live ++ []) within);
        },
        rw (a.slot_size, a.block_size) (ground (arith, padding, z.small)),
      )
