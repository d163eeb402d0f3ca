-- ===== src/Lfu/Stores.antt =====
-- What `put` does, whether the key is there, the cache has room, or a node must go.
use cpp_ai_service.Base.{
  ◌≡◌, ◌≢◌, refl, ap, true, false, none, some, arith, Bytes, ◌==◌, if◌then◌else◌, same_bytes,
  same_bytes_iff, same_bytes_refl, ◌∙◌, Bool-cases, inl, inr, ◌⊎◌, length,
}
use cpp_ai_service.Base.Dictionary.{bytes_key, nat_key, lookup, erase, lookup-erase}
use cpp_ai_service.Lfu.Cache.{
  Node, Cache, kick_out, put_internal, add_freq_num, add_to_freq_list, set_node, decrease_freq_num,
}
use cpp_ai_service.Lfu.Linked.{added}
use cpp_ai_service.Lfu.Invariant.{IsCache, value_of, length_filled}
use cpp_ai_service.Lfu.Puts.{HasRoom, one_least, grown-IsAdded}
use cpp_ai_service.Lfu.Evictions.{IsVictim, without, kick_out_total}

-- A key was thrown out: the cache was full, and the key had the least frequency.
pub record IsEvicted (c : Cache) (k : Bytes) (after : Cache) : Type 0 where
  pub full : length c.nodes ≡ c.capacity
  pub victim : Node
  pub is_victim : IsVictim c victim
  pub is_key : victim.key ≡ k
  pub gone : value_of (lookup k after.nodes) ≡ none

-- What `put` leaves: the key has the value, and any other key the one it had, but for at most one
-- that was thrown out to make room for a new key.
pub record IsPut (c : Cache) (key value : Bytes) (after : Cache) : Type 0 where
  pub stored : value_of (lookup key after.nodes) ≡ some value
  pub kept :
      (k : Bytes)
      → key ≢ k
      → (value_of (lookup k after.nodes) ≡ value_of (lookup k c.nodes))
        ⊎ ((lookup key c.nodes ≡ none) × IsEvicted c k after)
  pub same_capacity : after.capacity ≡ c.capacity
  pub same_most : after.max_average_num ≡ c.max_average_num

module _ (c : Cache) (key value : Bytes) (s : IsCache c) (open_cache : c.capacity ≢ 0) where
  abbrev new_node : Node
  new_node = record { freq = 1; key = key; value = value }

  put_internal_of :
      {room after : Cache}
      → (if length c.nodes == c.capacity then kick_out c else some c) ≡ some room
      → add_freq_num (added room new_node) ≡ some after
      → put_internal c key value ≡ some (one_least after)
  unfolding put_internal add_to_freq_list set_node
  put_internal_of {room} {after} e ran = rw (e, put_internal) (rw ran refl)

  other_key : {k : Bytes} → key ≢ k → same_bytes key k ≡ false
  other_key {k} ne = ground (arith, same_bytes_iff key k, ne)

  pub roomy-IsPut :
      lookup key c.nodes ≡ none
      → (length c.nodes == c.capacity) ≡ false
      → (after : Cache) × (put_internal c key value ≡ some after)
        × IsCache after
        × IsPut c key value after
  roomy-IsPut absent e =
      let room : HasRoom c = record {
        sound = s.sound;
        counted = s.counted;
        start = s.start;
        room = ground (arith, s.sound.bounded);
      } in
      let (after, ran, is_cache, a) = grown-IsAdded c key value room absent in
      (
        one_least after,
        put_internal_of (rw e refl) ran,
        is_cache,
        record {
          stored = a.values key ∙ (rw (same_bytes_refl key) refl);
          kept = λ k ne. inl (a.values k ∙ (let o = other_key ne in rw o refl));
          same_capacity = a.same_capacity;
          same_most = a.same_most;
        },
      )

  pub full-IsPut :
      lookup key c.nodes ≡ none
      → (length c.nodes == c.capacity) ≡ true
      → (after : Cache) × (put_internal c key value ≡ some after)
        × IsCache after
        × IsPut c key value after
  unfolding decrease_freq_num
  full-IsPut absent e =
      let (victim, v, kicked, room) =
        kick_out_total c s (length_filled c.nodes (ground (arith, open_cache))) in
      let still_absent : lookup key (without c victim).nodes ≡ none =
        ground (arith, lookup-erase victim.key key c.nodes) in
      let (after, ran, is_cache, a) =
        grown-IsAdded (without c victim) key value room still_absent in
      let kicked' : (if length c.nodes == c.capacity then kick_out c else some c)
          ≡ some (without c victim) =
        (rw e refl) ∙ kicked in
      (
        one_least after,
        put_internal_of kicked' ran,
        is_cache,
        record {
          stored = a.values key ∙ (rw (same_bytes_refl key) refl);
          kept = λ k ne. elim (Bool-cases (same_bytes victim.key k)) [
            | inl same ↦
                let empty : lookup k (erase victim.key c.nodes) ≡ none =
                  lookup-erase victim.key k c.nodes ∙ (rw same refl) in
                inr (
                  absent,
                  record {
                    full = ground arith;
                    victim = victim;
                    is_victim = v;
                    is_key = (same_bytes_iff victim.key k).0 same;
                    gone = a.values k ∙ (let o = other_key ne in rw o (ap value_of empty));
                  },
                )
            | inr other ↦
                let old : lookup k (erase victim.key c.nodes) ≡ lookup k c.nodes =
                  lookup-erase victim.key k c.nodes ∙ (rw other refl) in
                inl (a.values k ∙ (let o = other_key ne in rw o (ap value_of old)))
          ];
          same_capacity = a.same_capacity;
          same_most = a.same_most;
        },
      )
