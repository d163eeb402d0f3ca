-- ===== src/Lfu/Refreshes.antt =====
-- `put` of a key that is there: its node gets the value, and is used.
use cpp_ai_service.Base.{
  ℕ, ◌≡◌, refl, sym, ap, true, false, Option, none, some, arith, Bytes, ==_refl, if◌then◌else◌,
  is_empty, same_bytes, same_bytes_iff, same_bytes_refl, ◌∙◌, Bool-cases, inl, inr, length,
}
use cpp_ai_service.Base.Dictionary.{bytes_key, nat_key, lookup, assign, lookup-assign}
use cpp_ai_service.Base.Distinct.{Distinct-assign, length-assign_old}
use cpp_ai_service.Lfu.Cache.{Node, Cache, get_internal}
use cpp_ai_service.Lfu.Linked.{has_freq}
use cpp_ai_service.Lfu.Counting.{sum_freq-assign_old}
use cpp_ai_service.Lfu.Invariant.{IsCache, value_of}
use cpp_ai_service.Lfu.Uses.{filled_of_lookup, get_internal_total}
use cpp_ai_service.Lfu.Stores.{IsPut}

module _ (c : Cache) (key value : Bytes) (s : IsCache c) (node : Node)
    (found : lookup key c.nodes ≡ some node) where
  abbrev fresh : Node
  fresh = record node { value = value }

  abbrev refreshed : Cache
  refreshed = record c { nodes = assign node.key fresh c.nodes }

  named : node.key ≡ key
  named = s.sound.linked.named key node found

  looks_refreshed :
      (k : Bytes)
      → lookup k refreshed.nodes ≡ (if same_bytes node.key k then some fresh else lookup k c.nodes)
  looks_refreshed k = lookup-assign node.key k fresh c.nodes

  found' : lookup node.key c.nodes ≡ some node
  found' = ap (λ (k : Bytes). lookup k c.nodes) named ∙ found

  at_fresh : lookup node.key refreshed.nodes ≡ some fresh
  at_fresh = looks_refreshed node.key ∙ (rw (same_bytes_refl node.key) refl)

  -- Each node of the old cache has one of its frequency in the new one, and the other way round.
  same_freqs :
      (k : Bytes) (f : ℕ) → has_freq (lookup k refreshed.nodes) f ≡ has_freq (lookup k c.nodes) f
  same_freqs k f = elim (Bool-cases (same_bytes node.key k)) [
    | inr other ↦
        let e : lookup k refreshed.nodes ≡ lookup k c.nodes = looks_refreshed k ∙ (rw other refl) in
        ap (λ (o : Option Node). has_freq o f) e
    | inl same ↦
        let e : lookup k refreshed.nodes ≡ some fresh = looks_refreshed k ∙ (rw same refl) in
        let at : lookup k c.nodes ≡ some node =
          ap (λ (j : Bytes). lookup j c.nodes) (sym ((same_bytes_iff node.key k).0 same))
          ∙ found' in
        ap (λ (o : Option Node). has_freq o f) e ∙ sym (ap (λ (o : Option Node). has_freq o f) at)
  ]

  carried :
      (k : Bytes) (n : Node)
      → lookup k c.nodes ≡ some n
      → (n' : Node) × (lookup k refreshed.nodes ≡ some n') × (n'.freq ≡ n.freq)
  carried k n at = of_lookup (lookup k refreshed.nodes) refl
    where
      has : has_freq (lookup k refreshed.nodes) n.freq ≡ true
      has = same_freqs k n.freq ∙ ap (λ (o : Option Node). has_freq o n.freq) at ∙ ==_refl n.freq

      of_lookup :
          (o : Option Node)
          → lookup k refreshed.nodes ≡ o
          → (n' : Node) × (lookup k refreshed.nodes ≡ some n') × (n'.freq ≡ n.freq)
      of_lookup none e = absurd (ground (arith, has))
      of_lookup (some n') e = (n', e, ground (arith, has))

  carried_back :
      (k : Bytes) (n' : Node)
      → lookup k refreshed.nodes ≡ some n'
      → (n : Node) × (lookup k c.nodes ≡ some n) × (n.freq ≡ n'.freq)
  carried_back k n' at = of_lookup (lookup k c.nodes) refl
    where
      has : has_freq (lookup k c.nodes) n'.freq ≡ true
      has =
          sym (same_freqs k n'.freq)
          ∙ ap (λ (o : Option Node). has_freq o n'.freq) at
          ∙ ==_refl n'.freq

      of_lookup :
          (o : Option Node)
          → lookup k c.nodes ≡ o
          → (n : Node) × (lookup k c.nodes ≡ some n) × (n.freq ≡ n'.freq)
      of_lookup none e = absurd (ground (arith, has))
      of_lookup (some n) e = (n, e, ground (arith, has))

  filled : is_empty c.nodes ≡ false
  filled = filled_of_lookup key c.nodes found

  size : length refreshed.nodes ≡ length c.nodes
  size = length-assign_old node.key fresh c.nodes found'

  refreshed-IsCache : IsCache refreshed
  refreshed-IsCache = record {
    sound = record {
      linked = record {
        linked = λ f k. s.sound.linked.linked f k ∙ sym (same_freqs k f);
        named = λ k n at.
            ground (arith, looks_refreshed k, s.sound.linked.named k n, same_bytes_iff node.key k);
      };
      positive = λ k n at.
          let (n', at', e) = carried_back k n at in omega (arith, e, s.sound.positive k n' at');
      distinct_nodes = Distinct-assign node.key fresh c.nodes s.sound.distinct_nodes;
      distinct_lists = s.sound.distinct_lists;
      bounded = omega (arith, size, s.sound.bounded);
      ages = s.sound.ages;
      narrow = s.sound.narrow;
    };
    counted =
        omega (arith, sum_freq-assign_old node.key fresh c.nodes {old = node} found', s.counted);
    seldom = λ _.
        let (k, n, at, lt) = s.seldom filled in
        let (n', at', e) = carried k n at in (k, n', at', omega (arith, e));
    least = λ _.
        let (k, n, at, low) = s.least filled in
        let (n', at', e) = carried k n at in (k, n', at', e ∙ low);
    lowest =
        λ k n at. let (n', at', e) = carried_back k n at in omega (arith, e, s.lowest k n' at');
    start = s.start;
  }

  pub refreshed-IsPut :
      (after : Cache) × (get_internal refreshed fresh ≡ some (after, value))
      × IsCache after
      × IsPut c key value after
  refreshed-IsPut =
      let (after, ran, is_cache, same) =
        get_internal_total refreshed fresh refreshed-IsCache at_fresh in
      let at : lookup key refreshed.nodes ≡ some fresh =
        ap (λ (k : Bytes). lookup k refreshed.nodes) (sym named) ∙ at_fresh in
      (
        after,
        ran,
        is_cache,
        record {
          stored = same.values key ∙ ap value_of at;
          kept = λ k ne.
              let old : lookup k refreshed.nodes ≡ lookup k c.nodes =
                looks_refreshed k ∙ ground (arith, same_bytes_iff node.key k, named) in
              inl (same.values k ∙ ap value_of old);
          same_capacity = same.same_capacity;
          same_most = same.same_most;
        },
      )
