-- ===== src/Lfu/Puts.antt =====
-- `putInternal`, with the node that it may throw out.
use cpp_ai_service.Base.{
  ℕ, ◌+◌, ◌≤◌, ◌<◌, ◌≡◌, refl, ap, none, some, arith, Bytes, min, if◌then◌else◌, same_bytes,
  same_bytes_refl, ◌∙◌, Bool-cases, inl, inr, length,
}
use cpp_ai_service.Base.Dictionary.{bytes_key, nat_key, lookup, lookup-assign}
use cpp_ai_service.Base.Distinct.{Distinct-assign, length-assign_new}
use cpp_ai_service.Lfu.Cache.{Node, Cache, aged, add_freq_num}
use cpp_ai_service.Lfu.Linked.{added, add-IsLinked}
use cpp_ai_service.Lfu.Counting.{sum_freq, sum_freq-assign_new}
use cpp_ai_service.Lfu.Invariant.{IsSound, IsCache, IsTouched, HasSeldom, value_of}
use cpp_ai_service.Lfu.Counted.{add_freq_num_cases, with_use}
use cpp_ai_service.Lfu.Uses.{filled_of_lookup}

abbrev pub one_least : Cache → Cache
one_least c = record c { min_freq = min c.min_freq 1 }

-- A node was used once, so the least frequency is one.
one_least-IsCache :
    (c : Cache) (key : Bytes) (node : Node)
    → IsSound c
    → sum_freq c.nodes ≤ c.cur_total_num
    → HasSeldom (c.max_average_num + 2) c
    → lookup key c.nodes ≡ some node
    → node.freq ≡ 1
    → 1 ≤ c.min_freq
    → IsCache (one_least c)
one_least-IsCache c key node s counted seldom at once start = record {
  sound = record {
    linked = record { linked = s.linked.linked; named = s.linked.named };
    positive = s.positive;
    distinct_nodes = s.distinct_nodes;
    distinct_lists = s.distinct_lists;
    bounded = s.bounded;
    ages = s.ages;
    narrow = s.narrow;
  };
  counted = counted;
  seldom = λ _. seldom;
  least = λ _. (key, node, at, omega arith);
  lowest = λ k n at_k. omega (arith, s.positive k n at_k);
  start = omega arith;
}

-- A cache with room for one more node.
pub record HasRoom (c : Cache) : Type 0 where
  pub sound : IsSound c
  pub counted : sum_freq c.nodes ≤ c.cur_total_num
  pub start : 1 ≤ c.min_freq
  pub room : length c.nodes < c.capacity

aged_once : (most : ℕ) → 2 ≤ most → aged most 1 ≡ 1
unfolding aged
aged_once most h = ground arith

-- The key has the value, and the others have theirs.
pub record IsAdded (c : Cache) (key value : Bytes) (after : Cache) : Type 0 where
  pub values :
      (k : Bytes)
      → value_of (lookup k after.nodes)
        ≡ (if same_bytes key k then some value else value_of (lookup k c.nodes))
  pub same_capacity : after.capacity ≡ c.capacity
  pub same_most : after.max_average_num ≡ c.max_average_num

module _ (c : Cache) (key value : Bytes) (h : HasRoom c) (absent : lookup key c.nodes ≡ none) where
  abbrev node : Node
  node = record { freq = 1; key = key; value = value }

  abbrev grown : Cache
  grown = added c node

  looks_grown :
      (k : Bytes)
      → lookup k grown.nodes ≡ (if same_bytes key k then some node else lookup k c.nodes)
  looks_grown k = lookup-assign key k node c.nodes

  at_key : lookup key grown.nodes ≡ some node
  at_key = looks_grown key ∙ (rw (same_bytes_refl key) refl)

  touched : IsTouched grown
  touched = record {
    sound = record {
      linked = add-IsLinked c node h.sound.linked absent;
      positive = λ k n at. ground (arith, looks_grown k, h.sound.positive k n);
      distinct_nodes = Distinct-assign key node c.nodes h.sound.distinct_nodes;
      distinct_lists = Distinct-assign 1 _ c.freq_lists h.sound.distinct_lists;
      bounded = omega (arith, length-assign_new key node c.nodes absent, h.room);
      ages = h.sound.ages;
      narrow = h.sound.narrow;
    };
    counted = omega (arith, sum_freq-assign_new key node c.nodes absent, h.counted);
    filled = filled_of_lookup key grown.nodes at_key;
    seldom = (key, node, at_key, omega arith);
  }

  values_grown :
      (k : Bytes)
      → value_of (lookup k grown.nodes)
        ≡ (if same_bytes key k then some value else value_of (lookup k c.nodes))
  values_grown k = elim (Bool-cases (same_bytes key k)) [
    | inl e ↦
        let at : lookup k grown.nodes ≡ some node = looks_grown k ∙ (rw e refl) in
        ap value_of at ∙ (rw e refl)
    | inr e ↦
        let at : lookup k grown.nodes ≡ lookup k c.nodes = looks_grown k ∙ (rw e refl) in
        ap value_of at ∙ (rw e refl)
  ]

  pub grown-IsAdded :
      (after : Cache) × (add_freq_num grown ≡ some after)
      × IsCache (one_least after)
      × IsAdded c key value (one_least after)
  grown-IsAdded = elim (add_freq_num_cases grown touched) [
    | inl (after, ran, over) ↦
        let lower : lookup key after.nodes
            ≡ some (record node { freq = aged c.max_average_num 1 }) =
          over.looks key ∙ (rw at_key refl) in
        (
          after,
          ran,
          one_least-IsCache after key (record node { freq = aged c.max_average_num 1 })
              over.is_cache.sound over.is_cache.counted
              (over.is_cache.seldom (filled_of_lookup key after.nodes lower)) lower
              (aged_once c.max_average_num h.sound.ages) over.is_cache.start,
          record {
            values = λ k. over.same.values k ∙ values_grown k;
            same_capacity = over.same.same_capacity;
            same_most = over.same.same_most;
          },
        )
    | inr (ran, sound, seldom) ↦ (
      with_use grown,
      ran,
      one_least-IsCache (with_use grown) key node sound touched.counted seldom at_key refl h.start,
      record { values = values_grown; same_capacity = refl; same_most = refl },
    )
  ]
