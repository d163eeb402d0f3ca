-- ===== src/Lfu/Counted.antt =====
-- `addFreqNum` never meets a null list, and restores the invariant.
use cpp_ai_service.Base.{
  ℕ, ◌+◌, ◌/◌, ◌≤◌, ◌<◌, ◌≡◌, refl, sym, ap, false, [], ◌∷◌, Option, none, some, arith, ◌==◌, ltb,
  if◌then◌else◌, is_empty, ◌∙◌, Bool-cases, inl, inr, ◌⊎◌, Bytes, length,
}
use cpp_ai_service.Base.Dictionary.{bytes_key, nat_key, lookup}
use cpp_ai_service.Base.Distinct.{Distinct}
use cpp_ai_service.Lfu.Cache.{
  Node, Cache, aged, average, add_freq_num, handle_over_max_average_num, update_min_freq,
  least_freq, int8_max,
}
use cpp_ai_service.Lfu.Linked.{IsLinked}
use cpp_ai_service.Lfu.Counting.{sum_freq, seldom_used, least_freq-le, least_freq-IsFound, IsFound}
use cpp_ai_service.Lfu.Ageing.{IsPositive, IsReady, aged_node, age_total}
use cpp_ai_service.Lfu.Invariant.{
  IsSound, IsCache, IsUsed, IsTouched, HasSeldom, HasLeast, IsLowest, SameValues, value_of,
  list_of_node, node_of_list, below_average, filled_length,
}

-- `updateMinFreq` finds the least frequency of the nodes, if that is below 127.
updated_least :
    (c : Cache)
    → IsLinked c
    → Distinct c.freq_lists
    → HasSeldom int8_max c
    → HasLeast (update_min_freq c) × IsLowest (update_min_freq c)
unfolding update_min_freq
updated_least c h d (key, node, at, small) =
    let (list, there, filled) = list_of_node c key node h at in
    let low = least_freq-le c.freq_lists int8_max node.freq there filled in
    let is_least : (if least_freq c.freq_lists int8_max == int8_max
          then 1
          else least_freq c.freq_lists int8_max)
        ≡ least_freq c.freq_lists int8_max =
      ground arith in
    (
      named (least_freq c.freq_lists int8_max) (least_freq-IsFound c.freq_lists int8_max d)
          (omega arith) is_least,
      λ k n at_k.
          let (l, there_k, filled_k) = list_of_node c k n h at_k in
          omega (arith, is_least, least_freq-le c.freq_lists int8_max n.freq there_k filled_k),
    )
  where
    named :
        (least : ℕ)
        → IsFound c.freq_lists int8_max least
        → least < int8_max
        → (if least_freq c.freq_lists int8_max == int8_max
            then 1
            else least_freq c.freq_lists int8_max)
          ≡ least
        → HasLeast (update_min_freq c)
    named least (inl start) lt e = absurd (omega arith)
    named least (inr (k ∷ l, there, filled)) lt e =
        let (n, at_k, freq) = node_of_list c least k l h there in (k, n, at_k, freq ∙ sym e)
    named least (inr ([], there, filled)) lt e = absurd (ground arith)

aged_seldom : (most freq : ℕ) → 2 ≤ most → freq < most + 3 → aged most freq < most + 2
unfolding aged
aged_seldom most freq h lt = ground arith

values_aged : (most : ℕ) (o : Option Node) → value_of (aged_node most o o) ≡ value_of o
values_aged most none = refl
values_aged most (some node) = refl

pub handle_over_total :
    (c : Cache)
    → IsSound c
    → sum_freq c.nodes ≤ c.cur_total_num
    → is_empty c.nodes ≡ false
    → HasSeldom (c.max_average_num + 3) c
    → (after : Cache) × (handle_over_max_average_num c ≡ some after)
      × IsCache after
      × SameValues c after
      × ((k : Bytes)
          → lookup k after.nodes
            ≡ aged_node c.max_average_num (lookup k c.nodes) (lookup k c.nodes))
unfolding handle_over_max_average_num update_min_freq
handle_over_total c s counted filled (key, node, at, small) =
    let ready : IsReady c.nodes c = record {
      linked = s.linked;
      positive = s.positive;
      distinct_nodes = s.distinct_nodes;
      distinct_lists = s.distinct_lists;
      distinct_rest = s.distinct_nodes;
      present = λ k n at_k. at_k;
    } in
    let (after, ran, a) = age_total c.nodes c ready in
    let lower : Node = record node { freq = aged c.max_average_num node.freq } in
    let at' : lookup key after.nodes ≡ some lower = a.looks key ∙ (rw at refl) in
    let small' : aged c.max_average_num node.freq < c.max_average_num + 2 =
      aged_seldom c.max_average_num node.freq s.ages small in
    let narrow = s.narrow in
    let (least, lowest) =
      updated_least after a.linked a.distinct_lists (key, lower, at', omega arith) in
    (
      update_min_freq after,
      rw (filled, ran) refl,
      record {
        sound = record {
          linked = record { linked = a.linked.linked; named = a.linked.named };
          positive = a.positive;
          distinct_nodes = a.distinct_nodes;
          distinct_lists = a.distinct_lists;
          bounded = omega (arith, a.size, a.same_capacity, s.bounded);
          ages = omega (arith, a.same_most, s.ages);
          narrow = omega (arith, a.same_most, s.narrow);
        };
        counted = omega (arith, a.sum_le, a.same_total, counted);
        seldom = λ _. (key, lower, at', omega (arith, a.same_most, small'));
        least = λ _. least;
        lowest = lowest;
        start = starts after a.positive (update_min_freq after).min_freq least;
      },
      record {
        values = λ k. ap value_of (a.looks k) ∙ values_aged c.max_average_num (lookup k c.nodes);
        same_capacity = a.same_capacity;
        same_most = a.same_most;
        same_size = a.size;
      },
      a.looks,
    )
  where
    starts :
        (after : Cache)
        → IsPositive after
        → (least : ℕ) → HasLeast (record after { min_freq = least })
        → 1 ≤ least
    starts after positive least (k, n, at_n, freq) = omega (arith, positive k n at_n, freq)

-- The cache with one more use counted.
abbrev pub with_use : Cache → Cache
with_use c = record c {
  cur_total_num = c.cur_total_num + 1;
  cur_average_num = average c (c.cur_total_num + 1);
}

-- The count of uses is below the bound times the size, so a seldom used node is there.
seldom_again :
    (c : Cache)
    → IsTouched c
    → ltb c.max_average_num (average c (c.cur_total_num + 1)) ≡ false
    → HasSeldom (c.max_average_num + 2) c
seldom_again c u over =
    let positive = filled_length c.nodes u.filled in
    let filled = u.filled in
    let not_over : (c.cur_total_num + 1) / length c.nodes ≤ c.max_average_num =
      ground (arith, filled) in
    let small =
      below_average (c.cur_total_num + 1) (length c.nodes) c.max_average_num positive not_over in
    let (key, node, at, lt) =
      seldom_used (c.max_average_num + 1) c.nodes u.sound.distinct_nodes
        (omega (arith, small, u.counted)) in
    (key, node, at, omega arith)

with_use-IsSound : (c : Cache) → IsSound c → IsSound (with_use c)
with_use-IsSound c s = record {
  linked = record { linked = s.linked.linked; named = s.linked.named };
  positive = s.positive;
  distinct_nodes = s.distinct_nodes;
  distinct_lists = s.distinct_lists;
  bounded = s.bounded;
  ages = s.ages;
  narrow = s.narrow;
}

-- The average is too high, and all nodes are aged.
pub record IsOver (c after : Cache) : Type 0 where
  pub is_cache : IsCache after
  pub same : SameValues c after
  pub looks :
      (k : Bytes)
      → lookup k after.nodes ≡ aged_node c.max_average_num (lookup k c.nodes) (lookup k c.nodes)

-- Counting a use never fails: it ages all nodes and restores the whole invariant, or it only counts,
-- and some node is used seldom.
pub add_freq_num_cases :
    (c : Cache)
    → IsTouched c
    → ((after : Cache) × (add_freq_num c ≡ some after) × IsOver c after)
      ⊎ ((add_freq_num c ≡ some (with_use c))
          × IsSound (with_use c)
          × HasSeldom (c.max_average_num + 2) (with_use c))
unfolding add_freq_num
add_freq_num_cases c u =
    elim (Bool-cases (ltb c.max_average_num (average c (c.cur_total_num + 1)))) [
      | inl over ↦
          let (after, ran, is_cache, same, looks) =
            handle_over_total (with_use c) (with_use-IsSound c u.sound) u.counted u.filled
              u.seldom in
          inl (
            after,
            rw over ran,
            record {
              is_cache = is_cache;
              same = record {
                values = same.values;
                same_capacity = same.same_capacity;
                same_most = same.same_most;
                same_size = same.same_size;
              };
              looks = looks;
            },
          )
      | inr under ↦ inr (rw under refl, with_use-IsSound c u.sound, seldom_again c u under)
    ]

-- Counting a use after a node was used never meets a null list, restores the invariant, and changes
-- no value.
pub add_freq_num_total :
    (c : Cache)
    → IsUsed c
    → (after : Cache) × (add_freq_num c ≡ some after) × IsCache after × SameValues c after
add_freq_num_total c u = elim (add_freq_num_cases c u.touched) [
  | inl (after, ran, over) ↦ (after, ran, over.is_cache, over.same)
  | inr (ran, sound, seldom) ↦ (
    with_use c,
    ran,
    record {
      sound = sound;
      counted = u.touched.counted;
      seldom = λ _. seldom;
      least = λ _. u.least;
      lowest = u.lowest;
      start = started u.least u.touched.sound.positive;
    },
    record { values = λ k. refl; same_capacity = refl; same_most = refl; same_size = refl },
  )
]
  where
    started : HasLeast c → IsPositive c → 1 ≤ c.min_freq
    started (k, n, at, freq) positive = omega (arith, positive k n at, freq)
