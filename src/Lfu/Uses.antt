-- ===== src/Lfu/Uses.antt =====
-- `getInternal` and `get`: a use raises the frequency of the node by one, and is counted.
use cpp_ai_service.Base.{
  ℕ, ◌+◌, ◌≤◌, ◌≡◌, ◌≢◌, refl, sym, ap, true, false, ◌&&◌, [], ◌∷◌, List, Option, none, some, arith,
  Bytes, ◌==◌, if◌then◌else◌, is_empty, same_bytes, same_bytes_iff, same_bytes_refl, ◌∙◌,
  Option-cases, Bool-cases, inl, inr, ◌⊎◌, length,
}
use cpp_ai_service.Base.Dictionary.{bytes_key, nat_key, lookup, lookup-assign}
use cpp_ai_service.Base.Distinct.{Distinct-assign, length-assign_old}
use cpp_ai_service.Lfu.Cache.{Node, Cache, list_at, get_internal, get, add_freq_num}
use cpp_ai_service.Lfu.Linked.{
  IsLinked, contains, has_freq, moved, unlinked, move_total, move-IsLinked,
}
use cpp_ai_service.Lfu.Counting.{sum_freq, sum_freq-assign_old}
use cpp_ai_service.Lfu.Invariant.{
  IsSound, IsCache, IsUsed, HasSeldom, HasLeast, IsLowest, SameValues, value_of, node_of_list,
  filled_length, length_filled,
}
use cpp_ai_service.Lfu.Counted.{add_freq_num_total}

-- The cache before the use is counted.
unfoldable pub raised : Cache → Node → Cache
raised c node = record (moved c node (node.freq + 1)) {
  min_freq =
      if node.freq == c.min_freq && is_empty (list_at (moved c node (node.freq + 1)) node.freq)
      then c.min_freq + 1
      else c.min_freq;
}

pub filled_of_lookup :
    (key : Bytes) (nodes : List (Bytes × Node)) {node : Node}
    → lookup key nodes ≡ some node
    → is_empty nodes ≡ false
unfolding lookup
filled_of_lookup key [] at = absurd (ground arith)
filled_of_lookup key (n ∷ nodes) at = refl

none_in : (list : List Bytes) (key : Bytes) → is_empty list ≡ true → contains list key ≡ false
unfolding contains
none_in [] key e = refl
none_in (k ∷ list) key e = absurd (ground arith)

module _ (c : Cache) (node : Node) (s : IsCache c)
    (found : lookup node.key c.nodes ≡ some node) where
  abbrev up : Cache
  up = moved c node (node.freq + 1)

  abbrev higher : Node
  higher = record node { freq = node.freq + 1 }

  up-IsLinked : IsLinked up
  up-IsLinked = move-IsLinked c node (node.freq + 1) s.sound.linked found

  at_key : lookup node.key up.nodes ≡ some higher
  at_key = lookup-assign node.key node.key higher c.nodes ∙ (rw (same_bytes_refl node.key) refl)

  -- Any other node is where it was.
  looks_up :
      (key : Bytes)
      → lookup key up.nodes ≡ (if same_bytes node.key key then some higher else lookup key c.nodes)
  looks_up key = lookup-assign node.key key higher c.nodes

  size_up : length up.nodes ≡ length c.nodes
  size_up = length-assign_old node.key higher c.nodes found

  sum_up : sum_freq up.nodes ≡ sum_freq c.nodes + 1
  sum_up = omega (arith, sum_freq-assign_old node.key higher c.nodes {old = node} found)

  filled_up : is_empty up.nodes ≡ false
  filled_up = ground (
    arith,
    filled_length c.nodes (filled_of_lookup node.key c.nodes found),
    size_up,
    length_filled up.nodes,
  )

  up-IsSound : IsSound up
  up-IsSound = record {
    linked = up-IsLinked;
    positive = λ key n at. ground (arith, looks_up key, s.sound.positive key n);
    distinct_nodes = Distinct-assign node.key higher c.nodes s.sound.distinct_nodes;
    distinct_lists =
        Distinct-assign (node.freq + 1) _ (unlinked c node).freq_lists
          (Distinct-assign node.freq _ c.freq_lists s.sound.distinct_lists);
    bounded = omega (arith, size_up, s.sound.bounded);
    ages = s.sound.ages;
    narrow = s.sound.narrow;
  }

  seldom_up : HasSeldom (c.max_average_num + 3) up
  seldom_up =
      let (key, n, at, low) = s.seldom (filled_of_lookup node.key c.nodes found) in
      elim (Bool-cases (same_bytes node.key key)) [
        | inl same ↦ (
          key,
          higher,
          looks_up key ∙ (rw same refl),
          ground (arith, same_bytes_iff node.key key),
        )
        | inr other ↦ (key, n, looks_up key ∙ (rw other at), omega arith)
      ]

  -- The list of the least frequency has run empty: the raised node is now one of the lowest.
  empty_least :
      node.freq ≡ c.min_freq
      → is_empty (list_at up node.freq) ≡ true
      → (key : Bytes) (n : Node) → lookup key up.nodes ≡ some n
      → c.min_freq + 1 ≤ n.freq
  empty_least low empty key n at = elim (Bool-cases (same_bytes node.key key)) [
    | inl same ↦ ground (arith, looks_up key)
    | inr other ↦
        let old : lookup key c.nodes ≡ some n = sym (looks_up key ∙ (rw other refl)) ∙ at in
        let gone : (n.freq == node.freq) ≡ false =
          sym (ap (λ (o : Option Node). has_freq o node.freq) at)
          ∙ sym (up-IsLinked.linked node.freq key)
          ∙ none_in (list_at up node.freq) key empty in
        ground (arith, s.lowest key n old, gone)
  ]

  -- The least frequency stays: either another node has it, or the list of it is not empty.
  stays_least :
      node.freq ≢ c.min_freq ⊎ (is_empty (list_at up node.freq) ≡ false)
      → HasLeast (record up { min_freq = c.min_freq })
  stays_least h =
      let (key, n, at, low) = s.least (filled_of_lookup node.key c.nodes found) in
      elim (Bool-cases (same_bytes node.key key)) [
        | inr other ↦ (key, n, looks_up key ∙ (rw other at), low)
        | inl same ↦
            let is_key = (same_bytes_iff node.key key).0 same in
            let both : some node ≡ some n =
              sym found ∙ ap (λ (k : Bytes). lookup k c.nodes) is_key ∙ at in
            let low' : node.freq ≡ c.min_freq = ap freq_of both ∙ low in
            of_list low' (list_at up node.freq) refl (filled_list low' h)
      ]
    where
      freq_of : Option Node → ℕ
      freq_of none = 0
      freq_of (some n) = n.freq

      filled_list :
          node.freq ≡ c.min_freq
          → node.freq ≢ c.min_freq ⊎ (is_empty (list_at up node.freq) ≡ false)
          → is_empty (list_at up node.freq) ≡ false
      filled_list low (inl ne) = absurd (ne low)
      filled_list low (inr filled) = filled

      of_list :
          node.freq ≡ c.min_freq
          → (list : List Bytes) → list_at up node.freq ≡ list
          → is_empty (list_at up node.freq) ≡ false
          → HasLeast (record up { min_freq = c.min_freq })
      of_list low [] e filled = absurd (ground arith)
      of_list low (k ∷ list) e filled =
          let (n, at, freq) =
            node_of_list up node.freq k list up-IsLinked
              (in_lists (lookup node.freq up.freq_lists) refl e) in
          (k, n, at, freq ∙ low)
        where
          in_lists :
              (o : Option (List Bytes))
              → lookup node.freq up.freq_lists ≡ o
              → list_at up node.freq ≡ k ∷ list
              → lookup node.freq up.freq_lists ≡ some (k ∷ list)
          in_lists none at e' = absurd (ground arith)
          in_lists (some l) at e' = ground arith

  up-IsLowest : IsLowest (record up { min_freq = c.min_freq })
  up-IsLowest key n at = ground (arith, looks_up key, s.lowest key n, s.lowest node.key node found)

  least_raised : HasLeast (raised c node) × IsLowest (raised c node)
  unfolding raised
  least_raised = elim (Bool-cases (node.freq == c.min_freq)) [
    | inr other ↦ rw other ((stays_least (inl (ground arith)), up-IsLowest))
    | inl low ↦ elim (Bool-cases (is_empty (list_at up node.freq))) [
      | inr filled ↦ rw (low, filled) ((stays_least (inr filled), up-IsLowest))
      | inl empty ↦
          let low' : node.freq ≡ c.min_freq = ground arith in
          rw (low, empty)
            (((node.key, higher, at_key, ap (λ (n : ℕ). n + 1) low'), empty_least low' empty))
    ]
  ]

  used : IsUsed (raised c node)
  unfolding raised
  used = record {
    touched = record {
      sound = record {
        linked = record { linked = up-IsLinked.linked; named = up-IsLinked.named };
        positive = up-IsSound.positive;
        distinct_nodes = up-IsSound.distinct_nodes;
        distinct_lists = up-IsSound.distinct_lists;
        bounded = up-IsSound.bounded;
        ages = up-IsSound.ages;
        narrow = up-IsSound.narrow;
      };
      counted = omega (arith, sum_up, s.counted);
      filled = filled_up;
      seldom = seldom_up;
    };
    least = unfold raised in least_raised.0;
    lowest = unfold raised in least_raised.1;
  }

  value_up : (key : Bytes) → value_of (lookup key up.nodes) ≡ value_of (lookup key c.nodes)
  value_up key = elim (Bool-cases (same_bytes node.key key)) [
    | inr other ↦
        let e : lookup key up.nodes ≡ lookup key c.nodes = looks_up key ∙ (rw other refl) in
        ap value_of e
    | inl same ↦
        let e : lookup key up.nodes ≡ some higher = looks_up key ∙ (rw same refl) in
        ap value_of e
        ∙ sym (
            ap value_of (
              ap (λ (k : Bytes). lookup k c.nodes) (sym ((same_bytes_iff node.key key).0 same))
              ∙ found))
  ]

  kept_values : (after : Cache) → SameValues (raised c node) after → SameValues c after
  unfolding raised
  kept_values after same = record {
    values = λ k. same.values k ∙ value_up k;
    same_capacity = same.same_capacity;
    same_most = same.same_most;
    same_size = same.same_size ∙ size_up;
  }

  -- A use of a node of the map never meets a null list, gives the value of the node, restores the
  -- invariant and changes no value.
  pub get_internal_total :
      (after : Cache) × (get_internal c node ≡ some (after, node.value))
      × IsCache after
      × SameValues c after
  unfolding get_internal raised
  get_internal_total =
      let (after, ran, is_cache, same) = add_freq_num_total (raised c node) used in
      let ran' : add_freq_num (record up {
        min_freq =
            if node.freq == up.min_freq && is_empty (list_at up node.freq)
            then up.min_freq + 1
            else up.min_freq;
      })
          ≡ some after =
        ran in
      (
        after,
        rw (move_total c node (node.freq + 1) s.sound.linked found) (rw ran' refl),
        is_cache,
        kept_values after same,
      )

-- On a cache in order, `get` never meets a null list, answers with the value that the key has, if
-- any, and leaves a cache in order in which each key has the value it had.
pub get_total :
    (c : Cache) (key : Bytes)
    → IsCache c
    → (after : Cache) × (get c key ≡ some (after, value_of (lookup key c.nodes)))
      × IsCache after
      × SameValues c after
unfolding get
get_total c key s = elim (Option-cases (lookup key c.nodes)) [
  | inl e ↦ (
    c,
    rw (e, get) refl,
    s,
    record { values = λ k. refl; same_capacity = refl; same_most = refl; same_size = refl },
  )
  | inr (node, e) ↦
      let named = s.sound.linked.named key node e in
      let found : lookup node.key c.nodes ≡ some node =
        ap (λ (k : Bytes). lookup k c.nodes) named ∙ e in
      let (after, ran, is_cache, same) = get_internal_total c node s found in
      (after, rw (e, ran, get) refl, is_cache, same)
]
