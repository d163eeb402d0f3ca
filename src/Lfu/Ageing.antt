-- ===== src/Lfu/Ageing.antt =====
-- `handleOverMaxAverageNum`: every node is aged once, and the lists follow.
use cpp_ai_service.Base.{
  ℕ, ◌≤◌, ◌≡◌, refl, ap, false, [], ◌∷◌, List, Option, none, some, arith, Bytes, if◌then◌else◌,
  same_bytes, same_bytes_iff, same_bytes_refl, ◌∙◌, length,
}
use cpp_ai_service.Base.Dictionary.{bytes_key, nat_key, lookup, lookup-assign}
use cpp_ai_service.Base.Distinct.{Distinct, Distinct-assign, length-assign_old}
use cpp_ai_service.Lfu.Cache.{Node, Cache, age_nodes, aged}
use cpp_ai_service.Lfu.Linked.{IsLinked, moved, move_total, move-IsLinked}
use cpp_ai_service.Lfu.Counting.{sum_freq, sum_freq-assign_old}

abbrev pub IsPositive : Cache → Type 0
IsPositive c = (key : Bytes) (node : Node) → lookup key c.nodes ≡ some node → 1 ≤ node.freq

-- The nodes in the first map are aged, the others are left alone.
abbrev pub aged_node : ℕ → Option Node → Option Node → Option Node
aged_node most none here = here
aged_node most (some node) here = some (record node { freq = aged most node.freq })

-- What the loop over the nodes of `rest` makes of a cache.
pub record IsAged (rest : List (Bytes × Node)) (c after : Cache) : Type 0 where
  pub linked : IsLinked after
  pub looks :
      (key : Bytes)
      → lookup key after.nodes ≡ aged_node c.max_average_num (lookup key rest) (lookup key c.nodes)
  pub positive : IsPositive after
  pub distinct_nodes : Distinct after.nodes
  pub distinct_lists : Distinct after.freq_lists
  pub size : length after.nodes ≡ length c.nodes
  pub sum_le : sum_freq after.nodes ≤ sum_freq c.nodes
  pub same_capacity : after.capacity ≡ c.capacity
  pub same_most : after.max_average_num ≡ c.max_average_num
  pub same_total : after.cur_total_num ≡ c.cur_total_num

-- What the loop needs of a cache.
pub record IsReady (rest : List (Bytes × Node)) (c : Cache) : Type 0 where
  pub linked : IsLinked c
  pub positive : IsPositive c
  pub distinct_nodes : Distinct c.nodes
  pub distinct_lists : Distinct c.freq_lists
  pub distinct_rest : Distinct rest
  pub present :
      (key : Bytes) (node : Node) → lookup key rest ≡ some node → lookup key c.nodes ≡ some node

aged_bounds : (most freq : ℕ) → 1 ≤ freq → (1 ≤ aged most freq) × (aged most freq ≤ freq)
unfolding aged
aged_bounds most freq h = ground arith

lookup_first :
    (key : Bytes) (node : Node) (rest : List (Bytes × Node))
    → lookup key ((key, node) ∷ rest) ≡ some node
unfolding lookup
lookup_first key node rest = rw (same_bytes_refl key) refl

lookup_later :
    (key j : Bytes) (node n : Node) (rest : List (Bytes × Node))
    → lookup key rest ≡ none
    → lookup j rest ≡ some n
    → (lookup j ((key, node) ∷ rest) ≡ some n) × (same_bytes key j ≡ false)
unfolding lookup
lookup_later key j node n rest absent at =
    (ground (arith, same_bytes_iff key j), ground (arith, same_bytes_iff key j))

module _ (key : Bytes) (node : Node) (rest : List (Bytes × Node)) (c : Cache)
    (r : IsReady ((key, node) ∷ rest) c) where
  abbrev lower : ℕ
  lower = aged c.max_average_num node.freq

  abbrev step : Cache
  step = moved c node lower

  found : lookup key c.nodes ≡ some node
  found = r.present key node (lookup_first key node rest)

  key_is : node.key ≡ key
  key_is = r.linked.named key node found

  found' : lookup node.key c.nodes ≡ some node
  found' = ap (λ (k : Bytes). lookup k c.nodes) key_is ∙ found

  step_looks :
      (j : Bytes)
      → lookup j step.nodes
        ≡ (if same_bytes key j then some (record node { freq = lower }) else lookup j c.nodes)
  step_looks j =
      lookup-assign node.key j (record node { freq = lower }) c.nodes
      ∙ ap
          (λ (k : Bytes).
            if same_bytes k j then some (record node { freq = lower }) else lookup j c.nodes)
          key_is

  step-IsReady : IsReady rest step
  step-IsReady = record {
    linked = move-IsLinked c node lower r.linked found';
    positive = λ j n at. ground (
      arith,
      step_looks j,
      r.positive j n,
      aged_bounds c.max_average_num node.freq (r.positive key node found),
    );
    distinct_nodes =
        Distinct-assign node.key (record node { freq = lower }) c.nodes r.distinct_nodes;
    distinct_lists =
        Distinct-assign lower _ _ (Distinct-assign node.freq _ c.freq_lists r.distinct_lists);
    distinct_rest = r.distinct_rest.1;
    present = λ j n at.
        let (later, other) = lookup_later key j node n rest r.distinct_rest.0 at in
        step_looks j ∙ (rw other refl) ∙ r.present j n later;
  }

  step-IsAged : (after : Cache) → IsAged rest step after → IsAged ((key, node) ∷ rest) c after
  step-IsAged after a = record {
    linked = a.linked;
    looks = λ j. a.looks j ∙ looks_again j;
    positive = a.positive;
    distinct_nodes = a.distinct_nodes;
    distinct_lists = a.distinct_lists;
    size = a.size ∙ length-assign_old node.key (record node { freq = lower }) c.nodes found';
    sum_le = omega (
      arith,
      a.sum_le,
      sum_freq-assign_old node.key (record node { freq = lower }) c.nodes found',
      (aged_bounds c.max_average_num node.freq (r.positive key node found)).1,
    );
    same_capacity = a.same_capacity;
    same_most = a.same_most;
    same_total = a.same_total;
  }
    where
      looks_again :
          (j : Bytes)
          → aged_node c.max_average_num (lookup j rest) (lookup j step.nodes)
            ≡ aged_node c.max_average_num (lookup j ((key, node) ∷ rest)) (lookup j c.nodes)
      looks_again j =
          unfold lookup in ground (arith, step_looks j, same_bytes_iff key j, r.distinct_rest.0)

pub age_total :
    (rest : List (Bytes × Node)) (c : Cache)
    → IsReady rest c
    → (after : Cache) × (age_nodes rest c ≡ some after) × IsAged rest c after
unfolding age_nodes
age_total [] c r = (
  c,
  refl,
  record {
    linked = r.linked;
    looks = λ key. unfold lookup in refl;
    positive = r.positive;
    distinct_nodes = r.distinct_nodes;
    distinct_lists = r.distinct_lists;
    size = refl;
    sum_le = omega arith;
    same_capacity = refl;
    same_most = refl;
    same_total = refl;
  },
)
age_total ((key, node) ∷ rest) c r =
    let (after, ran, a) =
      age_total rest (step key node rest c r) (step-IsReady key node rest c r) in
    (
      after,
      rw (move_total c node (lower key node rest c r) r.linked (found' key node rest c r)) ran,
      step-IsAged key node rest c r after a,
    )
