-- ===== src/Lfu/Invariant.antt =====
-- The invariant of the cache, and the counting step at the end of each use.
use cpp_ai_service.Base.{
  ℕ, ◌+◌, ◌*◌, ◌/◌, ◌≤◌, ◌<◌, ◌≡◌, refl, false, [], ◌∷◌, List, Option, none, some, arith, Bytes,
  is_empty, same_bytes_refl, Option-cases, inl, inr, length,
}
use cpp_ai_service.Base.Dictionary.{bytes_key, nat_key, lookup}
use cpp_ai_service.Base.Distinct.{Distinct}
use cpp_ai_service.Lfu.Cache.{Node, Cache, int8_max}
use cpp_ai_service.Lfu.Linked.{IsLinked, contains}
use cpp_ai_service.Lfu.Counting.{sum_freq}
use cpp_ai_service.Lfu.Ageing.{IsPositive}

-- Some node has a frequency below the bound.
abbrev pub HasSeldom : ℕ → Cache → Type 0
HasSeldom bound c =
    (key : Bytes) × (node : Node) × (lookup key c.nodes ≡ some node) × (node.freq < bound)

-- `min_freq` is the frequency of a node, and no node has a lower one.
abbrev pub HasLeast : Cache → Type 0
HasLeast c =
    (key : Bytes) × (node : Node) × (lookup key c.nodes ≡ some node) × (node.freq ≡ c.min_freq)

abbrev pub IsLowest : Cache → Type 0
IsLowest c = (key : Bytes) (node : Node) → lookup key c.nodes ≡ some node → c.min_freq ≤ node.freq

-- What holds of the maps at all times.
pub record IsSound (c : Cache) : Type 0 where
  pub linked : IsLinked c
  pub positive : IsPositive c
  pub distinct_nodes : Distinct c.nodes
  pub distinct_lists : Distinct c.freq_lists
  pub bounded : length c.nodes ≤ c.capacity
  pub ages : 2 ≤ c.max_average_num
  pub narrow : c.max_average_num + 2 < int8_max

-- The invariant between two calls.
pub record IsCache (c : Cache) : Type 0 where
  pub sound : IsSound c
  pub counted : sum_freq c.nodes ≤ c.cur_total_num
  pub seldom : is_empty c.nodes ≡ false → HasSeldom (c.max_average_num + 2) c
  pub least : is_empty c.nodes ≡ false → HasLeast c
  pub lowest : IsLowest c
  pub start : 1 ≤ c.min_freq

-- What holds before the use is counted, of the maps and the sums.
pub record IsTouched (c : Cache) : Type 0 where
  pub sound : IsSound c
  pub counted : sum_freq c.nodes ≤ c.cur_total_num + 1
  pub filled : is_empty c.nodes ≡ false
  pub seldom : HasSeldom (c.max_average_num + 3) c

-- What holds before the use of a node that was there is counted.
pub record IsUsed (c : Cache) : Type 0 where
  pub touched : IsTouched c
  pub least : HasLeast c
  pub lowest : IsLowest c

abbrev pub value_of : Option Node → Option Bytes
value_of none = none
value_of (some node) = some node.value

-- The same keys have the same values.
pub record SameValues (c after : Cache) : Type 0 where
  pub values : (key : Bytes) → value_of (lookup key after.nodes) ≡ value_of (lookup key c.nodes)
  pub same_capacity : after.capacity ≡ c.capacity
  pub same_most : after.max_average_num ≡ c.max_average_num
  pub same_size : length after.nodes ≡ length c.nodes

pub list_of_node :
    (c : Cache) (key : Bytes) (node : Node)
    → IsLinked c
    → lookup key c.nodes ≡ some node
    → (list : List Bytes) × (lookup node.freq c.freq_lists ≡ some list) × (is_empty list ≡ false)
unfolding contains
list_of_node c key node h at = elim (Option-cases (lookup node.freq c.freq_lists)) [
  | inl e ↦ absurd (ground (arith, h.linked node.freq key))
  | inr (list, e) ↦ (list, e, filled list e)
]
  where
    filled : (list : List Bytes) → lookup node.freq c.freq_lists ≡ some list → is_empty list ≡ false
    filled [] e = absurd (ground (arith, h.linked node.freq key))
    filled (k ∷ list) e = refl

-- The first node of a list is in the map, and has the frequency of the list.
pub node_of_list :
    (c : Cache) (freq : ℕ) (key : Bytes) (list : List Bytes)
    → IsLinked c
    → lookup freq c.freq_lists ≡ some (key ∷ list)
    → (node : Node) × (lookup key c.nodes ≡ some node) × (node.freq ≡ freq)
unfolding contains
node_of_list c freq key list h at = elim (Option-cases (lookup key c.nodes)) [
  | inl e ↦ absurd (ground (arith, h.linked freq key, same_bytes_refl key))
  | inr (node, e) ↦ (node, e, ground (arith, h.linked freq key, same_bytes_refl key))
]

pub below_average :
    (total size most : ℕ) → 0 < size → total / size ≤ most → total < (most + 1) * size
below_average total size most h le = grind arith

pub filled_length {ℓ} : {A : Type ℓ} (xs : List A) → is_empty xs ≡ false → 0 < length xs
filled_length [] h = absurd (ground arith)
filled_length (x ∷ xs) h = omega arith

pub length_filled {ℓ} : {A : Type ℓ} (xs : List A) → 0 < length xs → is_empty xs ≡ false
length_filled [] h = absurd (omega arith)
length_filled (x ∷ xs) h = refl
