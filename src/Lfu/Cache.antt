-- ===== src/Lfu/Cache.antt =====
-- include/LFU.h: `FreqList` and `KLfuCache`, with strings for keys and values, as the service uses it.
-- A node is named by its key. A `FreqList` is the keys of its nodes, the oldest first. A result of
-- none is the use of a null list. The order of the nodes is the iteration order of the unordered
-- map, which is unspecified; counts do not wrap.
use cpp_ai_service.Base.{
  ℕ, ◌+◌, ◌-◌, ◌/◌, ◌&&◌, [], ◌∷◌, ◌++◌, List, Option, none, some, Bytes, ltb, ◌==◌, min,
  if◌then◌else◌, ◌>>=◌, is_empty, same_bytes, length,
}
use cpp_ai_service.Base.Dictionary.{bytes_key, nat_key, lookup, assign, erase}

pub record Node : Type 0 where
  pub freq : ℕ
  pub key : Bytes
  pub value : Bytes

pub record Cache : Type 0 where
  pub capacity : ℕ
  pub min_freq : ℕ
  pub max_average_num : ℕ
  pub cur_average_num : ℕ
  pub cur_total_num : ℕ
  pub nodes : List (Bytes × Node)
  pub freq_lists : List (ℕ × List Bytes)

-- `INT8_MAX`.
abbrev pub int8_max : ℕ
int8_max = 127

unfoldable pub init : ℕ → ℕ → Cache
init capacity max_average_num = record {
  capacity = capacity;
  min_freq = int8_max;
  max_average_num = max_average_num;
  cur_average_num = 0;
  cur_total_num = 0;
  nodes = [];
  freq_lists = [];
}

-- `addNode` at the tail, and `removeNode`. A node stands in its list once.
unfoldable pub add_node : List Bytes → Bytes → List Bytes
add_node list key = list ++ key ∷ []

unfoldable pub remove_node : List Bytes → Bytes → List Bytes
remove_node [] key = []
remove_node (k ∷ list) key =
    let rest = remove_node list key in if same_bytes k key then rest else k ∷ rest

unfoldable pub remove_from_freq_list : Cache → Node → Option Cache
remove_from_freq_list c node = do
  list ← lookup node.freq c.freq_lists
  some (record c { freq_lists = assign node.freq (remove_node list node.key) c.freq_lists })

-- The list of a frequency; a list that is not there yet is made, and is empty.
abbrev pub list_of : Option (List Bytes) → List Bytes
list_of none = []
list_of (some list) = list

abbrev pub list_at : Cache → ℕ → List Bytes
list_at c freq = list_of (lookup freq c.freq_lists)

unfoldable pub add_to_freq_list : Cache → Node → Cache
add_to_freq_list c node = record c {
  freq_lists = assign node.freq (add_node (list_at c node.freq) node.key) c.freq_lists;
}

-- The node that the map's pointer leads to is changed in place.
unfoldable pub set_node : Cache → Node → Cache
set_node c node = record c { nodes = assign node.key node c.nodes }

-- A node moves from the list of its old frequency to that of the new one.
unfoldable pub move_node : Cache → Node → ℕ → Option Cache
move_node c node freq = do
  unlinked ← remove_from_freq_list c node
  some (
      add_to_freq_list (set_node unlinked (record node { freq = freq }))
        (record node { freq = freq }))

-- The loop of `updateMinFreq`.
unfoldable pub least_freq : List (ℕ × List Bytes) → ℕ → ℕ
least_freq [] least = least
least_freq ((freq, list) ∷ lists) least =
    least_freq lists (if is_empty list then least else min least freq)

unfoldable pub update_min_freq : Cache → Cache
update_min_freq c =
    let least = least_freq c.freq_lists int8_max in
    record c { min_freq = if least == int8_max then 1 else least }

-- The frequency of a node after one ageing; the source's difference may be negative.
unfoldable pub aged : ℕ → ℕ → ℕ
aged max_average_num freq = let less = freq - max_average_num / 2 in if ltb less 1 then 1 else less

-- The loop of `handleOverMaxAverageNum` over the nodes of the map.
unfoldable pub age_nodes : List (Bytes × Node) → Cache → Option Cache
age_nodes [] c = some c
age_nodes ((key, node) ∷ nodes) c = do
  moved ← move_node c node (aged c.max_average_num node.freq)
  age_nodes nodes moved

unfoldable pub handle_over_max_average_num : Cache → Option Cache
handle_over_max_average_num c =
    if is_empty c.nodes
    then some c
    else do all_aged ← age_nodes c.nodes c; some (update_min_freq all_aged)

abbrev pub average : Cache → ℕ → ℕ
average c total = if is_empty c.nodes then 0 else total / length c.nodes

unfoldable pub add_freq_num : Cache → Option Cache
add_freq_num c =
    let total = c.cur_total_num + 1 in
    let counted = record c { cur_total_num = total; cur_average_num = average c total } in
    if ltb c.max_average_num (average c total)
    then handle_over_max_average_num counted
    else some counted

unfoldable pub decrease_freq_num : Cache → ℕ → Cache
decrease_freq_num c num =
    let total = c.cur_total_num - num in
    record c { cur_total_num = total; cur_average_num = average c total }

-- `getInternal`: the node is one of the map's.
unfoldable pub get_internal : Cache → Node → Option (Cache × Bytes)
get_internal c node = do
  moved ← move_node c node (node.freq + 1)
  let raised = record moved {
    min_freq =
        if node.freq == moved.min_freq && is_empty (list_at moved node.freq)
        then moved.min_freq + 1
        else moved.min_freq;
  }
  counted ← add_freq_num raised
  some (counted, node.value)

-- What `getFirstNode` gives for a list with no node: the tail, which is in no map.
abbrev pub tail_node : Node
tail_node = record { freq = 1; key = []; value = [] }

abbrev pub node_of : Option Node → Node
node_of none = tail_node
node_of (some node) = node

unfoldable pub first_node : Cache → List Bytes → Node
first_node c [] = tail_node
first_node c (key ∷ list) = node_of (lookup key c.nodes)

unfoldable pub kick_out : Cache → Option Cache
kick_out c = do
  list ← lookup c.min_freq c.freq_lists
  let node = first_node c list
  unlinked ← remove_from_freq_list c node
  some (decrease_freq_num (record unlinked { nodes = erase node.key unlinked.nodes }) node.freq)

unfoldable pub put_internal : Cache → Bytes → Bytes → Option Cache
put_internal c key value = do
  room ← (if length c.nodes == c.capacity then kick_out c else some c)
  let node : Node = record { freq = 1; key = key; value = value }
  counted ← add_freq_num (add_to_freq_list (set_node room node) node)
  some (record counted { min_freq = min counted.min_freq 1 })

unfoldable pub put : Cache → Bytes → Bytes → Option Cache
put c key value = if c.capacity == 0 then some c else elim (lookup key c.nodes) [
  | none ↦ put_internal c key value
  | some node ↦ do
    let fresh = record node { value = value }
    (used, _) ← get_internal (set_node c fresh) fresh
    some used
]

-- The value, if the key is there.
unfoldable pub get : Cache → Bytes → Option (Cache × Option Bytes)
get c key = elim (lookup key c.nodes) [
  | none ↦ some (c, none)
  | some node ↦ do (used, value) ← get_internal c node; some (used, some value)
]

-- `purge` keeps the counts and the least frequency.
unfoldable pub purge : Cache → Cache
purge c = record c { nodes = []; freq_lists = [] }
