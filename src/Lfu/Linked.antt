-- ===== src/Lfu/Linked.antt =====
-- The lists of the frequencies and the map of the nodes tell the same story, and moving a node from
-- one list to another keeps it so.
use cpp_ai_service.Base.{
  ℕ, ◌≡◌, refl, sym, ap, Bool, true, false, not, ◌&&◌, ◌||◌, [], ◌∷◌, List, Option, none, some,
  arith, Bytes, ◌==◌, ==_iff, if◌then◌else◌, same_bytes, same_bytes_iff, ◌∙◌, Option-cases,
  Bool-cases, inl, inr,
}
use cpp_ai_service.Base.Dictionary.{
  bytes_key, nat_key, lookup, assign, erase, lookup-assign, lookup-erase,
}
use cpp_ai_service.Lfu.Cache.{
  Node, Cache, list_of, list_at, add_node, remove_node, remove_from_freq_list, add_to_freq_list,
  set_node, move_node,
}

unfoldable pub contains : List Bytes → Bytes → Bool
contains [] key = false
contains (k ∷ list) key = same_bytes k key || contains list key

abbrev pub has_freq : Option Node → ℕ → Bool
has_freq none freq = false
has_freq (some node) freq = node.freq == freq

-- A key is in the list of a frequency exactly when the map has a node of that key and frequency; and
-- a node is in the map under its key.
pub record IsLinked (c : Cache) : Type 0 where
  pub linked :
      (freq : ℕ) (key : Bytes) → contains (list_at c freq) key ≡ has_freq (lookup key c.nodes) freq
  pub named : (key : Bytes) (node : Node) → lookup key c.nodes ≡ some node → node.key ≡ key

contains-add_node :
    (list : List Bytes) (k key : Bytes)
    → contains (add_node list k) key ≡ contains list key || same_bytes k key
unfolding contains add_node
contains-add_node [] k key = ground arith
contains-add_node (j ∷ list) k key = ground (arith, contains-add_node list k key)

contains-remove_node :
    (list : List Bytes) (k key : Bytes)
    → contains (remove_node list k) key ≡ contains list key && not (same_bytes k key)
unfolding contains remove_node
contains-remove_node [] k key = ground arith
contains-remove_node (j ∷ list) k key = ground (
  arith,
  contains-remove_node list k key,
  same_bytes_iff j k,
  same_bytes_iff j key,
  same_bytes_iff k key,
)

-- The lists after a removal and after an addition.
pub list_at-assign :
    (c : Cache) (f freq : ℕ) (list : List Bytes)
    → list_of (lookup freq (assign f list c.freq_lists))
      ≡ (if f == freq then list else list_at c freq)
list_at-assign c f freq list = elim (Bool-cases (f == freq)) [
  | inl e ↦ ap list_of (lookup-assign f freq list c.freq_lists) ∙ (rw e refl)
  | inr e ↦ ap list_of (lookup-assign f freq list c.freq_lists) ∙ (rw e refl)
]

pub remove_total :
    (c : Cache) (node : Node)
    → IsLinked c
    → lookup node.key c.nodes ≡ some node
    → remove_from_freq_list c node
      ≡ some (record c {
        freq_lists = assign node.freq (remove_node (list_at c node.freq) node.key) c.freq_lists;
      })
unfolding remove_from_freq_list contains
remove_total c node h found = elim (Option-cases (lookup node.freq c.freq_lists)) [
  | inr (list, e) ↦ rw e refl
  | inl e ↦ absurd (ground (arith, h.linked node.freq node.key))
]

-- The cache once a node has moved to the list of another frequency.
abbrev pub unlinked : Cache → Node → Cache
unlinked c node = record c {
  freq_lists = assign node.freq (remove_node (list_at c node.freq) node.key) c.freq_lists;
}

abbrev pub moved : Cache → Node → ℕ → Cache
moved c node freq = record c {
  nodes = assign node.key (record node { freq = freq }) c.nodes;
  freq_lists =
      assign freq (add_node (list_at (unlinked c node) freq) node.key) (unlinked c node).freq_lists;
}

pub move_total :
    (c : Cache) (node : Node) (freq : ℕ)
    → IsLinked c
    → lookup node.key c.nodes ≡ some node
    → move_node c node freq ≡ some (moved c node freq)
unfolding move_node add_to_freq_list set_node
move_total c node freq h found = rw (remove_total c node h found) refl

-- Who is in a list: the added and the removed key apart, the same as before.
contains-added :
    (c : Cache) (node : Node) (f : ℕ) (key : Bytes)
    → contains
        (list_at
          (record c {
            freq_lists = assign node.freq (add_node (list_at c node.freq) node.key) c.freq_lists;
          })
          f)
        key
      ≡ (contains (list_at c f) key || (node.freq == f && same_bytes node.key key))
contains-added c node f key =
    ap (λ (l : List Bytes). contains l key)
      (list_at-assign c node.freq f (add_node (list_at c node.freq) node.key))
    ∙ ground (arith, contains-add_node (list_at c node.freq) node.key key, ==_iff node.freq f)

contains-unlinked :
    (c : Cache) (node : Node) (f : ℕ) (key : Bytes)
    → contains (list_at (unlinked c node) f) key
      ≡ (contains (list_at c f) key && not (node.freq == f && same_bytes node.key key))
contains-unlinked c node f key =
    ap (λ (l : List Bytes). contains l key)
      (list_at-assign c node.freq f (remove_node (list_at c node.freq) node.key))
    ∙ ground (arith, contains-remove_node (list_at c node.freq) node.key key, ==_iff node.freq f)

has_freq-assign :
    (nodes : List (Bytes × Node)) (node : Node) (f : ℕ) (key : Bytes)
    → has_freq (lookup key (assign node.key node nodes)) f
      ≡ (if same_bytes node.key key then node.freq == f else has_freq (lookup key nodes) f)
has_freq-assign nodes node f key = elim (Bool-cases (same_bytes node.key key)) [
  | inl e ↦
      ap (λ (o : Option Node). has_freq o f) (lookup-assign node.key key node nodes) ∙ (rw e refl)
  | inr e ↦
      ap (λ (o : Option Node). has_freq o f) (lookup-assign node.key key node nodes) ∙ (rw e refl)
]

named_assign :
    (nodes : List (Bytes × Node)) (node : Node)
    → ((key : Bytes) (n : Node) → lookup key nodes ≡ some n → n.key ≡ key)
    → (key : Bytes) (n : Node) → lookup key (assign node.key node nodes) ≡ some n
    → n.key ≡ key
named_assign nodes node named key n found =
    ground (arith, lookup-assign node.key key node nodes, same_bytes_iff node.key key, named key n)

pub move-IsLinked :
    (c : Cache) (node : Node) (freq : ℕ)
    → IsLinked c
    → lookup node.key c.nodes ≡ some node
    → IsLinked (moved c node freq)
move-IsLinked c node freq h found = record {
  linked = links;
  named = named_assign c.nodes (record node { freq = freq }) h.named;
}
  where
    links :
        (f : ℕ) (key : Bytes)
        → contains (list_at (moved c node freq) f) key
          ≡ has_freq (lookup key (moved c node freq).nodes) f
    links f key =
        contains-added (unlinked c node) (record node { freq = freq }) f key
        ∙ ap (λ (b : Bool). b || (freq == f && same_bytes node.key key))
            (contains-unlinked c node f key)
        ∙ split (same_bytes node.key key) refl
        ∙ sym (has_freq-assign c.nodes (record node { freq = freq }) f key)
      where
        split :
            (same : Bool)
            → same_bytes node.key key ≡ same
            → ((contains (list_at c f) key && not (node.freq == f && same_bytes node.key key))
                || (freq == f && same_bytes node.key key))
              ≡ (if same_bytes node.key key then freq == f else has_freq (lookup key c.nodes) f)
        split true e =
            let k = (same_bytes_iff node.key key).0 e in
            let here : has_freq (lookup key c.nodes) f ≡ (node.freq == f) =
              ap (λ (x : Bytes). has_freq (lookup x c.nodes) f) (sym k)
              ∙ ap (λ (o : Option Node). has_freq o f) found in
            ground (arith, h.linked f key, here)
        split false e = ground (arith, h.linked f key)

-- The cache once a node that is not in it has been added.
abbrev pub added : Cache → Node → Cache
added c node = record c {
  nodes = assign node.key node c.nodes;
  freq_lists = assign node.freq (add_node (list_at c node.freq) node.key) c.freq_lists;
}

pub add-IsLinked :
    (c : Cache) (node : Node)
    → IsLinked c
    → lookup node.key c.nodes ≡ none
    → IsLinked (added c node)
add-IsLinked c node h absent = record { linked = links; named = named_assign c.nodes node h.named }
  where
    links :
        (f : ℕ) (key : Bytes)
        → contains (list_at (added c node) f) key ≡ has_freq (lookup key (added c node).nodes) f
    links f key =
        contains-added c node f key
        ∙ split (same_bytes node.key key) refl
        ∙ sym (has_freq-assign c.nodes node f key)
      where
        split :
            (same : Bool)
            → same_bytes node.key key ≡ same
            → (contains (list_at c f) key || (node.freq == f && same_bytes node.key key)) ≡ (
                if same_bytes node.key key then node.freq == f else has_freq (lookup key c.nodes) f)
        split true e =
            let k = (same_bytes_iff node.key key).0 e in
            let here : has_freq (lookup key c.nodes) f ≡ false =
              ap (λ (x : Bytes). has_freq (lookup x c.nodes) f) (sym k)
              ∙ ap (λ (o : Option Node). has_freq o f) absent in
            ground (arith, h.linked f key, here)
        split false e = ground (arith, h.linked f key)

-- The cache once a node has been taken out.
abbrev pub dropped : Cache → Node → Cache
dropped c node = record (unlinked c node) { nodes = erase node.key c.nodes }

pub drop-IsLinked :
    (c : Cache) (node : Node)
    → IsLinked c
    → lookup node.key c.nodes ≡ some node
    → IsLinked (dropped c node)
drop-IsLinked c node h found = record {
  linked = λ f key.
      contains-unlinked c node f key
      ∙ ground (
        arith,
        h.linked f key,
        lookup-erase node.key key c.nodes,
        same_bytes_iff node.key key,
        found,
      );
  named = λ key n at. ground (arith, lookup-erase node.key key c.nodes, h.named key n);
}
