-- ===== src/Lfu/Evictions.antt =====
-- `kickOut` throws out the node that has waited longest of those of the least frequency.
use cpp_ai_service.Base.{
  ℕ, ◌≤◌, ◌≡◌, refl, sym, ap, false, [], ◌∷◌, List, some, arith, Bytes, is_empty, ◌∙◌,
}
use cpp_ai_service.Base.Dictionary.{bytes_key, nat_key, lookup, lookup-erase}
use cpp_ai_service.Base.Distinct.{Distinct-assign, Distinct-erase, length-erase_present}
use cpp_ai_service.Lfu.Cache.{Node, Cache, first_node, kick_out, decrease_freq_num}
use cpp_ai_service.Lfu.Linked.{IsLinked, dropped, drop-IsLinked, remove_total}
use cpp_ai_service.Lfu.Counting.{sum_freq-erase}
use cpp_ai_service.Lfu.Invariant.{IsCache, node_of_list, list_of_node}
use cpp_ai_service.Lfu.Puts.{HasRoom}

-- A key with the least frequency of all.
pub record IsVictim (c : Cache) (victim : Node) : Type 0 where
  pub found : lookup victim.key c.nodes ≡ some victim
  pub rarest :
      (key : Bytes) (node : Node) → lookup key c.nodes ≡ some node → victim.freq ≤ node.freq
  pub first : (rest : List Bytes) × (lookup victim.freq c.freq_lists ≡ some (victim.key ∷ rest))

first-IsVictim :
    (c : Cache)
    → IsCache c
    → is_empty c.nodes ≡ false
    → (victim : Node) × IsVictim c victim
      × ((rest : List Bytes) × (lookup c.min_freq c.freq_lists ≡ some (victim.key ∷ rest)))
first-IsVictim c s filled =
    let (k, n, at, low) = s.least filled in
    let (list, there, some_key) = list_of_node c k n s.sound.linked at in
    of_list list (ap (λ (f : ℕ). lookup f c.freq_lists) (sym low) ∙ there) some_key
  where
    of_list :
        (list : List Bytes)
        → lookup c.min_freq c.freq_lists ≡ some list
        → is_empty list ≡ false
        → (victim : Node) × IsVictim c victim
          × ((rest : List Bytes) × (lookup c.min_freq c.freq_lists ≡ some (victim.key ∷ rest)))
    of_list [] there e = absurd (ground arith)
    of_list (k ∷ rest) there e =
        let (victim, at, low) = node_of_list c c.min_freq k rest s.sound.linked there in
        let named = s.sound.linked.named k victim at in
        let listed : lookup c.min_freq c.freq_lists ≡ some (victim.key ∷ rest) =
          there ∙ ap (λ (x : Bytes). some (x ∷ rest)) (sym named) in
        (
          victim,
          record {
            found = ap (λ (x : Bytes). lookup x c.nodes) named ∙ at;
            rarest = λ j n at_j. omega (arith, low, s.lowest j n at_j);
            first = (rest, ap (λ (f : ℕ). lookup f c.freq_lists) low ∙ listed);
          },
          (rest, listed),
        )

abbrev pub without : Cache → Node → Cache
without c victim = decrease_freq_num (dropped c victim) victim.freq

first_node_of :
    (c : Cache) (victim : Node) (rest : List Bytes)
    → lookup victim.key c.nodes ≡ some victim
    → first_node c (victim.key ∷ rest) ≡ victim
unfolding first_node
first_node_of c victim rest at = rw at refl

kick_out_of :
    (c : Cache) (victim : Node) (rest : List Bytes)
    → IsLinked c
    → lookup victim.key c.nodes ≡ some victim
    → lookup c.min_freq c.freq_lists ≡ some (victim.key ∷ rest)
    → kick_out c ≡ some (without c victim)
unfolding kick_out
kick_out_of c victim rest linked at listed =
    rw (listed, first_node_of c victim rest at, remove_total c victim linked at) refl

without-HasRoom :
    (c : Cache) (victim : Node) → IsCache c → IsVictim c victim → HasRoom (without c victim)
unfolding decrease_freq_num
without-HasRoom c victim s v =
    let linked = drop-IsLinked c victim s.sound.linked v.found in
    let fewer =
      length-erase_present victim.key c.nodes {w = victim} s.sound.distinct_nodes v.found in
    let less = sum_freq-erase victim.key c.nodes {old = victim} s.sound.distinct_nodes v.found in
    record {
      sound = record {
        linked = record { linked = linked.linked; named = linked.named };
        positive =
            λ k n at. ground (arith, lookup-erase victim.key k c.nodes, s.sound.positive k n);
        distinct_nodes = Distinct-erase victim.key c.nodes s.sound.distinct_nodes;
        distinct_lists = Distinct-assign victim.freq _ c.freq_lists s.sound.distinct_lists;
        bounded = omega (arith, fewer, s.sound.bounded);
        ages = s.sound.ages;
        narrow = s.sound.narrow;
      };
      counted = omega (arith, less, s.counted);
      start = s.start;
      room = omega (arith, fewer, s.sound.bounded);
    }

-- On a cache in order that has a node, `kickOut` never meets a null list. It takes out a node of the
-- least frequency, the first in the list of it, and leaves room for a new one.
pub kick_out_total :
    (c : Cache)
    → IsCache c
    → is_empty c.nodes ≡ false
    → (victim : Node) × IsVictim c victim
      × (kick_out c ≡ some (without c victim))
      × HasRoom (without c victim)
kick_out_total c s filled =
    let (victim, v, (rest, listed)) = first-IsVictim c s filled in
    (
      victim,
      v,
      kick_out_of c victim rest s.sound.linked v.found listed,
      without-HasRoom c victim s v,
    )
