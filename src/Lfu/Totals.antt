-- ===== src/Lfu/Totals.antt =====
-- How far `curTotalNum_` grows: by one for each use at most. Ageing never lowers it.
use Prim.{tt, Unit}
use cpp_ai_service.Base.{
  ℕ, ◌+◌, ◌≤◌, ◌≡◌, subst, [], ◌∷◌, List, Option, none, some, arith, Bytes, ltb, ◌==◌, if_lem,
  is_empty, ◌>>=◌, length,
}
use cpp_ai_service.Base.Dictionary.{bytes_key, nat_key, lookup}
use cpp_ai_service.Lfu.Cache.{
  Node, Cache, remove_from_freq_list, add_to_freq_list, set_node, move_node, aged, update_min_freq,
  age_nodes, handle_over_max_average_num, average, add_freq_num, decrease_freq_num, get_internal,
  first_node, kick_out, put_internal, put, get,
}

-- The property of the result, if there is one.
abbrev Each {ℓ} : {A : Type ℓ} → (A → Type 0) → Option A → Type 0
Each P none = Unit
Each P (some a) = P a

Each-bind {ℓ κ} :
    {A : Type ℓ} {B : Type κ} (P : A → Type 0) (Q : B → Type 0) (o : Option A) (f : A → Option B)
    → Each P o
    → ((a : A) → P a → Each Q (f a))
    → Each Q (o >>= f)
Each-bind P Q none f p g = tt
Each-bind P Q (some a) f p g = g a p

Each-any {ℓ} : {A : Type ℓ} (o : Option A) → Each (λ (a : A). Unit) o
Each-any none = tt
Each-any (some a) = tt

pub each_of {ℓ} : {A : Type ℓ} (P : A → Type 0) (o : Option A) {a : A} → o ≡ some a → Each P o → P a
each_of P o e p = subst (Each P) e p

abbrev pub IsWithin : ℕ → Cache → Type 0
IsWithin n c = c.cur_total_num ≤ n

abbrev FirstWithin {ℓ} : {A : Type ℓ} → ℕ → Cache × A → Type 0
FirstWithin n (c, a) = IsWithin n c

remove-IsWithin :
    (c : Cache) (node : Node) (n : ℕ)
    → IsWithin n c
    → Each (IsWithin n) (remove_from_freq_list c node)
unfolding remove_from_freq_list
remove-IsWithin c node n h =
    Each-bind (λ (list : List Bytes). Unit) (IsWithin n) (lookup node.freq c.freq_lists) _
      (Each-any (lookup node.freq c.freq_lists)) (λ list _. h)

move-IsWithin :
    (c : Cache) (node : Node) (freq n : ℕ)
    → IsWithin n c
    → Each (IsWithin n) (move_node c node freq)
unfolding move_node add_to_freq_list set_node
move-IsWithin c node freq n h =
    Each-bind (IsWithin n) (IsWithin n) (remove_from_freq_list c node) _
      (remove-IsWithin c node n h) (λ unlinked within. within)

age-IsWithin :
    (nodes : List (Bytes × Node)) (c : Cache) (n : ℕ)
    → IsWithin n c
    → Each (IsWithin n) (age_nodes nodes c)
unfolding age_nodes
age-IsWithin [] c n h = h
age-IsWithin ((key, node) ∷ nodes) c n h =
    Each-bind (IsWithin n) (IsWithin n) (move_node c node (aged c.max_average_num node.freq)) _
      (move-IsWithin c node (aged c.max_average_num node.freq) n h)
      (λ moved within. age-IsWithin nodes moved n within)

over-IsWithin :
    (c : Cache) (n : ℕ) → IsWithin n c → Each (IsWithin n) (handle_over_max_average_num c)
unfolding handle_over_max_average_num update_min_freq
over-IsWithin c n h =
    if_lem (Each (IsWithin n)) (is_empty c.nodes) (λ _. h)
      (λ _.
        Each-bind (IsWithin n) (IsWithin n) (age_nodes c.nodes c) _ (age-IsWithin c.nodes c n h)
          (λ all_aged within. within))

add_freq_num-IsWithin :
    (c : Cache) (n : ℕ) → IsWithin n c → Each (IsWithin (n + 1)) (add_freq_num c)
unfolding add_freq_num
add_freq_num-IsWithin c n h =
    let total = c.cur_total_num + 1 in
    let counted : Cache = record c { cur_total_num = total; cur_average_num = average c total } in
    if_lem (Each (IsWithin (n + 1))) (ltb c.max_average_num (average c total))
      (λ _. over-IsWithin counted (n + 1) (omega (arith, h))) (λ _. omega (arith, h))

get_internal-FirstWithin :
    (c : Cache) (node : Node) (n : ℕ)
    → IsWithin n c
    → Each (FirstWithin (n + 1)) (get_internal c node)
unfolding get_internal
get_internal-FirstWithin c node n h =
    Each-bind (IsWithin n) (FirstWithin (n + 1)) (move_node c node (node.freq + 1)) _
      (move-IsWithin c node (node.freq + 1) n h)
      (λ moved within.
        Each-bind (IsWithin (n + 1)) (FirstWithin (n + 1)) (add_freq_num _) _
          (add_freq_num-IsWithin _ n within) (λ counted within'. within'))

kick_out-IsWithin : (c : Cache) (n : ℕ) → IsWithin n c → Each (IsWithin n) (kick_out c)
unfolding kick_out decrease_freq_num
kick_out-IsWithin c n h =
    Each-bind (λ (list : List Bytes). Unit) (IsWithin n) (lookup c.min_freq c.freq_lists) _
      (Each-any (lookup c.min_freq c.freq_lists))
      (λ list _.
        Each-bind (IsWithin n) (IsWithin n) (remove_from_freq_list c (first_node c list)) _
          (remove-IsWithin c (first_node c list) n h) (λ unlinked within. omega (arith, within)))

put_internal-IsWithin :
    (c : Cache) (key value : Bytes) (n : ℕ)
    → IsWithin n c
    → Each (IsWithin (n + 1)) (put_internal c key value)
unfolding put_internal add_to_freq_list set_node
put_internal-IsWithin c key value n h =
    Each-bind (IsWithin n) (IsWithin (n + 1)) _ _
      (if_lem (Each (IsWithin n)) (length c.nodes == c.capacity) (λ _. kick_out-IsWithin c n h)
        (λ _. h))
      (λ room within.
        Each-bind (IsWithin (n + 1)) (IsWithin (n + 1)) (add_freq_num _) _
          (add_freq_num-IsWithin _ n within) (λ counted within'. within'))

pub put-IsWithin :
    (c : Cache) (key value : Bytes) (n : ℕ)
    → IsWithin n c
    → Each (IsWithin (n + 1)) (put c key value)
unfolding put set_node
put-IsWithin c key value n h =
    if_lem (Each (IsWithin (n + 1))) (c.capacity == 0) (λ _. omega (arith, h))
      (λ _. found (lookup key c.nodes))
  where
    found :
        (node : Option Node)
        → Each (IsWithin (n + 1)) (elim node [
          | none ↦ put_internal c key value
          | some node ↦ do
            let fresh = record node { value = value }
            (used, _) ← get_internal (set_node c fresh) fresh
            some used
        ])
    found none = put_internal-IsWithin c key value n h
    found (some node) =
        let fresh : Node = record node { value = value } in
        Each-bind (FirstWithin (n + 1)) (IsWithin (n + 1)) (get_internal (set_node c fresh) fresh) _
          (get_internal-FirstWithin (set_node c fresh) fresh n h) (λ used within. within)

get-FirstWithin :
    (c : Cache) (key : Bytes) (n : ℕ) → IsWithin n c → Each (FirstWithin (n + 1)) (get c key)
unfolding get
get-FirstWithin c key n h = found (lookup key c.nodes)
  where
    found :
        (node : Option Node)
        → Each (FirstWithin (n + 1)) (elim node [
          | none ↦ some (c, none)
          | some node ↦ do (used, value) ← get_internal c node; some (used, some value)
        ])
    found none = omega (arith, h)
    found (some node) =
        Each-bind (FirstWithin (n + 1)) (FirstWithin (n + 1)) (get_internal c node) _
          (get_internal-FirstWithin c node n h) (λ used within. within)

-- A call of `get`, of which the answer is dropped.
pub get_step-IsWithin :
    (c : Cache) (key : Bytes) (n : ℕ)
    → IsWithin n c
    → Each (IsWithin (n + 1)) (do (after, _) ← get c key; some after)
get_step-IsWithin c key n h =
    Each-bind (FirstWithin (n + 1)) (IsWithin (n + 1)) (get c key) _ (get-FirstWithin c key n h)
      (λ used within. within)
