-- ===== src/Lfu/Counting.antt =====
-- The sum of the frequencies, and the least frequency of the lists.
use native.Mathlib.Decide.{dec_lt}
use cpp_ai_service.Base.{
  same_bytes_refl, ==_refl, subst, ℕ, ◌+◌, ◌*◌, ◌≤◌, ◌<◌, ◌≡◌, refl, sym, Bool, false, [], ◌∷◌,
  List, none, some, arith, Bytes, min, if◌then◌else◌, is_empty, same_bytes_iff, ◌∙◌, Bool-cases,
  inl, inr, ◌⊎◌, length,
}
use cpp_ai_service.Base.Dictionary.{Key, bytes_key, nat_key, lookup, assign, erase}
use cpp_ai_service.Base.Distinct.{Distinct, erase_absent}
use cpp_ai_service.Lfu.Cache.{Node, least_freq}

unfoldable pub sum_freq : List (Bytes × Node) → ℕ
sum_freq [] = 0
sum_freq ((key, node) ∷ nodes) = node.freq + sum_freq nodes

pub sum_freq-assign_new :
    (k : Bytes) (node : Node) (nodes : List (Bytes × Node))
    → lookup k nodes ≡ none
    → sum_freq (assign k node nodes) ≡ sum_freq nodes + node.freq
unfolding sum_freq assign lookup
sum_freq-assign_new k node [] h = omega arith
sum_freq-assign_new k node ((j, n) ∷ nodes) h = ground (arith, sum_freq-assign_new k node nodes)

pub sum_freq-assign_old :
    (k : Bytes) (node : Node) (nodes : List (Bytes × Node)) {old : Node}
    → lookup k nodes ≡ some old
    → sum_freq (assign k node nodes) + old.freq ≡ sum_freq nodes + node.freq
unfolding sum_freq assign lookup
sum_freq-assign_old k node [] h = absurd (ground arith)
sum_freq-assign_old k node ((j, n) ∷ nodes) {old} h =
    ground (arith, sum_freq-assign_old k node nodes {old = old})

pub sum_freq-erase :
    (k : Bytes) (nodes : List (Bytes × Node)) {old : Node}
    → Distinct nodes
    → lookup k nodes ≡ some old
    → sum_freq (erase k nodes) + old.freq ≡ sum_freq nodes
unfolding sum_freq erase lookup
sum_freq-erase k [] d h = absurd (ground arith)
sum_freq-erase k ((j, n) ∷ nodes) {old} d h =
    ground
      (arith, sum_freq-erase k nodes {old = old} d.1, erase_absent k nodes, same_bytes_iff j k, d.0)

lookup_behind {κ} :
    {K : Type 0} {V : Type κ} ⦃key : Key K⦄ (k : K) (v : V) (m : List (K × V)) (j : K) {w : V}
    → lookup j m ≡ some w
    → lookup k m ≡ none
    → lookup j ((k, v) ∷ m) ≡ some w
unfolding lookup
lookup_behind ⦃key⦄ k v m j {w} at absent = ground (arith, key.same_iff k j)

-- The sum is small, so some node is used seldom.
pub seldom_used :
    (bound : ℕ) (nodes : List (Bytes × Node))
    → Distinct nodes
    → sum_freq nodes < bound * length nodes
    → (key : Bytes) × (node : Node) × (lookup key nodes ≡ some node) × (node.freq < bound)
unfolding sum_freq
seldom_used bound [] d h = absurd (omega arith)
seldom_used bound ((k, n) ∷ nodes) d h = elim (dec_lt n.freq bound) [
  | yes p ↦ (k, n, unfold lookup in rw (same_bytes_refl k) refl, p)
  | no p ↦
      let (key, node, at, lt) = seldom_used bound nodes d.1 (omega arith) in
      (key, node, lookup_behind k n nodes key at d.0, lt)
]

pub least_freq-le_start : (lists : List (ℕ × List Bytes)) (m : ℕ) → least_freq lists m ≤ m
unfolding least_freq
least_freq-le_start [] m = omega arith
least_freq-le_start ((f, list) ∷ lists) m =
    ground (arith, least_freq-le_start lists (if is_empty list then m else min m f))

pub least_freq-le :
    (lists : List (ℕ × List Bytes)) (m f : ℕ) {list : List Bytes}
    → lookup f lists ≡ some list
    → is_empty list ≡ false
    → least_freq lists m ≤ f
unfolding least_freq lookup
least_freq-le [] m f h filled = absurd (ground arith)
least_freq-le ((g, other) ∷ lists) m f {list} h filled = ground (
  arith,
  least_freq-le lists (if is_empty other then m else min m g) f {list = list},
  least_freq-le_start lists (if is_empty other then m else min m g),
)

-- A value that is the start value, or the frequency of a list which is not empty.
abbrev pub IsFound : List (ℕ × List Bytes) → ℕ → ℕ → Type 0
IsFound lists m g =
    (g ≡ m) ⊎ ((list : List Bytes) × (lookup g lists ≡ some list) × (is_empty list ≡ false))

least_freq_step :
    (f : ℕ) (list : List Bytes) (lists : List (ℕ × List Bytes)) (m : ℕ) {empty : Bool}
    → is_empty list ≡ empty
    → least_freq ((f, list) ∷ lists) m ≡ least_freq lists (if empty then m else min m f)
unfolding least_freq
least_freq_step f list lists m e = rw e refl

IsFound-behind :
    (f : ℕ) (list : List Bytes) (lists : List (ℕ × List Bytes)) (m g : ℕ)
    → lookup f lists ≡ none
    → IsFound lists m g
    → IsFound ((f, list) ∷ lists) m g
IsFound-behind f list lists m g absent (inl start) = inl start
IsFound-behind f list lists m g absent (inr (l, at, filled)) =
    inr (l, lookup_behind f list lists g at absent, filled)

IsFound-here :
    (f : ℕ) (list : List Bytes) (lists : List (ℕ × List Bytes)) (m g : ℕ)
    → is_empty list ≡ false
    → IsFound ((f, list) ∷ lists) (min m f) g
    → IsFound ((f, list) ∷ lists) m g
IsFound-here f list lists m g filled (inl start) = elim (dec_lt f m) [
  | no p ↦ inl (start ∙ omega arith)
  | yes p ↦
      let is_f : g ≡ f = start ∙ omega arith in
      inr (list, rw is_f (unfold lookup in rw (==_refl f) refl), filled)
]
IsFound-here f list lists m g filled (inr found) = inr found

pub least_freq-IsFound :
    (lists : List (ℕ × List Bytes)) (m : ℕ) → Distinct lists → IsFound lists m (least_freq lists m)
least_freq-IsFound [] m d = inl (unfold least_freq in refl)
least_freq-IsFound ((f, list) ∷ lists) m d = elim (Bool-cases (is_empty list)) [
  | inl e ↦
      subst (IsFound ((f, list) ∷ lists) m) (sym (least_freq_step f list lists m e))
        (IsFound-behind f list lists m (least_freq lists m) d.0 (least_freq-IsFound lists m d.1))
  | inr e ↦ subst (IsFound ((f, list) ∷ lists) m) (sym (least_freq_step f list lists m e)) (
      IsFound-here f list lists m (least_freq lists (min m f)) e (
        IsFound-behind f list lists (min m f) (least_freq lists (min m f)) d.0
          (least_freq-IsFound lists (min m f) d.1)))
]
