-- ===== src/Lfu/Runs.antt =====
-- `put`, and any sequence of calls on a new cache.
use Prim.{tt}
use cpp_ai_service.Base.{
  ℕ, ◌+◌, ◌^◌, ◌≤◌, ◌<◌, ◌≡◌, ◌≢◌, refl, false, [], ◌∷◌, List, Option, some, arith, Bytes, ◌==◌,
  ◌>>=◌, ◌∙◌, Option-cases, Bool-cases, inl, inr, length, All,
}
use cpp_ai_service.Base.Dictionary.{bytes_key, nat_key, lookup}
use cpp_ai_service.Lfu.Cache.{Node, Cache, put, get, purge, init, set_node}
use cpp_ai_service.Lfu.Linked.{contains}
use cpp_ai_service.Lfu.Counting.{sum_freq}
use cpp_ai_service.Lfu.Invariant.{IsCache}
use cpp_ai_service.Lfu.Totals.{IsWithin, each_of, put-IsWithin, get_step-IsWithin}
use cpp_ai_service.Lfu.Uses.{get_total}
use cpp_ai_service.Lfu.Stores.{IsPut, roomy-IsPut, full-IsPut}
use cpp_ai_service.Lfu.Refreshes.{refreshed-IsPut}

-- On a cache in order, with a capacity other than 0, `put` never meets a null list and leaves a cache
-- in order, of the same capacity, in which the key has the value. Any other key has the value it
-- had, or the key was new, the cache was full, and the other one was thrown out as the first of
-- those with the least frequency.
pub put_total :
    (c : Cache) (key value : Bytes)
    → IsCache c
    → c.capacity ≢ 0
    → (after : Cache) × (put c key value ≡ some after) × IsCache after × IsPut c key value after
unfolding put set_node
put_total c key value s open_cache =
    let not_zero : (c.capacity == 0) ≡ false = ground (arith, open_cache) in
    elim (Option-cases (lookup key c.nodes)) [
      | inr (node, e) ↦
          let (after, ran, is_cache, a) = refreshed-IsPut c key value s node e in
          (after, rw (not_zero, e, put) (rw ran refl), is_cache, a)
      | inl absent ↦ elim (Bool-cases (length c.nodes == c.capacity)) [
        | inl full ↦
            let (after, ran, is_cache, a) = full-IsPut c key value s open_cache absent full in
            (after, rw (not_zero, absent, put) ran, is_cache, a)
        | inr room ↦
            let (after, ran, is_cache, a) = roomy-IsPut c key value s open_cache absent room in
            (after, rw (not_zero, absent, put) ran, is_cache, a)
      ]
    ]

pub init-IsCache : (capacity most : ℕ) → 2 ≤ most → most + 2 < 127 → IsCache (init capacity most)
unfolding init contains lookup sum_freq
init-IsCache capacity most low high = record {
  sound = record {
    linked = record { linked = λ f k. refl; named = λ k n at. absurd (ground arith) };
    positive = λ k n at. absurd (ground arith);
    distinct_nodes = tt;
    distinct_lists = tt;
    bounded = omega arith;
    ages = low;
    narrow = high;
  };
  counted = omega arith;
  seldom = λ e. absurd (ground arith);
  least = λ e. absurd (ground arith);
  lowest = λ k n at. absurd (ground arith);
  start = omega arith;
}

purge-IsCache : (c : Cache) → IsCache c → IsCache (purge c)
unfolding purge contains lookup sum_freq
purge-IsCache c s = record {
  sound = record {
    linked = record { linked = λ f k. refl; named = λ k n at. absurd (ground arith) };
    positive = λ k n at. absurd (ground arith);
    distinct_nodes = tt;
    distinct_lists = tt;
    bounded = omega arith;
    ages = s.sound.ages;
    narrow = s.sound.narrow;
  };
  counted = omega arith;
  seldom = λ e. absurd (ground arith);
  least = λ e. absurd (ground arith);
  lowest = λ k n at. absurd (ground arith);
  start = s.start;
}

-- A call of a method of the cache.
pub data Call : Type 0 where
  call_put : Bytes → Bytes → Call
  call_get : Bytes → Call
  call_purge : Call

unfoldable pub step : Cache → Call → Option Cache
step c (call_put key value) = put c key value
step c (call_get key) = do (after, _) ← get c key; some after
step c call_purge = some (purge c)

unfoldable pub run : Cache → List Call → Option Cache
run c [] = some c
run c (call ∷ calls) = do after ← step c call; run after calls

pub step_total :
    (c : Cache) (call : Call)
    → IsCache c
    → (after : Cache) × (step c call ≡ some after) × IsCache after × (after.capacity ≡ c.capacity)
unfolding step purge
step_total c (call_put key value) s = elim (Bool-cases (c.capacity == 0)) [
  | inl zero ↦ (c, unfold put in rw zero refl, s, refl)
  | inr some_room ↦
      let (after, ran, is_cache, a) = put_total c key value s (ground arith) in
      (after, ran, is_cache, a.same_capacity)
]
step_total c (call_get key) s =
    let (after, ran, is_cache, same) = get_total c key s in
    (after, rw ran refl, is_cache, same.same_capacity)
step_total c call_purge s = (purge c, refl, purge-IsCache c s, refl)

step_within :
    (c after : Cache) (call : Call)
    → step c call ≡ some after
    → after.cur_total_num ≤ c.cur_total_num + 1
unfolding step purge
step_within c after (call_put key value) ran =
    each_of (IsWithin (c.cur_total_num + 1)) (put c key value) ran
      (put-IsWithin c key value c.cur_total_num (omega arith))
step_within c after (call_get key) ran =
    each_of (IsWithin (c.cur_total_num + 1)) _ ran
      (get_step-IsWithin c key c.cur_total_num (omega arith))
step_within c after call_purge ran =
    each_of (IsWithin (c.cur_total_num + 1)) (some (purge c)) ran (omega arith)

run_of :
    (c : Cache) (calls : List Call)
    → IsCache c
    → (after : Cache) × (run c calls ≡ some after)
      × IsCache after
      × (after.capacity ≡ c.capacity)
      × (after.cur_total_num ≤ c.cur_total_num + length calls)
unfolding run
run_of c [] s = (c, refl, s, refl, omega arith)
run_of c (call ∷ calls) s =
    let (next, ran, is_cache, same) = step_total c call s in
    let (after, ran', is_cache', same', within) = run_of next calls is_cache in
    let once = step_within c next call ran in
    (after, rw (ran, run) ran', is_cache', same' ∙ same, omega (arith, once, within))

-- A frequency is no larger than the sum of all.
freqs_le :
    (nodes : List (Bytes × Node)) (n : ℕ)
    → sum_freq nodes < n
    → All (λ (entry : Bytes × Node). entry.1.freq < n) nodes
unfolding sum_freq
freqs_le [] n h = tt
freqs_le ((key, node) ∷ nodes) n h = (omega (arith, h), freqs_le nodes n (omega (arith, h)))

-- No sequence of fewer than 2 ^ 31 calls on a new cache, of a bound on the average between 2 and 124,
-- ever meets a null list. After it the cache is in order and has no more nodes than its capacity, and
-- the count of the uses and the frequency of each node fit an `int`.
pub run_total :
    (capacity most : ℕ) (calls : List Call)
    → 2 ≤ most
    → most + 2 < 127
    → length calls < 2 ^ 31
    → (after : Cache) × (run (init capacity most) calls ≡ some after)
      × IsCache after
      × (length after.nodes ≤ capacity)
      × (after.cur_total_num < 2 ^ 31)
      × All (λ (entry : Bytes × Node). entry.1.freq < 2 ^ 31) after.nodes
run_total capacity most calls low high few =
    let (after, ran, is_cache, same, within) =
      run_of (init capacity most) calls (init-IsCache capacity most low high) in
    let same_capacity : after.capacity ≡ capacity = same ∙ (unfold init in refl) in
    let unused : (init capacity most).cur_total_num ≡ 0 = unfold init in refl in
    let counted : after.cur_total_num ≤ length calls = omega (arith, within, unused) in
    (
      after,
      ran,
      is_cache,
      omega (arith, is_cache.sound.bounded, same_capacity),
      omega (arith, counted, few),
      freqs_le after.nodes (2 ^ 31) (omega (arith, is_cache.counted, counted, few)),
    )
