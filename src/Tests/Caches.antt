-- ===== src/Tests/Caches.antt =====
-- The cache of include/LFU.h at concrete inputs.
use cpp_ai_service.Base.{
  ◌^◌, ◌≤◌, ◌<◌, ◌≡◌, All, refl, some, [], ◌∷◌, arith, Bytes, List, codes, length, same_bytes,
  ==_iff, same_bytes_iff,
}
use cpp_ai_service.Base.Dictionary.{bytes_key, nat_key, lookup, assign}
use cpp_ai_service.Lfu.Cache.{
  Node, Cache, init, put, get, kick_out, put_internal, add_to_freq_list, set_node, add_freq_num,
  add_node,
}
use cpp_ai_service.Lfu.Linked.{contains}
use cpp_ai_service.Lfu.Counting.{sum_freq}
use cpp_ai_service.Lfu.Invariant.{IsCache, SameValues, value_of}
use cpp_ai_service.Lfu.Puts.{HasRoom}
use cpp_ai_service.Lfu.Uses.{get_total}
use cpp_ai_service.Lfu.Evictions.{IsVictim, without, kick_out_total}
use cpp_ai_service.Lfu.Stores.{IsPut}
use cpp_ai_service.Lfu.Runs.{put_total, Call, call_put, call_get, run, run_total}

abbrev first_key : Bytes
first_key = codes "a"

abbrev first : Node
first = record { freq = 1; key = first_key; value = codes "1" }

-- A cache with one node and no room for another.
abbrev full_cache : Cache
full_cache = record {
  capacity = 1;
  min_freq = 1;
  max_average_num = 10;
  cur_average_num = 1;
  cur_total_num = 1;
  nodes = (first_key, first) ∷ [];
  freq_lists = (1, first_key ∷ []) ∷ [];
}

is_put : put (init 1 10) first_key (codes "1") ≡ some full_cache
unfolding put init lookup put_internal add_to_freq_list set_node add_freq_num assign add_node
is_put = refl

full-IsCache : IsCache full_cache
unfolding contains lookup sum_freq
full-IsCache = record {
  sound = record {
    linked = record {
      linked = λ f k. ground (arith, ==_iff 1 f, same_bytes_iff first_key k);
      named = λ k n at. ground (arith, same_bytes_iff first_key k);
    };
    positive = λ k n at. ground arith;
    distinct_nodes = (refl, tt);
    distinct_lists = (refl, tt);
    bounded = omega arith;
    ages = omega arith;
    narrow = omega arith;
  };
  counted = omega arith;
  seldom = λ e. (first_key, first, unfold same_bytes in refl, omega arith);
  least = λ e. (first_key, first, unfold same_bytes in refl, refl);
  lowest = λ k n at. ground arith;
  start = omega arith;
}

put_total_example :
    (after : Cache) × (put full_cache (codes "b") (codes "2") ≡ some after)
    × IsCache after
    × IsPut full_cache (codes "b") (codes "2") after
put_total_example = put_total full_cache (codes "b") (codes "2") full-IsCache (omega arith)

get_total_example :
    (after : Cache) × (get full_cache first_key
      ≡ some (after, value_of (lookup first_key full_cache.nodes)))
    × IsCache after
    × SameValues full_cache after
get_total_example = get_total full_cache first_key full-IsCache

kick_out_total_example :
    (victim : Node) × IsVictim full_cache victim
    × (kick_out full_cache ≡ some (without full_cache victim))
    × HasRoom (without full_cache victim)
kick_out_total_example = kick_out_total full_cache full-IsCache refl

abbrev calls : List Call
calls =
    call_put (codes "a") (codes "1") ∷ call_put (codes "b") (codes "2") ∷ call_get (codes "b") ∷ []

run_total_example :
    (after : Cache) × (run (init 1 10) calls ≡ some after)
    × IsCache after
    × (length after.nodes ≤ 1)
    × (after.cur_total_num < 2 ^ 31)
    × All (λ (entry : Bytes × Node). entry.1.freq < 2 ^ 31) after.nodes
run_total_example = run_total 1 10 calls (omega arith) (omega arith) (omega arith)
