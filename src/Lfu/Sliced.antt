-- ===== src/Lfu/Sliced.antt =====
-- The slices of `KHashLfuCache` are in order at all times.
use native.Mathlib.Nat.{mod-lt}
use cpp_ai_service.Base.{
  ℕ, zero, suc, ◌+◌, ◌%◌, ◌≤◌, ◌<◌, ◌≡◌, refl, ap, ◌∙◌, [], ◌∷◌, List, Option, some, Bytes, arith,
  All, length, get_elem?, replicate, ltb, true,
}
use cpp_ai_service.Base.Dictionary.{bytes_key, lookup}
use cpp_ai_service.Lfu.Cache.{Cache, put, init}
use cpp_ai_service.Lfu.Slices.{Slices, set_slice, put_slice, get_slice, init_slices, slice_size}
use cpp_ai_service.Lfu.Invariant.{IsCache, value_of}
use cpp_ai_service.Lfu.Uses.{get_total}
use cpp_ai_service.Lfu.Runs.{step, call_put, step_total, init-IsCache}

-- There are as many slices as the number says, at least one, and each is in order.
pub record IsSliced (s : Slices) : Type 0 where
  pub slices : All IsCache s.slices
  pub count : length s.slices ≡ s.slice_num
  pub some_slice : 0 < s.slice_num

pub slice_at :
    (i : ℕ) (caches : List Cache)
    → All IsCache caches
    → i < length caches
    → (c : Cache) × (get_elem? caches i ≡ some c) × IsCache c
slice_at i [] h lt = absurd (omega arith)
slice_at zero (c ∷ caches) h lt = (c, refl, h.0)
slice_at (suc i) (c ∷ caches) h lt = slice_at i caches h.1 (omega arith)

set_slice-IsCache :
    (caches : List Cache) (i : ℕ) (c : Cache)
    → All IsCache caches
    → IsCache c
    → All IsCache (set_slice caches i c)
unfolding set_slice
set_slice-IsCache [] i c h s = h
set_slice-IsCache (old ∷ caches) zero c h s = (s, h.1)
set_slice-IsCache (old ∷ caches) (suc i) c h s = (h.0, set_slice-IsCache caches i c h.1 s)

length-set_slice :
    (caches : List Cache) (i : ℕ) (c : Cache) → length (set_slice caches i c) ≡ length caches
unfolding set_slice
length-set_slice [] i c = refl
length-set_slice (old ∷ caches) zero c = refl
length-set_slice (old ∷ caches) (suc i) c = ap suc (length-set_slice caches i c)

pub set_slice-IsSliced :
    (s : Slices) (i : ℕ) (c : Cache)
    → IsSliced s
    → IsCache c
    → IsSliced (record s { slices = set_slice s.slices i c })
set_slice-IsSliced s i c h is_cache = record {
  slices = set_slice-IsCache s.slices i c h.slices is_cache;
  count = length-set_slice s.slices i c ∙ h.count;
  some_slice = h.some_slice;
}

module _ (hash : Bytes → ℕ) (s : Slices) (key : Bytes) (h : IsSliced s) where
  abbrev index : ℕ
  index = hash key % s.slice_num

  chosen : (c : Cache) × (get_elem? s.slices index ≡ some c) × IsCache c
  chosen = slice_at index s.slices h.slices (omega (arith, mod-lt (hash key) h.some_slice, h.count))

  pub put_slice_total :
      (value : Bytes)
      → (after : Slices) × (put_slice hash s key value ≡ some after) × IsSliced after
  unfolding put_slice step
  put_slice_total value =
      let (c, at, is_cache) = chosen in
      let (used, ran, is_cache', _) = step_total c (call_put key value) is_cache in
      let ran' : put c key value ≡ some used = ran in
      (
        record s { slices = set_slice s.slices index used },
        rw (at, put_slice) (rw ran' refl),
        set_slice-IsSliced s index used h is_cache',
      )

  pub get_slice_total :
      (after : Slices) × (found : Option Bytes) × (get_slice hash s key ≡ some (after, found))
      × IsSliced after
  unfolding get_slice
  get_slice_total =
      let (c, at, is_cache) = chosen in
      let (used, ran, is_cache', _) = get_total c key is_cache in
      (
        record s { slices = set_slice s.slices index used },
        value_of (lookup key c.nodes),
        rw (at, get_slice) (rw ran refl),
        set_slice-IsSliced s index used h is_cache',
      )

replicate-IsCache : (count : ℕ) (c : Cache) → IsCache c → All IsCache (replicate count c)
replicate-IsCache zero c s = tt
replicate-IsCache (suc count) c s = (s, replicate-IsCache count c s)

length-replicate_lem : (count : ℕ) (c : Cache) → length (replicate count c) ≡ count
length-replicate_lem zero c = refl
length-replicate_lem (suc count) c = ap suc (length-replicate_lem count c)

-- New slices are in order.
pub init_slices-IsSliced :
    (capacity slice_num most threads : ℕ)
    → 0 < slice_num
    → 2 ≤ most
    → most + 2 < 127
    → IsSliced (init_slices capacity slice_num most threads)
unfolding init_slices
init_slices-IsSliced capacity slice_num most threads positive low high =
    let given : ltb 0 slice_num ≡ true = ground arith in
    let fresh = init-IsCache (slice_size capacity slice_num) most low high in
    rw given (record {
      slices = replicate-IsCache slice_num (init (slice_size capacity slice_num) most) fresh;
      count = length-replicate_lem slice_num (init (slice_size capacity slice_num) most);
      some_slice = positive;
    })
