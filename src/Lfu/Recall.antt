-- ===== src/Lfu/Recall.antt =====
-- What `KHashLfuCache` gives back for a key.
use native.Mathlib.Nat.{mod-lt}
use cpp_ai_service.Base.{
  ℕ, zero, suc, ◌%◌, ◌≡◌, ◌≢◌, refl, sym, ap, ◌∙◌, [], ◌∷◌, List, Option, some, none, Bytes, arith,
  All, get_elem?,
}
use cpp_ai_service.Base.Dictionary.{bytes_key, lookup}
use cpp_ai_service.Lfu.Cache.{Cache}
use cpp_ai_service.Lfu.Slices.{Slices, set_slice, put_slice, get_slice}
use cpp_ai_service.Lfu.Invariant.{IsCache, value_of}
use cpp_ai_service.Lfu.Uses.{get_total}
use cpp_ai_service.Lfu.Runs.{put_total}
use cpp_ai_service.Lfu.Sliced.{IsSliced, slice_at, set_slice-IsSliced}

abbrev pub IsOpenCache : Cache → Type 0
IsOpenCache c = c.capacity ≢ 0

-- Slices in order, each with room for something.
pub record IsOpen (s : Slices) : Type 0 where
  pub sliced : IsSliced s
  pub rooms : All IsOpenCache s.slices

abbrev pub value_in : Option Cache → Bytes → Option Bytes
value_in none key = none
value_in (some c) key = value_of (lookup key c.nodes)

open_at :
    (i : ℕ) (caches : List Cache) {c : Cache}
    → All IsOpenCache caches
    → get_elem? caches i ≡ some c
    → IsOpenCache c
open_at i [] h e = absurd (ground arith)
open_at zero (d ∷ caches) {c} h e = ground (arith, h.0)
open_at (suc i) (d ∷ caches) {c} h e = open_at i caches {c = c} h.1 e

set_slice-IsOpenCache :
    (caches : List Cache) (i : ℕ) (c : Cache)
    → All IsOpenCache caches
    → IsOpenCache c
    → All IsOpenCache (set_slice caches i c)
unfolding set_slice
set_slice-IsOpenCache [] i c h s = h
set_slice-IsOpenCache (old ∷ caches) zero c h s = (s, h.1)
set_slice-IsOpenCache (old ∷ caches) (suc i) c h s = (h.0, set_slice-IsOpenCache caches i c h.1 s)

get_elem-set_slice :
    (caches : List Cache) (i : ℕ) (c : Cache) {old : Cache}
    → get_elem? caches i ≡ some old
    → get_elem? (set_slice caches i c) i ≡ some c
unfolding set_slice
get_elem-set_slice [] i c e = absurd (ground arith)
get_elem-set_slice (d ∷ caches) zero c e = refl
get_elem-set_slice (d ∷ caches) (suc i) c {old} e = get_elem-set_slice caches i c {old = old} e

module _ (hash : Bytes → ℕ) where
  -- The value that the slice of the key has for it.
  abbrev pub value_at : Slices → Bytes → Option Bytes
  value_at s key = value_in (get_elem? s.slices (hash key % s.slice_num)) key

  module _ (s : Slices) (key : Bytes) (h : IsOpen s) where
    abbrev index : ℕ
    index = hash key % s.slice_num

    chosen : (c : Cache) × (get_elem? s.slices index ≡ some c) × IsCache c
    chosen =
        slice_at index s.slices h.sliced.slices
          (omega (arith, mod-lt (hash key) h.sliced.some_slice, h.sliced.count))

    updated-IsOpen :
        {c : Cache} (used : Cache)
        → get_elem? s.slices index ≡ some c
        → IsCache used
        → used.capacity ≡ c.capacity
        → IsOpen (record s { slices = set_slice s.slices index used })
    updated-IsOpen {c} used at is_cache same = record {
      sliced = set_slice-IsSliced s index used h.sliced is_cache;
      rooms =
          set_slice-IsOpenCache s.slices index used h.rooms
            (omega (arith, same, open_at index s.slices {c = c} h.rooms at));
    }

    -- After a `put` the key has the value.
    pub put_slice_stores :
        (value : Bytes)
        → (after : Slices) × (put_slice hash s key value ≡ some after)
          × IsOpen after
          × (value_at after key ≡ some value)
    unfolding put_slice
    put_slice_stores value =
        let (c, at, is_cache) = chosen in
        let (used, ran, is_cache', a) =
          put_total c key value is_cache (open_at index s.slices {c = c} h.rooms at) in
        (
          record s { slices = set_slice s.slices index used },
          rw (at, put_slice) (rw ran refl),
          updated-IsOpen {c = c} used at is_cache' a.same_capacity,
          ap (λ (o : Option Cache). value_in o key)
                (get_elem-set_slice s.slices index used {old = c} at)
              ∙ a.stored,
        )

    -- `get` answers with the value of the key, and leaves it.
    pub get_slice_keeps :
        (after : Slices) × (get_slice hash s key ≡ some (after, value_at s key))
        × IsOpen after
        × (value_at after key ≡ value_at s key)
    unfolding get_slice
    get_slice_keeps =
        let (c, at, is_cache) = chosen in
        let (used, ran, is_cache', same) = get_total c key is_cache in
        let here : value_at s key ≡ value_of (lookup key c.nodes) =
          ap (λ (o : Option Cache). value_in o key) at in
        (
          record s { slices = set_slice s.slices index used },
          rw (at, get_slice) (rw ran refl),
          updated-IsOpen {c = c} used at is_cache' same.same_capacity,
          ap (λ (o : Option Cache). value_in o key)
                (get_elem-set_slice s.slices index used {old = c} at)
              ∙ same.values key
              ∙ sym here,
        )
