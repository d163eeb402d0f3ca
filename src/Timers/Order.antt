-- ===== src/Timers/Order.antt =====
-- The set of timers stays in its order, and the expired timers are those whose time has come.
use cpp_ai_service.Base.{
  ℕ, ◌+◌, ◌≤◌, ◌<◌, ◌≡◌, refl, sym, ap, subst, true, ◌&&◌, ◌||◌, List, [], ◌∷◌, ◌++◌, ltb, ◌==◌,
  arith, Bool-cases, if_lem, inl, inr, All,
}
use Prim.{tt}
use cpp_ai_service.Timers.Queue.{
  Timer, precedes, is_same, set_insert, uintptr_max, expired_at, left_at, TimerQueue, restart,
  reset_timerfd, add_timer_in_loop, is_earliest, reset_to_first, restart_or_delete, reset, add_each,
  run_each, get_expired, read_timerfd, handle_read,
}

-- Each timer precedes all behind it.
abbrev pub IsBefore : Timer → Timer → Type 0
IsBefore timer other = precedes timer.expiration timer.address other ≡ true

abbrev pub IsSorted : List Timer → Type 0
IsSorted [] = Unit
IsSorted (timer ∷ timers) = All (IsBefore timer) timers × IsSorted timers

IsBefore-trans : (a b c : Timer) → IsBefore a b → IsBefore b c → IsBefore a c
IsBefore-trans a b c h k = ground (arith, h, k)

IsBefore-all :
    (a b : Timer) (timers : List Timer)
    → IsBefore a b
    → All (IsBefore b) timers
    → All (IsBefore a) timers
IsBefore-all a b [] h k = k
IsBefore-all a b (c ∷ timers) h (k, ks) = (IsBefore-trans a b c h k, IsBefore-all a b timers h ks)

inserted_all :
    (a t : Timer) (timers : List Timer)
    → IsBefore a t
    → All (IsBefore a) timers
    → All (IsBefore a) (set_insert t timers)
unfolding set_insert
inserted_all a t [] h k = (h, k)
inserted_all a t (b ∷ timers) h (k, ks) =
    if_lem (All (IsBefore a)) (is_same t.expiration t.address b) (λ _. (k, ks))
      (λ _.
        if_lem (All (IsBefore a)) (precedes t.expiration t.address b) (λ _. (h, (k, ks)))
          (λ _. (k, inserted_all a t timers h ks)))

inserted-IsSorted :
    (t : Timer) (timers : List Timer) → IsSorted timers → IsSorted (set_insert t timers)
unfolding set_insert
inserted-IsSorted t [] s = (s, s)
inserted-IsSorted t (b ∷ timers) (k, ks) =
    if_lem IsSorted (is_same t.expiration t.address b) (λ _. (k, ks))
      (λ other.
        if_lem IsSorted (precedes t.expiration t.address b)
          (λ p. ((p, IsBefore-all t b timers p k), (k, ks)))
          (λ p.
            (inserted_all b t timers (ground (arith, other, p)) k, inserted-IsSorted t timers ks)))

left_at-IsSorted : (now : ℕ) (timers : List Timer) → IsSorted timers → IsSorted (left_at now timers)
unfolding left_at
left_at-IsSorted now [] s = s
left_at-IsSorted now (head ∷ timers) (k, ks) =
    if_lem IsSorted
      (ltb head.expiration now || head.expiration == now && ltb head.address uintptr_max)
      (λ _. left_at-IsSorted now timers ks) (λ _. (k, ks))

later_all :
    (now : ℕ) (a : Timer) (timers : List Timer)
    → now < a.expiration
    → All (IsBefore a) timers
    → All (λ (t : Timer). now < t.expiration) timers
later_all now a [] h k = k
later_all now a (b ∷ timers) h (k, ks) = (ground (arith, k, h), later_all now a timers h ks)

-- On a sorted set whose timers do not have the greatest address, the timers that `getExpired` gives
-- are those whose time is not after `now`, those that it leaves are those whose time is after it, and
-- one behind the other they are the set.
pub expired_at-left_at :
    (now : ℕ) (timers : List Timer)
    → IsSorted timers
    → All (λ (t : Timer). t.address < uintptr_max) timers
    → (expired_at now timers ++ left_at now timers ≡ timers)
      × All (λ (t : Timer). t.expiration ≤ now) (expired_at now timers)
      × All (λ (t : Timer). now < t.expiration) (left_at now timers)
unfolding expired_at left_at
expired_at-left_at now [] s a = (refl, s, s)
expired_at-left_at now (head ∷ timers) (k, ks) (a, more) =
    elim (Bool-cases
      (ltb head.expiration now || head.expiration == now && ltb head.address uintptr_max)) [
        | inl e ↦
            let (parts, early, late) = expired_at-left_at now timers ks more in
            rw e ((ap (◌∷◌ head) parts, (ground (arith, e), early), late))
        | inr e ↦
            let later : now < head.expiration = ground (arith, e, a) in
            rw e ((refl, tt, (later, later_all now head timers later k)))
      ]

module _ (clock : ℕ → ℕ) where
  added-IsSorted :
      (q : TimerQueue) (timer : Timer)
      → IsSorted q.timers
      → IsSorted (add_timer_in_loop clock q timer).timers
  unfolding add_timer_in_loop reset_timerfd
  added-IsSorted q timer s =
      if_lem (λ (r : TimerQueue). IsSorted r.timers) (is_earliest timer q.timers)
        (λ _. inserted-IsSorted timer q.timers s) (λ _. inserted-IsSorted timer q.timers s)

  added_each-IsSorted :
      (timers : List Timer) (q : TimerQueue)
      → IsSorted q.timers
      → IsSorted (add_each clock timers q).timers
  unfolding add_each
  added_each-IsSorted [] q s = s
  added_each-IsSorted (timer ∷ timers) q s =
      added_each-IsSorted timers (add_timer_in_loop clock q timer) (added-IsSorted q timer s)

  ran_each-IsSorted :
      (adds : ℕ → List Timer) (expired : List Timer) (q : TimerQueue)
      → IsSorted q.timers
      → IsSorted (run_each clock adds expired q).timers
  unfolding run_each
  ran_each-IsSorted adds [] q s = s
  ran_each-IsSorted adds (timer ∷ expired) q s =
      ran_each-IsSorted adds expired (add_each clock (adds timer.address) q)
        (added_each-IsSorted (adds timer.address) q s)

  restarted-IsSorted :
      (q : TimerQueue) (timer : Timer)
      → IsSorted q.timers
      → IsSorted (restart_or_delete clock q timer).timers
  unfolding restart_or_delete
  restarted-IsSorted q timer s =
      if_lem (λ (r : TimerQueue). IsSorted r.timers) timer.repeat
        (λ _. inserted-IsSorted (restart timer (clock q.readings)) q.timers s) (λ _. s)

  -- Setting the descriptor leaves the timers.
  pub first_lem :
      (q : TimerQueue) (timers : List Timer) → (reset_to_first clock q timers).timers ≡ q.timers
  unfolding reset_timerfd
  first_lem q [] = refl
  first_lem q (head ∷ timers) = refl

  reset-IsSorted :
      (expired : List Timer) (q : TimerQueue)
      → IsSorted q.timers
      → IsSorted (reset clock q expired).timers
  unfolding reset
  reset-IsSorted [] q s = s
  reset-IsSorted (timer ∷ expired) q s =
      let restarted = restart_or_delete clock q timer in
      reset-IsSorted expired (reset_to_first clock restarted restarted.timers)
        (subst IsSorted (sym (first_lem restarted restarted.timers)) (restarted-IsSorted q timer s))

  -- On a sorted set, whatever timers the callbacks add and whatever the clock shows, the set is sorted
  -- after `handleRead`.
  pub handle_read-IsSorted :
      (adds : ℕ → List Timer) (q : TimerQueue)
      → IsSorted q.timers
      → IsSorted (handle_read clock adds q).timers
  unfolding handle_read get_expired read_timerfd
  handle_read-IsSorted adds q s =
      let read = read_timerfd (record q { readings = q.readings + 1 }) in
      let (expired, left) = get_expired (clock q.readings) read in
      reset-IsSorted expired (run_each clock adds expired left)
        (ran_each-IsSorted adds expired left (left_at-IsSorted (clock q.readings) q.timers s))
