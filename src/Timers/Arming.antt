-- ===== src/Timers/Arming.antt =====
-- When the descriptor is set for the earliest timer.
use cpp_ai_service.Base.{
  ℕ, ◌+◌, ◌*◌, ◌≡◌, ◌∙◌, refl, ap, sym, Bool, true, false, not, ◌||◌, List, [], ◌∷◌, Option, none,
  some, is_empty, ◌==◌, arith, if_lem, max,
}
use cpp_ai_service.Timers.Queue.{
  Timer, Setting, precedes, is_same, set_insert, expired_at, left_at, TimerQueue, reset_timerfd,
  add_timer_in_loop, is_earliest, reset_to_first, restart, restart_or_delete, reset, add_each,
  run_each, get_expired, read_timerfd, handle_read, delay, timespec,
}

-- Whether the descriptor, so set, fires at the time, but not before 100 microseconds after it was set:
-- in nanoseconds.
abbrev pub fires_at : Setting → ℕ → Bool
fires_at s when =
    s.set_at * 1000 + (s.it_value.0 * 1000000000 + s.it_value.1) == max when (s.set_at + 100) * 1000

abbrev pub armed_for : List Timer → Option Setting → Bool
armed_for [] none = true
armed_for [] (some s) = false
armed_for (head ∷ timers) none = false
armed_for (head ∷ timers) (some s) = fires_at s head.expiration

-- The descriptor fires for the earliest timer, or it is not set and there is no timer.
unfoldable pub is_armed : TimerQueue → Bool
is_armed q = armed_for q.timers q.armed

-- The setting that `resetTimerfd` makes.
abbrev set_for : ℕ → ℕ → Setting
set_for when now = record { set_at = now; it_value = timespec (delay when now) }

set_for_fires : (when now : ℕ) → fires_at (set_for when now) when ≡ true
unfolding timespec delay
set_for_fires when now = ground arith

insert_armed :
    (timer : Timer) (timers : List Timer) (armed : Option Setting)
    → is_earliest timer timers ≡ false
    → armed_for timers armed ≡ true
    → armed_for (set_insert timer timers) armed ≡ true
unfolding set_insert
insert_armed timer [] armed late a = absurd (ground (arith, late))
insert_armed timer (head ∷ timers) none late a = absurd (ground (arith, a))
insert_armed timer (head ∷ timers) (some s) late a =
    if_lem (λ (ts : List Timer). armed_for ts (some s) ≡ true)
      (is_same timer.expiration timer.address head) (λ _. a)
      (λ _.
        if_lem (λ (ts : List Timer). armed_for ts (some s) ≡ true)
          (precedes timer.expiration timer.address head)
          (λ p.
            let same : head.expiration ≡ timer.expiration = ground (arith, p, late) in
            ap (fires_at s) (sym same) ∙ a)
          (λ _. a))

insert_first :
    (timer : Timer) (timers : List Timer) (now : ℕ)
    → is_earliest timer timers ≡ true
    → armed_for (set_insert timer timers) (some (set_for timer.expiration now)) ≡ true
unfolding set_insert
insert_first timer [] now first = set_for_fires timer.expiration now
insert_first timer (head ∷ timers) now first =
    if_lem (λ (ts : List Timer). armed_for ts (some (set_for timer.expiration now)) ≡ true)
      (is_same timer.expiration timer.address head) (λ e. absurd (ground (arith, e, first)))
      (λ _.
        if_lem (λ (ts : List Timer). armed_for ts (some (set_for timer.expiration now)) ≡ true)
          (precedes timer.expiration timer.address head) (λ _. set_for_fires timer.expiration now)
          (λ p. absurd (ground (arith, p, first))))

-- The descriptor is not set where there is no timer.
abbrev unset_if_empty : List Timer → Option Setting → Bool
unset_if_empty [] none = true
unset_if_empty [] (some s) = false
unset_if_empty (head ∷ timers) armed = true

unset_insert :
    (timer : Timer) (timers : List Timer) (armed : Option Setting)
    → unset_if_empty (set_insert timer timers) armed ≡ true
unfolding set_insert
unset_insert timer [] armed = refl
unset_insert timer (head ∷ timers) armed =
    if_lem (λ (ts : List Timer). unset_if_empty ts armed ≡ true)
      (is_same timer.expiration timer.address head) (λ _. refl)
      (λ _.
        if_lem (λ (ts : List Timer). unset_if_empty ts armed ≡ true)
          (precedes timer.expiration timer.address head) (λ _. refl) (λ _. refl))

unset_of_armed :
    (timers : List Timer) (armed : Option Setting)
    → armed_for timers armed ≡ true
    → unset_if_empty timers armed ≡ true
unset_of_armed [] none a = refl
unset_of_armed [] (some s) a = absurd (ground (arith, a))
unset_of_armed (head ∷ timers) armed a = refl

module _ (clock : ℕ → ℕ) where
  -- Adding a timer keeps the descriptor set for the earliest one.
  pub add_timer_in_loop_armed :
      (q : TimerQueue) (timer : Timer)
      → is_armed q ≡ true
      → is_armed (add_timer_in_loop clock q timer) ≡ true
  unfolding is_armed add_timer_in_loop reset_timerfd
  add_timer_in_loop_armed q timer a =
      if_lem (λ (r : TimerQueue). armed_for r.timers r.armed ≡ true) (is_earliest timer q.timers)
        (λ first. insert_first timer q.timers _ first)
        (λ late. insert_armed timer q.timers q.armed late a)

  abbrev IsUnset : TimerQueue → Type 0
  IsUnset q = unset_if_empty q.timers q.armed ≡ true

  add-IsUnset : (q : TimerQueue) (timer : Timer) → IsUnset (add_timer_in_loop clock q timer)
  unfolding add_timer_in_loop reset_timerfd
  add-IsUnset q timer =
      if_lem IsUnset (is_earliest timer q.timers) (λ _. unset_insert timer q.timers _)
        (λ _. unset_insert timer q.timers q.armed)

  add_each-IsUnset :
      (timers : List Timer) (q : TimerQueue) → IsUnset q → IsUnset (add_each clock timers q)
  unfolding add_each
  add_each-IsUnset [] q u = u
  add_each-IsUnset (timer ∷ timers) q u =
      add_each-IsUnset timers (add_timer_in_loop clock q timer) (add-IsUnset q timer)

  run_each-IsUnset :
      (adds : ℕ → List Timer) (expired : List Timer) (q : TimerQueue)
      → IsUnset q
      → IsUnset (run_each clock adds expired q)
  unfolding run_each
  run_each-IsUnset adds [] q u = u
  run_each-IsUnset adds (timer ∷ expired) q u =
      run_each-IsUnset adds expired (add_each clock (adds timer.address) q)
        (add_each-IsUnset (adds timer.address) q u)

  restart_or_delete-IsUnset :
      (q : TimerQueue) (timer : Timer) → IsUnset q → IsUnset (restart_or_delete clock q timer)
  unfolding restart_or_delete
  restart_or_delete-IsUnset q timer u =
      if_lem IsUnset timer.repeat
        (λ _. unset_insert (restart timer (clock q.readings)) q.timers q.armed) (λ _. u)

  reset_to_first_armed :
      (q : TimerQueue) → IsUnset q → is_armed (reset_to_first clock q q.timers) ≡ true
  unfolding is_armed reset_timerfd
  reset_to_first_armed q u = go q.timers q.armed refl u
    where
      go :
          (timers : List Timer) (armed : Option Setting)
          → q.timers ≡ timers
          → unset_if_empty timers armed ≡ true
          → armed_for
              (reset_to_first clock (record q { armed = armed }) timers).timers
              (reset_to_first clock (record q { armed = armed }) timers).armed
            ≡ true
      go [] none e u = rw e refl
      go [] (some s) e u = absurd (ground (arith, u))
      go (head ∷ timers) armed e u = rw e (set_for_fires head.expiration (clock q.readings))

  reset_armed :
      (expired : List Timer) (q : TimerQueue)
      → is_armed q ≡ true
      → is_armed (reset clock q expired) ≡ true
  unfolding reset is_armed
  reset_armed [] q a = a
  reset_armed (timer ∷ expired) q a =
      let restarted = restart_or_delete clock q timer in
      reset_armed expired (reset_to_first clock restarted restarted.timers) (
        reset_to_first_armed restarted
          (restart_or_delete-IsUnset q timer (unset_of_armed q.timers q.armed a)))

  -- A round of `reset` sets the descriptor.
  reset_sets :
      (timer : Timer) (expired : List Timer) (q : TimerQueue)
      → IsUnset q
      → is_armed (reset clock q (timer ∷ expired)) ≡ true
  unfolding reset
  reset_sets timer expired q u =
      let restarted = restart_or_delete clock q timer in
      reset_armed expired (reset_to_first clock restarted restarted.timers)
        (reset_to_first_armed restarted (restart_or_delete-IsUnset q timer u))

  unset_armed : (timers : List Timer) → armed_for timers none ≡ is_empty timers
  unset_armed [] = refl
  unset_armed (head ∷ timers) = refl

  fired : (timers : List Timer) → unset_if_empty timers none ≡ true
  fired [] = refl
  fired (head ∷ timers) = refl

  round_armed :
      (adds : ℕ → List Timer) (expired : List Timer) (left : TimerQueue)
      → left.armed ≡ none
      → is_armed (reset clock (run_each clock adds expired left) expired)
        ≡ (not (is_empty expired) || is_empty left.timers)
  unfolding run_each reset is_armed
  round_armed adds [] left e = ap (armed_for left.timers) e ∙ unset_armed left.timers
  round_armed adds (timer ∷ expired) left e =
      reset_sets timer expired (run_each clock adds (timer ∷ expired) left) (
        run_each-IsUnset adds (timer ∷ expired) left
          (ap (unset_if_empty left.timers) e ∙ fired left.timers))

  -- After `handleRead`, whatever timers the callbacks add and whatever the clock shows, the descriptor
  -- is set right exactly if some timer had expired or none was left. Set right means that it fires, by
  -- the seconds and nanoseconds that it was given, at the time of the earliest timer, but not before
  -- 100 microseconds after it was set; and that it is not set where there is no timer.
  pub handle_read_armed :
      (adds : ℕ → List Timer) (q : TimerQueue)
      → is_armed (handle_read clock adds q) ≡ (
          not (is_empty (expired_at (clock q.readings) q.timers))
          || is_empty (left_at (clock q.readings) q.timers))
  unfolding handle_read get_expired read_timerfd
  handle_read_armed adds q =
      let read = read_timerfd (record q { readings = q.readings + 1 }) in
      let (expired, left) = get_expired (clock q.readings) read in
      round_armed adds expired left refl
