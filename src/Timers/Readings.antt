-- ===== src/Timers/Readings.antt =====
-- How often the clock is read in `handleRead`: the number of readings never falls.
use cpp_ai_service.Base.{ℕ, ◌≤◌, ◌<◌, ◌≡◌, refl, true, List, [], ◌∷◌, arith, if_lem}
use cpp_ai_service.Timers.Queue.{
  Timer, TimerQueue, reset_timerfd, add_timer_in_loop, is_earliest, reset_to_first,
  restart_or_delete, reset, add_each, run_each,
}

module _ (clock : ℕ → ℕ) where
  add_readings :
      (q : TimerQueue) (timer : Timer) → q.readings ≤ (add_timer_in_loop clock q timer).readings
  unfolding add_timer_in_loop reset_timerfd
  add_readings q timer =
      if_lem (λ (r : TimerQueue). q.readings ≤ r.readings) (is_earliest timer q.timers)
        (λ _. omega arith) (λ _. omega arith)

  add_each_readings :
      (timers : List Timer) (q : TimerQueue) → q.readings ≤ (add_each clock timers q).readings
  unfolding add_each
  add_each_readings [] q = omega arith
  add_each_readings (timer ∷ timers) q =
      let first = add_readings q timer in
      let others = add_each_readings timers (add_timer_in_loop clock q timer) in
      omega (arith, first, others)

  pub run_each_readings :
      (adds : ℕ → List Timer) (expired : List Timer) (q : TimerQueue)
      → q.readings ≤ (run_each clock adds expired q).readings
  unfolding run_each
  run_each_readings adds [] q = omega arith
  run_each_readings adds (timer ∷ expired) q =
      let first = add_each_readings (adds timer.address) q in
      let others = run_each_readings adds expired (add_each clock (adds timer.address) q) in
      omega (arith, first, others)

  first_readings :
      (q : TimerQueue) (timers : List Timer) → q.readings ≤ (reset_to_first clock q timers).readings
  unfolding reset_timerfd
  first_readings q [] = omega arith
  first_readings q (head ∷ timers) = omega arith

  -- A round of `reset` reads the clock for a timer that repeats.
  pub round_reads :
      (q : TimerQueue) (timer : Timer) (restarted : TimerQueue)
      → restart_or_delete clock q timer ≡ restarted
      → timer.repeat ≡ true
      → q.readings < (reset_to_first clock restarted restarted.timers).readings
  unfolding restart_or_delete
  round_reads q timer restarted e again =
      let read : q.readings < restarted.readings = rw⁻¹ e (
        if_lem (λ (r : TimerQueue). q.readings < r.readings) timer.repeat (λ _. omega arith)
          (λ once. absurd (ground (arith, again, once)))) in
      let set = first_readings restarted restarted.timers in omega (arith, read, set)

  pub round_readings :
      (q : TimerQueue) (timer : Timer) (restarted : TimerQueue)
      → restart_or_delete clock q timer ≡ restarted
      → q.readings ≤ (reset_to_first clock restarted restarted.timers).readings
  unfolding restart_or_delete
  round_readings q timer restarted e =
      let kept : q.readings ≤ restarted.readings = rw⁻¹ e (
        if_lem (λ (r : TimerQueue). q.readings ≤ r.readings) timer.repeat (λ _. omega arith)
          (λ _. omega arith)) in
      let set = first_readings restarted restarted.timers in omega (arith, kept, set)

  pub reset_readings :
      (expired : List Timer) (q : TimerQueue) → q.readings ≤ (reset clock q expired).readings
  unfolding reset
  reset_readings [] q = omega arith
  reset_readings (timer ∷ expired) q =
      let restarted = restart_or_delete clock q timer in
      let first = round_readings q timer restarted refl in
      let others = reset_readings expired (reset_to_first clock restarted restarted.timers) in
      omega (arith, first, others)
