-- ===== src/Timers/Restarts.antt =====
-- No timer is lost in `handleRead`.
use Prim.{tt}
use cpp_ai_service.Base.{
  ℕ, ◌+◌, ◌≤◌, ◌<◌, ◌≡◌, ◌∙◌, refl, ap, Bool, true, false, ◌||◌, List, [], ◌∷◌, arith, if_lem, All,
  if◌then◌else◌,
}
use cpp_ai_service.Timers.Queue.{
  Timer, is_same, set_insert, expired_at, left_at, TimerQueue, restart, reset_timerfd,
  add_timer_in_loop, is_earliest, reset_to_first, restart_or_delete, reset, add_each, run_each,
  get_expired, read_timerfd, handle_read,
}
use cpp_ai_service.Timers.Order.{first_lem}
use cpp_ai_service.Timers.Readings.{run_each_readings, round_reads, round_readings, reset_readings}

-- Whether the set has an entry with this time and this address.
abbrev pub holds : List Timer → ℕ → ℕ → Bool
holds [] when address = false
holds (timer ∷ timers) when address = is_same when address timer || holds timers when address

abbrev pub repeating : List Timer → List Timer
repeating [] = []
repeating (timer ∷ timers) = if timer.repeat then timer ∷ repeating timers else repeating timers

-- The timer is in the set, with the time that it has.
abbrev pub IsHeld : TimerQueue → Timer → Type 0
IsHeld q timer = holds q.timers timer.expiration timer.address ≡ true

each-IsHeld :
    (timers : List Timer) (q : TimerQueue)
    → ((when address : ℕ) → holds timers when address ≡ true → holds q.timers when address ≡ true)
    → All (IsHeld q) timers
each-IsHeld [] q f = tt
each-IsHeld (timer ∷ timers) q f = (
  f timer.expiration timer.address (ground arith),
  each-IsHeld timers q (λ when address h. f when address (ground (arith, h))),
)

insert_holds :
    (t : Timer) (timers : List Timer) (when address : ℕ)
    → holds (set_insert t timers) when address
      ≡ (is_same when address t || holds timers when address)
unfolding set_insert
insert_holds t [] when address = refl
insert_holds t (head ∷ timers) when address =
    let deeper = insert_holds t timers when address in ground (arith, deeper)

insert_keeps :
    (t : Timer) (timers : List Timer) (when address : ℕ)
    → holds timers when address ≡ true
    → holds (set_insert t timers) when address ≡ true
insert_keeps t timers when address h = ground (arith, insert_holds t timers when address, h)

insert_has :
    (t : Timer) (timers : List Timer) → holds (set_insert t timers) t.expiration t.address ≡ true
insert_has t timers = ground (arith, insert_holds t timers t.expiration t.address)

module _ (clock : ℕ → ℕ) where
  add_keeps :
      (q : TimerQueue) (timer : Timer) (when address : ℕ)
      → holds q.timers when address ≡ true
      → holds (add_timer_in_loop clock q timer).timers when address ≡ true
  unfolding add_timer_in_loop reset_timerfd
  add_keeps q timer when address h =
      let kept = insert_keeps timer q.timers when address h in
      if_lem (λ (r : TimerQueue). holds r.timers when address ≡ true) (is_earliest timer q.timers)
        (λ _. kept) (λ _. kept)

  add_each_keeps :
      (timers : List Timer) (q : TimerQueue) (when address : ℕ)
      → holds q.timers when address ≡ true
      → holds (add_each clock timers q).timers when address ≡ true
  unfolding add_each
  add_each_keeps [] q when address h = h
  add_each_keeps (timer ∷ timers) q when address h =
      add_each_keeps timers (add_timer_in_loop clock q timer) when address
        (add_keeps q timer when address h)

  run_each_keeps :
      (adds : ℕ → List Timer) (expired : List Timer) (q : TimerQueue) (when address : ℕ)
      → holds q.timers when address ≡ true
      → holds (run_each clock adds expired q).timers when address ≡ true
  unfolding run_each
  run_each_keeps adds [] q when address h = h
  run_each_keeps adds (timer ∷ expired) q when address h =
      run_each_keeps adds expired (add_each clock (adds timer.address) q) when address
        (add_each_keeps (adds timer.address) q when address h)

  -- A round of `reset`: the timer is put back or not, and the descriptor is set.
  after_one : TimerQueue → Timer → TimerQueue
  after_one q timer =
      let restarted = restart_or_delete clock q timer in
      reset_to_first clock restarted restarted.timers

  one_keeps :
      (q : TimerQueue) (timer : Timer) (when address : ℕ)
      → holds q.timers when address ≡ true
      → holds (after_one q timer).timers when address ≡ true
  unfolding after_one restart_or_delete
  one_keeps q timer when address h =
      let restarted = restart_or_delete clock q timer in
      let kept : holds restarted.timers when address ≡ true =
        if_lem (λ (r : TimerQueue). holds r.timers when address ≡ true) timer.repeat
          (λ _. insert_keeps (restart timer (clock q.readings)) q.timers when address h) (λ _. h) in
      ap (λ (ts : List Timer). holds ts when address) (first_lem clock restarted restarted.timers)
      ∙ kept

  reset_keeps :
      (expired : List Timer) (q : TimerQueue) (when address : ℕ)
      → holds q.timers when address ≡ true
      → holds (reset clock q expired).timers when address ≡ true
  unfolding reset after_one
  reset_keeps [] q when address h = h
  reset_keeps (timer ∷ expired) q when address h =
      reset_keeps expired (after_one q timer) when address (one_keeps q timer when address h)

  one_restarts :
      (q : TimerQueue) (timer : Timer)
      → timer.repeat ≡ true
      → holds (after_one q timer).timers (clock q.readings + timer.delta) timer.address ≡ true
  unfolding after_one restart_or_delete restart
  one_restarts q timer again =
      let restarted = restart_or_delete clock q timer in
      let again_timer : Timer = record timer { expiration = clock q.readings + timer.delta } in
      let put : restarted.timers ≡ set_insert again_timer q.timers = rw again refl in
      ap (λ (ts : List Timer). holds ts again_timer.expiration timer.address)
        (first_lem clock restarted restarted.timers ∙ put)
      ∙ insert_has again_timer q.timers

  -- It is in the set with the time of a reading of the clock, made after the first `start` ones, and its
  -- interval.
  abbrev pub IsRestarted : ℕ → TimerQueue → Timer → Type 0
  IsRestarted start q timer =
      (reading : ℕ) × (start ≤ reading)
      × (reading < q.readings)
      × (holds q.timers (clock reading + timer.delta) timer.address ≡ true)

  reset_restarts :
      (expired : List Timer) (q : TimerQueue) (start : ℕ)
      → start ≤ q.readings
      → All (IsRestarted start (reset clock q expired)) (repeating expired)
  unfolding reset after_one
  reset_restarts [] q start started = tt
  reset_restarts (timer ∷ expired) q start started =
      let after = after_one q timer in
      let restarted = restart_or_delete clock q timer in
      let later = reset_readings clock expired after in
      let round = round_readings clock q timer restarted refl in
      let others = reset_restarts expired after start (omega (arith, started, round)) in
      if_lem (All (IsRestarted start (reset clock after expired))) timer.repeat
        (λ again.
          let read = round_reads clock q timer restarted refl again in
          (
            (
              q.readings,
              started,
              omega (arith, read, later),
              reset_keeps expired after (clock q.readings + timer.delta) timer.address
                  (one_restarts q timer again),
            ),
            others,
          ))
        (λ _. others)

  -- Whatever timers the callbacks add and whatever the clock shows, after `handleRead` every timer that
  -- had not expired is still in the set, and every expired timer that repeats is in it again, with the
  -- time of a reading of the clock and its interval. The reading is made in the call, after the one that
  -- the expired timers were found with.
  pub handle_read_keeps :
      (adds : ℕ → List Timer) (q : TimerQueue)
      → All (IsHeld (handle_read clock adds q)) (left_at (clock q.readings) q.timers)
        × All
            (IsRestarted (q.readings + 1) (handle_read clock adds q))
            (repeating (expired_at (clock q.readings) q.timers))
  unfolding handle_read get_expired read_timerfd
  handle_read_keeps adds q =
      let read = read_timerfd (record q { readings = q.readings + 1 }) in
      let (expired, left) = get_expired (clock q.readings) read in
      (
        each-IsHeld left.timers (handle_read clock adds q) (λ when address h.
            reset_keeps expired (run_each clock adds expired left) when address
              (run_each_keeps adds expired left when address h)),
        reset_restarts expired (run_each clock adds expired left) (q.readings + 1)
            (run_each_readings clock adds expired left),
      )
