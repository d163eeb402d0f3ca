-- ===== src/Timers/Queue.antt =====
-- include/Timer.h, src/Timer.cc and src/TimerQueue.cc: the set of timers and the descriptor that wakes
-- the loop. Times are microseconds since the epoch.
use cpp_ai_service.Base.{
  ℕ, ◌+◌, ◌-◌, ◌*◌, ◌/◌, ◌%◌, Bool, true, ◌&&◌, ◌||◌, List, [], ◌∷◌, Option, none, some, ltb, ◌==◌,
  max, if◌then◌else◌,
}

-- `address` is that of the object; `delta` is `interval_` in microseconds, which is a double in the
-- source, and `repeat` is `interval_ > 0.0`.
pub record Timer : Type 0 where
  pub address : ℕ
  pub expiration : ℕ
  pub delta : ℕ
  pub repeat : Bool

-- `Timer::restart`.
unfoldable pub restart : Timer → ℕ → Timer
restart timer now =
    if timer.repeat
    then record timer { expiration = now + timer.delta }
    else record timer { expiration = 0 }

-- The order of the pairs of a time and an address.
abbrev pub precedes : ℕ → ℕ → Timer → Bool
precedes when address timer =
    ltb when timer.expiration || when == timer.expiration && ltb address timer.address

abbrev pub is_same : ℕ → ℕ → Timer → Bool
is_same when address timer = when == timer.expiration && address == timer.address

-- What `timerfd_settime` was given: the seconds and nanoseconds of `it_value`, with the time at which
-- it was called, which is that of the reading that the delay is taken from.
pub record Setting : Type 0 where
  pub set_at : ℕ
  pub it_value : ℕ × ℕ

-- `timers` is the set in its order: the time of an entry is the expiration of its timer. `armed` is
-- the setting of `timerfd_` until it fires. `readings` counts the calls of `Timestamp::now`.
pub record TimerQueue : Type 0 where
  pub timers : List Timer
  pub armed : Option Setting
  pub readings : ℕ

-- `timers_.insert`.
unfoldable pub set_insert : Timer → List Timer → List Timer
set_insert timer [] = timer ∷ []
set_insert timer (head ∷ timers) =
    if is_same timer.expiration timer.address head
    then head ∷ timers
    else if precedes timer.expiration timer.address head
    then timer ∷ head ∷ timers
    else head ∷ set_insert timer timers

-- Whether the timer is the new earliest one.
abbrev pub is_earliest : Timer → List Timer → Bool
is_earliest timer [] = true
is_earliest timer (head ∷ timers) = ltb timer.expiration head.expiration

-- The microseconds until the time, at least 100.
unfoldable pub delay : ℕ → ℕ → ℕ
delay expiration now = max 100 (expiration - now)

-- `it_value`: seconds and nanoseconds.
unfoldable pub timespec : ℕ → ℕ × ℕ
timespec micro_second_dif = (micro_second_dif / 1000000, micro_second_dif % 1000000 * 1000)

-- `UINTPTR_MAX`.
abbrev pub uintptr_max : ℕ
uintptr_max = 18446744073709551615

-- The entries before `lower_bound` of the time with the greatest address, and those from it on.
unfoldable pub expired_at : ℕ → List Timer → List Timer
expired_at now [] = []
expired_at now (head ∷ timers) =
    let more = expired_at now timers in
    if ltb head.expiration now || head.expiration == now && ltb head.address uintptr_max
    then head ∷ more
    else []

unfoldable pub left_at : ℕ → List Timer → List Timer
left_at now [] = []
left_at now (head ∷ timers) =
    let less = left_at now timers in
    if ltb head.expiration now || head.expiration == now && ltb head.address uintptr_max
    then less
    else head ∷ timers

-- The descriptor has fired: it is not set any more.
unfoldable pub read_timerfd : TimerQueue → TimerQueue
read_timerfd q = record q { armed = none }

unfoldable pub get_expired : ℕ → TimerQueue → List Timer × TimerQueue
get_expired now q = (expired_at now q.timers, record q { timers = left_at now q.timers })

-- `clock` gives the results of `Timestamp::now`, by their number.
module _ (clock : ℕ → ℕ) where
  unfoldable pub reset_timerfd : TimerQueue → ℕ → TimerQueue
  reset_timerfd q expiration =
      let now = clock q.readings in
      let setting : Setting = record { set_at = now; it_value = timespec (delay expiration now) } in
      record q { armed = some setting; readings = q.readings + 1 }

  unfoldable pub add_timer_in_loop : TimerQueue → Timer → TimerQueue
  add_timer_in_loop q timer =
      let inserted = record q { timers = set_insert timer q.timers } in
      if is_earliest timer q.timers then reset_timerfd inserted timer.expiration else inserted

  abbrev pub reset_to_first : TimerQueue → List Timer → TimerQueue
  reset_to_first q [] = q
  reset_to_first q (head ∷ timers) = reset_timerfd q head.expiration

  unfoldable pub restart_or_delete : TimerQueue → Timer → TimerQueue
  restart_or_delete q timer =
      if timer.repeat
      then record q {
        timers = set_insert (restart timer (clock q.readings)) q.timers;
        readings = q.readings + 1;
      }
      else q

  unfoldable pub reset : TimerQueue → List Timer → TimerQueue
  reset q [] = q
  reset q (timer ∷ expired) =
      let restarted = restart_or_delete q timer in
      reset (reset_to_first restarted restarted.timers) expired

  -- The callback of a timer may add timers, in the thread of the loop.
  unfoldable pub add_each : List Timer → TimerQueue → TimerQueue
  add_each [] q = q
  add_each (timer ∷ timers) q = add_each timers (add_timer_in_loop q timer)

  unfoldable pub run_each : (ℕ → List Timer) → List Timer → TimerQueue → TimerQueue
  run_each adds [] q = q
  run_each adds (timer ∷ expired) q = run_each adds expired (add_each (adds timer.address) q)

  unfoldable pub handle_read : (ℕ → List Timer) → TimerQueue → TimerQueue
  handle_read adds q =
      let now = clock q.readings in
      let read = read_timerfd (record q { readings = q.readings + 1 }) in
      let (expired, left) = get_expired now read in reset (run_each adds expired left) expired
