-- ===== src/Tests/Loops.antt =====
-- Rounds of src/EventLoop.cc at concrete inputs.
use cpp_ai_service.Base.{◌+◌, ◌<◌, ◌≡◌, refl, true, [], ◌∷◌, ◌++◌, inl}
use cpp_ai_service.EventLoop.Tasks.{
  new_loop, wakeup, push_functor, queue_in_loop, begin_calling, swap_pending, needs_wakeup,
  do_pending_functors, end_calling, call_functors,
}
use cpp_ai_service.EventLoop.Rounds.{
  System, start, handling, swapping, calling, other_push, other_wakeup, poll_return, own_queue,
  events_done, swap, call, Reach, here, later,
}
use cpp_ai_service.EventLoop.Wakeups.{no_lost_wakeup, calls_in_order}

-- Another thread has pushed a functor, and does not wake the loop up yet.
abbrev pushed : System
pushed = record start { loop = push_functor new_loop 7; in_flight = 1; queued = 7 ∷ [] }

pushed_reached : Reach pushed
pushed_reached = later here (other_push 7)

no_lost_wakeup_example : 0 < pushed.loop.wakeups + pushed.in_flight
unfolding push_functor new_loop
no_lost_wakeup_example = no_lost_wakeup pushed_reached refl (inl refl)

-- Then it wakes the loop up, a handler queues another functor, and the first one is called.
abbrev woken : System
woken = record pushed { loop = wakeup pushed.loop; in_flight = 0 }

abbrev woken_handling : System
woken_handling = record woken { phase = handling }

abbrev queued : System
queued = record woken_handling { loop = queue_in_loop true woken.loop 8; queued = 7 ∷ 8 ∷ [] }

abbrev flagged : System
flagged = record queued { loop = begin_calling queued.loop; phase = swapping }

abbrev swapped : System
swapped = record flagged {
  loop = swap_pending flagged.loop;
  phase = calling;
  functors = flagged.loop.pending_functors;
}

abbrev called_one : System
called_one = record swapped { functors = 8 ∷ []; called = 7 ∷ [] }

called_one_reached : Reach called_one
unfolding push_functor new_loop wakeup queue_in_loop needs_wakeup begin_calling swap_pending
called_one_reached =
    let r1 : Reach woken = later pushed_reached (other_wakeup {n = 0} refl) in
    let r2 : Reach woken_handling = later r1 (poll_return refl) in
    let r3 : Reach queued = later r2 (own_queue 8 refl) in
    let r4 : Reach flagged = later r3 (events_done refl) in
    let r5 : Reach swapped = later r4 (swap refl) in
    later r5 (call {functor = 7} {rest = 8 ∷ []} refl refl)

calls_in_order_example :
    called_one.called ++ (called_one.functors ++ called_one.loop.pending_functors)
    ≡ called_one.queued
calls_in_order_example = calls_in_order called_one_reached

-- A functor that queues the one after it: one round calls the first only.
one_round :
    (do_pending_functors
      (λ functor l. queue_in_loop true l (functor + 1))
      (push_functor new_loop 7)).pending_functors
    ≡ 8 ∷ []
unfolding do_pending_functors begin_calling swap_pending end_calling call_functors queue_in_loop
    needs_wakeup push_functor wakeup new_loop
one_round = refl
