-- ===== src/EventLoop/Tasks.antt =====
-- src/EventLoop.cc: `queueInLoop`, `runInLoop`, `wakeup`, `quit` and `doPendingFunctors`. A functor
-- is named by a number; what it does is the argument of the operations that run it.
use cpp_ai_service.Base.{ℕ, ◌+◌, Bool, true, false, not, ◌||◌, List, [], ◌∷◌, ◌++◌, if◌then◌else◌}

-- `wakeups` is the counter behind `wakeupFd_`.
pub record Loop : Type 0 where
  pub pending_functors : List ℕ
  pub calling_pending_functors : Bool
  pub quitting : Bool
  pub wakeups : ℕ

-- The queue and the flags as the constructor leaves them.
unfoldable pub new_loop : Loop
new_loop = record {
  pending_functors = [];
  calling_pending_functors = false;
  quitting = false;
  wakeups = 0;
}

unfoldable pub wakeup : Loop → Loop
wakeup l = record l { wakeups = l.wakeups + 1 }

-- Reading the event counter sets it back.
unfoldable pub handle_read : Loop → Loop
handle_read l = record l { wakeups = 0 }

-- The part of `queueInLoop` under the lock.
unfoldable pub push_functor : Loop → ℕ → Loop
push_functor l functor = record l { pending_functors = l.pending_functors ++ functor ∷ [] }

-- `own` says whether the caller is the thread of the loop.
unfoldable pub needs_wakeup : Bool → Loop → Bool
needs_wakeup own l = not own || l.calling_pending_functors

unfoldable pub queue_in_loop : Bool → Loop → ℕ → Loop
queue_in_loop own l functor =
    let pushed = push_functor l functor in if needs_wakeup own pushed then wakeup pushed else pushed

unfoldable pub run_in_loop : (ℕ → Loop → Loop) → Bool → Loop → ℕ → Loop
run_in_loop call own l functor = if own then call functor l else queue_in_loop own l functor

unfoldable pub set_quit : Loop → Loop
set_quit l = record l { quitting = true }

unfoldable pub quit : Bool → Loop → Loop
quit own l = if own then set_quit l else wakeup (set_quit l)

-- The three parts of `doPendingFunctors`: the flag, the swap under the lock, and the flag again.
unfoldable pub begin_calling : Loop → Loop
begin_calling l = record l { calling_pending_functors = true }

unfoldable pub swap_pending : Loop → Loop
swap_pending l = record l { pending_functors = [] }

unfoldable pub end_calling : Loop → Loop
end_calling l = record l { calling_pending_functors = false }

unfoldable pub call_functors : (ℕ → Loop → Loop) → List ℕ → Loop → Loop
call_functors call [] l = l
call_functors call (functor ∷ functors) l = call_functors call functors (call functor l)

-- The whole of it, where no other thread comes between.
unfoldable pub do_pending_functors : (ℕ → Loop → Loop) → Loop → Loop
do_pending_functors call l =
    let calling = begin_calling l in
    end_calling (call_functors call calling.pending_functors (swap_pending calling))
