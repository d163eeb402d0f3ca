-- ===== src/EventLoop/Rounds.antt =====
-- `EventLoop::loop` of src/EventLoop.cc, with the steps of other threads between its own.
use cpp_ai_service.Base.{ℕ, ◌+◌, ◌≡◌, Bool, true, false, List, [], ◌∷◌, ◌++◌}
use cpp_ai_service.EventLoop.Tasks.{
  Loop, new_loop, wakeup, handle_read, push_functor, queue_in_loop, set_quit, begin_calling,
  swap_pending, end_calling,
}

-- Where the thread of the loop stands: in `poll`, at the events of the channels, before the swap, at
-- the functors of the swapped vector, or behind the `while`.
pub data Phase : Type 0 where
  polling handling swapping calling stopped : Phase

-- `functors` is the vector of `doPendingFunctors`, less what has been called. `in_flight` counts the
-- other threads that have pushed a functor or set the flag, and have not called `wakeup` yet.
-- `queued` and `called` are all functors that were queued and called, in their order.
pub record System : Type 0 where
  pub loop : Loop
  pub phase : Phase
  pub functors : List ℕ
  pub in_flight : ℕ
  pub queued : List ℕ
  pub called : List ℕ

-- `loop()` has begun, on a loop with nothing queued.
abbrev pub start : System
start = record {
  loop = new_loop;
  phase = polling;
  functors = [];
  in_flight = 0;
  queued = [];
  called = [];
}

-- The phases in which code of the callbacks runs, in the thread of the loop.
abbrev pub runs_callbacks : Phase → Bool
runs_callbacks polling = false
runs_callbacks handling = true
runs_callbacks swapping = false
runs_callbacks calling = true
runs_callbacks stopped = false

-- What the test of the `while` makes of the end of a round.
abbrev pub next_phase : Bool → Phase
next_phase true = stopped
next_phase false = polling

pub data Step (s : System) : System → Type 0 where
  own_queue :
      (functor : ℕ)
      → runs_callbacks s.phase ≡ true
      → Step s
          (record s { loop = queue_in_loop true s.loop functor; queued = s.queued ++ functor ∷ [] })
  own_quit : runs_callbacks s.phase ≡ true → Step s (record s { loop = set_quit s.loop })
  other_push :
      (functor : ℕ)
      → Step s (record s {
        loop = push_functor s.loop functor;
        in_flight = s.in_flight + 1;
        queued = s.queued ++ functor ∷ [];
      })
  other_quit : Step s (record s { loop = set_quit s.loop; in_flight = s.in_flight + 1 })
  other_wakeup :
      {n : ℕ} → s.in_flight ≡ n + 1 → Step s (record s { loop = wakeup s.loop; in_flight = n })
  poll_return : s.phase ≡ polling → Step s (record s { phase = handling })
  read_wakeup : s.phase ≡ handling → Step s (record s { loop = handle_read s.loop })
  events_done :
      s.phase ≡ handling → Step s (record s { loop = begin_calling s.loop; phase = swapping })
  swap :
      s.phase ≡ swapping
      → Step s (record s {
        loop = swap_pending s.loop;
        phase = calling;
        functors = s.loop.pending_functors;
      })
  call :
      {functor : ℕ} {rest : List ℕ}
      → s.phase ≡ calling
      → s.functors ≡ functor ∷ rest
      → Step s (record s { functors = rest; called = s.called ++ functor ∷ [] })
  round_done :
      s.phase ≡ calling
      → s.functors ≡ []
      → Step s (record s { loop = end_calling s.loop; phase = next_phase s.loop.quitting })

pub data Reach : System → Type 0 where
  here : Reach start
  later : {s t : System} → Reach s → Step s t → Reach t
