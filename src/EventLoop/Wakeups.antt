-- ===== src/EventLoop/Wakeups.antt =====
-- No task and no `quit` is slept through, and tasks are called in the order of their queueing.
use cpp_ai_service.Base.{
  ℕ, ◌+◌, ◌≤◌, ◌<◌, ◌≡◌, ◌≢◌, refl, Bool, true, false, List, [], ◌∷◌, ◌++◌, is_empty, ◌⊎◌, inl, inr,
  arith, append_assoc, append-nil, Bool-cases, ◌∙◌, sym, ap,
}
use cpp_ai_service.EventLoop.Tasks.{
  Loop, new_loop, wakeup, handle_read, push_functor, needs_wakeup, queue_in_loop, set_quit,
  begin_calling, swap_pending, end_calling,
}
use cpp_ai_service.EventLoop.Rounds.{
  Phase, polling, handling, swapping, calling, stopped, System, start, runs_callbacks, next_phase,
  Step, own_queue, own_quit, other_push, other_quit, other_wakeup, poll_return, read_wakeup,
  events_done, swap, call, round_done, Reach, here, later,
}

-- The phases behind `callingPendingFunctors_ = true`.
abbrev is_calling : Phase → Bool
is_calling polling = false
is_calling handling = false
is_calling swapping = true
is_calling calling = true
is_calling stopped = false

-- The phases in which a queued functor needs a wake-up: it is not called in this round.
abbrev waits : Phase → Bool
waits polling = true
waits handling = false
waits swapping = false
waits calling = true
waits stopped = false

-- What holds of every state that is reached.
pub record IsAwake (s : System) : Type 0 where
  pub flag : s.loop.calling_pending_functors ≡ is_calling s.phase
  pub woken :
      waits s.phase ≡ true
      → is_empty s.loop.pending_functors ≡ false
      → 0 < s.loop.wakeups + s.in_flight
  pub stopping : s.phase ≡ polling → s.loop.quitting ≡ true → 0 < s.loop.wakeups + s.in_flight
  pub order : s.called ++ (s.functors ++ s.loop.pending_functors) ≡ s.queued
  pub vector : s.phase ≢ calling → s.functors ≡ []

start-IsAwake : IsAwake start
unfolding new_loop
start-IsAwake = record {
  flag = refl;
  woken = λ w e. absurd (ground arith);
  stopping = λ w e. absurd (ground arith);
  order = refl;
  vector = λ _. refl;
}

pushed_order :
    (called functors pending queued : List ℕ) (functor : ℕ)
    → called ++ (functors ++ pending) ≡ queued
    → called ++ (functors ++ (pending ++ functor ∷ [])) ≡ queued ++ functor ∷ []
pushed_order called functors pending queued functor e =
    ap (λ (l : List ℕ). called ++ l) (sym (append_assoc functors pending (functor ∷ [])))
    ∙ sym (append_assoc called (functors ++ pending) (functor ∷ []))
    ∙ ap (λ (l : List ℕ). l ++ functor ∷ []) e

-- A functor queued in the thread of the loop: while functors are called, with a wake-up.
queue_in_loop_lem :
    (l : Loop) (functor : ℕ)
    → ((queue_in_loop true l functor).pending_functors ≡ l.pending_functors ++ functor ∷ [])
      × ((queue_in_loop true l functor).calling_pending_functors ≡ l.calling_pending_functors)
      × ((queue_in_loop true l functor).quitting ≡ l.quitting)
      × (l.wakeups ≤ (queue_in_loop true l functor).wakeups)
      × (l.calling_pending_functors ≡ true → 0 < (queue_in_loop true l functor).wakeups)
unfolding queue_in_loop needs_wakeup push_functor wakeup
queue_in_loop_lem l functor = elim (Bool-cases l.calling_pending_functors) [
  | inl e ↦ rw (e, queue_in_loop) ((refl, refl, refl, omega arith, λ _. omega arith))
  | inr e ↦ rw (e, queue_in_loop) ((refl, refl, refl, omega arith, λ c. absurd (ground arith)))
]

called_order :
    (called rest pending queued : List ℕ) (functor : ℕ)
    → called ++ ((functor ∷ rest) ++ pending) ≡ queued
    → (called ++ functor ∷ []) ++ (rest ++ pending) ≡ queued
called_order called rest pending queued functor e =
    append_assoc called (functor ∷ []) (rest ++ pending) ∙ e

own_queue-IsAwake :
    (s : System) (functor : ℕ)
    → runs_callbacks s.phase ≡ true
    → IsAwake s
    → IsAwake
        (record s { loop = queue_in_loop true s.loop functor; queued = s.queued ++ functor ∷ [] })
own_queue-IsAwake s functor runs a =
    let (pending, flag, quitting, more, woken) = queue_in_loop_lem s.loop functor in
    record {
      flag = flag ∙ a.flag;
      woken = λ w e.
          let c : s.loop.calling_pending_functors ≡ true = ground (arith, a.flag) in
          omega (arith, woken c);
      stopping = λ p q. absurd (ground arith);
      order =
          ap (λ (l : List ℕ). s.called ++ (s.functors ++ l)) pending
          ∙ pushed_order s.called s.functors s.loop.pending_functors s.queued functor a.order;
      vector = a.vector;
    }

Step-IsAwake : {s t : System} → Step s t → IsAwake s → IsAwake t
unfolding wakeup handle_read push_functor set_quit begin_calling swap_pending end_calling
Step-IsAwake {s} (own_queue functor runs) a = own_queue-IsAwake s functor runs a
Step-IsAwake (own_quit runs) a = record {
  flag = a.flag;
  woken = a.woken;
  stopping = λ p q. absurd (ground arith);
  order = a.order;
  vector = a.vector;
}
Step-IsAwake {s} (other_push functor) a = record {
  flag = a.flag;
  woken = λ w e. omega arith;
  stopping = λ p q. omega arith;
  order = pushed_order s.called s.functors s.loop.pending_functors s.queued functor a.order;
  vector = a.vector;
}
Step-IsAwake other_quit a = record {
  flag = a.flag;
  woken = λ w e. omega arith;
  stopping = λ p q. omega arith;
  order = a.order;
  vector = a.vector;
}
Step-IsAwake (other_wakeup e) a = record {
  flag = a.flag;
  woken = λ w e'. omega arith;
  stopping = λ p q. omega arith;
  order = a.order;
  vector = a.vector;
}
Step-IsAwake (poll_return at) a = record {
  flag = ground (arith, a.flag);
  woken = λ w e. absurd (ground arith);
  stopping = λ p q. absurd (ground arith);
  order = a.order;
  vector = λ _. a.vector (ground arith);
}
Step-IsAwake (read_wakeup at) a = record {
  flag = a.flag;
  woken = λ w e. absurd (ground arith);
  stopping = λ p q. absurd (ground arith);
  order = a.order;
  vector = a.vector;
}
Step-IsAwake (events_done at) a = record {
  flag = refl;
  woken = λ w e. absurd (ground arith);
  stopping = λ p q. absurd (ground arith);
  order = a.order;
  vector = λ _. a.vector (ground arith);
}
Step-IsAwake {s} (swap at) a = record {
  flag = ground (arith, a.flag);
  woken = λ w e. absurd (ground arith);
  stopping = λ p q. absurd (ground arith);
  order =
      ap (λ (l : List ℕ). s.called ++ l) (append-nil s.loop.pending_functors)
      ∙ ap (λ (l : List ℕ). s.called ++ (l ++ s.loop.pending_functors))
          (sym (a.vector (ground arith)))
      ∙ a.order;
  vector = λ e. absurd (e refl);
}
Step-IsAwake {s} (call {functor} {rest} at e) a = record {
  flag = a.flag;
  woken = a.woken;
  stopping = a.stopping;
  order =
      called_order s.called rest s.loop.pending_functors s.queued functor
        (ap (λ (l : List ℕ). s.called ++ (l ++ s.loop.pending_functors)) (sym e) ∙ a.order);
  vector = λ other. absurd (other at);
}
Step-IsAwake {s} (round_done at e) a = elim (Bool-cases s.loop.quitting) [
  | inl q ↦ record {
    flag = sym (ap (λ (b : Bool). is_calling (next_phase b)) q);
    woken = λ w f. absurd (ground arith);
    stopping = λ p f. absurd (ground arith);
    order = a.order;
    vector = λ _. e;
  }
  | inr q ↦ record {
    flag = sym (ap (λ (b : Bool). is_calling (next_phase b)) q);
    woken = λ w f. a.woken (ground arith) f;
    stopping = λ p f. absurd (ground arith);
    order = a.order;
    vector = λ _. e;
  }
]

Reach-IsAwake : {s : System} → Reach s → IsAwake s
Reach-IsAwake here = start-IsAwake
Reach-IsAwake (later r st) = Step-IsAwake st (Reach-IsAwake r)

-- In every reachable state in which the loop stands in `poll`, with a functor queued or the loop told
-- to quit, the event counter is not zero or another thread is about to write to it.
pub no_lost_wakeup :
    {s : System}
    → Reach s
    → s.phase ≡ polling
    → (is_empty s.loop.pending_functors ≡ false) ⊎ (s.loop.quitting ≡ true)
    → 0 < s.loop.wakeups + s.in_flight
no_lost_wakeup r at (inl queued) = (Reach-IsAwake r).woken (ground (arith, at)) queued
no_lost_wakeup r at (inr told) = (Reach-IsAwake r).stopping at told

-- In every reachable state what was called, what is left of the swapped vector and what is pending
-- make, one behind the other, all functors that were queued, in the order of their queueing.
pub calls_in_order :
    {s : System} → Reach s → s.called ++ (s.functors ++ s.loop.pending_functors) ≡ s.queued
calls_in_order r = (Reach-IsAwake r).order
