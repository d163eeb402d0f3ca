-- ===== src/EventLoop/Batch.antt =====
-- `doPendingFunctors`: what the functors queue waits for the next round.
use cpp_ai_service.Base.{
  ℕ, ◌≡◌, refl, sym, ap, ◌∙◌, true, List, [], ◌∷◌, ◌++◌, append_assoc, append-nil, Bool-cases, inl,
  inr,
}
use cpp_ai_service.EventLoop.Tasks.{
  Loop, push_functor, queue_in_loop, needs_wakeup, wakeup, begin_calling, swap_pending, end_calling,
  call_functors, do_pending_functors,
}

-- A functor that queues others, in its thread.
unfoldable pub queue_each : List ℕ → Loop → Loop
queue_each [] l = l
queue_each (functor ∷ functors) l = queue_each functors (queue_in_loop true l functor)

-- All that the functors queue, in their order.
unfoldable pub queued_by : (ℕ → List ℕ) → List ℕ → List ℕ
queued_by emits [] = []
queued_by emits (functor ∷ functors) = emits functor ++ queued_by emits functors

queue_in_loop-pending :
    (l : Loop) (functor : ℕ)
    → (queue_in_loop true l functor).pending_functors ≡ l.pending_functors ++ functor ∷ []
unfolding queue_in_loop push_functor wakeup
queue_in_loop-pending l functor = elim (Bool-cases (needs_wakeup true (push_functor l functor))) [
  | inl e ↦ rw (e, queue_in_loop) refl
  | inr e ↦ rw (e, queue_in_loop) refl
]

queue_each-pending :
    (functors : List ℕ) (l : Loop)
    → (queue_each functors l).pending_functors ≡ l.pending_functors ++ functors
unfolding queue_each
queue_each-pending [] l = sym (append-nil l.pending_functors)
queue_each-pending (functor ∷ functors) l =
    queue_each-pending functors (queue_in_loop true l functor)
    ∙ ap (λ (p : List ℕ). p ++ functors) (queue_in_loop-pending l functor)
    ∙ append_assoc l.pending_functors (functor ∷ []) functors

call_functors-pending :
    (emits : ℕ → List ℕ) (functors : List ℕ) (l : Loop)
    → (call_functors (λ functor. queue_each (emits functor)) functors l).pending_functors
      ≡ l.pending_functors ++ queued_by emits functors
unfolding call_functors queued_by
call_functors-pending emits [] l = sym (append-nil l.pending_functors)
call_functors-pending emits (functor ∷ functors) l =
    call_functors-pending emits functors (queue_each (emits functor) l)
    ∙ ap (λ (p : List ℕ). p ++ queued_by emits functors) (queue_each-pending (emits functor) l)
    ∙ append_assoc l.pending_functors (emits functor) (queued_by emits functors)

-- Where functors queue others, one `doPendingFunctors` calls each pending functor once, in their
-- order, and leaves exactly what these have queued, in its order.
pub do_pending_functors-queue_each :
    (emits : ℕ → List ℕ) (l : Loop)
    → (do_pending_functors (λ functor. queue_each (emits functor)) l).pending_functors
      ≡ queued_by emits l.pending_functors
unfolding do_pending_functors begin_calling swap_pending end_calling
do_pending_functors-queue_each emits l =
    call_functors-pending emits l.pending_functors (swap_pending (begin_calling l))
