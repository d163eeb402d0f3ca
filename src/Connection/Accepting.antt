-- ===== src/Connection/Accepting.antt =====
-- The calls of the user and the tasks of the loop keep the order of what is accepted.
use cpp_ai_service.Base.{
  ℕ, ◌+◌, ◌-◌, ◌≡◌, ◌∙◌, refl, sym, ap, subst, Bool, true, false, not, ◌&&◌, [], Bytes, ◌++◌,
  append_assoc, cut_at, append-nil, length, ltb, ◌==◌, take, drop, arith, if_lem, Bool-cases, inl,
  inr, if◌then◌else◌,
}
use cpp_ai_service.Reactor.Channel.{is_writing}
use cpp_ai_service.Connection.State.{
  Task, send_task, send_file_task, shutdown_task, write_complete_task, high_water_mark_task,
  Connection, State, k_disconnected, k_connecting, k_connected, k_disconnecting, is_connected,
  is_disconnecting, set_state,
}
use cpp_ai_service.Connection.Sending.{
  Outcome, wrote, would_block, broken, failed, taken, is_fault, writes_directly, write_now,
  keep_rest, send_in_loop, send, send_file_now, requeue_file, send_file_in_loop, send_file,
  shutdown_in_loop, shutdown,
}
use cpp_ai_service.Connection.Events.{
  sending, sending_file, run_task, accepted_bytes, file_bytes, accepted_file, accepted_task,
  accepted,
}
use cpp_ai_service.Connection.Writing.{
  IsFlow, HasFlow, is_disconnected, queued-IsFlow, completed-IsFlow, keep_rest-IsFlow,
  write_now-IsFlow, nothing_pending,
}

-- Nothing was accepted.
pub idle :
    {c : Connection} {pending total : Bytes}
    → IsFlow c pending total
    → (after : Bytes) × IsFlow c after (total ++ [])
idle {c} {pending} {total} f = (pending, subst (IsFlow c pending) (sym (append-nil total)) f)

pub whole : (total bytes : Bytes) (n : ℕ) → (total ++ take n bytes) ++ drop n bytes ≡ total ++ bytes
whole total bytes n =
    append_assoc total (take n bytes) (drop n bytes)
    ∙ ap (λ (l : Bytes). total ++ l) (cut_at n bytes)

rest-IsFlow :
    (outcome : Outcome) (c : Connection) (bytes : Bytes) {total : Bytes}
    → is_fault outcome ≡ false
    → IsFlow c [] total
    → (after : Bytes) × IsFlow
        (keep_rest false (write_now outcome c bytes) (drop (taken outcome) bytes))
        after
        (total ++ bytes)
rest-IsFlow outcome c bytes {total} good f =
    let now = write_now outcome c bytes in
    let (after, g) =
      keep_rest-IsFlow now (drop (taken outcome) bytes) (write_now-IsFlow outcome c bytes f) in
    (
      after,
      subst (IsFlow (keep_rest false now (drop (taken outcome) bytes)) after)
          (whole total bytes (taken outcome)) g,
    )

direct-IsFlow :
    (outcome : Outcome) (c : Connection) (bytes : Bytes) {total : Bytes}
    → IsFlow c [] total
    → (after : Bytes) × IsFlow
        (keep_rest (is_fault outcome) (write_now outcome c bytes) (drop (taken outcome) bytes))
        after
        (total ++ (if is_fault outcome then [] else bytes))
unfolding keep_rest write_now
direct-IsFlow (wrote n) c bytes f = rest-IsFlow (wrote n) c bytes refl f
direct-IsFlow would_block c bytes f = rest-IsFlow would_block c bytes refl f
direct-IsFlow failed c bytes f = rest-IsFlow failed c bytes refl f
direct-IsFlow broken c bytes f = idle f

pub send_in_loop-IsFlow :
    (outcome : Outcome) (c : Connection) (bytes : Bytes) {pending total : Bytes}
    → IsFlow c pending total
    → (after : Bytes) × IsFlow
        (send_in_loop outcome c bytes)
        after
        (total ++ accepted_bytes c outcome bytes)
unfolding send_in_loop
send_in_loop-IsFlow outcome c bytes {pending} {total} f = elim (Bool-cases (writes_directly c)) [
  | inl e ↦
      rw (e, send_in_loop)
        (direct-IsFlow outcome c bytes
          (subst (λ (p : Bytes). IsFlow c p total) (nothing_pending c f e) f))
  | inr e ↦ rw (e, send_in_loop) (keep_rest-IsFlow c bytes f)
]

requeued-IsFlow :
    (fault_error : Bool) (c : Connection) (file offset remaining : ℕ) {pending total : Bytes}
    → IsFlow c pending total
    → IsFlow (requeue_file fault_error c file offset remaining) pending total
unfolding requeue_file
requeued-IsFlow fault_error c file offset remaining {pending} {total} f =
    if_lem (λ (d : Connection). IsFlow d pending total) (not fault_error && ltb 0 remaining)
      (λ _. queued-IsFlow c (send_file_task file offset remaining) f) (λ _. f)

pub shut-IsFlow :
    (c : Connection) {pending total : Bytes}
    → IsFlow c pending total
    → IsFlow (shutdown_in_loop c) pending total
unfolding shutdown_in_loop
shut-IsFlow c {pending} {total} f =
    if_lem (λ (d : Connection). IsFlow d pending total) (is_writing c.channel.events) (λ _. f)
      (λ _. record { held = f.held; bits = f.bits; order = f.order; writing = f.writing })

connected_lem : (state : State) → is_connected state ≡ true → is_disconnected state ≡ false
connected_lem k_connected e = refl
connected_lem k_connecting e = refl
connected_lem k_disconnecting e = refl
connected_lem k_disconnected e = absurd (ground arith)

pub disconnecting-IsFlow :
    (own : Bool) (c : Connection) {pending total : Bytes}
    → IsFlow c pending total
    → IsFlow (shutdown own c) pending total
unfolding shutdown set_state
disconnecting-IsFlow own c {pending} {total} f =
    if_lem (λ (d : Connection). IsFlow d pending total) (is_connected c.state)
      (λ e.
        let g : IsFlow (set_state c k_disconnecting) pending total = record {
          held = f.held;
          bits = f.bits;
          order = f.order;
          writing = λ _. f.writing (connected_lem c.state e);
        } in
        if_lem (λ (d : Connection). IsFlow d pending total) own
          (λ _. shut-IsFlow (set_state c k_disconnecting) g)
          (λ _. queued-IsFlow (set_state c k_disconnecting) shutdown_task g))
      (λ _. f)

-- With nothing pending, the bytes that were taken are the next.
taken_order :
    (written bytes : Bytes) {total : Bytes}
    → written ++ [] ≡ total
    → (written ++ bytes) ++ [] ≡ total ++ bytes
taken_order written bytes e =
    append-nil (written ++ bytes) ∙ ap (λ (l : Bytes). l ++ bytes) (sym (append-nil written) ∙ e)

file_now-IsFlow :
    (contents : ℕ → Bytes) (outcome : Outcome) (c : Connection) (file offset count : ℕ)
    {total : Bytes}
    → IsFlow c [] total
    → IsFlow
        (send_file_now contents outcome c file offset count)
        []
        (total ++ file_bytes contents outcome file offset)
unfolding send_file_now
file_now-IsFlow contents (wrote n) c file offset count f =
    completed-IsFlow (count - n == 0)
      (record c { written = c.written ++ take n (drop offset (contents file)) })
      (record {
        held = f.held;
        bits = f.bits;
        order = taken_order c.written (take n (drop offset (contents file))) f.order;
        writing = f.writing;
      })
file_now-IsFlow contents would_block c file offset count {total} f =
    subst (IsFlow c []) (sym (append-nil total)) f
file_now-IsFlow contents broken c file offset count {total} f =
    subst (IsFlow c []) (sym (append-nil total)) f
file_now-IsFlow contents failed c file offset count {total} f =
    subst (IsFlow c []) (sym (append-nil total)) f

-- Where both branches keep the flow, with what each of them accepts.
branch_lem :
    (b : Bool) (c d : Connection) (total xs ys : Bytes)
    → (b ≡ true → HasFlow c (total ++ xs))
    → (b ≡ false → HasFlow d (total ++ ys))
    → HasFlow (if b then c else d) (total ++ (if b then xs else ys))
branch_lem true c d total xs ys f g = f refl
branch_lem false c d total xs ys f g = g refl

module _ (contents : ℕ → Bytes) where
  file_in_loop-IsFlow :
      (outcome : Outcome) (c : Connection) (file offset count : ℕ) {pending total : Bytes}
      → IsFlow c pending total
      → HasFlow
          (send_file_in_loop contents outcome c file offset count)
          (total ++ accepted_file contents c outcome file offset)
  unfolding send_file_in_loop
  file_in_loop-IsFlow outcome c file offset count {pending} {total} f =
      branch_lem (is_disconnecting c.state) c _ total [] _ (λ _. idle f)
        (λ _.
          branch_lem (writes_directly c) _ _ total (file_bytes contents outcome file offset) []
            (λ e. (
              [],
              requeued-IsFlow (is_fault outcome)
                  (send_file_now contents outcome c file offset count) file (offset + taken outcome)
                  (count - taken outcome)
                  (file_now-IsFlow contents outcome c file offset count
                    (subst (λ (p : Bytes). IsFlow c p total) (nothing_pending c f e) f)),
            ))
            (λ _. idle (requeued-IsFlow false c file offset count f)))

  own_branch_lem :
      (b own : Bool) (c d e : Connection) (total xs : Bytes)
      → HasFlow c (total ++ xs)
      → HasFlow d (total ++ [])
      → HasFlow e (total ++ [])
      → HasFlow (if b then if own then c else d else e) (total ++ (if b && own then xs else []))
  own_branch_lem true true c d e total xs f g h = f
  own_branch_lem true false c d e total xs f g h = g
  own_branch_lem false own c d e total xs f g h = h

  pub sent-IsFlow :
      (own : Bool) (outcome : Outcome) (c : Connection) (bytes : Bytes) {pending total : Bytes}
      → IsFlow c pending total
      → HasFlow
          (send own outcome c bytes)
          (total ++ accepted contents c (sending own outcome bytes))
  unfolding send
  sent-IsFlow own outcome c bytes {pending} {total} f =
      own_branch_lem (is_connected c.state) own _ _ c total (accepted_bytes c outcome bytes)
        (send_in_loop-IsFlow outcome c bytes f)
        (idle (queued-IsFlow c (send_task (length bytes)) f)) (idle f)

  pub file_sent-IsFlow :
      (own : Bool) (outcome : Outcome) (c : Connection) (file offset count : ℕ)
      {pending total : Bytes}
      → IsFlow c pending total
      → HasFlow
          (send_file contents own outcome c file offset count)
          (total ++ accepted contents c (sending_file own outcome file offset count))
  unfolding send_file
  file_sent-IsFlow own outcome c file offset count {pending} {total} f =
      own_branch_lem (is_connected c.state) own _ _ c total
        (accepted_file contents c outcome file offset)
        (file_in_loop-IsFlow outcome c file offset count f)
        (idle (queued-IsFlow c (send_file_task file offset count) f)) (idle f)

  pub task_run-IsFlow :
      (task : Task) (outcome : Outcome) (found : Bytes) (c : Connection) {pending total : Bytes}
      → IsFlow c pending total
      → HasFlow
          (run_task contents task outcome found c)
          (total ++ accepted_task contents c task outcome found)
  unfolding run_task
  task_run-IsFlow (send_task len) outcome found c f =
      send_in_loop-IsFlow outcome c (take len found) f
  task_run-IsFlow (send_file_task file offset count) outcome found c f =
      file_in_loop-IsFlow outcome c file offset count f
  task_run-IsFlow shutdown_task outcome found c f = idle (shut-IsFlow c f)
  task_run-IsFlow write_complete_task outcome found c f = idle f
  task_run-IsFlow (high_water_mark_task size) outcome found c f = idle f
