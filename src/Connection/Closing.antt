-- ===== src/Connection/Closing.antt =====
-- `shutdown` ends the write side once all that was accepted is written.
use cpp_ai_service.Base.{
  ℕ, suc, ◌+◌, ◌<◌, ◌≤◌, ◌≡◌, ◌∙◌, refl, sym, ap, Bool, true, false, not, ◌&&◌, List, [], ◌∷◌,
  Bytes, ◌++◌, append-nil, is_empty, length, length-append, ◌==◌, take, min, arith, if_lem,
  Bool-cases, inl, inr,
}
use cpp_ai_service.Buffer.Storage.{readable_bytes, retrieve_as_string, peek, retrieve}
use cpp_ai_service.Buffer.Queue.{Holds, readable, take_size}
use cpp_ai_service.Buffer.Reads.{retrieve_as_string-Holds}
use cpp_ai_service.Reactor.Channel.{is_writing}
use cpp_ai_service.Reactor.Objects.{writing_off}
use cpp_ai_service.Connection.State.{
  Connection, State, k_disconnected, k_connecting, k_connected, k_disconnecting, is_connected,
  is_disconnecting, change_channel, queue_task, set_state,
}
use cpp_ai_service.Connection.Sending.{Outcome, wrote, complete_if, shutdown_in_loop, shutdown}
use cpp_ai_service.Connection.Handlers.{finish_writing, after_write, write_buffer, handle_write}
use cpp_ai_service.Connection.Events.{Event, run, established, accepted_by, answers_fit}
use cpp_ai_service.Connection.Writing.{IsFlow, is_disconnected}
use cpp_ai_service.Connection.Accepting.{disconnecting-IsFlow}
use cpp_ai_service.Connection.Handling.{handle_write-IsFlow}
use cpp_ai_service.Connection.Stream.{run-IsFlow, established-IsFlow}

-- After `shutdown`, the write side is shut unless write events are on.
pub record IsLeaving (c : Connection) : Type 0 where
  leaving : is_disconnecting c.state ≡ true
  shut : is_writing c.channel.events ≡ false → c.write_shut ≡ true

-- A socket that takes at least one byte, and no more than it is given, of each write.
unfoldable pub write_some : ℕ → Connection → Connection
write_some n c = handle_write (wrote (min (suc n) (readable_bytes c.output_buffer))) c

unfoldable pub write_on : List ℕ → Connection → Connection
write_on [] c = c
write_on (n ∷ ns) c = write_on ns (write_some n c)

leaving_lem : (state : State) → is_disconnecting state ≡ true → is_disconnected state ≡ false
leaving_lem k_disconnecting e = refl
leaving_lem k_connecting e = refl
leaving_lem k_connected e = refl
leaving_lem k_disconnected e = absurd (ground arith)

completed_lem :
    (done : Bool) (c : Connection)
    → ((complete_if done c).state ≡ c.state) × ((complete_if done c).written ≡ c.written)
unfolding complete_if queue_task
completed_lem done c =
    if_lem (λ (d : Connection). (d.state ≡ c.state) × (d.written ≡ c.written))
      (done && c.has_write_complete) (λ _. (refl, refl)) (λ _. (refl, refl))

pub shut-IsLeaving :
    (c : Connection) → is_disconnecting c.state ≡ true → IsLeaving (shutdown_in_loop c)
unfolding shutdown_in_loop
shut-IsLeaving c leaving =
    if_lem IsLeaving (is_writing c.channel.events)
      (λ on. record { leaving = leaving; shut = λ off. absurd (ground (arith, on, off)) })
      (λ _. record { leaving = leaving; shut = λ _. refl })

finished-IsLeaving :
    (c : Connection) → is_disconnecting c.state ≡ true → IsLeaving (finish_writing c)
unfolding finish_writing change_channel
finished-IsLeaving c leaving = rw leaving (
    shut-IsLeaving (complete_if true (change_channel c writing_off))
      (ap is_disconnecting (completed_lem true (change_channel c writing_off)).0 ∙ leaving))

after_write-IsLeaving : (c : Connection) (n : ℕ) → IsLeaving c → IsLeaving (after_write c n)
unfolding after_write
after_write-IsLeaving c n l =
    let left = record c {
      written = c.written ++ take n (peek c.output_buffer);
      output_buffer = retrieve c.output_buffer n;
    } in
    if_lem IsLeaving (readable_bytes left.output_buffer == 0)
      (λ _. finished-IsLeaving left l.leaving) (λ _. record { leaving = l.leaving; shut = l.shut })

some_written-IsLeaving : (n : ℕ) (c : Connection) → IsLeaving c → IsLeaving (write_some n c)
unfolding write_some handle_write write_buffer
some_written-IsLeaving n c l =
    let k = min (suc n) (readable_bytes c.output_buffer) in
    if_lem IsLeaving (is_writing c.channel.events)
      (λ _. if_lem IsLeaving (k == 0) (λ _. l) (λ _. after_write-IsLeaving c k l)) (λ _. l)

shut_lem : (c : Connection) → (shutdown_in_loop c).written ≡ c.written
unfolding shutdown_in_loop
shut_lem c =
    if_lem (λ (d : Connection). d.written ≡ c.written) (is_writing c.channel.events) (λ _. refl)
      (λ _. refl)

finished_lem : (c : Connection) → (finish_writing c).written ≡ c.written
unfolding finish_writing change_channel
finished_lem c =
    let completed = complete_if true (change_channel c writing_off) in
    let same = (completed_lem true (change_channel c writing_off)).1 in
    if_lem (λ (d : Connection). d.written ≡ c.written) (is_disconnecting c.state)
      (λ _. shut_lem completed ∙ same) (λ _. same)

after_write_lem :
    (c : Connection) (n : ℕ)
    → (after_write c n).written ≡ c.written ++ take n (peek c.output_buffer)
unfolding after_write
after_write_lem c n =
    let left = record c {
      written = c.written ++ take n (peek c.output_buffer);
      output_buffer = retrieve c.output_buffer n;
    } in
    if_lem (λ (d : Connection). d.written ≡ left.written) (readable_bytes left.output_buffer == 0)
      (λ _. finished_lem left) (λ _. refl)

-- While bytes wait, each write takes some.
write_some_lem :
    (n : ℕ) (c : Connection) (pending : Bytes)
    → Holds c.output_buffer pending
    → is_writing c.channel.events ≡ true
    → not (is_empty pending) ≡ true
    → length c.written < length (write_some n c).written
unfolding write_some handle_write write_buffer retrieve_as_string
write_some_lem n c [] h on more = absurd (ground arith)
write_some_lem n c (x ∷ pending) h on more =
    let k = min (suc n) (readable_bytes c.output_buffer) in
    let size = readable c.output_buffer (x ∷ pending) h in
    let fits : k ≤ length (x ∷ pending) = omega (arith, size) in
    let some_taken : (k == 0) ≡ false = ground (arith, size) in
    let (text, _) = retrieve_as_string-Holds c.output_buffer (x ∷ pending) h k fits in
    rw (on, some_taken, after_write_lem c k, text)
      (omega (
        arith,
        size,
        length-append c.written (take k (x ∷ pending)),
        take_size k (x ∷ pending) fits,
      ))

no_more : (xs : Bytes) → length xs ≤ 0 → is_empty xs ≡ true
no_more [] h = refl
no_more (x ∷ xs) h = absurd (omega arith)

off_lem :
    (c : Connection) {pending total : Bytes}
    → IsFlow c pending total
    → IsLeaving c
    → is_writing c.channel.events ≡ not (is_empty pending)
off_lem c f l = f.writing (leaving_lem c.state l.leaving)

-- Two divisions of the same bytes.
lengths_lem :
    (xs ys zs ws total : Bytes)
    → xs ++ ys ≡ total
    → zs ++ ws ≡ total
    → length xs + length ys ≡ length zs + length ws
lengths_lem xs ys zs ws total e f =
    sym (length-append xs ys) ∙ ap length (e ∙ sym f) ∙ length-append zs ws

idle_lem :
    (outcome : Outcome) (c : Connection)
    → is_writing c.channel.events ≡ false
    → handle_write outcome c ≡ c
unfolding handle_write
idle_lem outcome c off = rw off refl

nothing_length : (xs : Bytes) → not (is_empty xs) ≡ false → length xs ≡ 0
nothing_length [] e = refl
nothing_length (x ∷ xs) e = absurd (ground arith)

pub write_on_lem :
    (ns : List ℕ) (c : Connection) (pending : Bytes) {total : Bytes}
    → IsFlow c pending total
    → IsLeaving c
    → length pending ≤ length ns
    → ((write_on ns c).write_shut ≡ true) × ((write_on ns c).written ≡ total)
unfolding write_on write_some
write_on_lem [] c [] f l h = (l.shut (off_lem c f l), sym (append-nil c.written) ∙ f.order)
write_on_lem [] c (x ∷ pending) f l h = absurd (omega arith)
write_on_lem (n ∷ ns) c pending {total} f l h =
    let k = min (suc n) (readable_bytes c.output_buffer) in
    let (after, g) = handle_write-IsFlow (wrote k) c (ground arith) f in
    let lengths =
      lengths_lem c.written pending (handle_write (wrote k) c).written after total f.order
        g.order in
    let smaller : length after ≤ length ns = elim (Bool-cases (is_writing c.channel.events)) [
      | inl on ↦
          let more = write_some_lem n c pending f.held on (sym (off_lem c f l) ∙ on) in
          omega (arith, more, lengths, h)
      | inr off ↦
          let same = ap (λ (d : Connection). length d.written) (idle_lem (wrote k) c off) in
          omega (arith, same, lengths, nothing_length pending (sym (off_lem c f l) ∙ off))
    ] in
    write_on_lem ns (write_some n c) after g (some_written-IsLeaving n c l) smaller

-- On a connection that was established and is still connected, whatever was sent, after `shutdown` in
-- its own thread and as many write events as there are bytes in the output buffer, each of which
-- takes at least one byte if there is one, the write side is shut, and the socket has taken all that
-- was accepted.
pub shutdown-write_on :
    (contents : ℕ → Bytes) (id fd : ℕ) (complete high : Bool) (events : List Event) (ns : List ℕ)
    → answers_fit contents (established id fd complete high) events ≡ true
    → is_connected (run contents (established id fd complete high) events).state ≡ true
    → readable_bytes (run contents (established id fd complete high) events).output_buffer
      ≤ length ns
    → ((write_on ns
          (shutdown true (run contents (established id fd complete high) events))).write_shut
        ≡ true)
      × ((write_on ns
            (shutdown true (run contents (established id fd complete high) events))).written
          ≡ accepted_by contents (established id fd complete high) events)
unfolding shutdown set_state
shutdown-write_on contents id fd complete high events ns fits connected enough =
    let c = run contents (established id fd complete high) events in
    let (pending, f) =
      run-IsFlow contents (established id fd complete high) events fits
        (established-IsFlow contents id fd complete high) in
    let g = disconnecting-IsFlow true c f in
    let l : IsLeaving (shutdown true c) =
      rw connected (shut-IsLeaving (set_state c k_disconnecting) refl) in
    write_on_lem ns (shutdown true c) pending g l
      (omega (arith, enough, readable c.output_buffer pending f.held))
