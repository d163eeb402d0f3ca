-- ===== src/Connection/Handling.antt =====
-- The handlers of the channel keep the order of what is accepted.
use cpp_ai_service.Base.{
  ℕ, ◌<◌, ◌≤◌, ◌≡◌, ◌∙◌, refl, sym, ap, subst, true, false, not, [], ◌∷◌, Bytes, ◌++◌, is_empty,
  length, leb, ◌==◌, take, drop, arith, if_lem, if◌then◌else◌,
}
use cpp_ai_service.Buffer.Storage.{
  Buffer, readable_bytes, retrieve_as_string, peek, read_fd, retrieve,
}
use cpp_ai_service.Buffer.Queue.{Holds, readable}
use cpp_ai_service.Buffer.Reads.{retrieve_as_string-Holds}
use cpp_ai_service.Reactor.Channel.{is_writing}
use cpp_ai_service.Reactor.Bits.{changed_writing}
use cpp_ai_service.Reactor.Objects.{writing_off, all_off}
use cpp_ai_service.Connection.State.{
  Connection, k_disconnected, is_connected, is_disconnecting, change_channel, set_state, notify,
  Notice, connection_notice, message_notice, close_notice,
}
use cpp_ai_service.Connection.Sending.{
  Outcome, wrote, would_block, broken, failed, taken, complete_if,
}
use cpp_ai_service.Connection.Handlers.{
  Reading, read_bytes, read_failed, connect_destroyed, remove_channel_of, handle_close, handle_read,
  finish_writing, after_write, write_buffer, handle_write,
}
use cpp_ai_service.Connection.Writing.{IsFlow, HasFlow, completed-IsFlow}
use cpp_ai_service.Connection.Accepting.{whole, shut-IsFlow}

closed-IsFlow :
    (c : Connection) {pending total : Bytes}
    → IsFlow c pending total
    → IsFlow (change_channel (set_state c k_disconnected) all_off) pending total
unfolding change_channel set_state
closed-IsFlow c f = record {
  held = f.held;
  bits = (changed_writing all_off c.channel.events f.bits).1;
  order = f.order;
  writing = λ e. absurd (ground (arith, e));
}

noticed-IsFlow :
    (c : Connection) (notice : Notice) {pending total : Bytes}
    → IsFlow c pending total
    → IsFlow (notify c notice) pending total
unfolding notify
noticed-IsFlow c notice f = record {
  held = f.held;
  bits = f.bits;
  order = f.order;
  writing = f.writing;
}

pub handle_close-IsFlow :
    (c : Connection) {pending total : Bytes}
    → IsFlow c pending total
    → IsFlow (handle_close c) pending total
unfolding handle_close
handle_close-IsFlow c f =
    let closed = change_channel (set_state c k_disconnected) all_off in
    noticed-IsFlow (notify closed (connection_notice false)) close_notice
      (noticed-IsFlow closed (connection_notice false) (closed-IsFlow c f))

pub destroyed-IsFlow :
    (c : Connection) {pending total : Bytes}
    → IsFlow c pending total
    → IsFlow (connect_destroyed c) pending total
unfolding connect_destroyed remove_channel_of
destroyed-IsFlow c {pending} {total} f =
    let closed = change_channel (set_state c k_disconnected) all_off in
    let g : IsFlow (if is_connected c.state then notify closed (connection_notice false) else c)
        pending total =
      if_lem (λ (d : Connection). IsFlow d pending total) (is_connected c.state)
        (λ _. noticed-IsFlow closed (connection_notice false) (closed-IsFlow c f)) (λ _. f) in
    record { held = g.held; bits = g.bits; order = g.order; writing = g.writing }

pub read-IsFlow :
    (reading : Reading) (c : Connection) {pending total : Bytes}
    → IsFlow c pending total
    → IsFlow (handle_read c reading) pending total
unfolding handle_read
read-IsFlow (read_bytes input) c {pending} {total} f =
    if_lem (λ (d : Connection). IsFlow d pending total) (length input == 0)
      (λ _. handle_close-IsFlow c f)
      (λ _.
        noticed-IsFlow (record c { input_buffer = read_fd c.input_buffer input }) message_notice
          (record { held = f.held; bits = f.bits; order = f.order; writing = f.writing }))
read-IsFlow read_failed c f = f

-- Write events are turned off where nothing is pending.
finished-IsFlow :
    (c : Connection) {total : Bytes}
    → Holds c.output_buffer []
    → c.channel.events < 8
    → c.written ++ [] ≡ total
    → IsFlow (finish_writing c) [] total
unfolding finish_writing change_channel
finished-IsFlow c {total} held bits order =
    let (off, small) = changed_writing writing_off c.channel.events bits in
    let g : IsFlow (change_channel c writing_off) [] total = record {
      held = held;
      bits = small;
      order = order;
      writing = λ _. off;
    } in
    let completed : IsFlow (complete_if true (change_channel c writing_off)) [] total =
      completed-IsFlow true (change_channel c writing_off) g in
    if_lem (λ (d : Connection). IsFlow d [] total) (is_disconnecting c.state)
      (λ _. shut-IsFlow (complete_if true (change_channel c writing_off)) completed)
      (λ _. completed)

no_bytes :
    (b : Buffer) (content : Bytes) → Holds b content → (readable_bytes b == 0) ≡ true → content ≡ []
no_bytes b [] h e = refl
no_bytes b (x ∷ content) h e = absurd (ground (arith, e, readable b (x ∷ content) h))

more_bytes :
    (b : Buffer) (content : Bytes)
    → Holds b content
    → (readable_bytes b == 0) ≡ false
    → not (is_empty content) ≡ true
more_bytes b [] h e = absurd (ground (arith, e, readable b [] h))
more_bytes b (x ∷ content) h e = refl

after_write-IsFlow :
    (c : Connection) (n : ℕ) {pending total : Bytes}
    → is_writing c.channel.events ≡ true
    → n ≤ length pending
    → IsFlow c pending total
    → HasFlow (after_write c n) total
unfolding after_write retrieve_as_string
after_write-IsFlow c n {pending} {total} on fits f =
    let rest = retrieve c.output_buffer n in
    let (text, held) = retrieve_as_string-Holds c.output_buffer pending f.held n fits in
    let order : (c.written ++ take n (peek c.output_buffer)) ++ drop n pending ≡ total =
      ap (λ (l : Bytes). (c.written ++ l) ++ drop n pending) text
      ∙ whole c.written pending n
      ∙ f.order in
    let left = record c {
      written = c.written ++ take n (peek c.output_buffer);
      output_buffer = rest;
    } in
    if_lem (λ (d : Connection). HasFlow d total) (readable_bytes rest == 0)
      (λ e.
        let none_left = no_bytes rest (drop n pending) held e in
        (
          [],
          finished-IsFlow left (subst (Holds rest) none_left held) f.bits (
              ap (λ (l : Bytes). (c.written ++ take n (peek c.output_buffer)) ++ l) (sym none_left)
              ∙ order),
        ))
      (λ e. (
        drop n pending,
        record {
          held = held;
          bits = f.bits;
          order = order;
          writing = λ _. on ∙ sym (more_bytes rest (drop n pending) held e);
        },
      ))

written-IsFlow :
    (c : Connection) (outcome : Outcome) {pending total : Bytes}
    → is_writing c.channel.events ≡ true
    → leb (taken outcome) (readable_bytes c.output_buffer) ≡ true
    → IsFlow c pending total
    → HasFlow (write_buffer c outcome) total
unfolding write_buffer
written-IsFlow c (wrote n) {pending} {total} on fits f =
    if_lem (λ (d : Connection). HasFlow d total) (n == 0) (λ _. (pending, f))
      (λ _.
        after_write-IsFlow c n on (ground (arith, fits, readable c.output_buffer pending f.held)) f)
written-IsFlow c would_block {pending} on fits f = (pending, f)
written-IsFlow c broken {pending} on fits f = (pending, f)
written-IsFlow c failed {pending} on fits f = (pending, f)

pub handle_write-IsFlow :
    (outcome : Outcome) (c : Connection) {pending total : Bytes}
    → leb (taken outcome) (readable_bytes c.output_buffer) ≡ true
    → IsFlow c pending total
    → HasFlow (handle_write outcome c) total
unfolding handle_write
handle_write-IsFlow outcome c {pending} {total} fits f =
    if_lem (λ (d : Connection). HasFlow d total) (is_writing c.channel.events)
      (λ on. written-IsFlow c outcome on fits f) (λ _. (pending, f))
