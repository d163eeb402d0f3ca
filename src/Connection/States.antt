-- ===== src/Connection/States.antt =====
-- Sending leaves the state of a connection as it was.
use cpp_ai_service.Base.{
  ℕ, ◌-◌, ◌≡◌, ◌∙◌, refl, Bool, false, not, ◌&&◌, Bytes, ◌++◌, ◌==◌, ltb, length, take, drop,
  if_lem,
}
use cpp_ai_service.Buffer.Storage.{append}
use cpp_ai_service.Reactor.Channel.{is_writing}
use cpp_ai_service.Connection.State.{Connection, change_channel, queue_task}
use cpp_ai_service.Connection.Sending.{
  Outcome, wrote, would_block, broken, failed, taken, is_fault, writes_directly, complete_if,
  write_now, mark_high_water, start_writing, put_in_buffer, keep_rest, send_in_loop,
}

abbrev IsSame : Connection → Connection → Type 0
IsSame c d = d.state ≡ c.state

start_writing-state : (c : Connection) → (start_writing c).state ≡ c.state
unfolding start_writing change_channel
start_writing-state c = if_lem (IsSame c) (is_writing c.channel.events) (λ _. refl) (λ _. refl)

mark_high_water-state :
    (c : Connection) (remaining : ℕ) → (mark_high_water c remaining).state ≡ c.state
unfolding mark_high_water queue_task
mark_high_water-state c remaining = if_lem (IsSame c) _ (λ _. refl) (λ _. refl)

keep_rest-state :
    (fault_error : Bool) (c : Connection) (rest : Bytes)
    → (keep_rest fault_error c rest).state ≡ c.state
unfolding keep_rest put_in_buffer
keep_rest-state fault_error c rest =
    let marked = mark_high_water c (length rest) in
    if_lem (IsSame c) (not fault_error && ltb 0 (length rest))
      (λ _.
        start_writing-state (record marked { output_buffer = append marked.output_buffer rest })
        ∙ mark_high_water-state c (length rest))
      (λ _. refl)

complete_if-state : (done : Bool) (c : Connection) → (complete_if done c).state ≡ c.state
unfolding complete_if queue_task
complete_if-state done c = if_lem (IsSame c) (done && c.has_write_complete) (λ _. refl) (λ _. refl)

write_now-state :
    (outcome : Outcome) (c : Connection) (bytes : Bytes)
    → (write_now outcome c bytes).state ≡ c.state
unfolding write_now
write_now-state (wrote n) c bytes =
    complete_if-state (length bytes - n == 0) (record c { written = c.written ++ take n bytes })
write_now-state would_block c bytes = refl
write_now-state broken c bytes = refl
write_now-state failed c bytes = refl

pub send_in_loop-state :
    (outcome : Outcome) (c : Connection) (bytes : Bytes)
    → (send_in_loop outcome c bytes).state ≡ c.state
unfolding send_in_loop
send_in_loop-state outcome c bytes =
    if_lem (IsSame c) (writes_directly c)
      (λ _.
        keep_rest-state (is_fault outcome) (write_now outcome c bytes) (drop (taken outcome) bytes)
        ∙ write_now-state outcome c bytes)
      (λ _. keep_rest-state false c bytes)
