-- ===== src/Connection/Writing.antt =====
-- `sendInLoop` and `sendFileInLoop` keep the order of the bytes, and write events are on as long as
-- bytes wait.
use cpp_ai_service.Base.{
  ℕ, ◌+◌, ◌-◌, ◌<◌, ◌≡◌, ◌∙◌, refl, sym, ap, subst, Bool, true, false, not, ◌&&◌, [], ◌∷◌, Bytes,
  ◌++◌, append_assoc, append-nil, is_empty, length, ltb, leb, ◌==◌, take, arith, Bool-cases, inl,
  inr,
}
use cpp_ai_service.Buffer.Storage.{readable_bytes, append}
use cpp_ai_service.Buffer.Queue.{Holds, readable}
use cpp_ai_service.Buffer.Reads.{append-Holds}
use cpp_ai_service.Reactor.Channel.{is_writing}
use cpp_ai_service.Reactor.Bits.{changed_writing}
use cpp_ai_service.Reactor.Objects.{writing_on}
use cpp_ai_service.Connection.State.{
  Task, write_complete_task, high_water_mark_task, Connection, State, k_disconnected, k_connecting,
  k_connected, k_disconnecting, change_channel, queue_task,
}
use cpp_ai_service.Connection.Sending.{
  Outcome, wrote, would_block, broken, failed, taken, writes_directly, complete_if, write_now,
  mark_high_water, start_writing, put_in_buffer, keep_rest,
}

abbrev pub is_disconnected : State → Bool
is_disconnected k_disconnected = true
is_disconnected k_connecting = false
is_disconnected k_connected = false
is_disconnected k_disconnecting = false

-- `pending` waits in the output buffer; `total` is all that was accepted.
pub record IsFlow (c : Connection) (pending total : Bytes) : Type 0 where
  pub held : Holds c.output_buffer pending
  pub bits : c.channel.events < 8
  pub order : c.written ++ pending ≡ total
  pub writing :
      is_disconnected c.state ≡ false → is_writing c.channel.events ≡ not (is_empty pending)

-- There is a pending part with which it holds.
abbrev pub HasFlow : Connection → Bytes → Type 0
HasFlow c total = (pending : Bytes) × IsFlow c pending total

pub queued-IsFlow :
    (c : Connection) (task : Task) {pending total : Bytes}
    → IsFlow c pending total
    → IsFlow (queue_task c task) pending total
unfolding queue_task
queued-IsFlow c task f = record {
  held = f.held;
  bits = f.bits;
  order = f.order;
  writing = f.writing;
}

pub completed-IsFlow :
    (done : Bool) (c : Connection) {pending total : Bytes}
    → IsFlow c pending total
    → IsFlow (complete_if done c) pending total
unfolding complete_if
completed-IsFlow done c f = elim (Bool-cases (done && c.has_write_complete)) [
  | inl e ↦ rw (e, complete_if) (queued-IsFlow c write_complete_task f)
  | inr e ↦ rw (e, complete_if) f
]

marked-IsFlow :
    (c : Connection) (remaining : ℕ) {pending total : Bytes}
    → IsFlow c pending total
    → IsFlow (mark_high_water c remaining) pending total
unfolding mark_high_water
marked-IsFlow c remaining f =
    let old_len = readable_bytes c.output_buffer in
    elim (Bool-cases (
      leb c.high_water_mark (old_len + remaining)
      && ltb old_len c.high_water_mark
      && c.has_high_water_mark)) [
        | inl e ↦
            rw (e, mark_high_water) (queued-IsFlow c (high_water_mark_task (old_len + remaining)) f)
        | inr e ↦ rw (e, mark_high_water) f
      ]

not_empty-append : (xs ys : Bytes) → is_empty ys ≡ false → not (is_empty (xs ++ ys)) ≡ true
not_empty-append [] ys e = ground (arith, e)
not_empty-append (x ∷ xs) ys e = refl

turned_on-IsFlow :
    (c : Connection) {pending total : Bytes}
    → Holds c.output_buffer pending
    → c.channel.events < 8
    → c.written ++ pending ≡ total
    → not (is_empty pending) ≡ true
    → IsFlow (change_channel c writing_on) pending total
unfolding change_channel
turned_on-IsFlow c held bits order more =
    let (writing, small) = changed_writing writing_on c.channel.events bits in
    record { held = held; bits = small; order = order; writing = λ _. writing ∙ sym more }

started-IsFlow :
    (c : Connection) {pending total : Bytes}
    → Holds c.output_buffer pending
    → c.channel.events < 8
    → c.written ++ pending ≡ total
    → not (is_empty pending) ≡ true
    → IsFlow (start_writing c) pending total
unfolding start_writing
started-IsFlow c held bits order more = elim (Bool-cases (is_writing c.channel.events)) [
  | inl e ↦
      rw (e, start_writing)
        (record { held = held; bits = bits; order = order; writing = λ _. e ∙ sym more })
  | inr e ↦ rw (e, start_writing) (turned_on-IsFlow c held bits order more)
]

put_in_buffer-IsFlow :
    (c : Connection) (rest : Bytes) {pending total : Bytes}
    → is_empty rest ≡ false
    → IsFlow c pending total
    → IsFlow (put_in_buffer c rest) (pending ++ rest) (total ++ rest)
unfolding put_in_buffer
put_in_buffer-IsFlow c rest {pending} {total} more f =
    let marked = mark_high_water c (length rest) in
    let m : IsFlow marked pending total = marked-IsFlow c (length rest) f in
    started-IsFlow (record marked { output_buffer = append marked.output_buffer rest })
      (append-Holds marked.output_buffer pending m.held rest).0 m.bits
      (sym (append_assoc marked.written pending rest) ∙ ap (λ (l : Bytes). l ++ rest) m.order)
      (not_empty-append pending rest more)

some_left : (rest : Bytes) → ltb 0 (length rest) ≡ true → is_empty rest ≡ false
some_left [] e = ground (arith, e)
some_left (x ∷ rest) e = refl

none_left : (rest : Bytes) → ltb 0 (length rest) ≡ false → rest ≡ []
none_left [] e = refl
none_left (x ∷ rest) e = absurd (ground (arith, e))

pub keep_rest-IsFlow :
    (c : Connection) (rest : Bytes) {pending total : Bytes}
    → IsFlow c pending total
    → (after : Bytes) × IsFlow (keep_rest false c rest) after (total ++ rest)
unfolding keep_rest
keep_rest-IsFlow c rest {pending} {total} f = elim (Bool-cases (ltb 0 (length rest))) [
  | inl e ↦ (pending ++ rest, rw (e, keep_rest) (put_in_buffer-IsFlow c rest (some_left rest e) f))
  | inr e ↦
      let nothing : total ≡ total ++ rest =
        sym (append-nil total) ∙ ap (λ (l : Bytes). total ++ l) (sym (none_left rest e)) in
      (pending, rw (e, keep_rest) (subst (IsFlow c pending) nothing f))
]

-- With nothing before them, the bytes that `write` takes are the next.
pub write_now-IsFlow :
    (outcome : Outcome) (c : Connection) (bytes : Bytes) {total : Bytes}
    → IsFlow c [] total
    → IsFlow (write_now outcome c bytes) [] (total ++ take (taken outcome) bytes)
unfolding write_now
write_now-IsFlow (wrote n) c bytes {total} f =
    completed-IsFlow (length bytes - n == 0) (record c { written = c.written ++ take n bytes })
      (record {
        held = f.held;
        bits = f.bits;
        order =
            append-nil (c.written ++ take n bytes)
            ∙ ap (λ (l : Bytes). l ++ take n bytes) (sym (append-nil c.written) ∙ f.order);
        writing = f.writing;
      })
write_now-IsFlow would_block c bytes {total} f = subst (IsFlow c []) (sym (append-nil total)) f
write_now-IsFlow broken c bytes {total} f = subst (IsFlow c []) (sym (append-nil total)) f
write_now-IsFlow failed c bytes {total} f = subst (IsFlow c []) (sym (append-nil total)) f

-- Where `sendInLoop` writes at once, nothing is pending.
pub nothing_pending :
    (c : Connection) {pending total : Bytes}
    → IsFlow c pending total
    → writes_directly c ≡ true
    → pending ≡ []
unfolding writes_directly
nothing_pending c {pending} f e =
    no_length pending (ground (arith, readable c.output_buffer pending f.held, e))
  where
    no_length : (xs : Bytes) → length xs ≡ 0 → xs ≡ []
    no_length [] e = refl
    no_length (x ∷ xs) e = absurd (omega arith)
