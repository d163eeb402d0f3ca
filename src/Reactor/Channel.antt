-- ===== src/Reactor/Channel.antt =====
-- include/Channel.h and src/Channel.cc: the events of interest, and the callbacks of an event. The
-- bits are those of Linux.
use Prim.Native.Nat.{bit_and, bit_or}
use cpp_ai_service.Base.{
  ℕ, ◌-◌, ◌^◌, Bool, true, false, not, ◌&&◌, List, [], ◌∷◌, ◌++◌, ◌==◌, if◌then◌else◌,
}

-- The values of `index_`: `kNew`, `kAdded` and `kDeleted` of src/EPollPoller.cc.
pub data Index : Type 0 where
  index_new index_added index_deleted : Index

-- `id` tells one channel object from another.
pub record Channel : Type 0 where
  pub id : ℕ
  pub fd : ℕ
  pub events : ℕ
  pub revents : ℕ
  pub index : Index
  pub tied : Bool

unfoldable pub new_channel : ℕ → ℕ → Channel
new_channel id fd = record {
  id = id;
  fd = fd;
  events = 0;
  revents = 0;
  index = index_new;
  tied = false;
}

-- `EPOLLIN | EPOLLPRI`, `EPOLLOUT`, and the bits of an error and of a hang-up.
abbrev pub read_event : ℕ
read_event = 3

abbrev pub write_event : ℕ
write_event = 4

abbrev pub poll_err : ℕ
poll_err = 8

abbrev pub poll_hup : ℕ
poll_hup = 16

-- `~bits` of a 32-bit number.
abbrev pub complement : ℕ → ℕ
complement bits = 2 ^ 32 - 1 - bits

abbrev pub has_bits : ℕ → ℕ → Bool
has_bits events bits = not (bit_and events bits == 0)

-- The methods that change `events_`; each of them ends with a call of `update`.
unfoldable pub enable_reading : ℕ → ℕ
enable_reading events = bit_or events read_event

unfoldable pub disable_reading : ℕ → ℕ
disable_reading events = bit_and events (complement read_event)

unfoldable pub enable_writing : ℕ → ℕ
enable_writing events = bit_or events write_event

unfoldable pub disable_writing : ℕ → ℕ
disable_writing events = bit_and events (complement write_event)

unfoldable pub is_none_event : ℕ → Bool
is_none_event events = events == 0

unfoldable pub is_writing : ℕ → Bool
is_writing events = has_bits events write_event

unfoldable pub is_reading : ℕ → Bool
is_reading events = has_bits events read_event

pub data Callback : Type 0 where
  close_callback error_callback read_callback write_callback : Callback

abbrev pub call_if : Bool → Callback → List Callback
call_if true callback = callback ∷ []
call_if false callback = []

-- The callbacks that `handleEventWithGuard` calls, all four being set.
unfoldable pub handle_event_with_guard : ℕ → List Callback
handle_event_with_guard revents =
    call_if (has_bits revents poll_hup && not (has_bits revents read_event)) close_callback
    ++ (call_if (has_bits revents poll_err) error_callback
        ++ (call_if (has_bits revents read_event) read_callback
            ++ call_if (has_bits revents write_event) write_callback))

-- `alive` says whether the object behind `tie_` is still there.
unfoldable pub handle_event : Bool → Channel → List Callback
handle_event alive channel =
    if channel.tied
    then if alive then handle_event_with_guard channel.revents else []
    else handle_event_with_guard channel.revents
