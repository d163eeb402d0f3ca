-- ===== src/Reactor/Objects.antt =====
-- The channel objects of a loop, and the calls that their owners make of them.
use cpp_ai_service.Base.{ℕ, List, [], ◌∷◌, Option, none, some, ◌>>=◌}
use cpp_ai_service.Base.Dictionary.{nat_key, lookup, assign, erase}
use cpp_ai_service.Reactor.Channel.{
  Channel, Index, index_new, index_added, index_deleted, new_channel, enable_reading,
  disable_reading, enable_writing, disable_writing,
}
use cpp_ai_service.Reactor.Epoll.{Epoll}
use cpp_ai_service.Reactor.Poller.{Poller, update_channel, remove_channel}

-- The objects by their descriptors: a descriptor that is open has one channel.
pub record Objects (K : Type 0) : Type 0 where
  pub poller : Poller K
  pub objects : List (ℕ × Channel)

pub data Change : Type 0 where
  reading_on reading_off writing_on writing_off all_off : Change

unfoldable pub changed_events : Change → ℕ → ℕ
changed_events reading_on events = enable_reading events
changed_events reading_off events = disable_reading events
changed_events writing_on events = enable_writing events
changed_events writing_off events = disable_writing events
changed_events all_off events = 0

-- The constructor on an open descriptor, a change of the events, `Channel::remove`, and the
-- destructor after it.
pub data Call : Type 0 where
  construct : (id fd : ℕ) → Call
  change : (fd : ℕ) → Change → Call
  remove destroy : (fd : ℕ) → Call

abbrev pub fd_of : Call → ℕ
fd_of (construct id fd) = fd
fd_of (change fd how) = fd
fd_of (remove fd) = fd
fd_of (destroy fd) = fd

module _ {K : Type 0} (epoll : Epoll K) where
  unfoldable pub put_back : Objects K → Option (Poller K × Channel) → Option (Objects K)
  put_back o done = do
    (poller, channel) ← done
    some (record { poller = poller; objects = assign channel.fd channel o.objects })

  abbrev pub without_channel : Objects K → ℕ → Index → Objects K
  without_channel o fd index_new = record o { objects = erase fd o.objects }
  without_channel o fd index_added = o
  without_channel o fd index_deleted = o

  -- The call on the object; where there is none there is no call, nor a second object on a
  -- descriptor, nor the end of an object that the poller has.
  unfoldable pub call_on : Objects K → Call → Option Channel → Option (Objects K)
  call_on o (construct id fd) none =
      some (record o { objects = assign fd (new_channel id fd) o.objects })
  call_on o (construct id fd) (some channel) = some o
  call_on o (change fd how) none = some o
  call_on o (change fd how) (some channel) = put_back o (
      update_channel epoll o.poller (record channel { events = changed_events how channel.events }))
  call_on o (remove fd) none = some o
  call_on o (remove fd) (some channel) = put_back o (remove_channel epoll o.poller channel)
  call_on o (destroy fd) none = some o
  call_on o (destroy fd) (some channel) = some (without_channel o fd channel.index)

  unfoldable pub perform : Objects K → Call → Option (Objects K)
  perform o call = call_on o call (lookup (fd_of call) o.objects)

  unfoldable pub perform_all : Objects K → List Call → Option (Objects K)
  perform_all o [] = some o
  perform_all o (call ∷ calls) = do after ← perform o call; perform_all after calls
