-- ===== src/Reactor/Poller.antt =====
-- src/EPollPoller.cc and src/Poller.cc: `updateChannel`, `removeChannel`, `hasChannel` and `poll`.
use cpp_ai_service.Base.{
  ℕ, ◌*◌, Bool, false, List, Option, none, some, ◌==◌, ◌>>=◌, length, if◌then◌else◌,
}
use cpp_ai_service.Base.Dictionary.{nat_key, lookup, assign, erase}
use cpp_ai_service.Reactor.Channel.{
  Channel, Index, index_new, index_added, index_deleted, is_none_event,
}
use cpp_ai_service.Reactor.Epoll.{Operation, epoll_add, epoll_mod, epoll_del, Epoll}

-- `channels` is the map from descriptors to channel objects; `event_list_size` the size of `events_`.
pub record Poller (K : Type 0) : Type 0 where
  pub kernel : K
  pub channels : List (ℕ × ℕ)
  pub event_list_size : ℕ

abbrev pub same_channel : Option ℕ → ℕ → Bool
same_channel none id = false
same_channel (some other) id = other == id

module _ {K : Type 0} (epoll : Epoll K) where
  -- What becomes of the kernel; none is the abort of `LOG_FATAL`. A removal that fails is logged.
  abbrev pub settle : Operation → K → Option K → Option K
  settle operation k (some after) = some after
  settle epoll_del k none = some k
  settle epoll_add k none = none
  settle epoll_mod k none = none

  unfoldable pub update : Poller K → Operation → Channel → Option (Poller K)
  update p operation channel = do
    after ← settle operation p.kernel (epoll.epoll_ctl p.kernel operation channel.fd channel.events)
    some (record p { kernel = after })

  -- A channel that is new to the poller, or was taken out of it.
  unfoldable pub add_channel : Poller K → Channel → Option (Poller K × Channel)
  add_channel p channel = do
    let added = record channel { index = index_added }
    after ← update p epoll_add added
    some (after, added)

  unfoldable pub update_added : Poller K → Channel → Option (Poller K × Channel)
  update_added p channel =
      let removed : Option (Poller K × Channel) = do
        after ← update p epoll_del channel
        some (after, record channel { index = index_deleted })
      in let modified : Option (Poller K × Channel) = do
        after ← update p epoll_mod channel
        some (after, channel)
        in if is_none_event channel.events then removed else modified

  unfoldable pub update_by_index : Index → Poller K → Channel → Option (Poller K × Channel)
  update_by_index index_new p channel =
      add_channel (record p { channels = assign channel.fd channel.id p.channels }) channel
  update_by_index index_deleted p channel = add_channel p channel
  update_by_index index_added p channel = update_added p channel

  unfoldable pub update_channel : Poller K → Channel → Option (Poller K × Channel)
  update_channel p channel = update_by_index channel.index p channel

  unfoldable pub remove_by_index : Index → Poller K → Channel → Option (Poller K)
  remove_by_index index_added p channel = update p epoll_del channel
  remove_by_index index_new p channel = some p
  remove_by_index index_deleted p channel = some p

  unfoldable pub remove_channel : Poller K → Channel → Option (Poller K × Channel)
  remove_channel p channel = do
    after ←
        remove_by_index channel.index (record p { channels = erase channel.fd p.channels }) channel
    some (after, record channel { index = index_new })

  unfoldable pub has_channel : Poller K → Channel → Bool
  has_channel p channel = same_channel (lookup channel.fd p.channels) channel.id

  -- `poll`, on the descriptors that `epoll_wait` gives: a list that came full is doubled.
  unfoldable pub after_poll : Poller K → List (ℕ × ℕ) → Poller K
  after_poll p found =
      if length found == p.event_list_size
      then record p { event_list_size = p.event_list_size * 2 }
      else p
