-- ===== src/Reactor/InStep.antt =====
-- The interest list of epoll follows the channels, and no call of `epoll_ctl` is refused.
use cpp_ai_service.Base.{ℕ, ◌≡◌, refl, ap, ◌∙◌, List, [], ◌∷◌, Option, none, some, ==_iff, arith}
use cpp_ai_service.Base.Dictionary.{nat_key, lookup, assign, lookup-assign, lookup-erase}
use cpp_ai_service.Reactor.Channel.{
  Channel, Index, index_new, index_added, index_deleted, new_channel,
}
use cpp_ai_service.Reactor.Epoll.{Epoll}
use cpp_ai_service.Reactor.Poller.{Poller}
use cpp_ai_service.Reactor.Objects.{
  Objects, Call, construct, change, remove, destroy, changed_events, put_back, without_channel,
  call_on, fd_of, perform, perform_all,
}
use cpp_ai_service.Reactor.Updates.{
  interest_of, entry_of, interest_for, entry_for, IsUpdate, update_channel_total,
  remove_channel_total,
}

module _ {K : Type 0} (epoll : Epoll K) where
  -- For every descriptor, the interest list and the map have what its channel says.
  pub record IsInStep (o : Objects K) : Type 0 where
    pub interests :
        (fd : ℕ) → epoll.interest o.poller.kernel fd ≡ interest_for (lookup fd o.objects)
    pub entries : (fd : ℕ) → lookup fd o.poller.channels ≡ entry_for (lookup fd o.objects)
    pub named : (fd : ℕ) (channel : Channel) → lookup fd o.objects ≡ some channel → channel.fd ≡ fd

  -- The object is put back beside the poller that its operation left.
  put_back-IsInStep :
      (o : Objects K) (channel : Channel) (p' : Poller K) (channel' : Channel)
      → IsUpdate epoll o.poller channel p' channel'
      → IsInStep o
      → IsInStep (record { poller = p'; objects = assign channel'.fd channel' o.objects })
  put_back-IsInStep o channel p' channel' u i = record {
    interests = λ j. ground (
      arith,
      u.interests j,
      u.same_fd,
      lookup-assign channel'.fd j channel' o.objects,
      i.interests j,
    );
    entries = λ j. ground (
      arith,
      u.entries j,
      u.same_fd,
      lookup-assign channel'.fd j channel' o.objects,
      i.entries j,
    );
    named = λ j other e. ground (
      arith,
      ==_iff channel'.fd j,
      lookup-assign channel'.fd j channel' o.objects,
      i.named j other,
    );
  }

  -- What the object that was found has in the list and in the map.
  found_interest :
      (o : Objects K) (fd : ℕ) (channel : Channel)
      → IsInStep o
      → lookup fd o.objects ≡ some channel
      → epoll.interest o.poller.kernel channel.fd ≡ interest_of channel.index channel.events
  found_interest o fd channel i e =
      ap (λ (j : ℕ). epoll.interest o.poller.kernel j) (i.named fd channel e)
      ∙ i.interests fd
      ∙ ap interest_for e

  found_entry :
      (o : Objects K) (fd : ℕ) (channel : Channel)
      → IsInStep o
      → lookup fd o.objects ≡ some channel
      → lookup channel.fd o.poller.channels ≡ entry_of channel.index channel.id
  found_entry o fd channel i e =
      ap (λ (j : ℕ). lookup j o.poller.channels) (i.named fd channel e)
      ∙ i.entries fd
      ∙ ap entry_for e

  constructed-IsInStep :
      (o : Objects K) (id fd : ℕ)
      → lookup fd o.objects ≡ none
      → IsInStep o
      → IsInStep (record o { objects = assign fd (new_channel id fd) o.objects })
  unfolding new_channel
  constructed-IsInStep o id fd e i = record {
    interests = λ j.
        ground
          (arith, ==_iff fd j, e, lookup-assign fd j (new_channel id fd) o.objects, i.interests j);
    entries = λ j.
        ground
          (arith, ==_iff fd j, e, lookup-assign fd j (new_channel id fd) o.objects, i.entries j);
    named = λ j other f.
        ground
          (arith, ==_iff fd j, lookup-assign fd j (new_channel id fd) o.objects, i.named j other);
  }

  without_channel-IsInStep :
      (o : Objects K) (fd : ℕ) (channel : Channel) (index : Index)
      → lookup fd o.objects ≡ some channel
      → channel.index ≡ index
      → IsInStep o
      → IsInStep (without_channel epoll o fd index)
  without_channel-IsInStep o fd channel index_new e at i = record {
    interests = λ j. ground (arith, ==_iff fd j, e, at, lookup-erase fd j o.objects, i.interests j);
    entries = λ j. ground (arith, ==_iff fd j, e, at, lookup-erase fd j o.objects, i.entries j);
    named = λ j other f. ground (arith, ==_iff fd j, lookup-erase fd j o.objects, i.named j other);
  }
  without_channel-IsInStep o fd channel index_added e at i = i
  without_channel-IsInStep o fd channel index_deleted e at i = i

  call_on_total :
      (o : Objects K) (call : Call) (found : Option Channel)
      → lookup (fd_of call) o.objects ≡ found
      → IsInStep o
      → (after : Objects K) × (call_on epoll o call found ≡ some after) × IsInStep after
  unfolding call_on put_back
  call_on_total o (construct id fd) none e i = (
    record o { objects = assign fd (new_channel id fd) o.objects },
    refl,
    constructed-IsInStep o id fd e i,
  )
  call_on_total o (construct id fd) (some channel) e i = (o, refl, i)
  call_on_total o (change fd how) none e i = (o, refl, i)
  call_on_total o (change fd how) (some channel) e i =
      let changed = record channel { events = changed_events how channel.events } in
      let (p', channel', done, u) =
        update_channel_total epoll o.poller changed channel.events (found_interest o fd channel i e)
          (found_entry o fd channel i e) in
      (
        record { poller = p'; objects = assign channel'.fd channel' o.objects },
        rw done refl,
        put_back-IsInStep o changed p' channel' u i,
      )
  call_on_total o (remove fd) none e i = (o, refl, i)
  call_on_total o (remove fd) (some channel) e i =
      let (p', done, u) =
        remove_channel_total epoll o.poller channel channel.events
          (found_interest o fd channel i e) in
      let channel' = record channel { index = index_new } in
      (
        record { poller = p'; objects = assign channel'.fd channel' o.objects },
        rw done refl,
        put_back-IsInStep o channel p' channel' u i,
      )
  call_on_total o (destroy fd) none e i = (o, refl, i)
  call_on_total o (destroy fd) (some channel) e i = (
    without_channel epoll o fd channel.index,
    refl,
    without_channel-IsInStep o fd channel channel.index e refl i,
  )

  -- Where the interest list and the map of the poller have, for every descriptor, what its channel
  -- says, any calls of the owners of the channels succeed, no `epoll_ctl` being refused, and end so
  -- again.
  pub perform_all_total :
      (o : Objects K) (calls : List Call)
      → IsInStep o
      → (after : Objects K) × (perform_all epoll o calls ≡ some after) × IsInStep after
  unfolding perform_all perform
  perform_all_total o [] i = (o, refl, i)
  perform_all_total o (call ∷ calls) i =
      let (middle, done, j) = call_on_total o call (lookup (fd_of call) o.objects) refl i in
      let (after, rest, k) = perform_all_total middle calls j in (after, rw done rest, k)
