-- ===== src/Reactor/Updates.antt =====
-- What the operations of the poller do to the interest list and to the map.
use cpp_ai_service.Base.{
  ℕ, ◌≡◌, refl, sym, ap, ◌∙◌, List, Option, none, some, ◌==◌, ==_iff, if◌then◌else◌, Bool-cases,
  inl, inr,
}
use cpp_ai_service.Base.Dictionary.{nat_key, lookup, assign, erase, lookup-assign, lookup-erase}
use cpp_ai_service.Reactor.Channel.{
  Channel, Index, index_new, index_added, index_deleted, is_none_event,
}
use cpp_ai_service.Reactor.Epoll.{Epoll}
use cpp_ai_service.Reactor.Poller.{
  Poller, update, add_channel, update_added, update_by_index, update_channel, remove_by_index,
  remove_channel,
}

-- What the interest list has for a channel, and what the map of the poller has.
abbrev pub interest_of : Index → ℕ → Option ℕ
interest_of index_new events = none
interest_of index_added events = some events
interest_of index_deleted events = none

abbrev pub entry_of : Index → ℕ → Option ℕ
entry_of index_new id = none
entry_of index_added id = some id
entry_of index_deleted id = some id

abbrev pub interest_for : Option Channel → Option ℕ
interest_for none = none
interest_for (some channel) = interest_of channel.index channel.events

abbrev pub entry_for : Option Channel → Option ℕ
entry_for none = none
entry_for (some channel) = entry_of channel.index channel.id

module _ {K : Type 0} (epoll : Epoll K) where
  -- What an operation on a channel does to the poller.
  pub record IsUpdate (p : Poller K) (channel : Channel) (p' : Poller K) (channel' : Channel)
      : Type 0 where
    pub interests :
        (j : ℕ)
        → epoll.interest p'.kernel j ≡ (
            if channel.fd == j
            then interest_of channel'.index channel'.events
            else epoll.interest p.kernel j)
    pub entries :
        (j : ℕ)
        → lookup j p'.channels
          ≡ (if channel.fd == j then entry_of channel'.index channel'.id else lookup j p.channels)
    pub same_fd : channel'.fd ≡ channel.fd

  same_interest :
      (f : ℕ → Option ℕ) (fd j : ℕ) (v : Option ℕ) → f fd ≡ v → f j ≡ (if fd == j then v else f j)
  same_interest f fd j v e = elim (Bool-cases (fd == j)) [
    | inl y ↦ rw y (ap f (sym ((==_iff fd j).0 y)) ∙ e)
    | inr n ↦ rw n refl
  ]

  same_entry :
      (m : List (ℕ × ℕ)) (fd j : ℕ) (v : Option ℕ)
      → lookup fd m ≡ v
      → lookup j m ≡ (if fd == j then v else lookup j m)
  same_entry m = same_interest (λ j. lookup j m)

  add_channel_total :
      (p : Poller K) (channel : Channel)
      → epoll.interest p.kernel channel.fd ≡ none
      → (p' : Poller K) × (add_channel epoll p channel
          ≡ some (p', record channel { index = index_added }))
        × (p'.channels ≡ p.channels)
        × ((j : ℕ)
            → epoll.interest p'.kernel j
              ≡ (if channel.fd == j then some channel.events else epoll.interest p.kernel j))
  unfolding add_channel update
  add_channel_total p channel e =
      let (after, done, law) = epoll.add_lem p.kernel channel.fd channel.events e in
      (record p { kernel = after }, rw done refl, refl, law)

  update_added_total :
      (p : Poller K) (channel : Channel)
      → channel.index ≡ index_added
      → (old : ℕ) → epoll.interest p.kernel channel.fd ≡ some old
      → lookup channel.fd p.channels ≡ some channel.id
      → (p' : Poller K) × (channel' : Channel) × (update_added epoll p channel
          ≡ some (p', channel'))
        × IsUpdate p channel p' channel'
  unfolding update_added update is_none_event
  update_added_total p channel at old known entry =
      elim (Bool-cases (is_none_event channel.events)) [
        | inl e ↦
            let (after, done, law) = epoll.del_lem p.kernel channel.fd channel.events old known in
            (
              record p { kernel = after },
              record channel { index = index_deleted },
              rw (e, done) refl,
              record {
                interests = law;
                entries = λ j. same_entry p.channels channel.fd j (some channel.id) entry;
                same_fd = refl;
              },
            )
        | inr e ↦
            let (after, done, law) = epoll.mod_lem p.kernel channel.fd channel.events old known in
            (
              record p { kernel = after },
              channel,
              rw (e, done) refl,
              record {
                interests = λ j. rw at (law j);
                entries = λ j. rw at (same_entry p.channels channel.fd j (some channel.id) entry);
                same_fd = refl;
              },
            )
      ]

  update_by_index_total :
      (index : Index) (p : Poller K) (channel : Channel)
      → channel.index ≡ index
      → (old : ℕ) → epoll.interest p.kernel channel.fd ≡ interest_of index old
      → lookup channel.fd p.channels ≡ entry_of index channel.id
      → (p' : Poller K) × (channel' : Channel) × (update_by_index epoll index p channel
          ≡ some (p', channel'))
        × IsUpdate p channel p' channel'
  unfolding update_by_index
  update_by_index_total index_new p channel at old known entry =
      let assigned = record p { channels = assign channel.fd channel.id p.channels } in
      let (p', done, same, law) = add_channel_total assigned channel known in
      (
        p',
        record channel { index = index_added },
        done,
        record {
          interests = law;
          entries = λ j.
              ap (λ (m : List (ℕ × ℕ)). lookup j m) same
              ∙ lookup-assign channel.fd j channel.id p.channels;
          same_fd = refl;
        },
      )
  update_by_index_total index_deleted p channel at old known entry =
      let (p', done, same, law) = add_channel_total p channel known in
      (
        p',
        record channel { index = index_added },
        done,
        record {
          interests = law;
          entries = λ j.
              ap (λ (m : List (ℕ × ℕ)). lookup j m) same
              ∙ same_entry p.channels channel.fd j (some channel.id) entry;
          same_fd = refl;
        },
      )
  update_by_index_total index_added p channel at old known entry =
      update_added_total p channel at old known entry

  pub update_channel_total :
      (p : Poller K) (channel : Channel) (old : ℕ)
      → epoll.interest p.kernel channel.fd ≡ interest_of channel.index old
      → lookup channel.fd p.channels ≡ entry_of channel.index channel.id
      → (p' : Poller K) × (channel' : Channel) × (update_channel epoll p channel
          ≡ some (p', channel'))
        × IsUpdate p channel p' channel'
  unfolding update_channel
  update_channel_total p channel = update_by_index_total channel.index p channel refl

  -- A removed channel is in neither.
  remove_by_index_total :
      (index : Index) (p : Poller K) (channel : Channel) (old : ℕ)
      → epoll.interest p.kernel channel.fd ≡ interest_of index old
      → (p' : Poller K) × (remove_by_index epoll index p channel ≡ some p')
        × (p'.channels ≡ p.channels)
        × ((j : ℕ)
            → epoll.interest p'.kernel j
              ≡ (if channel.fd == j then none else epoll.interest p.kernel j))
  unfolding remove_by_index update
  remove_by_index_total index_added p channel old known =
      let (after, done, law) = epoll.del_lem p.kernel channel.fd channel.events old known in
      (record p { kernel = after }, rw done refl, refl, law)
  remove_by_index_total index_new p channel old known =
      (p, refl, refl, λ j. same_interest (λ i. epoll.interest p.kernel i) channel.fd j none known)
  remove_by_index_total index_deleted p channel old known =
      (p, refl, refl, λ j. same_interest (λ i. epoll.interest p.kernel i) channel.fd j none known)

  pub remove_channel_total :
      (p : Poller K) (channel : Channel) (old : ℕ)
      → epoll.interest p.kernel channel.fd ≡ interest_of channel.index old
      → (p' : Poller K) × (remove_channel epoll p channel
          ≡ some (p', record channel { index = index_new }))
        × IsUpdate p channel p' (record channel { index = index_new })
  unfolding remove_channel
  remove_channel_total p channel old known =
      let erased = record p { channels = erase channel.fd p.channels } in
      let (p', done, same, law) = remove_by_index_total channel.index erased channel old known in
      (
        p',
        rw done refl,
        record {
          interests = law;
          entries = λ j.
              ap (λ (m : List (ℕ × ℕ)). lookup j m) same ∙ lookup-erase channel.fd j p.channels;
          same_fd = refl;
        },
      )
