-- ===== src/Tests/Reactors.antt =====
-- Channels and the poller at concrete inputs, on an interest list that is an association list.
use cpp_ai_service.Base.{ℕ, ◌≡◌, refl, List, [], ◌∷◌, Option, none, some, arith}
use cpp_ai_service.Base.Dictionary.{nat_key, lookup, assign, erase, lookup-assign, lookup-erase}
use cpp_ai_service.Reactor.Channel.{
  handle_event_with_guard, close_callback, read_callback, error_callback,
}
use cpp_ai_service.Reactor.Epoll.{Epoll, Operation, epoll_add, epoll_mod, epoll_del}
use cpp_ai_service.Reactor.Objects.{
  Objects, Call, construct, change, remove, destroy, reading_on, writing_on, all_off, perform_all,
}
use cpp_ai_service.Reactor.InStep.{IsInStep, perform_all_total}

-- An addition of what is there, and a change of what is not, are refused.
abbrev control_found : List (ℕ × ℕ) → Operation → ℕ → ℕ → Option ℕ → Option (List (ℕ × ℕ))
control_found list epoll_add fd events none = some (assign fd events list)
control_found list epoll_add fd events (some old) = none
control_found list epoll_mod fd events none = none
control_found list epoll_mod fd events (some old) = some (assign fd events list)
control_found list epoll_del fd events none = none
control_found list epoll_del fd events (some old) = some (erase fd list)

abbrev control : List (ℕ × ℕ) → Operation → ℕ → ℕ → Option (List (ℕ × ℕ))
control list operation fd events = control_found list operation fd events (lookup fd list)

abbrev list_epoll : Epoll (List (ℕ × ℕ))
list_epoll = record {
  interest = λ list fd. lookup fd list;
  epoll_ctl = control;
  add_lem =
      λ list fd events e. (assign fd events list, rw e refl, λ j. lookup-assign fd j events list);
  mod_lem = λ list fd events old e.
      (assign fd events list, rw e refl, λ j. lookup-assign fd j events list);
  del_lem = λ list fd events old e. (erase fd list, rw e refl, λ j. lookup-erase fd j list);
}

abbrev no_objects : Objects (List (ℕ × ℕ))
no_objects = record {
  poller = record { kernel = []; channels = []; event_list_size = 16 };
  objects = [];
}

no_objects-IsInStep : IsInStep list_epoll no_objects
unfolding lookup
no_objects-IsInStep = record {
  interests = λ fd. refl;
  entries = λ fd. refl;
  named = λ fd channel e. absurd (ground (arith, e));
}

-- A channel that reads, writes, is turned off, and comes back before it is removed.
abbrev some_calls : List Call
some_calls =
    construct 1 5
    ∷ change 5 reading_on
    ∷ change 5 writing_on
    ∷ change 5 all_off
    ∷ change 5 reading_on
    ∷ remove 5
    ∷ destroy 5
    ∷ []

perform_all_total_example :
    (after : Objects (List (ℕ × ℕ))) × (perform_all list_epoll no_objects some_calls ≡ some after)
    × IsInStep list_epoll after
perform_all_total_example = perform_all_total list_epoll no_objects some_calls no_objects-IsInStep

-- A hang-up with data left to read is a read event first.
hang_up : handle_event_with_guard 17 ≡ read_callback ∷ []
unfolding handle_event_with_guard
hang_up = refl

hang_up_empty : handle_event_with_guard 24 ≡ close_callback ∷ error_callback ∷ []
unfolding handle_event_with_guard
hang_up_empty = refl
