-- ===== src/Reactor/Epoll.antt =====
-- The calls of epoll that src/EPollPoller.cc makes, as an interface.
use cpp_ai_service.Base.{ℕ, ◌≡◌, Option, none, some, ◌==◌, if◌then◌else◌}

pub data Operation : Type 0 where
  epoll_add epoll_mod epoll_del : Operation

-- `interest` is the interest list: the events of each descriptor that is in it. `epoll_ctl` gives
-- none where it returns a negative number. The laws are those of its manual page, memory being
-- enough: an addition of a descriptor that is not in the list, and a change or a removal of one that
-- is, do not fail.
pub record Epoll (K : Type 0) : Type 0 where
  pub interest : K → ℕ → Option ℕ
  pub epoll_ctl : K → Operation → ℕ → ℕ → Option K
  pub add_lem :
      (k : K) (fd events : ℕ)
      → interest k fd ≡ none
      → (after : K) × (epoll_ctl k epoll_add fd events ≡ some after)
        × ((j : ℕ) → interest after j ≡ (if fd == j then some events else interest k j))
  pub mod_lem :
      (k : K) (fd events old : ℕ)
      → interest k fd ≡ some old
      → (after : K) × (epoll_ctl k epoll_mod fd events ≡ some after)
        × ((j : ℕ) → interest after j ≡ (if fd == j then some events else interest k j))
  pub del_lem :
      (k : K) (fd events old : ℕ)
      → interest k fd ≡ some old
      → (after : K) × (epoll_ctl k epoll_del fd events ≡ some after)
        × ((j : ℕ) → interest after j ≡ (if fd == j then none else interest k j))
