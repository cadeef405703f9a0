-- ===== src/EventLoop.antt =====
-- The file modern_cpp_core/coroutines/event_loop.cpp: timers whose coroutines `poll` resumes. Threads
-- register, unregister and poll; each call of epoll and each section under the mutex is a step. What
-- the kernel reports is a choice among the descriptors that are armed. Failed calls of epoll throw
-- before anything has changed.
pub mod Resumes
mod Tests
use emb_linux.Prelude.{
  ℕ, zero, suc, ◌+◌, List, [], ◌∷◌, Bool, true, false, ◌||◌, Option, none, some, ◌==◌, ltb,
  if◌then◌else◌, update,
}

-- Where a thread stands: between calls; in register_timer after epoll_ctl; in unregister_timer after
-- it; in poll with the events that are left, or with the coroutine of one of them.
pub data Phase : Type 0 where
  idle : Phase
  storing : (fd coro : ℕ) → Phase
  erasing : (fd : ℕ) → Phase
  handling : (fds : List ℕ) → Phase
  resuming : (fd coro : ℕ) (rest : List ℕ) → Phase

-- `watched` and `armed` are the interest list of epoll, with what EPOLLONESHOT has disarmed. `stored` and
-- `resumed` list the coroutines of the calls so far.
pub record System : Type 0 where
  pub watched : ℕ → Bool
  pub armed : ℕ → Bool
  pub timers : List (ℕ × ℕ)
  pub phases : ℕ → Phase
  pub stored : List ℕ
  pub resumed : List ℕ

abbrev pub new : System
new = record {
  watched = λ fd. false;
  armed = λ fd. false;
  timers = [];
  phases = λ t. idle;
  stored = [];
  resumed = [];
}

-- The call that a thread begins; for poll, what the kernel would report, at most 16 of the armed.
pub data Choice : Type 0 where
  registers : (fd coro : ℕ) → Choice
  unregisters : (fd : ℕ) → Choice
  polls : (fds : List ℕ) → Choice
  goes_on : Choice

abbrev pub find : ℕ → List (ℕ × ℕ) → Option ℕ
find fd [] = none
find fd ((k, c) ∷ rest) = let found = find fd rest in if fd == k then some c else found

abbrev pub erase : ℕ → List (ℕ × ℕ) → List (ℕ × ℕ)
erase fd [] = []
erase fd ((k, c) ∷ rest) = let kept = erase fd rest in if fd == k then kept else (k, c) ∷ kept

abbrev pub set_phase : ℕ → Phase → System → System
set_phase t p s = record s { phases = update s.phases t p }

-- `epoll_wait` reports descriptors that are armed, and disarms them.
abbrev pub reported : ℕ → (ℕ → Bool) → List ℕ → List ℕ × (ℕ → Bool)
reported zero armed fds = ([], armed)
reported (suc room) armed [] = ([], armed)
reported (suc room) armed (fd ∷ fds) =
    let (found, left) = reported room (update armed fd false) fds in
    let (others, same) = reported (suc room) armed fds in
    if armed fd then (fd ∷ found, left) else (others, same)

abbrev pub max_events : ℕ
max_events = 16

-- `register_timer` up to its `epoll_ctl`, which refuses a descriptor that is there.
pub begin_register : ℕ → ℕ → ℕ → System → System
begin_register t fd coro s = if s.watched fd then s else record s {
  watched = update s.watched fd true;
  armed = update s.armed fd true;
  phases = update s.phases t (storing fd coro);
}

-- `timers[timer_fd] = coro`
pub store : ℕ → ℕ → ℕ → System → System
store t fd coro s = record s {
  timers = (fd, coro) ∷ erase fd s.timers;
  phases = update s.phases t idle;
  stored = coro ∷ s.stored;
}

-- `epoll_ctl(..., EPOLL_CTL_DEL, ...)`, whose failure is ignored.
abbrev pub unwatch : ℕ → System → System
unwatch fd s = record s { watched = update s.watched fd false; armed = update s.armed fd false }

-- The event of a descriptor: its coroutine is taken from the map, if it is there.
pub take_coroutine : ℕ → ℕ → List ℕ → Option ℕ → System → System
take_coroutine t fd rest none s = set_phase t (handling rest) s
take_coroutine t fd rest (some coro) s = record s {
  timers = erase fd s.timers;
  phases = update s.phases t (resuming fd coro rest);
}

pub advance : ℕ → Phase → Choice → System → System
unfolding begin_register store take_coroutine
advance t idle (registers fd coro) s = begin_register t fd coro s
advance t idle (unregisters fd) s = set_phase t (erasing fd) (unwatch fd s)
advance t idle (polls fds) s =
    let (found, armed) = reported max_events s.armed fds in
    set_phase t (handling found) (record s { armed = armed })
advance t idle goes_on s = s
advance t (storing fd coro) choice s = store t fd coro s
advance t (erasing fd) choice s = record s {
  timers = erase fd s.timers;
  phases = update s.phases t idle;
}
advance t (handling []) choice s = set_phase t idle s
advance t (handling (fd ∷ rest)) choice s = take_coroutine t fd rest (find fd s.timers) s
advance t (resuming fd coro rest) choice s =
    set_phase t (handling rest) (record (unwatch fd s) { resumed = coro ∷ s.resumed })

-- Threads from `threads` on do not exist.
pub run : ℕ → List (ℕ × Choice) → System → System
unfolding advance
run threads [] s = s
run threads ((t, choice) ∷ rest) s =
    run threads rest (if ltb t threads then advance t (s.phases t) choice s else s)
