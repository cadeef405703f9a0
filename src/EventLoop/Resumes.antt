-- ===== src/EventLoop/Resumes.antt =====
-- The coroutines of the event loop: stored, waiting in the map, in hand, and resumed.
use emb_linux.Prelude.{
  ℕ, ◌+◌, ◌≤◌, ◌<◌, ◌≡◌, refl, sym, ap, ◌∙◌, List, [], ◌∷◌, Bool, true, false, Option, none, some,
  ltb, ltb→lt, ◌==◌, if◌then◌else◌, arith, sum, sum_change, sum_zero, update, update_self,
  update_ne, bit, count,
}
use emb_linux.EventLoop.{
  Phase, idle, storing, erasing, handling, resuming, System, new, Choice, registers, unregisters,
  polls, goes_on, find, erase, reported, max_events, begin_register, store, take_coroutine, advance,
  run,
}

abbrev in_hand : ℕ → Phase → ℕ
in_hand c (resuming fd coro rest) = bit (c == coro)
in_hand c _ = 0

abbrev waiting : ℕ → List (ℕ × ℕ) → ℕ
waiting c [] = 0
waiting c ((k, d) ∷ rest) = bit (c == d) + waiting c rest

abbrev found : ℕ → Option ℕ → ℕ
found c none = 0
found c (some d) = bit (c == d)

erase-waiting :
    (c fd : ℕ) (l : List (ℕ × ℕ)) → waiting c (erase fd l) + found c (find fd l) ≤ waiting c l
erase-waiting c fd [] = omega arith
erase-waiting c fd ((k, d) ∷ rest) = by_key (fd == k) (erase-waiting c fd rest)
  where
    by_key :
        (b : Bool)
        → waiting c (erase fd rest) + found c (find fd rest) ≤ waiting c rest
        → waiting c (if b then erase fd rest else (k, d) ∷ erase fd rest)
            + found c (if b then some d else find fd rest)
          ≤ bit (c == d) + waiting c rest
    by_key true h = omega (arith, h)
    by_key false h = omega (arith, h)

module _ (threads c : ℕ) where
  -- The coroutines that are resumed, about to be, or waiting were all registered.
  abbrev Bounded : System → Type 0
  Bounded s =
      count (λ d. c == d) s.resumed + sum (λ t. in_hand c (s.phases t)) threads + waiting c s.timers
      ≤ count (λ d. c == d) s.stored

  -- A step of thread `t` to phase `p`.
  moved :
      (t : ℕ) (p : Phase) (s s' : System)
      → t < threads
      → s'.phases ≡ update s.phases t p
      → count (λ d. c == d) s'.resumed
          + in_hand c p
          + waiting c s'.timers
          + count (λ d. c == d) s.stored
        ≤ count (λ d. c == d) s.resumed
          + in_hand c (s.phases t)
          + waiting c s.timers
          + count (λ d. c == d) s'.stored
      → Bounded s
      → Bounded s'
  moved t p s s' less phases balance v =
      let at : (u : ℕ) → s'.phases u ≡ update s.phases t p u = λ u. ap (λ f. f u) phases in
      omega (
        arith,
        v,
        balance,
        sum_change (λ u. in_hand c (s.phases u)) (λ u. in_hand c (s'.phases u)) t threads less
            (λ u e. ap (in_hand c) (sym (at u ∙ update_ne s.phases t u p (λ k. e (sym k))))),
        ap (in_hand c) (at t ∙ update_self s.phases t p),
      )

  if-Bounded :
      (b : Bool) (x y : System)
      → (b ≡ true → Bounded x)
      → (b ≡ false → Bounded y)
      → Bounded (if b then x else y)
  if-Bounded true x y f g = f refl
  if-Bounded false x y f g = g refl

  take_coroutine-Bounded :
      (t fd : ℕ) (rest : List ℕ) (o : Option ℕ) (s : System)
      → t < threads
      → s.phases t ≡ handling (fd ∷ rest)
      → waiting c (erase fd s.timers) + found c o ≤ waiting c s.timers
      → Bounded s
      → Bounded (take_coroutine t fd rest o s)
  unfolding take_coroutine
  take_coroutine-Bounded t fd rest none s less h e v =
      moved t (handling rest) s (take_coroutine t fd rest none s) less refl
        (omega (arith, ap (in_hand c) h)) v
  take_coroutine-Bounded t fd rest (some coro) s less h e v =
      moved t (resuming fd coro rest) s (take_coroutine t fd rest (some coro) s) less refl
        (omega (arith, ap (in_hand c) h, e)) v

  advance-Bounded :
      (t : ℕ) (q : Phase) (choice : Choice) (s : System)
      → s.phases t ≡ q
      → t < threads
      → Bounded s
      → Bounded (advance t q choice s)
  unfolding advance begin_register store
  advance-Bounded t idle (registers fd coro) s h less v =
      if-Bounded (s.watched fd) _ _ (λ e. v)
        (λ e.
          moved t (storing fd coro) s
            (record s {
              watched = update s.watched fd true;
              armed = update s.armed fd true;
              phases = update s.phases t (storing fd coro);
            })
            less refl (omega (arith, ap (in_hand c) h)) v)
  advance-Bounded t idle (unregisters fd) s h less v =
      moved t (erasing fd) s (advance t idle (unregisters fd) s) less refl
        (omega (arith, ap (in_hand c) h)) v
  advance-Bounded t idle (polls fds) s h less v =
      moved t (handling (reported max_events s.armed fds).0) s (advance t idle (polls fds) s) less
        refl (omega (arith, ap (in_hand c) h)) v
  advance-Bounded t idle goes_on s h less v = v
  advance-Bounded t (storing fd coro) choice s h less v =
      moved t idle s (advance t (storing fd coro) choice s) less refl
        (omega (arith, ap (in_hand c) h, erase-waiting c fd s.timers)) v
  advance-Bounded t (erasing fd) choice s h less v =
      moved t idle s (advance t (erasing fd) choice s) less refl
        (omega (arith, ap (in_hand c) h, erase-waiting c fd s.timers)) v
  advance-Bounded t (handling []) choice s h less v =
      moved t idle s (advance t (handling []) choice s) less refl (omega (arith, ap (in_hand c) h))
        v
  advance-Bounded t (handling (fd ∷ rest)) choice s h less v =
      take_coroutine-Bounded t fd rest (find fd s.timers) s less h (erase-waiting c fd s.timers) v
  advance-Bounded t (resuming fd coro rest) choice s h less v =
      moved t (handling rest) s (advance t (resuming fd coro rest) choice s) less refl
        (omega (arith, ap (in_hand c) h)) v

  run-Bounded :
      (schedule : List (ℕ × Choice)) (s : System) → Bounded s → Bounded (run threads schedule s)
  unfolding run
  run-Bounded [] s v = v
  run-Bounded ((t, choice) ∷ rest) s v = run-Bounded rest _ (
      if-Bounded (ltb t threads) _ _
        (λ e. advance-Bounded t (s.phases t) choice s refl (ltb→lt t threads e) v) (λ e. v))

-- Whatever threads register, unregister and poll in whatever order, and whatever the kernel reports, a
-- coroutine has been resumed at most as often as it was registered.
pub run-resumed :
    (threads c : ℕ) (schedule : List (ℕ × Choice))
    → count (λ d. c == d) (run threads schedule new).resumed
      ≤ count (λ d. c == d) (run threads schedule new).stored
run-resumed threads c schedule = omega (
  arith,
  run-Bounded threads c schedule new (omega (arith, sum_zero (λ t. 0) threads (λ t a. refl))),
)
