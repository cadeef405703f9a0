-- ===== src/ConfigWriter/Validity.antt =====
-- The loop of the writer and what its prompts allow.
use emb_linux.Prelude.{
  ◌>>=◌, ℕ, zero, suc, ◌≤◌, ◌<◌, ◌≡◌, refl, sym, ap, subst, List, Bool, true, false, ◌||◌, Option,
  none, some, inl, inr, ◌⊎◌, if◌then◌else◌, ==→eq, and-both, leb, length, arith, true-ne_false, ℤ,
  pos, negsuc,
}
use emb_linux.TerminalInput.{Stdin}
use emb_linux.TerminalInput.Progress.{IsQuiet, QuietWithin, Progress, get_user_input-Progress}
use emb_linux.ConfigWriter.{
  Config, buffer_size, equals, between, valid_baud, load, Round, leaves, asks_again, store_if, ask,
  choose_field, command, after_round, session,
}

abbrev pub IsBetween : ℕ → ℕ → ℤ → Type 0
IsBetween a b v = (n : ℕ) × (v ≡ pos n) × (a ≤ n) × (n ≤ b)

abbrev pub IsBaud : ℤ → Type 0
IsBaud v = (v ≡ pos 9600) ⊎ ((v ≡ pos 115200) ⊎ (v ≡ pos 460800))

-- What the prompts of the program allow.
pub record IsValid (c : Config) : Type 0 where
  pub baud : IsBaud c.baud_rate
  pub rate : IsBetween 1 1000 c.sampling_rate_hz
  pub level : IsBetween 0 3 c.log_level

between-IsBetween : (a b : ℕ) (v : ℤ) → between a b v ≡ true → IsBetween a b v
between-IsBetween a b (pos n) h =
    let (low, high) = and-both (leb a n) (leb n b) h in (n, refl, ground arith, ground arith)
between-IsBetween a b (negsuc n) h = absurd (true-ne_false (sym h))

equals-pos : (n : ℕ) (v : ℤ) → equals n v ≡ true → v ≡ pos n
equals-pos n (pos m) h = ap pos (==→eq m n h)
equals-pos n (negsuc m) h = absurd (true-ne_false (sym h))

or-cases : (a b : Bool) → a || b ≡ true → (a ≡ true) ⊎ (b ≡ true)
or-cases true b h = inl refl
or-cases false b h = inr h

valid_baud-IsBaud : (v : ℤ) → valid_baud v ≡ true → IsBaud v
valid_baud-IsBaud v h = elim (or-cases (equals 9600 v || equals 115200 v) (equals 460800 v) h) [
  | inl k ↦ elim (or-cases (equals 9600 v) (equals 115200 v) k) [
    | inl e ↦ inl (equals-pos 9600 v e)
    | inr e ↦ inr (inl (equals-pos 115200 v e))
  ]
  | inr e ↦ inr (inr (equals-pos 460800 v e))
]

if-IsValid :
    (b : Bool) (x y : Config) → (b ≡ true → IsValid x) → IsValid y → IsValid (if b then x else y)
if-IsValid true x y f v = f refl
if-IsValid false x y f v = v

abbrev defaults : Config
defaults = record { baud_rate = pos 9600; sampling_rate_hz = pos 100; log_level = pos 2 }

defaults-IsValid : IsValid defaults
defaults-IsValid = record {
  baud = inl refl;
  rate = (100, refl, omega arith, omega arith);
  level = (2, refl, omega arith, omega arith);
}

pub load-IsValid : (c : Config) → (c.baud_rate ≡ pos 0) ⊎ IsValid c → IsValid (load c)
load-IsValid c (inl e) =
    subst (λ b. IsValid (if equals 0 b then defaults else c)) (sym e) defaults-IsValid
load-IsValid c (inr v) = if-IsValid (equals 0 c.baud_rate) defaults c (λ e. defaults-IsValid) v

-- Standard input without signals, and with fewer characters than this.
abbrev Below : ℕ → Stdin → Type 0
Below n io = IsQuiet io × (length io.input < n)

-- A round that reads at most what was to come, and keeps the configuration valid.
abbrev Fine : ℕ → Round → Type 0
Fine n (leaves c) = IsValid c
Fine n (asks_again c io) = IsValid c × Below n io

abbrev Ends : ℕ → Option Round → Type 0
Ends n o = (r : Round) × (o ≡ some r) × Fine n r

if-Ends :
    (n : ℕ) (b : Bool) (x y : Option Round) → Ends n x → Ends n y → Ends n (if b then x else y)
if-Ends n true x y p q = p
if-Ends n false x y p q = q

module _ (atoi : List ℕ → ℤ) (rounds : ℕ) where
  ask-Ends :
      (valid : ℤ → Bool) (store : ℤ → Config → Config) (c : Config) (io : Stdin) (n : ℕ)
      → IsValid c
      → ((v : ℤ) → valid v ≡ true → IsValid (store v c))
      → Below n io
      → Ends n (ask atoi (suc rounds) valid store c io)
  unfolding ask
  ask-Ends valid store c io n v f (quiet, short) =
      let (o, eq, p) = get_user_input-Progress rounds buffer_size io (omega arith) quiet in
      subst (λ r. Ends n (r >>= store_if atoi (suc rounds) valid store c)) (sym eq) (stored o p)
    where
      stored :
          (o : Option (List ℕ) × Stdin)
          → Progress (length io.input) o
          → Ends n (store_if atoi (suc rounds) valid store c o)
      stored (none, io') p = (leaves c, refl, v)
      stored (some text, io') ((still, fewer), less) = (
        _,
        refl,
        (
          if-IsValid (valid (atoi text)) _ _ (f (atoi text)) v,
          (still, omega (arith, fewer, short)),
        ),
      )

  command-Ends :
      (c : Config) (io : Stdin) (n : ℕ)
      → IsValid c
      → QuietWithin n io
      → Ends n (command atoi (suc rounds) c io)
  unfolding command
  command-Ends c io n v (quiet, short) =
      let (o, eq, p) = get_user_input-Progress rounds buffer_size io (omega arith) quiet in
      subst (λ r. Ends n (r >>= choose_field atoi (suc rounds) c)) (sym eq) (chosen o p)
    where
      chosen :
          (o : Option (List ℕ) × Stdin)
          → Progress (length io.input) o
          → Ends n (choose_field atoi (suc rounds) c o)
      chosen (none, io') p = (leaves c, refl, v)
      chosen (some text, io') ((still, fewer), less) =
          let within : Below n io' = (still, omega (arith, less, short)) in
          if-Ends n _ _ _ (leaves c, refl, v)
            (if-Ends n _ _ _
              (ask-Ends valid_baud (λ b c. record c { baud_rate = b }) c io' n v
                (λ b e. record { baud = valid_baud-IsBaud b e; rate = v.rate; level = v.level })
                within)
              (if-Ends n _ _ _
                (ask-Ends (between 1 1000) (λ b c. record c { sampling_rate_hz = b }) c io' n v
                  (λ b e. record {
                    baud = v.baud;
                    rate = between-IsBetween 1 1000 b e;
                    level = v.level;
                  })
                  within)
                (if-Ends n _ _ _
                  (ask-Ends (between 0 3) (λ b c. record c { log_level = b }) c io' n v
                    (λ b e. record {
                      baud = v.baud;
                      rate = v.rate;
                      level = between-IsBetween 0 3 b e;
                    })
                    within)
                  (asks_again c io', refl, (v, within)))))

  abbrev SessionEnds : ℕ → Config → Stdin → Type 0
  SessionEnds n c io = (d : Config) × (session atoi (suc rounds) n c io ≡ some d) × IsValid d

  -- One round, and the rounds after it.
  round-Ends :
      (n : ℕ) (c : Config) (io : Stdin)
      → IsValid c
      → QuietWithin n io
      → ((d : Config) (later : Stdin) → IsValid d → Below n later → SessionEnds n d later)
      → SessionEnds (suc n) c io
  unfolding session
  round-Ends n c io v q again =
      let (r, eq, f) = command-Ends c io n v q in
      subst
        (λ o.
          (d : Config) × (o >>= after_round atoi (suc rounds) (session atoi (suc rounds) n)
            ≡ some d)
          × IsValid d)
        (sym eq) (goes_on r f)
    where
      goes_on :
          (r : Round)
          → Fine n r
          → (d : Config) × (after_round atoi (suc rounds) (session atoi (suc rounds) n) r ≡ some d)
            × IsValid d
      goes_on (leaves d) f = (d, refl, f)
      goes_on (asks_again d later) (w, below) = again d later w below

  session-Ends :
      (n : ℕ) (c : Config) (io : Stdin) → IsValid c → QuietWithin n io → SessionEnds (suc n) c io
  session-Ends zero c io v q =
      round-Ends zero c io v q (λ d later w below. absurd (omega (arith, below.1)))
  session-Ends (suc n) c io v q =
      round-Ends (suc n) c io v q
        (λ d later w below. session-Ends n d later w (below.0, omega (arith, below.1)))

-- `main` from its defaults on: when no signal interrupts a read, and the memory holds a valid
-- configuration or has not been initialised, the loop ends, after at most as many rounds as there are
-- characters in the input and one more, and leaves a valid configuration in the memory. No read is
-- repeated on the way.
pub session-IsValid :
    (atoi : List ℕ → ℤ) (c : Config) (io : Stdin)
    → (c.baud_rate ≡ pos 0) ⊎ IsValid c
    → IsQuiet io
    → (d : Config) × (session atoi 1 (suc (length io.input)) (load c) io ≡ some d) × IsValid d
session-IsValid atoi c io h q =
    session-Ends atoi 0 (length io.input) (load c) io (load-IsValid c h) (q, omega arith)
