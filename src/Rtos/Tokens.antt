-- ===== src/Rtos/Tokens.antt =====
-- Tokens are neither lost nor made, for the binary semaphore of src/freertos/semphr.h.
use crosspoint_simulator_ios.Base.{
  ℕ, ◌+◌, ◌≡◌, refl, Bool, true, false, List, [], ◌∷◌, Option, none, some, arith, leb, if_both,
}
use crosspoint_simulator_ios.Rtos.Semaphore.{
  deadline_of, take_round, give, System, Event, count, after_round, wake, call, step, run, created,
}

-- The gives that were accepted are the takes that succeeded and the token that is left.
abbrev pub Balanced : System → Type 0
Balanced s = s.granted ≡ s.taken + count s.available

-- A test of the predicate keeps the balance; `a` is whether a token is there.
round-Balanced :
    (t now : ℕ) (d : Option ℕ) (a : Bool) (s : System)
    → s.available ≡ a
    → Balanced s
    → Balanced (after_round t (take_round d now a) s)
unfolding after_round take_round
round-Balanced t now d true s e h = ground arith
round-Balanced t now none false s e h = h
round-Balanced t now (some d) false s e h =
    if_both (λ (o : Option (Bool × Bool)). Balanced (after_round t o s)) (leb d now) (ground arith)
      h

wake-Balanced : (t : ℕ) (w : Option (Option ℕ)) (s : System) → Balanced s → Balanced (wake t w s)
unfolding wake
wake-Balanced t none s h = h
wake-Balanced t (some d) s h = round-Balanced t s.now d s.available s refl h

call-Balanced :
    (t ticks : ℕ) (w : Option (Option ℕ)) (s : System) → Balanced s → Balanced (call t ticks w s)
unfolding call
call-Balanced t ticks (some d) s h = h
call-Balanced t ticks none s h = wake-Balanced t (some (deadline_of ticks s.now)) _ h

step-Balanced : (e : Event) (s : System) → Balanced s → Balanced (step e s)
unfolding step give
step-Balanced Event.given s h = ground arith
step-Balanced (Event.called t ticks) s h = call-Balanced t ticks (s.waiting t) s h
step-Balanced (Event.woken t) s h = wake-Balanced t (s.waiting t) s h
step-Balanced (Event.passed ms) s h = h

run-Balanced : (es : List Event) (s : System) → Balanced s → Balanced (run es s)
unfolding run
run-Balanced [] s h = h
run-Balanced (e ∷ es) s h = run-Balanced es (step e s) (step-Balanced e s h)

-- In every interleaving of gives, takes, wake-ups and the passing of time, from any threads, the gives that
-- reported pdTRUE are as many as the takes that did, and one more if a token is left: no token is lost, and
-- no give lets two takes through.
pub tokens_conserved :
    (es : List Event)
    → (run es created).granted ≡ (run es created).taken + count (run es created).available
tokens_conserved es = run-Balanced es created refl
