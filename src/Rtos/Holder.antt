-- ===== src/Rtos/Holder.antt =====
-- What `xSemaphoreGetMutexHolder` of src/freertos/semphr.h answers.
use crosspoint_simulator_ios.Base.{
  ℕ, ◌+◌, ◌<◌, ◌≡◌, ◌⊎◌, ◌∙◌, refl, sym, subst, ap, Option, none, some, arith, if◌then◌else◌, ◌==◌,
  true, Bool-cases, inl, inr, ==_iff,
}
use crosspoint_simulator_ios.Rtos.Mutex.{
  SimMutex, Phase, Phase.ready, Phase.locked, Phase.named, Phase.uncounted, Phase.cleared, Step,
  new_mutex, may_lock, lock, set_holder, count_up, count_down, clear_holder, unlock,
  get_mutex_holder,
}

-- A history of a mutex, in which no task is more than 65535 levels deep.
pub data Reach : SimMutex → Type 0 where
  start : Reach new_mutex
  next : {m n : SimMutex} → Reach m → Step m n → n.depth < 65536 → Reach n

-- The holder of an owner that has been counted c times.
abbrev counted : ℕ → ℕ → Option ℕ
counted c task = if c == 0 then none else some task

-- The copies that belong to an owner at a depth, by where it is in its call.
abbrev Copies : Phase → ℕ → ℕ → Option ℕ → ℕ → Type 0
Copies ready task depth holder c = (holder ≡ some task) × (c ≡ depth) × (0 < depth)
Copies locked task depth holder c = (holder ≡ counted c task) × (c + 1 ≡ depth)
Copies named task depth holder c = (holder ≡ some task) × (c + 1 ≡ depth)
Copies uncounted task depth holder c = (holder ≡ some task) × (c + 1 ≡ depth)
Copies cleared task depth holder c = (holder ≡ counted c task) × (c + 1 ≡ depth)

abbrev State : Option ℕ → Phase → ℕ → Option ℕ → ℕ → Type 0
State none phase depth holder c = (phase ≡ ready) × (depth ≡ 0) × (holder ≡ none) × (c ≡ 0)
State (some task) phase depth holder c = Copies phase task depth holder c

abbrev IsExact : SimMutex → Type 0
IsExact m = State m.owner m.phase m.depth m.holder m.hold_count

-- The state of an owner in a known phase.
at :
    (m : SimMutex) (task : ℕ) (phase : Phase)
    → m.phase ≡ phase
    → m.owner ≡ some task
    → IsExact m
    → Copies phase task m.depth m.holder m.hold_count
at m task phase p o x =
    subst (λ (z : Phase). Copies z task m.depth m.holder m.hold_count) p
      (subst (λ (z : Option ℕ). State z m.phase m.depth m.holder m.hold_count) o x)

counted-pos : (c task : ℕ) → 0 < c → counted c task ≡ some task
counted-pos c task h = ground arith

-- A task that `lock` lets in finds the copies as its last call left them.
let_in :
    (task : ℕ) (owner : Option ℕ) (depth : ℕ) (holder : Option ℕ) (c : ℕ)
    → may_lock task owner ≡ true
    → State owner ready depth holder c
    → (holder ≡ counted c task) × (c + 1 ≡ depth + 1)
let_in task none depth holder c o x = (rw (x.2, x.3) refl, omega (arith, x.1, x.3))
let_in task (some t) depth holder c o x =
    let same : t ≡ task = (==_iff t task).0 o in
    (x.0 ∙ ap some same ∙ sym (counted-pos c task (omega (arith, x.1, x.2))), omega (arith, x.1))

Step-IsExact : (m n : SimMutex) → IsExact m → Step m n → n.depth < 65536 → IsExact n
unfolding lock set_holder count_up count_down clear_holder unlock
Step-IsExact m _ x (Step.locks task _ p o) small =
    let_in task m.owner m.depth m.holder m.hold_count o
      (subst (λ (z : Phase). State m.owner z m.depth m.holder m.hold_count) p x)
Step-IsExact m _ x (Step.sets_holder task _ p o) small =
    let c = at m task locked p o x in rw o (refl, c.1)
Step-IsExact m _ x (Step.counts_up task _ p o) small =
    let c = at m task named p o x in rw o (c.0, omega (arith, c.1, small), omega (arith, c.1))
Step-IsExact m _ x (Step.counts_down task _ p o) small =
    let c = at m task ready p o x in rw o (c.0, ground (arith, c.1, c.2))
Step-IsExact m _ x (Step.clears_holder task _ p o) small =
    let c = at m task uncounted p o x in rw (o, c.0) (refl, c.1)
Step-IsExact m _ x (Step.unlocks task _ p o) small =
    let c = at m task cleared p o x in
    elim (Bool-cases (m.depth == 1)) [
      | inl last ↦
          let uncounted_all : m.hold_count ≡ 0 = ground (arith, last, c.1) in
          rw last (refl, ground (arith, last), c.0 ∙ rw uncounted_all refl, uncounted_all)
      | inr more ↦
          rw (more, o)
            (
              c.0 ∙ counted-pos m.hold_count task (ground (arith, more, c.1)),
              omega (arith, c.1),
              ground (arith, more, c.1),
            )
    ]

Reach-IsExact : (m : SimMutex) → Reach m → IsExact m
Reach-IsExact _ Reach.start = (refl, refl, refl, refl)
Reach-IsExact _ (Reach.next {m} {n} r s h) = Step-IsExact m n (Reach-IsExact m r) s h

counted-told :
    (task : ℕ) (holder : Option ℕ) (c : ℕ)
    → holder ≡ counted c task
    → (holder ≡ none) ⊎ (holder ≡ some task)
counted-told task holder c e = elim (Bool-cases (c == 0)) [
  | inl zero_times ↦ inl (e ∙ rw zero_times refl)
  | inr more ↦ inr (e ∙ rw more refl)
]

told :
    (owner : Option ℕ) (phase : Phase) (depth : ℕ) (holder : Option ℕ) (c : ℕ)
    → State owner phase depth holder c
    → ((holder ≡ none) ⊎ (holder ≡ owner)) × (phase ≡ ready → holder ≡ owner)
told none phase depth holder c x = (inl x.2, λ p. x.2)
told (some task) ready depth holder c x = (inr x.0, λ p. x.0)
told (some task) locked depth holder c x = (counted-told task holder c x.0, λ p. absurd (cc))
told (some task) named depth holder c x = (inr x.0, λ p. x.0)
told (some task) uncounted depth holder c x = (inr x.0, λ p. x.0)
told (some task) cleared depth holder c x = (counted-told task holder c x.0, λ p. absurd (cc))

-- After any sequence of single statements of the tasks, in which no task is more than 65535 levels deep,
-- the holder that the firmware is told is none or the task that owns the library's mutex, never another
-- task. While the owner is in no call of take or give, and while nobody owns the mutex, it is exact.
pub holder_is_owner :
    (m : SimMutex)
    → Reach m
    → ((get_mutex_holder m ≡ none) ⊎ (get_mutex_holder m ≡ m.owner))
      × (m.phase ≡ Phase.ready → get_mutex_holder m ≡ m.owner)
unfolding get_mutex_holder
holder_is_owner m r = told m.owner m.phase m.depth m.holder m.hold_count (Reach-IsExact m r)
