-- ===== src/Http/Search.antt =====
-- Where `find` stops in a text of which only a front has been read.
use crosspoint_simulator_ios.Base.{
  ℕ, ◌+◌, ◌≤◌, ◌<◌, ◌≡◌, refl, sym, [], ◌∷◌, ◌++◌, none, some, arith, Bytes, length, ◌==◌,
  Option-cases, inl, inr, true, subst,
}
use crosspoint_simulator_ios.Base.Search.{find, strip_prefix}

-- A text that begins with the pattern still does when more follows.
strip_prefix-append :
    (p xs t r : Bytes) → strip_prefix p xs ≡ some r → strip_prefix p (xs ++ t) ≡ some (r ++ t)
strip_prefix-append [] xs t r h = ground arith
strip_prefix-append (p ∷ ps) [] t r h = absurd (cc)
strip_prefix-append (p ∷ ps) (x ∷ xs) t r h = ground (arith, strip_prefix-append ps xs t r)

-- And it did before, if it was long enough.
strip_prefix-front :
    (p xs t r : Bytes)
    → strip_prefix p (xs ++ t) ≡ some r
    → length p ≤ length xs
    → (q : Bytes) × (strip_prefix p xs ≡ some q) × (r ≡ q ++ t)
strip_prefix-front [] xs t r h k = (xs, refl, ground arith)
strip_prefix-front (p ∷ ps) [] t r h k = absurd (omega arith)
strip_prefix-front (p ∷ ps) (x ∷ xs) t r h k =
    let e : (p == x) ≡ true = ground arith in
    let (q, f, g) = strip_prefix-front ps xs t r (ground arith) (omega arith) in
    (q, ground arith, g)

strip_prefix-length : (p xs r : Bytes) → strip_prefix p xs ≡ some r → length p ≤ length xs
strip_prefix-length [] xs r h = omega arith
strip_prefix-length (p ∷ ps) [] r h = absurd (cc)
strip_prefix-length (p ∷ ps) (x ∷ xs) r h = ground (arith, strip_prefix-length ps xs r)

strip_prefix-nil : (p : Bytes) → 0 < length p → strip_prefix p [] ≡ none
strip_prefix-nil [] h = absurd (omega arith)
strip_prefix-nil (p ∷ ps) h = refl

-- The ways in which `find` succeeds.
pub data Found (p : Bytes) : Bytes → Bytes → Bytes → Type 0 where
  here : {xs b : Bytes} → strip_prefix p xs ≡ some b → Found p xs [] b
  there :
      {x : ℕ} {xs a b : Bytes}
      → strip_prefix p (x ∷ xs) ≡ none
      → Found p xs a b
      → Found p (x ∷ xs) (x ∷ a) b

pub find-Found : (p xs a b : Bytes) → 0 < length p → find p xs ≡ some (a, b) → Found p xs a b
find-Found p [] a b h e = absurd (let n = strip_prefix-nil p h in ground arith)
find-Found p (x ∷ xs) a b h e = elim (Option-cases (strip_prefix p (x ∷ xs))) [
  | inl away ↦ elim (Option-cases (find p xs)) [
    | inl lost ↦ absurd (ground arith)
    | inr ((a', b'), later) ↦
        let ea : a ≡ x ∷ a' = ground arith in
        let eb : b ≡ b' = ground arith in
        rw (ea, eb) (Found.there away (find-Found p xs a' b' h later))
  ]
  | inr (r, front) ↦
      let ea : a ≡ [] = ground arith in
      let eb : b ≡ r = ground arith in rw (ea, eb) (Found.here front)
]

pub Found-find : (p xs a b : Bytes) → Found p xs a b → find p xs ≡ some (a, b)
Found-find p [] _ b (Found.here e) = rw (e, find)
Found-find p (x ∷ xs) _ b (Found.here e) = rw (e, find)
Found-find p _ _ b (Found.there {x} {xs} {a} e f) =
    let r = Found-find p xs a b f in rw (e, find) (rw r)

Found-length : (p xs a b : Bytes) → Found p xs a b → length a + length p ≤ length xs
Found-length p xs _ b (Found.here e) = omega (arith, strip_prefix-length p xs b e)
Found-length p _ _ b (Found.there {x} {xs} {a} e f) = omega (arith, Found-length p xs a b f)

-- The first occurrence stays the first when more follows.
Found-append : (p xs t a b : Bytes) → Found p xs a b → Found p (xs ++ t) a (b ++ t)
Found-append p xs t _ b (Found.here e) = Found.here (strip_prefix-append p xs t b e)
Found-append p _ t _ b (Found.there {x} {xs} {a} e f) =
    Found.there
      (elim (Option-cases (strip_prefix p (x ∷ xs ++ t))) [
        | inl away ↦ away
        | inr (r, front) ↦
            let (q, g, k) =
              strip_prefix-front p (x ∷ xs) t r front (omega (arith, Found-length p xs a b f)) in
            absurd (cc)
      ])
      (Found-append p xs t a b f)

-- And it was the first before, if it ended there.
Found-front :
    (p xs t w a b : Bytes)
    → w ≡ xs ++ t
    → 0 < length p
    → Found p w a b
    → length a + length p ≤ length xs
    → (q : Bytes) × Found p xs a q × (b ≡ q ++ t)
Found-front p xs t w _ b v h (Found.here e) k =
    let (q, f, g) =
      strip_prefix-front p xs t b (subst (λ (z : Bytes). strip_prefix p z ≡ some b) v e)
        (omega arith) in
    (q, Found.here f, g)
Found-front p [] t _ _ b v h (Found.there e f) k = absurd (omega arith)
Found-front p (y ∷ xs) t _ _ b v h (Found.there {x} {xs = w} {a} e f) k =
    let ex : x ≡ y = cc in
    let (q, g, l) = Found-front p xs t w a b (cc) h f (omega arith) in
    let away : strip_prefix p (y ∷ xs) ≡ none = elim (Option-cases (strip_prefix p (y ∷ xs))) [
      | inl n ↦ n
      | inr (r, front) ↦ absurd (let s = strip_prefix-append p (y ∷ xs) t r front in cc)
    ] in
    (q, subst (λ (z : ℕ). Found p (y ∷ xs) (z ∷ a) q) (sym ex) (Found.there away g), l)

-- If the first occurrence in a text ends in its front, it is found there, and behind it in the whole text
-- follows what the front has left.
pub find-front :
    (p xs t a b : Bytes)
    → 0 < length p
    → find p (xs ++ t) ≡ some (a, b)
    → length a + length p ≤ length xs
    → (q : Bytes) × (find p xs ≡ some (a, q)) × (b ≡ q ++ t)
find-front p xs t a b h e k =
    let (q, f, g) = Found-front p xs t (xs ++ t) a b refl h (find-Found p (xs ++ t) a b h e) k in
    (q, Found-find p xs a q f, g)

-- What a front has before the first occurrence stays before it when more follows.
pub find-append :
    (p xs t a b : Bytes)
    → 0 < length p
    → find p xs ≡ some (a, b)
    → find p (xs ++ t) ≡ some (a, b ++ t)
find-append p xs t a b h e =
    Found-find p (xs ++ t) a (b ++ t) (Found-append p xs t a b (find-Found p xs a b h e))
