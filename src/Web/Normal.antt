-- ===== src/Web/Normal.antt =====
-- The form of what `normalizePath` of src/CrossPointWebServer.cpp returns.
use crosspoint_simulator_ios.Base.{
  ℕ, ◌≡◌, refl, ◌∙◌, ap, Bool, true, false, ◌&&◌, ◌||◌, [], ◌∷◌, arith, if◌then◌else◌, ◌==◌, Bytes,
  inl, inr, ◌⊎◌, if_both, ==_iff,
}
use crosspoint_simulator_ios.Web.Decode.{url_decode}
use crosspoint_simulator_ios.Web.Path.{
  slash, root, empty, collapse, has_dot_dot, drop_trailing, with_slash, normalize_path,
}

-- Whether a text has two slashes side by side, and whether it ends in one.
abbrev pub double_slash : Bytes → Bool
double_slash [] = false
double_slash (c ∷ []) = false
double_slash (c ∷ d ∷ cs) = ((c == slash) && (d == slash)) || double_slash (d ∷ cs)

abbrev pub ends_in_slash : Bytes → Bool
ends_in_slash [] = false
ends_in_slash (c ∷ []) = c == slash
ends_in_slash (c ∷ d ∷ cs) = ends_in_slash (d ∷ cs)

abbrev pub starts_with_slash : Bytes → Bool
starts_with_slash [] = false
starts_with_slash (c ∷ cs) = c == slash

-- `collapse` keeps the first character, so a slash is put before no other.
collapse-single :
    (cs : Bytes)
    → (double_slash (collapse cs) ≡ false)
      × (starts_with_slash (collapse cs) ≡ starts_with_slash cs)
unfolding collapse
collapse-single [] = (refl, refl)
collapse-single (c ∷ []) = (refl, refl)
collapse-single (c ∷ d ∷ ds) = go (collapse (d ∷ ds)) (collapse-single (d ∷ ds))
  where
    go :
        (r : Bytes)
        → (double_slash r ≡ false) × (starts_with_slash r ≡ (d == slash))
        → let t = if (c == slash) && (d == slash) then r else c ∷ r in
          (double_slash t ≡ false) × (starts_with_slash t ≡ (c == slash))
    go [] h = ground arith
    go (x ∷ xs) h = ground arith

-- Of a text without double slashes, only a single slash ends in a slash after `drop_trailing`.
record Trimmed (c : ℕ) (cs r : Bytes) : Type 0 where
  single : double_slash r ≡ false
  nonempty : empty r ≡ false
  first : starts_with_slash r ≡ (c == slash)
  last : ends_in_slash r ≡ (empty cs && (c == slash))

drop_trailing-Trimmed :
    (c : ℕ) (cs : Bytes) → double_slash (c ∷ cs) ≡ false → Trimmed c cs (drop_trailing (c ∷ cs))
unfolding drop_trailing
drop_trailing-Trimmed c [] h = record { single = refl; nonempty = refl; first = refl; last = refl }
drop_trailing-Trimmed c (d ∷ []) h = record {
  single = ground arith;
  nonempty = ground arith;
  first = ground arith;
  last = ground arith;
}
drop_trailing-Trimmed c (d ∷ e ∷ cs) h =
    go (drop_trailing (d ∷ e ∷ cs)) (drop_trailing-Trimmed d (e ∷ cs) (ground arith))
  where
    go : (r : Bytes) → Trimmed d (e ∷ cs) r → Trimmed c (d ∷ e ∷ cs) (c ∷ r)
    go [] t = absurd (ground (arith, t.nonempty))
    go (x ∷ xs) t = record {
      single = ground (arith, t.single, t.first, h);
      nonempty = refl;
      first = refl;
      last = ground (arith, t.last);
    }

-- A path that is refused, or the root, or one that starts with a slash, has no two slashes side by side
-- and does not end in one.
abbrev pub IsNormal : Bytes → Type 0
IsNormal p =
    (p ≡ [])
    ⊎ ((starts_with_slash p ≡ true)
        × (double_slash p ≡ false)
        × ((p ≡ root) ⊎ (ends_in_slash p ≡ false)))

trimmed-IsNormal :
    (p : Bytes) → double_slash p ≡ false → starts_with_slash p ≡ true → IsNormal (drop_trailing p)
unfolding drop_trailing
trimmed-IsNormal [] h s = inl refl
trimmed-IsNormal (c ∷ []) h s = inr (s, refl, inl (ap (λ x. x ∷ []) ((==_iff c slash).0 s)))
trimmed-IsNormal (c ∷ d ∷ cs) h s =
    let t = drop_trailing-Trimmed c (d ∷ cs) h in inr (t.first ∙ s, t.single, inr t.last)

with_slash-starts : (p : Bytes) → starts_with_slash (with_slash p) ≡ true
unfolding with_slash
with_slash-starts [] = refl
with_slash-starts (c ∷ cs) = ground arith

-- What `normalizePath` returns for any text is empty, which the callers refuse, or it starts with a
-- slash, has no two slashes side by side, and ends in a slash only if it is the root.
pub normalize_path-IsNormal : (p : Bytes) → IsNormal (normalize_path p)
unfolding normalize_path
normalize_path-IsNormal p =
    let q = with_slash (url_decode p) in
    let (single, first) = collapse-single q in
    if_both IsNormal (has_dot_dot [] (collapse q)) (inl refl)
      (trimmed-IsNormal (collapse q) single (first ∙ with_slash-starts (url_decode p)))
