-- ===== src/Persistence/Accepted.antt =====
-- What `_validate_identifier` of fsasm-first/src/fsasm/persistence.py accepts.
use fsasm_training_lab.Prelude.{
  ℕ, ◌≤◌, String, ◌≡◌, ◌≢◌, ◌↔◌, refl, Bool, true, false, List, [], ◌∷◌, length, all, any, ltb,
  nat_eq, arith, ok, codes,
}
use fsasm_training_lab.Persistence.Identifier.{
  is_space, is_allowed, lstrip, rstrip, same_points, stem, is_reserved, validate_points,
  validate_identifier, starts_with_slash, is_nil, max_identifier_length,
}

abbrev Clean : List ℕ → Type 0
Clean cs = all is_allowed cs ≡ true

-- The bounds of the allowed characters, and the characters among them that are not.
allowed_low : (c : ℕ) → is_allowed c ≡ true → 45 ≤ c
allowed_low c h = ground arith

allowed_high : (c : ℕ) → is_allowed c ≡ true → c ≤ 122
allowed_high c h = ground arith

allowed_ne_dot : (c : ℕ) → is_allowed c ≡ true → nat_eq c b'.' ≡ false
allowed_ne_dot c h = ground arith

allowed_ne_slash : (c : ℕ) → is_allowed c ≡ true → nat_eq c b'/' ≡ false
allowed_ne_slash c h = ground arith

allowed_ne_backslash : (c : ℕ) → is_allowed c ≡ true → nat_eq c 92 ≡ false
allowed_ne_backslash c h = ground arith

not_space : (c : ℕ) → 45 ≤ c → c ≤ 122 → is_space c ≡ false
not_space c lo hi = ground arith

allowed_ne_space : (c : ℕ) → is_allowed c ≡ true → is_space c ≡ false
allowed_ne_space c h = not_space c (allowed_low c h) (allowed_high c h)

not_control : (c : ℕ) → 45 ≤ c → ltb c 32 ≡ false
not_control c lo = ground arith

lstrip-Clean : (cs : List ℕ) → Clean cs → lstrip cs ≡ cs
unfolding lstrip
lstrip-Clean [] h = refl
lstrip-Clean (c ∷ cs) h =
    let here : is_allowed c ≡ true = ground arith in rw (allowed_ne_space c here)

rstrip-Clean : (cs : List ℕ) → Clean cs → rstrip cs ≡ cs
unfolding rstrip
rstrip-Clean [] h = refl
rstrip-Clean (c ∷ cs) h =
    let here : is_allowed c ≡ true = ground arith in
    rw (allowed_ne_space c here, rstrip-Clean cs (ground arith))

stem-Clean : (cs : List ℕ) → Clean cs → stem cs ≡ cs
unfolding stem
stem-Clean [] h = refl
stem-Clean (c ∷ cs) h =
    let here : is_allowed c ≡ true = ground arith in
    rw (allowed_ne_dot c here, stem-Clean cs (ground arith))

same_points_refl : (cs : List ℕ) → same_points cs cs ≡ true
unfolding same_points
same_points_refl [] = refl
same_points_refl (c ∷ cs) = ground (arith, same_points_refl cs)

-- A test that fails at every allowed character finds none in a clean text.
any-Clean :
    (p : ℕ → Bool)
    → ((c : ℕ) → is_allowed c ≡ true → p c ≡ false)
    → (cs : List ℕ) → Clean cs
    → any p cs ≡ false
any-Clean p none_ [] h = refl
any-Clean p none_ (c ∷ cs) h =
    let here : is_allowed c ≡ true = ground arith in
    rw (none_ c here) (any-Clean p none_ cs (ground arith))

not_dots : (c : ℕ) (cs ds : List ℕ) → Clean (c ∷ cs) → same_points (c ∷ cs) (b'.' ∷ ds) ≡ false
unfolding same_points
not_dots c cs ds h = let here : is_allowed c ≡ true = ground arith in rw (allowed_ne_dot c here)

not_absolute : (c : ℕ) (cs : List ℕ) → Clean (c ∷ cs) → starts_with_slash (c ∷ cs) ≡ false
not_absolute c cs h = let here : is_allowed c ≡ true = ground arith in allowed_ne_slash c here

Clean-accepted :
    (c : ℕ) (cs : List ℕ)
    → Clean (c ∷ cs)
    → length (c ∷ cs) ≤ max_identifier_length
    → is_reserved (c ∷ cs) ≡ false
    → validate_points (c ∷ cs) ≡ ok tt
unfolding validate_points
Clean-accepted c cs h short free =
    let all_ = c ∷ cs in
    let short_ : ltb max_identifier_length (length all_) ≡ false = ground arith in
    let e1 = lstrip-Clean all_ h in
    let e2 = rstrip-Clean all_ h in
    let e3 = same_points_refl all_ in
    let e4 = any-Clean (λ c. ltb c 32) (λ d k. not_control d (allowed_low d k)) all_ h in
    let e5 = any-Clean (λ c. nat_eq c b'/') allowed_ne_slash all_ h in
    let e6 = any-Clean (λ c. nat_eq c 92) allowed_ne_backslash all_ h in
    let e7 = not_dots c cs [] h in
    let e8 = not_dots c cs (b'.' ∷ []) h in
    let e9 = not_absolute c cs h in
    let e10 = stem-Clean all_ h in rw (e1, e2, e3, short_, e4, e5, e6, e7, e8, e9, h, e10, free)

accepted_inv :
    (cs : List ℕ)
    → validate_points cs ≡ ok tt
    → (is_nil cs ≡ false)
      × (Clean cs)
      × (ltb max_identifier_length (length cs) ≡ false)
      × (is_reserved (stem cs) ≡ false)
unfolding validate_points
accepted_inv cs h = ground arith

points_iff :
    (cs : List ℕ)
    → (validate_points cs ≡ ok tt) ↔ (
        (cs ≢ [])
        × (all is_allowed cs ≡ true)
        × (length cs ≤ max_identifier_length)
        × (is_reserved cs ≡ false))
points_iff [] = (λ h. let (some_, rest) = accepted_nil h in cc, λ h. absurd (h.0 refl))
  where
    accepted_nil : validate_points [] ≡ ok tt → (is_nil [] ≡ false) × (Unit {0})
    accepted_nil h = ((accepted_inv [] h).0, tt)
points_iff (c ∷ cs) = (
  λ h.
      let (some_, clean, short, free) = accepted_inv (c ∷ cs) h in
      (λ e. cc, clean, ground arith, rw (stem-Clean (c ∷ cs) clean) at free),
  λ h. Clean-accepted c cs h.1 h.2 h.3,
)

-- An identifier is accepted exactly when it is not empty, holds ASCII letters, digits, `_` and `-`
-- alone, has at most 200 characters, and is no Windows-reserved name in any case: of the nine checks
-- these four decide.
pub validate_identifier_iff :
    (identifier : String)
    → (validate_identifier identifier ≡ ok tt) ↔ (
        (codes identifier ≢ [])
        × (all is_allowed (codes identifier) ≡ true)
        × (length (codes identifier) ≤ max_identifier_length)
        × (is_reserved (codes identifier) ≡ false))
unfolding validate_identifier
validate_identifier_iff identifier = points_iff (codes identifier)
