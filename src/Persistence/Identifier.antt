-- ===== src/Persistence/Identifier.antt =====
-- `_validate_identifier` of fsasm-first/src/fsasm/persistence.py, over the code points of a text.
use fsasm_training_lab.Prelude.{
  ℕ, ◌-◌, String, ◌≡◌, refl, Bool, true, false, not, ◌&&◌, ◌||◌, List, [], ◌∷◌, map, length, all,
  any, ltb, leb, nat_eq, codes, if◌then◌else◌, Result, ok, err, ◌>>◌, reject_if,
}

pub data Rejection : Type 0 where
  empty surrounding_space too_long control separator traversal absolute disallowed reserved :
      Rejection

abbrev pub between : ℕ → ℕ → ℕ → Bool
between lo hi c = leb lo c && leb c hi

-- `str.isspace` of one character
abbrev pub is_space : ℕ → Bool
is_space c =
    between 9 13 c
    || between 28 32 c
    || nat_eq c 133
    || nat_eq c 160
    || nat_eq c 5760
    || between 8192 8202 c
    || between 8232 8233 c
    || nat_eq c 8239
    || nat_eq c 8287
    || nat_eq c 12288

-- `[A-Za-z0-9_-]`
abbrev pub is_allowed : ℕ → Bool
is_allowed c =
    between b'A' b'Z' c
    || between b'a' b'z' c
    || between b'0' b'9' c
    || nat_eq c b'_'
    || nat_eq c b'-'

unfoldable pub lstrip : List ℕ → List ℕ
lstrip [] = []
lstrip (c ∷ cs) = let rest = lstrip cs in if is_space c then rest else c ∷ cs

-- What is left of the end: nothing, if all that follows and the character itself are spaces.
unfoldable pub rstrip : List ℕ → List ℕ
rstrip [] = []
rstrip (c ∷ cs) = if is_space c && all is_space cs then [] else c ∷ rstrip cs

abbrev pub is_nil : List ℕ → Bool
is_nil [] = true
is_nil (_ ∷ _) = false

unfoldable pub same_points : List ℕ → List ℕ → Bool
same_points [] [] = true
same_points (x ∷ xs) (y ∷ ys) = nat_eq x y && same_points xs ys
same_points _ _ = false

-- `identifier.split(".", 1)[0]`
unfoldable pub stem : List ℕ → List ℕ
stem [] = []
stem (c ∷ cs) = let rest = stem cs in if nat_eq c b'.' then [] else c ∷ rest

-- `str.upper`, for the ASCII letters: no other letter passes the pattern before it
abbrev pub upper : ℕ → ℕ
upper c = if between b'a' b'z' c then c - 32 else c

abbrev pub windows_reserved : List String
windows_reserved =
    "CON" ∷ "PRN" ∷ "AUX" ∷ "NUL" ∷ "COM1" ∷ "COM2" ∷ "COM3" ∷ "COM4" ∷ "COM5" ∷ "COM6" ∷ "COM7"
    ∷ "COM8" ∷ "COM9" ∷ "LPT1" ∷ "LPT2" ∷ "LPT3" ∷ "LPT4" ∷ "LPT5" ∷ "LPT6" ∷ "LPT7" ∷ "LPT8"
    ∷ "LPT9" ∷ []

unfoldable pub is_reserved : List ℕ → Bool
unfolding same_points
is_reserved cs = any (λ name. same_points (map upper cs) (codes name)) windows_reserved

abbrev pub max_identifier_length : ℕ
max_identifier_length = 200

abbrev pub starts_with_slash : List ℕ → Bool
starts_with_slash [] = false
starts_with_slash (c ∷ _) = nat_eq c b'/'

unfoldable pub validate_points : List ℕ → Result Rejection Unit
unfolding same_points
validate_points cs = do
  reject_if (is_nil (rstrip (lstrip cs))) empty
  reject_if (not (same_points cs (rstrip (lstrip cs)))) surrounding_space
  reject_if (ltb max_identifier_length (length cs)) too_long
  reject_if (any (λ c. ltb c 32) cs) control
  reject_if (any (λ c. nat_eq c b'/') cs || any (λ c. nat_eq c 92) cs) separator
  reject_if (same_points cs (b'.' ∷ []) || same_points cs (b'.' ∷ b'.' ∷ [])) traversal
  reject_if (starts_with_slash cs) absolute
  reject_if (is_nil cs || not (all is_allowed cs)) disallowed
  reject_if (is_reserved (stem cs)) reserved

unfoldable pub validate_identifier : String → Result Rejection Unit
unfolding validate_points
validate_identifier identifier = validate_points (codes identifier)

accepts_generated : validate_identifier "run-123_A" ≡ ok tt
unfolding validate_identifier lstrip rstrip stem is_reserved
accepts_generated = refl

refuses_traversal : validate_identifier ".." ≡ err traversal
unfolding validate_identifier lstrip rstrip stem is_reserved
refuses_traversal = refl

refuses_reserved : validate_identifier "com1" ≡ err reserved
unfolding validate_identifier lstrip rstrip stem is_reserved
refuses_reserved = refl
