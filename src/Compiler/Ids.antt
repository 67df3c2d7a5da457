-- ===== src/Compiler/Ids.antt =====
-- The task ids of one run are all different: a decimal number is read back from its digits
-- (`task_id_for` of fsasm-first/src/fsasm/models.py).
use Prim.Native.Char.{code}
use Prim.Native.String.{◌++◌}
use text.Mathlib.TextLemmas.{append_cancel_left, nil-append, cons-append}
use fsasm_training_lab.Prelude.{
  ℕ, zero, suc, ◌+◌, ◌-◌, ◌*◌, ◌/◌, ◌%◌, ◌<◌, String, ◌≡◌, refl, ◌⊎◌, Bool-cases, inl, inr, ltb,
  arith, sym, ap, ◌∙◌,
}
use fsasm_training_lab.Models.{digit, decimal_from, decimal, task_id_for}

-- The number that a text of digits continues.
unfoldable read : ℕ → String → ℕ
read n String.[] = n
read n (String.◌∷◌ c s) = read (n * 10 + (code c - 48)) s

read-append : (n : ℕ) (s t : String) → read n (s ++ t) ≡ read (read n s) t
unfolding read
read-append n String.[] t = ap (read n) (nil-append t)
read-append n (String.◌∷◌ c s) t =
    ap (read n) (cons-append c s t) ∙ read-append (n * 10 + (code c - 48)) s t

below_ten :
    (d : ℕ)
    → d < 10
    → (d ≡ 0)
      ⊎ (d ≡ 1)
      ⊎ (d ≡ 2)
      ⊎ (d ≡ 3)
      ⊎ (d ≡ 4)
      ⊎ (d ≡ 5)
      ⊎ (d ≡ 6)
      ⊎ (d ≡ 7)
      ⊎ (d ≡ 8)
      ⊎ (d ≡ 9)
below_ten d h = ground arith

read-digit : (n d : ℕ) → d < 10 → read n (digit d) ≡ n * 10 + d
unfolding read
read-digit n d h = elim (below_ten d h) [
  | inl e ↦ rw e (omega arith)
  | inr (inl e) ↦ rw e (omega arith)
  | inr (inr (inl e)) ↦ rw e (omega arith)
  | inr (inr (inr (inl e))) ↦ rw e (omega arith)
  | inr (inr (inr (inr (inl e)))) ↦ rw e (omega arith)
  | inr (inr (inr (inr (inr (inl e))))) ↦ rw e (omega arith)
  | inr (inr (inr (inr (inr (inr (inl e)))))) ↦ rw e (omega arith)
  | inr (inr (inr (inr (inr (inr (inr (inl e))))))) ↦ rw e (omega arith)
  | inr (inr (inr (inr (inr (inr (inr (inr (inl e)))))))) ↦ rw e (omega arith)
  | inr (inr (inr (inr (inr (inr (inr (inr (inr e)))))))) ↦ rw e (omega arith)
]

read-decimal_from : (fuel n : ℕ) → n < fuel → read 0 (decimal_from fuel n) ≡ n
unfolding decimal_from
read-decimal_from zero n h = absurd (omega arith)
read-decimal_from (suc fuel) n h = elim (Bool-cases (ltb n 10)) [
  | inl e ↦
      let short : decimal_from (suc fuel) n ≡ digit n = rw (decimal_from, e) refl in
      ap (read 0) short ∙ read-digit 0 n (ground arith) ∙ omega arith
  | inr e ↦
      let front = decimal_from fuel (n / 10) in
      let long : decimal_from (suc fuel) n ≡ front ++ digit (n % 10) = rw (decimal_from, e) refl in
      ap (read 0) long
      ∙ read-append 0 front (digit (n % 10))
      ∙ ap (λ m. read m (digit (n % 10))) (read-decimal_from fuel (n / 10) (ground arith))
      ∙ read-digit (n / 10) (n % 10) (omega arith)
      ∙ omega arith
]

decimal-injective : (m n : ℕ) → decimal m ≡ decimal n → m ≡ n
unfolding decimal
decimal-injective m n h =
    sym (read-decimal_from (m + 1) m (omega arith))
    ∙ ap (read 0) h
    ∙ read-decimal_from (n + 1) n (omega arith)

-- Two sequences of one run have different ids.
pub task_id_for-injective :
    (run_id : String) (m n : ℕ) → task_id_for run_id m ≡ task_id_for run_id n → m ≡ n
unfolding task_id_for
task_id_for-injective run_id m n h = decimal-injective m n (
    append_cancel_left "-" (decimal m) (decimal n) (
      append_cancel_left run_id ("-" ++ decimal m) ("-" ++ decimal n)
        (append_cancel_left "TASK-" (run_id ++ "-" ++ decimal m) (run_id ++ "-" ++ decimal n) h)))
