-- ===== src/Prelude/Int.antt =====
-- Python's `int`, over the native numbers.
use satay_runtime.Prelude.{
  ℕ, suc, ◌≡◌, ◌↔◌, Bool, true, false, String, arith, nat_eq, nat_eq_iff, ltb, Eq,
}
use satay_runtime.Prelude.Text.{◌<>◌, str_nat}

-- `negsuc n` is -(n + 1).
pub data ℤ : Type 0 where
  pos : ℕ → ℤ
  negsuc : ℕ → ℤ

abbrev pub int_beq : ℤ → ℤ → Bool
int_beq (pos m) (pos n) = nat_eq m n
int_beq (negsuc m) (negsuc n) = nat_eq m n
int_beq _ _ = false

pub int_beq_iff : (a b : ℤ) → (int_beq a b ≡ true) ↔ (a ≡ b)
int_beq_iff (pos m) (pos n) = ground (arith, nat_eq_iff m n)
int_beq_iff (negsuc m) (negsuc n) = ground (arith, nat_eq_iff m n)
int_beq_iff (pos m) (negsuc n) = ground arith
int_beq_iff (negsuc m) (pos n) = ground arith

instance abbrev pub int_eq : Eq ℤ
int_eq = record { test = int_beq; decides = int_beq_iff }

-- m < n
abbrev pub int_ltb : ℤ → ℤ → Bool
int_ltb (pos m) (pos n) = ltb m n
int_ltb (pos m) (negsuc n) = false
int_ltb (negsuc m) (pos n) = true
int_ltb (negsuc m) (negsuc n) = ltb n m

-- str(n)
unfoldable pub str_int : ℤ → String
str_int (pos n) = str_nat n
str_int (negsuc n) = "-" <> str_nat (suc n)
