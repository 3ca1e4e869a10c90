-- ===== src/Prelude/Text.antt =====
-- Texts: concatenation, Python's `str` of a number, and texts that a separator splits.
use Prim.Native.Char.{Char, code}
use Prim.Native.String.{◌++◌ as ◌<>◌}
use text.Mathlib.TextLemmas.{cons-append, nil-append, cons-eq-cons}
use satay_runtime.Prelude.{
  ℕ, zero, suc, ◌+◌, ◌-◌, ◌*◌, ◌/◌, ◌%◌, ◌<◌, String, ◌≡◌, ◌≢◌, refl, sym, ap, ◌∙◌, arith, ltb,
  Bool, true, false, ◌&&◌, ◌||◌, nat_eq, if◌then◌else◌,
}
pub use Prim.Native.String.{◌++◌ as ◌<>◌}

-- s.startswith(p)
unfoldable pub starts_with : String → String → Bool
starts_with s String.[] = true
starts_with String.[] (String.◌∷◌ c p) = false
starts_with (String.◌∷◌ b s) (String.◌∷◌ c p) = nat_eq (code b) (code c) && starts_with s p

-- p in s
unfoldable pub contains : String → String → Bool
unfolding starts_with
contains String.[] p = starts_with "" p
contains (String.◌∷◌ c s) p = let rest = contains s p in starts_with (String.◌∷◌ c s) p || rest

-- One decimal digit.
abbrev digit : ℕ → String
digit zero = "0"
digit (suc zero) = "1"
digit (suc (suc zero)) = "2"
digit (suc (suc (suc zero))) = "3"
digit (suc (suc (suc (suc zero)))) = "4"
digit (suc (suc (suc (suc (suc zero))))) = "5"
digit (suc (suc (suc (suc (suc (suc zero)))))) = "6"
digit (suc (suc (suc (suc (suc (suc (suc zero))))))) = "7"
digit (suc (suc (suc (suc (suc (suc (suc (suc zero)))))))) = "8"
digit _ = "9"

decimal : ℕ → ℕ → String
decimal zero n = ""
decimal (suc fuel) n =
    let high = decimal fuel (n / 10) in if ltb n 10 then digit n else high <> digit (n % 10)

-- str(n). A number has at most as many digits as itself plus one.
unfoldable pub str_nat : ℕ → String
unfolding decimal
str_nat n = decimal (suc n) n

-- The number that decimal digits spell, read from the left.
value_from : ℕ → String → ℕ
value_from acc String.[] = acc
value_from acc (String.◌∷◌ c s) = value_from (acc * 10 + (code c - 48)) s

value_from-append :
    (acc : ℕ) (s t : String) → value_from acc (s <> t) ≡ value_from (value_from acc s) t
unfolding value_from
value_from-append acc String.[] t = rw nil-append
value_from-append acc (String.◌∷◌ c s) t =
    rw cons-append (value_from-append (acc * 10 + (code c - 48)) s t)

value_from-digit : (acc n : ℕ) → n < 10 → value_from acc (digit n) ≡ acc * 10 + n
unfolding value_from
value_from-digit acc zero h = refl
value_from-digit acc (suc zero) h = refl
value_from-digit acc (suc (suc zero)) h = refl
value_from-digit acc (suc (suc (suc zero))) h = refl
value_from-digit acc (suc (suc (suc (suc zero)))) h = refl
value_from-digit acc (suc (suc (suc (suc (suc zero))))) h = refl
value_from-digit acc (suc (suc (suc (suc (suc (suc zero)))))) h = refl
value_from-digit acc (suc (suc (suc (suc (suc (suc (suc zero))))))) h = refl
value_from-digit acc (suc (suc (suc (suc (suc (suc (suc (suc zero)))))))) h = refl
value_from-digit acc (suc (suc (suc (suc (suc (suc (suc (suc (suc zero))))))))) h = refl
value_from-digit acc (suc (suc (suc (suc (suc (suc (suc (suc (suc (suc n)))))))))) h =
    absurd (omega arith)

value_from-decimal : (fuel n : ℕ) → n < fuel → value_from 0 (decimal fuel n) ≡ n
unfolding decimal
value_from-decimal zero n h = absurd (omega arith)
value_from-decimal (suc fuel) n h = ground (
  arith,
  value_from-digit 0 n,
  value_from-append 0 (decimal fuel (n / 10)) (digit (n % 10)),
  value_from-decimal fuel (n / 10),
  value_from-digit (n / 10) (n % 10),
)

pub str_nat-inj : (m n : ℕ) → str_nat m ≡ str_nat n → m ≡ n
unfolding str_nat
str_nat-inj m n e =
    sym (value_from-decimal (suc m) m (omega arith))
    ∙ ap (value_from 0) e
    ∙ value_from-decimal (suc n) n (omega arith)

-- No character of the text is `c`.
abbrev pub Lacks : Char → String → Type 0
Lacks c String.[] = Unit
Lacks c (String.◌∷◌ d s) = (code d ≢ code c) × Lacks c s

-- What stands before the first separator is determined, and so is what stands behind it.
pub split_at_separator :
    (c : Char) (s s' t t' : String)
    → Lacks c s
    → Lacks c s'
    → s <> (String.◌∷◌ c t) ≡ s' <> (String.◌∷◌ c t')
    → (s ≡ s') × (t ≡ t')
split_at_separator c String.[] String.[] t t' h h' e =
    (refl, (cons-eq-cons.0 (rw (nil-append (String.◌∷◌ c t), nil-append (String.◌∷◌ c t')) at e)).1)
split_at_separator c String.[] (String.◌∷◌ d s') t t' h h' e =
    let heads = cons-eq-cons.0 (rw (nil-append (String.◌∷◌ c t), cons-append d s') at e) in
    absurd (h'.0 (sym (ap code heads.0)))
split_at_separator c (String.◌∷◌ d s) String.[] t t' h h' e =
    let heads = cons-eq-cons.0 (rw (nil-append (String.◌∷◌ c t'), cons-append d s) at e) in
    absurd (h.0 (ap code heads.0))
split_at_separator c (String.◌∷◌ d s) (String.◌∷◌ d' s') t t' h h' e =
    let heads = cons-eq-cons.0 (rw (cons-append d s, cons-append d' s') at e) in
    let rest = split_at_separator c s s' t t' h.1 h'.1 heads.1 in
    (cons-eq-cons.1 (heads.0, rest.0), rest.1)
