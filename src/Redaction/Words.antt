-- ===== src/Redaction/Words.antt =====
-- What it means that a pattern matches a field name (Redactor.matches of redaction.py): the loop
-- over the slices of the words finds a contiguous run exactly where there is one.
use satay_runtime.Prelude.{
  ℕ, zero, suc, ◌+◌, ◌-◌, ◌≤◌, ◌<◌, String, ◌≡◌, ◌≢◌, ◌↔◌, inl, inr, refl, sym, ap, subst, ◌∙◌,
  Bool, true, ◌&&◌, List, [], ◌∷◌, ◌++◌, any, length, length-append, ltb, leb, nat_eq, nat_eq_iff,
  arith, Bool-cases,
}
use satay_runtime.Redaction.{
  Redactor, words, matches, has_run, any_from, take, drop, slice_is, word_eq, words_eq,
}

-- `p` stands in `ws` as it is.
abbrev pub IsRun : List (List ℕ) → List (List ℕ) → Type 0
IsRun ws p =
    (before : List (List ℕ)) × (after : List (List ℕ)) × (p ≢ []) × (ws ≡ before ++ (p ++ after))

take-drop : (m : ℕ) (l : List (List ℕ)) → take m l ++ drop m l ≡ l
take-drop zero l = refl
take-drop (suc m) [] = refl
take-drop (suc m) (w ∷ l) = ap (λ t. w ∷ t) (take-drop m l)

take-append : (p q : List (List ℕ)) → take (length p) (p ++ q) ≡ p
take-append [] q = refl
take-append (w ∷ p) q = ap (λ t. w ∷ t) (take-append p q)

drop-append : (p q : List (List ℕ)) → drop (length p) (p ++ q) ≡ q
drop-append [] q = refl
drop-append (w ∷ p) q = drop-append p q

word_eq_iff : (v w : List ℕ) → (word_eq v w ≡ true) ↔ (v ≡ w)
word_eq_iff [] [] = ground arith
word_eq_iff [] (b ∷ w) = ground arith
word_eq_iff (a ∷ v) [] = ground arith
word_eq_iff (a ∷ v) (b ∷ w) = ground (arith, nat_eq_iff a b, word_eq_iff v w)

words_eq_iff : (v w : List (List ℕ)) → (words_eq v w ≡ true) ↔ (v ≡ w)
words_eq_iff [] [] = ground arith
words_eq_iff [] (b ∷ w) = ground arith
words_eq_iff (a ∷ v) [] = ground arith
words_eq_iff (a ∷ v) (b ∷ w) = ground (arith, word_eq_iff a b, words_eq_iff v w)

any_from-found : (p : ℕ → Bool) (i n : ℕ) → any_from p i n ≡ true → (j : ℕ) × (p j ≡ true)
unfolding any_from
any_from-found p i zero h = cc
any_from-found p i (suc n) h = elim (Bool-cases (p i)) [
  | inl e ↦ (i, e)
  | inr e ↦ any_from-found p (suc i) n (ground arith)
]

any_from-covers :
    (p : ℕ → Bool) (i n j : ℕ) → i ≤ j → j < i + n → p j ≡ true → any_from p i n ≡ true
unfolding any_from
any_from-covers p i zero j a b h = absurd (omega arith)
any_from-covers p i (suc n) j a b h = elim (Bool-cases (nat_eq i j)) [
  | inl e ↦ let here : p i ≡ true = rw ((nat_eq_iff i j).0 e) h in ground arith
  | inr e ↦
      let later : any_from p (suc i) n ≡ true =
        any_from-covers p (suc i) n j (ground arith) (ground arith) h in
      ground arith
]

and_left : (a b : Bool) → (a && b) ≡ true → a ≡ true
and_left a b h = ground arith

and_right : (a b : Bool) → (a && b) ≡ true → b ≡ true
and_right a b h = ground arith

and_both : (a b : Bool) → a ≡ true → b ≡ true → (a && b) ≡ true
and_both a b h k = ground arith

nonempty : {A : Type 0} (p : List A) → ltb 0 (length p) ≡ true → p ≢ []
nonempty [] h e = cc
nonempty (x ∷ p) h e = cc

found : (ws p : List (List ℕ)) → has_run ws p ≡ true → IsRun ws p
unfolding has_run
found ws p h =
    let (j, e) = any_from-found (slice_is ws p) 0 (length ws - length p + 1) (and_right _ _ h) in
    (
      take j ws,
      drop (length p) (drop j ws),
      nonempty p (and_left _ _ (and_left _ _ h)),
      sym (take-drop j ws)
          ∙ ap (λ t. take j ws ++ t) (sym (take-drop (length p) (drop j ws)))
          ∙ ap (λ t. take j ws ++ (t ++ drop (length p) (drop j ws))) ((words_eq_iff _ _).0 e),
    )

some_word : (n : ℕ) → ltb 0 (suc n) ≡ true
some_word n = ground arith

fits : (n b m a : ℕ) → n ≡ b + (m + a) → leb m n ≡ true
fits n b m a h = ground arith

within : (n b m a : ℕ) → n ≡ b + (m + a) → b < 0 + (n - m + 1)
within n b m a h = omega arith

present_at : (p before after : List (List ℕ)) → p ≢ [] → has_run (before ++ (p ++ after)) p ≡ true
unfolding has_run
present_at [] before after h = absurd (h refl)
present_at (w ∷ p) before after h =
    let slice : slice_is (before ++ ((w ∷ p) ++ after)) (w ∷ p) (length before) ≡ true =
      (words_eq_iff _ (w ∷ p)).1 (
        ap (take (length (w ∷ p))) (drop-append before ((w ∷ p) ++ after))
        ∙ take-append (w ∷ p) after) in
    let sizes : length (before ++ ((w ∷ p) ++ after))
        ≡ length before + (suc (length p) + length after) =
      length-append before ((w ∷ p) ++ after)
      ∙ ap (λ n. length before + n) (length-append (w ∷ p) after) in
    and_both _ _
      (and_both _ _ (some_word (length p))
        (fits _ (length before) (length (w ∷ p)) (length after) sizes))
      (any_from-covers (slice_is (before ++ ((w ∷ p) ++ after)) (w ∷ p)) 0 _ (length before)
        (omega arith) (within _ (length before) (length (w ∷ p)) (length after) sizes) slice)

present : (ws p : List (List ℕ)) → IsRun ws p → has_run ws p ≡ true
present ws p (before, after, h, e) = rw e (present_at p before after h)

pub has_run_iff : (ws p : List (List ℕ)) → (has_run ws p ≡ true) ↔ IsRun ws p
has_run_iff ws p = (found ws p, present ws p)

-- What it takes for a field name to be sensitive.
abbrev pub IsSensitive : Redactor → String → Type 0
IsSensitive r k =
    (p : List (List ℕ)) × (earlier : List (List (List ℕ))) × (later : List (List (List ℕ)))
    × (r.patterns ≡ earlier ++ p ∷ later)
    × IsRun (words k) p

any-found :
    (ws : List (List ℕ)) (ps : List (List (List ℕ)))
    → any (λ p. has_run ws p) ps ≡ true
    → (p : List (List ℕ)) × (earlier : List (List (List ℕ))) × (later : List (List (List ℕ))) × (ps
        ≡ earlier ++ p ∷ later)
      × IsRun ws p
any-found ws [] h = cc
any-found ws (p ∷ ps) h = elim (Bool-cases (has_run ws p)) [
  | inl e ↦ (p, [], ps, refl, (has_run_iff ws p).0 e)
  | inr e ↦
      let (q, earlier, later, split, run) = any-found ws ps (ground arith) in
      (q, p ∷ earlier, later, ap (λ t. p ∷ t) split, run)
]

any-present :
    (ws p : List (List ℕ)) (earlier later : List (List (List ℕ)))
    → has_run ws p ≡ true
    → any (λ q. has_run ws q) (earlier ++ p ∷ later) ≡ true
any-present ws p [] later h = rw h
any-present ws p (q ∷ earlier) later h = ground (arith, any-present ws p earlier later h)

-- A field name matches exactly if the words of some pattern, of which there is at least one, stand
-- in the words of the name one behind the other.
pub matches_iff : (r : Redactor) (k : String) → (matches r k ≡ true) ↔ IsSensitive r k
unfolding matches
matches_iff r k = (
  any-found (words k) r.patterns,
  λ (p, earlier, later, split, run).
      subst (λ ps. any (λ q. has_run (words k) q) ps ≡ true) (sym split)
        (any-present (words k) p earlier later ((has_run_iff (words k) p).1 run)),
)
