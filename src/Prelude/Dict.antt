-- ===== src/Prelude/Dict.antt =====
-- Python's `dict` and `set`, with keys that `==` compares. A dict is its items in insertion order:
-- writing a present key replaces its value in place.
use satay_runtime.Prelude.{
  ◌≡◌, refl, Bool, false, ◌||◌, Option, none, some, List, [], ◌∷◌, ◌++◌, arith, Eq, ◌==◌, ==_refl,
  if◌then◌else◌,
}

abbrev pub Dict {ℓ κ} : Type ℓ → Type κ → Type (ℓ ⊔ κ)
Dict K V = List (K × V)

module _ {ℓ κ} {K : Type ℓ} {V : Type κ} ⦃e : Eq K⦄ where
  -- d.get(k)
  unfoldable pub get : Dict K V → K → Option V
  get [] k = none
  get ((j, v) ∷ d) k = if j == k then some v else get d k

  -- d[k] = v
  unfoldable pub put : Dict K V → K → V → Dict K V
  put [] k v = (k, v) ∷ []
  put ((j, w) ∷ d) k v = if j == k then (j, v) ∷ d else (j, w) ∷ put d k v

  -- d.pop(k, None)
  unfoldable pub remove : Dict K V → K → Dict K V
  remove [] k = []
  remove ((j, w) ∷ d) k = let rest = remove d k in if j == k then rest else (j, w) ∷ rest

  pub get-put :
      (d : Dict K V) (k j : K) (v : V) → get (put d k v) j ≡ (if k == j then some v else get d j)
  unfolding get put
  get-put [] k j v = refl
  get-put ((i, w) ∷ d) k j v =
      ground (arith, e.decides k j, e.decides i k, e.decides i j, get-put d k j v)

  pub get-remove :
      (d : Dict K V) (k j : K) → get (remove d k) j ≡ (if k == j then none else get d j)
  unfolding get remove
  get-remove [] k j = ground arith
  get-remove ((i, w) ∷ d) k j =
      ground (arith, e.decides k j, e.decides i k, e.decides i j, get-remove d k j)

  pub get-put_self : (d : Dict K V) (k : K) (v : V) → get (put d k v) k ≡ some v
  get-put_self d k v = simp (get-put, ==_refl)

module _ {ℓ} {K : Type ℓ} ⦃e : Eq K⦄ where
  -- k in s
  unfoldable pub member : List K → K → Bool
  member [] k = false
  member (j ∷ s) k = j == k || member s k

  -- s.add(k)
  unfoldable pub add : List K → K → List K
  unfolding member
  add s k = if member s k then s else s ++ k ∷ []

  member-snoc : (s : List K) (k j : K) → member (s ++ k ∷ []) j ≡ (k == j || member s j)
  unfolding member
  member-snoc [] k j = refl
  member-snoc (i ∷ s) k j = ground (arith, member-snoc s k j)

  pub member-add : (s : List K) (k j : K) → member (add s k) j ≡ (k == j || member s j)
  unfolding add
  member-add s k j = ground (arith, member-snoc s k j, e.decides k j)

pub ruleset dict_laws = (get-put, get-remove, member-add)
