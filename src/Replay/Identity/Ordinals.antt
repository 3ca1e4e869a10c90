-- ===== src/Replay/Identity/Ordinals.antt =====
-- IdentityResolver of replay/identity.py over one drive: the n-th call of a task has the ordinal n.
use satay_runtime.Prelude.{
  ℕ, ◌+◌, ◌≤◌, String, ◌≡◌, ◌≢◌, refl, ap, ap₂, ◌∙◌, List, [], ◌∷◌, arith, All, All-map, Distinct,
  ◌==◌, string_eq, str_eq_iff, if◌then◌else◌,
}
use satay_runtime.Prelude.Dict
use satay_runtime.Prelude.Dict.{get-put}
use satay_runtime.Prelude.Int.{pos}
use satay_runtime.Replay.Identity.{CallIdentity, ordinal_identity, Resolver, counter, next}

-- The identities that a sequence of calls is given.
unfoldable pub issue : Resolver → List String → List CallIdentity
issue r [] = []
issue r (name ∷ names) = let (i, r') = next r name in i ∷ issue r' names

abbrev pub count : String → List String → ℕ
count name [] = 0
count name (n ∷ names) = (if n == name then 1 else 0) + count name names

-- The n-th call of a task is `(task, n)`, counted over the calls made `earlier`.
abbrev pub by_position : List String → List String → List CallIdentity
by_position earlier [] = []
by_position earlier (name ∷ names) =
    ordinal_identity name (count name earlier) ∷ by_position (name ∷ earlier) names

counter-next :
    (r : Resolver) (name j : String)
    → counter (next r name).1 j ≡ (if name == j then counter r name + 1 else counter r j)
unfolding next
counter-next r name j = ground (arith, get-put r name j (counter r name + 1))

issue-by_position :
    (r : Resolver) (earlier names : List String)
    → ((j : String) → counter r j ≡ count j earlier)
    → issue r names ≡ by_position earlier names
unfolding issue
issue-by_position r earlier [] h = refl
issue-by_position r earlier (name ∷ names) h =
    ap₂ (λ (i : CallIdentity) (is : List CallIdentity). i ∷ is)
      (unfold next in ap (ordinal_identity name) (h name))
      (issue-by_position (next r name).1 (name ∷ earlier) names
        (λ j. ground (arith, counter-next r name j, h name, h j, str_eq_iff name j)))

-- A fresh resolver gives each call the number of earlier calls of the same task.
pub issue_lem : (names : List String) → issue [] names ≡ by_position [] names
issue_lem names = issue-by_position [] [] names (unfold Dict.get in λ j. refl)

-- An ordinal identity that no resolver at `r` has given out yet.
abbrev IsFresh : Resolver → CallIdentity → Type 0
IsFresh r i = (n : ℕ) × (i ≡ ordinal_identity i.task_name n) × (counter r i.task_name ≤ n)

issue-IsFresh : (r : Resolver) (names : List String) → All (IsFresh r) (issue r names)
unfolding issue
issue-IsFresh r [] = tt
issue-IsFresh r (name ∷ names) = (
  unfold next in (counter r name, refl, omega arith),
  All-map
      (λ i f. (
        f.0,
        f.1,
        ground (arith, counter-next r name i.task_name, str_eq_iff name i.task_name, f.2),
      ))
      (issue (next r name).1 names) (issue-IsFresh (next r name).1 names),
)

head_is_new :
    (r : Resolver) (name : String) (i : CallIdentity)
    → IsFresh (next r name).1 i
    → (next r name).0 ≢ i
head_is_new r name i f e =
    let same : ordinal_identity name (counter r name) ≡ i = unfold next in e in
    let named : name ≡ i.task_name = ap (λ (c : CallIdentity). c.task_name) same in
    let number : pos (counter r name) ≡ pos f.0 =
      ap (λ (c : CallIdentity). c.ordinal) (same ∙ f.1) in
    ground (arith, counter-next r name i.task_name, str_eq_iff name i.task_name)

-- The identities that a resolver issues one after the other are distinct.
pub issue-Distinct : (r : Resolver) (names : List String) → Distinct (issue r names)
unfolding issue
issue-Distinct r [] = tt
issue-Distinct r (name ∷ names) = (
  All-map (head_is_new r name) (issue (next r name).1 names) (issue-IsFresh (next r name).1 names),
  issue-Distinct (next r name).1 names,
)
