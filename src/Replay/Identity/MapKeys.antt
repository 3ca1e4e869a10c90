-- ===== src/Replay/Identity/MapKeys.antt =====
-- `resolve_map_keys` of replay/identity.py accepts exactly the maps whose items have distinct,
-- non-empty text keys.
use satay_runtime.Prelude.{
  String, ◌≡◌, ◌≢◌, ◌↔◌, refl, ap, false, some, List, [], ◌∷◌, map, arith, All, All-map, Distinct,
  Bool-cases, inl, inr, ◌==◌, ==_ne, string_eq, str_eq_iff,
}
use satay_runtime.Prelude.Dict.{member}
use satay_runtime.Value.{Value, null, str}
use satay_runtime.Errors.{ok, ◌>>=◌, >>=-eq-ok}
use satay_runtime.Replay.Identity.{resolve_from, resolve_map_keys}

-- The pairs are the items in their order, each with its own non-empty key, and no key twice.
pub record AreKeyed (key_fn : Value → Value) (items : List Value) (pairs : List (Value × String))
    : Type 0 where
  pub items_kept : map (λ p. p.0) pairs ≡ items
  pub keys_given : All (λ p. (key_fn p.0 ≡ str p.1) × (p.1 ≢ "")) pairs
  pub keys_distinct : Distinct (map (λ p. p.1) pairs)

abbrev AreUnseen : List String → List (Value × String) → Type 0
AreUnseen seen pairs = All (λ p. member seen p.1 ≡ false) pairs

step-ok :
    (key_fn : Value → Value) (seen : List String) (item : Value) (items : List Value) (k : String)
    → key_fn item ≡ str k
    → k ≢ ""
    → member seen k ≡ false
    → resolve_from key_fn seen (item ∷ items)
      ≡ (resolve_from key_fn (k ∷ seen) items >>= λ rest. ok ((item, k) ∷ rest))
unfolding resolve_from
step-ok key_fn seen item items k named filled unseen =
    rw (named, resolve_from, ==_ne k "" filled, unseen)

-- What a first item that is accepted looks like.
record Accepted (key_fn : Value → Value) (seen : List String) (item : Value) (items : List Value)
    (pairs : List (Value × String)) : Type 0 where
  key : String
  named : key_fn item ≡ str key
  filled : key ≢ ""
  unseen : member seen key ≡ false
  rest : List (Value × String)
  resolved : resolve_from key_fn (key ∷ seen) items ≡ ok rest
  shape : pairs ≡ (item, key) ∷ rest

accept :
    (key_fn : Value → Value) (seen : List String) (item : Value) (items : List Value) (v : Value)
    (pairs : List (Value × String))
    → key_fn item ≡ v
    → resolve_from key_fn seen (item ∷ items) ≡ ok pairs
    → Accepted key_fn seen item items pairs
unfolding resolve_from
accept key_fn seen item items null pairs e h = let h' = rw (e, resolve_from) at h in cc
accept key_fn seen item items (str k) pairs e h =
    let h' = rw (e, resolve_from) at h in
    elim (Bool-cases (k == "")) [
      | inl empty ↦ let h'' = rw empty at h' in cc
      | inr full ↦ elim (Bool-cases (member seen k)) [
        | inl old ↦ let h'' = rw (full, old) at h' in cc
        | inr new ↦
            let h'' = rw (full, new) at h' in
            let (rest, resolved, shape) = >>=-eq-ok (resolve_from key_fn (k ∷ seen) items) _ h'' in
            record {
              key = k;
              named = e;
              filled = λ q. ground (arith, str_eq_iff k "");
              unseen = new;
              rest = rest;
              resolved = resolved;
              shape = cc;
            }
      ]
    ]
accept key_fn seen item items _ pairs e h = let h' = rw (e, resolve_from) at h in cc

-- A key that is not in `k ∷ seen` is not in `seen`, and is not k.
unseen_rest :
    (seen : List String) (k j : String)
    → member (k ∷ seen) j ≡ false
    → (k ≢ j) × (member seen j ≡ false)
unfolding member
unseen_rest seen k j h = (λ e. ground (arith, str_eq_iff k j), ground arith)

unseen_more :
    (seen : List String) (k j : String)
    → k ≢ j
    → member seen j ≡ false
    → member (k ∷ seen) j ≡ false
unfolding member
unseen_more seen k j n h = ground (arith, str_eq_iff k j)

All-keys :
    (P : String → Type 0) (pairs : List (Value × String))
    → All (λ p. P p.1) pairs ↔ All P (map (λ p. p.1) pairs)
All-keys P [] = (λ h. tt, λ h. tt)
All-keys P (p ∷ pairs) =
    (λ h. (h.0, (All-keys P pairs).0 h.1), λ h. (h.0, (All-keys P pairs).1 h.1))

sound :
    (key_fn : Value → Value) (seen : List String) (items : List Value)
    (pairs : List (Value × String))
    → resolve_from key_fn seen items ≡ ok pairs
    → AreKeyed key_fn items pairs × AreUnseen seen pairs
sound key_fn seen [] pairs h =
    let nothing : pairs ≡ [] = unfold resolve_from in cc in
    rw nothing (record { items_kept = refl; keys_given = tt; keys_distinct = tt }, tt)
sound key_fn seen (item ∷ items) pairs h =
    let a = accept key_fn seen item items (key_fn item) pairs refl h in
    let (keyed, unseen) = sound key_fn (a.key ∷ seen) items a.rest a.resolved in
    rw a.shape (
      record {
        items_kept = ap (λ (l : List Value). item ∷ l) keyed.items_kept;
        keys_given = ((a.named, a.filled), keyed.keys_given);
        keys_distinct = (
          (All-keys (λ j. a.key ≢ j) a.rest).0
              (All-map (λ p u. (unseen_rest seen a.key p.1 u).0) a.rest unseen),
          keyed.keys_distinct,
        );
      },
      (a.unseen, All-map (λ p u. (unseen_rest seen a.key p.1 u).1) a.rest unseen),
    )

All-both :
    (P Q : Value × String → Type 0) (pairs : List (Value × String))
    → All P pairs
    → All Q pairs
    → All (λ p. P p × Q p) pairs
All-both P Q [] h k = tt
All-both P Q (p ∷ pairs) h k = ((h.0, k.0), All-both P Q pairs h.1 k.1)

complete :
    (key_fn : Value → Value) (seen : List String) (pairs : List (Value × String))
    → All (λ p. (key_fn p.0 ≡ str p.1) × (p.1 ≢ "")) pairs
    → Distinct (map (λ p. p.1) pairs)
    → AreUnseen seen pairs
    → resolve_from key_fn seen (map (λ p. p.0) pairs) ≡ ok pairs
complete key_fn seen [] given distinct unseen = unfold resolve_from in refl
complete key_fn seen ((item, k) ∷ pairs) given distinct unseen =
    let later = All-both _ _ pairs ((All-keys (λ j. k ≢ j) pairs).1 distinct.0) unseen.1 in
    let ih =
      complete key_fn (k ∷ seen) pairs given.1 distinct.1
        (All-map (λ p u. unseen_more seen k p.1 u.0 u.1) pairs later) in
    rw (step-ok key_fn seen item (map (λ p. p.0) pairs) k given.0.0 given.0.1 unseen.0, ih)

all_unseen : (pairs : List (Value × String)) → AreUnseen [] pairs
unfolding member
all_unseen [] = tt
all_unseen (p ∷ pairs) = (refl, all_unseen pairs)

-- resolve_map_keys returns pairs exactly if they are the items in input order, each with its own
-- key, and these keys are non-empty texts and pairwise distinct.
pub resolve_map_keys_iff :
    (key_fn : Value → Value) (items : List Value) (pairs : List (Value × String))
    → (resolve_map_keys (some key_fn) items ≡ ok pairs) ↔ AreKeyed key_fn items pairs
unfolding resolve_map_keys
resolve_map_keys_iff key_fn items pairs = (
  λ h. (sound key_fn [] items pairs h).0,
  λ k.
      rw (← k.items_kept)
        (complete key_fn [] pairs k.keys_given k.keys_distinct (all_unseen pairs)),
)
