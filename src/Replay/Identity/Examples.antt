-- ===== src/Replay/Identity/Examples.antt =====
-- Identities and keys of replay/identity.py at concrete names.
use satay_runtime.Prelude.{◌≡◌, ◌≢◌, ◌↔◌, refl, String, some, [], ◌∷◌, arith}
use satay_runtime.Prelude.Text.{Lacks, str_nat}
use satay_runtime.Prelude.Dict
use satay_runtime.Prelude.Int.{pos}
use satay_runtime.Value.{str}
use satay_runtime.Errors.{ok, raise, value_error}
use satay_runtime.Replay.Identity.{
  ordinal, ordinal_identity, keyed_identity, key_component, key_sep, idempotency_key,
  resolve_map_keys, str_component,
}
use satay_runtime.Replay.Identity.MapKeys.{AreKeyed, resolve_map_keys_iff}
use satay_runtime.Replay.Identity.Digest.{
  pre_image-inj, idempotency_key-ordinal, idempotency_key-collides,
}

duplicate_keys :
    resolve_map_keys (some (λ v. v)) (str "a" ∷ str "b" ∷ str "a" ∷ [])
    ≡ raise (value_error "satay.map: duplicate item key")
unfolding resolve_map_keys Dict.member
duplicate_keys = refl

resolve_map_keys_iff_example :
    (resolve_map_keys (some (λ v. v)) (str "a" ∷ str "b" ∷ [])
      ≡ ok ((str "a", "a") ∷ (str "b", "b") ∷ []))
    ↔ AreKeyed (λ v. v) (str "a" ∷ str "b" ∷ []) ((str "a", "a") ∷ (str "b", "b") ∷ [])
resolve_map_keys_iff_example =
    resolve_map_keys_iff (λ v. v) (str "a" ∷ str "b" ∷ []) ((str "a", "a") ∷ (str "b", "b") ∷ [])

r-Lacks : Lacks key_sep "r"
r-Lacks = ((omega arith), tt)

t-Lacks : Lacks key_sep "t"
t-Lacks = ((omega arith), tt)

-- A hash without collisions.
abbrev same : String → String
same s = s

pre_image-inj_example :
    (◌≡◌ {A = String} "r" "r")
    × (◌≡◌ {A = String} "t" "t")
    × (str_component (ordinal (pos 2)) ≡ str_component (ordinal (pos 2)))
pre_image-inj_example =
    pre_image-inj "r" "r" "t" "t" (ordinal (pos 2)) (ordinal (pos 2)) r-Lacks r-Lacks t-Lacks
      t-Lacks refl

idempotency_key-ordinal_example :
    (◌≡◌ {A = String} "r" "r") × (ordinal_identity "t" 4 ≡ ordinal_identity "t" 4)
idempotency_key-ordinal_example =
    idempotency_key-ordinal same (λ s t e. e) "r" "r" "t" "t" 4 4 r-Lacks r-Lacks t-Lacks t-Lacks
      refl

idempotency_key-collides_example :
    (ordinal_identity "t" 0 ≢ keyed_identity "t" (str_nat 0))
    × (idempotency_key same "r" "t" (key_component (ordinal_identity "t" 0))
        ≡ idempotency_key same "r" "t" (key_component (keyed_identity "t" (str_nat 0))))
idempotency_key-collides_example = idempotency_key-collides same "r" "t" 0
