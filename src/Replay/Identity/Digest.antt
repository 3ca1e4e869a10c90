-- ===== src/Replay/Identity/Digest.antt =====
-- The idempotency key of a durable call (replay/identity.py): which calls share one.
use satay_runtime.Prelude.{ℕ, String, ◌≡◌, ◌≢◌, refl, arith}
use satay_runtime.Prelude.Text.{str_nat, str_nat-inj, Lacks, split_at_separator}
use satay_runtime.Prelude.Int.{pos, str_int}
use satay_runtime.Replay.Identity.{
  Component, map_key, ordinal_identity, keyed_identity, key_component, key_sep, pre_image,
  str_component, idempotency_key,
}

-- With run ids and task names free of NUL characters, the hashed text determines the run, the task and
-- the text of the ordinal or map key.
pub pre_image-inj :
    (run run' task task' : String) (c c' : Component)
    → Lacks key_sep run
    → Lacks key_sep run'
    → Lacks key_sep task
    → Lacks key_sep task'
    → pre_image run task c ≡ pre_image run' task' c'
    → (run ≡ run') × (task ≡ task') × (str_component c ≡ str_component c')
unfolding pre_image
pre_image-inj run run' task task' c c' h h' k k' e =
    let runs = split_at_separator key_sep run run' _ _ h h' e in
    let tasks = split_at_separator key_sep task task' _ _ k k' runs.1 in (runs.0, tasks.0, tasks.1)

module _ (digest : String → String)
    (collision_free : (s t : String) → digest s ≡ digest t → s ≡ t) where
  -- If the hash has no collisions and run ids and task names have no NUL character, two ordinary calls
  -- share an idempotency key only if they are the same call of the same run.
  pub idempotency_key-ordinal :
      (run run' task task' : String) (n n' : ℕ)
      → Lacks key_sep run
      → Lacks key_sep run'
      → Lacks key_sep task
      → Lacks key_sep task'
      → idempotency_key digest run task (key_component (ordinal_identity task n))
        ≡ idempotency_key digest run' task' (key_component (ordinal_identity task' n'))
      → (run ≡ run') × (ordinal_identity task n ≡ ordinal_identity task' n')
  unfolding idempotency_key str_int
  idempotency_key-ordinal run run' task task' n n' h h' k k' e =
      let parts =
        pre_image-inj run run' task task' (Component.ordinal (pos n)) (Component.ordinal (pos n')) h
          h' k k' (collision_free _ _ e) in
      (parts.0, cc (parts.1, str_nat-inj n n' parts.2))

  -- If the hash has no collisions and run ids and task names have no NUL character, two map items
  -- share an idempotency key only if run, task and map key are the same.
  pub idempotency_key-keyed :
      (run run' task task' key key' : String)
      → Lacks key_sep run
      → Lacks key_sep run'
      → Lacks key_sep task
      → Lacks key_sep task'
      → idempotency_key digest run task (key_component (keyed_identity task key))
        ≡ idempotency_key digest run' task' (key_component (keyed_identity task' key'))
      → (run ≡ run') × (keyed_identity task key ≡ keyed_identity task' key')
  unfolding idempotency_key
  idempotency_key-keyed run run' task task' key key' h h' k k' e =
      let parts =
        pre_image-inj run run' task task' (map_key key) (map_key key') h h' k k'
          (collision_free _ _ e) in
      (parts.0, cc (parts.1, parts.2))

-- Whatever the hash, the ordinary call n of a task and the map item of that task with the digits of
-- n as its key are different identities with one idempotency key.
pub idempotency_key-collides :
    (digest : String → String) (run task : String) (n : ℕ)
    → (ordinal_identity task n ≢ keyed_identity task (str_nat n))
      × (idempotency_key digest run task (key_component (ordinal_identity task n))
          ≡ idempotency_key digest run task (key_component (keyed_identity task (str_nat n))))
unfolding idempotency_key pre_image str_int
idempotency_key-collides digest run task n = (λ e. ground arith, refl)
