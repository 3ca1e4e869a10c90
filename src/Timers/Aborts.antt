-- ===== src/Timers/Aborts.antt =====
-- An exception while the worker applies its commands (timers/__init__.py and control/commands.py).
use satay_runtime.Prelude.{◌≡◌, refl, String, List, [], ◌∷◌, ◌++◌}
use satay_runtime.Errors.{Exn}
use satay_runtime.Replay.Machine.{Machine, Outcome, returned, raised, parked, ◌>>=◌, continue}
use satay_runtime.Api.Runner.{Process}
use satay_runtime.Control.Commands.{Command, drain}
use satay_runtime.Control.Apply.{apply_command, apply_commands}
use satay_runtime.Timers.Worker.{tick, work}

continue-eq-returned :
    {A B : Type 0} (o : Outcome A) (f : A → Machine → Outcome B × Machine) (n : Machine) {v : B}
    {k : Machine}
    → continue o f n ≡ (returned v, k)
    → (u : A) × (o ≡ returned u) × (f u n ≡ (returned v, k))
continue-eq-returned (returned u) f n h = (u, refl, h)
continue-eq-returned (raised e) f n h = absurd (cc h)
continue-eq-returned parked f n h = absurd (cc h)

apply_commands-stopped :
    (p : Process) (pre : List Command) (c : Command) (post : List Command) (m m1 m2 : Machine)
    (e : Exn)
    → apply_commands p pre m ≡ (returned tt, m1)
    → apply_command p c m1 ≡ (raised e, m2)
    → apply_commands p (pre ++ c ∷ post) m ≡ (raised e, m2)
unfolding apply_commands ◌>>=◌
apply_commands-stopped p [] c post m m1 m2 e before fails =
    let same : m ≡ m1 = cc in rw (same, fails) refl
apply_commands-stopped p (d ∷ pre) c post m m1 m2 e before fails =
    let (u, first, rest) =
      continue-eq-returned (apply_command p d m).0 (λ _. apply_commands p pre)
        (apply_command p d m).1 before in
    rw first (apply_commands-stopped p pre c post (apply_command p d m).1 m1 m2 e rest fails)

-- If a command raises, behind others that were applied, then the turn of the poll loop raises the
-- same: the commands behind it are neither applied nor left in the queue, and no event is delivered
-- and no timer fired.
pub tick-aborted :
    (p : Process) (arrange : List String → List String) (m m1 m2 : Machine)
    (pre post : List Command) (c : Command) (e : Exn)
    → apply_commands p pre m ≡ (returned tt, m1)
    → apply_command p c m1 ≡ (raised e, m2)
    → tick p arrange (record { queue = pre ++ c ∷ post; machine = m })
      ≡ (raised e, record { queue = []; machine = m2 })
unfolding tick work drain ◌>>=◌
tick-aborted p arrange m m1 m2 pre post c e before fails =
    rw (apply_commands-stopped p pre c post m m1 m2 e before fails) refl
