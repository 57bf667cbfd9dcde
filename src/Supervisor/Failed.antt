-- ===== src/Supervisor/Failed.antt =====
-- A crash loop ends: in FAILED nothing but reset changes the supervisor.
use face_identify.Prelude.{◌≡◌, ◌≢◌, refl, ap, ◌∙◌, inl, inr, true, none, List, [], ◌∷◌, All}
use face_identify.Supervisor.{
  WorkerState, failed, WorkerState-discrete, state_is, World, MlSupervisor, capability_failed,
  ensure_ready, execute_with, execute, start, stop, stop_with, release_with, release_output,
  ping_with, ping, Call, starts, executes, releases, pings, stops, resets, step, run,
}
use face_identify.Supervisor.Soundness.{IsSound}

is_failed : (s : MlSupervisor) → s.state ≡ failed → state_is s.state failed ≡ true
unfolding WorkerState-discrete
is_failed s r = ap (λ (t : WorkerState). state_is t failed) r

no_worker : (s : MlSupervisor) → IsSound s → s.state ≡ failed → s.worker ≡ none
no_worker s v f = elim v.1.1.0 [ inl (n, r) ↦ n | inr (w, o, r) ↦ absurd (cc) ]

ensure_ready-failed :
    {R : Type 0} (e : World R) (s : MlSupervisor)
    → s.state ≡ failed
    → ensure_ready e s ≡ (s, capability_failed)
unfolding ensure_ready
ensure_ready-failed e s f = rw (is_failed s f) refl

stop-failed :
    {R : Type 0} (e : World R) (s : MlSupervisor) → IsSound s → s.state ≡ failed → stop e s ≡ s
unfolding stop
stop-failed e s v f = ap (stop_with e s) (no_worker s v f) ∙ (rw (is_failed s f) refl)

step-failed :
    {R : Type 0} (s : MlSupervisor) (c : Call) (e : World R)
    → IsSound s
    → s.state ≡ failed
    → c ≢ resets
    → step s (c, e) ≡ s
unfolding step start execute release_output ping
step-failed s starts e v f n = ap (λ r. r.0) (ensure_ready-failed e s f)
step-failed s executes e v f n = ap (λ r. (execute_with e r).0) (ensure_ready-failed e s f)
step-failed s releases e v f n = ap (release_with e s) (no_worker s v f)
step-failed s pings e v f n = ap (λ o. (ping_with e s o).0) (no_worker s v f)
step-failed s stops e v f n = stop-failed e s v f
step-failed s resets e v f n = absurd (n refl)

-- In FAILED, from a sound state, calls leave the supervisor exactly as it is until one is reset: no
-- worker is launched or killed, however long they go on, and execute raises MLUnavailableError.
pub run-failed :
    {R : Type 0} (s : MlSupervisor) (cs : List (Call × World R)) (e : World R)
    → IsSound s
    → s.state ≡ failed
    → All (λ c. c.0 ≢ resets) cs
    → (run s cs ≡ s) × ((execute e (run s cs)).1 ≡ capability_failed)
unfolding run execute
run-failed s [] e v f n = (refl, ap (λ r. (execute_with e r).1) (ensure_ready-failed e s f))
run-failed s ((c, d) ∷ cs) e v f n = rw (step-failed s c d v f n.0) (run-failed s cs e v f n.1)
