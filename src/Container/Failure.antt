-- ===== src/Container/Failure.antt =====
-- nameko/containers.py, ServiceContainer: an unexpected error in a thread, and a `stop` that nothing
-- disturbs, seen to the end.
use nameko_zh_cn.Base.{
  nat_eq, discard, ℕ, ◌≡◌, refl, ap, Bool, true, false, Option, none, some, [], ◌∷◌,
}
use nameko_zh_cn.Exceptions.{Exc}
use nameko_zh_cn.Lifecycle.{failed}
use nameko_zh_cn.Eventlet.{EventApi}
use nameko_zh_cn.Container.{
  Container, Killing, Stopping, stopping, killing, returned, stop, is_empty, kill, die, System,
  call_stop, worker_exited, run_greenlet, run,
}

module _ (api : EventApi (Option Exc)) where
  open api use {ready, outcome, send_once}

  kill_begins :
      (e : Option Exc) (c : Container api)
      → c.being_killed ≡ false
      → ready c.died ≡ false
      → kill api e c ≡ (killing Killing.entrypoints e, record c { being_killed = true })
  unfolding kill
  kill_begins e c k d = simp (k, d)

  die_alive :
      (r : Option Exc) (c : Container api) (e' : api.Event)
      → ready c.died ≡ false
      → api.send c.died r ≡ some e'
      → die api r c ≡ (returned, record c { started = false; died = e' })
  unfolding die
  die_alive r c e' d sent = rw (d, sent)

  stop_begins :
      (c : Container api)
      → c.being_killed ≡ false
      → ready c.died ≡ false
      → stop api c ≡ (stopping Stopping.entrypoints, c)
  unfolding stop
  stop_begins c k d = simp (k, d)

  -- A worker whose thread exits with an exception kills its container, in that thread: with no other
  -- greenlet about, five turns later the container is dead, `wait` raises the exception, and
  -- `kill` has returned, whatever the extensions raise when they are killed.
  pub failed_worker_kills :
      (s : System api) (ctx : ℕ) (e : Exc) (a b c d f : Bool)
      → ready s.container.died ≡ false
      → s.container.being_killed ≡ false
      → s.greenlets ≡ []
      → let t =
          run api
            (worker_exited ctx (failed e)
              ∷ run_greenlet 0 a
              ∷ run_greenlet 0 b
              ∷ run_greenlet 0 c
              ∷ run_greenlet 0 d
              ∷ run_greenlet 0 f
              ∷ [])
            s in
        (outcome t.container.died ≡ some (some e))
        × (t.container.started ≡ false)
        × (t.greenlets ≡ returned ∷ [])
  unfolding run
  failed_worker_kills s ctx e a b c d f alive free nobody =
      let (e', sent, out) = send_once s.container.died (some e) alive in
      let c = record s.container { worker_threads = discard ctx s.container.worker_threads } in
      rw (nobody, run)
        (rw (kill_begins (some e) c free alive) (
          rw (die_alive (some e) (record c { being_killed = true }) e' alive sent)
            (out, refl, refl)))

  -- `stop` on a live container that no worker runs in and whose extensions stop without raising,
  -- with no other greenlet about: six turns later `wait` returns and so has `stop`.
  pub stop_completes :
      (s : System api) (a c f : Bool)
      → ready s.container.died ≡ false
      → s.container.being_killed ≡ false
      → s.container.worker_threads ≡ []
      → s.greenlets ≡ []
      → let t =
          run api
            (call_stop
              ∷ run_greenlet 0 a
              ∷ run_greenlet 0 false
              ∷ run_greenlet 0 c
              ∷ run_greenlet 0 false
              ∷ run_greenlet 0 false
              ∷ run_greenlet 0 f
              ∷ [])
            s in
        (outcome t.container.died ≡ some none)
        × (t.container.started ≡ false)
        × (t.greenlets ≡ returned ∷ [])
  unfolding run
  stop_completes s a c f alive free idle nobody =
      let (e', sent, out) = send_once s.container.died none alive in
      rw (nobody, run)
        (rw (stop_begins s.container free alive)
          (rw (ap is_empty idle) (rw (die_alive none s.container e' alive sent) (out, refl, refl))))
