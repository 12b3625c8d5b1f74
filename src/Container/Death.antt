-- ===== src/Container/Death.antt =====
-- nameko/containers.py, ServiceContainer: whatever greenlets run `stop` and `kill`, in whatever
-- order they take turns, a container dies once.
use nameko_zh_cn.Base.{
  ℕ, ◌≡◌, refl, sym, ap, ◌∙◌, subst, Bool, true, false, Option, none, some, is_some, List, [], ◌∷◌,
  All, All-append, All-imp, get_elem?, arith,
}
use nameko_zh_cn.Exceptions.{Exc}
use nameko_zh_cn.Lifecycle.{Exit, finished, failed, exited}
use nameko_zh_cn.Eventlet.{EventApi}
use nameko_zh_cn.Container.{
  Container, Greenlet, turn, System, Action, call_start, call_stop, call_kill, spawn_worker,
  spawn_managed_thread, worker_exited, managed_exited, run_greenlet, spawn, handle_thread_exited,
  run_at, spawned, step, run,
}
use nameko_zh_cn.Container.Turns.{IsFair, IsFair-mono, All-set, All-get_elem?, IsOff, Turned-turn}

module _ (api : EventApi (Option Exc)) where
  open api use {Event, ready, send, outcome, ready-eq-outcome, send_once}

  -- Whether a call is one of `start`.
  abbrev pub starts : Action api → Bool
  starts call_start = true
  starts _ = false

  abbrev pub NoStart : List (Action api) → Type 0
  NoStart as_ = All (λ a. starts a ≡ false) as_

  module _ (quiet : Bool) where
    -- No greenlet has sent to the event a second time, and each that has returned from `stop` or `kill`
    -- left the container dead; which is not started, unless it may be started again.
    pub record IsSound (s : System api) : Type 0 where
      pub fair : All (IsFair (ready s.container.died)) s.greenlets
      pub off : IsOff api quiet s.container

    -- What no action undoes.
    record Grown (s t : System api) : Type 0 where
      dead : ready s.container.died ≡ true → t.container.died ≡ s.container.died
      killed : s.container.being_killed ≡ true → t.container.being_killed ≡ true

    Grown-refl : (s : System api) → Grown s s
    Grown-refl s = record { dead = λ _. refl; killed = λ k. k }

    IsSound-run_at :
        (i : ℕ) (fails : Bool) (g : Option Greenlet) (s : System api)
        → get_elem? s.greenlets i ≡ g
        → IsSound s
        → IsSound (run_at api i fails g s) × Grown s (run_at api i fails g s)
    unfolding run_at
    IsSound-run_at i fails none s e h = (h, record { dead = λ _. refl; killed = λ k. k })
    IsSound-run_at i fails (some g) s e h =
        let c = s.container in
        let t = Turned-turn api quiet fails g c (All-get_elem? _ s.greenlets i h.fair e) h.off in
        let alive = (turn api fails g c).1 in
        let mono = λ (d : ready c.died ≡ true). ap ready (t.dead d) ∙ d in
        (
          record {
            fair =
                All-set _ s.greenlets i _
                  (All-imp s.greenlets (λ g'. IsFair-mono g' (ready c.died) (ready alive.died) mono)
                    h.fair)
                  t.fair;
            off = t.off;
          },
          record { dead = t.dead; killed = t.killed },
        )

    IsFair-thread_exited :
        (dead : Bool) (e : Exit) (gs : List Greenlet)
        → All (IsFair dead) gs
        → All (IsFair dead) (handle_thread_exited api e gs)
    unfolding handle_thread_exited
    IsFair-thread_exited dead finished gs h = h
    IsFair-thread_exited dead exited gs h = h
    IsFair-thread_exited dead (failed e) gs h = All-append _ gs _ h (tt, tt)

    spawned_container :
        (ctx : ℕ) (c c' : Container api)
        → spawn api ctx c ≡ some c'
        → (c'.started ≡ c.started) × (c'.died ≡ c.died) × (c'.being_killed ≡ c.being_killed)
    unfolding spawn
    spawned_container ctx c c' e = ground arith

    IsSound-spawned :
        (ctx : ℕ) (o : Option (Container api)) (s : System api)
        → spawn api ctx s.container ≡ o
        → IsSound s
        → IsSound (spawned api o s) × Grown s (spawned api o s)
    unfolding spawned
    IsSound-spawned ctx none s e h = (h, Grown-refl s)
    IsSound-spawned ctx (some c) s e h =
        let (started, died, killed) = spawned_container ctx s.container c e in
        (
          record {
            fair = subst (λ d. All (IsFair (ready d)) s.greenlets) (sym died) h.fair;
            off = λ q d. started ∙ h.off q (ap ready (sym died) ∙ d);
          },
          record { dead = λ _. died; killed = λ k. killed ∙ k },
        )

    -- Where it must not be started again, no action starts it.
    abbrev Allowed : Action api → Type 0
    Allowed a = quiet ≡ true → starts a ≡ false

    IsSound-step :
        (a : Action api) (s : System api)
        → Allowed a
        → IsSound s
        → IsSound (step api a s) × Grown s (step api a s)
    unfolding step
    IsSound-step call_start s q h = (
      record { fair = h.fair; off = λ k. absurd (cc (q k)) },
      record { dead = λ _. refl; killed = λ k. k },
    )
    IsSound-step call_stop s q h = (
      record { fair = All-append _ s.greenlets _ h.fair (tt, tt); off = h.off },
      record { dead = λ _. refl; killed = λ k. k },
    )
    IsSound-step (call_kill e) s q h = (
      record { fair = All-append _ s.greenlets _ h.fair (tt, tt); off = h.off },
      record { dead = λ _. refl; killed = λ k. k },
    )
    IsSound-step (spawn_worker ctx) s q h = IsSound-spawned ctx (spawn api ctx s.container) s refl h
    IsSound-step (spawn_managed_thread gt) s q h =
        (record { fair = h.fair; off = h.off }, record { dead = λ _. refl; killed = λ k. k })
    IsSound-step (worker_exited ctx e) s q h = (
      record {
        fair = IsFair-thread_exited (ready s.container.died) e s.greenlets h.fair;
        off = h.off;
      },
      record { dead = λ _. refl; killed = λ k. k },
    )
    IsSound-step (managed_exited gt e) s q h = (
      record {
        fair = IsFair-thread_exited (ready s.container.died) e s.greenlets h.fair;
        off = h.off;
      },
      record { dead = λ _. refl; killed = λ k. k },
    )
    IsSound-step (run_greenlet i fails) s q h =
        IsSound-run_at i fails (get_elem? s.greenlets i) s refl h

    IsSound-run :
        (as_ : List (Action api)) (s : System api)
        → All Allowed as_
        → IsSound s
        → IsSound (run api as_ s) × Grown s (run api as_ s)
    unfolding run
    IsSound-run [] s q h = (h, Grown-refl s)
    IsSound-run (a ∷ as_) s q h =
        let (h', g) = IsSound-step a s q.0 h in
        let (h'', g') = IsSound-run as_ (step api a s) q.1 h' in
        (
          h'',
          record {
            dead = λ d. g'.dead (ap ready (g.dead d) ∙ d) ∙ g.dead d;
            killed = λ k. g'.killed (g.killed k);
          },
        )

  -- A container that nothing has stopped yet, with threads or without.
  abbrev pub IsLive : System api → Type 0
  IsLive s = (ready s.container.died ≡ false) × (s.greenlets ≡ [])

  fresh : (quiet : Bool) (s : System api) → IsLive s → IsSound quiet s
  fresh quiet s (alive, nobody) = record { fair = subst (All _) (sym nobody) tt; off = λ _ d. cc }

  any-Allowed : (as_ : List (Action api)) → All (Allowed false) as_
  any-Allowed [] = tt
  any-Allowed (a ∷ as_) = ((λ k. cc), any-Allowed as_)

  none-Allowed : (as_ : List (Action api)) → NoStart as_ → All (Allowed true) as_
  none-Allowed [] h = tt
  none-Allowed (a ∷ as_) h = ((λ _. h.0), none-Allowed as_ h.1)

  -- From a container that has not died and that nothing is stopping, whatever is called, whatever
  -- exits and whoever takes turns: the event is never sent to twice; `stop` and `kill` return only
  -- from a container that is dead; and a dead container is not started, if `start` is not called.
  pub container_dies_once :
      (as_ : List (Action api)) (s : System api)
      → IsLive s
      → All (IsFair (ready (run api as_ s).container.died)) (run api as_ s).greenlets
        × (NoStart as_
            → ready (run api as_ s).container.died ≡ true
            → (run api as_ s).container.started ≡ false)
  container_dies_once as_ s (alive, nobody) =
      let any = IsSound-run false as_ s (any-Allowed as_) (fresh false s (alive, nobody)) in
      (
        any.0.fair,
        λ n.
            (IsSound-run true as_ s (none-Allowed as_ n) (fresh true s (alive, nobody))).0.off refl,
      )

  -- What `wait` gives once the container is dead, an exception or none, no later action changes.
  pub death_is_final :
      (as_ : List (Action api)) (s : System api) (r : Option Exc)
      → IsSound false s
      → outcome s.container.died ≡ some r
      → outcome (run api as_ s).container.died ≡ some r
  death_is_final as_ s r h o =
      let dead = ready-eq-outcome s.container.died ∙ ap is_some o in
      ap outcome ((IsSound-run false as_ s (any-Allowed as_) h).1.dead dead) ∙ o

  -- Once `kill` has begun, `spawn_worker` raises ContainerBeingKilled for ever.
  pub killed_spawns_nothing :
      (as_ : List (Action api)) (s : System api) (ctx : ℕ)
      → IsSound false s
      → s.container.being_killed ≡ true
      → spawn api ctx (run api as_ s).container ≡ none
  unfolding spawn
  killed_spawns_nothing as_ s ctx h k =
      rw ((IsSound-run false as_ s (any-Allowed as_) h).1.killed k)
