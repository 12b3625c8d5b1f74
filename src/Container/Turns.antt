-- ===== src/Container/Turns.antt =====
-- nameko/containers.py, ServiceContainer: what one turn of a greenlet does to the container.
use nameko_zh_cn.Base.{
  ℕ, zero, suc, ◌≡◌, refl, ap, ◌∙◌, subst, Bool, true, false, Option, none, some, is_some, inl, inr,
  List, [], ◌∷◌, All, set, get_elem?, Bool-cases, if◌then◌else◌,
}
use mathlib.Core.Option.{some-injective}
use nameko_zh_cn.Exceptions.{Exc}
use nameko_zh_cn.Eventlet.{EventApi}
use nameko_zh_cn.Container.{
  Container, Stopping, dependencies, subextensions, Killing, extensions, Greenlet, stop_called,
  stop_waiting, stopping, kill_called, kill_waiting, killing, returned, raised, assertion_error,
  send_death, die, stop_from, stop, kill_from, kill, turn, is_empty,
}

-- What a greenlet's place says of the event: `returned` only when it was sent to.
abbrev pub IsFair : Bool → Greenlet → Type 0
IsFair dead returned = dead ≡ true
IsFair dead assertion_error = ⊥
IsFair dead _ = Unit

pub IsFair-mono :
    (g : Greenlet) (dead dead' : Bool)
    → (dead ≡ true → dead' ≡ true)
    → IsFair dead g
    → IsFair dead' g
IsFair-mono returned dead dead' m f = m f
IsFair-mono stop_called dead dead' m f = tt
IsFair-mono stop_waiting dead dead' m f = tt
IsFair-mono (stopping at) dead dead' m f = tt
IsFair-mono (kill_called e) dead dead' m f = tt
IsFair-mono kill_waiting dead dead' m f = tt
IsFair-mono (killing at e) dead dead' m f = tt
IsFair-mono raised dead dead' m f = tt
IsFair-mono assertion_error dead dead' m f = absurd f

pub All-set {ℓ κ} :
    {A : Type ℓ} (P : A → Type κ) (xs : List A) (i : ℕ) (a : A)
    → All P xs
    → P a
    → All P (set xs i a)
All-set P [] i a h p = tt
All-set P (x ∷ xs) zero a h p = (p, h.1)
All-set P (x ∷ xs) (suc i) a h p = (h.0, All-set P xs i a h.1 p)

pub All-get_elem? {ℓ κ} :
    {A : Type ℓ} (P : A → Type κ) (xs : List A) (i : ℕ) {a : A}
    → All P xs
    → get_elem? xs i ≡ some a
    → P a
All-get_elem? P [] i h e = cc
All-get_elem? P (x ∷ xs) zero h e = subst P (some-injective _ _ e) h.0
All-get_elem? P (x ∷ xs) (suc i) h e = All-get_elem? P xs i h.1 e

module _ (api : EventApi (Option Exc)) where
  open api use {Event, ready, send, outcome, ready-eq-outcome, send_once}

  -- Unless the container may be started again, a dead one is not started.
  abbrev pub IsOff : Bool → Container api → Type 0
  IsOff quiet c = quiet ≡ true → ready c.died ≡ true → c.started ≡ false

  module _ (quiet : Bool) where
    -- A turn that leads from `c` to `o`.
    pub record Turned (c : Container api) (o : Greenlet × Container api) : Type 0 where
      pub fair : IsFair (ready (o.1).died) o.0
      pub off : IsOff quiet o.1
      pub dead : ready c.died ≡ true → (o.1).died ≡ c.died
      pub killed : c.being_killed ≡ true → (o.1).being_killed ≡ true

    Turned-send_death :
        (result : Option Exc) (c : Container api)
        → c.started ≡ false
        → Turned c (send_death api result c)
    unfolding send_death
    Turned-send_death result c h = elim (Bool-cases (ready c.died)) [
      | inl yes_ ↦
          rw yes_ (record { fair = yes_; off = λ _ _. h; dead = λ _. refl; killed = λ k. k })
      | inr no_ ↦
          let (e, sent, out) = send_once c.died result no_ in
          rw (no_, sent)
            (record {
              fair = ready-eq-outcome e ∙ ap is_some out;
              off = λ _ _. h;
              dead = λ d. cc;
              killed = λ k. k;
            })
    ]

    Turned-same :
        (g : Greenlet) (c : Container api)
        → IsFair (ready c.died) g
        → IsOff quiet c
        → Turned c (g, c)
    Turned-same g c f o = record { fair = f; off = o; dead = λ _. refl; killed = λ k. k }

    Turned-die : (result : Option Exc) (c : Container api) → Turned c (die api result c)
    unfolding die
    Turned-die result c =
        let t = Turned-send_death result (record c { started = false }) refl in
        record { fair = t.fair; off = t.off; dead = t.dead; killed = t.killed }

    Turned-stop : (c : Container api) → IsOff quiet c → Turned c (stop api c)
    unfolding stop
    Turned-stop c o = elim (Bool-cases (ready c.died)) [
      | inl dead ↦ rw dead (Turned-same returned c dead o)
      | inr alive ↦ elim (Bool-cases c.being_killed) [
        | inl k ↦ simp (alive, k) (Turned-same stop_waiting c tt o)
        | inr k ↦ simp (alive, k) (Turned-same (stopping Stopping.entrypoints) c tt o)
      ]
    ]

    Turned-kill : (e : Option Exc) (c : Container api) → IsOff quiet c → Turned c (kill api e c)
    unfolding kill
    Turned-kill e c o = elim (Bool-cases c.being_killed) [
      | inl k ↦ simp k (Turned-same kill_waiting c tt o)
      | inr k ↦ elim (Bool-cases (ready c.died)) [
        | inl dead ↦
            simp (k, dead) (record { fair = dead; off = o; dead = λ _. refl; killed = λ _. refl })
        | inr alive ↦
            simp (k, alive) (record { fair = tt; off = o; dead = λ _. refl; killed = λ _. refl })
      ]
    ]

    IsFair-if :
        (b : Bool) (dead : Bool) (g h : Greenlet)
        → (b ≡ true → IsFair dead g)
        → IsFair dead h
        → IsFair dead (if b then g else h)
    IsFair-if true dead g h fg fh = fg refl
    IsFair-if false dead g h fg fh = fh

    Turned-stop_from :
        (fails : Bool) (at : Stopping) (c : Container api)
        → IsOff quiet c
        → Turned c (stop_from api fails at c)
    unfolding stop_from
    Turned-stop_from fails Stopping.entrypoints c o =
        Turned-same _ c
          (IsFair-if fails (ready c.died) raised (stopping Stopping.workers) (λ _. tt) tt) o
    Turned-stop_from fails Stopping.workers c o =
        Turned-same _ c
          (IsFair-if (is_empty c.worker_threads) (ready c.died) (stopping dependencies)
            (stopping Stopping.workers) (λ _. tt) tt)
          o
    Turned-stop_from fails dependencies c o =
        Turned-same _ c
          (IsFair-if fails (ready c.died) raised (stopping subextensions) (λ _. tt) tt) o
    Turned-stop_from fails subextensions c o =
        Turned-same _ c
          (IsFair-if fails (ready c.died) raised (stopping Stopping.managed) (λ _. tt) tt) o
    Turned-stop_from fails Stopping.managed c o = Turned-die none c

    Turned-kill_from :
        (fails : Bool) (at : Killing) (e : Option Exc) (c : Container api)
        → IsOff quiet c
        → Turned c (kill_from api fails at e c)
    unfolding kill_from
    Turned-kill_from fails Killing.entrypoints e c o = Turned-same _ c tt o
    Turned-kill_from fails Killing.workers e c o = Turned-same _ c tt o
    Turned-kill_from fails extensions e c o = Turned-same _ c tt o
    Turned-kill_from fails Killing.managed e c o = Turned-die e c

    pub Turned-turn :
        (fails : Bool) (g : Greenlet) (c : Container api)
        → IsFair (ready c.died) g
        → IsOff quiet c
        → Turned c (turn api fails g c)
    unfolding turn
    Turned-turn fails stop_called c f o = Turned-stop c o
    Turned-turn fails stop_waiting c f o =
        Turned-same _ c (IsFair-if (ready c.died) (ready c.died) returned stop_waiting (λ d. d) tt)
          o
    Turned-turn fails (stopping at) c f o = Turned-stop_from fails at c o
    Turned-turn fails (kill_called e) c f o = Turned-kill e c o
    Turned-turn fails kill_waiting c f o =
        Turned-same _ c (IsFair-if (ready c.died) (ready c.died) returned kill_waiting (λ d. d) tt)
          o
    Turned-turn fails (killing at e) c f o = Turned-kill_from fails at e c o
    Turned-turn fails returned c f o = Turned-same returned c f o
    Turned-turn fails raised c f o = Turned-same raised c tt o
    Turned-turn fails assertion_error c f o = absurd f
