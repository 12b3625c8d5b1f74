-- ===== src/Rpc/Consumer/Leaving.antt =====
-- nameko/rpc.py, RpcConsumer: when it leaves its queue consumer, as its providers ask to
-- leave.
use nameko_zh_cn.Base.{
  ℕ, suc, ◌≡◌, refl, sym, ap, ◌∙◌, subst, true, false, ◌&&◌, Option, some, is_some, List, [], ◌∷◌,
  ◌++◌, contains, add, discard, nat_eq, eqb, eqb_iff, if◌then◌else◌, Bool-cases, inl, inr, ◌⊎◌,
  arith,
}
use nameko_zh_cn.Eventlet.{EventApi}
use nameko_zh_cn.Providers.Collected.{IsCollecting, unregister_step}
use nameko_zh_cn.Rpc.Consumer.{
  QueueCall, register, unregister, Turn, asks, removed, wakes, all_in, RpcConsumer,
  send_unregistered, ask, leave, step, run,
}

-- How often the queue consumer is asked to cancel the consumer.
abbrev pub unregisters : List QueueCall → ℕ
unregisters [] = 0
unregisters (unregister ∷ calls) = suc (unregisters calls)
unregisters (register ∷ calls) = unregisters calls

-- The providers that have asked, after a turn, and after some.
abbrev pub asked : Turn → List ℕ → List ℕ
asked (asks p) ps = add p ps
asked (removed p) ps = ps
asked (wakes p) ps = ps

abbrev pub asked_all : List Turn → List ℕ → List ℕ
asked_all [] ps = ps
asked_all (t ∷ turns) ps = asked_all turns (asked t ps)

-- Only a registered provider asks, and it asks once.
abbrev pub AsksOnce : List ℕ → List ℕ → Turn → Type 0
AsksOnce qs ps (asks p) = (contains p qs ≡ true) × (contains p ps ≡ false)
AsksOnce qs ps (removed p) = Unit
AsksOnce qs ps (wakes p) = Unit

abbrev pub AllAskOnce : List ℕ → List ℕ → List Turn → Type 0
AllAskOnce qs ps [] = Unit
AllAskOnce qs ps (t ∷ turns) = AsksOnce qs ps t × AllAskOnce qs (asked t ps) turns

all_in-contains :
    (p : ℕ) (qs ps : List ℕ) → all_in qs ps ≡ true → contains p qs ≡ true → contains p ps ≡ true
unfolding all_in contains
all_in-contains p [] ps a c = cc
all_in-contains p (q ∷ qs) ps a c = elim (Bool-cases (eqb q p)) [
  | inl same ↦ let q≡ = (eqb_iff q p).0 same in ground (arith, ap (λ x. contains x ps) q≡)
  | inr other ↦ all_in-contains p qs ps (ground arith) (ground arith)
]

unregisters-append_one :
    (calls : List QueueCall) → unregisters (calls ++ unregister ∷ []) ≡ suc (unregisters calls)
unregisters-append_one [] = refl
unregisters-append_one (unregister ∷ calls) = ap suc (unregisters-append_one calls)
unregisters-append_one (register ∷ calls) = unregisters-append_one calls

module _ (api : EventApi (Unit {0})) where
  open api use {Event, ready, send, send_once, ready-eq-outcome, outcome}

  -- Before the last provider of `qs` has asked.
  record IsStaying (qs : List ℕ) (s : RpcConsumer api) : Type 0 where
    some_left : all_in qs s.unregistering ≡ false
    providers : s.collector.providers ≡ qs
    removing : s.removing ≡ []
    silent : ready s.unregistered ≡ false
    calls : unregisters s.queue_calls ≡ 0

  -- Once it has asked: its thread waits for the queue consumer, or the event was sent.
  record IsLeaving (qs : List ℕ) (s : RpcConsumer api) : Type 0 where
    none_left : all_in qs s.unregistering ≡ true
    sends :
        ((p : ℕ) × (s.removing ≡ p ∷ []) × (ready s.unregistered ≡ false))
        ⊎ ((s.removing ≡ []) × (ready s.unregistered ≡ true))
    calls : unregisters s.queue_calls ≡ 1

  record IsValid (qs : List ℕ) (s : RpcConsumer api) : Type 0 where
    collecting : IsCollecting api s.collector
    phase : IsStaying qs s ⊎ IsLeaving qs s

  -- What a turn makes of a valid consumer.
  abbrev Steps : List ℕ → Turn → RpcConsumer api → Option (RpcConsumer api) → Type 0
  Steps qs t s o =
      (s' : RpcConsumer api) × (o ≡ some s')
      × IsValid qs s'
      × (s'.unregistering ≡ asked t s.unregistering)

  ask_lem :
      (qs : List ℕ) (p : ℕ) (s : RpcConsumer api)
      → AsksOnce qs s.unregistering (asks p)
      → IsValid qs s
      → Steps qs (asks p) s (step api (asks p) s)
  unfolding step ask
  ask_lem qs p s (known, once) v = elim v.phase [
    | inr l ↦ absurd (cc (once, all_in-contains p qs s.unregistering l.none_left known))
    | inl l ↦
        let test = ap (λ x. all_in x (add p s.unregistering)) l.providers in
        elim (Bool-cases (all_in qs (add p s.unregistering))) [
          | inl last ↦
              rw (test ∙ last, ask)
                (
                  _,
                  refl,
                  record {
                    collecting = v.collecting;
                    phase = inr (record {
                      none_left = last;
                      sends = inl (p, ap (λ x. p ∷ x) l.removing, l.silent);
                      calls = unregisters-append_one s.queue_calls ∙ ap suc l.calls;
                    });
                  },
                  refl,
                )
          | inr more ↦
              rw (test ∙ more, ask)
                (
                  _,
                  refl,
                  record {
                    collecting = v.collecting;
                    phase = inl (record {
                      some_left = more;
                      providers = l.providers;
                      removing = l.removing;
                      silent = l.silent;
                      calls = l.calls;
                    });
                  },
                  refl,
                )
        ]
  ]

  -- A thread that leaves once the event was sent.
  leave_lem :
      (qs : List ℕ) (p : ℕ) (s : RpcConsumer api)
      → IsCollecting api s.collector
      → all_in qs s.unregistering ≡ true
      → s.removing ≡ []
      → ready s.unregistered ≡ true
      → unregisters s.queue_calls ≡ 1
      → (s' : RpcConsumer api) × (leave api p s ≡ some s')
        × IsValid qs s'
        × (s'.unregistering ≡ s.unregistering)
  unfolding leave
  leave_lem qs p s v none_left gone sent calls =
      let (c, made, collecting, rest) = unregister_step api p s.collector v in
      (
        record s { collector = c },
        simp made refl,
        record {
          collecting = collecting;
          phase = inr (record { none_left = none_left; sends = inr (gone, sent); calls = calls });
        },
        refl,
      )

  removed_lem :
      (qs : List ℕ) (p : ℕ) (s : RpcConsumer api)
      → IsValid qs s
      → Steps qs (removed p) s (step api (removed p) s)
  unfolding step send_unregistered contains discard
  removed_lem qs p s v = elim (Bool-cases (contains p s.removing)) [
    | inr absent ↦ rw (absent, step) (s, refl, v, refl)
    | inl here ↦ elim v.phase [
      | inl l ↦ cc (rw (l.removing) at here)
      | inr l ↦ elim l.sends [
        | inr (gone, sent) ↦ cc (rw gone at here)
        | inl (q, one, silent) ↦
            let (e, sent, out) = send_once s.unregistered tt silent in
            let same = ap (contains p) one in
            let left = record s { removing = discard p s.removing; unregistered = e } in
            let (s', made, v', kept) =
              leave_lem qs p left v.collecting l.none_left
                (ap (discard p) one ∙ ground (arith, same, here))
                (ready-eq-outcome e ∙ ap is_some out) l.calls in
            rw (here, step) (rw (sent, send_unregistered) (s', made, v', kept))
      ]
    ]
  ]

  wakes_lem :
      (qs : List ℕ) (p : ℕ) (s : RpcConsumer api)
      → IsValid qs s
      → Steps qs (wakes p) s (step api (wakes p) s)
  unfolding step
  wakes_lem qs p s v = elim (Bool-cases (contains p s.waiting && ready s.unregistered)) [
    | inr not_yet ↦ rw (not_yet, step) (s, refl, v, refl)
    | inl woken ↦
        let sent : ready s.unregistered ≡ true = ground arith in
        elim v.phase [
          | inl l ↦ cc (sent, l.silent)
          | inr l ↦ elim l.sends [
            | inl (q, one, silent) ↦ cc (sent, silent)
            | inr (gone, done) ↦
                rw (woken, step)
                  (leave_lem qs p (record s { waiting = discard p s.waiting }) v.collecting
                    l.none_left gone done l.calls)
          ]
        ]
  ]

  step_lem :
      (qs : List ℕ) (t : Turn) (s : RpcConsumer api)
      → AsksOnce qs s.unregistering t
      → IsValid qs s
      → Steps qs t s (step api t s)
  step_lem qs (asks p) s once v = ask_lem qs p s once v
  step_lem qs (removed p) s once v = removed_lem qs p s v
  step_lem qs (wakes p) s once v = wakes_lem qs p s v

  run_lem :
      (qs : List ℕ) (turns : List Turn) (s : RpcConsumer api)
      → AllAskOnce qs s.unregistering turns
      → IsValid qs s
      → (s' : RpcConsumer api) × (run api turns s ≡ some s')
        × IsValid qs s'
        × (s'.unregistering ≡ asked_all turns s.unregistering)
  unfolding run
  run_lem qs [] s once v = (s, refl, v, refl)
  run_lem qs (t ∷ turns) s (once, others) v =
      let (s1, stepped, v1, kept) = step_lem qs t s once v in
      let (s2, ran, v2, all) =
        run_lem qs turns s1 (subst (λ x. AllAskOnce qs x turns) (sym kept) others) v1 in
      (s2, rw stepped ran, v2, all ∙ ap (asked_all turns) kept)

  -- When the providers of a consumer that is set up ask to leave, each at most once, in any order,
  -- with the turns of their threads between: no turn raises; the consumer of the queue
  -- is cancelled once, if all the providers have asked, and not before; and until then none of them
  -- is gone.
  pub leaves_queue_once :
      (turns : List Turn) (s : RpcConsumer api)
      → IsCollecting api s.collector
      → all_in s.collector.providers [] ≡ false
      → s.unregistering ≡ []
      → s.removing ≡ []
      → ready s.unregistered ≡ false
      → unregisters s.queue_calls ≡ 0
      → AllAskOnce s.collector.providers [] turns
      → let finished = all_in s.collector.providers (asked_all turns []) in
        (s' : RpcConsumer api) × (run api turns s ≡ some s')
        × (unregisters s'.queue_calls ≡ (if finished then 1 else 0))
        × (finished ≡ false → s'.collector.providers ≡ s.collector.providers)
  leaves_queue_once turns s collecting left none_asked gone silent calls once =
      let qs = s.collector.providers in
      let start : IsValid qs s = record {
        collecting = collecting;
        phase = inl (record {
          some_left = ap (all_in qs) none_asked ∙ left;
          providers = refl;
          removing = gone;
          silent = silent;
          calls = calls;
        });
      } in
      let (s', ran, v, all) =
        run_lem qs turns s (subst (λ x. AllAskOnce qs x turns) (sym none_asked) once) start in
      let asked≡ = ap (all_in qs) (all ∙ ap (asked_all turns) none_asked) in
      (
        s',
        ran,
        elim v.phase [
          | inl l ↦ l.calls ∙ rw (sym asked≡ ∙ l.some_left) refl
          | inr l ↦ l.calls ∙ rw (sym asked≡ ∙ l.none_left) refl
        ],
        λ unfinished. elim v.phase [
          | inl l ↦ l.providers
          | inr l ↦ absurd (cc (asked≡, unfinished, l.none_left))
        ],
      )
