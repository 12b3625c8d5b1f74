-- ===== src/Web/Responses.antt =====
-- nameko/web/handlers.py: the response to a request.
use nameko_zh_cn.Base.{
  Str, ◌≡◌, refl, ap, ◌∙◌, Bool, Option, none, some, List, [], ◌∷◌, ◌++◌, ◌||◌, if◌then◌else◌, inl,
  inr, Option-cases, arith,
}
use mathlib.Core.List.{append-nil}
use nameko_zh_cn.Values.{str}
use nameko_zh_cn.Exceptions.{Exc, ErrorData, serialize, incorrect_signature, container_being_killed}
use nameko_zh_cn.Rpc.Effects.{
  Spawned, Effect, spawned, Result, ok, raise, M, pure, continue_with, ◌>>=◌, ◌>>◌, caught,
  type_error,
}
use nameko_zh_cn.Rpc.Server.{Env, check_signature, spawn_worker, exception}
use nameko_zh_cn.Web.{
  code, Response, HttpResult, response_from_result, error_text, or_empty, error_response,
  status_code, response_from_exception, of_result, awaited, Request, call_of, respond,
  handle_request,
}

module _ (env : Env) (expected : Exc → Bool) (new_response : Response → Option Exc)
    (worker : Spawned → Option (Result HttpResult)) where
  -- The exception for which no worker is spawned, if there is one.
  abbrev pub refused : Str → Request → Option Exc
  refused method r = elim (env.getcallargs method (r.request ∷ []) r.path_values) [
    | some text ↦ some (exception incorrect_signature (str text ∷ []))
    | none ↦
        if env.being_killed then some (exception container_being_killed []) else env.service_cls
  ]

  abbrev pub waited : Result Response → Result (Option Response)
  waited (ok r) = ok (some r)
  waited (raise e) = raise e

  -- What a request comes to: a response, an exception, or a wait that does not end.
  abbrev pub outcome : Option Exc → Option (Result HttpResult) → Result (Option Response)
  outcome (some e) result = raise e
  outcome none none = ok none
  outcome none (some (raise e)) = raise e
  outcome none (some (ok result)) = waited (response_from_result new_response result)

  abbrev pub error_answer : Exc → Option ErrorData → Result (Option Response)
  error_answer e none = raise type_error
  error_answer e (some d) = ok (
      some (record {
        payload = error_text (or_empty d.exc_type) (or_empty d.value);
        status = code (if expected e || e.exc_type.bad_request then 400 else 500);
        headers = none;
      }))

  abbrev pub answer : Result (Option Response) → Result (Option Response)
  answer (ok response) = ok response
  answer (raise e) = error_answer e (serialize env.text_type env.exc_text e)

  abbrev pub effects : Option Exc → Spawned → List Effect
  effects (some e) call = []
  effects none call = spawned call ∷ []

  answers_exception :
      (e : Exc) (log : List Effect)
      → (response_from_exception env expected e >>= λ r. pure (some r)) log
        ≡ (answer (raise e), log)
  unfolding response_from_exception error_response status_code
  answers_exception e log = elim (Option-cases (serialize env.text_type env.exc_text e)) [
    | inl q ↦ rw (q, response_from_exception) refl
    | inr (d, q) ↦ rw (q, response_from_exception) refl
  ]

  -- What the check of the arguments and the spawning give.
  abbrev begun : Option Exc → Spawned → List Effect → Result (Unit {0}) × List Effect
  begun (some e) call log = (raise e, log)
  begun none call log = (ok tt, log ++ spawned call ∷ [])

  begins :
      (method : Str) (r : Request) (log : List Effect)
      → (check_signature env method (r.request ∷ []) r.path_values
            >> spawn_worker env (call_of method r))
          log
        ≡ begun (refused method r) (call_of method r) log
  unfolding check_signature spawn_worker
  begins method r log = ground arith

  -- What follows once the worker has been spawned.
  abbrev ended : Str → Request → M (Option Response)
  ended method r = awaited env expected new_response worker (worker (call_of method r))

  waits :
      (o : Result Response) (log : List Effect)
      → (of_result o >>= λ made. pure (some made)) log ≡ (waited o, log)
  unfolding of_result
  waits (ok a) log = refl
  waits (raise e) log = refl

  ends :
      (worked : Option (Result HttpResult)) (log : List Effect)
      → awaited env expected new_response worker worked log ≡ (outcome none worked, log)
  unfolding of_result awaited
  ends none log = refl
  ends (some (raise e)) log = refl
  ends (some (ok result)) log = waits (response_from_result new_response result) log

  continues :
      (method : Str) (r : Request) (log : List Effect) (failure : Option Exc)
      → continue_with
          (begun failure (call_of method r) log).0
          (λ _. ended method r)
          (begun failure (call_of method r) log).1
        ≡ (outcome failure (worker (call_of method r)), log ++ effects failure (call_of method r))
  continues method r log (some e) = rw (append-nil log) refl
  continues method r log none = ends (worker (call_of method r)) _

  rejoined :
      (x : Result (Unit {0}) × List Effect) (f : M (Unit {0})) (g : M (Option Response))
      → continue_with (x.0) (λ _. f >> g) (x.1)
        ≡ continue_with
            (continue_with (x.0) (λ _. f) (x.1)).0
            (λ _. g)
            (continue_with (x.0) (λ _. f) (x.1)).1
  rejoined (ok u, log) f g = refl
  rejoined (raise e, log) f g = refl

  responds :
      (method : Str) (r : Request) (log : List Effect)
      → let call = call_of method r in
        let failure = refused method r in
        respond env expected new_response worker method r log
        ≡ (outcome failure (worker call), log ++ effects failure call)
  unfolding respond
  responds method r log =
      rejoined (check_signature env method (r.request ∷ []) r.path_values log)
        (spawn_worker env (call_of method r)) (ended method r)
      ∙ ap
          (λ (x : Result (Unit {0}) × List Effect). continue_with (x.0) (λ _. ended method r) (x.1))
          (begins method r log)
      ∙ continues method r log (refused method r)

  answers :
      (o : Result (Option Response)) (log : List Effect)
      → caught o (λ e. response_from_exception env expected e >>= λ r. pure (some r)) log
        ≡ (answer o, log)
  answers (ok made) log = refl
  answers (raise e) log = answers_exception e log

  -- A request whose worker hands over a result or an exception, or for which none is spawned, is
  -- answered, and one whose worker does neither is not, for ever: a worker is spawned unless the arguments do not fit
  -- the method, the container is being killed or the service cannot be made; the response is the one
  -- of the method's result, or it tells the exception, with 400 for an expected exception or a bad
  -- request and 500 for another. It raises only where the exception cannot be serialized.
  pub request_is_answered :
      (method : Str) (r : Request) (log : List Effect)
      → let call = call_of method r in
        let failure = refused method r in
        handle_request env expected new_response worker method r log
        ≡ (answer (outcome failure (worker call)), log ++ effects failure call)
  unfolding handle_request
  request_is_answered method r log =
      ap
        (λ (x : Result (Option Response) × List Effect).
          caught (x.0) (λ e. response_from_exception env expected e >>= λ r. pure (some r)) (x.1))
        (responds method r log)
      ∙ answers (outcome (refused method r) (worker (call_of method r))) _
