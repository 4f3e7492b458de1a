-- ===== src/Endpoint/System.antt =====
-- system/service/health.go and system/handler/http.go. The two checks run at once, and their results
-- arrive in either order.
use content_platform.Prelude.{
  Text, List, [], ◌∷◌, codes, Bool, true, false, Option, none, some, if◌then◌else◌, ◌≡◌, refl,
}
use content_platform.AppError.{application, new_error, with_details, dependency_unavailable}
use content_platform.Http.{Context, World, returned, Handler}
use content_platform.Httpx.Response.{Envelope, write_data, write_error}
use content_platform.Endpoint.Payload.{
  DependencyState, up, down, ReadyStatus, ready, degraded, not_ready, Readiness, Payload,
  liveness_payload, readiness_payload, checks_payload,
}

-- The two names of dependencies.
pub data Dependency : Type 0 where
  postgres_name redis_name : Dependency

-- dependencyResult
pub record DependencyResult : Type 0 where
  pub name : Dependency
  pub state : DependencyState

-- checkDependency; `reachable` is whether Ping returned in time and without an error.
unfoldable pub check_dependency : Dependency → Bool → DependencyResult
check_dependency name reachable = record { name = name; state = if reachable then up else down }

-- The map while results arrive: a key that is not there yet is `none`.
pub record PartialChecks : Type 0 where
  pub postgres_check : Option DependencyState
  pub redis_check : Option DependencyState

-- `checks[result.name] = result.state`
unfoldable pub store_result : DependencyResult → PartialChecks → PartialChecks
store_result result checks = elim result.name [
  | postgres_name ↦ record checks { postgres_check = some result.state }
  | redis_name ↦ record checks { redis_check = some result.state }
]

-- The loop that receives the results.
unfoldable pub receive : List DependencyResult → PartialChecks → PartialChecks
unfolding store_result
receive [] checks = checks
receive (result ∷ results) checks = receive results (store_result result checks)

unfoldable pub is_down : Option DependencyState → Bool
is_down (some down) = true
is_down _ = false

unfoldable pub ready_status : PartialChecks → ReadyStatus
unfolding is_down
ready_status checks =
    if is_down checks.postgres_check
    then not_ready
    else if is_down checks.redis_check
    then degraded
    else ready

-- A value of the map; both keys are there once both results are in.
unfoldable pub state_of : Option DependencyState → DependencyState
state_of none = down
state_of (some state) = state

unfoldable pub readiness_of : PartialChecks → Readiness
unfolding ready_status state_of
readiness_of checks = record {
  status = ready_status checks;
  checks = record {
    postgres = state_of checks.postgres_check;
    redis = state_of checks.redis_check;
  };
}

-- Service.Readiness, for the results in the order in which they arrive.
unfoldable pub readiness : List DependencyResult → Readiness
unfolding receive readiness_of
readiness results =
    readiness_of (receive results (record { postgres_check = none; redis_check = none }))

-- Service.Liveness
unfoldable pub liveness : Text
liveness = codes "ok"

module _ {S : Type 0} (marshal : Envelope Payload → Option Text) where
  -- Handler.Health
  unfoldable pub handle_health : Handler S
  handle_health r w = returned (write_data marshal r.context 200 (liveness_payload liveness) w)

  -- What Handler.Ready writes. WriteError is given no logger.
  unfoldable pub write_readiness : Context → Readiness → World S → World S
  unfolding with_details new_error
  write_readiness ctx result w = elim result.status [
    | not_ready ↦
        write_error marshal ctx false
          (application (
            with_details (checks_payload result.checks) (
              new_error dependency_unavailable (codes "dependency_unavailable")
                (codes "service is not ready"))))
          w
    | _ ↦ write_data marshal ctx 200 (readiness_payload result) w
  ]

  -- Handler.Ready
  unfoldable pub handle_ready : List DependencyResult → Handler S
  handle_ready results r w = returned (write_readiness r.context (readiness results) w)

-- Either order of arrival gives the same readiness: not ready where PostgreSQL does not answer, else
-- degraded where Redis does not, else ready; and the checks say which of the two answered.
pub readiness_lem :
    (postgres redis : Bool)
    → (readiness (check_dependency postgres_name postgres ∷ check_dependency redis_name redis ∷ [])
        ≡ readiness
            (check_dependency redis_name redis ∷ check_dependency postgres_name postgres ∷ []))
      × (readiness
            (check_dependency postgres_name postgres ∷ check_dependency redis_name redis ∷ [])
          ≡ record {
            status = if postgres then (if redis then ready else degraded) else not_ready;
            checks = record {
              postgres = if postgres then up else down;
              redis = if redis then up else down;
            };
          })
unfolding readiness check_dependency receive store_result readiness_of ready_status is_down state_of
readiness_lem true true = (refl, refl)
readiness_lem true false = (refl, refl)
readiness_lem false true = (refl, refl)
readiness_lem false false = (refl, refl)
