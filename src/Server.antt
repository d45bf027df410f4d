-- ===== src/Server.antt =====
-- main.go: the start of the server, its routes, and the steps that its state makes.
pub mod Reach
pub mod Start
pub mod Sound
pub mod Shares
pub mod Pools
mod Tests
use ton_validators_rewards_a.Base.{ℕ, List, [], ◌∷◌, ◌++◌, Option, none, some, if◌then◌else◌}
use ton_validators_rewards_a.Base.Text.{Text, codes}
use ton_validators_rewards_a.Outcome.{Outcome, ok, err, panic, Action, pure, wrap, ◌>>=◌}
use ton_validators_rewards_a.Strconv.{is_empty}
use ton_validators_rewards_a.Tlb.{Tongo}
use ton_validators_rewards_a.Model.{Output, ValidationRoundsOutput, RoundRewardsOutput}
use ton_validators_rewards_a.State.{State, LiteClient}
use ton_validators_rewards_a.Rounds.Lookup.{Loaders}
use ton_validators_rewards_a.Rounds.Listing.{fetch_validation_rounds}
use ton_validators_rewards_a.Rounds.Report.{Clock, fetch_round_rewards}
use ton_validators_rewards_a.Blocks.{fetch_per_block_rewards}
use ton_validators_rewards_a.Client.{Outside, Process, Service, new_client, new_service}
use ton_validators_rewards_a.Api.{
  Params, Response, ValidatorService, handle_validators, handle_validation_rounds,
  handle_round_rewards,
}

-- The handlers of the six endpoints.
pub data Route : Type 0 where
  health validators_route rounds_route rewards_route openapi swagger : Route

-- The patterns in the order of their mux.HandleFunc.
unfoldable pub routes : List (Text × Route)
routes =
    (codes "GET /health", health)
    ∷ (codes "GET /api/validators", validators_route)
    ∷ (codes "GET /api/validation-rounds", rounds_route)
    ∷ (codes "GET /api/round-rewards", rewards_route)
    ∷ (codes "GET /api/openapi.yaml", openapi)
    ∷ (codes "GET /swagger", swagger)
    ∷ []

-- A page of a given content type, or what one of the three handlers answers.
pub data Answer (F : Type 0) : Type 0 where
  page : (content_type body : Text) → Answer F
  block_answer : Response (Output F) → Answer F
  rounds_answer : Response ValidationRoundsOutput → Answer F
  rewards_answer : Response (RoundRewardsOutput F) → Answer F

abbrev pub answer_as :
    {A F S : Type 0} → (Response A → Answer F) → Action S (Response A) → Action S (Answer F)
answer_as f m = m >>= λ r. pure (f r)

-- The two embedded pages.
pub record Pages : Type 0 where
  pub openapi_spec : Text
  pub swagger_html : Text

module _ {t : Tongo} {W : Type 0} (pages : Pages) (svc : ValidatorService (State t W) t.Float)
    (elapsed : ℕ) (params : Params) where
  unfoldable pub serve_route : Route → Action (State t W) (Answer t.Float)
  serve_route health = pure (page (codes "application/json") (codes "{\"status\":\"ok\"}"))
  serve_route validators_route = answer_as block_answer (handle_validators svc elapsed params)
  serve_route rounds_route = answer_as rounds_answer (handle_validation_rounds svc elapsed params)
  serve_route rewards_route = answer_as rewards_answer (handle_round_rewards svc elapsed params)
  serve_route openapi = pure (page (codes "application/yaml") pages.openapi_spec)
  serve_route swagger = pure (page (codes "text/html; charset=utf-8") pages.swagger_html)

-- The service behind the handlers, at the time of a clock.
unfoldable pub service_of :
    {t : Tongo} {W : Type 0}
    → Loaders t (State t W)
    → Clock
    → LiteClient t W
    → ValidatorService (State t W) t.Float
service_of l clock client = record {
  fetch_per_block_rewards = fetch_per_block_rewards l client clock.now clock.now;
  fetch_validation_rounds = fetch_validation_rounds l clock.now client;
  fetch_round_rewards = fetch_round_rewards l clock client;
}

-- The port, by the environment.
unfoldable pub port_of : (getenv : Text → Text) → Text
port_of getenv = if is_empty (getenv (codes "PORT")) then codes "8080" else getenv (codes "PORT")

-- Up to ListenAndServe: the service, and the address that the server listens on. An error is fatal.
unfoldable pub start :
    {W : Type 0} (o : Outside W)
    → (getenv : Text → Text) → (config_path : Text) → Action (Process o.Conf W) (Service o × Text)
unfolding port_of
start o getenv config_path = do
  client ← wrap (λ e. codes "client: " ++ e) (new_client o config_path)
  svc ← new_service o client config_path
  pure (svc, codes ":" ++ port_of getenv)
