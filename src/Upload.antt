-- ===== src/Upload.antt =====
-- firmware/src/tasks/upload: the text that goes to the server, what is read from its answers, and
-- the task that uploads the stored measurements. types.rs is modelled here.
pub mod Decimal
pub mod Writer
pub mod Json
pub mod Parse
pub mod Time
pub mod Http
pub mod Runtime
mod Tests
use sleep_environment_monito.Prelude.{ℕ, List, [], ◌∷◌, Option, none, some}

pub data EncodeError : Type 0 where
  buffer_too_small : EncodeError

pub data ParseError : Type 0 where
  missing_field invalid_field : ParseError

pub data ResponseClass : Type 0 where
  success malformed : ResponseClass
  http_failure : ℕ → ResponseClass

pub data EndpointSource : Type 0 where
  provisioned discovered static_fallback : EndpointSource

-- `ipv4` is an array of four bytes.
pub record Endpoint : Type 0 where
  pub ipv4 : List ℕ
  pub port : ℕ
  pub source : EndpointSource

abbrev pub fallback_ipv4_octets : List ℕ
fallback_ipv4_octets = 10 ∷ 133 ∷ 56 ∷ 218 ∷ []

abbrev pub fallback_port : ℕ
fallback_port = 8080

-- `Endpoint::static_fallback`
abbrev pub fallback_endpoint : Endpoint
fallback_endpoint = record {
  ipv4 = fallback_ipv4_octets;
  port = fallback_port;
  source = static_fallback;
}

pub record EndpointCandidates : Type 0 where
  pub from_provisioning : Option Endpoint
  pub from_discovery : Option Endpoint
  pub from_config : Endpoint

unfoldable pub resolve_endpoint : EndpointCandidates → Endpoint
resolve_endpoint candidates = elim candidates.from_provisioning [
  | some endpoint ↦ endpoint
  | none ↦ elim candidates.from_discovery [
    | some endpoint ↦ endpoint
    | none ↦ candidates.from_config
  ]
]
