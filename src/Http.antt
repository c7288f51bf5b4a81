-- ===== src/Http.antt =====
-- The parts of `events.APIGatewayProxyRequest` and of its response that the handlers use. A Go map is
-- an association list, newest entry first; a nil map is the empty list.
use serverless_error_ingest.Base.{
  ℕ, Bool, Option, none, some, List, [], ◌∷◌, if◌then◌else◌, Bytes, equal,
}

module _ {ℓ} {A : Type ℓ} where
  unfoldable pub lookup : Bytes → List (Bytes × A) → Option A
  unfolding equal
  lookup k [] = none
  lookup k ((j, v) ∷ m) = if equal j k then some v else lookup k m

-- `m[k]` of a map of strings: a missing key gives the empty string.
unfoldable pub value_of : Bytes → List (Bytes × Bytes) → Bytes
unfolding lookup
value_of k m = elim (lookup k m) [ none ↦ [] | some v ↦ v ]

pub record Request : Type 0 where
  pub headers : List (Bytes × Bytes)
  pub query : List (Bytes × Bytes)
  pub multi_query : List (Bytes × List Bytes)
  pub path_parameters : List (Bytes × Bytes)
  pub resource : Bytes
  pub path : Bytes
  pub body : Bytes
  pub is_base64 : Bool

pub record Response : Type 0 where
  pub status : ℕ
  pub headers : List (Bytes × Bytes)
  pub body : Bytes
