-- ===== src/Query/Limit.antt =====
-- The `limit` parameter of lambda/query/main.go.
pub mod Range
use serverless_error_ingest.Decimal.{decimal, digits}
use serverless_error_ingest.Strconv.{atoi}
use serverless_error_ingest.Base.{
  ℕ, zero, suc, Option, none, some, ltb, if◌then◌else◌, Bytes, is_empty, ℤ, pos, negsuc,
}

abbrev pub default_limit : ℕ
default_limit = 50

abbrev pub max_limit : ℕ
max_limit = 200

-- `err != nil || n <= 0` is an error; more than the most is cut down to it.
abbrev pub clamped : Option ℤ → Option ℕ
clamped none = none
clamped (some (negsuc n)) = none
clamped (some (pos zero)) = none
clamped (some (pos (suc n))) = if ltb max_limit (suc n) then some max_limit else some (suc n)

-- The limit of a request, or none for a response with status 400.
unfoldable pub limit_of : Bytes → Option ℕ
unfolding is_empty atoi
limit_of v = if is_empty v then some default_limit else clamped (atoi v)
