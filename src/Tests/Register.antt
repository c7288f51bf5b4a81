-- ===== src/Tests/Register.antt =====
-- The registration of one project.
use serverless_error_ingest.Register.{
  Flags, Supplies, Registration, registration, register, rand_key,
}
use serverless_error_ingest.Register.Accepted.{IsLetIn, register-IsLetIn}
use serverless_error_ingest.Ingest.EventId.{hex_encode}
use serverless_error_ingest.Base.{
  ℕ, zero, suc, ◌<◌, ◌≡◌, refl, false, none, [], arith, Bytes, codes, is_empty, ok, err, replicate,
  All,
}

abbrev flags : Flags
flags = record { project_id = codes "7"; host = codes "h.example"; with_secret = false }

abbrev drawn : Bytes
drawn = replicate 16 171

abbrev supplies : Supplies
supplies = record {
  public_bytes = ok drawn;
  secret_bytes = err [];
  created_at = [];
  write_error = none;
}

abbrev registered : Registration
registered = registration flags (hex_encode drawn) [] [] []

runs : register flags supplies [] ≡ ok registered
unfolding register rand_key is_empty
runs = refl

drawn_small : (n : ℕ) → All (λ c. c < 256) (replicate n 171)
drawn_small zero = tt
drawn_small (suc n) = (omega arith, drawn_small n)

register-IsLetIn_example : IsLetIn registered
register-IsLetIn_example =
    register-IsLetIn flags supplies [] registered (omega arith) (refl, drawn_small 16) runs
