-- ===== src/Database/Examples.antt =====
-- The theorem on write transactions at concrete attempts.
use face_identify.Prelude.{ℕ, ◌<◌, zero, suc, arith}
use face_identify.Database.Transactions.{
  Attempt, committed, refused, EndsAt, write_attempts, write_attempts-ends,
}

-- busy once, then committed
abbrev busy_once : ℕ → Attempt ℕ
busy_once zero = refused
busy_once (suc n) = committed 7

write_attempts-ends_example :
    (n : ℕ) × ((n < 3) × EndsAt 3 busy_once n (write_attempts 3 busy_once))
write_attempts-ends_example = write_attempts-ends 3 busy_once (omega arith)
