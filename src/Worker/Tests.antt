-- ===== src/Worker/Tests.antt =====
-- The worker takes the first delivery of the test queue, gets a token and publishes.
use e_commerec_operations.Base.{Option, String, arith, none, ok, refl, some, true, ℕ, ◌≡◌}
use e_commerec_operations.Delivery.Tables.{Db, valid_owner}
use e_commerec_operations.Delivery.Tests.{claimed_db, queued, unlocked}
use e_commerec_operations.Worker.Client.{Reply, Session, answered}
use e_commerec_operations.Worker.Loop.{run_once}
use e_commerec_operations.Worker.Settled.{run_once-returns}

abbrev answer : ℕ → Reply
answer n = answered (record { status_code = 200; retry_after = ""; body = "op-1" })

abbrev read_body : String → Option String
read_body s = some s

abbrev at_start : Session
at_start = record { access_token = none; requests = 0 }

owner_valid : valid_owner "worker-1" ≡ true
unfolding valid_owner
owner_valid = refl

run_once-returns_example :
    (x : Option ℕ × Db) × (run_once read_body read_body true answer
        (λ n. claimed_db)
        true
        true
        at_start
        110
        120
        unlocked
        "worker-1"
        30
        (λ db. db)
        (λ db. db)
        queued
      ≡ ok x)
run_once-returns_example =
    run_once-returns read_body read_body true answer (λ n. claimed_db) true true at_start 110 120
      unlocked "worker-1" 30 (λ db. db) (λ db. db) queued owner_valid (ground arith)
