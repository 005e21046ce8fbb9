-- ===== src/Server/Relay/Tests.antt =====
-- The result on a relay's loop at a concrete upstream: it fails twice, streams, is preempted, fails.
use rusty_ice.Prelude.{true, false, none, some, List, [], ◌∷◌, ◌≡◌, refl}
use rusty_ice.Core.Mount.{SourceKind}
use rusty_ice.Server.Relay.Backoff.{new, next_delay, reset}
use rusty_ice.Server.Relay.Run.{
  Round, ended, ingest_cancelled, ingest_failed, pulled, was_cancelled, run, iterate, conclude,
  run_once, waits_for, followed_by,
}
use rusty_ice.Server.Relay.Paced.{IsPaced, run-IsPaced}

abbrev refused : Round
refused = record {
  is_shut = false;
  holder = none;
  is_shut_waiting = false;
  is_claimed = true;
  connection = some false;
  ingested = ended;
  is_preempted = false;
  is_shut_ending = false;
  is_shut_resting = false;
}

abbrev streamed : Round
streamed = record refused { connection = some true }

-- A live source takes the mount over; the relay waits for it in the next iteration.
abbrev preempted : Round
preempted = record streamed { ingested = ingest_cancelled; is_preempted = true }

abbrev parked : Round
parked = record refused {
  holder = some SourceKind.live;
  connection = some true;
  ingested = ingest_failed;
}

abbrev rounds : List Round
rounds = refused ∷ refused ∷ streamed ∷ preempted ∷ parked ∷ []

rounds-run :
    run new rounds
    ≡ pulled false 1 ∷ pulled false 2 ∷ pulled true 1 ∷ was_cancelled ∷ pulled false 2 ∷ []
unfolding run iterate conclude run_once waits_for followed_by new next_delay reset
rounds-run = refl

run-IsPaced_example : IsPaced 0 (run new rounds)
run-IsPaced_example = run-IsPaced rounds
