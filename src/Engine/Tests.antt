-- ===== src/Engine/Tests.antt =====
-- Runs of the sync engine (native/sync/src/sync_engine.cpp) at concrete journals, with a toy digest,
-- natural numbers in the place of doubles, and statements that all work.
use tightrope.Prelude.{
  ℕ, zero, suc, ◌+◌, ◌-◌, ◌*◌, ◌<◌, ◌≤◌, ◌≡◌, refl, ◌↔◌, true, false, [], ◌∷◌, List, none, arith,
  length, ltb, leb, inl,
}
use tightrope.Prelude.Int.{pos}
use tightrope.Prelude.Maps.{nat_ordered, bytes_ordered, lex, key_eq, lookup}
use tightrope.Wire.{Bytes}
use tightrope.Text.Ascii.{codes}
use tightrope.Protocol.Batch.{JournalBatchFrame}
use tightrope.Protocol.Batch.Entry.{JournalWireEntry}
use tightrope.Engine.Store.{Rows, is_replicated_name, replicated_by, build_batch}
use tightrope.Engine.Apply.{Outside, no_result, expected_checksum, apply_batch}
use tightrope.Engine.Apply.Entry.{IsSound}
use tightrope.Engine.Apply.Atomic.{IsTransaction, apply_batch-IsApplied}
use tightrope.Engine.Apply.Again.{IsWorking, AllOpen, apply_batch_succeeds, apply_batch-again}
use tightrope.Journal.{journal_checksum}
use tightrope.Text.Hex.{hex_encode, hex_digit}
use tightrope.Engine.Budget.{InflightWire, default_limits, peer_state, acquire}
use tightrope.Engine.Budget.Guards.{
  held_bytes, peer_batches, peer_bytes, Reached, started, entered, IsSized, IsBalanced,
}
use tightrope.Engine.Budget.Balance.{acquire-IsBalanced, acquire-none}
use tightrope.Engine.Inflight.{Runs, idle, loads, acquires, first, attempt, attempt-bounds}
use tightrope.Engine.Doubles.{Doubles}
use tightrope.Engine.RateLimit.Step.{Request}
use tightrope.Engine.RateLimit.{PeerRateBucket, RateLimits, Steady}
use tightrope.Engine.CatchUp.{IsJournal, Agrees, HasAll, build_batch-apply_batch}

abbrev filled : ℕ → ℕ → Bytes
filled zero b = []
filled (suc n) b = b ∷ filled n b

pub toy_size : (message : Bytes) → length (filled 32 5) ≡ 32
toy_size message = refl

abbrev pub toy : Outside
toy = record {
  sha256 = λ message. filled 32 5;
  sha256_size = toy_size;
  fails = λ s. false;
  new_batch_id = λ seq. codes "b";
}

toy-IsWorking : IsWorking toy
toy-IsWorking s = refl

abbrev entry : ℕ → JournalWireEntry
entry seq = record {
  seq = seq;
  hlc_wall = 1;
  hlc_counter = 0;
  site_id = 7;
  table_name = codes "accounts";
  row_pk = codes "1";
  op = codes "INSERT";
  old_values = [];
  new_values = codes "a";
  checksum = codes "0505050505050505050505050505050505050505050505050505050505050505";
  applied = pos 1;
  batch_id = codes "x";
}

entry-IsSound : (seq : ℕ) → IsSound toy (entry seq)
unfolding is_replicated_name replicated_by key_eq lex expected_checksum journal_checksum hex_encode
    hex_digit
entry-IsSound seq = (refl, refl)

abbrev two_entries : JournalBatchFrame
two_entries = record { from_seq = 0; to_seq = 2; entries = entry 1 ∷ entry 2 ∷ [] }

two_entries-AllOpen : AllOpen toy [] 0 two_entries.entries
unfolding lookup
two_entries-AllOpen =
    (omega arith, entry-IsSound 1, inl refl, (omega arith, entry-IsSound 2, inl refl, tt))

apply_batch-IsApplied_example :
    IsTransaction toy [] two_entries.entries (apply_batch toy (pos 2) [] two_entries)
apply_batch-IsApplied_example = apply_batch-IsApplied toy (pos 2) [] two_entries

apply_batch-again_example :
    apply_batch toy (pos 1) (apply_batch toy (pos 2) [] two_entries).0 two_entries ≡ (
      (apply_batch toy (pos 2) [] two_entries).0,
      record no_result {
        success = true;
        applied_up_to_seq = (apply_batch toy (pos 2) [] two_entries).1.applied_up_to_seq;
      },
    )
apply_batch-again_example =
    apply_batch-again toy (pos 1) toy-IsWorking (pos 2) [] two_entries
      (apply_batch_succeeds toy (pos 2) toy-IsWorking [] two_entries two_entries-AllOpen)

abbrev rows : Rows
rows = (1, entry 1) ∷ (2, entry 2) ∷ []

rows-IsJournal : IsJournal toy 0 rows
rows-IsJournal = (omega arith, refl, entry-IsSound 1, (omega arith, refl, entry-IsSound 2, tt))

rows-Agrees : Agrees rows []
unfolding lookup
rows-Agrees = (inl refl, (inl refl, tt))

build_batch-apply_batch_example :
    ((apply_batch toy (pos 2) [] (build_batch (λ s. false) rows 1 100)).1.success ≡ true)
    × HasAll 1
        (build_batch (λ s. false) rows 1 100).to_seq
        rows
        (apply_batch toy (pos 2) [] (build_batch (λ s. false) rows 1 100)).0
build_batch-apply_batch_example =
    build_batch-apply_batch toy (pos 2) (λ s. false) rows [] 1 100 toy-IsWorking refl rows-IsJournal
      rows-Agrees

abbrev pub nothing : InflightWire
nothing = record { total_bytes = 0; by_peer = [] }

pub default_limits-IsSized : IsSized default_limits
default_limits-IsSized = (omega arith, omega arith, omega arith)

one-Reached : Reached default_limits (acquire default_limits 7 100 nothing).0 ((7, 100) ∷ [])
unfolding acquire peer_state lookup
one-Reached = entered 7 100 refl started

acquire-IsBalanced_example :
    IsBalanced default_limits (acquire default_limits 7 100 nothing).0 ((7, 100) ∷ [])
acquire-IsBalanced_example =
    acquire-IsBalanced default_limits default_limits-IsSized
      (acquire default_limits 7 100 nothing).0 ((7, 100) ∷ []) one-Reached

acquire-none_example :
    ((acquire default_limits 7 50 (acquire default_limits 7 100 nothing).0).1 ≡ none) ↔ (
      (held_bytes ((7, 100) ∷ []) + 50 ≤ default_limits.max_inflight_wire_bytes)
      × (peer_batches 7 ((7, 100) ∷ []) < default_limits.max_inflight_wire_batches_per_peer)
      × (peer_bytes 7 ((7, 100) ∷ []) + 50 ≤ default_limits.max_inflight_wire_bytes_per_peer))
acquire-none_example =
    acquire-none default_limits default_limits-IsSized (acquire default_limits 7 100 nothing).0
      ((7, 100) ∷ []) 7 50 one-Reached

abbrev one_guard : ℕ
one_guard = 1

one-Runs : Runs 8 1 [] 1
unfolding attempt
one-Runs = acquires false first refl (loads idle)

attempt-bounds_example : (one_guard ≡ 1) × (1 ≤ 8)
attempt-bounds_example = attempt-bounds 8 1 1 [] one-Runs

-- Natural numbers, with a clock that counts seconds.
abbrev pub natural : Doubles ℕ
natural = record {
  add = λ a b. a + b;
  sub = λ a b. a - b;
  mul = λ a b. a * b;
  lt = ltb;
  le = leb;
  of_nat = λ n. n;
  zero = 0;
  one = 1;
  tolerance = 0;
  ewma_alpha = 0;
}

abbrev pub seconds : Steady ℕ
seconds = record { seconds = λ before now. now - before }

abbrev pub rate : RateLimits ℕ
rate = record { entries_per_second = 2000; burst_entries = 4000 }

abbrev pub one_bucket : List (ℕ × PeerRateBucket ℕ)
one_bucket = (7, record { tokens = 3000; last_refill = 10; initialized = true }) ∷ []

-- Another peer asks in between, and the last request has to wait.
abbrev three_requests : List Request
three_requests =
    record { delay = 0; site = 7; entries = 3000 }
    ∷ record { delay = 1; site = 8; entries = 4000 }
    ∷ record { delay = 0; site = 7; entries = 3500 }
    ∷ []
