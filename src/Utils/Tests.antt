-- ===== src/Utils/Tests.antt =====
-- Retried calls that succeed, use their attempts up, and meet their deadline; patches.
use Prim.Native.String.{String}
use area.Common.{
  ℕ, ◌+◌, ltb, ◌==◌, ℤ, pos, negsuc, ◌≡◌, ◌↔◌, refl, arith, Text, codes, eq_text, Bool, true, false,
  Option, none, some, if◌then◌else◌,
}
use area.Utils.Tree.{Value, none_value, other, dict, Dict, nil, cons, none_free, distinct, get, put}
use area.Utils.Patch.{patch_config, deep_compare}
use area.Utils.Changed.{patch_config-changed}
use area.Utils.Compare.{patch_config-deep_compare}
use area.Utils.Retry.{Retry, Call, returns, fails, Run, run, loop, round}
use area.Utils.Attempts.{Ended, run-Ended}
use area.Utils.Deadline.{InTime, pauses, run-InTime}

abbrev with_tries : ℤ → Option ℕ → Retry
with_tries tries deadline = record {
  max_tries = some tries;
  delay = 10;
  backoff = 2;
  max_jitter = 80;
  max_delay = 360000;
  deadline = deadline;
  attempts = 5;
  cur_delay = 70;
  cur_stoptime = some 3;
}

-- A tenth of a second for each call; it succeeds at the third.
abbrev third_time : ℕ → Call ℕ
third_time n = if ltb n 2 then fails 10 none else returns 10 7

abbrev never : ℕ → Call ℕ
never n = fails 10 (if ltb n 1 then some 100 else none)

abbrev quiet : ℕ → ℕ
quiet n = 0

-- The third sleep takes too long.
abbrev slow : ℕ → ℕ
slow n = if n == 2 then 1000 else 0

run-Ended_example :
    (w : Run ℕ) × (run third_time quiet quiet 4 (with_tries (pos 3) none) 1000 ≡ some w)
    × Ended third_time 0 3 w
run-Ended_example = run-Ended third_time quiet quiet (with_tries (pos 3) none) 1000 3 refl

run-InTime_example :
    (w : Run ℕ) × (run never quiet slow 501 (with_tries (negsuc 0) (some 500)) 1000 ≡ some w)
    × InTime never slow 0 (1000 + 500) w
run-InTime_example =
    run-InTime never quiet slow (with_tries (negsuc 0) (some 500)) 1000 500 refl (omega arith)
      (omega arith) (omega arith) (λ k. paused (ltb k 1))
  where
    paused : (b : Bool) → pauses {A = ℕ} (fails 10 (if b then some 100 else none)) ≡ true
    paused true = refl
    paused false = refl

time_and_calls : Option (Run ℕ) → Option (ℕ × ℕ)
time_and_calls none = none
time_and_calls (some w) = some (w.time, w.calls)

-- Pauses of 10 and 20 hundredths.
third_time_succeeds :
    time_and_calls (run third_time quiet quiet 4 (with_tries (pos 3) none) 1000) ≡ some (1060, 3)
unfolding run loop round time_and_calls
third_time_succeeds = refl

-- One retry is not enough.
used_up :
    time_and_calls (run third_time quiet quiet 4 (with_tries (pos 1) none) 1000) ≡ some (1030, 2)
unfolding run loop round time_and_calls
used_up = refl

-- After a pause of 100 that the exception asks for, pauses of 20, 40, 80 and 160 fit.
met_deadline :
    time_and_calls (run never quiet quiet 501 (with_tries (negsuc 0) (some 500)) 1000)
    ≡ some (1460, 6)
unfolding run loop round time_and_calls
met_deadline = refl

-- A sleep that takes too long puts the last call off.
overslept :
    time_and_calls (run never quiet slow 501 (with_tries (negsuc 0) (some 500)) 1000)
    ≡ some (2200, 4)
unfolding run loop round time_and_calls
overslept = refl

abbrev int : String → Value
int text = other (codes "int") (codes text)

abbrev entry : String → Value → Dict → Dict
entry name value rest = cons (codes name) value rest

abbrev braces : Dict → Text
braces d = codes "{}"

abbrev config : Dict
config = entry "ttl" (int "30") (entry "postgresql" (dict (entry "use_slots" (int "1") nil)) nil)

-- The text of the number that the configuration has.
abbrev same_text : Dict
same_text =
    entry "ttl" (other (codes "str") (codes "30"))
      (entry "postgresql" (dict (entry "use_slots" (int "1") nil)) nil)

abbrev patch : Dict
patch =
    entry "postgresql" (dict (entry "use_slots" none_value (entry "use_pg_rewind" (int "1") nil)))
      (entry "ttl" (int "30") nil)

patch_config-changed_example :
    ((patch_config braces config patch).1 ≡ false) ↔ ((patch_config braces config patch).0 ≡ config)
unfolding none_free distinct eq_text
patch_config-changed_example = patch_config-changed braces config patch refl refl

patch_config-deep_compare_example : patch_config braces config same_text ≡ (config, false)
unfolding none_free distinct eq_text deep_compare
patch_config-deep_compare_example =
    patch_config-deep_compare braces config same_text refl refl refl refl

patched : patch_config braces config patch ≡ (
  entry "ttl" (int "30") (entry "postgresql" (dict (entry "use_pg_rewind" (int "1") nil)) nil),
  true,
)
unfolding patch_config put get eq_text
patched = refl

-- A key that has None is dropped, and no change is reported.
dropped :
    patch_config braces (entry "ttl" none_value nil) (entry "ttl" none_value nil) ≡ (nil, false)
unfolding patch_config put get eq_text
dropped = refl

-- None in a dictionary that is new stays.
kept :
    patch_config braces nil (entry "slots" (dict (entry "a" none_value nil)) nil)
    ≡ (entry "slots" (dict (entry "a" none_value nil)) nil, true)
unfolding patch_config put get eq_text
kept = refl
