-- ===== src/Effect/Session/Any.antt =====
-- Pools that do all that is documented, and nothing else is known of them.
use cbtools_autobench.Base.{ℕ, List, Option}
use cbtools_autobench.Result.{Result, ok, err, panic, fatal}
use cbtools_autobench.Effect.Process.{Trace, Task}
use cbtools_autobench.Effect.Runs.{Runs, Shuffled}
use cbtools_autobench.Effect.Session.{Written, Pools}
use cbtools_autobench.Effect.Session.Slots.{Write}
use cbtools_autobench.Effect.Simulate.{no_pool, any_pool}

abbrev pub AnySlices :
    {X : Type 0} → ℕ → List (Task (Write X)) → Trace → Result (List (Option X)) → Type 0
AnySlices n ws tr (ok slots) = Written (Runs no_pool) n ws tr slots
AnySlices n ws tr (err e) = Unit
AnySlices n ws tr (panic s) = Unit
AnySlices n ws tr (fatal s) = Unit

abbrev pub any_pools : Pools no_pool
any_pools = record {
  tasks = any_pool;
  routines = record {
    pooled = λ n ws tr r. Shuffled (Runs any_pool.pooled) ws tr r;
    documented = λ p. p;
  };
  slices = AnySlices;
  filled = λ h. h;
}
