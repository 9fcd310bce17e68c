-- ===== src/Nodes/Cluster/Poll.antt =====
-- poll of nodes/cluster.go. The environment says how often the `select` takes the ticker's case before
-- that of the deadline; Poll/Select.antt follows the time and says what it may answer.
pub mod Runs
pub mod Select
use cbtools_autobench.Base.{ℕ, zero, suc, Bool, true, false}
use cbtools_autobench.Effect.Process.{ticks, Exec, measure, pure, ◌>>=◌}

module _ {W : Type 0} where
  unfoldable pub poll_loop : ℕ → Exec W Bool → Exec W Bool
  poll_loop zero poll_func = pure true
  poll_loop (suc ticks_left) poll_func =
      let rest = poll_loop ticks_left poll_func in
      poll_func >>= λ ready. elim ready [ true ↦ pure false | false ↦ rest ]

  -- The timeout is in seconds; the result says whether it was reached.
  unfoldable pub poll : Exec W Bool → ℕ → Exec W Bool
  unfolding poll_loop
  poll poll_func timeout = measure (ticks 15 timeout) (λ n. poll_loop n poll_func)
