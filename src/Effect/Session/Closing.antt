-- ===== src/Effect/Session/Closing.antt =====
-- What a deferred call leaves at the end of a run.
use mathlib.Core.List.{append-nil}
use cbtools_autobench.Base.{◌≡◌, refl, [], ◌++◌}
use cbtools_autobench.Result.{Result, ok, err, panic, fatal}
use cbtools_autobench.Effect.Process.{Trace}
use cbtools_autobench.Effect.Runs.{Pooling, Ensures, Ensures-mono}
use cbtools_autobench.Effect.Session.{
  Routine, Script, closing, finally, Pools, Always, Always-and_then,
}
use cbtools_autobench.Effect.Session.Values.{Always-anything}

module _ (Ends : Trace → Type 0) where
  pub record EndsWith (tr : Trace) : Type 0 where
    pub front : Trace
    pub back : Trace
    pub whole_trace : tr ≡ front ++ back
    pub ends : Ends back

  -- Every run but one that ends the process by `log.Fatal` or by a panic of a worker of a pool.
  abbrev pub UnlessExit : {A : Type 0} → Trace → Result A → Type 0
  UnlessExit tr (ok a) = EndsWith tr
  UnlessExit tr (err e) = EndsWith tr
  UnlessExit tr (panic s) = EndsWith tr
  UnlessExit tr (fatal s) = Unit

  module _ {A : Type 0} {Below : Pooling ⊥} (P : Pools Below) where
    -- Whatever the code in between does, its run ends with that of the deferred call.
    pub finally-UnlessExit :
        (close : Routine Unit) (s : Script A)
        → Ensures P.tasks.pooled close (λ tr r. Ends tr)
        → Always P (finally close s) UnlessExit
    unfolding finally Always
    finally-UnlessExit close s h = Always-and_then P s _ _ (Always-anything P s _ goes)
      where
        last : (front : Trace) (tr : Trace) → Ends tr → EndsWith (front ++ (tr ++ []))
        last front tr e = record {
          front = front;
          back = tr;
          whole_trace = rw append-nil refl;
          ends = e;
        }

        goes :
            (front : Trace) (r : Result A)
            → Always P (closing close r) (λ tr r'. UnlessExit (front ++ tr) r')
        goes front (ok a) = Ensures-mono P.tasks.pooled close _ _ (λ tr r e. last front tr e) h
        goes front (err e) = Ensures-mono P.tasks.pooled close _ _ (λ tr r e. last front tr e) h
        goes front (panic s) = Ensures-mono P.tasks.pooled close _ _ (λ tr r e. last front tr e) h
        goes front (fatal s) = tt
