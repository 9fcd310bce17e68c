-- ===== src/Effect/Session/Last.antt =====
-- A property of the last part of a session that goes over to the whole.
use cbtools_autobench.Base.{◌≡◌, refl, String, ◌++◌}
use cbtools_autobench.Result.{Result, ok, err, panic, fatal, Succeeds}
use cbtools_autobench.Effect.Process.{Trace}
use cbtools_autobench.Effect.Runs.{Pooling}
use cbtools_autobench.Effect.Last.{IsLate}
use cbtools_autobench.Effect.Session.{
  Script, if_ok, ◌>>=◌, returning, in_context, Pools, Always, Always-mono, Always-and_then,
}
use cbtools_autobench.Effect.Session.Values.{Always-anything}

module _ {Below : Pooling ⊥} (P : Pools Below) {A B : Type 0} (Q : Trace → Result B → Type 0)
    (late : IsLate Q) where
  pub Always-last :
      (s : Script A) (f : A → Script B) → ((a : A) → Always P (f a) Q) → Always P (s >>= f) Q
  unfolding ◌>>=◌ Always
  Always-last s f h = Always-and_then P s (if_ok f) Q (Always-anything P s _ goes)
    where
      goes : (tr : Trace) (r : Result A) → Always P (if_ok f r) (λ tr' s. Q (tr ++ tr') s)
      goes tr (ok a) = Always-mono P (f a) _ _ (late.before tr) (h a)
      goes tr (err e) = late.failures _ _ (λ s. s)
      goes tr (panic e) = late.failures _ _ (λ s. s)
      goes tr (fatal e) = late.failures _ _ (λ s. s)

  pub Always-returning :
      (r : Result A) (f : A → Script B)
      → ((a : A) → r ≡ ok a → Always P (f a) Q)
      → Always P (returning r >>= f) Q
  unfolding ◌>>=◌ Always
  Always-returning (ok a) f h = h a refl
  Always-returning (err e) f h = late.failures _ _ (λ s. s)
  Always-returning (panic e) f h = late.failures _ _ (λ s. s)
  Always-returning (fatal e) f h = late.failures _ _ (λ s. s)

  pub Always-returning_in_context :
      (context : String) (r : Result A) (f : A → Script B)
      → ((a : A) → r ≡ ok a → Always P (f a) Q)
      → Always P (in_context context (returning r) >>= f) Q
  unfolding ◌>>=◌ in_context Always
  Always-returning_in_context context (ok a) f h = h a refl
  Always-returning_in_context context (err e) f h = late.failures _ _ (λ s. s)
  Always-returning_in_context context (panic e) f h = late.failures _ _ (λ s. s)
  Always-returning_in_context context (fatal e) f h = late.failures _ _ (λ s. s)

-- What is known of the first part goes on to the second.
module _ {Below : Pooling ⊥} (P : Pools Below) {A B : Type 0} where
  pub Always-bind :
      (Q : Trace → Result A → Type 0) (R : Trace → Result B → Type 0) (s : Script A)
      (f : A → Script B)
      → ((tr : Trace) (r : Result B) → ¬ Succeeds r → R tr r)
      → Always P s Q
      → ((tr : Trace) (a : A) → Q tr (ok a) → Always P (f a) (λ tr' r. R (tr ++ tr') r))
      → Always P (s >>= f) R
  unfolding ◌>>=◌ Always
  Always-bind Q R s f failures h k = Always-and_then P s (if_ok f) R (Always-mono P s _ _ goes h)
    where
      goes : (tr : Trace) (r : Result A) → Q tr r → Always P (if_ok f r) (λ tr' r. R (tr ++ tr') r)
      goes tr (ok a) q = k tr a q
      goes tr (err e) q = failures _ _ (λ s. s)
      goes tr (panic e) q = failures _ _ (λ s. s)
      goes tr (fatal e) q = failures _ _ (λ s. s)
