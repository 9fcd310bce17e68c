-- ===== src/Effect/Yields.antt =====
-- What is true of the value that a procedure returns, on every run that succeeds.
use cbtools_autobench.Base.{String, ◌≡◌, refl}
use cbtools_autobench.Result.{Result, ok, err, panic, fatal, wrapping}
use cbtools_autobench.Effect.Process.{Trace, done, Exec, on_ok, ◌>>=◌, wrapped}
use cbtools_autobench.Effect.Runs.{Pooling, Ensures, Ensures-always, Ensures-mono, Ensures-continue}

abbrev pub OnOk : {A : Type 0} → (A → Type 0) → Result A → Type 0
OnOk P (ok a) = P a
OnOk P (err e) = Unit
OnOk P (panic s) = Unit
OnOk P (fatal s) = Unit

module _ {W : Type 0} (Pooled : Pooling W) {A : Type 0} where
  pub record Yields (P : A → Type 0) (m : Exec W A) : Type 0 where
    pub runs : Ensures Pooled m (λ tr r. OnOk P r)

  pub Yields-lift : (P : A → Type 0) (r : Result A) → ((a : A) → r ≡ ok a → P a) → Yields P (done r)
  unfolding Ensures
  Yields-lift P (ok a) h = record { runs = h a refl }
  Yields-lift P (err e) h = record { runs = tt }
  Yields-lift P (panic s) h = record { runs = tt }
  Yields-lift P (fatal s) h = record { runs = tt }

  pub Yields-pure : (P : A → Type 0) (a : A) → P a → Yields P (done (ok a))
  unfolding Ensures
  Yields-pure P a p = record { runs = p }

  OnOk-wrapping : (P : A → Type 0) (s : String) (r : Result A) → OnOk P r → OnOk P (wrapping s r)
  OnOk-wrapping P s (ok a) h = h
  OnOk-wrapping P s (err e) h = h
  OnOk-wrapping P s (panic e) h = h
  OnOk-wrapping P s (fatal e) h = h

  pub Yields-wrapped :
      (P : A → Type 0) (context : String) (m : Exec W A) → Yields P m → Yields P (wrapped context m)
  unfolding wrapped Ensures
  Yields-wrapped P context m h = record {
    runs =
        Ensures-continue Pooled m _ _
          (Ensures-mono Pooled m _ _ (λ tr r. OnOk-wrapping P context r) h.runs);
  }

module _ {W : Type 0} (Pooled : Pooling W) {A B : Type 0} where
  pub Yields-bind :
      (P : A → Type 0) (Q : B → Type 0) (m : Exec W A) (f : A → Exec W B)
      → Yields Pooled P m
      → ((a : A) → P a → Yields Pooled Q (f a))
      → Yields Pooled Q (m >>= f)
  unfolding ◌>>=◌ Ensures
  Yields-bind P Q m f h k = record {
    runs = Ensures-continue Pooled m (on_ok f) _ (Ensures-mono Pooled m _ _ goes h.runs);
  }
    where
      goes : (tr : Trace) (r : Result A) → OnOk P r → Ensures Pooled (on_ok f r) (λ tr' s. OnOk Q s)
      goes tr (ok a) p = (k a p).runs
      goes tr (err e) p = tt
      goes tr (panic s) p = tt
      goes tr (fatal s) p = tt

  -- A first part of which nothing need be known.
  pub Yields-rest :
      (Q : B → Type 0) (m : Exec W A) (f : A → Exec W B)
      → ((a : A) → Yields Pooled Q (f a))
      → Yields Pooled Q (m >>= f)
  Yields-rest Q m f k =
      Yields-bind (λ a. Unit) Q m f (record { runs = Ensures-always Pooled m _ anything })
        (λ a p. k a)
    where
      anything : (tr : Trace) (r : Result A) → OnOk (λ a. Unit) r
      anything tr (ok a) = tt
      anything tr (err e) = tt
      anything tr (panic s) = tt
      anything tr (fatal s) = tt
