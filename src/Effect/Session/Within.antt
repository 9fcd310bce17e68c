-- ===== src/Effect/Session/Within.antt =====
-- Something that has happened somewhere within a run that succeeds.
use mathlib.Core.List.{append-nil, append_assoc}
use cbtools_autobench.Base.{◌≡◌, refl, [], ◌++◌}
use cbtools_autobench.Result.{Result, ok, err, panic, fatal, Succeeds}
use cbtools_autobench.Effect.Process.{Trace}
use cbtools_autobench.Effect.Runs.{Pooling, Ensures-always}
use cbtools_autobench.Effect.Last.{IsLate}
use cbtools_autobench.Effect.Session.{
  Routine, Script, returning, closing, finally, Pools, Always, Always-mono, Always-and_then,
}

module _ (Happens : Trace → Type 0) where
  pub record Within (tr : Trace) : Type 0 where
    pub front : Trace
    pub middle : Trace
    pub back : Trace
    pub whole : tr ≡ front ++ (middle ++ back)
    pub happens : Happens middle

  abbrev pub WhenWithin : {A : Type 0} → Trace → Result A → Type 0
  WhenWithin tr (ok a) = Within tr
  WhenWithin tr (err e) = Unit
  WhenWithin tr (panic s) = Unit
  WhenWithin tr (fatal s) = Unit

  pub Within-here : (tr : Trace) → Happens tr → Within tr
  Within-here tr h = record {
    front = [];
    middle = tr;
    back = [];
    whole = rw append-nil refl;
    happens = h;
  }

  pub Within-before : (front tr : Trace) → Within tr → Within (front ++ tr)
  Within-before front tr w = record {
    front = front ++ w.front;
    middle = w.middle;
    back = w.back;
    whole = rw (w.whole, append_assoc) refl;
    happens = w.happens;
  }

  pub Within-after : (tr back : Trace) → Within tr → Within (tr ++ back)
  Within-after tr back w = record {
    front = w.front;
    middle = w.middle;
    back = w.back ++ back;
    whole = rw (w.whole, append_assoc, append_assoc) refl;
    happens = w.happens;
  }

  module _ {A : Type 0} where
    pub WhenWithin-failures : (tr : Trace) (r : Result A) → ¬ Succeeds r → WhenWithin tr r
    WhenWithin-failures tr (ok a) h = absurd (h tt)
    WhenWithin-failures tr (err e) h = tt
    WhenWithin-failures tr (panic s) h = tt
    WhenWithin-failures tr (fatal s) h = tt

    pub WhenWithin-IsLate : IsLate {B = A} WhenWithin
    WhenWithin-IsLate = record { failures = WhenWithin-failures; before = before }
      where
        before : (front tr : Trace) (r : Result A) → WhenWithin tr r → WhenWithin (front ++ tr) r
        before front tr (ok a) h = Within-before front tr h
        before front tr (err e) h = tt
        before front tr (panic s) h = tt
        before front tr (fatal s) h = tt

    module _ {Below : Pooling ⊥} (P : Pools Below) where
      pub Always-finally :
          (close : Routine Unit) (s : Script A)
          → Always P s WhenWithin
          → Always P (finally close s) WhenWithin
      unfolding finally Always
      Always-finally close s h = Always-and_then P s _ _ (Always-mono P s _ _ goes h)
        where
          goes :
              (tr : Trace) (r : Result A)
              → WhenWithin tr r
              → Always P (closing close r) (λ tr' r'. WhenWithin (tr ++ tr') r')
          goes tr (ok a) w =
              Ensures-always P.tasks.pooled close _ (λ tr' x. Within-after tr (tr' ++ []) w)
          goes tr (err e) w = Ensures-always P.tasks.pooled close _ (λ tr' x. tt)
          goes tr (panic e) w = Ensures-always P.tasks.pooled close _ (λ tr' x. tt)
          goes tr (fatal e) w = tt

      pub Always-returned :
          (tr : Trace) (a : A)
          → Within tr
          → Always P (returning (ok a)) (λ tr' r. WhenWithin (tr ++ tr') r)
      unfolding Always
      Always-returned tr a w = rw append-nil w
