-- ===== src/Effect/Blame.antt =====
-- Procedures that fail only if something that they asked for has failed.
use mathlib.Core.List.Memᴰ
use mathlib.Core.List.{append-nil, Memᴰ}
use cbtools_autobench.Base.{
  refl, ℕ, String, Bool, true, false, List, [], ◌∷◌, ◌++◌, All, map, if◌then◌else◌,
}
use cbtools_autobench.Result.{
  Error, Result, ended, ok, err, panic, fatal, wrapping, embedding, Succeeds,
}
use cbtools_autobench.Effect.Process.{
  Request, Reply, answer, failure, replied, Trace, done, pool, Exec, on_ok, ◌>>=◌, call, perform,
  caught, kept, wrapped, embedded, ignored, of_reply,
}
use cbtools_autobench.Effect.Runs.{
  member_left, member_right, Pooling, Runs, Pool, Ensures, Ensures-Runs, Ensures-mono,
  Ensures-continue, Shuffled, idle, finished, reported, hidden, dropped,
}

-- Some request has failed.
abbrev pub HasFailure : Trace → Type 0
HasFailure tr = (r : Request) × (e : Error) × Memᴰ (replied r (failure e)) tr

abbrev pub Blamed : {A : Type 0} → Trace → Result A → Type 0
Blamed tr (ok a) = Unit
Blamed tr (err e) = HasFailure tr
Blamed tr (panic s) = HasFailure tr
Blamed tr (fatal s) = HasFailure tr

pub failure_left : {xs : Trace} (ys : Trace) → HasFailure xs → HasFailure (xs ++ ys)
failure_left ys (r, e, m) = (r, e, Memᴰ.append_left ys m)

pub failure_right : (xs : Trace) {ys : Trace} → HasFailure ys → HasFailure (xs ++ ys)
failure_right xs (r, e, m) = (r, e, Memᴰ.append_right xs m)

module _ {A : Type 0} where
  pub Blamed-given : (tr : Trace) (r : Result A) → HasFailure tr → Blamed tr r
  Blamed-given tr (ok a) h = tt
  Blamed-given tr (err e) h = h
  Blamed-given tr (panic s) h = h
  Blamed-given tr (fatal s) h = h

  Blamed-failed : (tr : Trace) (r : Result A) → ¬ Succeeds r → Blamed tr r → HasFailure tr
  Blamed-failed tr (ok a) n h = absurd (n tt)
  Blamed-failed tr (err e) n h = h
  Blamed-failed tr (panic s) n h = h
  Blamed-failed tr (fatal s) n h = h

  pub Blamed-right : (front tr : Trace) (r : Result A) → Blamed tr r → Blamed (front ++ tr) r
  Blamed-right front tr (ok a) h = tt
  Blamed-right front tr (err e) h = failure_right front h
  Blamed-right front tr (panic s) h = failure_right front h
  Blamed-right front tr (fatal s) h = failure_right front h

  pub Blamed-wrapping :
      (s : String) (tr : Trace) (r : Result A) → Blamed tr r → Blamed tr (wrapping s r)
  Blamed-wrapping s tr (ok a) h = h
  Blamed-wrapping s tr (err e) h = h
  Blamed-wrapping s tr (panic e) h = h
  Blamed-wrapping s tr (fatal e) h = h

  Blamed-embedding :
      (s : String) (tr : Trace) (r : Result A) → Blamed tr r → Blamed tr (embedding s r)
  Blamed-embedding s tr (ok a) h = h
  Blamed-embedding s tr (err e) h = h
  Blamed-embedding s tr (panic e) h = h
  Blamed-embedding s tr (fatal e) h = h

  Blamed-kept : (tr : Trace) (r : Result A) → Blamed tr r → Blamed tr (kept r)
  Blamed-kept tr (ok a) h = tt
  Blamed-kept tr (err e) h = tt
  Blamed-kept tr (panic e) h = h
  Blamed-kept tr (fatal e) h = h

module _ {W : Type 0} (Pooled : Pooling W) where
  module _ {A : Type 0} where
    -- On every run that does not return nil, some request has failed.
    pub record Blames (m : Exec W A) : Type 0 where
      pub runs : Ensures Pooled m (λ tr r. Blamed tr r)

    pub Blames-lift : (r : Result A) → Succeeds r → Blames (done r)
    unfolding Ensures
    Blames-lift (ok a) h = record { runs = tt }
    Blames-lift (err e) h = absurd h
    Blames-lift (panic s) h = absurd h
    Blames-lift (fatal s) h = absurd h

    pub Blames-if : (b : Bool) (m n : Exec W A) → Blames m → Blames n → Blames (if b then m else n)
    Blames-if true m n hm hn = hm
    Blames-if false m n hm hn = hn

    pub Blames-wrapped : (s : String) (m : Exec W A) → Blames m → Blames (wrapped s m)
    unfolding wrapped Ensures
    Blames-wrapped s m h = record {
      runs = Ensures-continue Pooled m _ _ (Ensures-mono Pooled m _ _ goes h.runs);
    }
      where
        goes : (tr : Trace) (r : Result A) → Blamed tr r → Blamed (tr ++ []) (wrapping s r)
        goes tr r h = rw append-nil (Blamed-wrapping s tr r h)

    pub Blames-embedded : (s : String) (m : Exec W A) → Blames m → Blames (embedded s m)
    unfolding embedded Ensures
    Blames-embedded s m h = record {
      runs = Ensures-continue Pooled m _ _ (Ensures-mono Pooled m _ _ goes h.runs);
    }
      where
        goes : (tr : Trace) (r : Result A) → Blamed tr r → Blamed (tr ++ []) (embedding s r)
        goes tr r h = rw append-nil (Blamed-embedding s tr r h)

  module _ {A B : Type 0} where
    pub Blames-bind :
        (m : Exec W A) (f : A → Exec W B) → Blames m → ((a : A) → Blames (f a)) → Blames (m >>= f)
    unfolding ◌>>=◌ Ensures
    Blames-bind m f h k = record {
      runs = Ensures-continue Pooled m (on_ok f) _ (Ensures-mono Pooled m _ _ goes h.runs);
    }
      where
        goes :
            (tr : Trace) (r : Result A)
            → Blamed tr r
            → Ensures Pooled (on_ok f r) (λ tr' s. Blamed (tr ++ tr') s)
        goes tr (ok a) h = Ensures-mono Pooled (f a) _ _ (Blamed-right tr) (k a).runs
        goes tr (err e) h = failure_left [] h
        goes tr (panic s) h = failure_left [] h
        goes tr (fatal s) h = failure_left [] h

    pub Blames-lift_bind :
        (r : Result A) (f : A → Exec W B)
        → Succeeds r
        → ((a : A) → Blames (f a))
        → Blames (done r >>= f)
    Blames-lift_bind r f h k = Blames-bind (done r) f (Blames-lift r h) k

  pub Blames-caught : {A : Type 0} (m : Exec W A) → Blames m → Blames (caught m)
  unfolding caught Ensures
  Blames-caught {A = A} m h = record {
    runs = Ensures-continue Pooled m _ _ (Ensures-mono Pooled m _ _ goes h.runs);
  }
    where
      goes : (tr : Trace) (r : Result A) → Blamed tr r → Blamed (tr ++ []) (kept r)
      goes tr r h = rw append-nil (Blamed-kept tr r h)

  pub Blames-pure : {A : Type 0} (a : A) → Blames (done (ok a))
  Blames-pure a = Blames-lift (ok a) tt

  pub Blames-ignored : {A : Type 0} (m : Exec W A) → Blames m → Blames (ignored m)
  unfolding ignored
  Blames-ignored m h = Blames-bind m _ h (λ a. Blames-pure tt)

  pub Blames-call : (r : Request) → Blames (call r)
  unfolding call Ensures
  Blames-call r = record { runs = goes }
    where
      goes : (y : Reply) → Blamed (replied r y ∷ []) (of_reply y)
      goes (answer s) = tt
      goes (failure e) = (r, e, Memᴰ.head refl)

  pub Blames-perform : (r : Request) → Blames (perform r)
  unfolding perform Ensures
  Blames-perform r = record { runs = λ y. tt }

module _ {V X : Type 0} {Below : Pooling V} (f : X → Exec V Unit) (Q : X → Type 0)
    (blames : (x : X) → Q x → Blames Below (f x)) where
  Blamed-Runs : (x : X) {tr : Trace} (r : Result Unit) → Q x → Runs Below (f x) tr r → Blamed tr r
  Blamed-Runs x r q runs = Ensures-Runs Below (λ tr r. Blamed tr r) (blames x q).runs runs

  pub Blamed-Shuffled :
      (xs : List X) {tr : Trace} {r : Result Unit}
      → All Q xs
      → Shuffled (Runs Below) (map f xs) tr r
      → Blamed tr r
  Blamed-Shuffled [] h idle = tt
  Blamed-Shuffled (x ∷ xs) (q, h) (finished {ys} {zs} {r} runs rest m) =
      goes r (Blamed-Shuffled xs h rest)
    where
      goes : (r : Result Unit) → Blamed ys r → Blamed zs r
      goes (ok a) b = tt
      goes (err e) (r, e', b) = (r, e', member_right m b)
      goes (panic s) (r, e', b) = (r, e', member_right m b)
      goes (fatal s) (r, e', b) = (r, e', member_right m b)
  Blamed-Shuffled (x ∷ xs) (q, h) (reported {r} runs n rest m) =
      let (req, e, b) = Blamed-failed _ r n (Blamed-Runs x r q runs) in
      Blamed-given _ (ended r) (req, e, member_left m b)
  Blamed-Shuffled (x ∷ xs) (q, h) (hidden {s} runs rest n m) =
      let (req, e, b) = Blamed-failed _ s n (Blamed-Shuffled xs h rest) in
      Blamed-given _ s (req, e, member_right m b)
  Blamed-Shuffled (x ∷ xs) (q, h) (dropped {s} rest n) = Blamed-Shuffled xs h rest

  -- A pool whose workers blame a request.
  pub Blames-pool :
      (P : Pool (Exec V Unit) (Runs Below)) (n : ℕ) (xs : List X)
      → All Q xs
      → Blames P.pooled (pool n (map f xs) (λ r. done r))
  unfolding Ensures
  Blames-pool P n xs h = record {
    runs = λ front r pooled. rw append-nil (Blamed-Shuffled xs h (P.documented pooled));
  }
