-- ===== src/Effect/Follows.antt =====
-- Rules by which a procedure is shown to follow a plan, one for each way to build a process.
use mathlib.Core.List.{append-nil}
use cbtools_autobench.Base.{
  String, ◌≡◌, refl, Bool, true, false, List, [], ◌∷◌, ◌++◌, if◌then◌else◌,
}
use cbtools_autobench.Result.{Result, ok, err, panic, fatal, wrapping, embedding, Succeeds}
use cbtools_autobench.Effect.Process.{
  Request, print, Reply, answer, failure, Trace, done, continue, Exec, on_ok, ◌>>=◌, ◌>>◌, call,
  perform, wrapped, embedded, ignored, of_reply, replied,
}
use cbtools_autobench.Effect.Runs.{Pooling, Ensures, Ensures-mono, Ensures-continue}
use cbtools_autobench.Effect.Plan.{
  commands, commands-append, Action, Plan, nothing, both, Meets, Begins, stopped, whole, first,
  second, Obeys,
}

module _ {W : Type 0} (Pooled : Pooling W) {A : Type 0} where
  -- Whatever the environment answers, the remote commands keep to the plan.
  pub record Follows (plan : Plan) (m : Exec W A) : Type 0 where
    pub runs : Ensures Pooled m (λ tr r. Obeys plan (commands tr) r)

  pub Follows-pure : (a : A) → Follows nothing (done (ok a))
  unfolding Ensures commands
  Follows-pure a = record { runs = Meets.nothing }

  pub Follows-stop : (plan : Plan) (r : Result A) → ¬ Succeeds r → Follows plan (done r)
  unfolding Ensures commands
  Follows-stop plan (ok a) h = absurd (h tt)
  Follows-stop plan (err e) h = record { runs = stopped }
  Follows-stop plan (panic s) h = record { runs = stopped }
  Follows-stop plan (fatal s) h = record { runs = stopped }

  pub Follows-lift : (r : Result A) → Follows nothing (done r)
  unfolding Ensures commands
  Follows-lift (ok a) = record { runs = Meets.nothing }
  Follows-lift (err e) = record { runs = stopped }
  Follows-lift (panic s) = record { runs = stopped }
  Follows-lift (fatal s) = record { runs = stopped }

  pub Follows-if :
      (plan : Plan) (b : Bool) (m n : Exec W A)
      → Follows plan m
      → Follows plan n
      → Follows plan (if b then m else n)
  Follows-if plan true m n hm hn = hm
  Follows-if plan false m n hm hn = hn

pub Obeys-both :
    {B : Type 0} (p q : Plan) (xs ys : Trace) (r : Result B)
    → Meets p (commands xs)
    → Obeys q (commands ys) r
    → Obeys (both p q) (commands (xs ++ ys)) r
Obeys-both p q xs ys (ok b) h k = rw commands-append (Meets.both h k)
Obeys-both p q xs ys (err e) h k = rw commands-append (second h k)
Obeys-both p q xs ys (panic e) h k = rw commands-append (second h k)
Obeys-both p q xs ys (fatal e) h k = rw commands-append (second h k)

module _ {W : Type 0} (Pooled : Pooling W) {A B : Type 0} where
  pub Follows-bind :
      (p q : Plan) (m : Exec W A) (f : A → Exec W B)
      → Follows Pooled p m
      → ((a : A) → Follows Pooled q (f a))
      → Follows Pooled (both p q) (m >>= f)
  unfolding ◌>>=◌ Ensures
  Follows-bind p q m f hm hf = record {
    runs =
        Ensures-continue Pooled m (on_ok f) _
          (Ensures-mono Pooled m _ _ (λ tr r. goes tr r) hm.runs);
  }
    where
      goes :
          (tr : Trace) (r : Result A)
          → Obeys p (commands tr) r
          → Ensures Pooled (on_ok f r) (λ tr' s. Obeys (both p q) (commands (tr ++ tr')) s)
      goes tr (ok a) h =
          Ensures-mono Pooled (f a) _ _ (λ tr' s. Obeys-both p q tr tr' s h) (hf a).runs
      goes tr (err e) h = rw append-nil (first h)
      goes tr (panic e) h = rw append-nil (first h)
      goes tr (fatal e) h = rw append-nil (first h)

pub Obeys-Begins :
    {A : Type 0} {p : Plan} {xs : List Action} (r : Result A) → Obeys p xs r → Begins p xs
Obeys-Begins (ok a) h = whole h
Obeys-Begins (err e) h = h
Obeys-Begins (panic s) h = h
Obeys-Begins (fatal s) h = h

pub Obeys-result :
    {A B : Type 0} (p : Plan) (xs : List Action) (r : Result A) (s : Result B)
    → ¬ Succeeds s
    → Obeys p xs r
    → Obeys p xs s
Obeys-result p xs r (ok b) n h = absurd (n tt)
Obeys-result p xs r (err e) n h = Obeys-Begins r h
Obeys-result p xs r (panic e) n h = Obeys-Begins r h
Obeys-result p xs r (fatal e) n h = Obeys-Begins r h

-- Plans that ask for no less.
abbrev Implies : Plan → Plan → Type 0
Implies p q = (xs : List Action) → (Meets p xs → Meets q xs) × (Begins p xs → Begins q xs)

Obeys-Implies :
    {A : Type 0} {p q : Plan} (xs : List Action) (r : Result A)
    → Implies p q
    → Obeys p xs r
    → Obeys q xs r
Obeys-Implies xs (ok a) i h = (i xs).0 h
Obeys-Implies xs (err e) i h = (i xs).1 h
Obeys-Implies xs (panic e) i h = (i xs).1 h
Obeys-Implies xs (fatal e) i h = (i xs).1 h

Begins-nothing : {xs : List Action} → Begins nothing xs → xs ≡ []
Begins-nothing stopped = refl
Begins-nothing (whole Meets.nothing) = refl

Implies-nothing : (p : Plan) → Implies (both nothing p) p
Implies-nothing p xs = (meets, begins)
  where
    meets : {ys : List Action} → Meets (both nothing p) ys → Meets p ys
    meets (Meets.both Meets.nothing h) = h

    begins : {ys : List Action} → Begins (both nothing p) ys → Begins p ys
    begins stopped = stopped
    begins (whole h) = whole (meets h)
    begins (first h) = rw (Begins-nothing h) stopped
    begins (second Meets.nothing h) = h

Implies-last : (p : Plan) → Implies p (both p nothing)
Implies-last p xs = (λ h. rw append-nil at (Meets.both h Meets.nothing), λ h. first h)

module _ {W : Type 0} (Pooled : Pooling W) {A : Type 0} where
  Follows-Implies :
      {p q : Plan} (m : Exec W A) → Implies p q → Follows Pooled p m → Follows Pooled q m
  Follows-Implies m i h = record {
    runs = Ensures-mono Pooled m _ _ (λ tr r. Obeys-Implies (commands tr) r i) h.runs;
  }

  pub Follows-last :
      (p : Plan) (m : Exec W A) → Follows Pooled p m → Follows Pooled (both p nothing) m
  Follows-last p m h = Follows-Implies m (Implies-last p) h

  mapped :
      {B : Type 0} (plan : Plan) (m : Exec W A) (f : Result A → Result B)
      → ((xs : List Action) (r : Result A) → Obeys plan xs r → Obeys plan xs (f r))
      → Follows Pooled plan m
      → Follows Pooled plan (continue m (λ r. done (f r)))
  unfolding Ensures
  mapped plan m f keep h = record {
    runs =
        Ensures-continue Pooled m _ _
          (Ensures-mono Pooled m _ _ (λ tr r o. rw append-nil (keep (commands tr) r o)) h.runs);
  }

  pub Follows-wrapped :
      (plan : Plan) (context : String) (m : Exec W A)
      → Follows Pooled plan m
      → Follows Pooled plan (wrapped context m)
  unfolding wrapped
  Follows-wrapped plan context m = mapped plan m (wrapping context) keep
    where
      keep :
          (xs : List Action) (r : Result A) → Obeys plan xs r → Obeys plan xs (wrapping context r)
      keep xs (ok a) h = h
      keep xs (err e) h = h
      keep xs (panic e) h = h
      keep xs (fatal e) h = h

  pub Follows-embedded :
      (plan : Plan) (context : String) (m : Exec W A)
      → Follows Pooled plan m
      → Follows Pooled plan (embedded context m)
  unfolding embedded
  Follows-embedded plan context m = mapped plan m (embedding context) keep
    where
      keep :
          (xs : List Action) (r : Result A) → Obeys plan xs r → Obeys plan xs (embedding context r)
      keep xs (ok a) h = h
      keep xs (err e) h = h
      keep xs (panic e) h = h
      keep xs (fatal e) h = h

module _ {W : Type 0} (Pooled : Pooling W) {A B : Type 0} where
  -- A first part that sends nothing leaves the plan to the rest.
  pub Follows-silent :
      (q : Plan) (m : Exec W A) (f : A → Exec W B)
      → Follows Pooled nothing m
      → ((a : A) → Follows Pooled q (f a))
      → Follows Pooled q (m >>= f)
  Follows-silent q m f hm hf =
      Follows-Implies Pooled _ (Implies-nothing q) (Follows-bind Pooled nothing q m f hm hf)

  -- A computed value: the rest may use that it is there.
  pub Follows-lift_bind :
      (q : Plan) (r : Result A) (f : A → Exec W B)
      → ((a : A) → r ≡ ok a → Follows Pooled q (f a))
      → Follows Pooled q (done r >>= f)
  unfolding ◌>>=◌
  Follows-lift_bind q (ok a) f hf = hf a refl
  Follows-lift_bind q (err e) f hf = Follows-stop Pooled q (err e) (λ h. h)
  Follows-lift_bind q (panic e) f hf = Follows-stop Pooled q (panic e) (λ h. h)
  Follows-lift_bind q (fatal e) f hf = Follows-stop Pooled q (fatal e) (λ h. h)

module _ {W : Type 0} (Pooled : Pooling W) where
  pub Follows-ignored :
      {A : Type 0} (plan : Plan) (m : Exec W A)
      → Follows Pooled plan m
      → Follows Pooled (both plan nothing) (ignored m)
  unfolding ignored
  Follows-ignored plan m h = Follows-bind Pooled plan nothing m _ h (λ a. Follows-pure Pooled tt)

  -- A call that sends no remote command.
  pub Follows-call :
      (r : Request)
      → ((y : Reply) → commands (replied r y ∷ []) ≡ [])
      → Follows Pooled nothing (call r)
  unfolding call Ensures
  Follows-call r silent = record { runs = λ y. rw silent (obeys y) }
    where
      obeys : (y : Reply) → Obeys nothing [] (of_reply y)
      obeys (answer s) = Meets.nothing
      obeys (failure e) = stopped

  -- A line on stdout in between.
  pub Follows-print :
      {A : Type 0} (plan : Plan) (text : String) (m : Exec W A)
      → Follows Pooled plan m
      → Follows Pooled plan (perform (print text) >> m)
  unfolding perform ◌>>=◌ Ensures commands
  Follows-print plan text m h = record { runs = λ y. h.runs }

  pub Follows-perform :
      (r : Request)
      → ((y : Reply) → commands (replied r y ∷ []) ≡ [])
      → Follows Pooled nothing (perform r)
  unfolding perform Ensures
  Follows-perform r silent = record { runs = λ y. rw silent Meets.nothing }
