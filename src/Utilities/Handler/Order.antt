-- ===== src/Utilities/Handler/Order.antt =====
-- That the lock of LoggingHandler of utilities/logging.go keeps lines whole.
use mathlib.Core.Path.{subst}
use mathlib.Core.List.Perm
use mathlib.Core.List.{Perm, perm_middle, perm_append_singleton}
use text.Mathlib.TextLemmas as Text
use cbtools_autobench.Base.{
  ◌≡◌, refl, sym, ◌∙◌, ap, String, ◌<>◌, Bool, true, false, List, [], ◌∷◌, ◌++◌,
}
use cbtools_autobench.Utilities.Logging.{Level}
use cbtools_autobench.Utilities.Handler.{
  Goroutine, before, writing, after, LoggingHandler, Step, locks, writes, unlocks, Steps, here,
  then,
}

-- The texts one after the other.
unfoldable pub joined : List String → String
joined [] = ""
joined (l ∷ ls) = l <> joined ls

-- The lines of the goroutines that are done.
unfoldable pub finished : List Goroutine → List String
finished [] = []
finished (after line ∷ gs) = line ∷ finished gs
finished (_ ∷ gs) = finished gs

-- The goroutines that write, with their line and what is left of it.
unfoldable writers : List Goroutine → List (String × String)
writers [] = []
writers (writing line rest ∷ gs) = (line, rest) ∷ writers gs
writers (_ ∷ gs) = writers gs

finished-append : (xs ys : List Goroutine) → finished (xs ++ ys) ≡ finished xs ++ finished ys
unfolding finished
finished-append [] ys = refl
finished-append (after line ∷ xs) ys = ap (λ ls. line ∷ ls) (finished-append xs ys)
finished-append (before l t f ∷ xs) ys = finished-append xs ys
finished-append (writing l r ∷ xs) ys = finished-append xs ys

writers-append : (xs ys : List Goroutine) → writers (xs ++ ys) ≡ writers xs ++ writers ys
unfolding writers
writers-append [] ys = refl
writers-append (writing l r ∷ xs) ys = ap (λ ws. (l, r) ∷ ws) (writers-append xs ys)
writers-append (before l t f ∷ xs) ys = writers-append xs ys
writers-append (after l ∷ xs) ys = writers-append xs ys

-- The lock has one holder, who has written a part of its line behind the whole lines of the others.
record Holds (order : List String) (h : LoggingHandler) : Type 0 where
  pub line : String
  pub part : String
  pub rest : String
  pub holder : writers h.goroutines ≡ (line, rest) ∷ []
  pub split : part <> rest ≡ line
  pub out : h.writer ≡ joined order <> part

record Free (order : List String) (h : LoggingHandler) : Type 0 where
  pub nobody : writers h.goroutines ≡ []
  pub out : h.writer ≡ joined order

abbrev Locked : Bool → List String → LoggingHandler → Type 0
Locked true order h = Holds order h
Locked false order h = Free order h

record Sound (h : LoggingHandler) : Type 0 where
  pub order : List String
  pub all_once : Perm order (finished h.goroutines)
  pub lock : Locked h.mu order h

only :
    {A : Type 0} (xs ys : List A) (x y : A)
    → xs ++ x ∷ ys ≡ y ∷ []
    → (xs ≡ []) × (x ≡ y) × (ys ≡ [])
only [] ys x y e = (refl, cc, cc)
only (z ∷ []) ys x y e = cc
only (z ∷ (z' ∷ zs)) ys x y e = cc

none_of : {A : Type 0} (xs ys : List A) → xs ++ ys ≡ [] → (xs ≡ []) × (ys ≡ [])
none_of [] ys e = (refl, e)
none_of (x ∷ xs) ys e = cc

joined-append : (ls : List String) (line : String) → joined (ls ++ line ∷ []) ≡ joined ls <> line
unfolding joined
joined-append [] line = rw (Text.append-nil, Text.nil-append) refl
joined-append (l ∷ ls) line = rw (joined-append ls line, Text.append_assoc) refl

locks-Sound :
    (xs ys : List Goroutine) (level : Level) (text fields line out : String)
    → Sound (record { mu = false; writer = out; goroutines = xs ++ before level text fields ∷ ys })
    → Sound (record { mu = true; writer = out; goroutines = xs ++ writing line line ∷ ys })
unfolding writers finished
locks-Sound xs ys level text fields line out s =
    let (left, right) =
      none_of (writers xs) (writers ys) (sym (writers-append xs _) ∙ s.lock.nobody) in
    record {
      order = s.order;
      all_once =
          subst (λ (ls : List String). Perm s.order ls)
            (finished-append xs _ ∙ sym (finished-append xs _)) s.all_once;
      lock = record {
        line = line;
        part = "";
        rest = line;
        holder = rw (writers-append, left, right) refl;
        split = Text.nil-append _;
        out = s.lock.out ∙ sym (Text.append-nil _);
      };
    }

writes-Sound :
    (xs ys : List Goroutine) (line piece rest out : String)
    → Sound
        (record { mu = true; writer = out; goroutines = xs ++ writing line (piece <> rest) ∷ ys })
    → Sound (record { mu = true; writer = out <> piece; goroutines = xs ++ writing line rest ∷ ys })
unfolding writers finished
writes-Sound xs ys line piece rest out s =
    let (left, same, right) =
      only (writers xs) (writers ys) (line, piece <> rest) (s.lock.line, s.lock.rest)
        (sym (writers-append xs _) ∙ s.lock.holder) in
    record {
      order = s.order;
      all_once =
          subst (λ (ls : List String). Perm s.order ls)
            (finished-append xs _ ∙ sym (finished-append xs _)) s.all_once;
      lock = record {
        line = line;
        part = s.lock.part <> piece;
        rest = rest;
        holder = rw (writers-append, left, right) refl;
        split = rw Text.append_assoc (
            ap (λ (r : String). s.lock.part <> r) (ap (λ (p : String × String). p.1) same)
            ∙ (s.lock.split ∙ sym (ap (λ (p : String × String). p.0) same)));
        out = ap (λ (o : String). o <> piece) s.lock.out ∙ Text.append_assoc _ _ _;
      };
    }

last_once :
    (line : String) (order xs ys : List String)
    → Perm order (xs ++ ys)
    → Perm (order ++ line ∷ []) (xs ++ line ∷ ys)
last_once line order xs ys p =
    Perm.trans (perm_append_singleton line order)
      (Perm.trans (Perm.cons line p) (Perm.symm (perm_middle xs ys)))

Free-out :
    (locked : Bool) (order : List String) (h : LoggingHandler)
    → locked ≡ false
    → Locked locked order h
    → h.writer ≡ joined order
Free-out true order h e l = cc
Free-out false order h e l = l.out

unlocks-Sound :
    (xs ys : List Goroutine) (line out : String)
    → Sound (record { mu = true; writer = out; goroutines = xs ++ writing line "" ∷ ys })
    → Sound (record { mu = false; writer = out; goroutines = xs ++ after line ∷ ys })
unfolding writers finished
unlocks-Sound xs ys line out s =
    let (left, same, right) =
      only (writers xs) (writers ys) (line, "") (s.lock.line, s.lock.rest)
        (sym (writers-append xs _) ∙ s.lock.holder) in
    let whole : s.lock.part ≡ line =
      sym (Text.append-nil _)
      ∙ (ap (λ (r : String). s.lock.part <> r) (ap (λ (p : String × String). p.1) same)
          ∙ (s.lock.split ∙ sym (ap (λ (p : String × String). p.0) same))) in
    record {
      order = s.order ++ line ∷ [];
      all_once =
          subst (λ (ls : List String). Perm (s.order ++ line ∷ []) ls) (sym (finished-append xs _))
            (last_once line s.order (finished xs) (finished ys)
              (subst (λ (ls : List String). Perm s.order ls) (finished-append xs _) s.all_once));
      lock = record {
        nobody = rw (writers-append, left, right) refl;
        out =
            s.lock.out
            ∙ (ap (λ (p : String). joined s.order <> p) whole ∙ sym (joined-append s.order line));
      };
    }

Step-Sound : (h h' : LoggingHandler) → Step h h' → Sound h → Sound h'
Step-Sound _ _ (locks xs ys level timestamp text fields line out is_line) s =
    locks-Sound xs ys level text fields line out s
Step-Sound _ _ (writes xs ys line piece rest out) s = writes-Sound xs ys line piece rest out s
Step-Sound _ _ (unlocks xs ys line out) s = unlocks-Sound xs ys line out s

Steps-Sound : (h h' : LoggingHandler) → Steps h h' → Sound h → Sound h'
Steps-Sound _ _ (here h) s = s
Steps-Sound h h'' (then {h' = h'} steps step) s = Step-Sound h' h'' step (Steps-Sound h h' steps s)

-- No goroutine has come to the lock.
unfoldable pub AllBefore : List Goroutine → Type 0
AllBefore [] = Unit
AllBefore (before level text fields ∷ gs) = AllBefore gs
AllBefore (_ ∷ gs) = ⊥

AllBefore-Sound : (gs : List Goroutine) → AllBefore gs → (writers gs ≡ []) × (finished gs ≡ [])
unfolding AllBefore writers finished
AllBefore-Sound [] h = (refl, refl)
AllBefore-Sound (before level text fields ∷ gs) h = AllBefore-Sound gs h
AllBefore-Sound (writing line rest ∷ gs) h = absurd h
AllBefore-Sound (after line ∷ gs) h = absurd h

-- However the goroutines that log run at the same time, whenever the lock is free the writer has got the
-- lines of those that are done, each once and whole, one after the other.
pub lines_whole :
    (gs : List Goroutine) (h : LoggingHandler)
    → AllBefore gs
    → Steps (record { mu = false; writer = ""; goroutines = gs }) h
    → h.mu ≡ false
    → (order : List String) × Perm order (finished h.goroutines) × (h.writer ≡ joined order)
unfolding joined
lines_whole gs h start steps free =
    let (nobody, none) = AllBefore-Sound gs start in
    let s : Sound h = Steps-Sound _ h steps (record {
      order = [];
      all_once = subst (λ (ls : List String). Perm [] ls) (sym none) Perm.nil;
      lock = record { nobody = nobody; out = refl };
    }) in
    (s.order, s.all_once, Free-out h.mu s.order h free s.lock)
