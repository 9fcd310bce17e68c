-- ===== src/Nodes/Cluster/Close.antt =====
-- What Close of nodes/cluster.go and nodes/backup_client.go leaves closed.
use mathlib.Core.Path.{subst}
use mathlib.Core.List.{append-nil, Memᴰ}
use cbtools_autobench.Base.{
  enumerate, ◌≡◌, refl, sym, ◌⊎◌, inl, inr, ℕ, suc, String, List, [], ◌∷◌, map,
}
use cbtools_autobench.Result.{Error, Result, ended, ended-fails, ok, err, panic, fatal, Succeeds}
use cbtools_autobench.Effect.Process.{
  close_client, Reply, answer, failure, replied, Trace, Task, ignored, call, on_ok, pure, of_reply,
  ◌>>=◌,
}
use cbtools_autobench.Effect.Runs.{
  Merge, member_left, member_right, Pooling, Runs, Pool, Ensures, Ensures-Runs, Shuffled, idle,
  finished, reported, hidden, dropped,
}
use cbtools_autobench.Ssh.Client
use cbtools_autobench.Ssh.Client.{Client}
use cbtools_autobench.Nodes.Node
use cbtools_autobench.Nodes.Node.{Node}
use cbtools_autobench.Nodes.BackupClient.{BackupClient}
use cbtools_autobench.Nodes.BackupClient
use cbtools_autobench.Nodes.Cluster.{Cluster, close, for_each_node}

-- The connection to this host has been closed.
abbrev pub HasClosed : String → Trace → Type 0
HasClosed host tr = (y : Reply) × Memᴰ (replied (close_client host) y) tr

-- Some connection could not be closed.
abbrev pub HasRefused : Trace → Type 0
HasRefused tr = (host : String) × (e : Error) × Memᴰ (replied (close_client host) (failure e)) tr

-- All connections of the cluster have been closed, unless one could not be.
abbrev pub AllClosed : Cluster → Trace → Type 0
AllClosed c tr = HasRefused tr ⊎ ((n : Node) → Memᴰ n c.nodes → HasClosed n.client.host tr)

-- Just the connection of the client has been closed, or could not be.
abbrev pub ClientClosed : BackupClient → Trace → Type 0
ClientClosed b tr = (y : Reply) × (tr ≡ replied (close_client b.node.client.host) y ∷ [])

-- One worker.
abbrev Closed : String → Trace → Result (Unit {0}) → Type 0
Closed host tr (ok a) = HasClosed host tr
Closed host tr (err e) = HasRefused tr
Closed host tr (panic s) = HasRefused tr
Closed host tr (fatal s) = HasRefused tr

-- The workers of the pool.
abbrev Closing : List (ℕ × Node) → Trace → Result (Unit {0}) → Type 0
Closing xs tr (ok a) = (x : ℕ × Node) → Memᴰ x xs → HasClosed x.1.client.host tr
Closing xs tr (err e) = HasRefused tr
Closing xs tr (panic s) = HasRefused tr
Closing xs tr (fatal s) = HasRefused tr

refused_left : {xs ys zs : Trace} → Merge xs ys zs → HasRefused xs → HasRefused zs
refused_left m (host, e, h) = (host, e, member_left m h)

refused_right : {xs ys zs : Trace} → Merge xs ys zs → HasRefused ys → HasRefused zs
refused_right m (host, e, h) = (host, e, member_right m h)

Closed-refused :
    (host : String) (tr : Trace) (r : Result (Unit {0}))
    → ¬ Succeeds r
    → Closed host tr r
    → HasRefused tr
Closed-refused host tr (ok a) n h = absurd (n tt)
Closed-refused host tr (err e) n h = h
Closed-refused host tr (panic e) n h = h
Closed-refused host tr (fatal e) n h = h

Closing-refused :
    (xs : List (ℕ × Node)) (tr : Trace) (r : Result (Unit {0}))
    → ¬ Succeeds r
    → Closing xs tr r
    → HasRefused tr
Closing-refused xs tr (ok a) n h = absurd (n tt)
Closing-refused xs tr (err e) n h = h
Closing-refused xs tr (panic e) n h = h
Closing-refused xs tr (fatal e) n h = h

Closing-failed :
    (xs : List (ℕ × Node)) (tr : Trace) (r : Result (Unit {0}))
    → ¬ Succeeds r
    → HasRefused tr
    → Closing xs tr r
Closing-failed xs tr (ok a) n h = absurd (n tt)
Closing-failed xs tr (err e) n h = h
Closing-failed xs tr (panic e) n h = h
Closing-failed xs tr (fatal e) n h = h

Closing-both :
    (x : ℕ × Node) (xs : List (ℕ × Node)) (front back tr : Trace) (r : Result (Unit {0}))
    → HasClosed x.1.client.host front
    → Closing xs back r
    → Merge front back tr
    → Closing (x ∷ xs) tr r
Closing-both x xs front back tr (ok a) (y, h) k m = goes
  where
    goes : (z : ℕ × Node) → Memᴰ z (x ∷ xs) → HasClosed z.1.client.host tr
    goes z (Memᴰ.head p) =
        subst (λ (z : ℕ × Node). HasClosed z.1.client.host tr) (sym p) (y, member_left m h)
    goes z (Memᴰ.tail q) = let (y', h') = k z q in (y', member_right m h')
Closing-both x xs front back tr (err e) h k m = refused_right m k
Closing-both x xs front back tr (panic e) h k m = refused_right m k
Closing-both x xs front back tr (fatal e) h k m = refused_right m k

module _ {W : Type 0} (Pooled : Pooling W) where
  close-replied :
      (c : Client) (Q : Trace → Result (Unit {0}) → Type 0)
      → ((s : String) → Q (replied (close_client c.host) (answer s) ∷ []) (ok tt))
      → ((e : Error) → Q (replied (close_client c.host) (failure e) ∷ []) (err e))
      → Ensures Pooled (Client.close c) Q
  unfolding Client.close Ensures ignored call ◌>>=◌
  close-replied c Q h k = goes
    where
      goes :
          (y : Reply)
          → Ensures Pooled
              (on_ok (λ x. pure tt) (of_reply y))
              (λ tr r. Q (replied (close_client c.host) y ∷ tr) r)
      goes (answer s) = h s
      goes (failure e) = k e

  close_one : (n : Node) → Ensures Pooled (Node.close n) (λ tr r. Closed n.client.host tr r)
  unfolding Node.close
  close_one n =
      close-replied n.client _ (λ s. (answer s, Memᴰ.head refl))
        (λ e. (n.client.host, e, Memᴰ.head refl))

  pub close_backup_client :
      (b : BackupClient) → Ensures Pooled (BackupClient.close b) (λ tr r. ClientClosed b tr)
  unfolding BackupClient.close Node.close
  close_backup_client b =
      close-replied b.node.client _ (λ s. (answer s, refl)) (λ e. (failure e, refl))

module _ {Below : Pooling ⊥} where
  closes :
      (xs : List (ℕ × Node)) {tr : Trace} {r : Result (Unit {0})}
      → Shuffled (Runs Below) (map (λ (i, n). Node.close n) xs) tr r
      → Closing xs tr r
  closes [] idle = λ x m. elim m [ ]
  closes (x ∷ xs) (finished {xs = front} {ys = back} {zs} {r} runs rest m) =
      Closing-both x xs front back zs r
        (Ensures-Runs Below (λ tr r. Closed x.1.client.host tr r) (close_one Below x.1) runs)
        (closes xs rest) m
  closes (x ∷ xs) (reported {r} runs n rest m) =
      Closing-failed (x ∷ xs) _ (ended r) (ended-fails r n) (
        refused_left m (
          Closed-refused x.1.client.host _ r n
            (Ensures-Runs Below (λ tr r. Closed x.1.client.host tr r) (close_one Below x.1) runs)))
  closes (x ∷ xs) (hidden {s} runs rest n m) =
      Closing-failed (x ∷ xs) _ s n (refused_right m (Closing-refused xs _ s n (closes xs rest)))
  closes (x ∷ xs) (dropped {s} rest n) =
      Closing-failed (x ∷ xs) _ s n (Closing-refused xs _ s n (closes xs rest))

mem_enumerate :
    (i : ℕ) (n : Node) (ns : List Node)
    → Memᴰ n ns
    → (x : ℕ × Node) × Memᴰ x (enumerate i ns) × (x.1 ≡ n)
mem_enumerate i n [] h = elim h [ ]
mem_enumerate i n (m ∷ ns) (Memᴰ.head p) = ((i, m), Memᴰ.head refl, sym p)
mem_enumerate i n (m ∷ ns) (Memᴰ.tail h) =
    let (x, q, e) = mem_enumerate (suc i) n ns h in (x, Memᴰ.tail q, e)

Closing-AllClosed :
    (c : Cluster) (tr : Trace) (r : Result (Unit {0}))
    → Closing (enumerate 0 c.nodes) tr r
    → AllClosed c tr
Closing-AllClosed c tr (ok a) h = inr goes
  where
    goes : (n : Node) → Memᴰ n c.nodes → HasClosed n.client.host tr
    goes n m =
        let (x, q, e) = mem_enumerate 0 n c.nodes m in
        subst (λ (n : Node). HasClosed n.client.host tr) e (h x q)
Closing-AllClosed c tr (err e) h = inl h
Closing-AllClosed c tr (panic e) h = inl h
Closing-AllClosed c tr (fatal e) h = inl h

module _ {Below : Pooling ⊥} (P : Pool (Task Unit) (Runs Below)) where
  pub close_cluster : (c : Cluster) → Ensures P.pooled (close c) (λ tr r. AllClosed c tr)
  unfolding close for_each_node Ensures
  close_cluster c = λ front r pooled.
      rw append-nil
        (Closing-AllClosed c front r (closes (enumerate 0 c.nodes) (P.documented pooled)))
