-- ===== src/Client/Pool/Laws.antt =====
-- A client is never handed out for another cluster than the one that it was opened for.
use kafkascope.Prelude.{
  String, Bool, true, false, Option, none, some, List, [], ◌∷◌, string_eq, All,
}
use kafkascope.Prelude.{◌≡◌, refl, sym, subst, ap, ◌∙◌, eq_iff, ◌==◌, if◌then◌else◌}
use kafkascope.Prelude.Dict.{Dict, lookup, insert, lookup-insert, lookup-nil}
use kafkascope.Failure.{Result, ok}
use kafkascope.Config.{ClusterConfig}
use kafkascope.Client.{Context, current_cluster}
use kafkascope.Client.Pool.{Configuration, shared, producer_config, kept_or_opened, client_of}
use kafkascope.Client.Pool.{
  admin, producer, Clients, Call, an_admin, a_producer, called, after_calls,
}

-- The cluster of the context is a configured one, of that name.
abbrev pub IsConfigured : Dict String ClusterConfig → Context → Type 0
IsConfigured clusters x =
    (c : ClusterConfig) × (current_cluster x ≡ ok c) × (lookup c.name clusters ≡ some c)

module _ {Client : Type 0} (open_client : Configuration → Client)
    (clusters : Dict String ClusterConfig) where
  -- Each client was opened with the configuration of the configured cluster of its name.
  abbrev pub AreOwn : (ClusterConfig → Configuration) → Dict String Client → Type 0
  AreOwn config pool =
      (name : String) (client : Client)
      → lookup name pool ≡ some client
      → (c : ClusterConfig) × (lookup name clusters ≡ some c) × (client ≡ open_client (config c))

  some-injective : {A : Type 0} {a b : A} → some a ≡ some b → a ≡ b
  some-injective h = cc

  AreOwn-insert :
      (config : ClusterConfig → Configuration) (pool : Dict String Client) (c : ClusterConfig)
      → lookup c.name clusters ≡ some c
      → AreOwn config pool
      → AreOwn config (insert c.name (open_client (config c)) pool)
  AreOwn-insert config pool c known own name client found =
      by_name (c.name == name) ((eq_iff c.name name).0)
        (sym (lookup-insert name c.name _ pool) ∙ found)
    where
      by_name :
          (b : Bool)
          → (b ≡ true → c.name ≡ name)
          → (if b then some (open_client (config c)) else lookup name pool) ≡ some client
          → (d : ClusterConfig) × (lookup name clusters ≡ some d)
            × (client ≡ open_client (config d))
      by_name true same e =
          (c, subst (λ n. lookup n clusters ≡ some c) (same refl) known, sym (some-injective e))
      by_name false same e = own name client e

  -- What a call gives, and the pool behind it.
  client_of-AreOwn :
      (config : ClusterConfig → Configuration) (pool : Dict String Client) (c : ClusterConfig)
      → lookup c.name clusters ≡ some c
      → AreOwn config pool
      → ((client_of open_client config pool (ok c)).0 ≡ ok (open_client (config c)))
        × AreOwn config (client_of open_client config pool (ok c)).1
  client_of-AreOwn config pool c known own = by_entry (lookup c.name pool) refl
    where
      by_entry :
          (o : Option Client)
          → lookup c.name pool ≡ o
          → (ok (kept_or_opened open_client c (config c) pool o).0 ≡ ok (open_client (config c)))
            × AreOwn config (kept_or_opened open_client c (config c) pool o).1
      by_entry none e = (refl, AreOwn-insert config pool c known own)
      by_entry (some client) e =
          let (d, there, made) = own c.name client e in
          let same = some-injective (sym there ∙ known) in
          (ap ok (made ∙ ap (λ k. open_client (config k)) same), own)

  at_cluster :
      (config : ClusterConfig → Configuration) (pool : Dict String Client) (c : ClusterConfig)
      {o : Result ClusterConfig}
      → ok c ≡ o
      → lookup c.name clusters ≡ some c
      → AreOwn config pool
      → ((client_of open_client config pool o).0 ≡ ok (open_client (config c)))
        × AreOwn config (client_of open_client config pool o).1
  at_cluster config pool c here known own =
      subst
        (λ o.
          ((client_of open_client config pool o).0 ≡ ok (open_client (config c)))
          × AreOwn config (client_of open_client config pool o).1)
        here (client_of-AreOwn config pool c known own)

  abbrev pub AreAllOwn : Clients open_client → Type 0
  AreAllOwn p = AreOwn shared p.admins × AreOwn producer_config p.producers

  -- What a call asks for, and for which cluster.
  abbrev pub context_of : Call open_client → Context
  context_of (an_admin x) = x
  context_of (a_producer x) = x

  abbrev pub configuration_of : Call open_client → ClusterConfig → Configuration
  configuration_of (an_admin x) c = shared c
  configuration_of (a_producer x) c = producer_config c

  called-AreOwn :
      (call : Call open_client) (p : Clients open_client) (c : ClusterConfig)
      → current_cluster (context_of call) ≡ ok c
      → lookup c.name clusters ≡ some c
      → AreAllOwn p
      → ((called open_client call p).0 ≡ ok (open_client (configuration_of call c)))
        × AreAllOwn (called open_client call p).1
  unfolding admin producer
  called-AreOwn (an_admin x) p c here known own =
      let (given, mine) = at_cluster shared p.admins c (sym here) known own.0 in
      (given, (mine, own.1))
  called-AreOwn (a_producer x) p c here known own =
      let (given, mine) = at_cluster producer_config p.producers c (sym here) known own.1 in
      (given, (own.0, mine))

  after_calls-AreOwn :
      (calls : List (Call open_client)) (p : Clients open_client)
      → All (λ call. IsConfigured clusters (context_of call)) calls
      → AreAllOwn p
      → AreAllOwn (after_calls open_client calls p)
  unfolding after_calls
  after_calls-AreOwn [] p hs own = own
  after_calls-AreOwn (call ∷ calls) p ((c, here, known), hs) own =
      after_calls-AreOwn calls _ hs (called-AreOwn call p c here known own).1

  -- Whatever calls for clients came before, on whichever configured clusters, a call for an
  -- administrator's client or a producer gives one that was opened with the configuration of the
  -- cluster that it is for.
  pub called-IsOwn :
      (calls : List (Call open_client)) (call : Call open_client) (c : ClusterConfig)
      → All (λ earlier. IsConfigured clusters (context_of earlier)) calls
      → current_cluster (context_of call) ≡ ok c
      → lookup c.name clusters ≡ some c
      → (called open_client call
          (after_calls open_client calls (record { admins = []; producers = [] }))).0
        ≡ ok (open_client (configuration_of call c))
  called-IsOwn calls call c hs here known =
      (called-AreOwn call _ c here known (after_calls-AreOwn calls _ hs (none_own, none_own))).0
    where
      none_own : {config : ClusterConfig → Configuration} → AreOwn config []
      none_own name client e = elim (absurd (sym (lookup-nil name) ∙ e)) [ ]
        where
          absurd : {o : Client} → none ≡ some o → ⊥
          absurd h = cc
