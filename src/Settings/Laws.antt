-- ===== src/Settings/Laws.antt =====
-- What holds of the clusters of an instance that started.
use kafkascope.Prelude.{String, Bool, true, false, ◌&&◌, ◌||◌, not, List, []}
use kafkascope.Prelude.{◌∷◌, ◌≡◌, ◌≢◌, refl, subst, contains, string_eq, if◌then◌else◌, arith}
use kafkascope.Prelude.Dict.{Dict, insert, AllEntries, AllEntries-insert}
use kafkascope.Prelude.Text.{strip, truthy, has_prefix}
use kafkascope.Failure.{Failure, ok, ◌>>=◌, ◌>>◌, require, >>=-eq-ok}
use kafkascope.Failure.{require-eq-ok, ok-injective, or_raise, value_error, unknown_protocol}
use kafkascope.Failure.{unknown_mechanism, clusters_invalid_json}
use kafkascope.Json
use kafkascope.Json.{Json, Items, Members}
use kafkascope.Config.{
  valid_protocols, valid_sasl, ClusterConfig, is_cluster_name, coherent_security, Python,
}
use kafkascope.Config.{
  userpass_sasl, cluster_of, cluster_from_dict, entry_cluster, collect_clusters,
}
use kafkascope.Config.Security.{IsCoherent, coherent_security_iff}
use kafkascope.Settings.{Settings, Instance, normalise_protocol, normalise_mechanism, legacy}
use kafkascope.Settings.{normalise_auth_mode, check_sasl_coherent, check_auth_coherent, flat_sasl}
use kafkascope.Settings.{resolve_clusters, single_cluster, listed_clusters, entries_of}
use kafkascope.Settings.{load_settings}

-- An entry stands under its cluster's name, which is fit for a URL, and its security settings are
-- coherent.
pub record IsEntry (k : String) (c : ClusterConfig) : Type 0 where
  pub key : k ≡ c.name
  pub url_name : is_cluster_name c.name ≡ true
  pub coherent : IsCoherent c

pub record IsFleet (clusters : Dict String ClusterConfig) : Type 0 where
  pub entries : AllEntries IsEntry clusters
  pub has_default : clusters ≢ []

cons-ne-nil : (e : String × ClusterConfig) (d : Dict String ClusterConfig) → (e ∷ d) ≢ []
cons-ne-nil e d h = cc

-- The checks of the flat variables are those of a cluster.
same_checks :
    (p m s t q : Bool) (e₁ e₂ e₃ e₄ e₅ e₆ : Failure)
    → p ≡ true
    → m ≡ true
    → (if s then require t e₅ >> require q e₆ else ok tt) ≡ ok tt
    → (require p e₁ >> (require m e₂ >> (if s then require t e₃ >> require q e₄ else ok tt)))
      ≡ ok tt
same_checks true true true true true e₁ e₂ e₃ e₄ e₅ e₆ hp hm h = refl
same_checks true true true true false e₁ e₂ e₃ e₄ e₅ e₆ hp hm h = cc
same_checks true true true false q e₁ e₂ e₃ e₄ e₅ e₆ hp hm h = cc
same_checks true true false t q e₁ e₂ e₃ e₄ e₅ e₆ hp hm h = refl
same_checks true false s t q e₁ e₂ e₃ e₄ e₅ e₆ hp hm h = cc
same_checks false m s t q e₁ e₂ e₃ e₄ e₅ e₆ hp hm h = cc

module _ (P : Python) where
  cluster_from_dict-IsEntry :
      (ms : Members) (c : ClusterConfig) → cluster_from_dict P ms ≡ ok c → IsEntry c.name c
  unfolding cluster_from_dict
  cluster_from_dict-IsEntry ms c h =
      let (u, k) = require-eq-ok _ _ _ h in
      let (n, k') = require-eq-ok _ _ _ k in
      let (b, k'') = require-eq-ok _ _ _ k' in
      let (t, s, q) = >>=-eq-ok (coherent_security (cluster_of P ms)) _ k'' in
      subst (λ (d : ClusterConfig). IsEntry d.name d) (ok-injective q)
        (record { key = refl; url_name = n; coherent = (coherent_security_iff _).0 s })

  entry_cluster-IsEntry :
      (v : Json) (c : ClusterConfig) → entry_cluster P v ≡ ok c → IsEntry c.name c
  entry_cluster-IsEntry (Json.obj ms) c h = cluster_from_dict-IsEntry ms c h
  entry_cluster-IsEntry _ c h = cc

  collect_clusters-IsEntry :
      (vs : List Json) (d result : Dict String ClusterConfig)
      → AllEntries IsEntry d
      → collect_clusters P vs d ≡ ok result
      → AllEntries IsEntry result
  unfolding collect_clusters
  collect_clusters-IsEntry [] d result h e = subst (AllEntries IsEntry) (ok-injective e) h
  collect_clusters-IsEntry (v ∷ vs) d result h e =
      let (c, made, k) = >>=-eq-ok (entry_cluster P v) _ e in
      let (fresh, k') = require-eq-ok _ _ _ k in
      collect_clusters-IsEntry vs (insert c.name c d) result
        (AllEntries-insert IsEntry c.name c d (entry_cluster-IsEntry v c made) h) k'

  insert-ne-nil :
      (k : String) (c : ClusterConfig) (d : Dict String ClusterConfig) → insert k c d ≢ []
  unfolding insert
  insert-ne-nil k c [] h = cc
  insert-ne-nil k c ((j, w) ∷ d) h = ground arith

  collect_clusters-ne-nil :
      (vs : List Json) (d result : Dict String ClusterConfig)
      → d ≢ []
      → collect_clusters P vs d ≡ ok result
      → result ≢ []
  unfolding collect_clusters
  collect_clusters-ne-nil [] d result h e = subst (λ r. r ≢ []) (ok-injective e) h
  collect_clusters-ne-nil (v ∷ vs) d result h e =
      let (c, made, k) = >>=-eq-ok (entry_cluster P v) _ e in
      let (fresh, k') = require-eq-ok _ _ _ k in
      collect_clusters-ne-nil vs (insert c.name c d) result (insert-ne-nil c.name c d) k'

  started-ne-nil :
      (v : Json) (vs : List Json) (result : Dict String ClusterConfig)
      → collect_clusters P (v ∷ vs) [] ≡ ok result
      → result ≢ []
  unfolding collect_clusters
  started-ne-nil v vs result e =
      let (c, made, k) = >>=-eq-ok (entry_cluster P v) _ e in
      let (fresh, k') = require-eq-ok _ _ _ k in
      collect_clusters-ne-nil vs (insert c.name c []) result (insert-ne-nil c.name c []) k'

  collect_clusters-IsFleet :
      (v : Json) (vs : List Json) (result : Dict String ClusterConfig)
      → collect_clusters P (v ∷ vs) [] ≡ ok result
      → IsFleet result
  collect_clusters-IsFleet v vs result e = record {
    entries = collect_clusters-IsEntry (v ∷ vs) [] result tt e;
    has_default = started-ne-nil v vs result e;
  }

  listed-IsFleet :
      (v : Json) (result : Dict String ClusterConfig)
      → (entries_of P v >>= λ entries. collect_clusters P entries []) ≡ ok result
      → IsFleet result
  listed-IsFleet (Json.arr (Json.cons v vs)) result e =
      collect_clusters-IsFleet v (Json.items vs) result e
  listed-IsFleet (Json.arr Json.nil) result e = cc
  listed-IsFleet Json.null result e = cc
  listed-IsFleet (Json.boolean b) result e = cc
  listed-IsFleet (Json.number n) result e = cc
  listed-IsFleet (Json.real n) result e = cc
  listed-IsFleet (Json.str n) result e = cc
  listed-IsFleet (Json.obj n) result e = cc
  listed-IsFleet (Json.raw n) result e = cc
  listed-IsFleet (Json.scalar n) result e = cc

  normalise_protocol-known :
      (v t : String) → normalise_protocol P v ≡ ok t → contains valid_protocols t ≡ true
  unfolding normalise_protocol
  normalise_protocol-known v t h =
      let text = P.upper (strip v) in
      let (k, e) =
        require-eq-ok (contains valid_protocols text) (value_error (unknown_protocol text))
          (ok text) h in
      subst (λ (u : String). contains valid_protocols u ≡ true) (ok-injective e) k

  normalise_mechanism-known :
      (v t : String)
      → normalise_mechanism P v ≡ ok t
      → (not (truthy t) || contains valid_sasl t) ≡ true
  unfolding normalise_mechanism
  normalise_mechanism-known v t h =
      let text = P.upper (strip v) in
      let (k, e) =
        require-eq-ok (not (truthy text) || contains valid_sasl text)
          (value_error (unknown_mechanism text)) (ok text) h in
      subst (λ (u : String). (not (truthy u) || contains valid_sasl u) ≡ true) (ok-injective e) k

  flat-coherent :
      (s : Settings)
      → contains valid_protocols s.kafka_security_protocol ≡ true
      → (not (truthy s.kafka_sasl_mechanism) || contains valid_sasl s.kafka_sasl_mechanism) ≡ true
      → (if has_prefix "SASL_" s.kafka_security_protocol then flat_sasl P s else ok tt) ≡ ok tt
      → coherent_security (legacy P s) ≡ ok tt
  unfolding coherent_security
  flat-coherent s =
      same_checks (contains valid_protocols s.kafka_security_protocol)
        (not (truthy s.kafka_sasl_mechanism) || contains valid_sasl s.kafka_sasl_mechanism)
        (has_prefix "SASL_" s.kafka_security_protocol) (truthy s.kafka_sasl_mechanism)
        (not (contains userpass_sasl s.kafka_sasl_mechanism)
          || (truthy s.kafka_sasl_username && truthy s.kafka_sasl_password))
        _ _ _ _ _ _

  single_cluster-IsFleet :
      (s : Settings) (result : Dict String ClusterConfig)
      → coherent_security (legacy P s) ≡ ok tt
      → single_cluster P s ≡ ok result
      → IsFleet result
  single_cluster-IsFleet s result c e =
      let (n, k) = require-eq-ok (is_cluster_name (legacy P s).name) _ _ e in
      subst IsFleet (ok-injective k) (record {
        entries =
            (record { key = refl; url_name = n; coherent = (coherent_security_iff _).0 c }, tt);
        has_default = cons-ne-nil ((legacy P s).name, legacy P s) [];
      })

  resolve_clusters-IsFleet :
      (s : Settings) (result : Dict String ClusterConfig)
      → contains valid_protocols s.kafka_security_protocol ≡ true
      → (not (truthy s.kafka_sasl_mechanism) || contains valid_sasl s.kafka_sasl_mechanism) ≡ true
      → check_sasl_coherent P s ≡ ok tt
      → resolve_clusters P s ≡ ok result
      → IsFleet result
  unfolding check_sasl_coherent resolve_clusters
  resolve_clusters-IsFleet s result p m c e = by_source (truthy (strip s.kafkascope_clusters)) c e
    where
      by_source :
          (listed : Bool)
          → (if listed
              then ok tt
              else if has_prefix "SASL_" s.kafka_security_protocol
              then flat_sasl P s
              else ok tt)
            ≡ ok tt
          → (if listed then listed_clusters P (strip s.kafkascope_clusters) else single_cluster P s)
            ≡ ok result
          → IsFleet result
      by_source true c e =
          let (v, loaded, k) =
            >>=-eq-ok
              (or_raise (P.loads (strip s.kafkascope_clusters)) (value_error clusters_invalid_json))
              _ e in
          listed-IsFleet v result k
      by_source false c e = single_cluster-IsFleet s result (flat-coherent s p m c) e

  -- If the settings load, the instance has at least one cluster, so a default, and every cluster
  -- stands under its own name, has a name that is fit for a URL, and has coherent security
  -- settings, whether it comes from the flat variables or from KAFKASCOPE_CLUSTERS.
  pub load_settings-IsFleet :
      (s : Settings) (i : Instance) → load_settings P s ≡ ok i → IsFleet i.clusters
  unfolding load_settings
  load_settings-IsFleet s i e =
      let (p, hp, e₁) = >>=-eq-ok (normalise_protocol P s.kafka_security_protocol) _ e in
      let (m, hm, e₂) = >>=-eq-ok (normalise_mechanism P s.kafka_sasl_mechanism) _ e₁ in
      let (a, ha, e₃) = >>=-eq-ok (normalise_auth_mode P s.kafkascope_auth_mode) _ e₂ in
      let t : Settings = record s {
        kafka_security_protocol = p;
        kafka_sasl_mechanism = m;
        kafkascope_auth_mode = a;
      } in
      let (u, hs, e₄) = >>=-eq-ok (check_sasl_coherent P t) _ e₃ in
      let (w, hw, e₅) = >>=-eq-ok (check_auth_coherent P t) _ e₄ in
      let (clusters, hc, e₆) = >>=-eq-ok (resolve_clusters P t) _ e₅ in
      subst (λ (j : Instance). IsFleet j.clusters) (ok-injective e₆)
        (resolve_clusters-IsFleet t clusters
          (normalise_protocol-known s.kafka_security_protocol p hp)
          (normalise_mechanism-known s.kafka_sasl_mechanism m hm) hs hc)
