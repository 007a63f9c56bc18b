-- ===== src/Registry/Laws.antt =====
-- What the cache of a registry client keeps: an answer is settled once it is there, and no id is
-- asked of the network twice.
use kafkascope.Prelude.{ℕ, String, true, false, Option, none, some, List, [], ◌∷◌}
use kafkascope.Prelude.{◌≡◌, refl, ◌∙◌, ap, arith, nat_eq, nat_eqb_iff, contains}
use kafkascope.Prelude.{Bool-cases, inl, inr}
use kafkascope.Prelude.Dict.{
  lookup, lookup-insert, lookup-insert_self, has_key, has_key-insert, has_key-lookup,
}
use kafkascope.Failure.{Result, ok, err}
use kafkascope.Registry.{
  Network, Session, RegisteredSchema, fetched, stored, after_request, cached_or_fetch,
}
use kafkascope.Registry.{schema_by_id, new_registry, new_session}

module _ (N : Network) where
  -- A sequence of lookups, as scans of messages make them.
  abbrev pub look_up_all : List ℕ → Session N → Session N
  look_up_all [] s = s
  look_up_all (id ∷ ids) s = look_up_all ids (schema_by_id N id s).1

  cached :
      (id : ℕ) (s : Session N) (found : Option RegisteredSchema)
      → lookup id s.client.cache ≡ some found
      → schema_by_id N id s ≡ (ok found, s)
  unfolding schema_by_id
  cached id s found h = ap (cached_or_fetch N id s) h

  stored-settles :
      (id : ℕ) (s : Session N) (r : Result (Option RegisteredSchema))
      (found : Option RegisteredSchema)
      → (stored N id s r).0 ≡ ok found
      → lookup id (stored N id s r).1.client.cache ≡ some found
  stored-settles id s (ok x) found h = lookup-insert_self id x s.client.cache ∙ ground arith
  stored-settles id s (err e) found h = cc

  -- A successful lookup leaves its answer in the cache.
  settles :
      (id : ℕ) (s : Session N) (found : Option RegisteredSchema)
      → (schema_by_id N id s).0 ≡ ok found
      → lookup id (schema_by_id N id s).1.client.cache ≡ some found
  unfolding schema_by_id
  settles id s found = at_cache (lookup id s.client.cache) refl
    where
      at_cache :
          (o : Option (Option RegisteredSchema))
          → lookup id s.client.cache ≡ o
          → (cached_or_fetch N id s o).0 ≡ ok found
          → lookup id (cached_or_fetch N id s o).1.client.cache ≡ some found
      at_cache (some x) e h = e ∙ ground arith
      at_cache none e h = stored-settles id _ _ found h

  stored-keeps :
      (id j : ℕ) (s : Session N) (r : Result (Option RegisteredSchema))
      (found : Option RegisteredSchema)
      → lookup id s.client.cache ≡ none
      → lookup j s.client.cache ≡ some found
      → lookup j (stored N id s r).1.client.cache ≡ some found
  stored-keeps id j s (ok x) found fresh h =
      lookup-insert j id x s.client.cache ∙ ground (arith, nat_eqb_iff id j)
  stored-keeps id j s (err e) found fresh h = h

  -- A lookup does not change what is cached.
  keeps :
      (id j : ℕ) (s : Session N) (found : Option RegisteredSchema)
      → lookup j s.client.cache ≡ some found
      → lookup j (schema_by_id N id s).1.client.cache ≡ some found
  unfolding schema_by_id
  keeps id j s found h = at_cache (lookup id s.client.cache) refl
    where
      at_cache :
          (o : Option (Option RegisteredSchema))
          → lookup id s.client.cache ≡ o
          → lookup j (cached_or_fetch N id s o).1.client.cache ≡ some found
      at_cache (some x) e = h
      at_cache none e = stored-keeps id j (after_request N id s) _ found e h

  look_up_all-keeps :
      (ids : List ℕ) (j : ℕ) (s : Session N) (found : Option RegisteredSchema)
      → lookup j s.client.cache ≡ some found
      → lookup j (look_up_all ids s).client.cache ≡ some found
  look_up_all-keeps [] j s found h = h
  look_up_all-keeps (id ∷ ids) j s found h =
      look_up_all-keeps ids j (schema_by_id N id s).1 found (keeps id j s found h)

  -- Once a lookup of an id has returned, with a schema or with the answer that there is none, every
  -- later lookup of that id returns the same and changes nothing, so asks nothing of the network,
  -- whatever other lookups are made in between and whatever the network would answer by then.
  pub schema_by_id-settled :
      (id : ℕ) (s : Session N) (found : Option RegisteredSchema) (ids : List ℕ)
      → (schema_by_id N id s).0 ≡ ok found
      → schema_by_id N id (look_up_all ids (schema_by_id N id s).1)
        ≡ (ok found, look_up_all ids (schema_by_id N id s).1)
  schema_by_id-settled id s found ids h =
      cached id _ found (look_up_all-keeps ids id _ found (settles id s found h))

  -- Every answer is a JSON object or one of the failures that `schema_by_id` catches.
  abbrev pub NeverRaises : Type 0
  NeverRaises =
      (url auth : String) (id : ℕ) (w : N.World)
      → (found : Option RegisteredSchema) × (fetched N.upper id (N.get_schema url auth id w).0
          ≡ ok found)

  -- No id was asked twice, and what was asked is cached.
  abbrev pub NoRepeat : List ℕ → Type 0
  NoRepeat [] = Unit
  NoRepeat (id ∷ ids) = (contains ids id ≡ false) × NoRepeat ids

  record IsFrugal (s : Session N) : Type 0 where
    once : NoRepeat s.asked
    known : (id : ℕ) → contains s.asked id ≡ true → has_key id s.client.cache ≡ true

  schema_by_id-IsFrugal :
      NeverRaises → (id : ℕ) (s : Session N) → IsFrugal s → IsFrugal (schema_by_id N id s).1
  unfolding schema_by_id
  schema_by_id-IsFrugal never id s h = at_cache (lookup id s.client.cache) refl
    where
      unasked : lookup id s.client.cache ≡ none → contains s.asked id ≡ false
      unasked e = elim (Bool-cases (contains s.asked id)) [
        | inl old ↦ absurd ((has_key-lookup id s.client.cache).0 (h.known id old) e)
        | inr new ↦ new
      ]

      at_cache :
          (o : Option (Option RegisteredSchema))
          → lookup id s.client.cache ≡ o
          → IsFrugal (cached_or_fetch N id s o).1
      at_cache (some x) e = h
      at_cache none e =
          let (found, r) = never s.client.url s.client.auth id s.world in
          rw (r, stored)
            (record {
              once = (unasked e, h.once);
              known = λ j c. has_key-insert j id found s.client.cache ∙ ground (arith, h.known j);
            })

  look_up_all-IsFrugal :
      NeverRaises → (ids : List ℕ) (s : Session N) → IsFrugal s → IsFrugal (look_up_all ids s)
  look_up_all-IsFrugal never [] s h = h
  look_up_all-IsFrugal never (id ∷ ids) s h =
      look_up_all-IsFrugal never ids (schema_by_id N id s).1 (schema_by_id-IsFrugal never id s h)

  -- Over any sequence of lookups from a new client, with repetitions, the network is asked for no
  -- id twice, if every answer is a JSON object or one of the failures that the client catches.
  pub look_up_all-asks_once :
      NeverRaises
      → (ids : List ℕ) (url auth : String) (w : N.World)
      → NoRepeat (look_up_all ids (new_session N url auth w)).asked
  look_up_all-asks_once never ids url auth w =
      (look_up_all-IsFrugal never ids (new_session N url auth w)
        (unfold new_registry in record { once = tt; known = λ j c. cc })).once
