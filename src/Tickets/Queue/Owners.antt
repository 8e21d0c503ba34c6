-- ===== src/Tickets/Queue/Owners.antt =====
-- Reading the owners of tickets, and the set of the tickets without one.
use rivalry.Prelude.{
  String, ◌≡◌, refl, sym, ◌∙◌, Bool, true, false, ◌&&◌, ◌||◌, Option, none, some, List, [], ◌∷◌,
  Map, lookup, length, leb, contains, if◌then◌else◌, ◌==◌, eq_iff, arith,
}
use rivalry.Prelude.Results.{Result, ok, err, Error}
use rivalry.Wire.Streams.{StreamTicket}
use rivalry.Platform.View.{View, IsSame, IsSame-trans, ticket_assignments}
use rivalry.Platform.Store.{ReadsAll}
use rivalry.Platform.Backoff.{retry, retry-Attempts, Attempts-cases, exponential}
use rivalry.Platform.Sets.{SetLib, AreSets}
use rivalry.Platform.Env.{Env, IsSound}
use rivalry.Tickets.Queue.{ids_of, unallocated}

abbrev pub is_none : Option String → Bool
is_none none = true
is_none (some x) = false

module _ {S : Type 0} {sets : SetLib S} (laws : AreSets sets) where
  -- An empty set has no members.
  pub has-empty : (s : S) → leb (sets.cardinality s) 0 ≡ true → (k : String) → sets.has k s ≡ false
  has-empty s e k =
      sym (laws.contains-to_slice k s) ∙ no_member (sets.to_slice s) (laws.length-to_slice s)
    where
      no_member : (ks : List String) → length ks ≡ sets.cardinality s → contains k ks ≡ false
      no_member [] l = refl
      no_member (j ∷ ks) l = ground arith

module _ {W S : Type 0} {v : View W} {env : Env W S} (sound : IsSound v env) where
  pub has-unallocated :
      (found : Map String) (ks : List String) (s : S) (k : String)
      → env.sets.has k (unallocated env found ks s)
        ≡ (env.sets.has k s || (contains k ks && is_none (lookup k found)))
  unfolding unallocated
  has-unallocated found [] s k = ground arith
  has-unallocated found (j ∷ ks) s k =
      at_owner (λ s'. has-unallocated found ks s' k) (lookup j found) refl
    where
      at_owner :
          ((s' : S)
            → env.sets.has k (unallocated env found ks s')
              ≡ (env.sets.has k s' || (contains k ks && is_none (lookup k found))))
          → (o : Option String) → lookup j found ≡ o
          → env.sets.has k (elim o [
            | none ↦ unallocated env found ks (env.sets.add j s).1
            | some x ↦ unallocated env found ks s
          ])
            ≡ (env.sets.has k s || ((k == j || contains k ks) && is_none (lookup k found)))
      at_owner rest none e =
          ground (arith, rest (env.sets.add j s).1, sound.sets_lem.has-add j k s, eq_iff k j)
      at_owner rest (some x) e = ground (arith, rest s, eq_iff k j)

  -- How reading the owners ends.
  unfoldable pub ReadsOwners : List StreamTicket → W → Result (Map String) × W → Type 0
  ReadsOwners ts w (ok found, w') =
      ((k : String)
        → lookup k found
          ≡ (if contains k (ids_of ts) then v.entry w' ticket_assignments k else none))
      × IsSame v w w'
  ReadsOwners ts w (err _, w') =
      ((w1 w2 : W) × (e : Error) × (env.kv_store.mget "ticket_assignments" (ids_of ts) w1
          ≡ (err e, w2)))
      × IsSame v w w'

  pub reads_owners :
      (ts : List StreamTicket) (w : W)
      → ReadsOwners ts w (
          retry env.backoff
            (env.kv_store.mget "ticket_assignments" (ids_of ts))
            (exponential env.backoff ∷ [])
            w)
  unfolding ReadsOwners
  reads_owners ts w =
      Attempts-cases (λ w'. IsSame v w w') (ReadsOwners ts w) good bad (refl, refl, refl)
        (retry-Attempts env.backoff sound.backoff_lem
          (env.kv_store.mget "ticket_assignments" (ids_of ts)) (exponential env.backoff ∷ []) w)
    where
      read_at :
          (w1 : W)
          → ReadsAll v ticket_assignments
              (ids_of ts)
              w1
              (env.kv_store.mget "ticket_assignments" (ids_of ts) w1)
      read_at w1 = sound.store_lem.mget_lem ticket_assignments (ids_of ts) w1

      found_at :
          (w1 w' : W) (found : Map String)
          → ReadsAll v ticket_assignments (ids_of ts) w1 (ok found, w')
          → IsSame v w w1
          → ((k : String)
              → lookup k found
                ≡ (if contains k (ids_of ts) then v.entry w' ticket_assignments k else none))
            × IsSame v w w'
      found_at w1 w' found (read, _, same) q = ((λ k. rw (same.0) (read k)), IsSame-trans v q same)

      good :
          (w1 : W)
          → IsSame v w w1
          → (found : Map String) (w' : W)
          → env.kv_store.mget "ticket_assignments" (ids_of ts) w1 ≡ (ok found, w')
          → ReadsOwners ts w (ok found, w')
      good w1 q found w' e = found_at w1 w' found (rw e at (read_at w1)) q

      bad :
          (w1 : W)
          → IsSame v w w1
          → (e : Error) (w' : W)
          → env.kv_store.mget "ticket_assignments" (ids_of ts) w1 ≡ (err e, w')
          → IsSame v w w' × ((e' : Error) → ReadsOwners ts w (err e', w'))
      bad w1 q x w' e =
          let q' : IsSame v w w' = IsSame-trans v q (the_same (rw e at (read_at w1))) in
          (q', λ _. ((w1, w', x, e), q'))
        where
          the_same : ReadsAll v ticket_assignments (ids_of ts) w1 (err x, w') → IsSame v w1 w'
          the_same same = same
