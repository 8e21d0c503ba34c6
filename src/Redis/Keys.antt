-- ===== src/Redis/Keys.antt =====
-- The Redis keys of a store, `prefix:collection:key`, and how they keep the collections apart.
use Prim.Native.String.{◌++◌}
use text.Mathlib.TextLemmas.{append_cancel_left, append_assoc}
use text.Mathlib.TextPositions.{eq_refl}
use rivalry.Prelude.{
  String, ◌≡◌, ◌≢◌, refl, sym, ◌∙◌, true, false, ◌&&◌, ◌==◌, eq_iff, ==_ne, arith, Bool-cases, inl,
  inr, heads_eq,
}
use rivalry.Platform.View.{
  Collection, tickets, ticket_assignments, matches, collection_name, same, same_refl,
}

-- `fmt.Sprintf("%s:%s:%s", r.prefix, collection, key)`
unfoldable pub redis_key : String → String → String → String
redis_key prefix collection key = prefix ++ (":" ++ (collection ++ (":" ++ key)))

pub redis_key_inj : (p c k j : String) → redis_key p c k ≡ redis_key p c j → k ≡ j
unfolding redis_key
redis_key_inj p c k j e =
    append_cancel_left ":" k j
      (append_cancel_left c _ _ (append_cancel_left ":" _ _ (append_cancel_left p _ _ e)))

redis_key_tail :
    (p c d k j : String) → redis_key p c k ≡ redis_key p d j → c ++ (":" ++ k) ≡ d ++ (":" ++ j)
unfolding redis_key
redis_key_tail p c d k j e = append_cancel_left ":" _ _ (append_cancel_left p _ _ e)

tickets_assignments : (k j : String) → "tickets" ++ (":" ++ k) ≢ "ticket_assignments" ++ (":" ++ j)
tickets_assignments k j e = cc (
    (eq_iff "tickets" "ticket_").1 (
      heads_eq "tickets" "ticket_" _ ("assignments" ++ (":" ++ j))
        (e ∙ append_assoc "ticket_" "assignments" _) refl))

tickets_matches : (k j : String) → "tickets" ++ (":" ++ k) ≢ "matches" ++ (":" ++ j)
tickets_matches k j e =
    cc ((eq_iff "tickets" "matches").1 (heads_eq "tickets" "matches" _ _ e refl))

assignments_matches : (k j : String) → "ticket_assignments" ++ (":" ++ k) ≢ "matches" ++ (":" ++ j)
assignments_matches k j e = cc (
    (eq_iff "ticket_" "matches").1 (
      heads_eq "ticket_" "matches" ("assignments" ++ (":" ++ k)) _
        (sym (append_assoc "ticket_" "assignments" _) ∙ e) refl))

collections_apart :
    (c d : Collection) (k j : String)
    → same c d ≡ false
    → collection_name c ++ (":" ++ k) ≢ collection_name d ++ (":" ++ j)
collections_apart tickets tickets k j h e = cc
collections_apart tickets ticket_assignments k j h e = tickets_assignments k j e
collections_apart tickets matches k j h e = tickets_matches k j e
collections_apart ticket_assignments tickets k j h e = tickets_assignments j k (sym e)
collections_apart ticket_assignments ticket_assignments k j h e = cc
collections_apart ticket_assignments matches k j h e = assignments_matches k j e
collections_apart matches tickets k j h e = tickets_matches j k (sym e)
collections_apart matches ticket_assignments k j h e = assignments_matches j k (sym e)
collections_apart matches matches k j h e = cc

same-eq : (c d : Collection) → same c d ≡ true → c ≡ d
same-eq tickets d h = ground arith
same-eq ticket_assignments d h = ground arith
same-eq matches d h = ground arith

-- Two keys of the code's collections are equal exactly when collection and key are.
pub redis_key-== :
    (p : String) (c d : Collection) (k j : String)
    → (redis_key p (collection_name c) k == redis_key p (collection_name d) j)
      ≡ (same c d && k == j)
redis_key-== p c d k j = elim (Bool-cases (same c d)) [
  | inl e ↦ rw (same-eq c d e) (same_collection d)
  | inr e ↦ rw e (==_ne _ _ (λ q. collections_apart c d k j e (redis_key_tail p _ _ k j q)))
]
  where
    clash : k ≡ j → (k == j) ≡ false → ⊥
    clash q e = cc ((eq_iff k j).1 q)

    different :
        (b : Collection)
        → (k == j) ≡ false
        → (redis_key p (collection_name b) k == redis_key p (collection_name b) j) ≡ false
    different b e = ==_ne _ _ λ q. clash (redis_key_inj p (collection_name b) k j q) e

    same_collection :
        (b : Collection)
        → (redis_key p (collection_name b) k == redis_key p (collection_name b) j)
          ≡ (same b b && k == j)
    same_collection b = rw (same_refl b) (elim (Bool-cases (k == j)) [
      | inl e ↦
          rw ((eq_iff k j).0 e) (eq_refl (redis_key p (collection_name b) j) ∙ sym (eq_refl j))
      | inr e ↦ rw e (different b e)
    ])
