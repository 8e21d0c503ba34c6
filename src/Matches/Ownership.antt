-- ===== src/Matches/Ownership.antt =====
-- Matchers that run at the same time: the calls by which matches take their tickets and give them
-- back, in any order, over one store.
use rivalry.Prelude.{
  String, ◌≡◌, ap, inl, inr, true, false, ◌&&◌, Option, some, List, [], ◌∷◌, contains, All, All-map,
  arith,
}
use rivalry.Prelude.Results.{Result, ok, err, Error}
use rivalry.Wire.Api.{Match}
use rivalry.Platform.View.{View, ticket_assignments}
use rivalry.Platform.Env.{Env, IsSound}
use rivalry.Tickets.Matching.{assign_match_requests_to_match, release_match_requests_from_match}
use rivalry.Tickets.Matching.Assign.{
  assigned, released, AreUnowned, Assigns, Releases, assign_match_requests_to_match_lem,
  release_match_requests_from_match_lem,
}

-- The second list is the first one without one `m`.
pub data IsWithout (m : Match) : List Match → List Match → Type 0 where
  here : {ms : List Match} → IsWithout m (m ∷ ms) ms
  there : {x : Match} {ms ns : List Match} → IsWithout m ms ns → IsWithout m (x ∷ ms) (x ∷ ns)

-- A world and the matches that took their tickets and did not give them back. A step is a call of
-- some matcher, or of anything else that leaves the owners of the tickets alone.
pub data Step {W S : Type 0} (v : View W) (env : Env W S)
    : W × List Match → W × List Match → Type 0 where
  takes :
      {w w' : W} {live : List Match} (m : Match)
      → assign_match_requests_to_match env m w ≡ (ok true, w')
      → Step v env (w, live) (w', m ∷ live)
  is_refused :
      {w w' : W} {live : List Match} (m : Match)
      → assign_match_requests_to_match env m w ≡ (ok false, w')
      → Step v env (w, live) (w', live)
  fails :
      {w w' : W} {live : List Match} (m : Match) (e : Error)
      → assign_match_requests_to_match env m w ≡ (err e, w')
      → Step v env (w, live) (w', live)
  gives_back :
      {w w' : W} {live left : List Match} (m : Match) (r : Result (Unit {0}))
      → IsWithout m live left
      → release_match_requests_from_match env m w ≡ (r, w')
      → Step v env (w, live) (w', left)
  elsewhere :
      {w w' : W} {live : List Match}
      → v.entry w' ticket_assignments ≡ v.entry w ticket_assignments
      → Step v env (w, live) (w', live)

pub data Steps {W S : Type 0} (v : View W) (env : Env W S)
    : W × List Match → W × List Match → Type 0 where
  stays : {s : W × List Match} → Steps v env s s
  then : {s t u : W × List Match} → Step v env s t → Steps v env t u → Steps v env s u

-- The match owns all of its tickets.
abbrev pub IsOwner : (String → Option String) → Match → Type 0
IsOwner owner m = (k : String) → contains k m.match_request_ids ≡ true → owner k ≡ some m.match_id

-- The matches have no ticket in common.
abbrev pub AreApart : Match → Match → Type 0
AreApart m n =
    (k : String) → (contains k m.match_request_ids && contains k n.match_request_ids) ≡ false

abbrev pub AreAllApart : List Match → Type 0
AreAllApart [] = Unit
AreAllApart (m ∷ ms) = All (AreApart m) ms × AreAllApart ms

-- Each live match owns all of its tickets, and no two live matches share one.
pub record IsExclusive {W : Type 0} (v : View W) (s : W × List Match) : Type 0 where
  pub owned : All (IsOwner (v.entry s.0 ticket_assignments)) s.1
  pub apart : AreAllApart s.1

AreApart-sym : (m n : Match) → AreApart m n → AreApart n m
AreApart-sym m n h k = ground (arith, h k)

-- What is left of a list of which one match is taken out, and the matches apart from that one.
without-All {κ} :
    (P : Match → Type κ) (m : Match) {ms ns : List Match} → IsWithout m ms ns → All P ms → All P ns
without-All P m here h = h.1
without-All P m (there i) h = (h.0, without-All P m i h.1)

without-AreAllApart :
    (m : Match) {ms ns : List Match}
    → IsWithout m ms ns
    → AreAllApart ms
    → AreAllApart ns × All (AreApart m) ns
without-AreAllApart m here (away, apart) = (apart, away)
without-AreAllApart m (there {x} i) (away, apart) =
    let (apart', away') = without-AreAllApart m i apart in
    ((without-All (AreApart x) m i away, apart'), (AreApart-sym x m (at_removed i away), away'))
  where
    at_removed : {ms ns : List Match} → IsWithout m ms ns → All (AreApart x) ms → AreApart x m
    at_removed here h = h.0
    at_removed (there j) h = at_removed j h.1

module _ {W S : Type 0} {v : View W} {env : Env W S} (sound : IsSound v env) where
  -- Owners of other tickets stay, and tickets without an owner are of no live match.
  assigned-IsOwner :
      (m n : Match) (w w' : W)
      → AreUnowned v m.match_request_ids w
      → v.entry w' ≡ assigned m.match_id m.match_request_ids (v.entry w)
      → IsOwner (v.entry w ticket_assignments) n
      → IsOwner (v.entry w' ticket_assignments) n
  assigned-IsOwner m n w w' free e owns k h =
      ground (arith, ap (λ f. f ticket_assignments k) e, free k, owns k)

  released-IsOwner :
      (m n : Match) (w w' : W)
      → v.entry w' ≡ released m.match_request_ids (v.entry w)
      → AreApart m n
      → IsOwner (v.entry w ticket_assignments) n
      → IsOwner (v.entry w' ticket_assignments) n
  released-IsOwner m n w w' e apart owns k h =
      ground (arith, ap (λ f. f ticket_assignments k) e, apart k, owns k)

  unowned-AreApart :
      (m n : Match) (w : W)
      → AreUnowned v m.match_request_ids w
      → IsOwner (v.entry w ticket_assignments) n
      → AreApart m n
  unowned-AreApart m n w free owns k = ground (arith, free k, owns k)

  takes-IsExclusive :
      (m : Match) (w w' : W) (live : List Match)
      → Assigns v m.match_id m.match_request_ids w (ok true, w')
      → IsExclusive v (w, live)
      → IsExclusive v (w', m ∷ live)
  takes-IsExclusive m w w' live (free, e, q) x = record {
    owned = (
      (λ k h. ground (arith, ap (λ f. f ticket_assignments k) e)),
      All-map live (λ n. assigned-IsOwner m n w w' free e) x.owned,
    );
    apart = (All-map live (λ n. unowned-AreApart m n w free) x.owned, x.apart);
  }

  same-IsExclusive :
      (w w' : W) (live : List Match)
      → v.entry w' ticket_assignments ≡ v.entry w ticket_assignments
      → IsExclusive v (w, live)
      → IsExclusive v (w', live)
  same-IsExclusive w w' live e x = record { owned = rw e x.owned; apart = x.apart }

  fails-IsExclusive :
      (m : Match) (e : Error) (w w' : W) (live : List Match)
      → Assigns v m.match_id m.match_request_ids w (err e, w')
      → IsExclusive v (w, live)
      → IsExclusive v (w', live)
  fails-IsExclusive m e w w' live (inl same, q) x =
      same-IsExclusive w w' live (ap (λ f. f ticket_assignments) same) x
  fails-IsExclusive m e w w' live (inr (free, wrote), q) x = record {
    owned = All-map live (λ n. assigned-IsOwner m n w w' free wrote) x.owned;
    apart = x.apart;
  }

  gives_back-IsExclusive :
      (m : Match) (w : W) (live left : List Match) (o : Result (Unit {0}) × W)
      → IsWithout m live left
      → Releases v m.match_request_ids w o
      → IsExclusive v (w, live)
      → IsExclusive v (o.1, left)
  gives_back-IsExclusive m w live left o i h x = by_outcome o h
    where
      less : AreAllApart left × All (AreApart m) left
      less = without-AreAllApart m i x.apart

      owned_left : All (IsOwner (v.entry w ticket_assignments)) left
      owned_left = without-All (IsOwner (v.entry w ticket_assignments)) m i x.owned

      unchanged : (w' : W) → v.entry w' ≡ v.entry w → IsExclusive v (w', left)
      unchanged w' e =
          same-IsExclusive w w' left (ap (λ f. f ticket_assignments) e)
            (record { owned = owned_left; apart = less.0 })

      gone :
          (w' : W)
          → v.entry w' ≡ released m.match_request_ids (v.entry w)
          → IsExclusive v (w', left)
      gone w' e = record { owned = keep left less.1 owned_left; apart = less.0 }
        where
          keep :
              (ns : List Match)
              → All (AreApart m) ns
              → All (IsOwner (v.entry w ticket_assignments)) ns
              → All (IsOwner (v.entry w' ticket_assignments)) ns
          keep [] a b = tt
          keep (n ∷ ns) a b = (released-IsOwner m n w w' e a.0 b.0, keep ns a.1 b.1)

      by_outcome :
          (o : Result (Unit {0}) × W)
          → Releases v m.match_request_ids w o
          → IsExclusive v (o.1, left)
      by_outcome (ok _, w') (e, q) = gone w' e
      by_outcome (err _, w') (inl e, q) = unchanged w' e
      by_outcome (err _, w') (inr e, q) = gone w' e

  Step-IsExclusive : {s t : W × List Match} → Step v env s t → IsExclusive v s → IsExclusive v t
  Step-IsExclusive (takes {w} {w'} {live} m e) x =
      takes-IsExclusive m w w' live (rw e at (assign_match_requests_to_match_lem sound m w)) x
  Step-IsExclusive (is_refused {w} {w'} {live} m e) x =
      same-IsExclusive w w' live
        (ap (λ f. f ticket_assignments)
          (refused (rw e at (assign_match_requests_to_match_lem sound m w))))
        x
    where
      refused : Assigns v m.match_id m.match_request_ids w (ok false, w') → v.entry w' ≡ v.entry w
      refused (_, same) = same.0
  Step-IsExclusive (fails {w} {w'} {live} m z e) x =
      fails-IsExclusive m z w w' live (rw e at (assign_match_requests_to_match_lem sound m w)) x
  Step-IsExclusive (gives_back {w} {w'} {live} {left} m r i e) x =
      gives_back-IsExclusive m w live left (r, w') i
        (rw e at (release_match_requests_from_match_lem sound m w)) x
  Step-IsExclusive (elsewhere {w} {w'} {live} e) x = same-IsExclusive w w' live e x

  -- However matchers take tickets and give them back at the same time, from a world with no live
  -- match: each live match owns all of its tickets, and no two live matches share one.
  pub reached-IsExclusive :
      (w w' : W) (live : List Match) → Steps v env (w, []) (w', live) → IsExclusive v (w', live)
  reached-IsExclusive w w' live steps = follow steps (record { owned = tt; apart = tt })
    where
      follow : {s t : W × List Match} → Steps v env s t → IsExclusive v s → IsExclusive v t
      follow stays x = x
      follow (then p more) x = follow more (Step-IsExclusive p x)
