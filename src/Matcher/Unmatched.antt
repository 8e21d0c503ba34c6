-- ===== src/Matcher/Unmatched.antt =====
-- `matchRequestMap`: which tickets of a batch it holds.
use rivalry.Prelude.{
  String, ◌≡◌, refl, ap, Bool, true, false, ◌&&◌, ◌||◌, not, Option, none, some, List, [], ◌∷◌, Map,
  All, lookup, insert, erase, map, contains, lookup-insert, lookup-erase, ==_comm, ◌==◌, eq_refl,
  arith, eq_iff,
}
use rivalry.Wire.Api.{Submission}
use rivalry.Wire.Documents
use rivalry.Wire.Streams.{StreamTicket}
use rivalry.Tickets.{stream_ticket_from_db_request, submission_from_db_request}
use rivalry.Tickets.Queue.{non_nil}
use rivalry.Matcher.{by_id, erase_all, tickets_of, present}

abbrev pub submitted_ids : List Submission → List String
submitted_ids [] = []
submitted_ids (s ∷ ss) = s.id ∷ submitted_ids ss

abbrev pub holds : Map StreamTicket → String → Bool
holds found k = elim (lookup k found) [ none ↦ false | some t ↦ true ]

pub holds-erase_all :
    (ks : List String) (found : Map StreamTicket) (k : String)
    → holds (erase_all ks found) k ≡ (holds found k && not (contains k ks))
unfolding erase_all
holds-erase_all [] found k = ground arith
holds-erase_all (j ∷ ks) found k =
    ground (arith, holds-erase_all ks (erase j found) k, lookup-erase j k found, ==_comm j k)

pub holds-insert :
    (j k : String) (t : StreamTicket) (found : Map StreamTicket)
    → holds (insert j t found) k ≡ (j == k || holds found k)
holds-insert j k t found = ground (arith, lookup-insert j k t found)

-- Tickets that the map holds are all there, with what is known of its entries.
pub tickets_of-present :
    (P : StreamTicket → Type 0) (ks : List String) (found : Map StreamTicket)
    → ((k : String) → contains k ks ≡ true → holds found k ≡ true)
    → ((k : String) (t : StreamTicket) → lookup k found ≡ some t → P t)
    → (ts : List StreamTicket) × (tickets_of found ks ≡ present ts) × All P ts
unfolding tickets_of present
tickets_of-present P [] found h p = ([], refl, tt)
tickets_of-present P (k ∷ ks) found h p =
    at_first (lookup k found) refl (h k (rw (eq_refl k)))
      (tickets_of-present P ks found (λ j c. h j (ground arith)) p)
  where
    at_first :
        (o : Option StreamTicket)
        → lookup k found ≡ o
        → elim o [ none ↦ false | some t ↦ true ] ≡ true
        → (ts : List StreamTicket) × (tickets_of found ks ≡ present ts) × All P ts
        → (ts : List StreamTicket) × ((o ∷ tickets_of found ks) ≡ present ts) × All P ts
    at_first none e c rest = cc
    at_first (some t) e c (ts, r, q) = (t ∷ ts, ap (λ l. some t ∷ l) r, (p k t e, q))

pub non_nil-tickets_of :
    (k : String) (ks : List String) (found : Map StreamTicket)
    → contains k ks ≡ true
    → holds found k ≡ false
    → non_nil (tickets_of found ks) ≡ none
unfolding tickets_of non_nil
non_nil-tickets_of k [] found c h = cc
non_nil-tickets_of k (j ∷ ks) found c h = ground (arith, eq_iff k j, non_nil-tickets_of k ks found)

pub holds-by_id :
    (k : String) (mrs : List Documents.MatchRequest) (found : Map StreamTicket)
    → holds (by_id mrs found) k
      ≡ (contains k (submitted_ids (map submission_from_db_request mrs)) || holds found k)
unfolding by_id submission_from_db_request
holds-by_id k [] found = ground arith
holds-by_id k (mr ∷ mrs) found = ground (
  arith,
  holds-by_id k mrs (insert mr.id (stream_ticket_from_db_request mr) found),
  holds-insert mr.id k (stream_ticket_from_db_request mr) found,
  ==_comm mr.id k,
)
