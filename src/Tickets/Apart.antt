-- ===== src/Tickets/Apart.antt =====
-- The topics keep the queues, and the kinds of messages, apart.
use Prim.Native.String.{◌++◌}
use text.Mathlib.TextLemmas.{append_cancel_left, append_assoc, append-nil, append-eq-nil_iff}
use rivalry.Prelude.{
  String, ◌≡◌, ◌≢◌, refl, sym, ◌∙◌, ◌==◌, ==_ne, false, Bool-cases, inl, inr, eq_iff, eq_refl,
  heads_eq,
}
use rivalry.Matches.{unassigned_matches_topic}
use rivalry.Tickets.Topics.{
  get_match_request_topic, get_accumulated_match_request_topic, get_match_request_subject,
}

ticket_topic_inj : (a b : String) → get_match_request_topic a ≡ get_match_request_topic b → a ≡ b
unfolding get_match_request_topic
ticket_topic_inj a b e = append_cancel_left "match_request_" a b e

batch_topic_inj :
    (a b : String)
    → get_accumulated_match_request_topic a ≡ get_accumulated_match_request_topic b
    → a ≡ b
unfolding get_accumulated_match_request_topic
batch_topic_inj a b e = append_cancel_left "accumulated_match_request_" a b e

subject_inj : (a b : String) → get_match_request_subject a ≡ get_match_request_subject b → a ≡ b
unfolding get_match_request_subject
subject_inj a b e = append_cancel_left "ticket_updates_" a b e

ticket_batch : (a b : String) → get_match_request_topic a ≢ get_accumulated_match_request_topic b
unfolding get_match_request_topic get_accumulated_match_request_topic
ticket_batch a b e = cc (
    (eq_iff "m" "a").1 (
      heads_eq "m" "a" ("atch_request_" ++ a) ("ccumulated_match_request_" ++ b)
        (sym (append_assoc "m" "atch_request_" a)
          ∙ e
          ∙ append_assoc "a" "ccumulated_match_request_" b)
        refl))

match_ticket : (a : String) → "match" ≢ get_match_request_topic a
unfolding get_match_request_topic
match_ticket a e =
    let rest : "" ≡ "_request_" ++ a =
      append_cancel_left "match" "" ("_request_" ++ a)
        (append-nil "match" ∙ e ∙ append_assoc "match" "_request_" a) in
    cc ((eq_iff "_request_" "").1 (append-eq-nil_iff.0 (sym rest)).0)

match_batch : (a : String) → "match" ≢ get_accumulated_match_request_topic a
unfolding get_accumulated_match_request_topic
match_batch a e = cc (
    (eq_iff "m" "a").1 (
      heads_eq "m" "a" "atch" ("ccumulated_match_request_" ++ a)
        (e ∙ append_assoc "a" "ccumulated_match_request_" a) refl))

same_name :
    (f : String → String)
    → ((x y : String) → f x ≡ f y → x ≡ y)
    → (a b : String) → (f a == f b) ≡ (a == b)
same_name f inj a b = elim (Bool-cases (a == b)) [
  | inl same ↦ rw ((eq_iff a b).0 same) (eq_refl (f b) ∙ sym (eq_refl b))
  | inr other ↦ ==_ne _ _ (λ q. differ other (inj a b q)) ∙ sym other
]
  where
    differ : (a == b) ≡ false → a ≢ b
    differ other q = cc ((eq_iff a b).1 q, other)

-- Two queues share a topic of tickets, or of batches, only if they have the same name, and two
-- requests a subject only if they have the same identifier; no queue's tickets go where batches or
-- matches go, and no queue's batches where matches go.
pub topics_apart :
    (a b : String)
    → ((get_match_request_topic a == get_match_request_topic b) ≡ (a == b))
      × ((get_accumulated_match_request_topic a == get_accumulated_match_request_topic b)
          ≡ (a == b))
      × ((get_match_request_subject a == get_match_request_subject b) ≡ (a == b))
      × ((get_match_request_topic a == get_accumulated_match_request_topic b) ≡ false)
      × ((unassigned_matches_topic == get_match_request_topic a) ≡ false)
      × ((unassigned_matches_topic == get_accumulated_match_request_topic a) ≡ false)
topics_apart a b = (
  same_name get_match_request_topic ticket_topic_inj a b,
  same_name get_accumulated_match_request_topic batch_topic_inj a b,
  same_name get_match_request_subject subject_inj a b,
  ==_ne _ _ (ticket_batch a b),
  ==_ne _ _ (match_ticket a),
  ==_ne _ _ (match_batch a),
)
