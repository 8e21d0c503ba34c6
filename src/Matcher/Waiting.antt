-- ===== src/Matcher/Waiting.antt =====
-- The matcher's `matchRequestMap` while the matches of a batch come in.
use rivalry.Prelude.{
  String, ◌≡◌, ◌≢◌, refl, sym, ap, ◌∙◌, ◌⊎◌, inl, inr, Bool, true, false, ◌&&◌, not, Option, none,
  some, List, [], ◌∷◌, ◌++◌, append-nil, append_assoc, Map, lookup, erase, values, contains, All,
  All-IsIn, lookup-erase, value-IsIn, subst, ◌==◌, Bool-cases, if◌then◌else◌, arith,
}
use rivalry.Prelude.Results.{Result, ok, err}
use rivalry.Wire.Api.{Match}
use rivalry.Wire.Streams.{StreamTicket}
use rivalry.Platform.View.{View, ticket_assignments}
use rivalry.Platform.Env.{Env, IsSound}
use rivalry.Tickets.Queue.Resent.{IsAnswering, CanMarshal, HasOwner, requeue-Resends}
use rivalry.Matches.{identify}
use rivalry.Matches.Create.{Creates, create_match_lem}
use rivalry.CustomLogic.{MatchMakerServiceClient}
use rivalry.Matcher.{erase_all, present, give_back, after_create, on_match}
use rivalry.Matcher.Unmatched.{holds, holds-erase_all, tickets_of-present}

module _ {W : Type 0} (v : View W) where
  abbrev pub Appends : W → W → Type 0
  Appends w w' = (ms : List (String × String)) × (v.sent w' ≡ v.sent w ++ ms)

  pub Appends-trans : (a b c : W) → Appends a b → Appends b c → Appends a c
  Appends-trans a b c (ms, e) (ns, f) =
      (ms ++ ns, f ∙ ap (λ l. l ++ ns) e ∙ append_assoc (v.sent a) ms ns)

  pub Appends-none : (a b : W) → v.sent b ≡ v.sent a → Appends a b
  Appends-none a b e = ([], e ∙ sym (append-nil (v.sent a)))

module _ {W S : Type 0} (v : View W) (env : Env W S) where
  -- While the matches come in: a ticket that is known is in `matchRequestMap`, or it has an
  -- owner and no later match has it; what is available is in the map; the entries of the map are
  -- tickets of their keys, which can be written.
  abbrev pub IsWaiting : (String → Type 0) → (String → Bool) → W → Map StreamTicket × W → Type 0
  IsWaiting Known available w0 (found, w) =
      ((k : String) → Known k → (holds found k ≡ true) ⊎ ((available k ≡ false) × HasOwner v k w))
      × ((k : String) (t : StreamTicket) → lookup k found ≡ some t → t.match_request_id ≡ k)
      × All (CanMarshal env) (values found)
      × ((k : String) → available k ≡ true → holds found k ≡ true)
      × Appends v w0 w

  -- What a match does to the tickets of the map: those that leave it are its own, and have an owner.
  abbrev pub Takes :
      (String → Bool) → List String → Map StreamTicket × W → Map StreamTicket × W → Type 0
  Takes available ids (found, w) (found', w') =
      ((k : String) → available k ≡ false → HasOwner v k w → HasOwner v k w')
      × ((k : String)
          → holds found k ≡ true
          → (holds found' k ≡ true) ⊎ ((contains k ids ≡ true) × HasOwner v k w'))
      × ((k : String) (t : StreamTicket) → lookup k found' ≡ some t → lookup k found ≡ some t)
      × (All (CanMarshal env) (values found) → All (CanMarshal env) (values found'))
      × Appends v w w'

  -- One match more.
  pub IsWaiting-Takes :
      (Known : String → Type 0) (available : String → Bool) (ids : List String) (w0 w w' : W)
      (found found' : Map StreamTicket)
      → IsWaiting Known available w0 (found, w)
      → Takes available ids (found, w) (found', w')
      → IsWaiting Known (λ k. available k && not (contains k ids)) w0 (found', w')
  IsWaiting-Takes Known available ids w0 w w' found found' (a, b, d, c, s)
        (keeps, left, sub, all, t) =
      (
        (λ k h. still k (a k h)),
        (λ k t e. b k t (sub k t e)),
        all d,
        (λ k h. in_map k h (left k (c k (ground arith)))),
        Appends-trans v w0 w w' s t,
      )
    where
      in_map :
          (k : String)
          → (available k && not (contains k ids)) ≡ true
          → (holds found' k ≡ true) ⊎ ((contains k ids ≡ true) × HasOwner v k w')
          → holds found' k ≡ true
      in_map k h (inl held) = held
      in_map k h (inr (among, owned)) = ground arith

      leaves :
          (k : String)
          → (holds found' k ≡ true) ⊎ ((contains k ids ≡ true) × HasOwner v k w')
          → (holds found' k ≡ true)
            ⊎ (((available k && not (contains k ids)) ≡ false) × HasOwner v k w')
      leaves k (inl held) = inl held
      leaves k (inr (among, owned)) = inr (ground arith, owned)

      still :
          (k : String)
          → (holds found k ≡ true) ⊎ ((available k ≡ false) × HasOwner v k w)
          → (holds found' k ≡ true)
            ⊎ (((available k && not (contains k ids)) ≡ false) × HasOwner v k w')
      still k (inl held) = leaves k (left k held)
      still k (inr (gone, owned)) = inr (ground arith, keeps k gone owned)

lookup-erase_all :
    (ks : List String) (found : Map StreamTicket) (k : String) (t : StreamTicket)
    → lookup k (erase_all ks found) ≡ some t
    → lookup k found ≡ some t
unfolding erase_all
lookup-erase_all [] found k t e = e
lookup-erase_all (j ∷ ks) found k t e =
    ground (arith, lookup-erase_all ks (erase j found) k t e, lookup-erase j k found)

All-erase :
    (P : StreamTicket → Type 0) (k : String) (found : Map StreamTicket)
    → All P (values found)
    → All P (values (erase k found))
All-erase P k [] d = d
All-erase P k ((j, t) ∷ found) d = elim (Bool-cases (j == k)) [
  | inl same ↦ rw same (All-erase P k found d.1)
  | inr other ↦ rw other (d.0, All-erase P k found d.1)
]

All-erase_all :
    (P : StreamTicket → Type 0) (ks : List String) (found : Map StreamTicket)
    → All P (values found)
    → All P (values (erase_all ks found))
unfolding erase_all
All-erase_all P [] found d = d
All-erase_all P (k ∷ ks) found d = All-erase_all P ks (erase k found) (All-erase P k found d)

module _ {W S : Type 0} {v : View W} {env : Env W S} (sound : IsSound v env)
    (answering : IsAnswering env) (client : MatchMakerServiceClient W) where
  module _ (m : Match) (available : String → Bool) (found : Map StreamTicket) (w : W)
      (held : (k : String) → available k ≡ true → holds found k ≡ true)
      (fits : (k : String) → contains k m.match_request_ids ≡ true → available k ≡ true)
      (writable : All (CanMarshal env) (values found)) where
    -- What the callback returns, and what it takes.
    abbrev pub Steps : Option (Map StreamTicket × W) → Type 0
    Steps o =
        (s : Map StreamTicket × W) × (o ≡ some s)
        × Takes v env available m.match_request_ids (found, w) s

    -- A match that was not created gives its tickets back.
    give_back-Steps :
        (w1 : W)
        → ((k : String) → available k ≡ false → HasOwner v k w → HasOwner v k w1)
        → Appends v w w1
        → Steps (give_back env client found m.match_request_ids w1)
    unfolding give_back present
    give_back-Steps w1 keeps sent =
        let (ts, e, can) =
          tickets_of-present (CanMarshal env) m.match_request_ids found (λ k c. held k (fits k c))
            (λ k t h.
              All-IsIn (CanMarshal env) t (values found) writable (value-IsIn k t found h)) in
        let (w2, r, q) = requeue-Resends sound answering ts w1 can in
        (
          (found, w2),
          rw (e, r) refl,
          (
            (λ k gone owned.
                subst (λ f. f ticket_assignments k ≢ none) (sym q.0) (keeps k gone owned)),
            (λ k h. inl h),
            (λ k t h. h),
            (λ d. d),
            Appends-trans v w w1 w2 sent (q.1.0, q.1.1),
          ),
        )

    created :
        (m' : Match) (o : Result Bool × W)
        → m'.match_request_ids ≡ m.match_request_ids
        → Creates v env m' w o
        → Steps (after_create env client m found o)
    unfolding after_create
    created m' (ok true, w1) same (_, (x, _, e), s, _) = (
      (erase_all m.match_request_ids found, w1),
      refl,
      (
        (λ k gone owned. elim (Bool-cases (contains k m.match_request_ids)) [
          | inl among ↦ taken k among
          | inr other ↦ λ free. owned (rw other at (sym (owner k) ∙ free))
        ]),
        (λ k h. elim (Bool-cases (contains k m.match_request_ids)) [
          | inl among ↦ inr (among, taken k among)
          | inr other ↦ inl (holds-erase_all m.match_request_ids found k ∙ ground arith)
        ]),
        (λ k t h. lookup-erase_all m.match_request_ids found k t h),
        (λ d. All-erase_all (CanMarshal env) m.match_request_ids found d),
        (_, s),
      ),
    )
      where
        owner :
            (k : String)
            → v.entry w1 ticket_assignments k ≡ (
                if contains k m.match_request_ids
                then some m'.match_id
                else v.entry w ticket_assignments k)
        owner k = ap (λ f. f ticket_assignments k) e ∙ rw same refl

        taken : (k : String) → contains k m.match_request_ids ≡ true → HasOwner v k w1
        taken k among free = ground (arith, owner k)
    created m' (ok false, w1) same (_, (e, s, _)) =
        give_back-Steps w1 (λ k gone owned. rw e owned) (Appends-none v w w1 s)
    created m' (err _, w1) same (untouched, (s, _)) =
        give_back-Steps w1
          (λ k gone owned.
            rw (untouched ticket_assignments k (rw same (ground (arith, fits k)))) owned)
          (Appends-none v w w1 s)

    -- The callback takes a match of available tickets without a panic.
    pub on_match-Steps : Steps (on_match env client (some m) (found, w))
    unfolding on_match identify
    on_match-Steps =
        created (identify env m w).0 _ (identify_ids (Bool-cases (m.match_id == "")))
          (create_match_lem sound m w)
      where
        identify_ids :
            ((m.match_id == "") ≡ true) ⊎ ((m.match_id == "") ≡ false)
            → (identify env m w).0.match_request_ids ≡ m.match_request_ids
        identify_ids (inl unnamed) = rw unnamed refl
        identify_ids (inr named) = rw named refl
