-- ===== src/Sample/Equality.antt =====
-- Boolean equality of the messages, and that it is sound.
use rivalry.Prelude.{
  String, ℕ, ℤ, pos, negsuc, ◌≡◌, ap, Bool, true, false, ◌&&◌, Option, none, some, List, [], ◌∷◌,
  ◌==◌, eq_iff, arith, leb,
}
use rivalry.Wire.Api
use rivalry.Wire.Streams.{StreamTicket, AccumulatedStreamTicket}

-- A test that says yes only to equal values.
pub record Test (A : Type 0) : Type 0 where
  pub test : A → A → Bool
  pub sound : (a b : A) → test a b ≡ true → a ≡ b

abbrev nat_test : ℕ → ℕ → Bool
nat_test a b = leb a b && leb b a

abbrev pub int_test : ℤ → ℤ → Bool
int_test (pos a) (pos b) = nat_test a b
int_test (negsuc a) (negsuc b) = nat_test a b
int_test _ _ = false

pub int_test_sound : (a b : ℤ) → int_test a b ≡ true → a ≡ b
int_test_sound a b h = ground arith

abbrev pub strings : Test String
strings = record { test = ◌==◌; sound = λ a b. (eq_iff a b).0 }

pub nat_test_sound : (a b : ℕ) → nat_test a b ≡ true → a ≡ b
nat_test_sound a b h = ground arith

abbrev pub nats : Test ℕ
nats = record { test = nat_test; sound = nat_test_sound }

module _ {A : Type 0} (t : Test A) where
  abbrev list_test : List A → List A → Bool
  list_test [] [] = true
  list_test (x ∷ xs) (y ∷ ys) = t.test x y && list_test xs ys
  list_test _ _ = false

  pub list_test_sound : (xs ys : List A) → list_test xs ys ≡ true → xs ≡ ys
  list_test_sound [] ys h = ground arith
  list_test_sound (x ∷ xs) [] h = cc
  list_test_sound (x ∷ xs) (y ∷ ys) h = ground (arith, t.sound x y, list_test_sound xs ys)

  abbrev option_test : Option A → Option A → Bool
  option_test none none = true
  option_test (some x) (some y) = t.test x y
  option_test _ _ = false

  pub option_test_sound : (x y : Option A) → option_test x y ≡ true → x ≡ y
  option_test_sound none y h = ground arith
  option_test_sound (some x) none h = cc
  option_test_sound (some x) (some y) h = ap some (t.sound x y h)

  abbrev pub lists : Test (List A)
  lists = record { test = list_test; sound = list_test_sound }

  abbrev pub options : Test (Option A)
  options = record { test = option_test; sound = option_test_sound }

  abbrev entry_test : String × A → String × A → Bool
  entry_test a b = a.0 == b.0 && t.test a.1 b.1

  pub entry_test_sound : (a b : String × A) → entry_test a b ≡ true → a ≡ b
  entry_test_sound (j, x) (k, y) h = ground (arith, eq_iff j k, t.sound x y)

  abbrev pub entries : Test (String × A)
  entries = record { test = entry_test; sound = entry_test_sound }

abbrev ticket_test : StreamTicket → StreamTicket → Bool
ticket_test a b =
    a.matchmaking_queue == b.matchmaking_queue
    && (a.match_request_id == b.match_request_id
        && int_test a.number_of_players b.number_of_players)

pub ticket_test_sound : (a b : StreamTicket) → ticket_test a b ≡ true → a ≡ b
ticket_test_sound a b h = ground (
  arith,
  eq_iff a.matchmaking_queue b.matchmaking_queue,
  eq_iff a.match_request_id b.match_request_id,
  int_test_sound a.number_of_players b.number_of_players,
)

abbrev pub stream_tickets : Test StreamTicket
stream_tickets = record { test = ticket_test; sound = ticket_test_sound }

abbrev batch_test : AccumulatedStreamTicket → AccumulatedStreamTicket → Bool
batch_test a b = list_test stream_tickets a.stream_tickets b.stream_tickets

pub batch_test_sound : (a b : AccumulatedStreamTicket) → batch_test a b ≡ true → a ≡ b
batch_test_sound a b h =
    ground (arith, list_test_sound stream_tickets a.stream_tickets b.stream_tickets)

abbrev pub batches : Test AccumulatedStreamTicket
batches = record { test = batch_test; sound = batch_test_sound }

abbrev api_rtt_test : Api.Rtt → Api.Rtt → Bool
api_rtt_test a b = a.host == b.host && int_test a.milliseconds b.milliseconds

pub api_rtt_sound : (a b : Api.Rtt) → api_rtt_test a b ≡ true → a ≡ b
api_rtt_sound a b h =
    ground (arith, eq_iff a.host b.host, int_test_sound a.milliseconds b.milliseconds)

abbrev api_rtt_lists : Test (List Api.Rtt)
api_rtt_lists = lists (record { test = api_rtt_test; sound = api_rtt_sound })

abbrev match_test : Api.Match → Api.Match → Bool
match_test a b =
    (a.match_id == b.match_id && a.matchmaking_queue == b.matchmaking_queue)
    && ((lists strings).test a.match_request_ids b.match_request_ids
        && ((lists strings).test a.player_ids b.player_ids && api_rtt_lists.test a.rtts b.rtts))

pub match_test_sound : (a b : Api.Match) → match_test a b ≡ true → a ≡ b
match_test_sound a b h = ground (
  arith,
  eq_iff a.match_id b.match_id,
  eq_iff a.matchmaking_queue b.matchmaking_queue,
  list_test_sound strings a.match_request_ids b.match_request_ids,
  list_test_sound strings a.player_ids b.player_ids,
  api_rtt_lists.sound a.rtts b.rtts,
)

abbrev pub matches : Test Api.Match
matches = record { test = match_test; sound = match_test_sound }
