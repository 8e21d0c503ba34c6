-- ===== src/Sample/CommandLine.antt =====
-- A command line: the texts follow their flags, and an int64 is in decimal notation. A frontend client.
use Prim.Native.String.{◌++◌ as ◌<>◌}
use text.Mathlib.TextLemmas.{cons-append, nil-append}
use rivalry.Prelude.{
  String, ℕ, ℤ, pos, ◌≡◌, refl, ap, ◌∙◌, ◌==◌, eq_refl, false, Option, none, some, List, [], ◌∷◌,
  All, contains, IsDistinct, arith, if◌then◌else◌,
}
use rivalry.Prelude.Results.{ok, external}
use rivalry.Decimal.Read.{read, read-sprint}
use rivalry.Commands.Flags.{
  Cobra, IsCobra, Parsers, Flag, Value, Given, spelled, texts_of, names, final_value,
}
use rivalry.Commands.Steps.{Runtime}
use rivalry.Commands.Configured.{IsUp}
use rivalry.Commands.ClientCommand.{Client, next, ended}

abbrev number : Option ℕ → Option ℤ
number none = none
number (some n) = some (pos n)

abbrev parsers : Parsers
parsers = record { parse_int64 = λ t. number (read t 0); read_as_csv = λ t. some (t ∷ []) }

abbrev without_dashes : String → String
without_dashes (String.◌∷◌ _ (String.◌∷◌ _ name)) = name
without_dashes s = s

abbrev pairs : List String → Given
pairs (flag ∷ text ∷ args) = (without_dashes flag, text) ∷ pairs args
pairs _ = []

abbrev value_of : String → List Flag → Given → Option Value
value_of n [] given = none
value_of n (f ∷ flags) given =
    let rest = value_of n flags given in
    if f.name == n then final_value parsers f.default_value (texts_of f.name given) else rest

abbrev pub command_line : Cobra
command_line = record {
  parsers = parsers;
  execute = λ flags args. ok (λ n. value_of n flags (pairs args));
}

pairs-spelled : (given : Given) → pairs (spelled given) ≡ given
pairs-spelled [] = refl
pairs-spelled ((n, t) ∷ given) =
    ap (λ name. (without_dashes name, t) ∷ pairs (spelled given)) (dashes n)
    ∙ ap (λ g. (n, t) ∷ g) (pairs-spelled given)
  where
    dashes : (n : String) → "--" <> n ≡ String.◌∷◌ "-" (String.◌∷◌ "-" n)
    dashes n =
        cons-append "-" "-" n
        ∙ ap (λ s. String.◌∷◌ "-" s)
            (cons-append "-" "" n ∙ ap (λ s. String.◌∷◌ "-" s) (nil-append n))

-- A flag that stands further on is found.
found_further :
    (f : Flag) (flags all : List Flag) (given : Given)
    → contains f.name (names flags) ≡ false
    → All
        (λ g.
          value_of g.name all given ≡ final_value parsers g.default_value (texts_of g.name given))
        flags
    → All
        (λ g.
          value_of g.name (f ∷ all) given
          ≡ final_value parsers g.default_value (texts_of g.name given))
        flags
found_further f [] all given h d = tt
found_further f (g ∷ flags) all given h (d, ds) =
    (found_one, found_further f flags all given (ground arith) ds)
  where
    found_one :
        value_of g.name (f ∷ all) given
        ≡ final_value parsers g.default_value (texts_of g.name given)
    found_one = let other : (f.name == g.name) ≡ false = ground arith in rw other d

flags_found :
    (flags : List Flag) (given : Given)
    → IsDistinct (names flags)
    → All
        (λ f.
          value_of f.name flags given ≡ final_value parsers f.default_value (texts_of f.name given))
        flags
flags_found [] given d = tt
flags_found (f ∷ flags) given (d, ds) =
    (rw (eq_refl f.name) refl, found_further f flags flags given d (flags_found flags given ds))

pub command_line-IsCobra : IsCobra command_line
command_line-IsCobra = record {
  parse_int64_lem = λ n _ _. ap number (read-sprint n);
  read_as_csv_lem = λ s _. refl;
  execute_lem = λ flags given d _ _. (
    (λ n. value_of n flags given),
    ap (λ g. ok (λ n. value_of n flags g)) (pairs-spelled given),
    flags_found flags given d,
  );
}

abbrev pub runtime : Runtime
runtime = record {
  connect = λ _ _. ok tt;
  dial = λ _ _. ok tt;
  listen = λ _ _. ok tt;
  run = λ _. ok tt;
}

pub runtime-IsUp : IsUp runtime
runtime-IsUp = record { connect_up = λ _ _. refl; dial_up = λ _ _. refl; listen_up = λ _ _. refl }

-- A frontend that answers with an empty answer, and then breaks off.
abbrev pub frontend_client : Client
frontend_client = record {
  dial = λ _. ok tt;
  unmarshal_doubles = λ _. ok [];
  unmarshal_strings = λ _. ok [];
  match_call = λ _. ok (next (record { game_server = none }) (ended (external "EOF")));
}
