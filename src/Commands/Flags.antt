-- ===== src/Commands/Flags.antt =====
-- The flags of a command. cobra and pflag are parameters; the laws say what pflag documents for
-- flags that are given as `--name text`.
use Prim.Native.Char.{code}
use Prim.Native.String.{◌++◌ as ◌<>◌}
use rivalry.Prelude.{
  String, ℕ, ℤ, pos, ◌≤◌, ◌<◌, ◌^◌, ◌≡◌, ◌≢◌, ◌==◌, ◌||◌, ◌&&◌, not, leb, Bool, true, false, Option,
  none, some, List, [], ◌∷◌, ◌++◌, All, contains, IsDistinct, if◌then◌else◌,
}
use rivalry.Prelude.Results.{Result, ok}
use rivalry.Decimal.{sprint}

pub data Value : Type 0 where
  bool_value : Bool → Value
  string_value : String → Value
  int64_value : ℤ → Value
  strings_value : List String → Value

pub record Flag : Type 0 where
  pub name : String
  pub default_value : Value
  pub is_required : Bool

-- The values of the flags, by name, once the arguments were parsed.
abbrev pub Values : Type 0
Values = String → Option Value

-- How pflag reads the texts of an int64 and of a slice of strings.
pub record Parsers : Type 0 where
  pub parse_int64 : String → Option ℤ
  pub read_as_csv : String → Option (List String)

pub record Cobra : Type 0 where
  pub parsers : Parsers
  pub execute : List Flag → List String → Result Values

-- What `GetString` and its kin return, whose errors are dropped.
abbrev string_of : Option Value → String
string_of (some (string_value s)) = s
string_of _ = ""

abbrev bool_of : Option Value → Bool
bool_of (some (bool_value b)) = b
bool_of _ = false

abbrev int64_of : Option Value → ℤ
int64_of (some (int64_value n)) = n
int64_of _ = pos 0

abbrev strings_of : Option Value → List String
strings_of (some (strings_value ss)) = ss
strings_of _ = []

-- `cmd.Flags().GetString(name)` and its kin.
abbrev pub get_string : Values → String → String
get_string values name = string_of (values name)

abbrev pub get_bool : Values → String → Bool
get_bool values name = bool_of (values name)

abbrev pub get_int64 : Values → String → ℤ
get_int64 values name = int64_of (values name)

abbrev pub get_string_slice : Values → String → List String
get_string_slice values name = strings_of (values name)

-- Names and texts, in the order of the command line.
abbrev pub Given : Type 0
Given = List (String × String)

abbrev pub spelled : Given → List String
spelled [] = []
spelled ((n, t) ∷ given) = ("--" <> n) ∷ t ∷ spelled given

abbrev pub texts_of : String → Given → List String
texts_of n [] = []
texts_of n ((m, t) ∷ given) = let rest = texts_of n given in if m == n then t ∷ rest else rest

abbrev pub names : List Flag → List String
names [] = []
names (f ∷ flags) = f.name ∷ names flags

module _ (p : Parsers) where
  -- A flag is set once for each text; a switch takes no text, and texts add to a list.
  abbrev pub set_all : Value → List String → Option Value
  set_all v [] = some v
  set_all (bool_value b) (t ∷ ts) = none
  set_all (string_value s) (t ∷ ts) = set_all (string_value t) ts
  set_all (int64_value n) (t ∷ ts) = elim (p.parse_int64 t) [
    | none ↦ none
    | some m ↦ set_all (int64_value m) ts
  ]
  set_all (strings_value ss) (t ∷ ts) = elim (p.read_as_csv t) [
    | none ↦ none
    | some more ↦ set_all (strings_value (ss ++ more)) ts
  ]

  -- The default counts where no text is given.
  abbrev pub final_value : Value → List String → Option Value
  final_value d [] = some d
  final_value (strings_value ss) (t ∷ ts) = set_all (strings_value []) (t ∷ ts)
  final_value d (t ∷ ts) = set_all d (t ∷ ts)

module _ (c : Cobra) where
  abbrev pub IsAccepted : Given → Flag → Type 0
  IsAccepted given f =
      (final_value c.parsers f.default_value (texts_of f.name given) ≢ none)
      × (f.is_required ≡ true → texts_of f.name given ≢ [])

abbrev is_code : ℕ → ℕ → Bool
is_code a b = leb a b && leb b a

no_special : String → Bool
no_special String.[] = true
no_special (String.◌∷◌ c s) =
    not
      (is_code (code c) b',' || is_code (code c) b'"' || is_code (code c) 10 || is_code (code c) 13)
    && no_special s

-- A text that is one field of a CSV line as it stands: no comma, quote or line end.
unfoldable pub is_plain : String → Bool
unfolding no_special
is_plain s = not (s == "") && no_special s

pub record IsCobra (c : Cobra) : Type 0 where
  pub parse_int64_lem :
      (n : ℕ) → 1 ≤ n → n < 2 ^ 63 → c.parsers.parse_int64 (sprint (pos n)) ≡ some (pos n)
  pub read_as_csv_lem : (s : String) → is_plain s ≡ true → c.parsers.read_as_csv s ≡ some (s ∷ [])
  pub execute_lem :
      (flags : List Flag) (given : Given)
      → IsDistinct (names flags)
      → All (λ g. contains g.0 (names flags) ≡ true) given
      → All (IsAccepted c given) flags
      → (values : Values) × (c.execute flags (spelled given) ≡ ok values)
        × All
            (λ f. values f.name ≡ final_value c.parsers f.default_value (texts_of f.name given))
            flags
