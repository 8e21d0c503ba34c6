-- ===== src/Sample/Codecs.antt =====
-- A codec over a table of named messages: a message is written as its name in the table.
use rivalry.Prelude.{
  String, ◌≡◌, ap, subst, Bool, true, false, none, some, List, [], ◌∷◌, Map, lookup, keys,
  if◌then◌else◌, arith, Bool-cases, Option-cases, inl, inr,
}
use rivalry.Prelude.Results.{Result, ok, err, external}
use rivalry.Wire.Codec.{Codec, IsFaithful}
use rivalry.Sample.Equality.{Test}

ok_injective : (x y : String) → ok x ≡ ok y → x ≡ y
ok_injective x y h = ground arith

module _ {A : Type 0} (t : Test A) (table : Map A) where
  abbrev named : String → A → Bool
  named name a = elim (lookup name table) [ none ↦ false | some x ↦ t.test x a ]

  abbrev name_of : List String → A → Result String
  name_of [] a = err (external "not in the table")
  name_of (name ∷ names) a = let rest = name_of names a in if named name a then ok name else rest

  abbrev pub read_name : String → Result A
  read_name name = elim (lookup name table) [ none ↦ err (external "unknown") | some x ↦ ok x ]

  abbrev pub table_codec : Codec A
  table_codec = record { marshal = name_of (keys table); unmarshal = read_name }

  named_reads : (name : String) (a : A) → named name a ≡ true → read_name name ≡ ok a
  named_reads name a h = elim (Option-cases (lookup name table)) [
    | inl e ↦ absurd (ground arith)
    | inr (x, e) ↦ rw (e, read_name) (ap ok (t.sound x a (rw (e, named) at h)))
  ]

  name_of_reads :
      (names : List String) (a : A) (b : String) → name_of names a ≡ ok b → read_name b ≡ ok a
  name_of_reads [] a b h = cc
  name_of_reads (name ∷ names) a b h = elim (Bool-cases (named name a)) [
    | inl e ↦ first e (rw e at h)
    | inr e ↦ name_of_reads names a b (rw e at h)
  ]
    where
      first : named name a ≡ true → ok name ≡ ok b → read_name b ≡ ok a
      first e q = subst (λ n. read_name n ≡ ok a) (ok_injective name b q) (named_reads name a e)

  pub table_codec-IsFaithful : IsFaithful table_codec
  table_codec-IsFaithful = record { unmarshal-marshal = λ a b h. name_of_reads (keys table) a b h }
