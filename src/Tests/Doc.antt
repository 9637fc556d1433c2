-- ===== src/Tests/Doc.antt =====
-- A small JSON library for the tests: its values are plain data, and it prints texts only.
use mathlib.Core.Option.{Option, none, some}
use allgres_agent.Base.{ℕ, Bool, List, [], ◌∷◌, if◌then◌else◌}
use allgres_agent.Base.Int.{ℤ, pos}
use allgres_agent.Text.{Bytes, str_eq}
use allgres_agent.Json.{Json}

mutual
  pub data Doc : Type 0 where
    nil : Doc
    text : Bytes → Doc
    number : ℕ → Doc
    boolean : Bool → Doc
    cents : ℕ → Doc
    items : Docs → Doc
    members : Fields → Doc

  pub data Docs : Type 0 where
    no_docs : Docs
    doc : Doc → Docs → Docs

  pub data Fields : Type 0 where
    no_fields : Fields
    field : Bytes → Doc → Fields → Fields

abbrev pub docs : List Doc → Docs
docs [] = no_docs
docs (d ∷ ds) = doc d (docs ds)

abbrev pub list : Docs → List Doc
list no_docs = []
list (doc d ds) = d ∷ list ds

abbrev pub fields : List (Bytes × Doc) → Fields
fields [] = no_fields
fields ((k, v) ∷ fs) = field k v (fields fs)

abbrev pub pairs : Fields → List (Bytes × Doc)
pairs no_fields = []
pairs (field k v fs) = (k, v) ∷ pairs fs

abbrev pub find : Bytes → Fields → Option Doc
find key no_fields = none
find key (field k v fs) = if str_eq k key then some v else find key fs

abbrev pub get : Doc → Bytes → Option Doc
get (members fs) key = find key fs
get _ key = none

abbrev pub as_str : Doc → Option Bytes
as_str (text s) = some s
as_str _ = none

abbrev pub as_bool : Doc → Option Bool
as_bool (boolean b) = some b
as_bool _ = none

abbrev pub as_i64 : Doc → Option ℤ
as_i64 (number n) = some (pos n)
as_i64 _ = none

abbrev pub as_array : Doc → Option (List Doc)
as_array (items ds) = some (list ds)
as_array _ = none

abbrev pub as_object : Doc → Option (List (Bytes × Doc))
as_object (members fs) = some (pairs fs)
as_object _ = none

abbrev pub set : Doc → Bytes → Doc → Option Doc
set (members fs) key v = some (members (field key v fs))
set nil key v = some (members (field key v no_fields))
set _ key v = none

abbrev pub print : Doc → Bytes
print (text s) = s
print _ = []

abbrev pub doc_json : Json
doc_json = record {
  Value = Doc;
  null = nil;
  str = text;
  num = number;
  bool = boolean;
  hundredths = cents;
  array = λ ds. items (docs ds);
  object = λ fs. members (fields fs);
  get = get;
  as_str = as_str;
  as_bool = as_bool;
  as_i64 = as_i64;
  as_array = as_array;
  as_object = as_object;
  set = set;
  parse = λ s. some (text s);
  print = print;
}
