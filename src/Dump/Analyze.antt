-- ===== src/Dump/Analyze.antt =====
-- src/sql_parser.rs, `field`, `read_ident` and `analyze_dump`. `none` is a panic of `read_token` or
-- of `quoted_strings`.
pub mod Loops
pub mod Reports
pub mod Writes
use allgres_agent.Base.{
  ℕ, zero, suc, ◌+◌, ◌-◌, ◌*◌, ◌/◌, ◌%◌, ◌^◌, ◌≤◌, ◌<◌, bit_and, bit_or, bit_xor, ◌≡◌, refl, sym,
  ap, ◌∙◌, ◌≢◌, ◌↔◌, ◌⊎◌, inl, inr, Bool, true, false, not, ◌&&◌, ◌||◌, Option, none, some, List,
  [], ◌∷◌, ◌++◌, map, arith, ltb, leb, ◌==◌, if◌then◌else◌, ==_iff, Bool-cases, Option-cases,
  is_some, length, take, drop, length-append, retain, all, any, length-retain-le, All,
}
use allgres_agent.Text.{
  Bytes, codes, str_eq, str_eq_iff, is_empty, starts_with, strip_prefix, contains, split_once,
  split, to_lower, to_upper, to_ascii_lowercase, to_ascii_uppercase, eq_ignore_ascii_case,
  is_ascii_digit, is_ascii_hexdigit, strip_prefix_iff, starts_with-append,
}
use allgres_agent.Json.{Json, and_then}
use allgres_agent.Dump.Token.{read_token}
use allgres_agent.Dump.Body.{node_body, paren_body}
use allgres_agent.Dump.Find.{find_after, occurrences}
use allgres_agent.Dump.Names.{quoted_strings}

unfoldable pub read_field : Option Bytes → Option (Option Bytes)
unfolding read_token
read_field none = some none
read_field (some rest) = and_then (read_token rest) (λ (o, n). some o)

unfoldable pub field : Bytes → Bytes → Option (Option Bytes)
unfolding read_field find_after
field body name = read_field (find_after (codes ":" ++ name ++ codes " ") body)

unfoldable pub is_ident_byte : ℕ → Bool
is_ident_byte c =
    is_ascii_digit c || (leb b'a' c && leb c b'z') || (leb b'A' c && leb c b'Z') || c == b'_'

unfoldable pub read_ident : Bytes → Bytes
unfolding is_ident_byte
read_ident [] = []
read_ident (c ∷ s) = if is_ident_byte c then c ∷ read_ident s else []

abbrev pub both : {A : Type 0} → Option (List A) → Option (List A) → Option (List A)
both none ys = none
both (some xs) none = none
both (some xs) (some ys) = some (xs ++ ys)

-- A loop that adds to a list at each occurrence.
unfoldable pub collect : {A : Type 0} → (Bytes → Option (List A)) → List Bytes → Option (List A)
collect f [] = some []
collect f (r ∷ rs) = both (f r) (collect f rs)

unfoldable pub kinds_at : Bytes → List Bytes
unfolding node_body find_after read_ident
kinds_at rest = elim (find_after (codes ":stmt {") (node_body rest)) [
  | none ↦ []
  | some stmt ↦ read_ident stmt ∷ []
]

unfoldable pub kinds : List Bytes → List Bytes
unfolding kinds_at
kinds [] = []
kinds (r ∷ rs) = kinds_at r ++ kinds rs

-- A name with its schema, if it has one.
abbrev pub Named : Type 0
Named = Option Bytes × Bytes

unfoldable pub relation_named : Bytes → Option Bytes → Option (List Named)
unfolding field
relation_named body none = some []
relation_named body (some name) =
    and_then (field body (codes "schemaname")) (λ schema. some ((schema, name) ∷ []))

unfoldable pub relation_at : Bytes → Option (List Named)
unfolding relation_named node_body
relation_at rest =
    let body = node_body rest in and_then (field body (codes "relname")) (relation_named body)

unfoldable pub cte_at : Bytes → Option (List Bytes)
unfolding read_token
cte_at rest =
    and_then (read_token rest) λ (o, n). elim o [ none ↦ some [] | some name ↦ some (name ∷ []) ]

-- `pop`: the last item, and the others before it.
unfoldable pub pop : List Bytes → Option (Bytes × List Bytes)
pop [] = none
pop (x ∷ []) = some (x, [])
pop (x ∷ y ∷ xs) = elim (pop (y ∷ xs)) [ none ↦ none | some (z, zs) ↦ some (z, x ∷ zs) ]

abbrev pub popped : Option (Bytes × List Bytes) → Option Bytes
popped none = none
popped (some (x, xs)) = some x

abbrev pub called : Option (Bytes × List Bytes) → List Named
called none = []
called (some (name, parts)) = (popped (pop parts), name) ∷ []

unfoldable pub function_at : Bytes → Option (List Named)
unfolding quoted_strings paren_body pop
function_at rest = and_then (quoted_strings (paren_body rest)) (λ parts. some (called (pop parts)))

unfoldable pub writes : Bytes → Bool
unfolding contains
writes dump =
    contains (codes ":intoClause {") dump
    || (contains (codes "{INSERTSTMT") dump
        || (contains (codes "{UPDATESTMT") dump
            || (contains (codes "{DELETESTMT") dump || contains (codes "{MERGESTMT") dump)))

unfoldable pub kind : List Bytes → Bytes
unfolding str_eq
kind (k ∷ []) = if str_eq k (codes "SELECTSTMT") then codes "select" else codes "other"
kind _ = codes "other"

-- What the report of a dump holds.
pub record Analysis : Type 0 where
  pub statements : ℕ
  pub statement_kind : Bytes
  pub is_writing : Bool
  pub relations : List Named
  pub functions : List Named
  pub ctes : List Bytes

-- The report, from what the three loops leave.
unfoldable pub assemble :
    Bytes → Option (List Named) → Option (List Bytes) → Option (List Named) → Option Analysis
unfolding kinds writes kind occurrences
assemble dump (some relations) (some ctes) (some functions) =
    let found = kinds (occurrences (codes "{RAWSTMT") dump) in
    some (record {
      statements = length found;
      statement_kind = kind found;
      is_writing = writes dump;
      relations = relations;
      functions = functions;
      ctes = ctes;
    })
assemble dump _ _ _ = none

unfoldable pub analysis : Bytes → Option Analysis
unfolding collect relation_at function_at cte_at assemble
analysis dump =
    assemble dump (collect relation_at (occurrences (codes "{RANGEVAR ") dump))
      (collect cte_at (occurrences (codes ":ctename ") dump))
      (collect function_at (occurrences (codes ":funcname (") dump))

module _ (json : Json) where
  open json use {Value, null, str, num, bool, array, object}

  abbrev pub schema_value : Option Bytes → Value
  schema_value none = null
  schema_value (some s) = str s

  abbrev pub named_value : Named → Value
  named_value (schema, name) =
      object ((codes "schema", schema_value schema) ∷ (codes "name", str name) ∷ [])

  unfoldable pub report : Analysis → Value
  report a = object (
      (codes "ok", bool true)
      ∷ (codes "statements", num a.statements)
      ∷ (codes "kind", str a.statement_kind)
      ∷ (codes "writes", bool a.is_writing)
      ∷ (codes "relations", array (map named_value a.relations))
      ∷ (codes "functions", array (map named_value a.functions))
      ∷ (codes "ctes", array (map str a.ctes))
      ∷ [])

  unfoldable pub analyze_dump : Bytes → Option Value
  unfolding analysis report
  analyze_dump dump =
      if is_empty dump
      then some
          (object ((codes "ok", bool false) ∷ (codes "error", str (codes "unparseable")) ∷ []))
      else and_then (analysis dump) (λ a. some (report a))
