-- ===== src/Dump/Analyze/Reports.antt =====
-- What the report on a dump cannot miss.
use mathlib.Core.List.{append_assoc}
use allgres_agent.Base.{
  ℕ, ◌≡◌, refl, sym, ap, true, Option, none, some, List, [], ◌∷◌, ◌++◌, Among, here,
}
use allgres_agent.Text.{Bytes, codes}
use allgres_agent.Dump.Token.RoundTrip.{is_separator, Prints, read_token-Prints}
use allgres_agent.Dump.Body.{Balanced, nil, node_body-Balanced}
use allgres_agent.Dump.Find.{find_after}
use allgres_agent.Dump.Find.Complete.{Occurs, IsTag, occurrences_iff}
use allgres_agent.Dump.Names.{Lists, quoted_strings-Lists}
use allgres_agent.Dump.Analyze.{
  read_field, field, relation_named, relation_at, pop, called, function_at, Analysis, analysis,
}
use allgres_agent.Dump.Analyze.Loops.{collect-Among, analysis-Loops}

-- The node's text has the field, at the first place where its key stands, with a value that is
-- written in the format of the dump, and a separator behind it.
pub record HasField (name : Bytes) (o : Option Bytes) (t : Bytes) : Type 0 where
  pub text : Bytes
  pub delimiter : ℕ
  pub others : Bytes
  pub is_found : find_after (codes ":" ++ name ++ codes " ") t ≡ some (text ++ delimiter ∷ others)
  pub delimits : is_separator delimiter ≡ true
  pub prints : Prints o text

field-HasField : (name t : Bytes) (o : Option Bytes) → HasField name o t → field t name ≡ some o
unfolding field read_field
field-HasField name t o h =
    rw h.is_found (rw (read_token-Prints h.delimiter h.others h.delimits h.prints) refl)

relation-IsTag : IsTag (codes "{RANGEVAR ")
unfolding codes
relation-IsTag = (refl, (refl, (refl, (refl, (refl, (refl, (refl, (refl, (refl, tt)))))))))

function-IsTag : IsTag (codes ":funcname (")
unfolding codes
function-IsTag = (refl, (refl, (refl, (refl, (refl, (refl, (refl, (refl, (refl, (refl, tt))))))))))

relation_at-HasField :
    (t rest name : Bytes) (schema : Option Bytes)
    → Balanced b'{' b'}' t
    → HasField (codes "relname") (some name) t
    → HasField (codes "schemaname") schema t
    → relation_at (t ++ b'}' ∷ rest) ≡ some ((schema, name) ∷ [])
unfolding relation_at relation_named
relation_at-HasField t rest name schema b f g =
    let body = (node_body-Balanced {t = []} rest b nil).0 in
    rw body (
      rw (field-HasField (codes "relname") t (some name) f)
        (rw (field-HasField (codes "schemaname") t schema g) refl))

-- Wherever a RANGEVAR node stands, with balanced braces up to its end, whose first fields relname and
-- schemaname are written in the format of the dump, each with a separator behind it, a report that
-- is given holds that pair. A name with a bare form feed or carriage return in it is left out.
pub analysis-relations :
    (dump : Bytes) (a : Analysis) (t rest name : Bytes) (schema : Option Bytes)
    → analysis dump ≡ some a
    → Occurs (codes "{RANGEVAR ") (t ++ b'}' ∷ rest) dump
    → Balanced b'{' b'}' t
    → HasField (codes "relname") (some name) t
    → HasField (codes "schemaname") schema t
    → Among (schema, name) a.relations
analysis-relations dump a t rest name schema h o b f g =
    collect-Among relation_at (t ++ b'}' ∷ rest) (schema, name) _ a.relations ((schema, name) ∷ [])
      (relation_at-HasField t rest name schema b f g) here (analysis-Loops dump a h).same_relations
      ((occurrences_iff (codes "{RANGEVAR ") (t ++ b'}' ∷ rest) dump relation-IsTag).1 o)

-- The parts of a function's name, in order: its own name is the last one, and its schema stands
-- before that, behind any number of other parts.
pub data FunctionName : List Bytes → Option Bytes → Bytes → Type 0 where
  bare : (name : Bytes) → FunctionName (name ∷ []) none name
  qualified :
      (others : List Bytes) (schema name : Bytes)
      → FunctionName (others ++ schema ∷ name ∷ []) (some schema) name

pop-append : (xs : List Bytes) (x : Bytes) → pop (xs ++ x ∷ []) ≡ some (x, xs)
unfolding pop
pop-append [] x = refl
pop-append (y ∷ []) x = refl
pop-append (y ∷ z ∷ xs) x = rw (pop-append (z ∷ xs) x) refl

called-FunctionName :
    {parts : List Bytes} {schema : Option Bytes} {name : Bytes}
    → FunctionName parts schema name
    → called (pop parts) ≡ (schema, name) ∷ []
called-FunctionName (bare name) = unfold pop in refl
called-FunctionName (qualified others schema name) =
    rw
      (
        sym (append_assoc others (schema ∷ []) (name ∷ [])),
        pop-append (others ++ schema ∷ []) name,
        pop-append others schema,
      )
      refl

-- Wherever the list of a funcname stands, with balanced parentheses up to its end and with the parts
-- of the name in quotes, one or more of them and without a bare quote in them, a report that is given
-- holds the last part as the function's name, and as its schema the part before it, if there is one.
pub analysis-functions :
    (dump : Bytes) (a : Analysis) (t rest name : Bytes) (schema : Option Bytes) (parts : List Bytes)
    → analysis dump ≡ some a
    → FunctionName parts schema name
    → Occurs (codes ":funcname (") (t ++ b')' ∷ rest) dump
    → Balanced b'(' b')' t
    → Lists parts t
    → Among (schema, name) a.functions
unfolding function_at
analysis-functions dump a t rest name schema parts h f o b l =
    let body = (node_body-Balanced {s = []} rest nil b).1 in
    collect-Among function_at (t ++ b')' ∷ rest) (schema, name) _ a.functions ((schema, name) ∷ [])
      (rw body (rw (quoted_strings-Lists l) (ap some (called-FunctionName f)))) here
      (analysis-Loops dump a h).same_functions
      ((occurrences_iff (codes ":funcname (") (t ++ b')' ∷ rest) dump function-IsTag).1 o)
