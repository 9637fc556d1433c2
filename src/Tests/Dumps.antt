-- ===== src/Tests/Dumps.antt =====
-- The parser of dumps on a small dump.
use allgres_agent.Base.{
  ℕ, ◌≡◌, refl, ◌↔◌, Bool, true, false, not, ◌&&◌, none, some, [], ◌∷◌, arith, ◌==◌, Among,
}
use allgres_agent.Text.{Bytes, codes, strip_prefix, is_ascii_digit}
use allgres_agent.Dump.Token.{is_delimiter, read_token}
use allgres_agent.Dump.Token.RoundTrip.{Escapes, token, null, read_token-Prints}
use allgres_agent.Dump.Body.{node_body, Balanced}
use allgres_agent.Dump.Find.{find_after}
use allgres_agent.Dump.Find.Complete.{Occurs}
use allgres_agent.Dump.Names.{Lists, Quoted}
use allgres_agent.Dump.Analyze.{analysis, Analysis}
use allgres_agent.Dump.Analyze.Writes.{IsWriteTag, analysis-writes}
use allgres_agent.Dump.Analyze.Reports.{qualified, analysis-relations, analysis-functions}

abbrev dump : Bytes
dump =
    codes
      "({RAWSTMT :stmt {SELECTSTMT :from ({RANGEVAR :relname t :schemaname <> }) :funcname (\"d\" \"s\" \"f\")}})"

abbrev found : Analysis
found = record {
  statements = 1;
  statement_kind = codes "select";
  is_writing = false;
  relations = (none, codes "t") ∷ [];
  functions = (some (codes "s"), codes "f") ∷ [];
  ctes = [];
}

dump-analysis : analysis dump ≡ some found
unfolding analysis codes node_body strip_prefix is_ascii_digit
dump-analysis = refl

read_token-Prints_example :
    read_token (b'a' ∷ b'\\' ∷ b' ' ∷ b')' ∷ []) ≡ some (some (codes "a "), 3)
unfolding is_delimiter codes
read_token-Prints_example = read_token-Prints b')' [] refl (
    token b'a' refl refl (Escapes.plain b'a' refl (Escapes.escaped b' ' (omega arith) Escapes.nil)))

abbrev plain_text : Bytes → Bool
plain_text [] = true
plain_text (b ∷ s) = not (b == b'\\') && (not (b == b'{') && (not (b == b'}') && plain_text s))

plain_text-Balanced : (s : Bytes) → plain_text s ≡ true → Balanced b'{' b'}' s
plain_text-Balanced [] h = Balanced.nil
plain_text-Balanced (b ∷ s) h =
    Balanced.plain b (ground arith) (ground arith) (ground arith)
      (plain_text-Balanced s (ground arith))

analysis-relations_example : Among (none, codes "t") found.relations
unfolding analysis codes find_after is_delimiter strip_prefix
analysis-relations_example =
    analysis-relations dump found (codes ":relname t :schemaname <> ")
      (codes ") :funcname (\"d\" \"s\" \"f\")}})") (codes "t") none dump-analysis
      (record { before = codes "({RAWSTMT :stmt {SELECTSTMT :from ("; split_at = refl })
      (plain_text-Balanced (codes ":relname t :schemaname <> ") refl)
      (record {
        text = codes "t";
        delimiter = b' ';
        others = codes ":schemaname <> ";
        is_found = refl;
        delimits = refl;
        prints = token b't' refl refl (Escapes.plain b't' refl Escapes.nil);
      })
      (record {
        text = codes "<>";
        delimiter = b' ';
        others = [];
        is_found = refl;
        delimits = refl;
        prints = null;
      })

abbrev quoted_letter :
    (c : ℕ) → (c == b'"') ≡ false → (c == b'\\') ≡ false → Quoted (c ∷ []) (c ∷ [])
quoted_letter c q b = Quoted.plain c q b Quoted.nil

abbrev unbracketed : Bytes → Bool
unbracketed [] = true
unbracketed (b ∷ s) = not (b == b'\\') && (not (b == b'(') && (not (b == b')') && unbracketed s))

unbracketed-Balanced : (s : Bytes) → unbracketed s ≡ true → Balanced b'(' b')' s
unbracketed-Balanced [] h = Balanced.nil
unbracketed-Balanced (b ∷ s) h =
    Balanced.plain b (ground arith) (ground arith) (ground arith)
      (unbracketed-Balanced s (ground arith))

analysis-functions_example : Among (some (codes "s"), codes "f") found.functions
unfolding analysis codes
analysis-functions_example =
    analysis-functions dump found (codes "\"d\" \"s\" \"f\"") (codes "}})") (codes "f")
      (some (codes "s")) (codes "d" ∷ codes "s" ∷ codes "f" ∷ []) dump-analysis
      (qualified (codes "d" ∷ []) (codes "s") (codes "f"))
      (record {
        before = codes "({RAWSTMT :stmt {SELECTSTMT :from ({RANGEVAR :relname t :schemaname <> }) ";
        split_at = refl;
      })
      (unbracketed-Balanced (codes "\"d\" \"s\" \"f\"") refl)
      (Lists.quoted (quoted_letter b'd' refl refl) (
        Lists.gap b' ' refl (
          Lists.quoted (quoted_letter b's' refl refl)
            (Lists.gap b' ' refl (Lists.quoted (quoted_letter b'f' refl refl) Lists.nil)))))

analysis-writes_example :
    (found.is_writing ≡ true)
    ↔ ((tag : Bytes) × IsWriteTag tag × (rest : Bytes) × Occurs tag rest dump)
analysis-writes_example = analysis-writes dump found dump-analysis
