-- ===== src/Tests/Calls.antt =====
-- Outbound calls against a server that accepts everything.
use allgres_agent.Base.{◌≤◌, ◌≡◌, refl, true, false, none, some, [], ◌∷◌, ◌++◌, All, length}
use allgres_agent.Text.{Bytes, codes, str_eq, starts_with, to_lower}
use allgres_agent.Base.Int.{pos}
use allgres_agent.Json.{get_str}
use allgres_agent.Outbound.Truncate.{truncate_utf8, is_char_boundary, truncate_utf8-length}
use allgres_agent.Outbound.Message.{Agent, text, responded, send_failed, scheme_allowed}
use allgres_agent.Outbound.Client.{perform_http}
use allgres_agent.Outbound.Client.Sent.{
  applications, contacted_applications, dispatched, Contacted, perform_http-dispatched,
  perform_http-scheme,
}
use allgres_agent.Tests.Doc.{Doc, fields, members, doc_json}

abbrev agent : Agent Doc
agent allow_private sent request =
    responded (record { status = 404; session = none; body = text (codes "no") })

abbrev call : Doc
call = members (
    fields (
      (codes "url", Doc.text (codes "https://tools.example/mcp"))
      ∷ (codes "kind", Doc.text (codes "mcp"))
      ∷ []))

perform_http-dispatched_example :
    let (outcome, sent) = perform_http doc_json agent (codes "1.0") call [] in
    (applications sent ≡ dispatched outcome.0)
    × Contacted outcome.0 (contacted_applications sent)
    × All (λ e. get_str doc_json call (codes "url") ≡ some e.1.url) sent
perform_http-dispatched_example = perform_http-dispatched doc_json agent (codes "1.0") call

-- A host that the resolver refuses: the status is 0, and no server was contacted.
abbrev refusing : Agent Doc
refusing allow_private sent request = send_failed false (codes "host not found")

abbrev plain_call : Doc
plain_call = members (fields ((codes "url", Doc.text (codes "https://10.0.0.1/")) ∷ []))

refused_host :
    let (outcome, sent) = perform_http doc_json refusing (codes "1.0") plain_call [] in
    (outcome.0 ≡ pos 0) × (applications sent ≡ 1) × (contacted_applications sent ≡ 0)
unfolding perform_http codes get_str str_eq starts_with to_lower
refused_host = (refl, refl, refl)

perform_http-scheme_example :
    All (λ e. scheme_allowed e.1.url ≡ true) (perform_http doc_json agent (codes "1.0") call []).1
perform_http-scheme_example = perform_http-scheme doc_json agent (codes "1.0") call

-- Two characters of two bytes, cut at three.
abbrev accents : Bytes
accents = 0xc3 ∷ 0xa9 ∷ 0xc3 ∷ 0xa8 ∷ []

truncate_utf8-length_example :
    (length (truncate_utf8 accents 3) ≤ 3)
    × ((rest : Bytes) × (accents ≡ truncate_utf8 accents 3 ++ rest))
    × (is_char_boundary accents (length (truncate_utf8 accents 3)) ≡ true)
truncate_utf8-length_example = truncate_utf8-length accents 3
