-- ===== src/Http/Form.antt =====
-- src/http_protocol.rs, `parse_form_body`: a form as a map, in which a later pair of a key replaces
-- an earlier one.
use allgres_agent.Base.{Option, none, some, List, [], ◌∷◌}
use allgres_agent.Text.{Bytes, split_once, split}
use allgres_agent.Map.{Map, empty, insert, bytes_eq}
use allgres_agent.Http.Request.{percent_decode}

unfoldable pub collect : List Bytes → Map Bytes Bytes → Map Bytes Bytes
unfolding insert
collect [] form = form
collect (pair ∷ pairs) form = collect pairs (elim (split_once b'=' pair) [
  | none ↦ form
  | some (k, v) ↦ insert (percent_decode k) (percent_decode v) form
])

unfoldable pub parse_form_body : Bytes → Map Bytes Bytes
unfolding collect
parse_form_body body = let (first, rest) = split b'&' body in collect (first ∷ rest) empty

abbrev pub form_get : Bytes → Bytes → Option Bytes
form_get body key = parse_form_body body key
