-- ===== src/Web/Connection/Unset.antt =====
-- Where `b["action"] = …` panics in `api_route` of src/web.rs: on a body with no member to set.
use allgres_agent.Base.{
  ◌≡◌, inl, inr, ◌&&◌, none, some, List, [], ◌∷◌, if_holds, Option-cases, length, is_some,
}
use allgres_agent.Text.{Bytes, codes, str_eq, starts_with}
use allgres_agent.Json.{Json, get_str}
use allgres_agent.Http.Request.{HttpRequest, route}
use allgres_agent.Web.Api.{
  Routed, panics, body_json, session_call, body_call, update_call, generic_call, trim_start_matches,
  api_route,
}

module _ (json : Json) where
  open json use {Value, set, str}

  -- A member could not be set on the request's body, or on the body with its action set.
  pub data IsUnset (r : HttpRequest) : Type 0 where
    on_body : (key : Bytes) (w : Value) → set (body_json json r) key w ≡ none → IsUnset r
    on_action :
        (action w v : Value) (key : Bytes)
        → set (body_json json r) (codes "action") action ≡ some v
        → set v key w ≡ none
        → IsUnset r

  abbrev pub OnlyUnset : HttpRequest → Routed Value → Type 0
  OnlyUnset r x = x ≡ panics → IsUnset r

  body_call-OnlyUnset : (r : HttpRequest) (action : Bytes) → OnlyUnset r (body_call json r action)
  body_call-OnlyUnset r action h =
      elim (Option-cases (set (body_json json r) (codes "action") (str action))) [
        | inl e ↦ on_body (codes "action") (str action) e
        | inr (v, e) ↦ absurd (unfold body_call in cc (rw (body_call, e) at h))
      ]

  update_call-OnlyUnset : (r : HttpRequest) (p : Bytes) → OnlyUnset r (update_call json r p)
  update_call-OnlyUnset r p h =
      let action = str (codes "agents.update") in
      let id = str (trim_start_matches (length p) (codes "/api/v1/agents/") p) in
      elim (Option-cases (set (body_json json r) (codes "action") action)) [
        | inl e ↦ on_body (codes "action") action e
        | inr (v, e) ↦ elim (Option-cases (set v (codes "agent_id") id)) [
          | inl k ↦ on_action action id v (codes "agent_id") e k
          | inr (u, k) ↦ absurd (unfold update_call in cc (rw (update_call, e, k) at h))
        ]
      ]

  session_call-OnlyUnset :
      (r : HttpRequest) (action : Bytes) (members : List (Bytes × Value))
      → OnlyUnset r (session_call json r action members)
  unfolding session_call
  session_call-OnlyUnset r action members h = cc

  generic_call-OnlyUnset : (r : HttpRequest) → OnlyUnset r (generic_call json r)
  unfolding generic_call
  generic_call-OnlyUnset r =
      if_holds (OnlyUnset r) (is_some (get_str json (body_json json r) (codes "action"))) (λ h. cc)
        (λ h. cc)

  pub api_route-OnlyUnset : (r : HttpRequest) → OnlyUnset r (api_route json r)
  unfolding api_route
  api_route-OnlyUnset r =
      let path = route r in
      let get_on = λ (p : Bytes). str_eq r.method (codes "GET") && str_eq path p in
      let post_on = λ (p : Bytes). str_eq r.method (codes "POST") && str_eq path p in
      if_holds (OnlyUnset r) (get_on (codes "/api/v1/status"))
        (session_call-OnlyUnset r (codes "overview") [])
        (if_holds (OnlyUnset r) (get_on (codes "/api/v1/agents"))
          (session_call-OnlyUnset r (codes "agents.list") [])
          (if_holds (OnlyUnset r) (post_on (codes "/api/v1/agents"))
            (body_call-OnlyUnset r (codes "agents.create"))
            (if_holds (OnlyUnset r) (post_on (codes "/api/v1/run"))
              (body_call-OnlyUnset r (codes "run"))
              (if_holds (OnlyUnset r) (get_on (codes "/api/v1/tasks"))
                (session_call-OnlyUnset r (codes "tasks.list") ((codes "limit", json.num 200) ∷ []))
                (if_holds (OnlyUnset r) (get_on (codes "/api/v1/logs"))
                  (session_call-OnlyUnset r (codes "logs.list")
                    ((codes "limit", json.num 250) ∷ []))
                  (if_holds (OnlyUnset r) (get_on (codes "/api/v1/settings"))
                    (session_call-OnlyUnset r (codes "settings.get") [])
                    (if_holds (OnlyUnset r) (post_on (codes "/api/v1/selftest"))
                      (session_call-OnlyUnset r (codes "selftest") [])
                      (if_holds (OnlyUnset r) (post_on (codes "/api/v1/settings/provider"))
                        (body_call-OnlyUnset r (codes "provider.update"))
                        (if_holds (OnlyUnset r)
                          (str_eq r.method (codes "PATCH")
                            && starts_with (codes "/api/v1/agents/") path)
                          (update_call-OnlyUnset r path)
                          (if_holds (OnlyUnset r) (post_on (codes "/api/v1/rpc"))
                            (generic_call-OnlyUnset r) (λ h. cc)))))))))))
