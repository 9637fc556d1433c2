-- ===== src/Web/Mock.antt =====
-- src/web.rs, the test doubles under /mock/ in `handle_web_connection`. What they answer is built
-- with the JSON library; a delay is not modelled.
use allgres_agent.Base.{not, ◌||◌, Option, none, some, List, [], ◌∷◌, ◌++◌, map, if◌then◌else◌}
use allgres_agent.Text.{Bytes, codes, str_eq, is_empty, contains, to_ascii_lowercase}
use allgres_agent.Json.{Json, and_then, unwrap_or, get_str}
use allgres_agent.Http.Form.{form_get}
use allgres_agent.Http.Request.{HttpRequest, route}
use allgres_agent.Web.Auth.{WebConfig}
use allgres_agent.Web.Reply.{Reply, respond_json, not_found, ok_200, unauthorized_401}

module _ (json : Json) where
  open json use {Value, null, str, num, bool, hundredths, array, object, get, as_str, parse, print}

  unfoldable pub mock_models : Bytes
  mock_models = print (
      object (
        (codes "object", str (codes "list"))
        ∷ (
          codes "data",
          array (
              object (
                (codes "id", str (codes "allgres-mock"))
                ∷ (codes "object", str (codes "model"))
                ∷ [])
              ∷ object (
                  (codes "id", str (codes "allgres-mock-embed"))
                  ∷ (codes "object", str (codes "model"))
                  ∷ [])
              ∷ []),
        )
        ∷ []))

  unfoldable pub mock_chat : Bytes
  mock_chat = print (
      object (
        (codes "id", str (codes "allgres-mock"))
        ∷ (codes "object", str (codes "chat.completion"))
        ∷ (
          codes "choices",
          array (
              object (
                (codes "index", num 0)
                ∷ (
                  codes "message",
                  object (
                      (codes "role", str (codes "assistant"))
                      ∷ (
                        codes "content",
                        str (
                            codes
                              "{\"action\":\"final_answer\",\"answer\":\"Allgres mock runtime OK\"}"),
                      )
                      ∷ []),
                )
                ∷ (codes "finish_reason", str (codes "stop"))
                ∷ [])
              ∷ []),
        )
        ∷ []))

  unfoldable pub mock_oauth : Bytes → Reply
  unfolding respond_json
  mock_oauth body =
      let code : Bytes = unwrap_or (form_get body (codes "code")) [] in
      let secret : Bytes = unwrap_or (form_get body (codes "client_secret")) [] in
      if is_empty code || not (str_eq secret (codes "allgres-mock-oauth-secret"))
      then respond_json unauthorized_401 (codes "{\"error\":\"invalid_client\"}")
      else respond_json ok_200 (
          print (
            object (
              (codes "access_token", str (codes "allgres-mock-access-" ++ code))
              ∷ (codes "refresh_token", str (codes "allgres-mock-refresh"))
              ∷ (codes "expires_in", num 3600)
              ∷ (codes "token_type", str (codes "bearer"))
              ∷ [])))

  abbrev keywords : List Bytes
  keywords =
      codes "alpha"
      ∷ codes "beta"
      ∷ codes "gamma"
      ∷ codes "delta"
      ∷ codes "epsilon"
      ∷ codes "zeta"
      ∷ codes "eta"
      ∷ codes "theta"
      ∷ []

  unfoldable pub mock_embeddings : Bytes → Bytes
  mock_embeddings body =
      let input : Bytes =
        to_ascii_lowercase
          (unwrap_or (and_then (parse body) (λ v. get_str json v (codes "input"))) []) in
      let embedding =
        map (λ k. if contains k input then hundredths 100 else hundredths 5) keywords in
      print (
        object (
          (
            codes "data",
            array
                (object ((codes "embedding", array embedding) ∷ (codes "index", num 0) ∷ []) ∷ []),
          )
          ∷ (codes "model", str (codes "allgres-mock-embed"))
          ∷ (codes "object", str (codes "list"))
          ∷ []))

  -- The routes under /mock/, which answer only where the mock is enabled.
  unfoldable pub mock_route : WebConfig → HttpRequest → Option Reply
  mock_route cfg r =
      let path = route r in
      let gated = λ (reply : Reply). some (if cfg.mock_enabled then reply else not_found) in
      if str_eq path (codes "/mock/models") || str_eq path (codes "/mock/v1/models")
      then gated (respond_json ok_200 mock_models)
      else if str_eq path (codes "/mock/chat/completions")
          || str_eq path (codes "/mock/slow/chat/completions")
      then gated (respond_json ok_200 mock_chat)
      else if str_eq path (codes "/mock/oauth/token")
      then gated (mock_oauth r.body)
      else if str_eq path (codes "/mock/embeddings")
      then gated (respond_json ok_200 (mock_embeddings r.body))
      else none
