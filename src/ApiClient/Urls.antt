-- ===== src/ApiClient/Urls.antt =====
-- `eventsUrl`, `healthUrl` and `fileDownloadUrl` of frontend/src/api/client.ts. `base` is `API_BASE`, and
-- `encode` is `encodeURIComponent`.
use Prim.Native.Char.{code}
use langgraph_agent.Base.{
  String, Bool, false, ◌||◌, Option, none, some, ◌<>◌, truthy, eqb, ◌==◌, ◌or◌, if◌then◌else◌,
}

-- `url.includes("?")`
unfoldable pub has_query : String → Bool
has_query String.[] = false
has_query (String.◌∷◌ c s) = eqb (code c) b'?' || has_query s

-- What stands before a suffix, if the text ends with it.
unfoldable pub before_suffix : String → String → Option String
before_suffix suffix String.[] = if "" == suffix then some "" else none
before_suffix suffix (String.◌∷◌ c s) =
    let rest = before_suffix suffix s in
    if String.◌∷◌ c s == suffix
    then some ""
    else elim rest [ none ↦ none | some r ↦ some (String.◌∷◌ c r) ]

unfoldable pub health_url : String → String
unfolding before_suffix ◌<>◌
health_url base = (before_suffix "/api" base or base) <> "/health"

module _ (encode : String → String) where
  -- `_withToken(url)`
  unfoldable pub with_token : Option String → String → String
  unfolding has_query ◌<>◌
  with_token token url =
      if truthy (token or "")
      then url <> (if has_query url then "&" else "?") <> "token=" <> encode (token or "")
      else url

  unfoldable pub events_url : String → Option String → String → String
  unfolding ◌<>◌
  events_url base token task_id =
      let stream = base <> "/tasks/" <> encode task_id <> "/events" in
      if truthy (token or "") then stream <> "?token=" <> encode (token or "") else stream

  unfoldable pub file_download_url : String → Option String → String → String → String
  unfolding with_token ◌<>◌
  file_download_url base token id path =
      with_token token (base <> "/tasks/" <> id <> "/files/download?path=" <> encode path)
