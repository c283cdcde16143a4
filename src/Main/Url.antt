-- ===== src/Main/Url.antt =====
-- main.go: `computeExternalURL`, and the prefix of the routes.
--
-- The host's name, net's and net/url's parsing are parameters; `none` is an error. Of a URL only the
-- path is read and written; the rest of it is a parameter's type.
use Prim.Native.String.{◌++◌ as ◌<>◌}
use Prim.Native.Char.{code}
use text.Mathlib.Text.{starts_with}
use big_blackbox_exporter.Base.{
  Bool, not, ◌&&◌, ◌||◌, String, Option, some, none, str_eq, ◌==◌, if◌then◌else◌,
}
use big_blackbox_exporter.Base.Text.{trim_left, trim_right}

pub record Url (Rest : Type 0) : Type 0 where
  pub path : String
  pub rest : Rest

pub record UrlEnv (Rest : Type 0) : Type 0 where
  pub hostname : Option String
  pub split_host_port : String → Option (String × String)
  pub parse : String → Option (Url Rest)

-- `strings.HasSuffix`
unfoldable pub ends_with : (s suffix : String) → Bool
ends_with String.[] suffix = str_eq "" suffix
ends_with (String.◌∷◌ c s) suffix = str_eq (String.◌∷◌ c s) suffix || ends_with s suffix

unfoldable pub starts_or_ends_with_quote : String → Bool
unfolding ends_with
starts_or_ends_with_quote s =
    starts_with s "\"" || starts_with s "'" || ends_with s "\"" || ends_with s "'"

-- `strings.TrimRight(s, "/")` and `strings.Trim(s, "/")`
unfoldable pub trim_right_slash : String → String
unfolding trim_right
trim_right_slash s = trim_right (λ c. code c == b'/') s

unfoldable pub trim_slash : String → String
unfolding trim_right_slash trim_left
trim_slash s = trim_right_slash (trim_left (λ c. code c == b'/') s)

-- The inferred URL, where none is given.
abbrev pub inferred : Option String → Option (String × String) → Option String
inferred none hp = none
inferred (some hostname) none = none
inferred (some hostname) (some (host, port)) = some ("http://" <> hostname <> ":" <> port <> "/")

abbrev pub url_text : {Rest : Type 0} → UrlEnv Rest → (u listen_addr : String) → Option String
url_text env u listen_addr =
    if str_eq u "" then inferred env.hostname (env.split_host_port listen_addr) else some u

abbrev pub with_slash : String → String
with_slash path = if not (str_eq path "") && not (starts_with path "/") then "/" <> path else path

abbrev pub sanitized : {Rest : Type 0} → Option (Url Rest) → Option (Url Rest)
sanitized none = none
sanitized (some eu) = some (record eu { path = with_slash (trim_right_slash eu.path) })

abbrev pub parsed : {Rest : Type 0} → UrlEnv Rest → Option String → Option (Url Rest)
parsed env none = none
parsed env (some u) = if starts_or_ends_with_quote u then none else sanitized (env.parse u)

unfoldable pub compute_external_url :
    {Rest : Type 0} → UrlEnv Rest → (u listen_addr : String) → Option (Url Rest)
unfolding starts_or_ends_with_quote trim_right_slash
compute_external_url env u listen_addr = parsed env (url_text env u listen_addr)

-- The prefix of the routes, from its flag and the path of the external URL.
unfoldable pub route_prefix : (flag url_path : String) → String
unfolding trim_slash
route_prefix flag url_path =
    let prefix = "/" <> trim_slash (if str_eq flag "" then url_path else flag) in
    if not (str_eq prefix "/") then prefix <> "/" else prefix
