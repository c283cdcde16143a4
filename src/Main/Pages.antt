-- ===== src/Main/Pages.antt =====
-- main.go: the HTTP endpoints besides /probe and the metrics of the process.
--
-- `escape` is `html.EscapeString`, and the page of the recent probes is given by its rows. The text
-- of the query's `id` comes parsed, `none` is an error. YAML is a parameter. The newline that
-- `http.Error` writes after its text is left out.
use Prim.Native.String.{◌++◌ as ◌<>◌}
use big_blackbox_exporter.Base.{
  ℕ, Bool, true, false, not, ◌&&◌, List, [], ◌∷◌, ◌++◌, String, Option, some, none, str_eq,
  if◌then◌else◌,
}
use big_blackbox_exporter.Base.Int.{ℤ, negsuc, eqb_ℤ}
use big_blackbox_exporter.Config.{Config}
use big_blackbox_exporter.Config.Unmarshal.{Result as Loaded}
use big_blackbox_exporter.Config.Reload.{SafeConfig, reload_config}
use big_blackbox_exporter.History.{Result, ResultHistory, list, get_by_id, get_by_target}

-- A row of the table, with the id of its link to the logs.
pub record Row : Type 0 where
  pub module_name : String
  pub target : String
  pub success : String
  pub id : ℤ

-- A response by its status and its text, the table of the front page, or a redirect.
pub data Page : Type 0 where
  plain : (status : ℕ) → String → Page
  front_page : List Row → Page
  redirect : (url : String) → Page

abbrev pub row : (escape : String → String) → Result → Row
row escape r = record {
  module_name = escape r.module_name;
  target = escape r.target;
  success = if not r.success then "<strong>Failure</strong>" else "Success";
  id = r.id;
}

-- The loop from the last result to the first.
unfoldable pub rows : (escape : String → String) → List Result → List Row
rows escape [] = []
rows escape (r ∷ results) = rows escape results ++ row escape r ∷ []

abbrev pub front : (escape : String → String) → ResultHistory → Page
front escape rh = front_page (rows escape (list rh))

-- The endpoint "/", where the prefix is another.
unfoldable pub root : (external_url path : String) → Page
root external_url path =
    if not (str_eq path "/") then plain 404 "404 page not found" else redirect external_url

abbrev pub output_of : (missing : String) → Option Result → Page
output_of missing none = plain 404 missing
output_of missing (some result) = plain 200 result.debug_output

abbrev pub is_given : Option ℤ → Bool
is_given none = false
is_given (some id) = true

abbrev pub or_minus_one : Option ℤ → ℤ
or_minus_one none = negsuc 0
or_minus_one (some id) = id

-- The endpoint /logs.
unfoldable pub logs : (id : Option ℤ) → (target : String) → ResultHistory → Page
logs id target rh =
    if is_given id && not (str_eq target "")
    then plain 400 "Probe id and target can't be defined at the same time"
    else if eqb_ℤ (or_minus_one id) (negsuc 0) && str_eq target ""
    then plain 400 "Probe id or target must be defined as http query parameters"
    else if not (str_eq target "")
    then output_of "Probe target not found" (get_by_target target rh)
    else output_of "Probe id not found" (get_by_id (or_minus_one id) rh)

-- The endpoint /-/healthy.
abbrev pub healthy : Page
healthy = plain 200 "Healthy"

-- The endpoint /config, by what `yaml.Marshal` gives.
abbrev pub show_config : (marshalled : String × Option String) → Page
show_config (text, none) = plain 200 text
show_config (text, some e) = plain 500 e

abbrev pub reloaded : Option String → Page
reloaded none = plain 200 ""
reloaded (some e) = plain 500 ("failed to reload config: " <> e)

-- The endpoint /-/reload: the request waits for the loop that reloads.
unfoldable pub reload :
    (method : String) → Loaded Config → (now : ℤ) → SafeConfig → SafeConfig × Page
reload method loaded now sc =
    if not (str_eq method "POST")
    then (sc, plain 405 "This endpoint requires a POST request.\n")
    else ((reload_config loaded now sc).0, reloaded (reload_config loaded now sc).1)
