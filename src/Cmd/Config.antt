-- ===== src/Cmd/Config.antt =====
-- cmd/config.go: the flags and their defaults, parse and parsePrometheusURL.
pub mod Laws
use Prim.Native.Char.{Char, code}
use Prim.Native.String.{String}
use promeproxy.Common.{
  string_eq, nat_eq, ℕ, ◌*◌, ◌⊎◌, inl, inr, Bool, false, Option, none, some, List, [], ◌∷◌,
  if◌then◌else◌, ◌==◌, str_append, ℤ, pos,
}

-- cfg, as far as the flags set it
pub record Flags : Type 0 where
  pub config_file : String
  pub listen_address : String
  pub max_connections : ℕ
  pub prometheus_url : String
  pub route_prefix : String
  pub local_storage_engine : String
  pub staleness_delta : ℤ
  pub query_timeout : ℤ
  pub max_concurrent_queries : ℕ
  pub print_version : Bool

-- the defaults of init, with promql.StalenessDelta as it is there; durations in nanoseconds
unfoldable pub default_flags : ℤ → Flags
default_flags staleness_delta = record {
  config_file = "prometheus.yml";
  listen_address = ":9090";
  max_connections = 512;
  prometheus_url = "";
  route_prefix = "";
  local_storage_engine = "remoteprometheus";
  staleness_delta = staleness_delta;
  query_timeout = pos (2 * 60 * 1_000_000_000);
  max_concurrent_queries = 20;
  print_version = false;
}

-- cfg after parse: also the path of web.ExternalURL.
pub record Config : Type 0 where
  pub flags : Flags
  pub external_path : String

-- What parse uses of other code: cfg.fs.Parse with the flags that it sets and the arguments that are left,
-- or an error; os.Hostname; the port of net.SplitHostPort; govalidator.IsURL; and the path of url.Parse.
pub record Outside : Type 0 where
  pub staleness_delta : ℤ
  pub parse_flags : List String → Flags → Option (Flags × List String)
  pub hostname : Option String
  pub split_port : String → Option String
  pub is_url : String → Bool
  pub url_path : String → Option String

-- How parse fails.
pub data ParseError : Type 0 where
  bad_flags no_hostname bad_listen_address invalid_url unreadable_url : ParseError
  non_flag_argument : String → ParseError

unfoldable pub is_slash : Char → Bool
is_slash c = code c == b'/'

-- strings.TrimLeft, strings.TrimRight and strings.Trim with the cutset "/", by what they document
unfoldable pub trim_left : String → String
unfolding is_slash
trim_left String.[] = ""
trim_left (String.◌∷◌ c s) = let rest = trim_left s in if is_slash c then rest else String.◌∷◌ c s

-- a slash before what is left of the text
unfoldable pub cons_unless_last : Char → String → String
unfolding is_slash
cons_unless_last c String.[] = if is_slash c then "" else String.◌∷◌ c ""
cons_unless_last c (String.◌∷◌ d s) = String.◌∷◌ c (String.◌∷◌ d s)

unfoldable pub trim_right : String → String
unfolding cons_unless_last
trim_right String.[] = ""
trim_right (String.◌∷◌ c s) = cons_unless_last c (trim_right s)

unfoldable pub trim : String → String
unfolding trim_left trim_right
trim s = trim_right (trim_left s)

-- strings.HasPrefix with "/"
unfoldable pub starts_with_slash : String → Bool
unfolding is_slash
starts_with_slash String.[] = false
starts_with_slash (String.◌∷◌ c s) = is_slash c

-- the path that parsePrometheusURL sets
unfoldable pub external_path_of : String → String
unfolding trim_right starts_with_slash
external_path_of path =
    let ppref = trim_right path in
    if ppref == "" then ppref else if starts_with_slash ppref then ppref else str_append "/" ppref

-- the URL that is derived from the host's name and the port
unfoldable pub derived_url : String → String → String
derived_url host port =
    str_append "http://" (str_append host (str_append ":" (str_append port "/")))

-- parsePrometheusURL once the URL is known
unfoldable pub check_url : Outside → Flags → ParseError ⊎ Config
unfolding external_path_of
check_url o flags =
    if o.is_url flags.prometheus_url
    then (elim (o.url_path flags.prometheus_url) [
      | none ↦ inl unreadable_url
      | some path ↦ inr (record { flags = flags; external_path = external_path_of path })
    ])
    else inl invalid_url

-- parsePrometheusURL
unfoldable pub parse_prometheus_url : Outside → Flags → ParseError ⊎ Config
unfolding check_url derived_url
parse_prometheus_url o flags =
    if flags.prometheus_url == ""
    then (elim o.hostname [
      | none ↦ inl no_hostname
      | some host ↦ elim (o.split_port flags.listen_address) [
        | none ↦ inl bad_listen_address
        | some port ↦ check_url o (record flags { prometheus_url = derived_url host port })
      ]
    ])
    else check_url o flags

-- the prefix of the routes: the flag's, or the external path where it is empty
unfoldable pub normal_prefix : String → String → String
unfolding trim
normal_prefix flag external_path =
    str_append "/" (trim (if flag == "" then external_path else flag))

-- the end of parse
unfoldable pub with_prefix : ParseError ⊎ Config → ParseError ⊎ Config
unfolding normal_prefix
with_prefix (inl e) = inl e
with_prefix (inr c) = inr (record c {
  flags = record c.flags { route_prefix = normal_prefix c.flags.route_prefix c.external_path };
})

-- parse after cfg.fs.Parse
unfoldable pub parse_rest : Outside → Option (Flags × List String) → ParseError ⊎ Config
unfolding parse_prometheus_url with_prefix
parse_rest o none = inl bad_flags
parse_rest o (some (flags, arg ∷ rest)) = inl (non_flag_argument arg)
parse_rest o (some (flags, [])) = with_prefix (parse_prometheus_url o flags)

-- parse
unfoldable pub parse : Outside → List String → ParseError ⊎ Config
unfolding default_flags parse_rest
parse o args = parse_rest o (o.parse_flags args (default_flags o.staleness_delta))
