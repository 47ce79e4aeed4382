-- ===== src/Tests/Command.antt =====
-- Runs of the theorems on the command.
use promeproxy.Common.{
  string_eq, nat_eq, ℕ, String, ◌≡◌, refl, ◌⊎◌, inl, inr, true, false, none, some, List, [], ◌∷◌,
  ◌++◌, arith, if◌then◌else◌, ◌==◌, pos, has, lookup, insert,
}
use promeproxy.Retrieval.Manager.{new_target_manager}
use promeproxy.Cmd.Config.{Outside, parse}
use promeproxy.Cmd.Config.Laws.{IsNormal, IfParsed, parse-IsNormal}
use promeproxy.Cmd.Reload.{Reloadable, reload_config}
use promeproxy.Cmd.Sets.{in_set}
use promeproxy.Cmd.Main.{
  Event, hangup, terminated, quit_posted, reload_posted, targets_run, Running,
}
use promeproxy.Cmd.Usage.{Flag, category, members, bucket, usage_groups}
use promeproxy.Cmd.Usage.Laws.{IsGrouped, usage_groups-IsGrouped}
use promeproxy.Web.Handler.Routes.{web_options}
use promeproxy.Web.Handler.Serving.{Serves, parse-Serves}
use promeproxy.Cmd.Components.{FullConfig, Components, Makers, reloadables}
use promeproxy.Cmd.Components.Laws.{Applied, reload_config-Applied}

-- The first argument is the route prefix, and the second the URL, of which the path is known.
abbrev outside : Outside
outside = record {
  staleness_delta = pos 300_000_000_000;
  parse_flags = λ args flags. elim args [
    | [] ↦ none
    | prefix ∷ rest ↦
        some (record flags { route_prefix = prefix; prometheus_url = "http://one/metrics/" }, [])
  ];
  hostname = none;
  split_port = λ s. none;
  is_url = λ s. true;
  url_path = λ s. some "/metrics/";
}

parse-IsNormal_example : IfParsed (IsNormal outside) (parse outside ("proxy//" ∷ []))
parse-IsNormal_example = parse-IsNormal outside ("proxy//" ∷ [])

-- The configuration is a number; the file "./prometheus.yml" has 7, and every other one 5. The first
-- component refuses 7.
abbrev load : String → ℕ ⊎ String
load file = if file == "./prometheus.yml" then inl 7 else inl 5

abbrev logs : List (Reloadable ℕ (List ℕ) String)
logs =
    (λ conf w. (w, if conf == 7 then some "refused" else none))
    ∷ (λ conf w. (w ++ conf ∷ [], none))
    ∷ []

-- HTTP clients are numbers, and 2 is refused. A queue manager is known by its client's index.
abbrev makers : Makers ℕ ℕ ℕ ℕ ℕ ℕ String
makers = record {
  remote_client = λ g. if g == 2 then inr "bad TLS" else inl g;
  queue_manager = λ labels relabel c. c.index;
  scrape_client = λ s. inl s;
}

abbrev fresh : Components ℕ ℕ ℕ ℕ ℕ ℕ
fresh = record {
  writer = record { queues = []; log = [] };
  reader = record { clients = []; external_labels = [] };
  targets = new_target_manager;
  web = record { external_labels = []; config_string = ""; quit_closed = false };
}

abbrev refused : FullConfig ℕ ℕ ℕ
refused = record {
  remote_write_configs =
      (record { url = "http://one"; timeout = 5; http_client_config = 2 }, 0) ∷ [];
  remote_read_configs = record { url = "http://two"; timeout = 5; http_client_config = 1 } ∷ [];
  scrape_configs = record { job_name = "a"; scrape = 7 } ∷ [];
  external_labels = ("region", "eu") ∷ [];
  text = "region: eu";
}

reload_config-Applied_example :
    Applied makers refused fresh
      (reload_config (inl refused) (reloadables makers) fresh).0
      (reload_config (inl refused) (reloadables makers) fresh).1
reload_config-Applied_example = reload_config-Applied makers refused fresh (λ p. refl)

abbrev idle : Running (Components ℕ ℕ ℕ ℕ ℕ ℕ)
idle = record { components = fresh; waiting_reloads = 0; reload_errors = []; quit_enabled = false }

abbrev load_config : String → FullConfig ℕ ℕ ℕ ⊎ String
load_config file = inl refused

-- The target manager runs, the configuration is reloaded, nothing answers two requests, and SIGTERM comes.
abbrev some_events : List Event
some_events = targets_run ∷ hangup ∷ reload_posted ∷ quit_posted ∷ terminated ∷ []

parse-Serves_example :
    IfParsed (λ c. Serves (λ s t. t) (web_options true c)) (parse outside ("proxy//" ∷ []))
parse-Serves_example = parse-Serves outside ("proxy//" ∷ []) (λ s t. t) true

abbrev flag : String → Flag
flag name = record { name = name; def_value = ""; description = "" }

-- Two flags are of the web, and one of the queries, and one has no category.
abbrev some_flags : List Flag
some_flags = flag "h" ∷ flag "query.timeout" ∷ flag "web.prefix" ∷ flag "web.url" ∷ []

some_flags-reached :
    (c : String)
    → has (lookup c (bucket some_flags [])) ≡ true
    → in_set c ("web" ∷ "query" ∷ "." ∷ []) ≡ true
unfolding lookup bucket insert members category in_set
some_flags-reached c h = ground arith

usage_groups-IsGrouped_example :
    IsGrouped some_flags (usage_groups ("web" ∷ "query" ∷ "." ∷ []) some_flags)
usage_groups-IsGrouped_example =
    usage_groups-IsGrouped ("web" ∷ "query" ∷ "." ∷ []) some_flags some_flags-reached
