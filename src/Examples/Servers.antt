-- ===== src/Examples/Servers.antt =====
-- The built-in clock server and one on the network.
use channel_agent.Prelude.{
  ℕ, ◌≡◌, ◌⊎◌, refl, Bool, true, false, Option, some, none, List, [], ◌∷◌, ◌++◌, ◌-◌, ltb, length,
  Codes, codes, same_codes,
}
use channel_agent.Outbound.{
  NetLibrary, Parts, Guard, Target, Address, v4, accepted, prepare, prepare_parts, host_allowed,
  is_public,
}
use channel_agent.Outbound.Safety.{IsGuarded, prepare-IsGuarded}
use channel_agent.Mcp.Names.{catalogue_name, split_name, is_ambiguous, split_name-catalogue_name}
use channel_agent.Mcp.Server.{
  ServerConfig, stdio, local, Sdk, answered, late, failed, Managed, managed, backoff_base,
}
use channel_agent.Mcp.Server.Spacing.{Call, Paced, trace, trace-Paced}
use channel_agent.Mcp.Server.Kept.{Request, AreOn, called_each, called_each-AreOn}
use channel_agent.Mcp.Manager.{configure, get}
use channel_agent.Mcp.Manager.Replace.{last_config, replaced, get-configure}
use channel_agent.Mcp.Catalogue.{Moment, Calls, row_names, arguments_of, run}
use channel_agent.Mcp.Catalogue.Runs.{IsSuccess, run-IsRecorded}

abbrev hub : Codes
hub = codes "hub.example.org"

abbrev hub_url : Codes
hub_url = codes "https://hub.example.org/x"

abbrev hub_parts : Parts
hub_parts = record {
  scheme = codes "https";
  hostname = hub;
  has_credentials = false;
  port = none;
  bad_port = false;
}

abbrev net : NetLibrary
net = record {
  urlsplit = λ url. some hub_parts;
  lower = λ s. s;
  parse_address = λ s. none;
  show_address = λ a. codes "93.184.216.34";
  show_port = λ n. codes "443";
  with_netloc = λ parts netloc. netloc;
  ipv4_mapped = λ n. none;
  is_global = λ a. true;
  is_multicast = λ a. false;
}

abbrev resolver : Codes → ℕ → Option (List Address)
resolver host port = some (v4 1572395042 ∷ [])

abbrev guard : Guard
guard = record {
  allowed_hosts = codes "example.org" ∷ [];
  allow_http = false;
  allow_private = false;
  resolver = resolver;
}

abbrev target : Target
target = record { url = codes "93.184.216.34"; host_header = hub; sni = some hub }

is_accepted : prepare net guard hub_url ≡ accepted target
unfolding prepare prepare_parts host_allowed is_public same_codes
is_accepted = refl

prepare-IsGuarded_example :
    (parts : Parts) × (net.urlsplit hub_url ≡ some parts) × IsGuarded net guard parts target
prepare-IsGuarded_example = prepare-IsGuarded net guard hub_url target is_accepted

split_name-catalogue_name_example :
    ((is_ambiguous (codes "time") ≡ false)
      × (split_name (catalogue_name (codes "time") (codes "now"))
          ≡ some (codes "time", codes "now")))
    ⊎ ((is_ambiguous (codes "time") ≡ true)
        × ((a : Codes) × (b : Codes) × (split_name (catalogue_name (codes "time") (codes "now"))
              ≡ some (a, b))
            × (ltb (length a) (length (codes "time")) ≡ true)))
split_name-catalogue_name_example = split_name-catalogue_name (codes "time") (codes "now")

abbrev clock : ServerConfig
clock = record {
  name = codes "time";
  protocol = stdio;
  builtin_id = some (codes "time");
  url = none;
  env_vars = [];
  egress = local;
  timeout_seconds = 20;
  concurrency_limit = 2;
  result_max_bytes = 4;
  disabled_tools = [];
}

-- The program is launched, and each of its tools says the hour.
abbrev running : Sdk ℕ
running = record {
  launch = λ m vars. some 1;
  open_url = λ url. none;
  initialize = λ s. true;
  list_tools = λ s. some (record { name = codes "now"; description = none; schema = [] } ∷ []);
  call = λ s tool arguments. answered (codes "12:30") false;
}

abbrev stopped : Sdk ℕ
stopped = record running { launch = λ m vars. none }

abbrev calls : List (Call ℕ)
calls =
    record { sdk = stopped; now = 0; failed_at = 5 }
    ∷ record { sdk = stopped; now = 3000; failed_at = 3005 }
    ∷ record { sdk = stopped; now = 4000; failed_at = 4000 }
    ∷ record { sdk = running; now = 8000; failed_at = 8000 }
    ∷ []

trace-Paced_example : Paced backoff_base 0 (trace net resolver calls (managed clock))
trace-Paced_example = trace-Paced net resolver clock calls (refl, (refl, (refl, (refl, tt))))

abbrev connected : Managed
connected = record {
  config = clock;
  session = some 1;
  last_used = 0;
  next_retry_at = 0;
  backoff = backoff_base;
}

-- The first request has no answer in time, the second one fails.
abbrev lagging : Sdk ℕ
lagging = record running { call = λ s tool arguments. late }

abbrev breaking : Sdk ℕ
breaking = record running { call = λ s tool arguments. failed }

abbrev requests : List (Request ℕ)
requests =
    record { sdk = lagging; now = 9000; failed_at = 9000; tool = codes "now"; arguments = 0 }
    ∷ record { sdk = breaking; now = 300000; failed_at = 300000; tool = codes "now"; arguments = 1 }
    ∷ record { sdk = running; now = 599000; failed_at = 599000; tool = codes "now"; arguments = 2 }
    ∷ []

called_each-AreOn_example :
    AreOn net resolver 1 4 requests (called_each net resolver requests connected)
called_each-AreOn_example =
    called_each-AreOn net resolver requests connected 1 refl
      (refl, refl, (refl, refl, (refl, refl, tt)))

abbrev servers : List Managed
servers = connected ∷ []

get-configure_example :
    get (codes "time") (configure (clock ∷ []) servers).0
    ≡ replaced (last_config (codes "time") (clock ∷ [])) (get (codes "time") servers)
get-configure_example = get-configure (codes "time") (clock ∷ []) servers (refl, tt)

abbrev moment : Moment ℕ
moment = record { sdk = running; now = 10; failed_at = 10; ended = 12 }

abbrev now_name : Codes
now_name = codes "mcp__time__now"

abbrev load : Codes → Option ℕ
load raw = some 7

abbrev no_rows : Calls
no_rows = record { servers = servers; rows = [] }

run-IsRecorded_example :
    let after = run net resolver load 0 (λ r. 4) (some 2) moment now_name (codes "{}") no_rows in
    (succeeded : Bool) × (after.1.rows
      ≡ []
        ++ record {
          agent_id = some 2;
          server_name = (row_names now_name (split_name now_name)).0;
          tool_name = (row_names now_name (split_name now_name)).1;
          succeeded = succeeded;
          duration_ms = 12 - 10;
          result_bytes = 4;
        }
          ∷ [])
    × ((succeeded ≡ false)
        ⊎ ((succeeded ≡ true)
            × IsSuccess net resolver moment now_name
                (arguments_of load 0 (codes "{}"))
                servers
                after.0))
run-IsRecorded_example =
    run-IsRecorded net resolver load 0 (λ r. 4) (some 2) moment now_name (codes "{}") no_rows
