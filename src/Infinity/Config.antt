-- ===== src/Infinity/Config.antt =====
-- The command line of infinity.c: `parse_host_port`, `config_init` and `parse_args` of `ProxyConfig`.
pub mod HostPort
pub mod Accepted
use Prim.Native.String.{String}
use ryzen_build.Base.{ℕ, suc, ◌+◌, ◌-◌, leb, ◌==◌, ◌||◌, if◌then◌else◌, take, drop, length}
use ryzen_build.Base.{Bool, true, false, List, [], ◌∷◌, Option, none, some}
use ryzen_build.Base.{bytes, same_text, strrchr, atoi}

abbrev pub colon : ℕ
colon = 58

-- The host and the port around the colon at an index.
unfoldable pub host_port_at : ℕ → List ℕ → ℕ → ℕ → Option (List ℕ × List ℕ)
host_port_at i input host_sz port_sz =
    let host = take i input in
    let port = drop (suc i) input in
    if (i == 0) || (length port == 0)
    then none
    else if leb host_sz (length host) || leb port_sz (length port)
    then none
    else some (host, port)

abbrev pub split_at : Option ℕ → List ℕ → ℕ → ℕ → Option (List ℕ × List ℕ)
split_at none input host_sz port_sz = none
split_at (some i) input host_sz port_sz = host_port_at i input host_sz port_sz

-- The host and the port, where the source returns 0.
unfoldable pub parse_host_port : List ℕ → ℕ → ℕ → Option (List ℕ × List ℕ)
parse_host_port input host_sz port_sz = split_at (strrchr input colon) input host_sz port_sz

-- An `int` is its word of 32 bits.
pub record ProxyConfig : Type 0 where
  pub listen_host : List ℕ
  pub listen_port : List ℕ
  pub upstream_host : List ℕ
  pub upstream_port : List ℕ
  pub max_connections : ℕ
  pub idle_timeout_sec : ℕ
  pub backlog : ℕ
  pub verbose : Bool
  pub spool_dir : List ℕ
  pub delta_link_on_close : Bool

unfoldable pub config_init : ProxyConfig
config_init = record {
  listen_host = bytes "0.0.0.0";
  listen_port = bytes "9000";
  upstream_host = bytes "127.0.0.1";
  upstream_port = bytes "8080";
  max_connections = 4096;
  idle_timeout_sec = 120;
  backlog = 512;
  verbose = false;
  spool_dir = bytes "./spool";
  delta_link_on_close = true;
}

abbrev pub set_listen : ProxyConfig → Option (List ℕ × List ℕ) → Option ProxyConfig
set_listen cfg none = none
set_listen cfg (some (h, p)) = some (record cfg { listen_host = h; listen_port = p })

abbrev pub set_upstream : ProxyConfig → Option (List ℕ × List ℕ) → Option ProxyConfig
set_upstream cfg none = none
set_upstream cfg (some (h, p)) = some (record cfg { upstream_host = h; upstream_port = p })

-- The options that take a value.
pub data Valued : Type 0 where
  listen upstream spool_dir max_connections idle_timeout backlog : Valued

-- What an argument stands for: an option that takes a value, a flag, or nothing the source knows.
pub data Opt : Type 0 where
  valued : Valued → Opt
  no_delta_link : Opt
  verbose : Opt
  unknown : Opt

unfoldable pub opt_of : List ℕ → Opt
opt_of a =
    if same_text a (bytes "--listen")
    then valued listen
    else if same_text a (bytes "--upstream")
    then valued upstream
    else if same_text a (bytes "--spool-dir")
    then valued spool_dir
    else if same_text a (bytes "--no-delta-link")
    then no_delta_link
    else if same_text a (bytes "--max-connections")
    then valued max_connections
    else if same_text a (bytes "--idle-timeout")
    then valued idle_timeout
    else if same_text a (bytes "--backlog")
    then valued backlog
    else if same_text a (bytes "--verbose")
    then verbose
    else unknown

-- The value of an option; `none` where `die` ends the program.
unfoldable pub set_value : Valued → List ℕ → ProxyConfig → Option ProxyConfig
set_value listen v cfg = set_listen cfg (parse_host_port v 256 32)
set_value upstream v cfg = set_upstream cfg (parse_host_port v 256 32)
set_value spool_dir v cfg = some (record cfg { spool_dir = take 4095 v })
set_value max_connections v cfg = some (record cfg { max_connections = atoi v })
set_value idle_timeout v cfg = some (record cfg { idle_timeout_sec = atoi v })
set_value backlog v cfg = some (record cfg { backlog = atoi v })

-- The loop of `parse_args` is at an option, or at the value of one; or `die` has been called.
pub data Place : Type 0 where
  option : ProxyConfig → Place
  value : Valued → ProxyConfig → Place
  dead : Place

abbrev pub placed : Option ProxyConfig → Place
placed none = dead
placed (some cfg) = option cfg

abbrev pub at_option : Opt → ProxyConfig → Place
at_option (valued o) cfg = value o cfg
at_option no_delta_link cfg = option (record cfg { delta_link_on_close = false })
at_option verbose cfg = option (record cfg { verbose = true })
at_option unknown cfg = dead

unfoldable pub next_place : Place → List ℕ → Place
next_place (option cfg) a = at_option (opt_of a) cfg
next_place (value o cfg) a = placed (set_value o a cfg)
next_place dead a = dead

unfoldable pub args_loop : Place → List (List ℕ) → Place
args_loop p [] = p
args_loop p (a ∷ rest) = args_loop (next_place p a) rest

abbrev pub result : Place → Option ProxyConfig
result (option cfg) = some cfg
result (value o cfg) = none
result dead = none

-- The configuration after the arguments behind the program's name.
unfoldable pub parse_args : ProxyConfig → List (List ℕ) → Option ProxyConfig
parse_args cfg argv = result (args_loop (option cfg) argv)
