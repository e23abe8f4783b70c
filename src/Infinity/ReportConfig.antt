-- ===== src/Infinity/ReportConfig.antt =====
-- The command line of the first half of infinity.c, a variant of caustic.c.
use ryzen_build.Base.{ℕ, ◌^◌, ◌-◌, ltb, ◌==◌, ◌||◌, if◌then◌else◌, take, bytes, same_text, atoi}
use ryzen_build.Base.{Bool, true, false, List, [], ◌∷◌, Option, none, some}

-- An `int` is its word of 32 bits.
pub record Config : Type 0 where
  pub card : List ℕ
  pub path : List ℕ
  pub campaign_id : List ℕ
  pub advertiser_id : List ℕ
  pub interval_sec : ℕ
  pub once : Bool
  pub include_xattrs : Bool
  pub include_stat : Bool
  pub include_gpu : Bool
  pub blockchain_mode : Bool
  pub emit_jsonrpc_stub : Bool
  pub chain_namespace : List ℕ
  pub chain_id : List ℕ
  pub geth_rpc_url : List ℕ
  pub contract_address : List ℕ

unfoldable pub config_default : Config
config_default = record {
  card = bytes "card0";
  path = bytes ".";
  campaign_id = [];
  advertiser_id = [];
  interval_sec = 30;
  once = false;
  include_xattrs = true;
  include_stat = true;
  include_gpu = true;
  blockchain_mode = false;
  emit_jsonrpc_stub = false;
  chain_namespace = bytes ".MNTN";
  chain_id = bytes "mntn-placeholder-1";
  geth_rpc_url = [];
  contract_address = [];
}

-- An interval below 1 becomes 1; a word from 2^31 on is a negative `int`.
unfoldable pub interval : ℕ → ℕ
interval v = if (v == 0) || ltb (2 ^ 31 - 1) v then 1 else v

-- What an argument does: a flag, an option with its value, or the end of the program.
pub data Setter : Type 0 where
  flag : (Config → Config) → Setter
  valued : (List ℕ → Config → Config) → Setter
  unknown : Setter

-- The options that caustic.c does not have.
unfoldable pub chain_setter : List ℕ → Setter
chain_setter a =
    if same_text a (bytes "--blockchain")
    then flag (λ cfg. record cfg { blockchain_mode = true })
    else if same_text a (bytes "--emit-jsonrpc-stub")
    then flag (λ cfg. record cfg { emit_jsonrpc_stub = true })
    else if same_text a (bytes "--chain-namespace")
    then valued (λ v cfg. record cfg { chain_namespace = take 63 v })
    else if same_text a (bytes "--chain-id")
    then valued (λ v cfg. record cfg { chain_id = take 63 v })
    else if same_text a (bytes "--geth-rpc-url")
    then valued (λ v cfg. record cfg { geth_rpc_url = take 511 v })
    else if same_text a (bytes "--contract-address")
    then valued (λ v cfg. record cfg { contract_address = take 127 v })
    else unknown

unfoldable pub setter : List ℕ → Setter
setter a =
    if same_text a (bytes "--card")
    then valued (λ v cfg. record cfg { card = take 31 v })
    else if same_text a (bytes "--path")
    then valued (λ v cfg. record cfg { path = take 4095 v })
    else if same_text a (bytes "--campaign")
    then valued (λ v cfg. record cfg { campaign_id = take 127 v })
    else if same_text a (bytes "--advertiser")
    then valued (λ v cfg. record cfg { advertiser_id = take 127 v })
    else if same_text a (bytes "--interval")
    then valued (λ v cfg. record cfg { interval_sec = interval (atoi v) })
    else if same_text a (bytes "--once")
    then flag (λ cfg. record cfg { once = true })
    else if same_text a (bytes "--no-xattrs")
    then flag (λ cfg. record cfg { include_xattrs = false })
    else if same_text a (bytes "--no-stat")
    then flag (λ cfg. record cfg { include_stat = false })
    else if same_text a (bytes "--no-gpu")
    then flag (λ cfg. record cfg { include_gpu = false })
    else chain_setter a

abbrev pub Pending : Type 0
Pending = Option (List ℕ → Config → Config)

abbrev pub applied : Setter → Config → Option (Config × Pending)
applied (flag f) cfg = some (f cfg, none)
applied (valued f) cfg = some (cfg, some f)
applied unknown cfg = none

abbrev pub go_on : Option (Config × Pending) → (Config → Pending → Option Config) → Option Config
go_on none f = none
go_on (some (cfg, p)) f = f cfg p

-- The loop of `parse_args`, with the option whose value comes next; `none` where the program ends.
unfoldable pub args_loop : List (List ℕ) → Config → Pending → Option Config
args_loop [] cfg none = some cfg
args_loop [] cfg (some f) = none
args_loop (a ∷ rest) cfg none = go_on (applied (setter a) cfg) (args_loop rest)
args_loop (v ∷ rest) cfg (some f) = args_loop rest (f v cfg) none

abbrev is_empty : List ℕ → Bool
is_empty [] = true
is_empty (c ∷ t) = false

abbrev with_ids : Option Config → Option Config
with_ids none = none
with_ids (some cfg) =
    if is_empty cfg.campaign_id || is_empty cfg.advertiser_id then none else some cfg

unfoldable pub parse_args : Config → List (List ℕ) → Option Config
parse_args cfg argv = with_ids (args_loop argv cfg none)
