-- ===== src/Caustic/Config.antt =====
-- The command line of caustic.c: `config_default` and `parse_args`.
use ryzen_build.Base.{ℕ, ltb, ◌==◌, ◌||◌, if◌then◌else◌, take, ◌^◌, ◌-◌}
use ryzen_build.Base.{Bool, true, false, List, [], ◌∷◌, Option, none, some, bytes, same_text, atoi}

-- An `int` is its word of 32 bits.
pub record Config : Type 0 where
  pub card : List ℕ
  pub path : List ℕ
  pub campaign_id : List ℕ
  pub advertiser_id : List ℕ
  pub interval_sec : ℕ
  pub once : Bool
  pub include_xattrs : Bool
  pub include_stat : Bool
  pub include_gpu : Bool

unfoldable pub config_default : Config
config_default = record {
  card = bytes "card0";
  path = bytes ".";
  campaign_id = [];
  advertiser_id = [];
  interval_sec = 30;
  once = false;
  include_xattrs = true;
  include_stat = true;
  include_gpu = true;
}

-- An interval below 1 becomes 1; a word from 2^31 on is a negative `int`.
unfoldable pub interval : ℕ → ℕ
interval v = if (v == 0) || ltb (2 ^ 31 - 1) v then 1 else v

-- What an argument does: a flag changes the configuration, an option does with its value, and any
-- other ends the program.
pub data Setter : Type 0 where
  flag : (Config → Config) → Setter
  valued : (List ℕ → Config → Config) → Setter
  unknown : Setter

unfoldable pub setter : List ℕ → Setter
setter a =
    if same_text a (bytes "--card")
    then valued (λ v cfg. record cfg { card = take 31 v })
    else if same_text a (bytes "--path")
    then valued (λ v cfg. record cfg { path = take 4095 v })
    else if same_text a (bytes "--campaign")
    then valued (λ v cfg. record cfg { campaign_id = take 127 v })
    else if same_text a (bytes "--advertiser")
    then valued (λ v cfg. record cfg { advertiser_id = take 127 v })
    else if same_text a (bytes "--interval")
    then valued (λ v cfg. record cfg { interval_sec = interval (atoi v) })
    else if same_text a (bytes "--once")
    then flag (λ cfg. record cfg { once = true })
    else if same_text a (bytes "--no-xattrs")
    then flag (λ cfg. record cfg { include_xattrs = false })
    else if same_text a (bytes "--no-stat")
    then flag (λ cfg. record cfg { include_stat = false })
    else if same_text a (bytes "--no-gpu")
    then flag (λ cfg. record cfg { include_gpu = false })
    else unknown

abbrev pub Pending : Type 0
Pending = Option (List ℕ → Config → Config)

-- After an argument: the configuration and the option whose value comes next; `none` where the program
-- has ended.
abbrev pub applied : Setter → Config → Option (Config × Pending)
applied (flag f) cfg = some (f cfg, none)
applied (valued f) cfg = some (cfg, some f)
applied unknown cfg = none

abbrev pub go_on : Option (Config × Pending) → (Config → Pending → Option Config) → Option Config
go_on none f = none
go_on (some (cfg, p)) f = f cfg p

-- The loop of `parse_args`.
unfoldable pub args_loop : List (List ℕ) → Config → Pending → Option Config
args_loop [] cfg none = some cfg
args_loop [] cfg (some f) = none
args_loop (a ∷ rest) cfg none = go_on (applied (setter a) cfg) (args_loop rest)
args_loop (v ∷ rest) cfg (some f) = args_loop rest (f v cfg) none

abbrev is_empty : List ℕ → Bool
is_empty [] = true
is_empty (c ∷ t) = false

abbrev with_ids : Option Config → Option Config
with_ids none = none
with_ids (some cfg) =
    if is_empty cfg.campaign_id || is_empty cfg.advertiser_id then none else some cfg

unfoldable pub parse_args : Config → List (List ℕ) → Option Config
parse_args cfg argv = with_ids (args_loop argv cfg none)
