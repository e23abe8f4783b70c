-- ===== src/Infinity/Config/Accepted.antt =====
-- The arrays of the configuration of infinity.c, through `parse_args`.
use ryzen_build.Base.{ℕ, ◌<◌, ◌≡◌, refl, ap, arith, length, length-take}
use ryzen_build.Base.{List, [], ◌∷◌, Option, none, some}
use ryzen_build.Infinity.Config.{
  ProxyConfig, config_init, Valued, Opt, valued, no_delta_link, verbose, unknown, opt_of, set_value,
  parse_host_port,
}
use ryzen_build.Infinity.Config.{
  Place, option, value, dead, placed, at_option, next_place, args_loop, parse_args, set_listen,
  set_upstream, result,
}
use ryzen_build.Infinity.Config.Valued.{
  listen, upstream, spool_dir, max_connections, idle_timeout, backlog,
}
use ryzen_build.Infinity.Config.HostPort.{accepted-IsHostPort}

-- Each string has room for its terminator, and no host or port is empty.
pub record IsConfig (cfg : ProxyConfig) : Type 0 where
  pub listen_host_fits : (0 < length cfg.listen_host) × (length cfg.listen_host < 256)
  pub listen_port_fits : (0 < length cfg.listen_port) × (length cfg.listen_port < 32)
  pub upstream_host_fits : (0 < length cfg.upstream_host) × (length cfg.upstream_host < 256)
  pub upstream_port_fits : (0 < length cfg.upstream_port) × (length cfg.upstream_port < 32)
  pub spool_dir_fits : length cfg.spool_dir < 4096

abbrev OptionIsConfig : Option ProxyConfig → Type 0
OptionIsConfig none = Unit
OptionIsConfig (some cfg) = IsConfig cfg

abbrev PlaceIsConfig : Place → Type 0
PlaceIsConfig (option cfg) = IsConfig cfg
PlaceIsConfig (value o cfg) = IsConfig cfg
PlaceIsConfig dead = Unit

listen-IsConfig :
    (v : List ℕ) (cfg : ProxyConfig) (o : Option (List ℕ × List ℕ))
    → parse_host_port v 256 32 ≡ o
    → IsConfig cfg
    → OptionIsConfig (set_listen cfg o)
listen-IsConfig v cfg none e c = tt
listen-IsConfig v cfg (some (h, p)) e c =
    let w = accepted-IsHostPort v h p 256 32 e in
    record {
      listen_host_fits = w.host_fits;
      listen_port_fits = w.port_fits;
      upstream_host_fits = c.upstream_host_fits;
      upstream_port_fits = c.upstream_port_fits;
      spool_dir_fits = c.spool_dir_fits;
    }

upstream-IsConfig :
    (v : List ℕ) (cfg : ProxyConfig) (o : Option (List ℕ × List ℕ))
    → parse_host_port v 256 32 ≡ o
    → IsConfig cfg
    → OptionIsConfig (set_upstream cfg o)
upstream-IsConfig v cfg none e c = tt
upstream-IsConfig v cfg (some (h, p)) e c =
    let w = accepted-IsHostPort v h p 256 32 e in
    record {
      listen_host_fits = c.listen_host_fits;
      listen_port_fits = c.listen_port_fits;
      upstream_host_fits = w.host_fits;
      upstream_port_fits = w.port_fits;
      spool_dir_fits = c.spool_dir_fits;
    }

-- A change that touches no host and no port.
same-IsConfig :
    (cfg new : ProxyConfig)
    → new.listen_host ≡ cfg.listen_host
    → new.listen_port ≡ cfg.listen_port
    → new.upstream_host ≡ cfg.upstream_host
    → new.upstream_port ≡ cfg.upstream_port
    → length new.spool_dir < 4096
    → IsConfig cfg
    → IsConfig new
same-IsConfig cfg new a b d e f c = record {
  listen_host_fits = rw a c.listen_host_fits;
  listen_port_fits = rw b c.listen_port_fits;
  upstream_host_fits = rw d c.upstream_host_fits;
  upstream_port_fits = rw e c.upstream_port_fits;
  spool_dir_fits = f;
}

set_value-IsConfig :
    (o : Valued) (v : List ℕ) (cfg : ProxyConfig)
    → IsConfig cfg
    → OptionIsConfig (set_value o v cfg)
unfolding set_value
set_value-IsConfig listen v cfg c = listen-IsConfig v cfg (parse_host_port v 256 32) refl c
set_value-IsConfig upstream v cfg c = upstream-IsConfig v cfg (parse_host_port v 256 32) refl c
set_value-IsConfig spool_dir v cfg c =
    same-IsConfig cfg _ refl refl refl refl (omega (arith, length-take 4095 v)) c
set_value-IsConfig max_connections v cfg c =
    same-IsConfig cfg _ refl refl refl refl c.spool_dir_fits c
set_value-IsConfig idle_timeout v cfg c = same-IsConfig cfg _ refl refl refl refl c.spool_dir_fits c
set_value-IsConfig backlog v cfg c = same-IsConfig cfg _ refl refl refl refl c.spool_dir_fits c

placed-IsConfig : (o : Option ProxyConfig) → OptionIsConfig o → PlaceIsConfig (placed o)
placed-IsConfig none c = tt
placed-IsConfig (some cfg) c = c

at_option-IsConfig : (o : Opt) (cfg : ProxyConfig) → IsConfig cfg → PlaceIsConfig (at_option o cfg)
at_option-IsConfig (valued o) cfg c = c
at_option-IsConfig no_delta_link cfg c = same-IsConfig cfg _ refl refl refl refl c.spool_dir_fits c
at_option-IsConfig verbose cfg c = same-IsConfig cfg _ refl refl refl refl c.spool_dir_fits c
at_option-IsConfig unknown cfg c = tt

next_place-IsConfig : (p : Place) (a : List ℕ) → PlaceIsConfig p → PlaceIsConfig (next_place p a)
unfolding next_place
next_place-IsConfig (option cfg) a c = at_option-IsConfig (opt_of a) cfg c
next_place-IsConfig (value o cfg) a c =
    placed-IsConfig (set_value o a cfg) (set_value-IsConfig o a cfg c)
next_place-IsConfig dead a c = tt

args_loop-IsConfig :
    (p : Place) (argv : List (List ℕ)) → PlaceIsConfig p → PlaceIsConfig (args_loop p argv)
unfolding args_loop
args_loop-IsConfig p [] c = c
args_loop-IsConfig p (a ∷ rest) c =
    args_loop-IsConfig (next_place p a) rest (next_place-IsConfig p a c)

abbrev or_else : ProxyConfig → Option ProxyConfig → ProxyConfig
or_else c none = c
or_else c (some d) = d

result-IsConfig :
    (p : Place) (cfg : ProxyConfig) → PlaceIsConfig p → result p ≡ some cfg → IsConfig cfg
result-IsConfig (option c) cfg v e = let same : c ≡ cfg = ap (or_else c) e in rw same at v
result-IsConfig (value o c) cfg v e = absurd (ground (arith, e))
result-IsConfig dead cfg v e = absurd (ground (arith, e))

init-IsConfig : IsConfig config_init
unfolding config_init
init-IsConfig = record {
  listen_host_fits = omega arith;
  listen_port_fits = omega arith;
  upstream_host_fits = omega arith;
  upstream_port_fits = omega arith;
  spool_dir_fits = omega arith;
}

-- Every command line that the proxy accepts leaves the strings of its configuration inside their
-- arrays, with room for the terminator, and no host and no port empty.
pub parse_args-IsConfig :
    (argv : List (List ℕ)) (cfg : ProxyConfig)
    → parse_args config_init argv ≡ some cfg
    → IsConfig cfg
unfolding parse_args
parse_args-IsConfig argv cfg e =
    result-IsConfig (args_loop (option config_init) argv) cfg
      (args_loop-IsConfig (option config_init) argv init-IsConfig) e
