-- ===== src/Runway/Task.antt =====
-- A task of runway_hook.c: the command line that asks for it, and the loop that waits for its end.
pub mod Output
use ryzen_build.Base.{ℕ, suc, ◌-◌, ltb, leb, ◌==◌, ◌&&◌, ◌||◌, not, if◌then◌else◌, take, drop}
use ryzen_build.Base.{
  Bool, true, false, List, [], ◌∷◌, Option, none, some, bytes, same_text, atoi, strstr, strchr,
}
use ryzen_build.Runway.Json.{copy_value, found_value, extract_json_status}

-- An `int` is its word of 32 bits.
pub record RunwayConfig : Type 0 where
  pub prompt : List ℕ
  pub prompt_image : List ℕ
  pub model : List ℕ
  pub ratio : List ℕ
  pub duration : ℕ
  pub task_id : List ℕ
  pub poll_only : Bool

unfoldable pub cfg_init : RunwayConfig
cfg_init = record {
  prompt = [];
  prompt_image = [];
  model = bytes "gen4.5";
  ratio = bytes "1280:720";
  duration = 5;
  task_id = [];
  poll_only = false;
}

-- An argument changes the configuration by the next one, or is not known.
unfoldable pub arg_setter : List ℕ → Option (List ℕ → RunwayConfig → RunwayConfig)
arg_setter a =
    if same_text a (bytes "--prompt")
    then some (λ v cfg. record cfg { prompt = take 2047 v })
    else if same_text a (bytes "--prompt-image")
    then some (λ v cfg. record cfg { prompt_image = take 2047 v })
    else if same_text a (bytes "--model")
    then some (λ v cfg. record cfg { model = take 63 v })
    else if same_text a (bytes "--ratio")
    then some (λ v cfg. record cfg { ratio = take 63 v })
    else if same_text a (bytes "--duration")
    then some (λ v cfg. record cfg { duration = atoi v })
    else if same_text a (bytes "--task-id")
    then some (λ v cfg. record cfg { task_id = take 255 v; poll_only = true })
    else none

-- The loop of `parse_args`, with the option whose value comes next; `none` where `die` is called.
unfoldable pub args_loop :
    Option (List ℕ → RunwayConfig → RunwayConfig)
    → RunwayConfig
    → List (List ℕ)
    → Option RunwayConfig
args_loop none cfg [] = some cfg
args_loop (some f) cfg [] = none
args_loop none cfg (a ∷ rest) = elim (arg_setter a) [
  | none ↦ none
  | some f ↦ args_loop (some f) cfg rest
]
args_loop (some f) cfg (v ∷ rest) = args_loop none (f v cfg) rest

abbrev is_empty : List ℕ → Bool
is_empty [] = true
is_empty (c ∷ t) = false

abbrev wanted : Option RunwayConfig → Option RunwayConfig
wanted none = none
wanted (some cfg) = if not cfg.poll_only && is_empty cfg.prompt then none else some cfg

unfoldable pub parse_args : RunwayConfig → List (List ℕ) → Option RunwayConfig
parse_args cfg argv = wanted (args_loop none cfg argv)

-- The value behind the first quote of a text.
abbrev pub quoted_at : Option (List ℕ) → ℕ → Option (List ℕ)
quoted_at none out_sz = none
quoted_at (some p) out_sz = found_value (copy_value (out_sz - 1) (drop 1 p))

abbrev pub first_quoted : Option (List ℕ) → ℕ → Option (List ℕ)
first_quoted none out_sz = none
first_quoted (some p) out_sz = quoted_at (strchr p 34) out_sz

unfoldable pub extract_first_output_url : List ℕ → ℕ → Option (List ℕ)
extract_first_output_url json out_sz = first_quoted (strstr json (bytes "\"output\":[")) out_sz

-- An answer to a request: its HTTP code and its body.
pub record Response : Type 0 where
  pub code : ℕ
  pub body : List ℕ

-- What the loop has come to: it waits for another answer, or has printed the output or the body, or
-- has ended the program with the body.
pub data Polled : Type 0 where
  waiting : Polled
  printed_output : List ℕ → Polled
  printed_body : List ℕ → Polled
  failed : List ℕ → Polled

-- An array of zeros that an extractor was called with.
abbrev text_of : Option (List ℕ) → List ℕ
text_of none = []
text_of (some t) = t

abbrev output_of : Option (List ℕ) → List ℕ → Polled
output_of none body = printed_body body
output_of (some url) body = printed_output url

unfoldable pub poll_task : List Response → Polled
poll_task [] = waiting
poll_task (r ∷ rest) =
    let more = poll_task rest in
    let status = text_of (extract_json_status r.body 128) in
    if ltb r.code 200 || leb 300 r.code
    then more
    else if same_text status (bytes "SUCCEEDED")
    then output_of (extract_first_output_url r.body 4096) r.body
    else if same_text status (bytes "FAILED") || same_text status (bytes "CANCELED")
    then failed r.body
    else more
