-- ===== src/Runway/Tests.antt =====
-- Tests of the model of runway_hook.c, and the theorems at concrete inputs.
use ryzen_build.Base.{
  ℕ, ◌≡◌, refl, arith, List, [], ◌∷◌, ◌++◌, some, bytes, strstr, strstr_rest, after_prefix,
  same_text,
}
use ryzen_build.Runway.Json.{
  escape_loop, escape_byte, needle, extract_json_status, extract_json_string_field, copy_value,
  unslash,
}
use ryzen_build.Runway.Json.RoundTrip.{extract-json_escape}
use ryzen_build.Runway.Task.{extract_first_output_url, poll_task, failed}
use ryzen_build.Runway.Task.Output.{extract_first_output_url_lem}
use ryzen_build.Base.{inl, inr, none, decimal, decimal_loop}
use ryzen_build.Json.{IsJson, read_json, read_text}
use ryzen_build.Runway.Json.{json_escape}
use ryzen_build.Runway.Task.{RunwayConfig, cfg_init}
use ryzen_build.Runway.Submit.{body, body_text, signed_decimal}
use ryzen_build.Runway.Submit.Body.{request, body-IsJson}

abbrev json : List ℕ
json = bytes "{\"id\":\"a\\\"b\"}"

json_lem :
    strstr_rest json (needle (bytes "id")) ≡ some (escape_loop (bytes "a\"b") ++ 34 ∷ bytes "}")
unfolding strstr_rest after_prefix needle escape_loop escape_byte
json_lem = refl

extract-json_escape_example : extract_json_string_field json (bytes "id") 256 ≡ some (bytes "a\"b")
extract-json_escape_example =
    extract-json_escape json (bytes "id") (bytes "a\"b") (bytes "}") 256 json_lem
      (
        (ground arith, ground arith, ground arith),
        (
          (ground arith, ground arith, ground arith),
          ((ground arith, ground arith, ground arith), tt),
        ),
      )
      (omega arith) (omega arith)

abbrev done : List ℕ
done = bytes "{\"output\":[\"https://x\"]}"

found : strstr done (bytes "\"output\":[") ≡ some (bytes "\"output\":[\"https://x\"]}")
unfolding strstr after_prefix
found = refl

extract_first_output_url_lem_example : extract_first_output_url done 4096 ≡ some (bytes "output")
extract_first_output_url_lem_example =
    extract_first_output_url_lem done (bytes "\"output\":[\"https://x\"]}") 4096 (omega arith) found

-- An answer with an error is asked for again, and a failure ends the loop.
poll_test :
    poll_task (
      record { code = 500; body = [] }
      ∷ record { code = 200; body = bytes "\"status\":\"FAILED\"" }
      ∷ [])
    ≡ failed (bytes "\"status\":\"FAILED\"")
unfolding poll_task same_text extract_json_status extract_json_string_field strstr_rest after_prefix
    needle copy_value unslash
poll_test = refl

abbrev asked : RunwayConfig
asked = record cfg_init {
  model = bytes "g";
  prompt = 97 ∷ 10 ∷ [];
  prompt_image = bytes "i";
  ratio = bytes "1";
}

body-IsJson_example : IsJson (request asked) (body asked) []
unfolding cfg_init
body-IsJson_example =
    body-IsJson asked
      ((inl refl, tt), ((inl refl, (inr (inl refl), tt)), ((inl refl, tt), (inl refl, tt))))
      (omega arith) (omega arith)

body_test :
    body asked
    ≡ bytes
        "{\"model\":\"g\",\"promptText\":\"a\\n\",\"promptImage\":\"i\",\"ratio\":\"1\",\"duration\":5}"
unfolding body body_text cfg_init json_escape escape_loop escape_byte signed_decimal decimal
    decimal_loop
body_test = refl

-- Another control character is written as it is, and no reader takes it.
control_test : read_json (json_escape (1 ∷ [])) ≡ none
unfolding read_text json_escape escape_loop escape_byte
control_test = refl
