-- ===== src/Runway/Submit.antt =====
-- A request of runway_hook.c: the body that `submit_task` sends, the answer that `write_cb` collects,
-- and `main`.
pub mod Body
use ryzen_build.Base.{
  ℕ, ◌+◌, ◌-◌, ◌^◌, ltb, leb, ◌==◌, ◌&&◌, ◌||◌, not, if◌then◌else◌, take, length, bytes, decimal,
}
use ryzen_build.Base.{Bool, true, false, List, [], ◌∷◌, ◌++◌, Option, none, some}
use ryzen_build.Runway.Json.{json_escape, extract_json_id}
use ryzen_build.Runway.Task.{RunwayConfig, cfg_init, parse_args, Response, Polled, poll_task}

-- `%d` of the word of an `int`.
unfoldable pub signed_decimal : ℕ → List ℕ
signed_decimal w = if ltb w (2 ^ 31) then decimal w else 45 ∷ decimal (2 ^ 32 - w)

abbrev pub image_field : List ℕ → List ℕ → List ℕ
image_field [] rest = rest
image_field (c ∷ image) rest = bytes ",\"promptImage\":" ++ (json_escape (c ∷ image) ++ rest)

-- The text of the two formats, which differ in the field of the image only.
unfoldable pub body_text : RunwayConfig → List ℕ
body_text cfg =
    bytes "{\"model\":"
    ++ (json_escape cfg.model
        ++ (bytes ",\"promptText\":"
            ++ (json_escape cfg.prompt
                ++ image_field cfg.prompt_image (
                    bytes ",\"ratio\":"
                    ++ (json_escape cfg.ratio
                        ++ (bytes ",\"duration\":"
                            ++ (signed_decimal cfg.duration ++ bytes "}")))))))

-- What `snprintf` leaves of it in the 8192 bytes of `body`.
unfoldable pub body : RunwayConfig → List ℕ
body cfg = take 8191 (body_text cfg)

-- The text after a piece of the answer, and what it returns; `given` says whether `realloc` succeeds.
unfoldable pub write_cb : Bool → List ℕ → List ℕ → List ℕ × ℕ
write_cb given contents mem = if given then (mem ++ contents, length contents) else (mem, 0)

-- How `submit_task` ends: the program has ended with the answer, or there is a task.
pub data Submitted : Type 0 where
  refused unparsed : List ℕ → Submitted
  task : List ℕ → Submitted

abbrev id_of : Option (List ℕ) → List ℕ → Submitted
id_of none answer = unparsed answer
id_of (some id) answer = task id

-- `http_request` is a parameter: the answer to a body.
unfoldable pub submit_task : (List ℕ → Response) → RunwayConfig → Submitted
submit_task post cfg =
    let r = post (body cfg) in
    if ltb r.code 200 || leb 300 r.code
    then refused r.body
    else id_of (extract_json_id r.body 256) r.body

-- How the program ends: without a key or with bad arguments, with an answer that gives no task, or
-- with what the polling of a task has come to.
pub data Ended : Type 0 where
  no_key bad_arguments : Ended
  not_submitted : List ℕ → Ended
  polled : List ℕ → Polled → Ended

abbrev after_submit : Submitted → (List ℕ → List Response) → Ended
after_submit (refused answer) answers = not_submitted answer
after_submit (unparsed answer) answers = not_submitted answer
after_submit (task id) answers = polled id (poll_task (answers id))

abbrev go_on : Option RunwayConfig → (List ℕ → Response) → (List ℕ → List Response) → Ended
go_on none post answers = bad_arguments
go_on (some cfg) post answers =
    if cfg.poll_only
    then (let id = take 255 cfg.task_id in polled id (poll_task (answers id)))
    else after_submit (submit_task post cfg) answers

abbrev has_key : Option (List ℕ) → Bool
has_key none = false
has_key (some []) = false
has_key (some (c ∷ key)) = true

-- `answers` gives the answers of the polling of a task, in their order.
unfoldable pub main :
    Option (List ℕ) → List (List ℕ) → (List ℕ → Response) → (List ℕ → List Response) → Ended
main api_key argv post answers =
    if has_key api_key then go_on (parse_args cfg_init argv) post answers else no_key
