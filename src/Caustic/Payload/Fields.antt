-- ===== src/Caustic/Payload/Fields.antt =====
-- The extended attributes in the report of caustic.c, as an object.
use ryzen_build.Base.{
  ℕ, zero, suc, ◌+◌, ◌^◌, ◌≤◌, ◌<◌, ◌≡◌, refl, arith, length, length-drop, drop, bytes,
  decimal-IsNumber, if◌then◌else◌,
}
use ryzen_build.Base.{Bool, true, false, Bool-cases, List, [], ◌∷◌, ◌++◌, ◌⊎◌, inl, inr}
use ryzen_build.Caustic.StrBuf.{StrBuf, Memory, Append, died, sb_appendf}
use ryzen_build.Caustic.StrBuf.Appends.{IsMemory, IsAppended, ends}
use ryzen_build.Json.{read_text}
use ryzen_build.Caustic.Escape.RoundTrip.{json_text, read_json_text}
use ryzen_build.Caustic.System.{Xattrs, c_string}
use ryzen_build.Caustic.System.Bounds.{IsErrno, IsXattrs}
use ryzen_build.Caustic.System.Names.{names_of, names_round}
use ryzen_build.Caustic.Payload.{
  append_all, Got, skipped, no_memory, got, value_of, pair_pieces, on_got, xattrs_loop, failure,
  append_names, append_sized, append_xattrs_json,
}
use ryzen_build.Json.{
  Value, text, integer, truth_of, object, Fields, no_field, field, IsJson, is_text, is_integer,
  is_truth, is_empty, is_object, IsFields, last_field, next_field,
}
use ryzen_build.Caustic.Payload.Pieces.{
  all_before, AllFit, Writes, IsPrefix, Writes-then, prefix_then, fixed-IsPrefix,
  all_before-IsPrefix, literal-Writes, nothing-Writes, append_all-Writes,
}

-- The pairs of the names that have a value, in their order.
abbrev with_pair : List ℕ → Got → List (List ℕ × List ℕ) → List (List ℕ × List ℕ)
with_pair name skipped rest = rest
with_pair name no_memory rest = rest
with_pair name (got val) rest = (name, val) ∷ rest

abbrev pub pairs_of : Memory → Xattrs → List (List ℕ) → List (List ℕ × List ℕ)
pairs_of m x [] = []
pairs_of m x (name ∷ names) = with_pair name (value_of m x name) (pairs_of m x names)

abbrev pub fields_of : List (List ℕ × List ℕ) → Fields
fields_of [] = no_field
fields_of ((name, val) ∷ rest) = field name (text val) (fields_of rest)

-- The text of pairs, with a comma before each but the first.
abbrev pairs_text : Bool → List (List ℕ × List ℕ) → List ℕ → List ℕ
pairs_text first [] rest = rest
pairs_text first ((name, val) ∷ ps) rest =
    all_before (pair_pieces first name val) (pairs_text false ps rest)

pairs_text-IsPrefix : (first : Bool) (ps : List (List ℕ × List ℕ)) → IsPrefix (pairs_text first ps)
pairs_text-IsPrefix first [] rest = refl
pairs_text-IsPrefix first ((name, val) ∷ ps) rest =
    prefix_then (all_before (pair_pieces first name val)) (pairs_text false ps)
      (all_before-IsPrefix (pair_pieces first name val)) (pairs_text-IsPrefix false ps) rest

pair-fit : (first : Bool) (name val : List ℕ) → AllFit (pair_pieces first name val)
pair-fit true name val = (tt, (refl, (tt, tt)))
pair-fit false name val = (refl, (tt, (refl, (tt, tt))))

module _ (m : Memory) (mem : IsMemory m) (x : Xattrs) where
  got-Writes :
      (first : Bool) (name : List ℕ) (g : Got) (more : Bool → StrBuf → Append)
      (ps : List (List ℕ × List ℕ))
      → ((b : Bool) → Writes (more b) (pairs_text b ps))
      → Writes (on_got m first name g more) (pairs_text first (with_pair name g ps))
  got-Writes first name skipped more ps w t sb h = w first t sb h
  got-Writes first name no_memory more ps w t sb h = (refl, tt)
  got-Writes first name (got val) more ps w t sb h =
      Writes-then (append_all m (pair_pieces first name val)) (more false)
        (all_before (pair_pieces first name val)) (pairs_text false ps)
        (all_before-IsPrefix (pair_pieces first name val))
        (append_all-Writes m mem (pair_pieces first name val) (pair-fit first name val)) (w false) t
        sb h

  loop-Writes :
      (fuel : ℕ) (names : List ℕ)
      → length names ≤ fuel
      → (first : Bool)
      → Writes (xattrs_loop fuel m x names first) (pairs_text first (pairs_of m x (names_of names)))
  unfolding xattrs_loop
  loop-Writes zero [] f first t sb h = nothing-Writes m mem t sb h
  loop-Writes zero (c ∷ cs) f first t sb h = absurd (omega (arith, f))
  loop-Writes (suc fuel) [] f first t sb h = nothing-Writes m mem t sb h
  loop-Writes (suc fuel) (c ∷ cs) f first t sb h =
      let name = c_string (c ∷ cs) in
      let rest = drop (suc (length name)) (c ∷ cs) in
      rw (names_round c cs) (
        got-Writes first name (value_of m x name) (xattrs_loop fuel m x rest)
          (pairs_of m x (names_of rest))
          (loop-Writes fuel rest (omega (arith, f, length-drop (suc (length name)) (c ∷ cs)))) t sb
          h)

-- A text of pairs is one of fields.
fields_of-IsFields :
    (name val : List ℕ) (ps : List (List ℕ × List ℕ)) (rest : List ℕ)
    → IsFields
        (fields_of ((name, val) ∷ ps))
        (pairs_text true ((name, val) ∷ ps) (125 ∷ rest))
        (125 ∷ rest)
fields_of-IsFields name val [] rest =
    last_field name (json_text name) (read_json_text name)
      (is_text val (json_text val) (125 ∷ rest) (read_json_text val))
fields_of-IsFields name val ((name', val') ∷ ps) rest =
    next_field name (json_text name) (read_json_text name)
      (is_text val (json_text val) _ (read_json_text val)) (fields_of-IsFields name' val' ps rest)

object-IsJson :
    (ps : List (List ℕ × List ℕ)) (rest : List ℕ)
    → IsJson (object (fields_of ps)) (123 ∷ pairs_text true ps (125 ∷ rest)) rest
object-IsJson [] rest = is_empty rest
object-IsJson ((name, val) ∷ ps) rest = is_object (fields_of-IsFields name val ps rest)

-- What the attributes of a file are in the report.
abbrev failed : ℕ → Value
failed errno =
    object (field (bytes "ok") (truth_of false) (field (bytes "errno") (integer errno) no_field))

abbrev named : Memory → Xattrs → ℕ ⊎ List ℕ → Value
named m x (inl errno) = failed errno
named m x (inr names) = object (fields_of (pairs_of m x (names_of names)))

abbrev sized : Memory → Xattrs → ℕ ⊎ ℕ → Value
sized m x (inl errno) = failed errno
sized m x (inr size) = named m x (x.names size)

abbrev pub xattrs_value : Memory → Xattrs → Value
xattrs_value m x = sized m x x.names_size

-- An append of a text that is JSON for a value, whatever is behind it.
abbrev pub WritesJson : Value → (StrBuf → Append) → Type 0
WritesJson v f =
    (g : List ℕ → List ℕ) × IsPrefix g × Writes f g × ((rest : List ℕ) → IsJson v (g rest) rest)

failure-WritesJson :
    (m : Memory)
    → IsMemory m
    → (errno : ℕ) → errno < 2 ^ 31
    → WritesJson (failed errno) (append_all m (failure errno))
unfolding read_text
failure-WritesJson m mem errno small = (
  all_before (failure errno),
  all_before-IsPrefix (failure errno),
  append_all-Writes m mem (failure errno) ((omega (arith, small), refl), tt),
  λ rest. is_object (
      next_field (bytes "ok") (bytes "\"ok\"") refl (is_truth false _) (
        last_field (bytes "errno") (bytes "\"errno\"") refl
          (is_integer errno _ (125 ∷ rest) (decimal-IsNumber errno (omega (arith, small)))))),
)

guarded :
    (m : Memory) (size : ℕ) (t : List ℕ) (a : Append)
    → (ends a ≡ true) × IsAppended t a
    → let b = (if m.gives size then a else died) in (ends b ≡ true) × IsAppended t b
guarded m size t a h = elim (Bool-cases (m.gives size)) [ inl e ↦ rw e h | inr e ↦ rw e (refl, tt) ]

names-WritesJson :
    (m : Memory)
    → IsMemory m
    → (x : Xattrs) (r : ℕ ⊎ List ℕ) → IsErrno r
    → WritesJson (named m x r) (append_names m x r)
names-WritesJson m mem x (inl errno) h = failure-WritesJson m mem errno h
names-WritesJson m mem x (inr names) h =
    let ps = pairs_of m x (names_of names) in
    let close : List ℕ → List ℕ = λ rest. 125 ∷ rest in
    let body : List ℕ → List ℕ = λ rest. pairs_text true ps (125 ∷ rest) in
    (
      (λ rest. 123 ∷ body rest),
      prefix_then (λ rest. 123 ∷ rest) body (fixed-IsPrefix (123 ∷ []))
          (prefix_then (pairs_text true ps) close (pairs_text-IsPrefix true ps)
            (fixed-IsPrefix (125 ∷ []))),
      Writes-then (sb_appendf m (bytes "{")) _ (λ rest. 123 ∷ rest) body (fixed-IsPrefix (123 ∷ []))
          (literal-Writes m mem (bytes "{") refl)
          (Writes-then (xattrs_loop (length names) m x names true) (sb_appendf m (bytes "}"))
            (pairs_text true ps) close (pairs_text-IsPrefix true ps)
            (loop-Writes m mem x (length names) names (omega arith) true)
            (literal-Writes m mem (bytes "}") refl)),
      object-IsJson ps,
    )

sized-WritesJson :
    (m : Memory)
    → IsMemory m
    → (x : Xattrs) → IsXattrs x
    → (r : ℕ ⊎ ℕ) → IsErrno r
    → WritesJson (sized m x r) (append_sized m x r)
sized-WritesJson m mem x h (inl errno) k = failure-WritesJson m mem errno k
sized-WritesJson m mem x h (inr size) k =
    let (g, p, w, j) = names-WritesJson m mem x (x.names size) (h.names_errno size) in
    (
      g,
      p,
      λ t sb held.
          guarded m (size + 1) (t ++ g []) (append_names m x (x.names size) sb) (w t sb held),
      j,
    )

-- Where the attributes of a file are listed, what is appended is JSON.
pub append_xattrs_json-WritesJson :
    (m : Memory)
    → IsMemory m
    → (x : Xattrs) → IsXattrs x
    → WritesJson (xattrs_value m x) (append_xattrs_json m x)
unfolding append_xattrs_json
append_xattrs_json-WritesJson m mem x h = sized-WritesJson m mem x h x.names_size h.size_errno
