-- ===== src/Caustic/Payload/Report.antt =====
-- The whole report of caustic.c, against the value that it stands for.
use ryzen_build.Base.{ℕ}
use ryzen_build.Base.{List, []}
use ryzen_build.Caustic.Config.{Config}
use ryzen_build.Caustic.StrBuf.{StrBuf, Append, appended, died, endless}
use ryzen_build.Caustic.StrBuf.Appends.{Holds, IsAppended}
use ryzen_build.Caustic.System.{System}
use ryzen_build.Json.{Value, Fields, IsJson, IsFields}
use ryzen_build.Caustic.Payload.Pieces.{Writes, IsPrefix}

-- The appends of the attributes are a field, or nothing.
abbrev WritesFields : (Fields → Fields) → (StrBuf → Append) → Type 0
WritesFields with_field f =
    (g : List ℕ → List ℕ) × IsPrefix g
    × Writes f g
    × ((fs : Fields) (u rest : List ℕ) → IsFields fs u rest → IsFields (with_field fs) (g u) rest)

-- What the buffer of a round may hold.
abbrev pub IsReport : Value → Append → Type 0
IsReport v (appended sb) = (t : List ℕ) × Holds sb t × IsJson v t []
IsReport v died = Unit
IsReport v endless = Unit

report_of : (v : Value) (t : List ℕ) (a : Append) → IsJson v t [] → IsAppended t a → IsReport v a
report_of v t (appended sb) j h = (t, h, j)
report_of v t died j h = tt
report_of v t endless j h = tt
