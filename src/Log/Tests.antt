-- ===== src/Log/Tests.antt =====
-- A run of the logger, and the theorem at it.
use gouda_http_server.Common.{◌≡◌, refl, true, List, [], ◌∷◌}
use gouda_http_server.Common.Bytes.{codes}
use gouda_http_server.Log.{debug, info, error, level_index, level_str, create, log_message}
use gouda_http_server.Log.Written.{Call, sets, logs, run, written, run-written}

-- The second line is below the level that is set before it.
abbrev calls : List Call
calls =
    logs (codes "1") (codes "now") debug (codes "a")
    ∷ sets error
    ∷ logs (codes "1") (codes "now") info (codes "b")
    ∷ logs (codes "2") (codes "now") error (codes "c")
    ∷ []

prints : written debug calls ≡ codes "[1] [now] [DEBUG] a" ∷ codes "[2] [now] [ERROR] c" ∷ []
unfolding written log_message level_index level_str
prints = refl

run-written_example :
    ((run calls (create true)).console ≡ written debug calls)
    × ((run calls (create true)).log_file ≡ written debug calls)
run-written_example = run-written true calls
