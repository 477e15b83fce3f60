-- ===== src/Http/Headers.antt =====
-- `HeaderMap` and `CaseInsensitiveCompare` of include/http_structs.hpp: a `flat_map` whose keys are
-- compared by their lower case. The members `set_header`, `get_header` and `has_header` are the
-- same in `HttpRequest` and `HttpResponse`.
use mathlib.Core.Option
use gouda_http_server.Common.{Bool, true, false, Option, none, some, List, map}
use gouda_http_server.Common.Bytes.{Bytes, tolower}
use gouda_http_server.Common.SortedMap.{emplace, find_entry}

abbrev pub HeaderMap : Type 0
HeaderMap = List (Bytes × Bytes)

abbrev pub fold_case : Bytes → Bytes
fold_case = map tolower

-- `headers.emplace`: it does not replace.
unfoldable pub set_header : Bytes → Bytes → HeaderMap → HeaderMap
set_header key value headers = emplace fold_case key value headers

unfoldable pub get_header : Bytes → HeaderMap → Option Bytes
get_header key headers = find_entry fold_case key headers

unfoldable pub has_header : Bytes → HeaderMap → Bool
has_header key headers = elim (find_entry fold_case key headers) [ none ↦ false | some v ↦ true ]
