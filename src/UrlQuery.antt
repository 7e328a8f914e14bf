-- ===== src/UrlQuery.antt =====
-- internal/urlquery/urlquery.go: query parameters merged into a URL. The parser and the printer of
-- package net/url are parameters.
use tokyo3_base.Base.{Option, none, some, List, [], ◌∷◌, Bytes}
use tokyo3_base.Base.Dict
use tokyo3_base.Base.Dict.{Dict}

-- `url.Values`: the values of each key.
abbrev pub Values : Type 0
Values = Dict (List Bytes)

-- A URL as its parameters, and the rest of it.
pub record Parts : Type 0 where
  pub rest : Bytes
  pub query : Values

pub record UrlText : Type 0 where
  pub parse : Bytes → Option Parts
  pub print : Parts → Bytes

-- `q.Set(key, value)`.
abbrev pub set : Bytes → Bytes → Values → Values
set key value q = Dict.put key (value ∷ []) q

-- `maps.Copy(q, params)`.
unfoldable pub copy : Values → Values → Values
copy q [] = q
copy q ((k, v) ∷ params) = copy (Dict.put k v q) params

merged : UrlText → Values → Option Parts → Option Bytes
merged u params none = none
merged u params (some p) = some (u.print (record p { query = copy p.query params }))

unfoldable pub merge : UrlText → Bytes → Values → Option Bytes
unfolding merged
merge u endpoint params = merged u params (u.parse endpoint)
