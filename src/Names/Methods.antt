-- ===== src/Names/Methods.antt =====
-- src/method.cpp: the request methods and their names.
use http_proto.Base.{ℕ, List, [], ◌∷◌, Bytes, codes, length, ltb, ◌==◌, matches, if◌then◌else◌}

-- `enum class method`.
pub data Method : Type 0 where
  unknown : Method
  delete_ get head post put connect options trace copy lock mkcol move propfind proppatch : Method
  search unlock bind rebind unbind acl report mkactivity checkout merge msearch notify : Method
  subscribe unsubscribe patch purge mkcalendar link unlink : Method

unfoldable pub to_string : Method → Bytes
to_string delete_ = codes "DELETE"
to_string get = codes "GET"
to_string head = codes "HEAD"
to_string post = codes "POST"
to_string put = codes "PUT"
to_string connect = codes "CONNECT"
to_string options = codes "OPTIONS"
to_string trace = codes "TRACE"
to_string copy = codes "COPY"
to_string lock = codes "LOCK"
to_string mkcol = codes "MKCOL"
to_string move = codes "MOVE"
to_string propfind = codes "PROPFIND"
to_string proppatch = codes "PROPPATCH"
to_string search = codes "SEARCH"
to_string unlock = codes "UNLOCK"
to_string bind = codes "BIND"
to_string rebind = codes "REBIND"
to_string unbind = codes "UNBIND"
to_string acl = codes "ACL"
to_string report = codes "REPORT"
to_string mkactivity = codes "MKACTIVITY"
to_string checkout = codes "CHECKOUT"
to_string merge = codes "MERGE"
to_string msearch = codes "M-SEARCH"
to_string notify = codes "NOTIFY"
to_string subscribe = codes "SUBSCRIBE"
to_string unsubscribe = codes "UNSUBSCRIBE"
to_string patch = codes "PATCH"
to_string purge = codes "PURGE"
to_string mkcalendar = codes "MKCALENDAR"
to_string link = codes "LINK"
to_string unlink = codes "UNLINK"
to_string unknown = codes "<unknown>"

-- A run of `if(v == "..."_sv) return method::...;` that ends in the last line of the function.
unfoldable pub if_equal : List (Bytes × Method) → Bytes → Method
if_equal [] v = unknown
if_equal ((s, m) ∷ rest) v = if matches v s then m else if_equal rest v

-- `switch(c)` on the octet that was taken off the view.
unfoldable pub select : List (ℕ × (Bytes → Method)) → ℕ → Bytes → Method
select [] c v = unknown
select ((d, f) ∷ rest) c v = if c == d then f v else select rest c v

-- `c = v[0]; v.remove_prefix(1); switch(c)`. The test of the size keeps `v[0]` inside the view.
unfoldable pub switch_next : List (ℕ × (Bytes → Method)) → Bytes → Method
unfolding select
switch_next cases [] = unknown
switch_next cases (c ∷ v) = select cases c v

abbrev pub c_cases : List (ℕ × (Bytes → Method))
c_cases =
    (b'H', if_equal ((codes "ECKOUT", checkout) ∷ []))
    ∷ (b'O', if_equal ((codes "NNECT", connect) ∷ (codes "PY", copy) ∷ []))
    ∷ []

abbrev pub mkc_cases : List (ℕ × (Bytes → Method))
mkc_cases = (b'C', if_equal ((codes "ALENDAR", mkcalendar) ∷ (codes "OL", mkcol) ∷ [])) ∷ []

-- `if(v[0] == 'C')` after the test for "ACTIVITY".
unfoldable pub after_mk : Bytes → Method
unfolding if_equal switch_next
after_mk v = if matches v (codes "ACTIVITY") then mkactivity else switch_next mkc_cases v

abbrev pub m_cases : List (ℕ × (Bytes → Method))
m_cases =
    (b'-', if_equal ((codes "SEARCH", msearch) ∷ []))
    ∷ (b'E', if_equal ((codes "RGE", merge) ∷ []))
    ∷ (b'K', after_mk)
    ∷ (b'O', if_equal ((codes "VE", move) ∷ []))
    ∷ []

abbrev pub p_cases : List (ℕ × (Bytes → Method))
p_cases =
    (b'A', if_equal ((codes "TCH", patch) ∷ []))
    ∷ (b'O', if_equal ((codes "ST", post) ∷ []))
    ∷ (b'R', if_equal ((codes "OPFIND", propfind) ∷ (codes "OPPATCH", proppatch) ∷ []))
    ∷ (b'U', if_equal ((codes "RGE", purge) ∷ (codes "T", put) ∷ []))
    ∷ []

abbrev pub r_cases : List (ℕ × (Bytes → Method))
r_cases = (b'E', if_equal ((codes "BIND", rebind) ∷ (codes "PORT", report) ∷ [])) ∷ []

abbrev pub u_cases : List (ℕ × (Bytes → Method))
u_cases =
    (
      b'N',
      if_equal (
          (codes "BIND", unbind)
          ∷ (codes "LINK", unlink)
          ∷ (codes "LOCK", unlock)
          ∷ (codes "SUBSCRIBE", unsubscribe)
          ∷ []),
    )
    ∷ []

abbrev pub first_cases : List (ℕ × (Bytes → Method))
first_cases =
    (b'A', if_equal ((codes "CL", acl) ∷ []))
    ∷ (b'B', if_equal ((codes "IND", bind) ∷ []))
    ∷ (b'C', switch_next c_cases)
    ∷ (b'D', if_equal ((codes "ELETE", delete_) ∷ []))
    ∷ (b'G', if_equal ((codes "ET", get) ∷ []))
    ∷ (b'H', if_equal ((codes "EAD", head) ∷ []))
    ∷ (b'L', if_equal ((codes "INK", link) ∷ (codes "OCK", lock) ∷ []))
    ∷ (b'M', switch_next m_cases)
    ∷ (b'N', if_equal ((codes "OTIFY", notify) ∷ []))
    ∷ (b'O', if_equal ((codes "PTIONS", options) ∷ []))
    ∷ (b'P', switch_next p_cases)
    ∷ (b'R', switch_next r_cases)
    ∷ (b'S', if_equal ((codes "EARCH", search) ∷ (codes "UBSCRIBE", subscribe) ∷ []))
    ∷ (b'T', if_equal ((codes "RACE", trace) ∷ []))
    ∷ (b'U', switch_next u_cases)
    ∷ []

unfoldable pub string_to_method : Bytes → Method
unfolding switch_next
string_to_method v = if ltb (length v) 3 then unknown else switch_next first_cases v
