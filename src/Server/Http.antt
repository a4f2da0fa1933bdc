-- ===== src/Server/Http.antt =====
-- server/server.go: requests, responses and the two conditions of a GET. rest/common.go: what is
-- sent.
use Prim.Native.Char.{Char, code}
use govisor.Common.{
  ℕ, ◌+◌, ◌*◌, ◌%◌, ◌==◌, ltb, String, Bool, true, false, Option, none, some, List, if◌then◌else◌,
  str_eq, str_append, ◌⊎◌, inl, inr,
}
use govisor.Number.{Read, read, syntax, range, parse_int, atoi, word}

-- The headers of a request that are read; a header that is missing is "".
pub record Request : Type 0 where
  pub poll_etag : String
  pub poll_time : String
  pub if_none_match : String
  pub if_modified_since : String

-- What a `ResponseWriter` has been told, in the end.
pub record Response : Type 0 where
  pub status : ℕ
  pub content_type : String
  pub etag : String
  pub last_modified : String
  pub authenticate : String
  pub body : String

abbrev pub blank : Response
blank = record {
  status = 200;
  content_type = "";
  etag = "";
  last_modified = "";
  authenticate = "";
  body = "";
}

pub record ManagerInfo : Type 0 where
  pub name : String
  pub serial : String
  pub create_time : ℕ
  pub update_time : ℕ

pub record ServiceInfo : Type 0 where
  pub name : String
  pub description : String
  pub enabled : Bool
  pub running : Bool
  pub failed : Bool
  pub provides : List String
  pub depends : List String
  pub conflicts : List String
  pub status : String
  pub time_stamp : ℕ
  pub serial : String

pub record LogRecord : Type 0 where
  pub id : String
  pub time : ℕ
  pub text : String

-- What a handler sends as JSON.
pub data Body : Type 0 where
  ok : Body
  names : List String → Body
  manager_info : ManagerInfo → Body
  service_info : ServiceInfo → Body
  log_records : List LogRecord → Body
  error : ℕ → String → Body

-- `json.Marshal`, `http.TimeFormat` on times in nanoseconds, in UTC and in the local zone, and the
-- clock.
pub record Web : Type 0 where
  pub marshal : Body → String ⊎ String
  pub format_utc : ℕ → String
  pub format_local : ℕ → String
  pub parse_time : String → Option ℕ
  pub now : ℕ

abbrev pub mime_json : String
mime_json = "application/json; charset=UTF-8"

-- `http.Error`
abbrev pub http_error : ℕ → String → Response → Response
http_error n e r = record r {
  status = n;
  content_type = "text/plain; charset=utf-8";
  body = str_append e "\n";
}

unfoldable pub internal_error : String → Response → Response
internal_error e r = http_error 500 e r

module _ (web : Web) where
  unfoldable pub write_json : Body → Response → Response
  unfolding internal_error
  write_json v r = elim (web.marshal v) [
    | inl e ↦ internal_error e r
    | inr b ↦ record r { content_type = mime_json; body = b }
  ]

  unfoldable pub write_error : ℕ → String → Response → Response
  unfolding internal_error
  write_error n message r = elim (web.marshal (error n message)) [
    | inl e ↦ internal_error e r
    | inr b ↦ record r { content_type = mime_json; status = n; body = b }
  ]

-- A character in front of the others, of which those up to the last quotation mark are kept.
abbrev ahead : Char → String → Option String → Option String
ahead c String.[] rest = if code c == b'"' then some "" else none
ahead c s none = none
ahead c s (some t) = some (String.◌∷◌ c t)

-- All but the last character, if that is a quotation mark.
unfoldable pub closed : String → Option String
closed String.[] = none
closed (String.◌∷◌ c s) = let rest = closed s in ahead c s rest

-- `ptag[1:len(ptag)-1]`, if there are two quotation marks.
unfoldable pub unquote : String → Option String
unfolding closed
unquote String.[] = none
unquote (String.◌∷◌ c s) = if code c == b'"' then closed s else none

-- `"\"" + s + "\""`
unfoldable pub quote : String → String
quote s = str_append (str_append "\"" s) "\""

abbrev pub second : ℕ
second = 1000000000

-- `time.Duration(ptime) * time.Second`, as an int64.
unfoldable pub seconds : String → ℕ
seconds s = atoi s * second % word

-- `checkPoll`: what the function that waits is called with, if it is.
abbrev pub wait_for : String → Read → Option (ℕ × ℕ)
wait_for time (read v) = some (v, seconds time)
wait_for time syntax = none
wait_for time (range v) = none

unfoldable pub check_poll : Request → Option (ℕ × ℕ)
unfolding unquote seconds
check_poll r = elim (unquote r.poll_etag) [
  | none ↦ none
  | some tag ↦ wait_for r.poll_time (parse_int 16 tag)
]

-- `If-Modified-Since`: whether the time stamp is within the second.
unfoldable pub unmodified : Web → String → ℕ → Bool
unmodified web s ts =
    if str_eq s ""
    then false
    else elim (web.parse_time s) [ none ↦ false | some when ↦ ltb ts (when + second) ]

-- `condCheckGet`: true if the response is to be sent.
unfoldable pub cond_check_get : Web → Request → String → ℕ → Bool
unfolding unmodified
cond_check_get web r etag ts =
    if str_eq r.if_none_match etag
    then false
    else if unmodified web r.if_modified_since ts
    then false
    else true

-- `w.WriteHeader(http.StatusNotModified)`
abbrev pub not_modified : Response
not_modified = record blank { status = 304 }

-- How each of the GET handlers ends.
unfoldable pub respond : Web → Request → String → ℕ → String → Body → Response
unfolding cond_check_get write_json
respond web r etag ts shown v =
    if cond_check_get web r etag ts
    then write_json web v (record blank { etag = etag; last_modified = shown })
    else not_modified
