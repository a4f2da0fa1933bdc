-- ===== src/Client/Http.antt =====
-- rest/client.go: requests, and how a response is read. rest/common.go `Error`.
use govisor.Common.{ℕ, ◌==◌, ltb, String, Option, none, some, if◌then◌else◌, str_eq, ◌⊎◌, inl, inr}
use govisor.Number.{format_int}
use govisor.Server.Http.{Request}

-- An error: one of the REST protocol, with its code and message, or any other by its text.
pub data Failure : Type 0 where
  coded : ℕ → String → Failure
  other : String → Failure

-- `e.Error()`
unfoldable pub message : Failure → String
message (coded n m) = m
message (other m) = m

-- A response; the body may fail to be read.
pub record Reply : Type 0 where
  pub code : ℕ
  pub status : String
  pub etag : String
  pub body : Failure ⊎ String

-- What comes of a request: an error, the end of the time that it is given, or a response.
pub data Fetch : Type 0 where
  failed : Failure → Fetch
  timed_out : Fetch
  response : Reply → Fetch

-- A GET request; `user` and `pass` are sent if they are set.
pub record Get : Type 0 where
  pub url : String
  pub login : Option (String × String)
  pub headers : Request

-- What the program takes from elsewhere: `url.QueryEscape`, and `json.Unmarshal` of an error into
-- one that has a code and a message already.
pub record Web : Type 0 where
  pub escape : String → String
  pub read_error : String → ℕ → String → Option (ℕ × String)

-- The headers that `poll` sets.
unfoldable pub headers : String → ℕ → Request
headers etag wait =
    if str_eq etag ""
    then record { poll_etag = ""; poll_time = ""; if_none_match = ""; if_modified_since = "" }
    else if ltb 0 wait
    then record {
      poll_etag = etag;
      poll_time = format_int 10 wait;
      if_none_match = etag;
      if_modified_since = "";
    }
    else record { poll_etag = ""; poll_time = ""; if_none_match = etag; if_modified_since = "" }

-- The error of a response that is not 200: its body, if that is one.
unfoldable pub error_of : Web → Reply → Failure
error_of web r = elim r.body [
  | inl e ↦ coded r.code r.status
  | inr b ↦ elim (web.read_error b r.code r.status) [
    | none ↦ coded r.code r.status
    | some (n, m) ↦ coded n m
  ]
]

-- What `poll` returns: an error, or a tag and the value that was read into.
pub data Polled (A : Type 0) : Type 0 where
  refused : Failure → Polled A
  answered : String → A → Polled A

module _ {A : Type 0} (web : Web) (decode : String → A → Failure ⊎ A) where
  -- A response of status 200.
  unfoldable pub read_body : Reply → A → Polled A
  read_body r v = elim r.body [
    | inl e ↦ refused e
    | inr b ↦ elim (decode b v) [ inl e ↦ refused e | inr x ↦ answered r.etag x ]
  ]

  -- `poll`, once there is a response or none.
  unfoldable pub read_fetch : Fetch → A → Polled A
  unfolding error_of read_body
  read_fetch (failed e) v = refused e
  read_fetch timed_out v = refused (coded 408 "Request timed out")
  read_fetch (response r) v =
      if r.code == 304
      then answered "" v
      else if r.code == 200
      then read_body r v
      else refused (error_of web r)

-- `post`, once there is a response or an error.
unfoldable pub read_post : Web → Failure ⊎ Reply → Option Failure
unfolding error_of
read_post web (inl e) = some e
read_post web (inr r) = if r.code == 200 then none else some (error_of web r)
