-- ===== src/Http.antt =====
-- HTTP messages and their JSON bodies, as internal/server/server.go and
-- internal/rebalance/rebalance.go use them. A body stands for its bytes by what decoding them gives:
-- the members of an object, each name once with the value that counts.
use self_healing_distributed.Prelude.{
  ℕ, String, Bool, Option, none, some, [], ◌∷◌, string_key, nat_key,
}
use self_healing_distributed.Prelude.Map.{Map, lookup}

-- A JSON value. A `number` is one that fits an `int64`; arrays, objects and other numbers, which
-- nothing here reads, are `composite`.
pub data Value : Type 0 where
  null composite : Value
  boolean : Bool → Value
  text : String → Value
  number : ℕ → Value

abbrev pub Members : Type 0
Members = Map String Value

pub data Body : Type 0 where
  -- a body whose reading fails; one of no bytes; one that is not JSON
  broken blank malformed : Body
  scalar : Value → Body
  object : Members → Body

pub record Request : Type 0 where
  pub method : String
  pub host : String
  pub path : String
  -- the query parameter `key`, empty where it is missing
  pub key : String
  pub body : Body

pub record Response : Type 0 where
  pub status : ℕ
  pub body : Body

-- `json.Unmarshal` into a struct, up to its fields: `null` leaves them at their zero values.
unfoldable pub decode : Body → Option Members
decode broken = none
decode blank = none
decode malformed = none
decode (scalar null) = some []
decode (scalar v) = none
decode (object m) = some m

-- A field of type `string`, and one of type `int64`.
unfoldable pub text_of : Option Value → Option String
text_of none = some ""
text_of (some null) = some ""
text_of (some (text s)) = some s
text_of (some v) = none

unfoldable pub number_of : Option Value → Option ℕ
number_of none = some 0
number_of (some null) = some 0
number_of (some (number n)) = some n
number_of (some v) = none

unfoldable pub text_field : String → Members → Option String
unfolding text_of
text_field name m = text_of (lookup name m)

unfoldable pub number_field : String → Members → Option ℕ
unfolding number_of
number_field name m = number_of (lookup name m)

-- `writeJSON` and `writeError`
unfoldable pub write_json : ℕ → Members → Response
write_json status m = record { status = status; body = object m }

unfoldable pub write_error : ℕ → String → Response
unfolding write_json
write_error status message = write_json status (("error", text message) ∷ [])

-- `readRequestBody`; `none` is its error
unfoldable pub read_request_body : Request → Option Body
read_request_body r = elim r.body [ broken ↦ none | b ↦ some b ]

-- What a node has around it, of state `W`: the transport, of which `none` is an error, the clock,
-- and whether `http.NewRequest` accepts a request.
pub record Env (W : Type 0) : Type 0 where
  pub round_trip : Request → W → Option Response × W
  pub now : W → ℕ × W
  pub well_formed : Request → Bool

-- The statuses of `net/http`.
abbrev pub ok : ℕ
ok = 200

abbrev pub accepted : ℕ
accepted = 202

abbrev pub bad_request : ℕ
bad_request = 400

abbrev pub not_found : ℕ
not_found = 404

abbrev pub method_not_allowed : ℕ
method_not_allowed = 405

abbrev pub internal_error : ℕ
internal_error = 500

abbrev pub bad_gateway : ℕ
bad_gateway = 502

abbrev pub unavailable : ℕ
unavailable = 503
