-- ===== src/Transport.antt =====
-- The transports of app/clients/transport.py. The HTTP library is a parameter: `client n` is what the
-- n-th attempt comes to. Delays are whole milliseconds.
pub mod Retry
mod Tests
use sportsbetting.Base.{
  ℕ, zero, suc, ◌+◌, ◌-◌, String, Bool, true, false, not, ◌&&◌, ◌||◌, Option, none, some, List, [],
  ◌∷◌, ◌++◌, str_eq, leb, min, length, get_elem?, if◌then◌else◌,
}
use sportsbetting.Base.Dict.{Dict, set}
use sportsbetting.Base.Words.{upper}
use text.Mathlib.Text.{starts_with}

-- The body of a response: no content, JSON, or content that is none.
pub data Body (P : Type 0) : Type 0 where
  no_content : Body P
  json : P → Body P
  not_json : Body P

-- What one attempt comes to: a timeout or connection error, or a response.
pub data Attempt (P : Type 0) : Type 0 where
  broken : Attempt P
  response : ℕ → Body P → Attempt P

-- What a request comes to: the payload, or a `TransportError` with its status.
pub data Outcome (P : Type 0) : Type 0 where
  payload : Option P → Outcome P
  transport_error : Option ℕ → Outcome P

module _ {P : Type 0} where
  -- What is tried again while attempts are left.
  abbrev pub may_retry : Attempt P → Bool
  may_retry broken = true
  may_retry (response status body) = leb 500 status

  abbrev decode : ℕ → Body P → Outcome P
  decode status no_content = payload none
  decode status (json p) = payload (some p)
  decode status not_json = transport_error (some status)

  -- What the last attempt comes to.
  abbrev pub conclude : Attempt P → Outcome P
  conclude broken = transport_error none
  conclude (response status body) =
      if leb 400 status then transport_error (some status) else decode status body

-- The delay of `_pause`; no backoff is no delay.
abbrev delay_at : List ℕ → ℕ → Option ℕ
delay_at backoff attempt = get_elem? backoff (min attempt (length backoff - 1))

abbrev add_delay : Option ℕ → ℕ → ℕ
add_delay none slept = slept
add_delay (some delay) slept = slept + delay

unfoldable pub pause : List ℕ → ℕ → ℕ → ℕ
pause backoff attempt slept = add_delay (delay_at backoff attempt) slept

-- `DEFAULT_RETRIES` and `RETRY_BACKOFF_S`
abbrev pub default_retries : ℕ
default_retries = 2

abbrev pub retry_backoff : List ℕ
retry_backoff = 250 ∷ 750 ∷ []

module _ {P : Type 0} (backoff : List ℕ) (client : ℕ → Attempt P) where
  -- The loop with `left` attempts behind this one: the outcome, the attempts made and the time slept.
  unfoldable pub request_loop : ℕ → ℕ → ℕ → Outcome P × ℕ × ℕ
  unfolding pause
  request_loop zero attempt slept = (conclude (client attempt), suc attempt, slept)
  request_loop (suc left) attempt slept = elim (may_retry (client attempt)) [
    | true ↦ request_loop left (suc attempt) (pause backoff attempt slept)
    | false ↦ (conclude (client attempt), suc attempt, slept)
  ]

  unfoldable pub request : ℕ → Outcome P × ℕ × ℕ
  unfolding request_loop
  request retries = request_loop retries 0 0

-- A call that `FixtureTransport` has recorded; the parameters are kept as they come.
pub record Call (Params : Type 0) : Type 0 where
  pub method : String
  pub url : String
  pub params : Params

-- Where a route leads: to a fixture file, or to a function of the call, which may raise.
pub data Target (P Params : Type 0) : Type 0 where
  file : String → Target P Params
  handler : (String → Params → Option (P × Dict String)) → Target P Params

pub record Route (P Params : Type 0) : Type 0 where
  pub method : String
  pub prefix : String
  pub target : Target P Params

-- A dispatch: served, an unknown route, or the exception of a file or a handler.
pub data Served (P : Type 0) : Type 0 where
  served : P → Dict String → Served P
  no_route : Served P
  raised : Served P

abbrev merge_headers : Dict String → Dict String → Dict String
merge_headers defaults [] = defaults
merge_headers defaults ((k, v) ∷ headers) = merge_headers (set k v defaults) headers

module _ {P : Type 0} (defaults : Dict String) where
  abbrev with_headers : Option (P × Dict String) → Served P
  with_headers none = raised
  with_headers (some (p, headers)) = served p (merge_headers defaults headers)

  abbrev loaded : Option P → Served P
  loaded none = raised
  loaded (some p) = served p defaults

module _ {P Params : Type 0} (load_fixture : String → Option P) (defaults : Dict String) where
  abbrev serve : String → Params → Target P Params → Served P
  serve url params (file name) = loaded defaults (load_fixture name)
  serve url params (handler f) = with_headers defaults (f url params)

  unfoldable pub find_route : List (Route P Params) → String → String → Params → Served P
  find_route [] method url params = no_route
  find_route (route ∷ routes) method url params =
      let rest = find_route routes method url params in
      if str_eq (upper route.method) method && starts_with url route.prefix
      then serve url params route.target
      else rest

  -- The call is recorded first.
  unfoldable pub dispatch :
      List (Route P Params)
      → String
      → String
      → Params
      → List (Call Params)
      → Served P × List (Call Params)
  unfolding find_route
  dispatch routes method url params calls = (
    find_route routes method url params,
    calls ++ (record { method = method; url = url; params = params } ∷ []),
  )
