-- ===== src/Tests/Server.antt =====
-- A Kii SDK for the tests: a request is a text in a buffer of fixed size, a sent request is
-- logged, and the parsers know the few JSON texts that the tests use.
use thing_if_thing_sdk.Prelude.{
  Bool, true, false, Bytes, codes, length, take, drop, ℕ, ◌-◌, ℤ, pos, minus_one, List, [], ◌∷◌,
  ◌++◌, Option, none, some, bytes_eq, leb, ◌&&◌, if◌then◌else◌, refl, le→leb, lt→leb_false, arith,
}
use thing_if_thing_sdk.Flow.{Outcome, done, aborted, fault, unfinished}
use thing_if_thing_sdk.Kii.{
  Kii, Sdk, Author, Token, object, string, primitive, Field, ParseResult, success, partial_success,
  field_success, not_found, http_none, zeroed_kii,
}
use thing_if_thing_sdk.Context.{Context, ErrorInfo, invalid_state}
use thing_if_thing_sdk.Thing.{Host, ThingState, ActionHandler, zeroed_thing}
use thing_if_thing_sdk.Request.Writes.{Buffering}

-- The request that is being built: its method and path, its body, and the bytes left for it.
pub record Draft : Type 0 where
  pub head : Bytes
  pub body : Bytes
  pub room : ℕ
  -- The room that an authenticated request starts with.
  pub capacity : ℕ

-- What the tests see of the outside: the requests, handler calls and delays in order.
abbrev pub Log : Type 0
Log = List Bytes

-- An object or array at `path` (or of the member of that name) in a JSON text, from `start` to `end`.
pub record Entry : Type 0 where
  pub text : Bytes
  pub path : Bytes
  pub start : ℕ
  pub end : ℕ

abbrev response : Bytes
response = codes "{\"thingID\":\"th\",\"accessToken\":\"tok\",\"access_token\":\"anon\"}"

-- A command with one alias and two actions.
abbrev pub command : Bytes
command =
    codes "{\"commandID\":\"c1\",\"actions\":[{\"led\":[{\"turnPower\":true},{\"setColor\":7}]}]}"

abbrev pub aliases_text : Bytes
aliases_text = codes "[{\"led\":[{\"turnPower\":true},{\"setColor\":7}]}]"

abbrev pub alias_text : Bytes
alias_text = codes "{\"led\":[{\"turnPower\":true},{\"setColor\":7}]}"

abbrev pub actions_text : Bytes
actions_text = codes "[{\"turnPower\":true},{\"setColor\":7}]"

abbrev pub turn_power_text : Bytes
turn_power_text = codes "{\"turnPower\":true}"

abbrev pub set_color_text : Bytes
set_color_text = codes "{\"setColor\":7}"

-- A command for the air conditioner of the Linux sample.
abbrev pub humidity_command : Bytes
humidity_command =
    codes "{\"commandID\":\"c1\",\"actions\":[{\"HumidityAlias\":[{\"turnPower\":true}]}]}"

abbrev pub humidity_aliases : Bytes
humidity_aliases = codes "[{\"HumidityAlias\":[{\"turnPower\":true}]}]"

abbrev pub humidity_text : Bytes
humidity_text = codes "{\"HumidityAlias\":[{\"turnPower\":true}]}"

abbrev pub power_text : Bytes
power_text = codes "[{\"turnPower\":true}]"

abbrev entry : Bytes → Bytes → ℕ → ℕ → Entry
entry text path start end = record { text = text; path = path; start = start; end = end }

abbrev table : List Entry
table =
    entry command (codes "/commandID") 14 16
    ∷ entry command (codes "/actions") 28 73
    ∷ entry aliases_text (codes "/[0]") 1 44
    ∷ entry actions_text (codes "/[0]") 1 19
    ∷ entry actions_text (codes "/[1]") 20 34
    ∷ entry humidity_command (codes "/commandID") 14 16
    ∷ entry humidity_command (codes "/actions") 28 68
    ∷ entry humidity_aliases (codes "/[0]") 1 39
    ∷ entry power_text (codes "/[0]") 1 19
    ∷ entry response (codes "thingID") 12 14
    ∷ entry response (codes "accessToken") 31 34
    ∷ entry response (codes "/access_token") 52 56
    ∷ entry response (codes "/firmwareVersion") 31 34
    ∷ []

abbrev find : List Entry → Bytes → Bytes → Option (ℕ × ℕ)
find [] text path = none
find (e ∷ es) text path =
    if bytes_eq e.text text && bytes_eq e.path path
    then some (e.start, e.end)
    else find es text path

abbrev key_of : Field → Bytes
key_of f = elim f.path [ some p ↦ p | none ↦ elim f.name [ some n ↦ n | none ↦ [] ] ]

abbrev read_field : Bytes → Field → Bool × Field
read_field text f = elim (find table text (key_of f)) [
  | none ↦ (false, record f { result = not_found })
  | some (start, end) ↦ (
    true,
    record f {
      result = field_success;
      start = start;
      end = end;
      field_copy = elim f.field_copy [
        | none ↦ none
        | some old ↦ some (take (end - start) (drop start text))
      ];
    },
  )
]

abbrev read_fields : Bytes → List Field → Bool × List Field
read_fields text [] = (true, [])
read_fields text (f ∷ fs) =
    let (found, g) = read_field text f in
    let (all, gs) = read_fields text fs in (found && all, g ∷ gs)

abbrev read_object : List Token → Bytes → ℕ → List Field → ParseResult × List Token × List Field
read_object tokens text n fields =
    let (all, fs) = read_fields text fields in
    (if all then success else partial_success, tokens, fs)

-- The ends of the key and the start and end of the value of an object whose key starts at 2.
abbrev member_places : Bytes → ℕ × ℕ × ℕ
member_places text =
    if bytes_eq text alias_text
    then (5, 7, 42)
    else (if bytes_eq text turn_power_text
        then (11, 13, 17)
        else (if bytes_eq text humidity_text then (15, 17, 37) else (10, 12, 13)))

abbrev parse : Bytes → ℕ → List Token → ℤ × List Token
parse text n tokens =
    let (key_end, value_start, value_end) = member_places text in
    (
      pos 3,
      record { type = object; start = 0; end = n }
          ∷ record { type = string; start = 2; end = key_end }
          ∷ record { type = primitive; start = value_start; end = value_end }
          ∷ tokens,
    )

abbrev append : {W : Type 0} → Bytes → ℕ → Kii Draft W → W → ℤ × Kii Draft W × W
append s n k w =
    if leb (length s) k.internals.room
    then (
      pos 0,
      record k {
        internals = record k.internals {
          body = k.internals.body ++ s;
          room = k.internals.room - length s;
        };
      },
      w,
    )
    else (pos 1, k, w)

abbrev init_core :
    {W : Type 0}
    → Option Bytes
    → Option Bytes
    → Option Bytes
    → Bytes
    → Kii Draft W
    → ℤ × Kii Draft W
init_core (some app_id) (some app_key) (some app_host) name k =
    (pos 0, record k { app_id = app_id; app_key = app_key; app_host = app_host })
init_core app_id app_key app_host name k = (minus_one, k)

-- An SDK whose kii_api_call_start answers an authenticated request with `refusal`, and whose requests
-- are answered with `status`; what is sent is logged.
abbrev pub server : {W : Type 0} → (Bytes → W → W) → ℤ → ℤ → Sdk Draft W
server log refusal status = record {
  noassert = false;
  author_id_size = 64;
  access_token_size = 128;
  ulong_buf_size = 23;
  uninitialized = 0 ∷ [];
  zeroed_internals = record { head = []; body = []; room = 0; capacity = 0 };
  zeroed_http_error = http_none;
  zeroed_result = field_success;
  memset = λ p b n w. w;
  _kii_init_with_info = init_core;
  kii_api_call_start = λ method path content_type auth k w. (
    if auth then refusal else pos 0,
    record k {
      internals = record {
        head = method ++ (codes " " ++ path);
        body = [];
        room = if auth then k.internals.capacity else 200;
        capacity = k.internals.capacity;
      };
    },
    w,
  );
  kii_api_call_append_body = append;
  kii_api_call_run = λ k w. (
    pos 0,
    record k { response_code = status; response_body = response },
    log k.internals.body (log k.internals.head w),
  );
  kii_json_read_object = read_object;
  jsmn_parse = parse;
  kii_push_start_routine = λ entry k w. (pos 0, k, w);
}

abbrev pub sdk_with : ℤ → ℤ → Sdk Draft Log
sdk_with = server (λ text w. text ∷ w)

abbrev pub sdk : Sdk Draft Log
sdk = sdk_with (pos 0) (pos 200)

abbrev pub buffering_of :
    {W : Type 0} (log : Bytes → W → W) (refusal status : ℤ) → Buffering (server log refusal status)
buffering_of log refusal status = record {
  body = λ i. i.body;
  room = λ i. i.room;
  grow = λ s i. record i { body = i.body ++ s; room = i.room - length s };
  spill = λ s i. i;
  failure = pos 1;
  failed = refl;
  fits = λ s k w h. rw (le→leb (length s) k.internals.room h) refl;
  overflows = λ s k w h. rw (lt→leb_false (length s) k.internals.room h) refl;
  body-grow = λ s i h. refl;
  room-grow = λ s i h. omega arith;
  room-spill = λ s i. omega arith;
}

abbrev pub buffering : (refusal status : ℤ) → Buffering (sdk_with refusal status)
buffering = buffering_of (λ text w. text ∷ w)

abbrev pub author : Author
author = record { author_id = codes "th"; access_token = codes "tok" }

abbrev pub kii : Kii Draft Log
kii = record (zeroed_kii sdk) {
  app_id = codes "app";
  app_key = codes "key";
  author = author;
  delay_ms_cb = some (λ msec w. codes "delay" ∷ w);
  internals = record { head = []; body = []; room = 200; capacity = 200 };
}

abbrev pub error_info : ErrorInfo
error_info = record { code = invalid_state; http_status_code = pos 0; error_code = [] }

abbrev pub context : Context Draft Log
context = record { kii = kii; error = some error_info; message = command; world = [] }

abbrev pub host : ThingState → Host Draft Log
host state = record {
  thing = record (zeroed_thing sdk) { command_handler = kii; state_updater = kii; state = state };
  error = some error_info;
  world = [];
}

-- Every action but setColor succeeds.
abbrev pub handler : ActionHandler Log
handler alias name value error w =
    if bytes_eq name (codes "setColor")
    then (false, codes "no color" ++ 0 ∷ [], name ∷ w)
    else (true, error, name ∷ w)

-- Where a run ended with a value, its last state; else the given one.
abbrev pub state_after : {S A : Type 0} → S → Outcome S A → S
state_after s (done a t) = t
state_after s aborted = s
state_after s fault = s
state_after s unfinished = s
