-- ===== src/Context.antt =====
-- What the functions of kii_thing_if.c share: the error types of include/kii_thing_if.h, the state
-- that a function over a kii_t works on, and the calls that it makes of the Kii SDK.
use thing_if_thing_sdk.Prelude.{
  Bool, true, false, Bytes, length, ℕ, ℤ, ◌%◌, ◌^◌, Option, none, some, if◌then◌else◌, leb,
}
use thing_if_thing_sdk.Flow.{done, aborted, fault, Run}
use thing_if_thing_sdk.Kii.{Kii, Author}

-- kii_thing_if_error_code_t
pub data ErrorCode : Type 0 where
  invalid_state http socket insufficient_buffer insufficient_arg_buffer invalid_payload : ErrorCode

-- kii_thing_if_error_t; `error_code` is the text in its array of 64 bytes.
pub record ErrorInfo : Type 0 where
  pub code : ErrorCode
  pub http_status_code : ℤ
  pub error_code : Bytes

abbrev pub error_code_size : ℕ
error_code_size = 64

-- What a function over a kii_t reads and writes. `error` is what the argument of that name points
-- to, `none` for NULL; `message` is the pushed message in its buffer; `world` is all the rest.
pub record Context (I W : Type 0) : Type 0 where
  pub kii : Kii I W
  pub error : Option ErrorInfo
  pub message : Bytes
  pub world : W

abbrev pub on_error : (ErrorInfo → ErrorInfo) → Option ErrorInfo → Option ErrorInfo
on_error f none = none
on_error f (some e) = some (f e)

module _ {I W : Type 0} where
  -- A call of an SDK function that works on the kii_t.
  abbrev pub call : (Kii I W → W → ℤ × Kii I W × W) → Run (Context I W) ℤ
  call f c = let (r, k, w) = f c.kii c.world in done r (record c { kii = k; world = w })

  -- `if (error != NULL) { error->code = code; }`
  abbrev pub set_error : ErrorCode → Run (Context I W) (Unit {0})
  set_error code c = done tt (record c { error = on_error (λ e. record e { code = code }) c.error })

  abbrev pub set_author : Author → Run (Context I W) (Unit {0})
  set_author a c = done tt (record c { kii = record c.kii { author = a } })

-- size_t, at 64 bits.
abbrev pub size_mod : ℕ
size_mod = 2 ^ 64

abbrev pub to_size : ℕ → ℕ
to_size n = n % size_mod

-- M_KII_THING_IF_ASSERT(0)
abbrev pub assert_fails : {S : Type 0} → Bool → Run S (Unit {0})
assert_fails true s = done tt s
assert_fails false s = aborted

-- sprintf of a text into an array of `size` bytes: with its NUL it must fit.
abbrev pub sprintf_into : {S : Type 0} → ℕ → Bytes → Run S Bytes
sprintf_into size s c = if leb size (length s) then fault else done s c
