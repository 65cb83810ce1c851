-- ===== src/Onboard/Reading.antt =====
-- The ends of prv_kii_thing_if_get_anonymous_token and of the functions that onboard: the request is
-- run, and its response is read into the author of the kii_t.
use thing_if_thing_sdk.Prelude.{
  Bool, true, false, Bool-cases, inl, inr, codes, length, pos, minus_one, List, [], ◌∷◌, some, ◌≡◌,
  ◌≢◌, refl, sym, ap, ◌∙◌, nonzero, if◌then◌else◌, arith,
}
use mathlib.Core.Bool.{true≢false}
use thing_if_thing_sdk.Flow.{
  Outcome, done, aborted, fault, unfinished, Run, Resolves, pure, continue, ◌>>=◌,
}
use thing_if_thing_sdk.Kii.{Sdk, Author, Field, Token, ParseResult, success, field_string}
use thing_if_thing_sdk.Context.{Context, on_error, invalid_payload}
use thing_if_thing_sdk.Session.{
  is_success, copied_text, field_by_path, field_by_name, prv_execute_http_session,
  prv_kii_thing_if_json_read_object, prv_thing_if_parse_onboarding_response,
}
use thing_if_thing_sdk.Session.Verdict.{Judged, Unexpected, prv_execute_http_session-Judged}
use thing_if_thing_sdk.Onboard.{read_access_token, finish_onboarding}

module _ {I W : Type 0} (sdk : Sdk I W) where
  -- What is looked up in a response, and the author that it makes.
  pub record Reading : Type 0 where
    pub fields : Author → List Field
    pub stored : List Field → Author → Author

  -- The access token at its path.
  abbrev pub token_reading : Reading
  token_reading = record {
    fields = λ a.
        field_by_path sdk (codes "/access_token") field_string (some a.access_token)
          sdk.access_token_size
        ∷ [];
    stored =
        λ fs a. record { author_id = a.author_id; access_token = copied_text fs 0 a.access_token };
  }

  -- The thing's ID and its access token, by their names.
  abbrev pub author_reading : Reading
  author_reading = record {
    fields = λ a.
        field_by_name sdk (codes "thingID") field_string (some a.author_id) sdk.author_id_size
        ∷ field_by_name sdk (codes "accessToken") field_string (some a.access_token)
            sdk.access_token_size
        ∷ [];
    stored = λ fs a. record {
      author_id = copied_text fs 0 a.author_id;
      access_token = copied_text fs 1 a.access_token;
    };
  }

  module _ (reading : Reading) (t : Context I W) where
    -- What the SDK's parser finds in the response.
    abbrev pub found : ParseResult × List Token × List Field
    found =
        sdk.kii_json_read_object t.kii.tokens t.kii.response_body (length t.kii.response_body)
          (reading.fields t.kii.author)

    -- The context with what was found as its author.
    abbrev pub with_found : Context I W
    with_found = record t {
      kii = record t.kii { tokens = found.1; author = reading.stored found.2 t.kii.author };
    }

    -- The same, with the error INVALID_PAYLOAD where the caller wants one.
    abbrev pub with_invalid : Context I W
    with_invalid = record with_found {
      error = on_error (λ e. record e { code = invalid_payload }) t.error;
    }

  module _ {A : Type 0} (good bad : A) (reading : Reading) (c : Context I W) where
    -- The request in `c` is run and its response read: the run or the status is no success; or the
    -- parser finds all that is looked up, which becomes the author; or it does not; or the run
    -- meets the assertion of prv_execute_http_session.
    pub data Finishes : Outcome (Context I W) A → Type 0 where
      refused : {t : Context I W} → Judged sdk c false t → Finishes (done bad t)
      got :
          {t : Context I W}
          → Judged sdk c true t
          → (found reading t).0 ≡ success
          → Finishes (done good (with_found reading t))
      unreadable :
          {t : Context I W}
          → Judged sdk c true t
          → (found reading t).0 ≢ success
          → Finishes (done bad (with_invalid reading t))
      stopped : Unexpected sdk c → Finishes aborted

    is_success-true : (p : ParseResult) → is_success p ≡ true → p ≡ success
    is_success-true p h = ground arith

    is_success-false : (p : ParseResult) → is_success p ≡ false → p ≢ success
    is_success-false p h = λ e. true≢false (sym (ap is_success e) ∙ h)

    session_ends :
        (read : Run (Context I W) A)
        → ((t : Context I W)
            → read t ≡ (
                if is_success (found reading t).0
                then done good (with_found reading t)
                else done bad (with_invalid reading t)))
        → (r : Outcome (Context I W) Bool) → Resolves (Judged sdk c) (Unexpected sdk c) r
        → Finishes (continue (λ succeeded. if succeeded then read else pure bad) r)
    session_ends read reads (done true t) judged =
        elim (Bool-cases (is_success (found reading t).0)) [
          | inl e ↦ rw (reads t, e) (got judged (is_success-true _ e))
          | inr e ↦ rw (reads t, e) (unreadable judged (is_success-false _ e))
        ]
    session_ends read reads (done false t) judged = refused judged
    session_ends read reads aborted unexpected = stopped unexpected
    session_ends read reads fault never = absurd never
    session_ends read reads unfinished never = absurd never

  read_access_token-reads :
      (t : Context I W)
      → read_access_token sdk t ≡ (
          if is_success (found token_reading t).0
          then done (pos 0) (with_found token_reading t)
          else done minus_one (with_invalid token_reading t))
  unfolding read_access_token prv_kii_thing_if_json_read_object
  read_access_token-reads t = elim (Bool-cases (is_success (found token_reading t).0)) [
    | inl e ↦ rw e refl
    | inr e ↦ rw e refl
  ]

  pub token-Finishes :
      (c : Context I W)
      → Finishes (pos 0) minus_one token_reading c (
          (prv_execute_http_session sdk >>= λ succeeded.
          if succeeded then read_access_token sdk else pure minus_one)
            c)
  token-Finishes c =
      session_ends (pos 0) minus_one token_reading c (read_access_token sdk) read_access_token-reads
        (prv_execute_http_session sdk c) (prv_execute_http_session-Judged sdk c)

  abbrev parsed_author : Run (Context I W) Bool
  parsed_author = prv_thing_if_parse_onboarding_response sdk >>= λ parsed.
      if nonzero parsed then pure false else pure true

  parsed_author-reads :
      (t : Context I W)
      → parsed_author t ≡ (
          if is_success (found author_reading t).0
          then done true (with_found author_reading t)
          else done false (with_invalid author_reading t))
  unfolding prv_thing_if_parse_onboarding_response prv_kii_thing_if_json_read_object
  parsed_author-reads t = elim (Bool-cases (is_success (found author_reading t).0)) [
    | inl e ↦ rw e refl
    | inr e ↦ rw e refl
  ]

  pub finish_onboarding-Finishes :
      (c : Context I W) → Finishes true false author_reading c (finish_onboarding sdk c)
  unfolding finish_onboarding
  finish_onboarding-Finishes c =
      session_ends true false author_reading c parsed_author parsed_author-reads
        (prv_execute_http_session sdk c) (prv_execute_http_session-Judged sdk c)
