-- ===== src/Onboard/Sends.antt =====
-- What the requests of an onboarding hold when they are run.
use thing_if_thing_sdk.Prelude.{
  true, false, sym, Bytes, codes, length, ◌+◌, ◌<◌, ◌≤◌, ◌++◌, ℤ, pos, minus_one, nonzero, some,
  ◌≡◌, refl, ◌∙◌, arith, lt→leb_false, if◌then◌else◌, length-append,
}
use thing_if_thing_sdk.Flow.{Outcome, done, pure, bind_done, ◌>>=◌}
use thing_if_thing_sdk.Kii.{Kii, Sdk}
use thing_if_thing_sdk.Context.{Context, to_size, sprintf_into}
use thing_if_thing_sdk.Request.Writes.{Buffering, Appended, at}
use thing_if_thing_sdk.Request.Objects.{json_object}
use thing_if_thing_sdk.ResourcePath.{app_path, oauth_path}
use thing_if_thing_sdk.Session.{prv_execute_http_session}
use thing_if_thing_sdk.Onboard.{
  content_type_vendor_thing_id, content_type_thing_id, OnboardOptions, token_body_fails,
  onboard_body_fails, read_access_token, prv_kii_thing_if_get_anonymous_token,
  prv_onboard_with_vendor_thing_id, prv_onboard_with_thing_id,
}
use thing_if_thing_sdk.Onboard.Failures.{
  start_failure, with_error, onboarding, start_with, after_start, by_vendor_id, by_thing_id,
}
use mathlib.Core.Path.{subst}
use thing_if_thing_sdk.Onboard.Reading.{
  Finishes, token_reading, author_reading, token-Finishes, finish_onboarding-Finishes,
}
use thing_if_thing_sdk.Onboard.Bodies.{
  token_members, onboard_members, token_body_fails-Tests, onboard_body_fails-Tests,
}

module _ {I W : Type 0} (sdk : Sdk I W) (c : Context I W) where
  abbrev pub token_path : Bytes
  token_path = app_path ++ (c.kii.app_id ++ oauth_path)

  -- The context once the token request is started.
  abbrev pub token_start : ℤ × Kii I W × W
  token_start =
      sdk.kii_api_call_start (codes "POST") token_path (some (codes "application/json")) false c.kii
        c.world

  abbrev pub token_started : Context I W
  token_started = let (r, k, w) = token_start in record c { kii = k; world = w }

  size_lem :
      length token_path < 64
      → to_size (length app_path + length c.kii.app_id + length oauth_path) < 64
  size_lem h = omega (arith, length-append c.kii.app_id oauth_path)

  path_written :
      length token_path < 64
      → ◌≡◌ {A = Outcome (Context I W) Bytes} (sprintf_into 64 token_path c) (done token_path c)
  path_written h = rw (lt→leb_false 64 (length token_path) h) refl

module _ {I W : Type 0} (sdk : Sdk I W) (buffering : Buffering sdk) (c : Context I W) where
  -- Where the path and the body fit, prv_kii_thing_if_get_anonymous_token starts an unauthenticated
  -- POST to the OAuth path of the app, writes exactly the client credentials, the app's ID and key,
  -- to it, and runs it. A run or a status that is no success fails the function; otherwise the text
  -- at /access_token in the response becomes the author's access token, or the error is
  -- INVALID_PAYLOAD where the parser does not find it.
  pub prv_kii_thing_if_get_anonymous_token-sends :
      length (token_path sdk c) < 64
      → nonzero (token_start sdk c).0 ≡ false
      → let body =
          json_object (token_members (token_start sdk c).1.app_id (token_start sdk c).1.app_key) in
        length body ≤ buffering.room (token_start sdk c).1.internals
        → (j : I) × Appended sdk buffering body (token_start sdk c).1.internals j
          × Finishes sdk
              (pos 0)
              minus_one
              (token_reading sdk)
              (at (token_started sdk c) j)
              (prv_kii_thing_if_get_anonymous_token sdk c)
  unfolding prv_kii_thing_if_get_anonymous_token
  prv_kii_thing_if_get_anonymous_token-sends fits started h =
      let app_id = (token_start sdk c).1.app_id in
      let app_key = (token_start sdk c).1.app_key in
      let written : (j : I)
          → token_body_fails sdk app_id app_key (token_started sdk c)
            ≡ done false (at (token_started sdk c) j)
          → prv_kii_thing_if_get_anonymous_token sdk c
            ≡ (prv_execute_http_session sdk >>= λ succeeded.
                  if succeeded then read_access_token sdk else pure minus_one)
                (at (token_started sdk c) j) =
        λ j e. rw (lt→leb_false 64 _ (size_lem sdk c fits)) (
          bind_done (sprintf_into 64 (token_path sdk c)) _ (path_written sdk c fits)
          ∙ rw started (bind_done (token_body_fails sdk app_id app_key) _ e)) in
      let (j, e, a) =
        (token_body_fails-Tests sdk buffering app_id app_key).when_fits (token_started sdk c) h in
      (
        j,
        a,
        subst (Finishes sdk (pos 0) minus_one (token_reading sdk) (at (token_started sdk c) j))
            (sym (written j e)) (token-Finishes sdk (at (token_started sdk c) j)),
      )

module _ {I W : Type 0} (sdk : Sdk I W) (buffering : Buffering sdk) (id password : Bytes)
    (options : OnboardOptions) (c c1 : Context I W)
    (token : prv_kii_thing_if_get_anonymous_token sdk c ≡ done (pos 0) c1)
    (fits : length (onboarding sdk c1) < 64) where
  -- The onboarding by thing ID from the written body on, whether or not its request was started.
  by_thing_id-Finishes :
      (j : I)
      → onboard_body_fails sdk
          (codes "thingID")
          (some id)
          (some password)
          options
          (after_start sdk c1 content_type_thing_id)
        ≡ done false (at (after_start sdk c1 content_type_thing_id) j)
      → Finishes sdk true false
          (author_reading sdk)
          (at (after_start sdk c1 content_type_thing_id) j)
          (prv_onboard_with_thing_id sdk (some id) (some password) options c)
  by_thing_id-Finishes j e =
      subst
        (Finishes sdk true false (author_reading sdk)
          (at (after_start sdk c1 content_type_thing_id) j))
        (sym (
          by_thing_id sdk (some id) (some password) options c c1 token fits
          ∙ bind_done (onboard_body_fails sdk (codes "thingID") (some id) (some password) options) _
              e))
        (finish_onboarding-Finishes sdk (at (after_start sdk c1 content_type_thing_id) j))

  -- Once the anonymous token is there, both ways to onboard start a POST to the onboarding path of
  -- the app, each with its content type, write exactly the members of the onboarding to it, the ID
  -- under its own key, and run it, if the request starts and the body fits. A run or a status that is
  -- no success fails the function; otherwise the texts of thingID and accessToken in the response
  -- become the author, or the error is INVALID_PAYLOAD where the parser does not find both.
  pub onboarding-sends :
      nonzero (start_with sdk c1 content_type_vendor_thing_id).0 ≡ false
      → let vendor = json_object (onboard_members (codes "vendorThingID") id password options) in
        let thing = json_object (onboard_members (codes "thingID") id password options) in
        let c2 = after_start sdk c1 content_type_vendor_thing_id in
        let c3 = after_start sdk c1 content_type_thing_id in
        length vendor ≤ buffering.room c2.kii.internals
        → length thing ≤ buffering.room c3.kii.internals
        → ((i : I) × Appended sdk buffering vendor c2.kii.internals i
            × Finishes sdk true false
                (author_reading sdk)
                (at c2 i)
                (prv_onboard_with_vendor_thing_id sdk (some id) (some password) options c))
          × ((j : I) × Appended sdk buffering thing c3.kii.internals j
              × Finishes sdk true false
                  (author_reading sdk)
                  (at c3 j)
                  (prv_onboard_with_thing_id sdk (some id) (some password) options c))
  onboarding-sends started h g =
      let c2 = after_start sdk c1 content_type_vendor_thing_id in
      let (i, e, a) =
        (onboard_body_fails-Tests sdk buffering (codes "vendorThingID") id password
            options).when_fits
          c2 h in
      let (j, e', b) =
        (onboard_body_fails-Tests sdk buffering (codes "thingID") id password options).when_fits
          (after_start sdk c1 content_type_thing_id) g in
      (
        (
          i,
          a,
          subst (Finishes sdk true false (author_reading sdk) (at c2 i))
              (sym (
                by_vendor_id sdk (some id) (some password) options c c1 token fits
                ∙ (rw started (
                    bind_done
                      (onboard_body_fails sdk (codes "vendorThingID") (some id) (some password)
                        options)
                      _ e))))
              (finish_onboarding-Finishes sdk (at c2 i)),
        ),
        (j, b, by_thing_id-Finishes j e'),
      )

  -- Where the SDK refuses to start the onboarding request, the function for vendor thing IDs returns
  -- KII_FALSE, the error code being INSUFFICIENT_BUFFER and the rest of the error as it was. The
  -- function for thing IDs writes the body and runs a request all the same, and stores an author
  -- from its response if that succeeds.
  pub failed_start-runs :
      nonzero (start_with sdk c1 content_type_vendor_thing_id).0 ≡ true
      → nonzero (start_with sdk c1 content_type_thing_id).0 ≡ true
      → let thing = json_object (onboard_members (codes "thingID") id password options) in
        let c3 = after_start sdk c1 content_type_thing_id in
        length thing ≤ buffering.room c3.kii.internals
        → (prv_onboard_with_vendor_thing_id sdk (some id) (some password) options c
            ≡ done false (with_error (after_start sdk c1 content_type_vendor_thing_id)))
          × ((j : I) × Appended sdk buffering thing c3.kii.internals j
              × Finishes sdk true false
                  (author_reading sdk)
                  (at c3 j)
                  (prv_onboard_with_thing_id sdk (some id) (some password) options c))
  failed_start-runs refused_by_vendor refused_by_thing g =
      let (j, e, b) =
        (onboard_body_fails-Tests sdk buffering (codes "thingID") id password options).when_fits
          (after_start sdk c1 content_type_thing_id) g in
      (
        (start_failure sdk (some id) (some password) options c c1 token fits refused_by_vendor).0,
        (j, b, by_thing_id-Finishes j e),
      )
