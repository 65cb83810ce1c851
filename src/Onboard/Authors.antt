-- ===== src/Onboard/Authors.antt =====
-- The authors of the two SDK instances after onboarding.
use thing_if_thing_sdk.Prelude.{true, Bytes, length, ◌<◌, Option, some, ◌≡◌, arith}
use thing_if_thing_sdk.Flow.{Ensures}
use thing_if_thing_sdk.Kii.{Sdk, Author, Address}
use thing_if_thing_sdk.Thing.{
  Host, CommandHandlerResource, StateUpdaterResource, SystemCb, onboarded,
}
use thing_if_thing_sdk.Onboard.{
  OnboardOptions, prv_set_author, onboard_with_vendor_thing_id, onboard_with_thing_id,
  init_kii_thing_if_with_onboarded_thing,
}

module _ {I W : Type 0} (sdk : Sdk I W) where
  -- The author's arrays hold its texts with their NULs.
  abbrev pub AuthorFits : Author → Type 0
  AuthorFits a =
      (length a.author_id < sdk.author_id_size) × (length a.access_token < sdk.access_token_size)

  -- Both kii_t of the instance have the same author, which fits its arrays, and the state says so.
  pub record IsOnboarded (h : Host I W) : Type 0 where
    pub same : h.thing.state_updater.author ≡ h.thing.command_handler.author
    pub fits : AuthorFits h.thing.state_updater.author
    pub state : h.thing.state ≡ onboarded

  -- prv_set_author refuses exactly what does not fit, and else stores both texts whole.
  set_author_lem :
      (id token : Bytes) {a : Author}
      → prv_set_author sdk id token ≡ some a
      → (a ≡ record { author_id = id; access_token = token }) × AuthorFits a
  unfolding prv_set_author
  set_author_lem id token e = ground arith

  module _ (id password : Option Bytes) (options : OnboardOptions) (h : Host I W) where
    vendor-IsOnboarded :
        Ensures
          (λ ok h'. ok ≡ true → IsOnboarded h')
          (onboard_with_vendor_thing_id sdk id password options h)
    unfolding onboard_with_vendor_thing_id prv_set_author
    vendor-IsOnboarded = ground arith

    thing-IsOnboarded :
        Ensures
          (λ ok h'. ok ≡ true → IsOnboarded h')
          (onboard_with_thing_id sdk id password options h)
    unfolding onboard_with_thing_id prv_set_author
    thing-IsOnboarded = ground arith

    -- An onboarding by vendor thing ID or by thing ID that returns KII_TRUE leaves the state
    -- updater with the author of the command handler, within its arrays, and the state ONBOARDED.
    pub onboard-IsOnboarded :
        Ensures
          (λ ok h'. ok ≡ true → IsOnboarded h')
          (onboard_with_vendor_thing_id sdk id password options h)
        × Ensures
            (λ ok h'. ok ≡ true → IsOnboarded h')
            (onboard_with_thing_id sdk id password options h)
    onboard-IsOnboarded = (vendor-IsOnboarded, thing-IsOnboarded)

  -- init_kii_thing_if_with_onboarded_thing, where it returns KII_TRUE, gives both instances the
  -- thing ID and the access token that it was called with, and the state ONBOARDED.
  pub init_kii_thing_if_with_onboarded_thing-IsOnboarded :
      (self : Address) (app_id app_key app_host : Option Bytes) (thing_id access_token : Bytes)
      (commands : Option (CommandHandlerResource I W)) (states : Option (StateUpdaterResource I W))
      (system_cb : SystemCb W) (resource_cb : Address) (h : Host I W)
      → Ensures
          (λ ok h'.
            ok ≡ true
            → IsOnboarded h'
              × (h'.thing.command_handler.author
                  ≡ record { author_id = thing_id; access_token = access_token }))
          (init_kii_thing_if_with_onboarded_thing sdk self app_id app_key app_host thing_id
            access_token commands states system_cb resource_cb h)
  unfolding init_kii_thing_if_with_onboarded_thing prv_set_author
  init_kii_thing_if_with_onboarded_thing-IsOnboarded self app_id app_key app_host thing_id
        access_token commands states system_cb resource_cb h =
      ground arith
